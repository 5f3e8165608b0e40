-- ===== src/Dsm/Context/New.antt =====
-- user_session_save of the request that a session is made for.
use code_snippets.Dsm.Ccdb.Tids.{set_tid_local-session}
use code_snippets.Dsm.Ccdb.Tid.{us_id_of, set_tid_local}
use code_snippets.Dsm.Ccdb.{user_session_id_valid}
use Prim.Native.Nat.{bit_and}
use code_snippets.Dsm.Context.Save.{peer_of, go_on, set_peer_fe, Saved}
use code_snippets.Prelude.Int.{pos_part, pos}
use code_snippets.Dsm.Ccdb.Session.{package_of_request, package_of, state_set, asm_id_of}
use code_snippets.Dsm.Context.Diam.{
  assign_tid, with_tid, save_type, with_peer, start_state, start_asm, save_new,
}
use code_snippets.Prelude.{◌∙◌, ◌<◌, sym, false, ◌≡◌, ◌==◌, ℕ, true, some, refl, arith, ap}
use code_snippets.Dsm.Fsm.{stt_ccas, stt, State, ccas, idle}
use code_snippets.Dsm.Context.{set_peer_fe_succ, Contexts, DiamCtx, Conf, Codes, Us, count}

-- A session on list `b` as user_session_init leaves its state.
abbrev pub fresh : ℕ → Us → Us
fresh b p = record p { core = record p.core { head = some b; asm_state = State.undef } }

pub fresh-lem :
    (b : ℕ) (p : Us) → p.core.head ≡ some b → p.core.asm_state ≡ State.undef → fresh b p ≡ p
fresh-lem b p h s =
    ap (λ x. record p { core = record p.core { head = x; asm_state = State.undef } }) (sym h)
    ∙ ap (λ x. record p { core = record p.core { asm_state = x } }) (sym s)

-- The second step of two, where the first succeeds.
pub go_on-next {ℓ} :
    (P : Saved → Type ℓ) (s : Saved) (next : Us → Contexts → Saved)
    → s.0 ≡ true
    → P (next s.1 s.2)
    → P (go_on s next)
go_on-next P (true, p, c) next e h = h
go_on-next P (false, p, c) next e h = absurd (ground arith)

module _ (k : Codes) (f : Conf) (i b : ℕ) (m : DiamCtx) where
  -- A session without transaction ids, with the state machine in its first state.
  pub record Started (p : Us) : Type 0 where
    pub head : p.core.head ≡ some b
    pub asm_id : p.core.asm_id ≡ ccas
    pub asm_state : p.core.asm_state ≡ idle
    pub tid_local : p.core.tid_local ≡ 0
    pub tid_remote : p.core.tid_remote ≡ 0

  pub save_new-Started :
      (p : Us) (c : Contexts)
      → m.appl_id ≡ k.names.app_id_cca
      → let (done, q, d) = save_new k f m (fresh b p) c in
        (done ≡ true) × Started q × (d.tids ≡ c.tids)
  unfolding save_new start_asm asm_id_of start_state state_set stt stt_ccas
  save_new-Started p c a =
      let e : (m.appl_id == k.names.app_id_cca) ≡ true = ground arith in
      rw e (
        refl,
        record {
          head = refl;
          asm_id = refl;
          asm_state = refl;
          tid_local = refl;
          tid_remote = refl;
        },
        refl,
      )

-- A session on list `b` without transaction ids.
abbrev pub begun : ℕ → Us → Us
begun b p = record p { core = record p.core { head = some b; tid_local = 0; tid_remote = 0 } }

pub begun-lem :
    (b : ℕ) (p : Us)
    → p.core.head ≡ some b
    → p.core.tid_local ≡ 0
    → p.core.tid_remote ≡ 0
    → begun b p ≡ p
begun-lem b p h l r =
    ap (λ x. record p { core = record p.core { head = x; tid_local = 0; tid_remote = 0 } }) (sym h)
    ∙ ap (λ x. record p { core = record p.core { tid_local = x; tid_remote = 0 } }) (sym l)
    ∙ ap (λ x. record p { core = record p.core { tid_remote = x } }) (sym r)

module _ (k : Codes) (f : Conf) (i b : ℕ) (m : DiamCtx) (fe peer csi : ℕ) where
  pub set_peer_fe-known :
      (c : Contexts)
      → f.fe_number ≡ pos fe
      → 0 < fe
      → f.associate (pos fe) ≡ some (pos peer)
      → set_peer_fe k f c ≡ (pos peer, count set_peer_fe_succ c)
  unfolding set_peer_fe peer_of
  set_peer_fe-known c e h a =
      let some_fe : (fe == 0) ≡ false = ground arith in
      let found : (pos_part f.fe_number == 0) ≡ false = ap (λ n. pos_part n == 0) e ∙ some_fe in
      rw found (
        ap (λ n. peer_of k.uninitialized (f.associate n) c) e
        ∙ ap (λ x. peer_of k.uninitialized x c) a)

  -- What save_package makes of the session.
  pub record Packaged (q p : Us) : Type 0 where
    pub command_code : p.core.command_code ≡ m.command_code
    pub peer_fe : p.rest.peer_fe ≡ pos peer
    pub package_type : p.rest.package_type ≡ k.names.package_type_request
    pub asm_id : p.core.asm_id ≡ q.core.asm_id
    pub asm_state : p.core.asm_state ≡ q.core.asm_state

  pub with_peer-Packaged :
      (q : Us) (c : Contexts)
      → 0 < peer
      → (bit_and m.flags k.names.diam_cmd_flag_r == 0) ≡ false
      → (k.names.package_type_request == 0) ≡ false
      → let (done, p, d) = with_peer k f (pos peer, c) m (begun b q) in
        (done ≡ true) × Packaged q p × (d.tids ≡ c.tids)
  unfolding with_peer save_type package_of package_of_request
  with_peer-Packaged q c h r t =
      let some_peer : (peer == 0) ≡ false = ground arith in
      rw (r, some_peer, t)
        (
          refl,
          record {
            command_code = refl;
            peer_fe = refl;
            package_type = refl;
            asm_id = refl;
            asm_state = refl;
          },
          refl,
        )

  pub with_tid-session :
      (p : Us) (c : Contexts)
      → 0 < fe
      → fe < 16
      → 0 < peer
      → peer < 16
      → csi < 2
      → user_session_id_valid i ≡ true
      → let (done, q, d) =
          with_tid k f (set_tid_local (pos fe) (pos csi) (pos peer) i c.tids) p c in
        (done ≡ true)
        × (us_id_of q.core.tid_local ≡ i)
        × (q.rest.package_type ≡ p.rest.package_type)
        × (q.core.asm_id ≡ p.core.asm_id)
        × (q.core.asm_state ≡ p.core.asm_state)
  unfolding with_tid
  with_tid-session p c f0 f1 p0 p1 c1 v =
      let (a, b, d) = set_tid_local-session fe peer csi i c.tids f0 f1 p0 p1 c1 v in
      let some_tid : ((set_tid_local (pos fe) (pos csi) (pos peer) i c.tids).0 == 0) ≡ false =
        ground arith in
      rw some_tid (refl, a, refl, refl, refl)

  pub assign_tid-known :
      (p : Us) (c : Contexts)
      → f.fe_number ≡ pos fe
      → f.csi_number ≡ pos csi
      → p.rest.peer_fe ≡ pos peer
      → assign_tid k f i p c
        ≡ with_tid k f (set_tid_local (pos fe) (pos csi) (pos peer) i c.tids) p c
  unfolding assign_tid
  assign_tid-known p c a b d =
      ap (λ t. with_tid k f t p c)
        (ap (λ x. set_tid_local x f.csi_number p.rest.peer_fe i c.tids) a
          ∙ ap (λ x. set_tid_local (pos fe) x p.rest.peer_fe i c.tids) b
          ∙ ap (λ x. set_tid_local (pos fe) (pos csi) x i c.tids) d)
