-- ===== src/Dsm/Context/Memory.antt =====
-- What user_session_save of a Diameter message leaves as it was: the other sessions and the lists.
use code_snippets.Dsm.Context.Diam.{
  with_tid, assign_tid, with_peer, identified, start_state, save_diam, save_each, save_rest,
  save_tid, save_package, save_type, save_new, start_asm,
}
use code_snippets.Dsm.Context.Save.{is_initial, trap_us, set_peer_fe, peer_of, go_on, Saved}
use Prim.Native.Nat.{bit_and}
use code_snippets.Dsm.Ccdb.Session.{
  package_type_req, answer_of_type, package_of_request, package_of_answer, trap_of, package_of,
  state_set, asm_id_of,
}
use code_snippets.Dsm.Ccdb.{Names, UserSession, Ccdb}
use code_snippets.Prelude.Int.{pos_part, ℤ}
use code_snippets.Prelude.{
  ◌∙◌, ◌==◌, ◌&&◌, true, ltb, inr, inl, false, ap, Bool-cases, ◌≡◌, ℕ, some, refl, none, arith,
  Option, List,
}
use code_snippets.Dsm.Fsm
use code_snippets.Dsm.Fsm.{Event, stt, Ste, ccas, AppSm}
use code_snippets.Dsm.Context.{DiamCtx, Contexts, Conf, Us, Codes, Ccdb}

-- The sessions' memory and the lists.
abbrev pub lists_of : Ccdb → (ℕ → UserSession) × (ℕ → List ℕ)
lists_of c = (c.session, c.bucket)

asm_id_of-lists :
    (k : Names) (h : Option ℕ) (x : ℕ) (c : Ccdb) → lists_of (asm_id_of k h x c).1 ≡ lists_of c
unfolding asm_id_of
asm_id_of-lists k none x c = refl
asm_id_of-lists k (some b) x c = ground arith

pub state_set-lists :
    (h : Option ℕ) (t : Fsm.Meas × Ste) (c : Ccdb) → lists_of (state_set h t c).1 ≡ lists_of c
unfolding state_set
state_set-lists none t c = refl
state_set-lists (some b) t c = refl

answer_of_type-lists :
    (k : Names) (t : Option ℕ) (c : Ccdb) → lists_of (answer_of_type k t c).1 ≡ lists_of c
unfolding answer_of_type
answer_of_type-lists k none c = refl
answer_of_type-lists k (some t) c = ground arith

package_of_answer-lists :
    (k : Names) (s : UserSession) (c : Ccdb) → lists_of (package_of_answer k s c).1 ≡ lists_of c
unfolding package_of_answer
package_of_answer-lists k s c = elim (Bool-cases (ltb 0 s.tid_local && ltb 0 s.tid_remote)) [
  | inl e ↦ rw e (answer_of_type-lists k (package_type_req k s) c)
  | inr e ↦ rw e refl
]

package_of_request-lists :
    (k : Names) (s : UserSession) (c : Ccdb) → lists_of (package_of_request k s c).1 ≡ lists_of c
unfolding package_of_request
package_of_request-lists k s c = ground arith

package_of-lists :
    (k : Names) (h : Option ℕ) (s : UserSession) (c : Ccdb)
    → lists_of (package_of k h s c).1 ≡ lists_of c
unfolding package_of
package_of-lists k none s c = refl
package_of-lists k (some b) s c =
    elim (Bool-cases (bit_and s.command_flags k.diam_cmd_flag_r == 0)) [
      | inl e ↦ rw e (package_of_answer-lists k s c)
      | inr e ↦ rw e (package_of_request-lists k s c)
    ]

pub trap_of-lists :
    (i : ℕ) (h : Option ℕ) (x : List ℤ) (c : Ccdb) → lists_of (trap_of i h x c).1 ≡ lists_of c
unfolding trap_of
trap_of-lists i none x c = refl
trap_of-lists i (some b) x c = ground arith

-- What two steps keep of the memory.
go_on-lists :
    (l : (ℕ → UserSession) × (ℕ → List ℕ)) (s : Saved) (next : Us → Contexts → Saved)
    → lists_of s.2.ccdb ≡ l
    → ((q : Us) (d : Contexts) → lists_of d.ccdb ≡ l → lists_of (next q d).2.ccdb ≡ l)
    → lists_of (go_on s next).2.ccdb ≡ l
go_on-lists l (true, p, c) next h n = n p c h
go_on-lists l (false, p, c) next h n = h

module _ (k : Codes) (f : Conf) (i : ℕ) (m : DiamCtx) where
  start_asm-lists :
      (a : AppSm) (p : Us) (c : Contexts) → lists_of (start_asm a p c).2.ccdb ≡ lists_of c.ccdb
  unfolding start_asm start_state
  start_asm-lists AppSm.undef p c = refl
  start_asm-lists ccas p c =
      state_set-lists p.core.head (stt ccas p.core.asm_state Event.undef c.ccdb.meas.fsm) c.ccdb

  save_new-lists : (p : Us) (c : Contexts) → lists_of (save_new k f m p c).2.ccdb ≡ lists_of c.ccdb
  unfolding save_new
  save_new-lists p c =
      let q : Us = identified f.time m p in
      let (a, e) = asm_id_of k.names q.core.head q.core.app_id c.ccdb in
      start_asm-lists a q (record c { ccdb = e })
      ∙ asm_id_of-lists k.names q.core.head m.appl_id c.ccdb

  peer_of-ccdb : (u : ℤ) (x : Option ℤ) (c : Contexts) → (peer_of u x c).1.ccdb ≡ c.ccdb
  unfolding peer_of
  peer_of-ccdb u none c = refl
  peer_of-ccdb u (some x) c = refl

  set_peer_fe-ccdb : (c : Contexts) → (set_peer_fe k f c).1.ccdb ≡ c.ccdb
  unfolding set_peer_fe
  set_peer_fe-ccdb c = elim (Bool-cases (pos_part f.fe_number == 0)) [
    | inl e ↦ rw e refl
    | inr e ↦ rw e (peer_of-ccdb k.uninitialized (f.associate f.fe_number) c)
  ]

  save_type-ccdb : (t : ℕ) (p : Us) (c : Contexts) → (save_type k f t p c).2.ccdb ≡ c.ccdb
  unfolding save_type
  save_type-ccdb t p c = ground arith

  with_peer-lists :
      (r : ℤ × Contexts) (p : Us) → lists_of (with_peer k f r m p).2.ccdb ≡ lists_of r.1.ccdb
  unfolding with_peer
  with_peer-lists (peer, e) p =
      let q : Us = record p {
        core = record p.core { command_code = m.command_code; command_flags = m.flags };
        rest = record p.rest { peer_fe = peer };
      } in
      let (type, db) = package_of k.names q.core.head q.core e.ccdb in
      elim (Bool-cases (pos_part peer == 0)) [
        | inl z ↦ rw z refl
        | inr z ↦ rw z (
            ap lists_of (save_type-ccdb type q (record e { ccdb = db }))
            ∙ package_of-lists k.names q.core.head q.core e.ccdb)
      ]

  save_package-lists :
      (p : Us) (c : Contexts) → lists_of (save_package k f m p c).2.ccdb ≡ lists_of c.ccdb
  unfolding save_package
  save_package-lists p c = with_peer-lists (set_peer_fe k f c) p ∙ ap lists_of (set_peer_fe-ccdb c)

  save_tid-ccdb : (p : Us) (c : Contexts) → (save_tid k f i p c).2.ccdb ≡ c.ccdb
  unfolding save_tid assign_tid with_tid
  save_tid-ccdb p c = ground arith

  save_rest-lists :
      (p : Us) (c : Contexts) → lists_of (save_rest k f i m p c).2.ccdb ≡ lists_of c.ccdb
  unfolding save_rest trap_us
  save_rest-lists p c = trap_of-lists i p.core.head p.core.sub_id c.ccdb

  save_each-lists :
      (p : Us) (c : Contexts) → lists_of (save_each k f i m p c).2.ccdb ≡ lists_of c.ccdb
  unfolding save_each
  save_each-lists p c =
      go_on-lists (lists_of c.ccdb) (save_package k f m p c) _ (save_package-lists p c) (λ q d h.
        go_on-lists (lists_of c.ccdb) (save_tid k f i q d) _ (ap lists_of (save_tid-ccdb q d) ∙ h)
          (λ r e g. save_rest-lists r e ∙ g))

  pub save_diam-lists :
      (p : Us) (c : Contexts) → lists_of (save_diam k f i m p c).2.ccdb ≡ lists_of c.ccdb
  unfolding save_diam
  save_diam-lists p c = elim (Bool-cases f.ready) [
    | inr e ↦ rw e refl
    | inl e ↦ elim (Bool-cases (is_initial k m)) [
      | inl n ↦
          rw (e, n)
            (go_on-lists (lists_of c.ccdb) (save_new k f m p c) _ (save_new-lists p c)
              (λ q d h. save_each-lists q d ∙ h))
      | inr n ↦ rw (e, n) (save_each-lists p c)
    ]
  ]
