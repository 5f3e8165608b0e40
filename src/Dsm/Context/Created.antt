-- ===== src/Dsm/Context/Created.antt =====
-- user_session_save of the request that a session is made for, as a whole.
use code_snippets.Dsm.Context.Exchange.{save_us-typed, user_session_save-us}
use code_snippets.Dsm.Context.Gdi.{user_session_save, save_by_type}
use code_snippets.Dsm.Context.New.{
  fresh-lem, save_new-Started, fresh, begun-lem, set_peer_fe-known, assign_tid-known, go_on-next,
  with_tid-session, with_peer-Packaged, Packaged, Started,
}
use code_snippets.Dsm.Context.Diam.{
  save_new, save_diam, with_peer, save_avps, save_rest, save_each, save_tid, save_package,
}
use Prim.Native.Nat.{bit_and}
use code_snippets.Dsm.Ccdb.{user_session_id_valid}
use code_snippets.Dsm.Ccdb.Tid.{us_id_of}
use code_snippets.Dsm.Context.Save.{
  is_dim_close, is_command, is_retransmission, go_on, trap_us, is_initial, is_answer, Saved,
}
use code_snippets.Prelude.Int.{pos}
use code_snippets.Prelude.{arith, ◌≡◌, ◌∙◌, ◌==◌, ◌<◌, ℕ, true, sym, some, refl, false, ap}
use mathlib.Core.Path.{subst}
use code_snippets.Dsm.Fsm.{State, ccas, idle}
use code_snippets.Dsm.Context.{
  us_at, set_peer_fe_succ, Contexts, DiamCtx, Conf, Us, Codes, count, diam,
}

-- The session `i` after its first request: the receivers of an answer find it by its local TID, the
-- GDI transaction begins, and the state machine is in its first state.
pub record IsNew (k : Codes) (i : ℕ) (p : Us) : Type 0 where
  pub us_id : us_id_of p.core.tid_local ≡ i
  pub package_type : p.rest.package_type ≡ k.names.package_type_request
  pub asm_id : p.core.asm_id ≡ ccas
  pub asm_state : p.core.asm_state ≡ idle

abbrev NewSaved : Codes → ℕ → Saved → Type 0
NewSaved k i s = (s.0 ≡ true) × IsNew k i s.1

module _ (k : Codes) (f : Conf) (i b : ℕ) (m : DiamCtx) (fe peer csi : ℕ) (ready : f.ready ≡ true)
    (fe_number : f.fe_number ≡ pos fe) (csi_number : f.csi_number ≡ pos csi)
    (associate : f.associate (pos fe) ≡ some (pos peer)) (fe_range : (0 < fe) × (fe < 16))
    (peer_range : (0 < peer) × (peer < 16)) (csi_range : csi < 2)
    (valid : user_session_id_valid i ≡ true) (request : (k.names.package_type_request == 0) ≡ false)
    (no_answer : is_answer k k.diam_cmd_ccr ≡ false)
    (is_request : (bit_and m.flags k.names.diam_cmd_flag_r == 0) ≡ false)
    (initial : is_initial k m ≡ true) (appl_id : m.appl_id ≡ k.names.app_id_cca) where
  is_ccr : m.command_code ≡ k.diam_cmd_ccr
  is_ccr = ground arith

  save_package-Packaged :
      (p : Us) (c : Contexts)
      → Started k f i b m p
      → let s = save_package k f m p c in (s.0 ≡ true) × Packaged k f i b m fe peer csi p s.1
  unfolding save_package
  save_package-Packaged p c h =
      let (done, packaged, _) =
        with_peer-Packaged k f i b m fe peer csi p (count set_peer_fe_succ c) peer_range.0
          is_request request in
      let path =
        ap (λ x. with_peer k f x m p)
          (set_peer_fe-known k f i b m fe peer csi c fe_number fe_range.0 associate)
        ∙ ap (with_peer k f (pos peer, count set_peer_fe_succ c) m)
            (sym (begun-lem b p h.head h.tid_local h.tid_remote)) in
      subst (λ (s : Saved). (s.0 ≡ true) × Packaged k f i b m fe peer csi p s.1) (sym path)
        (done, packaged)

  save_tid-IsNew :
      (q p : Us) (c : Contexts)
      → Started k f i b m q
      → Packaged k f i b m fe peer csi q p
      → NewSaved k i (save_tid k f i p c)
  unfolding save_tid
  save_tid-IsNew q p c h l =
      let no : is_answer k p.core.command_code ≡ false =
        ap (is_answer k) (l.command_code ∙ is_ccr) ∙ no_answer in
      let (done, tid, type, asm, state) =
        with_tid-session k f i b m fe peer csi p c fe_range.0 fe_range.1 peer_range.0 peer_range.1
          csi_range valid in
      rw no (
        subst (NewSaved k i)
          (sym (assign_tid-known k f i b m fe peer csi p c fe_number csi_number l.peer_fe))
          (
            done,
            record {
              us_id = tid;
              package_type = type ∙ l.package_type;
              asm_id = asm ∙ l.asm_id ∙ h.asm_id;
              asm_state = state ∙ l.asm_state ∙ h.asm_state;
            },
          ))

  save_each-IsNew :
      (p : Us) (c : Contexts) → Started k f i b m p → NewSaved k i (save_each k f i m p c)
  unfolding save_each save_rest trap_us save_avps
  save_each-IsNew p c h =
      let s = save_package k f m p c in
      let (done, packaged) = save_package-Packaged p c h in
      let t = save_tid k f i s.1 s.2 in
      let (given, new) = save_tid-IsNew p s.1 s.2 h packaged in
      go_on-next (NewSaved k i) s (λ q d. go_on (save_tid k f i q d) (λ r e. save_rest k f i m r e))
        done
        (go_on-next (NewSaved k i) t (λ r e. save_rest k f i m r e) given
          (
            refl,
            record {
              us_id = new.us_id;
              package_type = new.package_type;
              asm_id = new.asm_id;
              asm_state = new.asm_state;
            },
          ))

  save_diam-IsNew :
      (p : Us) (c : Contexts)
      → p.core.head ≡ some b
      → p.core.asm_state ≡ State.undef
      → NewSaved k i (save_diam k f i m p c)
  unfolding save_diam
  save_diam-IsNew p c h u =
      let s = save_new k f m (fresh b p) c in
      let (done, started, _) = save_new-Started k f i b m p c appl_id in
      subst (λ q. NewSaved k i (save_diam k f i m q c)) (fresh-lem b p h u)
        (rw (ready, initial)
          (go_on-next (NewSaved k i) s (λ q d. save_each k f i m q d) done
            (save_each-IsNew s.1 s.2 started)))

  -- For a session on a list with its state as user_session_init leaves it, user_session_save of a
  -- CCR of type INITIAL or EVENT, no retransmission, succeeds: with the configuration ready, known
  -- and within the fields' widths, Credit-Control's Application-ID and the 'R' bit. The receivers of
  -- an answer find the session by its local TID, the GDI transaction begins, and the state machine
  -- is in its first state.
  pub user_session_save-IsNew :
      (c : Contexts)
      → (c.ccdb.session i).head ≡ some b
      → (c.ccdb.session i).asm_state ≡ State.undef
      → m.diamctx_type ≡ diam
      → is_retransmission k m (us_at i c) ≡ false
      → (m.package_type == k.package_type_abort) ≡ false
      → let (done, d) = user_session_save k f (some m) (some i) c in
        (done ≡ true) × IsNew k i (us_at i d)
  unfolding save_by_type
  user_session_save-IsNew c on u t first a =
      let (done, at) = user_session_save-us k f i m c on in
      let command : is_command k m.command_code ≡ true = ground (arith, is_ccr) in
      let path =
        save_us-typed k f i m (us_at i c) c first a (ap is_dim_close t) command
        ∙ ap (λ x. save_by_type k f x i m (us_at i c) c) t in
      let (saved, new) = subst (NewSaved k i) (sym path) (save_diam-IsNew (us_at i c) c on u) in
      (done ∙ saved, subst (IsNew k i) (sym at) new)
