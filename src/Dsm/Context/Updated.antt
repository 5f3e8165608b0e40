-- ===== src/Dsm/Context/Updated.antt =====
-- What process_update_cp does.
use code_snippets.Dsm.Ccdb.{Meas as Measures}
use code_snippets.Dsm.Context.Copy.{to_short}
use code_snippets.Dsm.Context.Memory.{state_set-lists}
use code_snippets.Dsm.Ccdb.Tid.{us_id_of}
use code_snippets.Dsm.Ccdb.{user_session_id_valid, Ccdb, UserSession}
use code_snippets.Dsm.Ccdb.Session.{check_asm_state, checked, is_undef, next_ste, state_set}
use code_snippets.Dsm.Context.UpdateCp.{
  update_cp_fail, process_update_cp, update_cp_listed, update_cp_checked, with_cp, update_cp_us,
  or_previous,
}
use code_snippets.Prelude.Int.{pos, ℤ}
use code_snippets.Prelude.{
  ◌⊎◌, inr, inl, if◌then◌else◌, Bool-cases, ◌≡◌, ◌∙◌, ◌==◌, ◌&&◌, ℕ, true, suc, some, refl, not,
  none, false, arith, ap, Option, Bool,
}
use code_snippets.Dsm.Fsm
use code_snippets.Dsm.Fsm.{
  invalid_event, stt_discontinuing, stt_reporting_error, stt_proc_req_final, stt_open, stt_proc_req,
  stt_idle, stt_ccas, stt, State, AppSm, ccas, rx_qmsg_up_cp, proc_req, proc_req_final,
  reporting_error, idle, opened, discontinuing, Meas, Ste,
}
use code_snippets.Dsm.Context.{dc_tid_local_invalid, Conf, us_at, UserSession, Contexts, count}

-- The states in which a message from the TDG updates the CP.
abbrev pub takes_cp : AppSm → State → Bool
takes_cp ccas proc_req = true
takes_cp ccas proc_req_final = true
takes_cp ccas reporting_error = true
takes_cp _ _ = false

abbrev pub is_listed : Option ℕ → Bool
is_listed none = false
is_listed (some b) = true

-- The session of a local TID, if it is on a list, has that TID, and takes an update of the CP.
abbrev pub updates : ℕ → Contexts → Bool
updates tid c =
    let s : UserSession = c.ccdb.session (us_id_of tid) in
    user_session_id_valid (us_id_of tid)
    && is_listed s.head
    && s.tid_local == tid
    && takes_cp s.asm_id s.asm_state

-- The entry of the table for the event.
entry_lem :
    (a : AppSm) (s : State) (m : Meas)
    → let (_, t) = stt a s rx_qmsg_up_cp m in
      (is_undef t.action ≡ not (takes_cp a s)) × (takes_cp a s ≡ true → t.state ≡ s)
unfolding stt stt_ccas stt_idle stt_proc_req stt_open stt_proc_req_final stt_reporting_error
    stt_discontinuing invalid_event
entry_lem AppSm.undef s m = (refl, λ e. absurd (ground arith))
entry_lem ccas State.undef m = (refl, λ e. absurd (ground arith))
entry_lem ccas discontinuing m = (refl, λ e. absurd (ground arith))
entry_lem ccas idle m = (refl, λ e. absurd (ground arith))
entry_lem ccas opened m = (refl, λ e. absurd (ground arith))
entry_lem ccas proc_req m = (refl, λ e. refl)
entry_lem ccas proc_req_final m = (refl, λ e. refl)
entry_lem ccas reporting_error m = (refl, λ e. refl)

or_previous_same : (s : State) → or_previous s s ≡ s
or_previous_same State.undef = refl
or_previous_same discontinuing = refl
or_previous_same idle = refl
or_previous_same opened = refl
or_previous_same proc_req = refl
or_previous_same proc_req_final = refl
or_previous_same reporting_error = refl

-- The state that the session gets.
next_state :
    (h : Option ℕ) (b : ℕ) (s : UserSession) (c : Ccdb)
    → h ≡ some b
    → takes_cp s.asm_id s.asm_state ≡ true
    → or_previous s.asm_state (state_set h (next_ste s rx_qmsg_up_cp c) c).0 ≡ s.asm_state
unfolding state_set
next_state h b s c e t =
    ap (λ x. or_previous s.asm_state (state_set x (next_ste s rx_qmsg_up_cp c) c).0) e
    ∙ ap (or_previous s.asm_state) ((entry_lem s.asm_id s.asm_state c.meas.fsm).1 t)
    ∙ or_previous_same s.asm_state

-- What an update brings to the session, and leaves as it was.
pub record Updated (cp npk_config : ℤ) (now i : ℕ) (c d : Contexts) : Type 0 where
  pub core : (us_at i d).core ≡ (us_at i c).core
  pub rest : (us_at i d).rest ≡ record (us_at i c).rest {
    cp = cp;
    npk_config = npk_config;
    ref_count = suc (us_at i c).rest.ref_count;
    time_last = now;
  }
  pub others : (j : ℕ) → (j == i) ≡ false → us_at j d ≡ us_at j c
  pub bucket : d.ccdb.bucket ≡ c.ccdb.bucket
  pub trap : d.ccdb.trap ≡ c.ccdb.trap
  pub tg_expiry : d.tg_expiry ≡ c.tg_expiry
  pub tids : d.tids ≡ c.tids

-- Nothing changes but the counters of `ccdb.meas` and `counted`.
abbrev Kept : Contexts → Contexts → Type 0
Kept c d = d ≡ record c { ccdb = record c.ccdb { meas = d.ccdb.meas }; counted = d.counted }

-- set_asm_state changes no trap.
state_set-trap : (h : Option ℕ) (t : Fsm.Meas × Ste) (c : Ccdb) → (state_set h t c).1.trap ≡ c.trap
unfolding state_set
state_set-trap none t c = refl
state_set-trap (some b) t c = refl

module _ (cp npk_config : ℤ) (now i : ℕ) where
  update_cp_us-Updated :
      (b : ℕ) (c : Contexts) (m : Measures)
      → (c.ccdb.session i).head ≡ some b
      → takes_cp (c.ccdb.session i).asm_id (c.ccdb.session i).asm_state ≡ true
      → let d : Contexts = record c { ccdb = record c.ccdb { meas = m } } in
        Updated cp npk_config now i c (update_cp_us cp npk_config now i (us_at i d) d)
  unfolding update_cp_us with_cp
  update_cp_us-Updated b c m h t =
      let e : (i == i) ≡ true = ground arith in
      let p = c.ccdb.session i in
      let db : Ccdb = record c.ccdb { meas = m } in
      let state = next_state p.head b p db h t in
      let lists = state_set-lists p.head (next_ste p rx_qmsg_up_cp db) db in
      record {
        core = rw e (ap (λ x. record p { asm_state = x }) state);
        rest = rw e refl;
        others = λ j z. rw z (ap (λ l. record { core = l.0 j; rest = c.rest j }) lists);
        bucket = ap (λ l. l.1) lists;
        trap = state_set-trap p.head (next_ste p rx_qmsg_up_cp db) db;
        tg_expiry = refl;
        tids = refl;
      }

  -- An update with this entry of the table.
  update_cp_checked-lem :
      (b : ℕ) (c : Contexts) (m : Meas) (t : Ste) (accepted : Bool)
      → is_undef t.action ≡ not accepted
      → (c.ccdb.session i).head ≡ some b
      → takes_cp (c.ccdb.session i).asm_id (c.ccdb.session i).asm_state ≡ accepted
      → let d = update_cp_checked cp npk_config now i (checked (m, t) c.ccdb) c in
        if accepted then Updated cp npk_config now i c d else Kept c d
  unfolding update_cp_checked checked
  update_cp_checked-lem b c m t true e h a = rw e (update_cp_us-Updated b c _ h a)
  update_cp_checked-lem b c m t false e h a = rw e refl

  update_cp_listed-lem :
      (h : Option ℕ) (tid : ℕ) (c : Contexts)
      → (c.ccdb.session i).head ≡ h
      → let d = update_cp_listed cp npk_config now h i tid c in
        let s : UserSession = c.ccdb.session i in
        if is_listed h && s.tid_local == tid && takes_cp s.asm_id s.asm_state
        then Updated cp npk_config now i c d
        else Kept c d
  unfolding update_cp_listed check_asm_state
  update_cp_listed-lem none tid c e = refl
  update_cp_listed-lem (some b) tid c e = go (Bool-cases ((c.ccdb.session i).tid_local == tid))
    where
      go :
          (((c.ccdb.session i).tid_local == tid) ≡ true)
            ⊎ (((c.ccdb.session i).tid_local == tid) ≡ false)
          → let d = update_cp_listed cp npk_config now (some b) i tid c in
            let s : UserSession = c.ccdb.session i in
            if s.tid_local == tid && takes_cp s.asm_id s.asm_state
            then Updated cp npk_config now i c d
            else Kept c d
      go (inr z) = rw z refl
      go (inl z) =
          let s : UserSession = c.ccdb.session i in
          let (m, t) = stt s.asm_id s.asm_state rx_qmsg_up_cp c.ccdb.meas.fsm in
          rw z (
            update_cp_checked-lem b c m t (takes_cp s.asm_id s.asm_state)
              (entry_lem s.asm_id s.asm_state c.ccdb.meas.fsm).0 e refl)

-- Where the session of a local TID is on a list, has that TID, and is in a state of processing a
-- request or of reporting an error, as stt accepts the event there, process_update_cp gives it the
-- CP and the N+K configuration of the message, as shorts, counts the message and sets the time of
-- its last use, and leaves its state and its other fields, the other sessions, the lists, the trap,
-- the Tg expiry and the data of set_tid_local as they were. Anywhere else nothing but the counters
-- of failures and messages changes.
pub process_update_cp-Updated :
    (f : Conf) (tid cp npk_config : ℕ) (c : Contexts)
    → let d = process_update_cp f tid cp npk_config c in
      if updates tid c
      then Updated (to_short (pos cp)) (to_short (pos npk_config)) f.time (us_id_of tid) c d
      else Kept c d
unfolding process_update_cp
process_update_cp-Updated f tid cp npk_config c = go (user_session_id_valid (us_id_of tid))
  where
    go :
        (valid : Bool)
        → let i = us_id_of tid in
          let x = to_short (pos cp) in
          let y = to_short (pos npk_config) in
          let s : UserSession = c.ccdb.session i in
          let d : Contexts =
            if valid
            then update_cp_listed x y f.time s.head i tid c
            else update_cp_fail (count dc_tid_local_invalid c) in
          if valid && is_listed s.head && s.tid_local == tid && takes_cp s.asm_id s.asm_state
          then Updated x y f.time i c d
          else Kept c d
    go true =
        update_cp_listed-lem _ _ _ (us_id_of tid) (c.ccdb.session (us_id_of tid)).head tid c refl
    go false = refl
