-- ===== src/Dsm/Ccdb/States.antt =====
-- check_asm_state and set_asm_state against the table of dsm_fsm.c.
use code_snippets.Dsm.Timer.{}
use code_snippets.Dsm.Fsm.Table.{Rejected, Accepted}
use code_snippets.Dsm.Ccdb.{State, Ccdb}
use code_snippets.Dsm.Fsm.{Ste, stt, Action, ccas, Event}
use code_snippets.Dsm.Ccdb.Session.{state_set, is_undef, checked, set_asm_state, check_asm_state}
use code_snippets.Prelude.{
  ◌⊎◌, refl, false, arith, Bool, ◌≢◌, ◌≡◌, ℕ, suc, some, inr, inl, if◌then◌else◌,
}
use code_snippets.Dsm.Fsm
use code_snippets.Dsm.Fsm.Table.{stt-cases}

-- What the two functions make of one entry.
abbrev Agrees : Bool × Ccdb → State × Ccdb → Ccdb → Type 0
Agrees (ok, c') (s, _) c =
    if ok
    then (s ≢ State.undef)
      × (c'.meas.check_asm_state_succ ≡ suc c.meas.check_asm_state_succ)
      × (c'.meas.fsm ≡ c.meas.fsm)
    else (s ≡ State.undef)
      × (c'.meas.check_asm_state_fail ≡ suc c.meas.check_asm_state_fail)
      × (c'.meas.fsm.asm_event_invalid ≡ suc c.meas.fsm.asm_event_invalid)

is_undef-false : (a : Action) → a ≢ Action.undef → is_undef a ≡ false
is_undef-false a h = ground arith

entry-Agrees :
    (j : ℕ) (c : Ccdb) (t : Fsm.Meas × Ste)
    → Rejected c.meas.fsm t ⊎ Accepted c.meas.fsm t
    → Agrees (checked t c) (state_set (some j) t c) c
unfolding checked state_set
entry-Agrees j c (m, t) (inl (none_of, counted)) = rw (none_of, counted) (refl, refl, refl)
entry-Agrees j c (m, t) (inr (acts, moves, same)) =
    rw (is_undef-false t.action acts, same) (moves, refl, refl)

-- For a session of the CCA server machine that is on a list and in one of the six states,
-- check_asm_state succeeds exactly if set_asm_state gives a state, and otherwise set_asm_state
-- gives DSM_UNDEF. check_asm_state counts one success, or one failure and one invalid event.
pub check_asm_state-set_asm_state :
    (i j : ℕ) (e : Event) (c : Ccdb)
    → (c.session i).head ≡ some j
    → (c.session i).asm_id ≡ ccas
    → (c.session i).asm_state ≢ State.undef
    → let (ok, c') = check_asm_state (some i) e c in
      let (s, _) = set_asm_state (some i) e c in
      if ok
      then (s ≢ State.undef)
        × (c'.meas.check_asm_state_succ ≡ suc c.meas.check_asm_state_succ)
        × (c'.meas.fsm ≡ c.meas.fsm)
      else (s ≡ State.undef)
        × (c'.meas.check_asm_state_fail ≡ suc c.meas.check_asm_state_fail)
        × (c'.meas.fsm.asm_event_invalid ≡ suc c.meas.fsm.asm_event_invalid)
unfolding check_asm_state set_asm_state
check_asm_state-set_asm_state i j e c on asm known =
    rw (on, asm)
      (entry-Agrees j c (stt ccas (c.session i).asm_state e c.meas.fsm)
        (stt-cases (c.session i).asm_state e c.meas.fsm known))
