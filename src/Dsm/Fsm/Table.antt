-- ===== src/Dsm/Fsm/Table.antt =====
-- The state transition table of dsm_fsm.c as a whole: which entries it has, and what they share.
use code_snippets.Prelude.{suc, ◌≡◌, refl, ◌≢◌, ◌⊎◌, Bool, true, false, arith, if◌then◌else◌}
use code_snippets.Dsm.Fsm.{
  State, Event, Action, Meas, Ste, ccas, idle, opened, proc_req, proc_req_final, reporting_error,
  discontinuing, rx_gdi_abort, rx_qmsg_fe_unavail, rx_diam_ccr_init_t, rx_diam_ccr_event_t,
  rx_diam_ccr_update_t, rx_diam_ccr_term_t, rx_diam_str_t, close_gdi_trans, tx_gdi_str_01, up_us,
  ste, stt_idle, stt_proc_req, stt_open, stt_proc_req_final, stt_reporting_error, stt_discontinuing,
  stt,
}

abbrev pub Rejected : Meas → Meas × Ste → Type 0
Rejected m (m', t) =
    (t ≡ ste State.undef Action.undef)
    × (m' ≡ record m { asm_event_invalid = suc m.asm_event_invalid })

abbrev pub Accepted : Meas → Meas × Ste → Type 0
Accepted m (m', t) = (t.action ≢ Action.undef) × (t.state ≢ State.undef) × (m' ≡ m)

reporting_error-cases :
    (e : Event) (m : Meas)
    → Rejected m (stt_reporting_error e m) ⊎ Accepted m (stt_reporting_error e m)
unfolding stt_reporting_error
reporting_error-cases e m = ground arith

idle-cases : (e : Event) (m : Meas) → Rejected m (stt_idle e m) ⊎ Accepted m (stt_idle e m)
unfolding stt_idle
idle-cases e m = ground arith

proc_req-cases :
    (e : Event) (m : Meas) → Rejected m (stt_proc_req e m) ⊎ Accepted m (stt_proc_req e m)
unfolding stt_proc_req
proc_req-cases e m = ground arith

opened-cases : (e : Event) (m : Meas) → Rejected m (stt_open e m) ⊎ Accepted m (stt_open e m)
unfolding stt_open
opened-cases e m = ground arith

proc_req_final-cases :
    (e : Event) (m : Meas)
    → Rejected m (stt_proc_req_final e m) ⊎ Accepted m (stt_proc_req_final e m)
unfolding stt_proc_req_final
proc_req_final-cases e m = ground arith

discontinuing-cases :
    (e : Event) (m : Meas) → Rejected m (stt_discontinuing e m) ⊎ Accepted m (stt_discontinuing e m)
unfolding stt_discontinuing
discontinuing-cases e m = ground arith

-- In each of the six states an event is either rejected, which counts one invalid event and gives
-- neither a next state nor an action, or accepted, which gives both and counts nothing.
pub stt-cases :
    (s : State) (e : Event) (m : Meas)
    → s ≢ State.undef
    → Rejected m (stt ccas s e m) ⊎ Accepted m (stt ccas s e m)
unfolding stt
stt-cases State.undef e m h = absurd (h refl)
stt-cases idle e m h = idle-cases e m
stt-cases opened e m h = opened-cases e m
stt-cases proc_req e m h = proc_req-cases e m
stt-cases proc_req_final e m h = proc_req_final-cases e m
stt-cases reporting_error e m h = reporting_error-cases e m
stt-cases discontinuing e m h = discontinuing-cases e m

-- In each of the six states a GDI abort closes the GDI transaction and keeps the state, and an
-- unavailable FE sends a GDI-STR and leads to Discontinuing; neither counts anything.
pub stt-interrupts :
    (s : State) (m : Meas)
    → s ≢ State.undef
    → (stt ccas s rx_gdi_abort m ≡ (m, ste s close_gdi_trans))
      × (stt ccas s rx_qmsg_fe_unavail m ≡ (m, ste discontinuing tx_gdi_str_01))
unfolding stt
stt-interrupts State.undef m h = absurd (h refl)
stt-interrupts idle m h = (refl, refl)
stt-interrupts _ m h = (refl, refl)

abbrev pub retransmitted : Event → Bool
retransmitted rx_diam_ccr_init_t = true
retransmitted rx_diam_ccr_event_t = true
retransmitted rx_diam_ccr_update_t = true
retransmitted rx_diam_ccr_term_t = true
retransmitted rx_diam_str_t = true
retransmitted _ = false

abbrev pub processing : State → Bool
processing proc_req = true
processing proc_req_final = true
processing _ = false

-- A request with the 'T' bit set updates the session and keeps the state while a request is being
-- processed, and is rejected in each of the other four states.
pub stt-retransmitted :
    (s : State) (e : Event) (m : Meas)
    → s ≢ State.undef
    → retransmitted e ≡ true
    → if processing s then stt ccas s e m ≡ (m, ste s up_us) else Rejected m (stt ccas s e m)
unfolding stt
stt-retransmitted State.undef e m h r = absurd (h refl)
stt-retransmitted idle e m h r = ground arith
stt-retransmitted _ e m h r = ground arith
