-- ===== src/Dsm/Fsm.antt =====
-- Application state machine of the session manager: dsm_fsm.h and stt of dsm_fsm.c.
-- The enumerators are the constructors; `undef` is -1 and stands for every short that is no
-- enumerator, which the switches send to their default cases too. The debug prints are left out.
pub mod Table
use code_snippets.Prelude.{ℕ, suc}

pub data AppSm : Type 0 where
  undef ccas : AppSm

pub data State : Type 0 where
  undef discontinuing idle opened proc_req proc_req_final reporting_error : State

pub data Event : Type 0 where
  undef dq_diam_ccr_update dq_diam_ccr_term dq_diam_str exp_tcc exp_tg rx_diam_asa : Event
  rx_diam_ccr_event rx_diam_ccr_event_t rx_diam_ccr_init rx_diam_ccr_init_t rx_diam_ccr_term : Event
  rx_diam_ccr_term_t rx_diam_ccr_update rx_diam_ccr_update_t rx_diam_msg_valid rx_diam_raa : Event
  rx_diam_str rx_diam_str_t rx_diamctx_gdi_fail rx_gdi_abort rx_gdi_asr rx_gdi_cca_event_fail :
      Event
  rx_gdi_cca_event_succ rx_gdi_cca_init_fail rx_gdi_cca_init_succ rx_gdi_cca_term_fail : Event
  rx_gdi_cca_term_succ rx_gdi_cca_update_fail rx_gdi_cca_update_succ rx_gdi_dim_close : Event
  rx_gdi_rar rx_gdi_sta_fail rx_gdi_sta_succ rx_qmsg_fe_unavail rx_qmsg_up_cp : Event

pub data Action : Type 0 where
  undef close_gdi_trans disc_gdi_msg que_diam_msg stop_tg tx_diam_asr_01 tx_diam_asr_02 : Action
  tx_diam_cca_01 tx_diam_cca_02 tx_diam_cca_03 tx_diam_rar_01 tx_diam_rar_02 tx_diam_sta : Action
  tx_gdi_asa tx_gdi_ccr_01 tx_gdi_ccr_02 tx_gdi_raa tx_gdi_repterr tx_gdi_str_01 tx_gdi_str_02 :
      Action
  up_us : Action

-- struct ste
pub record Ste : Type 0 where
  pub state : State
  pub action : Action

-- The two counters of `meas` that stt counts.
pub record Meas : Type 0 where
  pub asm_event_invalid : ℕ
  pub asm_invalid : ℕ

abbrev pub ste : State → Action → Ste
ste s a = record { state = s; action = a }

-- The body of the default case of each event switch.
unfoldable pub invalid_event : Meas → Meas × Ste
invalid_event m =
    (record m { asm_event_invalid = suc m.asm_event_invalid }, ste State.undef Action.undef)

unfoldable pub stt_idle : Event → Meas → Meas × Ste
unfolding invalid_event
stt_idle rx_diam_ccr_init m = (m, ste proc_req tx_gdi_ccr_01)
stt_idle rx_diam_ccr_event m = (m, ste proc_req_final tx_gdi_ccr_01)
stt_idle rx_gdi_abort m = (m, ste idle close_gdi_trans)
stt_idle rx_qmsg_fe_unavail m = (m, ste discontinuing tx_gdi_str_01)
stt_idle _ m = invalid_event m

unfoldable pub stt_proc_req : Event → Meas → Meas × Ste
unfolding invalid_event
stt_proc_req rx_gdi_cca_init_succ m = (m, ste opened tx_diam_cca_02)
stt_proc_req rx_gdi_cca_update_succ m = (m, ste opened tx_diam_cca_02)
stt_proc_req rx_diam_msg_valid m = (m, ste proc_req que_diam_msg)
stt_proc_req rx_gdi_rar m = (m, ste proc_req tx_diam_rar_02)
stt_proc_req rx_gdi_asr m = (m, ste proc_req tx_diam_asr_02)
stt_proc_req exp_tg m = (m, ste reporting_error tx_diam_cca_03)
stt_proc_req rx_gdi_cca_init_fail m = (m, ste idle tx_diam_cca_01)
stt_proc_req rx_gdi_cca_update_fail m = (m, ste idle tx_diam_cca_01)
stt_proc_req rx_qmsg_up_cp m = (m, ste proc_req up_us)
stt_proc_req rx_diamctx_gdi_fail m = (m, ste reporting_error tx_gdi_repterr)
stt_proc_req rx_gdi_abort m = (m, ste proc_req close_gdi_trans)
stt_proc_req rx_qmsg_fe_unavail m = (m, ste discontinuing tx_gdi_str_01)
stt_proc_req rx_diam_ccr_init_t m = (m, ste proc_req up_us)
stt_proc_req rx_diam_ccr_event_t m = (m, ste proc_req up_us)
stt_proc_req rx_diam_ccr_update_t m = (m, ste proc_req up_us)
stt_proc_req rx_diam_ccr_term_t m = (m, ste proc_req up_us)
stt_proc_req rx_diam_str_t m = (m, ste proc_req up_us)
stt_proc_req _ m = invalid_event m

unfoldable pub stt_open : Event → Meas → Meas × Ste
unfolding invalid_event
stt_open rx_gdi_rar m = (m, ste opened tx_diam_rar_01)
stt_open rx_gdi_asr m = (m, ste opened tx_diam_asr_01)
stt_open rx_diam_raa m = (m, ste opened tx_gdi_raa)
stt_open rx_diam_asa m = (m, ste opened tx_gdi_asa)
stt_open exp_tcc m = (m, ste discontinuing tx_gdi_str_01)
stt_open dq_diam_ccr_term m = (m, ste proc_req_final tx_gdi_ccr_02)
stt_open rx_diam_ccr_term m = (m, ste proc_req_final tx_gdi_ccr_02)
stt_open dq_diam_str m = (m, ste proc_req_final tx_gdi_str_02)
stt_open rx_diam_str m = (m, ste proc_req_final tx_gdi_str_02)
stt_open dq_diam_ccr_update m = (m, ste proc_req tx_gdi_ccr_02)
stt_open rx_diam_ccr_update m = (m, ste proc_req tx_gdi_ccr_02)
stt_open rx_diamctx_gdi_fail m = (m, ste reporting_error tx_gdi_repterr)
stt_open rx_gdi_abort m = (m, ste opened close_gdi_trans)
stt_open rx_qmsg_fe_unavail m = (m, ste discontinuing tx_gdi_str_01)
stt_open _ m = invalid_event m

unfoldable pub stt_proc_req_final : Event → Meas → Meas × Ste
unfolding invalid_event
stt_proc_req_final rx_gdi_cca_event_succ m = (m, ste idle tx_diam_cca_01)
stt_proc_req_final rx_gdi_cca_event_fail m = (m, ste idle tx_diam_cca_01)
stt_proc_req_final rx_gdi_cca_term_succ m = (m, ste idle tx_diam_cca_01)
stt_proc_req_final rx_gdi_cca_term_fail m = (m, ste idle tx_diam_cca_01)
stt_proc_req_final rx_gdi_sta_succ m = (m, ste idle tx_diam_sta)
stt_proc_req_final rx_gdi_sta_fail m = (m, ste idle tx_diam_sta)
stt_proc_req_final exp_tg m = (m, ste reporting_error tx_diam_cca_03)
stt_proc_req_final rx_qmsg_up_cp m = (m, ste proc_req_final up_us)
stt_proc_req_final rx_diamctx_gdi_fail m = (m, ste reporting_error tx_gdi_repterr)
stt_proc_req_final rx_gdi_abort m = (m, ste proc_req_final close_gdi_trans)
stt_proc_req_final rx_qmsg_fe_unavail m = (m, ste discontinuing tx_gdi_str_01)
stt_proc_req_final rx_diam_ccr_init_t m = (m, ste proc_req_final up_us)
stt_proc_req_final rx_diam_ccr_event_t m = (m, ste proc_req_final up_us)
stt_proc_req_final rx_diam_ccr_update_t m = (m, ste proc_req_final up_us)
stt_proc_req_final rx_diam_ccr_term_t m = (m, ste proc_req_final up_us)
stt_proc_req_final rx_diam_str_t m = (m, ste proc_req_final up_us)
stt_proc_req_final _ m = invalid_event m

unfoldable pub stt_reporting_error : Event → Meas → Meas × Ste
unfolding invalid_event
stt_reporting_error rx_gdi_cca_init_succ m = (m, ste reporting_error disc_gdi_msg)
stt_reporting_error rx_gdi_cca_init_fail m = (m, ste reporting_error disc_gdi_msg)
stt_reporting_error rx_gdi_cca_event_succ m = (m, ste reporting_error disc_gdi_msg)
stt_reporting_error rx_gdi_cca_event_fail m = (m, ste reporting_error disc_gdi_msg)
stt_reporting_error rx_gdi_cca_update_succ m = (m, ste reporting_error disc_gdi_msg)
stt_reporting_error rx_gdi_cca_update_fail m = (m, ste reporting_error disc_gdi_msg)
stt_reporting_error rx_gdi_cca_term_succ m = (m, ste reporting_error disc_gdi_msg)
stt_reporting_error rx_gdi_cca_term_fail m = (m, ste reporting_error disc_gdi_msg)
stt_reporting_error rx_gdi_sta_succ m = (m, ste reporting_error disc_gdi_msg)
stt_reporting_error rx_gdi_sta_fail m = (m, ste reporting_error disc_gdi_msg)
stt_reporting_error rx_gdi_dim_close m = (m, ste idle stop_tg)
stt_reporting_error exp_tg m = (m, ste idle stop_tg)
stt_reporting_error rx_diamctx_gdi_fail m = (m, ste reporting_error tx_gdi_repterr)
stt_reporting_error rx_qmsg_up_cp m = (m, ste reporting_error up_us)
stt_reporting_error rx_gdi_abort m = (m, ste reporting_error close_gdi_trans)
stt_reporting_error rx_qmsg_fe_unavail m = (m, ste discontinuing tx_gdi_str_01)
stt_reporting_error _ m = invalid_event m

unfoldable pub stt_discontinuing : Event → Meas → Meas × Ste
unfolding invalid_event
stt_discontinuing rx_gdi_sta_succ m = (m, ste idle stop_tg)
stt_discontinuing rx_gdi_sta_fail m = (m, ste idle stop_tg)
stt_discontinuing exp_tg m = (m, ste idle stop_tg)
stt_discontinuing rx_diamctx_gdi_fail m = (m, ste reporting_error tx_gdi_repterr)
stt_discontinuing rx_gdi_abort m = (m, ste discontinuing close_gdi_trans)
stt_discontinuing rx_qmsg_fe_unavail m = (m, ste discontinuing tx_gdi_str_01)
stt_discontinuing _ m = invalid_event m

-- The switch on the state. Its default case starts the machine in the initialized state.
unfoldable pub stt_ccas : State → Event → Meas → Meas × Ste
unfolding stt_idle stt_proc_req stt_open stt_proc_req_final stt_reporting_error stt_discontinuing
stt_ccas idle e m = stt_idle e m
stt_ccas proc_req e m = stt_proc_req e m
stt_ccas opened e m = stt_open e m
stt_ccas proc_req_final e m = stt_proc_req_final e m
stt_ccas reporting_error e m = stt_reporting_error e m
stt_ccas discontinuing e m = stt_discontinuing e m
stt_ccas State.undef e m = (m, ste idle Action.undef)

unfoldable pub stt : AppSm → State → Event → Meas → Meas × Ste
unfolding stt_ccas
stt ccas s e m = stt_ccas s e m
stt AppSm.undef s e m = (record m { asm_invalid = suc m.asm_invalid }, ste State.undef Action.undef)
