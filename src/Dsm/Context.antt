-- ===== src/Dsm/Context.antt =====
-- The data of a user session's call: dsm_ccdb.h, and user_session_save, user_session_add,
-- qmsg_diamctx_construct and process_update_cp of dsm_ccdb.c. DiamCtx_t is declared outside the
-- repository: its fields have the types of the session's fields that they are assigned to or from.
-- The debug prints and errorString are left out.
pub mod Copy
pub mod Save
pub mod Diam
pub mod Gdi
pub mod Report
pub mod Construct
pub mod Copied
pub mod Request
pub mod Answer
pub mod Exchange
pub mod New
pub mod Created
pub mod Alone
pub mod Reported
pub mod Errors
pub mod Closed
pub mod Add
pub mod Memory
pub mod Search
pub mod Found
pub mod UpdateCp
pub mod Updated
pub mod Samples
mod Tests
use code_snippets.Dsm.Ccdb.{Ccdb, Names, UserSession}
use code_snippets.Dsm.Ccdb.Tid.{Tids}
use code_snippets.Prelude.Int.{pos, ℤ}
use code_snippets.Prelude.{ℕ, Bool, List, Option, ◌∷◌}

abbrev pub ccdb_version : ℤ
ccdb_version = pos 0

-- Constants of headers that are not in the repository.
pub record Codes : Type 0 where
  pub names : Names
  pub diam_cmd_ccr : ℕ
  pub diam_cmd_cca : ℕ
  pub diam_cmd_asr : ℕ
  pub diam_cmd_rar : ℕ
  pub diam_cmd_str : ℕ
  pub diam_cmd_sta : ℕ
  pub diam_cmd_flag_t : ℕ
  pub initial_request : ℤ
  pub event_request : ℤ
  pub package_type_response : ℕ
  pub package_type_abort : ℕ
  pub uninitialized : ℤ

-- What the configuration and time return while a message is processed. `associate` is the
-- iNextAssociate of the FE's AssociateConfig.
pub record Conf : Type 0 where
  pub ready : Bool
  pub fe_number : ℤ
  pub csi_number : ℤ
  pub associate : ℤ → Option ℤ
  pub local_state_id : ℕ
  pub time : ℕ

-- Proxy-Info AVPs. The arrays are functions of the index; the counts and lengths, shorts in the
-- code, are not negative and not above the arrays' sizes.
pub record Proxies : Type 0 where
  pub count : ℕ
  pub host : ℕ → ℤ
  pub state_len : ℕ → ℕ
  pub states : ℕ → ℤ

-- The fields of struct user_session that UserSession leaves out and the functions below name.
pub record Rest : Type 0 where
  pub tcc_expiry : ℤ
  pub tg_id : ℕ
  pub tg_expiry : ℤ
  pub cc_version : ℤ
  pub time_start : ℕ
  pub time_last : ℕ
  pub ref_count : ℕ
  pub cp : ℤ
  pub npk_config : ℤ
  pub peer_fe : ℤ
  pub trap : Bool
  pub version : ℤ
  pub hop_by_hop : ℕ
  pub end_to_end : ℕ
  pub cc_request_type : ℤ
  pub cc_request_number : ℕ
  pub auth_app_id : ℕ
  pub local_host : ℤ
  pub local_realm : ℤ
  pub local_state : ℕ
  pub remote_host : ℤ
  pub remote_realm : ℤ
  pub remote_state : ℕ
  pub sub_id_type : ℤ
  pub proxies : Proxies
  pub package_type : ℕ
  pub tid_remote_asr : ℕ
  pub tid_remote_rar : ℕ
  pub orig_sys_id : ℤ
  pub receiver_id : ℤ
  pub invoke_id : ℤ

-- A struct user_session.
pub record Us : Type 0 where
  pub core : UserSession
  pub rest : Rest

-- The DIAMCTX_* constants that the functions below name, and all others.
pub data DiamctxType : Type 0 where
  diam gdi gdi_int_str gdi_dim_close tg_exp other : DiamctxType

-- A DiamCtx_t. `buffer_sid` is the bytes at FEP_BUF_SID.
pub record DiamCtx : Type 0 where
  pub diamctx_type : DiamctxType
  pub no_diam : Bool
  pub trap : Bool
  pub cp : ℤ
  pub npk_config : ℤ
  pub package_type : ℕ
  pub local_tid : ℕ
  pub remote_tid : ℕ
  pub orig_sys_id : ℤ
  pub receiver_id : ℤ
  pub invoke_id : ℤ
  pub timer : ℤ
  pub version : ℤ
  pub command_code : ℕ
  pub flags : ℕ
  pub hop_by_hop_id : ℕ
  pub end_to_end_id : ℕ
  pub appl_id : ℕ
  pub auth_app_id : ℕ
  pub cc_request_type : ℤ
  pub cc_request_number : ℕ
  pub session_id_offset : ℤ
  pub session_id_length : ℤ
  pub buffer_data_off : ℤ
  pub buffer_data_len : ℤ
  pub buffer_sid : List ℤ
  pub origin_host : ℤ
  pub origin_realm : ℤ
  pub origin_state_id : ℕ
  pub dest_host : ℤ
  pub dest_realm : ℤ
  pub dest_state_id : ℕ
  pub sub_id_type : ℤ
  pub sub_id : List ℤ
  pub proxies : Proxies

pub data Count : Type 0 where
  dc_null dc_invalid dc_cc_invalid dc_package_type_invalid us_tid_local_invalid : Count
  us_package_type_invalid api_conf_get_associate_fail api_conf_get_state_fail : Count
  set_peer_fe_fail set_peer_fe_succ us_save_fail us_save_succ : Count
  qmsg_diamctx_construct_fail qmsg_diamctx_construct_succ pkg_gdi_begin_xmit : Count
  pkg_gdi_continue_xmit pkg_gdi_end_xmit pkg_gdi_abort_xmit pkg_gdi_invalid_xmit : Count
  us_add_fail us_add_succ api_new_private_fail_us api_new_private_succ_us : Count
  api_delete_private_us us_init_succ dgc_qmsg_list_tailq_init us_tailq_insert_tail : Count
  us_tailq_insert_tail_time dc_tid_local_invalid process_update_cp_fail : Count
  process_update_cp_succ : Count

-- struct ccdb with the sessions' memory. `counted` is the counters that neither `ccdb` nor `tids`
-- has and that have been incremented, the latest first.
pub record Contexts : Type 0 where
  pub ccdb : Ccdb
  pub rest : ℕ → Rest
  pub tg_expiry : ℤ
  pub tids : Tids
  pub counted : List Count

abbrev pub count : Count → Contexts → Contexts
count x c = record c { counted = x ∷ c.counted }

-- The session that `i` points to.
abbrev pub us_at : ℕ → Contexts → Us
us_at i c = record { core = c.ccdb.session i; rest = c.rest i }
