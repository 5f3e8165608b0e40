-- ===== src/Dsm/Ccdb.antt =====
-- The call context database: dsm_ccdb.h and functions of dsm_ccdb.c. A user session is named by its
-- id, which its memory block carries for good; a null pointer is `none`, and a TAILQ the list of
-- its sessions. The debug prints are left out.
pub mod Tid
pub mod Tids
pub mod Session
pub mod Lookup
pub mod States
pub mod Find
pub mod Package
mod Tests
use code_snippets.Prelude.{◌&&◌, leb, ℕ, Bool, List, Option}
use code_snippets.Prelude.Int.{ℤ}
use code_snippets.Dsm.Fsm
use code_snippets.Dsm.Fsm.{AppSm, State}

abbrev pub user_session_size : ℕ
user_session_size = 262144

abbrev pub user_session_mask : ℕ
user_session_mask = 262143

-- USER_SESSION_ID_VALID
abbrev pub user_session_id_valid : ℕ → Bool
user_session_id_valid i = leb 1 i && leb i user_session_size

-- Constants of headers that are not in the repository.
pub record Names : Type 0 where
  pub diam_cmd_flag_r : ℕ
  pub diam_cmd_asa : ℕ
  pub diam_cmd_raa : ℕ
  pub package_type_undef : ℕ
  pub package_type_request : ℕ
  pub package_type_conv : ℕ
  pub app_id_cca : ℕ
  pub max_sz_octetstring : ℕ

-- The fields of struct user_session that the functions below read or write; `head` is the slot of
-- the list that it is on.
pub record UserSession : Type 0 where
  pub head : Option ℕ
  pub asm_id : AppSm
  pub asm_state : State
  pub command_code : ℕ
  pub command_flags : ℕ
  pub app_id : ℕ
  pub session_id : List ℤ
  pub session_id_len : ℤ
  pub sub_id : List ℤ
  pub package_type_asr : ℕ
  pub package_type_rar : ℕ
  pub tid_local : ℕ
  pub tid_remote : ℕ

-- The counters of `meas` that the functions below count.
pub record Meas : Type 0 where
  pub us_null : ℕ
  pub us_list_null : ℕ
  pub us_list_invalid : ℕ
  pub us_trap : ℕ
  pub set_package_type_fail : ℕ
  pub set_package_type_succ : ℕ
  pub set_asm_id_app_id_invalid : ℕ
  pub set_asm_id_fail : ℕ
  pub set_asm_id_succ : ℕ
  pub set_asm_state_fail : ℕ
  pub set_asm_state_succ : ℕ
  pub check_asm_state_fail : ℕ
  pub check_asm_state_succ : ℕ
  pub us_hash_sid_null : ℕ
  pub us_hash_sid_invalid : ℕ
  pub us_hash_fail : ℕ
  pub us_hash_succ : ℕ
  pub us_get_sid_null : ℕ
  pub us_get_sid_invalid : ℕ
  pub us_get_fail : ℕ
  pub us_get_succ : ℕ
  pub fsm : Fsm.Meas

-- struct trap_data
pub record Trap : Type 0 where
  pub time_start : ℕ
  pub sub_id : List ℤ
  pub us : Option ℕ

-- struct ccdb with the sessions' memory and the counters.
pub record Ccdb : Type 0 where
  pub trap : Trap
  pub bucket : ℕ → List ℕ
  pub session : ℕ → UserSession
  pub meas : Meas
