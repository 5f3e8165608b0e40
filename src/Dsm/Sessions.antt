-- ===== src/Dsm/Sessions.antt =====
-- The life of user sessions and of the messages queued for them: dsm_ccdb.h and the first part of
-- dsm_ccdb.c. A user session and a queued message are named by their ids, which their memory blocks
-- carry for good; a null pointer is `none`, and a TAILQ the list of its members. The debug prints
-- are left out.
pub mod Queue
pub mod Ops
pub mod Linked
pub mod Drain
pub mod Remove
pub mod Keep
pub mod Indexed
pub mod Finalize
pub mod Start
pub mod Add
pub mod UsRemove
pub mod Gone
mod Tests
use code_snippets.Dsm.Ccdb.{Trap}
use code_snippets.Dsm.Timer.{Wheel, Pool}
use code_snippets.Prelude.Int.{ℤ}
use code_snippets.Prelude.{◌∷◌, ℕ, none, [], Option, List, Bool}
use code_snippets.Dsm.Fsm.{AppSm, State}

-- struct dgc_qmsg, without its links; `head` is the user session that the message is queued for.
pub record Qmsg : Type 0 where
  pub head : Option ℕ
  pub qmsg : List ℤ

-- What memset leaves.
abbrev pub no_qmsg : Qmsg
no_qmsg = record { head = none; qmsg = [] }

-- The fields of struct user_session that the functions below name; `head` is the slot of the list
-- that it is on.
pub record Session : Type 0 where
  pub head : Option ℕ
  pub asm_id : AppSm
  pub asm_state : State
  pub tcc_id : ℕ
  pub tg_id : ℕ
  pub time_last : ℕ
  pub ref_count : ℕ
  pub cp : ℤ
  pub npk_config : ℤ
  pub peer_fe : ℤ
  pub local_host : ℤ
  pub local_realm : ℤ
  pub remote_host : ℤ
  pub remote_realm : ℤ
  pub sub_id_type : ℤ
  pub tid_local : ℕ
  pub dgc_qmsg : List ℕ

-- The flags of a DiamCtx_t that the functions below write.
pub record DiamCtx : Type 0 where
  pub no_diam : Bool
  pub no_gdi : Bool

pub data Counter : Type 0 where
  us_ptr_null us_null us_list_null us_init_fail us_init_succ us_remove_fail : Counter
  us_remove_succ us_tailq_remove us_tailq_remove_time us_list_tailq_init : Counter
  us_list_tailq_init_time dgc_qmsg_ptr_null dgc_qmsg_null dgc_qmsg_list_null : Counter
  dgc_qmsg_init_fail dgc_qmsg_init_succ dgc_qmsg_remove_fail dgc_qmsg_remove_succ : Counter
  dgc_qmsg_add_fail dgc_qmsg_add_succ dgc_qmsg_tailq_insert_tail dgc_qmsg_tailq_remove : Counter
  dgc_qmsg_list_tailq_init dc_null api_new_private_fail_us api_new_private_succ_us : Counter
  api_delete_private_us api_delete_private_dgc_qmsg api_fep_create_private_us : Counter
  api_fep_create_private_dgc_qmsg api_buf_to_parm_fail api_parm_to_buf_fail : Counter
  api_tell_dgc_fail api_tell_dgc_succ api_fep_free_buffer us_tid_local_invalid : Counter
  dc_tid_local_invalid msg_us_remove_rcvd process_us_remove_fail : Counter
  process_us_remove_succ : Counter

-- The constants of headers, the memory pools and the services of the FEP that are not in the
-- repository. `tell_dgc` is called with MSG_DIAMCTX, the parameter, FAILURE and
-- DIAMETER_UNABLE_TO_COMPLY; true is SUCCESS.
pub record System : Type 1 where
  pub uninitialized : ℤ
  pub tg_def : ℤ
  pub callouts : Pool
  pub sessions : Pool
  pub messages : Pool
  pub World : Type 0
  pub time : World → ℕ × World
  pub parm_to_buf : ℤ → World → Option ℕ × World
  pub buf_to_parm : ℕ → World → ℤ × World
  pub tell_dgc : ℤ → World → Bool × World
  pub fep_free_buffer : Option ℕ → World → World

-- struct ccdb with the memory of user sessions, queued messages and buffers, the timer wheel and
-- the pools. `counted` is the counters of `meas` that have been incremented, the latest first.
pub record Db (E : System) : Type 0 where
  pub trap : Trap
  pub tg_expiry : ℤ
  pub bucket : ℕ → List ℕ
  pub by_time : List ℕ
  pub session : ℕ → Session
  pub qmsg : ℕ → Qmsg
  pub diamctx : ℕ → DiamCtx
  pub wheel : Wheel (Pool.State E.callouts)
  pub us_pool : Pool.State E.sessions
  pub qmsg_pool : Pool.State E.messages
  pub world : E.World
  pub counted : List Counter

abbrev pub count : {E : System} → Counter → Db E → Db E
count c d = record d { counted = c ∷ d.counted }
