-- ===== src/Dsm/Timer.antt =====
-- The timer wheel: dsm_tdb.h and dsm_tdb.c. A callout is named by its id, which new_private's
-- memory block carries for good; function pointers and arguments are addresses, 0 the null one. A
-- TAILQ of sys/queue.h is the list of its callouts, and removing a callout that is not on the list
-- is a fault. The debug prints are left out.
pub mod Ops
pub mod Due
pub mod Sets
pub mod Lists
pub mod Ticks
pub mod Pending
pub mod Loop
pub mod Unset
pub mod Start
pub mod Empty
pub mod Linked
mod Tests
use code_snippets.Prelude.{
  ◌∷◌, ◌==◌, ◌&&◌, ℕ, some, none, leb, if◌then◌else◌, [], Option, List, Bool,
}

abbrev pub callwheelsize : ℕ
callwheelsize = 65536

abbrev pub callouttimer : ℕ
callouttimer = 10

abbrev pub user_session_size : ℕ
user_session_size = 262144

abbrev pub id_undef : ℕ
id_undef = 0

-- CALLOUT_ID_VALID
abbrev pub callout_id_valid : ℕ → Bool
callout_id_valid i = leb 1 i && leb i user_session_size

-- struct callout, without its links; `head` is the slot of the list that it is on.
pub record Callout : Type 0 where
  pub head : Option ℕ
  pub c_func : ℕ
  pub c_arg : ℕ
  pub c_time : ℕ
  pub c_period : ℕ

-- What memset leaves.
abbrev pub blank : Callout
blank = record { head = none; c_func = 0; c_arg = 0; c_time = 0; c_period = 0 }

-- The counters of `meas` that dsm_tdb.c counts in the functions below.
pub record Meas : Type 0 where
  pub co_null : ℕ
  pub tdb_co_init_fail : ℕ
  pub tdb_co_init_succ : ℕ
  pub tdb_co_set_expiry_invalid : ℕ
  pub tdb_co_set_fail : ℕ
  pub tdb_co_set_succ : ℕ
  pub api_new_private_fail_co : ℕ
  pub api_new_private_succ_co : ℕ
  pub api_delete_private_co : ℕ
  pub co_list_invalid : ℕ
  pub co_list_null : ℕ
  pub co_tailq_insert_tail : ℕ
  pub co_tailq_remove : ℕ
  pub co_id_null : ℕ
  pub co_id_invalid : ℕ
  pub tdb_co_unset_fail : ℕ
  pub tdb_co_unset_succ : ℕ
  pub co_expire : ℕ
  pub co_callback_null : ℕ
  pub api_fep_create_private_co : ℕ
  pub co_list_tailq_init : ℕ

-- The counters at the start of the program.
abbrev pub no_counts : Meas
no_counts = record {
  co_null = 0;
  tdb_co_init_fail = 0;
  tdb_co_init_succ = 0;
  tdb_co_set_expiry_invalid = 0;
  tdb_co_set_fail = 0;
  tdb_co_set_succ = 0;
  api_new_private_fail_co = 0;
  api_new_private_succ_co = 0;
  api_delete_private_co = 0;
  co_list_invalid = 0;
  co_list_null = 0;
  co_tailq_insert_tail = 0;
  co_tailq_remove = 0;
  co_id_null = 0;
  co_id_invalid = 0;
  tdb_co_unset_fail = 0;
  tdb_co_unset_succ = 0;
  co_expire = 0;
  co_callback_null = 0;
  api_fep_create_private_co = 0;
  co_list_tailq_init = 0;
}

-- The private memory pool of fep_memory, which is not in the repository.
pub record Pool : Type 1 where
  pub State : Type 0
  pub new_private : State → Option (ℕ × State)
  pub delete_private : ℕ → State → State

-- The wheel, the callouts and the pool's state. `trace` is not in the program: the callbacks that
-- process_timer has made, function and argument, the latest first.
pub record Wheel (S : Type 0) : Type 0 where
  pub index : ℕ
  pub bucket : ℕ → List ℕ
  pub callout : ℕ → Callout
  pub pool : S
  pub meas : Meas
  pub trace : List (ℕ × ℕ)

abbrev pub update {ℓ} : {A : Type ℓ} → (ℕ → A) → ℕ → A → ℕ → A
update f i a j = if j == i then a else f j

-- A run ends, dereferences a link that is not there, or has used its fuel up.
pub data Run {ℓ} (A : Type ℓ) : Type ℓ where
  ok : A → Run A
  fault : Run A
  out_of_fuel : Run A

abbrev pub bind {ℓ κ} : {A : Type ℓ} {B : Type κ} → Run A → (A → Run B) → Run B
bind (ok a) k = k a
bind fault k = fault
bind out_of_fuel k = out_of_fuel

-- TAILQ_REMOVE
unfoldable pub remove : ℕ → List ℕ → Run (List ℕ)
remove i [] = fault
remove i (x ∷ xs) =
    let rest = bind (remove i xs) (λ ys. ok (x ∷ ys)) in if x == i then ok xs else rest

-- tqe_next of a callout on the list.
unfoldable pub next_of : ℕ → List ℕ → Option ℕ
next_of i [] = none
next_of i (x ∷ []) = none
next_of i (x ∷ y ∷ xs) = let rest = next_of i (y ∷ xs) in if x == i then some y else rest

unfoldable pub first_of_list : List ℕ → Option ℕ
first_of_list [] = none
first_of_list (x ∷ xs) = some x
