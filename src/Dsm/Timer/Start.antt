-- ===== src/Dsm/Timer/Start.antt =====
-- initialize_tdb and finalize_tdb of dsm_tdb.c.
use code_snippets.Dsm.Timer.Ops.{release, unlink, callout_init}
use code_snippets.Dsm.Timer.{
  first_of_list, bind, out_of_fuel, ok, callwheelsize, Run, user_session_size, update, Pool, Wheel,
}
use code_snippets.Prelude.{ℕ, zero, suc, some, none, [], Option}

module _ {S : Type 0} where
  -- TAILQ_INIT of the lists of the slots below `n`.
  unfoldable pub init_lists : ℕ → Wheel S → Wheel S
  init_lists zero w = w
  init_lists (suc n) w =
      let v = init_lists n w in
      record v {
        bucket = update v.bucket n [];
        meas = record v.meas { co_list_tailq_init = suc v.meas.co_list_tailq_init };
      }

  -- callout_init of the callouts with the first `n` ids.
  unfoldable pub init_callouts : ℕ → Wheel S → Wheel S
  unfolding callout_init
  init_callouts zero w = w
  init_callouts (suc n) w = callout_init (some (suc n)) (init_callouts n w)

  -- initialize_tdb; `s` is the pool that fep_create_private has made.
  unfoldable pub initialize_tdb : S → Wheel S → Wheel S
  unfolding init_lists init_callouts
  initialize_tdb s w = init_callouts user_session_size (
      init_lists callwheelsize (record w {
        index = 0;
        bucket = λ _. [];
        pool = s;
        meas = record w.meas { api_fep_create_private_co = suc w.meas.api_fep_create_private_co };
      }))

module _ (P : Pool) where
  open P use {State}

  -- Remove the first callout of the list of slot `i` and free its memory, until there is none; `q`
  -- is the first callout.
  unfoldable pub free_from : ℕ → ℕ → Option ℕ → Wheel State → Run (Wheel State)
  unfolding unlink release
  free_from zero i q w = out_of_fuel
  free_from (suc fuel) i none w = ok w
  free_from (suc fuel) i (some q) w =
      bind (unlink P i q w)
        (λ v. let u = release P q v in free_from fuel i (first_of_list (u.bucket i)) u)

  -- The lists of the slots below `n`.
  unfoldable pub free_lists : ℕ → ℕ → Wheel State → Run (Wheel State)
  unfolding free_from
  free_lists fuel zero w = ok w
  free_lists fuel (suc n) w =
      bind (free_lists fuel n w) (λ v. free_from fuel n (first_of_list (v.bucket n)) v)

  unfoldable pub finalize_tdb : ℕ → Wheel State → Run (Wheel State)
  unfolding free_lists
  finalize_tdb fuel w = free_lists fuel callwheelsize w
