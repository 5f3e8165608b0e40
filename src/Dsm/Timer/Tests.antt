-- ===== src/Dsm/Timer/Tests.antt =====
-- The theorems on a wheel with three callouts, over a pool that hands out the ids in turn.
use code_snippets.Dsm.Timer.Loop.{Undisturbed}
use code_snippets.Dsm.Timer.Start.{initialize_tdb, finalize_tdb}
use code_snippets.Dsm.Timer.Linked.{wheel-IsLinked, IsLinked}
use code_snippets.Dsm.Timer.Empty.{finalize_tdb-Emptied, Emptied}
use code_snippets.Dsm.Timer.Ticks.{process_timer-due, process_timer-Done}
use code_snippets.Dsm.Timer.Unset.{callout_unset-callout_set}
use code_snippets.Dsm.Timer.Sets.{
  callout_set-fails, callout_set-due, callout_set-Placed, Same, Placed,
}
use code_snippets.Dsm.Timer.Pending.{Done}
use code_snippets.Dsm.Timer.Due.{due}
use code_snippets.Dsm.Timer.Ops.{
  call_back, release, unlink, callout_unset, process_timer, advance, callout_set,
}
use code_snippets.Dsm.Timer.Lists.{has, Ends}
use code_snippets.Dsm.Timer.{remove, ok, Run, no_counts, callwheelsize, blank, Wheel, Callout, Pool}
use code_snippets.Prelude.Int.{pos, negsuc}
use code_snippets.Prelude.{
  Option, ◌<◌, length, ◌≡◌, ◌∷◌, ◌==◌, ℕ, true, suc, some, refl, none, ltb, leb, inl, if◌then◌else◌,
  false, arith, [], List,
}

abbrev pool : Pool
pool = record {
  State = ℕ;
  new_private = λ s. if ltb s 262144 then some (suc s, suc s) else none;
  delete_private = λ i s. s;
}

abbrev in_slot : ℕ → ℕ → Callout
in_slot i period = record { head = some i; c_func = 90; c_arg = 5; c_time = 20; c_period = period }

-- Callouts 1 and 3 of slot 7 are due, 2 has another rotation to go, and 9 is on another list.
abbrev callouts : ℕ → Callout
callouts i =
    if leb i 3 then in_slot 7 (if i == 2 then 1 else 0) else if i == 9 then in_slot 20 0 else blank

abbrev lists : ℕ → List ℕ
lists i = if i == 7 then 1 ∷ 2 ∷ 3 ∷ [] else if i == 20 then 9 ∷ [] else []

abbrev wheel : Wheel ℕ
wheel = record {
  index = 6;
  bucket = lists;
  callout = callouts;
  pool = 3;
  meas = no_counts;
  trace = [];
}

abbrev wheel_of : Wheel ℕ → Run (Option ℕ × Wheel ℕ) → Wheel ℕ
wheel_of w (ok (p, v)) = v
wheel_of w _ = w

-- A callback that unsets callout 9, as the end of a session unsets its other timer.
abbrev unset_other : ℕ → ℕ → Wheel ℕ → Wheel ℕ
unset_other f a w = wheel_of w (callout_unset pool (some 9) w)

calm : Undisturbed pool unset_other 7 callouts [] (1 ∷ 2 ∷ 3 ∷ []) (advance pool unset_other wheel)
unfolding callout_unset unlink release call_back remove
calm = (
  record { index = refl; bucket = refl; callout = λ j h. ground arith; trace = refl },
  (record { index = refl; bucket = refl; callout = λ j h. ground arith; trace = refl }, tt),
)

process_timer-Done_example :
    Ends
      (Done 7 callouts [] (1 ∷ 2 ∷ 3 ∷ []) (advance pool unset_other wheel))
      (process_timer pool unset_other 4 wheel)
process_timer-Done_example =
    process_timer-Done pool unset_other wheel calm (refl, (refl, (refl, tt))) 4 (omega arith)

process_timer-due_example :
    Ends
      (λ (v : Wheel ℕ).
        (has 2 (v.bucket v.index) ≡ true)
        × (suc (due v.index v.index (v.callout 2).c_period) ≡ due 6 7 1))
      (process_timer pool unset_other 4 wheel)
unfolding due
process_timer-due_example =
    process_timer-due pool unset_other wheel calm (refl, (refl, (refl, tt))) 4 2 (omega arith)
      (omega arith) refl (ground arith)

callout_set-Placed_example :
    ((callout_set pool 90 8 (pos 655370) wheel).0 ≡ 4)
    × Placed pool 90 8 655370 4 4 wheel (callout_set pool 90 8 (pos 655370) wheel).1
callout_set-Placed_example =
    callout_set-Placed pool 90 8 (pos 655370) 4 4 wheel (omega arith) (omega arith) refl

-- An expiry of 655,360 ms: 65,536 ticks, and due after 131,072.
callout_set-due_example :
    (slot : ℕ) × (((callout_set pool 90 8 (pos 655360) wheel).1.callout
        (callout_set pool 90 8 (pos 655360) wheel).0).head
      ≡ some slot)
    × (due
          (callout_set pool 90 8 (pos 655360) wheel).1.index
          slot
          ((callout_set pool 90 8 (pos 655360) wheel).1.callout
            (callout_set pool 90 8 (pos 655360) wheel).0).c_period
        ≡ 131072)
callout_set-due_example =
    callout_set-due pool 90 8 (pos 655360) 4 4 wheel (omega arith) (omega arith) refl

callout_set-fails_example :
    ((callout_set pool 90 8 (negsuc 0) wheel).0 ≡ 0)
    × Same pool wheel (callout_set pool 90 8 (negsuc 0) wheel).1
    × ((callout_set pool 90 8 (negsuc 0) wheel).1.meas.tdb_co_set_fail ≡ 1)
    × ((callout_set pool 90 8 (negsuc 0) wheel).1.meas.tdb_co_set_succ ≡ 0)
callout_set-fails_example = callout_set-fails pool 90 8 (negsuc 0) wheel (inl refl)

new_elsewhere : (j : ℕ) → has 4 (lists j) ≡ false
new_elsewhere j = ground arith

callout_unset-callout_set_example :
    Ends
      (λ (p, u).
        (p ≡ some 0)
        × ((j : ℕ) → u.bucket j ≡ lists j)
        × (u.callout (callout_set pool 90 8 (pos 50) wheel).0 ≡ blank)
        × (u.index ≡ 6)
        × (u.pool ≡ 4))
      (callout_unset pool
        (some (callout_set pool 90 8 (pos 50) wheel).0)
        (callout_set pool 90 8 (pos 50) wheel).1)
callout_unset-callout_set_example =
    callout_unset-callout_set pool 90 8 (pos 50) 4 4 wheel (omega arith) (omega arith) refl refl
      new_elsewhere

short_lists : (i : ℕ) → i < callwheelsize → length (wheel.bucket i) < 4
short_lists i h = ground arith

finalize_tdb-Emptied_example : Ends (Emptied pool callwheelsize wheel) (finalize_tdb pool 4 wheel)
finalize_tdb-Emptied_example = finalize_tdb-Emptied pool 4 wheel short_lists

wheel_linked : IsLinked wheel
wheel_linked k i v h = ground arith

wheel-IsLinked_example :
    IsLinked (initialize_tdb 0 wheel)
    × IsLinked (callout_set pool 90 5 (pos 70) wheel).1
    × Ends (λ (q, u). IsLinked u) (callout_unset pool (some 2) wheel)
wheel-IsLinked_example = wheel-IsLinked pool 0 wheel 90 5 (pos 70) (some 2) wheel wheel_linked
