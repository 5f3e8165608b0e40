-- ===== src/Dsm/Timer/Pending.antt =====
-- The states before and after a round of process_timer's loop, and the callouts of a list that have
-- rotations left.
use code_snippets.Dsm.Timer.Lists.{Distinct, has}
use code_snippets.Dsm.Timer.{Wheel, Callout}
use code_snippets.Prelude.{
  ◌≡◌, ◌∷◌, ◌||◌, ◌==◌, ◌-◌, ◌++◌, ◌&&◌, ℕ, true, refl, not, if◌then◌else◌, false, [], List, Bool,
}

abbrev pub kept : (ℕ → Callout) → List ℕ → List ℕ
kept c [] = []
kept c (x ∷ xs) = let rest = kept c xs in if (c x).c_period == 0 then rest else x ∷ rest

-- The trace with the calls of a list's expired callouts, in the list's order.
abbrev pub called : (ℕ → Callout) → List ℕ → List (ℕ × ℕ) → List (ℕ × ℕ)
called c [] t = t
called c (x ∷ xs) t =
    called c xs (
      if (c x).c_period == 0 && not ((c x).c_func == 0) then ((c x).c_func, (c x).c_arg) ∷ t else t)

-- A callback may set callouts on other lists and change anything but the index, the list of slot
-- `i` and the callouts on it.
pub record Keeps {S : Type 0} (i : ℕ) (w v : Wheel S) : Type 0 where
  pub index : v.index ≡ w.index
  pub bucket : v.bucket i ≡ w.bucket i
  pub callout : (j : ℕ) → has j (w.bucket i) ≡ true → v.callout j ≡ w.callout j
  pub trace : v.trace ≡ w.trace

abbrev pub rotated : Callout → Callout
rotated c = record c { c_period = c.c_period - 1 }

-- What the loop leaves: of the list the callouts `ys` before and those kept; a rotation less for
-- those; and the calls made.
pub record Done {S : Type 0} (i : ℕ) (c : ℕ → Callout) (ys xs : List ℕ) (w v : Wheel S)
    : Type 0 where
  pub bucket : v.bucket i ≡ ys ++ kept c xs
  pub before : (j : ℕ) → has j ys ≡ true → v.callout j ≡ w.callout j
  pub waiting : (j : ℕ) → has j (kept c xs) ≡ true → v.callout j ≡ rotated (c j)
  pub trace : v.trace ≡ called c xs w.trace
  pub index : v.index ≡ w.index

-- Before a round: the callouts `xs` are still to come, and are as they were.
pub record Pending {S : Type 0} (i : ℕ) (c : ℕ → Callout) (ys xs : List ℕ) (w : Wheel S)
    : Type 0 where
  pub bucket : w.bucket i ≡ ys ++ xs
  pub distinct : Distinct (ys ++ xs)
  pub agree : (j : ℕ) → has j xs ≡ true → w.callout j ≡ c j

pub or_true : (b : Bool) → (b || true) ≡ true
or_true true = refl
or_true false = refl
