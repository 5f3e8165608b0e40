-- ===== src/Dsm/Timer/Ticks.antt =====
-- process_timer, one tick of the wheel.
use code_snippets.Dsm.Timer.Loop.{Undisturbed, loop-Done}
use code_snippets.Dsm.Timer.Ops.{advance, process_timer}
use code_snippets.Dsm.Timer.Due.{due-later, due-one, due, tick}
use mathlib.Core.Path.{subst}
use code_snippets.Dsm.Timer.Pending.{Done, kept, called}
use code_snippets.Dsm.Timer.Lists.{Ends-map, Ends, Distinct, has}
use code_snippets.Dsm.Timer.{callwheelsize, Wheel, Pool, Callout}
use code_snippets.Prelude.{
  ap, suc, ◌⊎◌, ◌≢◌, ◌≡◌, ◌∷◌, ◌==◌, ◌<◌, ◌&&◌, ℕ, true, sym, refl, not, length, inr, inl,
  if◌then◌else◌, false, arith, [], List, Bool-cases, Bool, ==_iff,
}

has-kept :
    (c : ℕ → Callout) (j : ℕ) (xs : List ℕ)
    → has j xs ≡ true
    → 0 < (c j).c_period
    → has j (kept c xs) ≡ true
has-kept c j [] h k = h
has-kept c j (x ∷ xs) h k = elim (Bool-cases (j == x)) [
  | inl e ↦
      let same = (==_iff j x).0 e in
      let some_left : ((c x).c_period == 0) ≡ false =
        subst (λ y. ((c y).c_period == 0) ≡ false) same (positive k) in
      rw (some_left, e)
  | inr e ↦
      let rest = has-kept c j xs (rw e at h) k in
      elim (Bool-cases ((c x).c_period == 0)) [ inl f ↦ rw f rest | inr f ↦ rw (f, e) rest ]
]
  where
    positive : {n : ℕ} → 0 < n → (n == 0) ≡ false
    positive h = ground arith

abbrev pub Called : ℕ × ℕ → List (ℕ × ℕ) → Type 0
Called p [] = ⊥
Called p (q ∷ t) = (p ≡ q) ⊎ Called p t

called-more :
    (c : ℕ → Callout) (p : ℕ × ℕ) (xs : List ℕ) (t : List (ℕ × ℕ))
    → Called p t
    → Called p (called c xs t)
called-more c p [] t h = h
called-more c p (x ∷ xs) t h =
    called-more c p xs _ (one ((c x).c_period == 0 && not ((c x).c_func == 0)))
  where
    one : (b : Bool) → Called p (if b then ((c x).c_func, (c x).c_arg) ∷ t else t)
    one true = inr h
    one false = h

Called-called :
    (c : ℕ → Callout) (j : ℕ) (xs : List ℕ) (t : List (ℕ × ℕ))
    → has j xs ≡ true
    → (c j).c_period ≡ 0
    → (c j).c_func ≢ 0
    → Called ((c j).c_func, (c j).c_arg) (called c xs t)
Called-called c j [] t h k f = cc
Called-called c j (x ∷ xs) t h k f = elim (Bool-cases (j == x)) [
  | inl e ↦
      let same = (==_iff j x).0 e in
      let gone : (c x).c_period ≡ 0 = subst (λ y. (c y).c_period ≡ 0) same k in
      let some_func : ((c x).c_func == 0) ≡ false =
        subst (λ y. ((c y).c_func == 0) ≡ false) same (nonzero f) in
      subst (λ y. Called ((c y).c_func, (c y).c_arg) (called c (x ∷ xs) t)) (sym same)
        (rw (gone, some_func) (called-more c ((c x).c_func, (c x).c_arg) xs _ (inl refl)))
  | inr e ↦ Called-called c j xs _ (rw e at h) k f
]
  where
    nonzero : {n : ℕ} → n ≢ 0 → (n == 0) ≡ false
    nonzero f = ground arith

module _ (P : Pool) (call : ℕ → ℕ → Wheel (Pool.State P) → Wheel (Pool.State P))
    (w : Wheel (Pool.State P))
    (calm : Undisturbed P call
      (tick w.index)
      w.callout
      []
      (w.bucket (tick w.index))
      (advance P call w))
    (distinct : Distinct (w.bucket (tick w.index))) where
  -- If each callback that the tick runs keeps the index, the list of the next slot and the callouts
  -- that are on it then, these are distinct before the tick, and the fuel is above their number, the
  -- tick reaches that slot, calls the callouts of
  -- its list that have no rotation left, in the order of the list, leaves the others there in their
  -- order with a rotation less, and ends.
  pub process_timer-Done :
      (fuel : ℕ)
      → length (w.bucket (tick w.index)) < fuel
      → Ends
          (Done (tick w.index) w.callout [] (w.bucket (tick w.index)) (advance P call w))
          (process_timer P call fuel w)
  unfolding process_timer
  process_timer-Done fuel n =
      loop-Done P call (tick w.index) fuel w.callout [] (w.bucket (tick w.index)) (advance P call w)
        (record { bucket = refl; distinct = distinct; agree = λ j h. refl }) calm n

  -- If each callback that the tick runs keeps the index, the list of the next slot and the callouts
  -- that are on it then, these are distinct before the tick, the fuel is above their number and the
  -- index is on the wheel, the tick ends, and a
  -- callout with a function on the list of the slot that it reaches is called in this tick if it
  -- falls due at it, and otherwise stays on the list, one tick nearer to its call.
  pub process_timer-due :
      (fuel : ℕ) (j : ℕ)
      → length (w.bucket (tick w.index)) < fuel
      → w.index < callwheelsize
      → has j (w.bucket (tick w.index)) ≡ true
      → (w.callout j).c_func ≢ 0
      → Ends
          (λ (v : Wheel (Pool.State P)).
            if due w.index (tick w.index) (w.callout j).c_period == 1
            then Called ((w.callout j).c_func, (w.callout j).c_arg) v.trace
            else (has j (v.bucket v.index) ≡ true)
              × (suc (due v.index v.index (v.callout j).c_period)
                  ≡ due w.index (tick w.index) (w.callout j).c_period))
          (process_timer P call fuel w)
  process_timer-due fuel j n inside here f = Ends-map (process_timer-Done fuel n) (λ v d.
      elim (Bool-cases ((w.callout j).c_period == 0)) [
        | inl e ↦
            rw (due-one w.index (w.callout j).c_period inside, e, d.trace)
              (Called-called w.callout j (w.bucket (tick w.index)) w.trace here ((==_iff _ _).0 e)
                f)
        | inr e ↦
            let k = has-kept w.callout j (w.bucket (tick w.index)) here (ground arith) in
            let period = ap (λ (c : Callout). c.c_period) (d.waiting j k) in
            rw (due-one w.index (w.callout j).c_period inside, e, d.index, d.bucket, period)
              (k, due-later w.index (w.callout j).c_period inside e)
      ])
