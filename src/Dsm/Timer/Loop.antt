-- ===== src/Dsm/Timer/Loop.antt =====
-- The loop of process_timer over one list, in a run whose callbacks leave that list alone.
use code_snippets.Dsm.Timer.Pending.{kept, called, or_true, Done, rotated, Pending, Keeps}
use mathlib.Core.Path.{subst}
use mathlib.Core.List.{append_assoc}
use code_snippets.Dsm.Timer.Ops.{process_list, unlink, release, call_back, process_callout}
use code_snippets.Dsm.Timer.Lists.{
  Ends-map, next_of-middle, ends, has-append, remove-middle, Distinct-middle, Ends, Distinct, has,
}
use code_snippets.Dsm.Timer.{next_of, first_of_list, ok, update, Pool, Wheel, Callout}
use code_snippets.Prelude.{
  ◌<◌, zero, sym, length, ap, ◌∙◌, ◌||◌, arith, suc, refl, inr, inl, false, Bool-cases, ==_iff, ◌≡◌,
  ◌∷◌, ◌==◌, ◌++◌, ℕ, true, not, if◌then◌else◌, [], List,
}

module _ (P : Pool) (call : ℕ → ℕ → Wheel (Pool.State P) → Wheel (Pool.State P)) (i : ℕ) where
  open P use {State}

  -- What is left of the wheel after a round of an expired callout.
  record After (c : Callout) (ys : List ℕ) (w v : Wheel State) : Type 0 where
    index : v.index ≡ w.index
    bucket : v.bucket i ≡ w.bucket i
    callout : (j : ℕ) → has j (w.bucket i) ≡ true → v.callout j ≡ w.callout j
    trace : v.trace ≡ (if not (c.c_func == 0) then (c.c_func, c.c_arg) ∷ w.trace else w.trace)

  -- The call of callout `c`, if it has a function, keeps the list of slot `i` of this wheel.
  abbrev Quiet : Callout → Wheel State → Type 0
  Quiet c w =
      if c.c_func == 0
      then Unit {0}
      else Keeps i (record w { trace = (c.c_func, c.c_arg) ∷ w.trace })
          (call c.c_func c.c_arg (record w { trace = (c.c_func, c.c_arg) ∷ w.trace }))

  call_back-After :
      (c : Callout) (w : Wheel State) → Quiet c w → After c [] w (call_back P call c w)
  unfolding call_back
  call_back-After c w quiet = elim (Bool-cases (c.c_func == 0)) [
    | inl e ↦ rw e (record { index = refl; bucket = refl; callout = λ j h. refl; trace = rw e })
    | inr e ↦
        let k : Keeps i (record w { trace = (c.c_func, c.c_arg) ∷ w.trace })
            (call c.c_func c.c_arg (record w { trace = (c.c_func, c.c_arg) ∷ w.trace })) =
          rw e at quiet in
        rw e
          (record { index = k.index; bucket = k.bucket; callout = k.callout; trace = rw e k.trace })
  ]

  has_other : (j r : ℕ) (xs : List ℕ) → has r xs ≡ false → has j xs ≡ true → (j == r) ≡ false
  has_other j r xs out h = elim (Bool-cases (j == r)) [
    | inl e ↦ clash ((==_iff j r).0 e)
    | inr e ↦ e
  ]
    where
      clash : j ≡ r → (j == r) ≡ false
      clash e = cc

  has_self : (r : ℕ) (xs : List ℕ) → has r (r ∷ xs) ≡ true
  has_self r xs = ground arith

  abbrev unlinked : List ℕ → Wheel State → Wheel State
  unlinked xs w = record w {
    bucket = update w.bucket i xs;
    meas = record w.meas {
      co_expire = suc w.meas.co_expire;
      co_tailq_remove = suc w.meas.co_tailq_remove;
    };
  }

  expired-eq :
      (c : ℕ → Callout) (ys : List ℕ) (r : ℕ) (xs : List ℕ) (w : Wheel State)
      → Pending i c ys (r ∷ xs) w
      → ((c r).c_period == 0) ≡ true
      → process_callout P call i r w
        ≡ ok (release P r (call_back P call (c r) (unlinked (ys ++ xs) w)))
  unfolding process_callout unlink
  expired-eq c ys r xs w p e =
      let (out, _, _) = Distinct-middle ys r xs p.distinct in
      rw (p.agree r (has_self r xs), e, p.bucket, remove-middle ys r xs out)
        (ap (λ k. ok (release P r (call_back P call k (unlinked (ys ++ xs) w))))
          (p.agree r (has_self r xs)))

  -- The round of an expired callout.
  abbrev Round : (ℕ → Callout) → List ℕ → List ℕ → List (ℕ × ℕ) → Wheel State → Wheel State → Type 0
  Round c ys xs t w v =
      Pending i c ys xs v
      × ((j : ℕ) → has j ys ≡ true → v.callout j ≡ w.callout j)
      × (v.trace ≡ t)
      × (v.index ≡ w.index)

  expired :
      (c : ℕ → Callout) (ys : List ℕ) (r : ℕ) (xs : List ℕ) (w : Wheel State)
      → Pending i c ys (r ∷ xs) w
      → Quiet (c r) (unlinked (ys ++ xs) w)
      → Round c ys xs
          (if not ((c r).c_func == 0) then ((c r).c_func, (c r).c_arg) ∷ w.trace else w.trace)
          w
          (release P r (call_back P call (c r) (unlinked (ys ++ xs) w)))
  unfolding release
  expired c ys r xs w p quiet =
      let (before, behind, distinct) = Distinct-middle ys r xs p.distinct in
      let u = unlinked (ys ++ xs) w in
      let now : u.bucket i ≡ ys ++ xs = ground arith in
      let a = call_back-After (c r) u quiet in
      let same : (j : ℕ)
          → has j (ys ++ xs) ≡ true
          → (call_back P call (c r) u).callout j ≡ w.callout j =
        λ j h. a.callout j (rw now h) in
      (
        record {
          bucket = a.bucket ∙ now;
          distinct = distinct;
          agree = λ j h. rw (has_other j r xs behind h) (
              same j (rw (has-append j ys xs, h) (or_true (has j ys)))
              ∙ p.agree j (rw h (or_true (j == r))));
        },
        λ j h. rw (has_other j r ys before h) (same j (rw (has-append j ys xs, h))),
        a.trace,
        a.index,
      )

  -- The round of a callout with rotations left.
  abbrev turned : ℕ → Wheel State → Wheel State
  turned r w = record w { callout = update w.callout r (rotated (w.callout r)) }

  -- The loop from wheel `w` on, with the callouts `xs` of the list of slot `i` to come after those
  -- of `ys`, which stay: each callback that it runs keeps the list on the wheel that it is given.
  abbrev pub Undisturbed : (ℕ → Callout) → List ℕ → List ℕ → Wheel State → Type 0
  Undisturbed c ys [] w = Unit {0}
  Undisturbed c ys (r ∷ xs) w =
      let u = unlinked (ys ++ xs) w in
      let fired = Undisturbed c ys xs (release P r (call_back P call (c r) u)) in
      let stays = Undisturbed c (ys ++ r ∷ []) xs (turned r w) in
      if (c r).c_period == 0 then Quiet (c r) u × fired else stays

  waiting :
      (c : ℕ → Callout) (ys : List ℕ) (r : ℕ) (xs : List ℕ) (w : Wheel State)
      → Pending i c ys (r ∷ xs) w
      → Pending i c (ys ++ r ∷ []) xs (turned r w)
        × ((j : ℕ) → has j ys ≡ true → (turned r w).callout j ≡ w.callout j)
        × ((turned r w).callout r ≡ rotated (c r))
  waiting c ys r xs w p =
      let (before, behind, distinct) = Distinct-middle ys r xs p.distinct in
      let split : (ys ++ r ∷ []) ++ xs ≡ ys ++ r ∷ xs = append_assoc ys (r ∷ []) xs in
      (
        record {
          bucket = p.bucket ∙ sym split;
          distinct = subst Distinct (sym split) p.distinct;
          agree = λ j h. rw (has_other j r xs behind h) (p.agree j (rw h (or_true (j == r))));
        },
        λ j h. rw (has_other j r ys before h),
        rw ((==_iff r r).1 refl) (ap rotated (p.agree r (has_self r xs))),
      )

  waiting-eq :
      (c : ℕ → Callout) (ys : List ℕ) (r : ℕ) (xs : List ℕ) (w : Wheel State)
      → Pending i c ys (r ∷ xs) w
      → ((c r).c_period == 0) ≡ false
      → process_callout P call i r w ≡ ok (turned r w)
  unfolding process_callout
  waiting-eq c ys r xs w p e =
      let here : ((w.callout r).c_period == 0) ≡ false = rw (p.agree r (has_self r xs)) e in rw here

  Done-expired :
      (c : ℕ → Callout) (ys : List ℕ) (r : ℕ) (xs : List ℕ) (t : List (ℕ × ℕ)) (w v u : Wheel State)
      → ((c r).c_period == 0) ≡ true
      → t ≡ (if not ((c r).c_func == 0) then ((c r).c_func, (c r).c_arg) ∷ w.trace else w.trace)
      → Round c ys xs t w v
      → Done i c ys xs v u
      → Done i c ys (r ∷ xs) w u
  Done-expired c ys r xs t w v u e f (q, keep, tr, ix) d = record {
    bucket = rw e d.bucket;
    before = λ j h. d.before j h ∙ keep j h;
    waiting = λ j h. d.waiting j (rw e at h);
    trace = rw e (d.trace ∙ ap (called c xs) (tr ∙ f));
    index = d.index ∙ ix;
  }

  Done-waiting :
      (c : ℕ → Callout) (ys : List ℕ) (r : ℕ) (xs : List ℕ) (w u : Wheel State)
      → ((c r).c_period == 0) ≡ false
      → ((j : ℕ) → has j ys ≡ true → (turned r w).callout j ≡ w.callout j)
      → (turned r w).callout r ≡ rotated (c r)
      → Done i c (ys ++ r ∷ []) xs (turned r w) u
      → Done i c ys (r ∷ xs) w u
  Done-waiting c ys r xs w u e keep turn d = record {
    bucket = rw e (d.bucket ∙ append_assoc ys (r ∷ []) (kept c xs));
    before = λ j h. d.before j (rw (has-append j ys (r ∷ []), h)) ∙ keep j h;
    waiting = λ j h. one j (rw e at h);
    trace = rw e d.trace;
    index = d.index;
  }
    where
      one : (j : ℕ) → ((j == r) || has j (kept c xs)) ≡ true → u.callout j ≡ rotated (c j)
      one j h = elim (Bool-cases (j == r)) [
        | inl f ↦
            let same = (==_iff j r).0 f in
            let last : has r (ys ++ r ∷ []) ≡ true =
              rw (has-append r ys (r ∷ []), has_self r []) (or_true (has r ys)) in
            subst (λ k. u.callout k ≡ rotated (c k)) (sym same) (d.before r last ∙ turn)
        | inr f ↦ d.waiting j (rw f at h)
      ]

  pub loop-Done :
      (fuel : ℕ) (c : ℕ → Callout) (ys xs : List ℕ) (w : Wheel State)
      → Pending i c ys xs w
      → Undisturbed c ys xs w
      → length xs < fuel
      → Ends (Done i c ys xs w) (process_list P call fuel i (first_of_list xs) w)
  unfolding process_list first_of_list
  loop-Done zero c ys xs w p calm n = absurd (omega arith)
  loop-Done (suc fuel) c ys [] w p calm n = ends w (record {
    bucket = p.bucket;
    before = λ j h. refl;
    waiting = λ j h. cc;
    trace = refl;
    index = refl;
  })
  loop-Done (suc fuel) c ys (r ∷ xs) w p calm n =
      let (before, _, _) = Distinct-middle ys r xs p.distinct in
      let next : next_of r (w.bucket i) ≡ first_of_list xs =
        rw p.bucket (next_of-middle ys r xs before) in
      elim (Bool-cases ((c r).c_period == 0)) [
        | inl e ↦
            let v = release P r (call_back P call (c r) (unlinked (ys ++ xs) w)) in
            let now : Quiet (c r) (unlinked (ys ++ xs) w) × Undisturbed c ys xs v = rw e at calm in
            let s = expired c ys r xs w p now.0 in
            rw (expired-eq c ys r xs w p e, next)
              (Ends-map (loop-Done fuel c ys xs v s.0 now.1 (omega arith))
                (λ u d. Done-expired c ys r xs _ w v u e refl s d))
        | inr e ↦
            let (q, keep, turn) = waiting c ys r xs w p in
            let later : Undisturbed c (ys ++ r ∷ []) xs (turned r w) = rw e at calm in
            rw (waiting-eq c ys r xs w p e, next)
              (Ends-map (loop-Done fuel c (ys ++ r ∷ []) xs (turned r w) q later (omega arith))
                (λ u d. Done-waiting c ys r xs w u e keep turn d))
      ]
