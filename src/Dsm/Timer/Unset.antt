-- ===== src/Dsm/Timer/Unset.antt =====
-- callout_unset, alone and after callout_set.
use code_snippets.Dsm.Timer.Sets.{clamped, slot_for, callout_set-Placed}
use code_snippets.Dsm.Timer.Lists.{Ends-map, ends, remove-middle, Ends, has}
use code_snippets.Dsm.Timer.Ops.{callout_set, unlink, release, callout_unset}
use code_snippets.Dsm.Timer.{
  Callout, callouttimer, id_undef, callout_id_valid, callwheelsize, blank, Wheel, Pool,
}
use code_snippets.Prelude.Int.{ℤ, pos_part}
use code_snippets.Prelude.{
  ◌∙◌, ◌==◌, sym, inr, inl, ap, [], Bool-cases, ==_iff, ◌≢◌, ◌≡◌, ◌∷◌, ◌<◌, ◌/◌, ◌++◌, ℕ, true,
  some, refl, false, arith, List,
}
use mathlib.Core.Path.{subst}
use mathlib.Core.List.{append-nil}

module _ (P : Pool) where
  open P use {State, new_private, delete_private}

  -- What callout_unset has done to a callout on the list of slot `i`: the list keeps its other
  -- callouts in their order, the callout is blank and its memory is back in the pool.
  pub record Freed (i id : ℕ) (xs : List ℕ) (w v : Wheel State) : Type 0 where
    pub list : v.bucket i ≡ xs
    pub other_lists : (j : ℕ) → j ≢ i → v.bucket j ≡ w.bucket j
    pub emptied : v.callout id ≡ blank
    pub other_callouts : (k : ℕ) → k ≢ id → v.callout k ≡ w.callout k
    pub pool : v.pool ≡ delete_private id w.pool
    pub rest : (v.index ≡ w.index) × (v.trace ≡ w.trace)

  -- A valid id whose callout is on a list, once, is unset: the callout leaves that list and is
  -- freed, and the id becomes ID_UNDEF.
  pub callout_unset-Freed :
      (i id : ℕ) (xs ys : List ℕ) (w : Wheel State)
      → callout_id_valid id ≡ true
      → (w.callout id).head ≡ some i
      → w.bucket i ≡ xs ++ id ∷ ys
      → has id xs ≡ false
      → Ends
          (λ (p, v). (p ≡ some id_undef) × Freed i id (xs ++ ys) w v)
          (callout_unset P (some id) w)
  unfolding callout_unset release unlink
  callout_unset-Freed i id xs ys w ok on split once =
      rw (ok, on, split, remove-middle xs id ys once)
        (ends _ (
          refl,
          record {
            list = ground arith;
            other_lists = ground arith;
            emptied = ground arith;
            other_callouts = ground arith;
            pool = refl;
            rest = (refl, refl);
          },
        ))

  -- With the index on the wheel, a positive expiry and from the pool a callout with a valid id that
  -- is on no list, the callout that callout_set has placed can be unset: every list of the wheel is
  -- then as it was before, and the callout is blank.
  pub callout_unset-callout_set :
      (func arg : ℕ) (expiry : ℤ) (new : ℕ) (s : State) (w : Wheel State)
      → w.index < callwheelsize
      → 0 < pos_part expiry
      → new_private w.pool ≡ some (new, s)
      → callout_id_valid new ≡ true
      → ((j : ℕ) → has new (w.bucket j) ≡ false)
      → let (id, v) = callout_set P func arg expiry w in
        Ends
          (λ (p, u).
            (p ≡ some id_undef)
            × ((j : ℕ) → u.bucket j ≡ w.bucket j)
            × (u.callout id ≡ blank)
            × (u.index ≡ w.index)
            × (u.pool ≡ delete_private id s))
          (callout_unset P (some id) v)
  callout_unset-callout_set func arg expiry new s w h e p valid fresh =
      let (same, v) = callout_set-Placed P func arg expiry new s w h e p in
      let i = slot_for w.index (clamped P expiry / callouttimer) in
      let u = (callout_set P func arg expiry w).1 in
      rw same (
        Ends-map
          (callout_unset-Freed i new (w.bucket i) [] u valid (ap (λ (c : Callout). c.head) v.filled)
            v.listed (fresh i))
          (λ (_, t) (undefined, f). (
            undefined,
            λ j. elim (Bool-cases (j == i)) [
              | inl at ↦
                  let here = (==_iff j i).0 at in
                  subst (λ k. t.bucket k ≡ w.bucket k) (sym here) (f.list ∙ append-nil (w.bucket i))
              | inr off ↦
                  let other : j ≢ i = differs off in f.other_lists j other ∙ v.other_lists j other
            ],
            f.emptied,
            f.rest.0 ∙ v.rest.0,
            f.pool ∙ ap (delete_private new) v.rest.1,
          )))
    where
      differs : {j i : ℕ} → (j == i) ≡ false → j ≢ i
      differs h = ground arith
