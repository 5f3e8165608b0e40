-- ===== src/Slab/Delete.antt =====
-- Objects on a list, and fep_slab_del_object of them.
use code_snippets.Slab.Free.{del_objects, del_object, same_object}
use code_snippets.Prelude.{
  ap, ◌==◌, ◌++◌, length, ◌≤◌, ◌≡◌, ◌∷◌, ◌∙◌, ◌||◌, ◌<◌, ◌+◌, ℕ, zero, true, suc, some, refl, inr,
  inl, false, arith, [], List, Bool-cases, Bool,
}

abbrev pub has_object : ℕ × ℕ → List (ℕ × ℕ) → Bool
has_object o [] = false
has_object o (x ∷ xs) = same_object x o || has_object o xs

-- The list `ys` is `os` without its first `o`.
pub record TakenFrom (o : ℕ × ℕ) (os ys : List (ℕ × ℕ)) : Type 0 where
  pub before : List (ℕ × ℕ)
  pub behind : List (ℕ × ℕ)
  pub split : os ≡ before ++ o ∷ behind
  pub first : has_object o before ≡ false
  pub joined : ys ≡ before ++ behind

-- A removal of a member.
pub record Deleted (o : ℕ × ℕ) (os ys : List (ℕ × ℕ)) : Type 0 where
  pub taken : TakenFrom o os ys
  pub removed : del_object o os ≡ some ys
  pub length : suc (length ys) ≡ length os
  pub others : (q : ℕ × ℕ) → same_object o q ≡ false → has_object q ys ≡ has_object q os

same_object-same :
    (x o q : ℕ × ℕ) → same_object x o ≡ true → same_object o q ≡ false → same_object x q ≡ false
same_object-same (a, b) (c, d) (e, f) h k = ground arith

same_object-eq : (x o : ℕ × ℕ) → same_object x o ≡ true → x ≡ o
same_object-eq (b, k) (c, j) h = ground arith

pub deleted :
    (o : ℕ × ℕ) (os : List (ℕ × ℕ)) → has_object o os ≡ true → (ys : List (ℕ × ℕ)) × Deleted o os ys
unfolding del_object
deleted o [] h = absurd (ground arith)
deleted o (x ∷ xs) h = elim (Bool-cases (same_object x o)) [
  | inl e ↦ (
    xs,
    record {
      taken = record {
        before = [];
        behind = xs;
        split = ap (λ y. y ∷ xs) (same_object-eq x o e);
        first = refl;
        joined = refl;
      };
      removed = rw e refl;
      length = refl;
      others = λ q z. let past = same_object-same x o q e z in ground arith;
    },
  )
  | inr e ↦
      let (ys, d) = deleted o xs (ground arith) in
      (
        x ∷ ys,
        record {
          taken = record {
            before = x ∷ d.taken.before;
            behind = d.taken.behind;
            split = ap (λ zs. x ∷ zs) d.taken.split;
            first = let z = d.taken.first in ground arith;
            joined = ap (λ zs. x ∷ zs) d.taken.joined;
          };
          removed = rw (e, d.removed) refl;
          length = omega (arith, d.length);
          others = λ q z. let rest = d.others q z in ground arith;
        },
      )
]

-- The loop removes the objects of a block that are all on the list.
pub del_objects-lem :
    (n b i : ℕ) (os : List (ℕ × ℕ))
    → ((k : ℕ) → i ≤ k → k < i + n → has_object (b, k) os ≡ true)
    → (ys : List (ℕ × ℕ)) × (del_objects b i n os ≡ some ys)
      × (length ys + n ≡ length os)
      × ((q : ℕ × ℕ) → (q.0 == b) ≡ false → has_object q ys ≡ has_object q os)
unfolding del_objects
del_objects-lem zero b i os h = (os, refl, omega arith, λ q z. refl)
del_objects-lem (suc n) b i os h =
    let (rest, d) = deleted (b, i) os (h i (omega arith) (omega arith)) in
    let (ys, r, l, keep) =
      del_objects-lem n b (suc i) rest
        (λ k p q. d.others (b, k) (ground arith) ∙ h k (omega arith) (omega arith)) in
    (
      ys,
      rw (d.removed, r) refl,
      omega (arith, d.length, l),
      λ q z. keep q z ∙ d.others q (elsewhere q z),
    )
  where
    elsewhere : (q : ℕ × ℕ) → (q.0 == b) ≡ false → same_object (b, i) q ≡ false
    elsewhere (c, j) z = ground arith

pub has_object-append :
    (o : ℕ × ℕ) (xs ys : List (ℕ × ℕ))
    → has_object o (xs ++ ys) ≡ (has_object o xs || has_object o ys)
has_object-append o [] ys = refl
has_object-append o (x ∷ xs) ys = let rest = has_object-append o xs ys in ground arith
