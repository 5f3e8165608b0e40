-- ===== src/IdGen/Valid.antt =====
-- The lists and the user data of the ID generator.
use mathlib.Core.Path.{subst}
use code_snippets.IdGen.{
  fep_id_free, update, fep_id_free_by_id, fep_id_alloc, alloc_from, fep_id_get_data,
  fep_id_gen_init, in_range, ids_from, list_del, IdGen,
}
use code_snippets.Prelude.{
  sym, not, inr, inl, Bool-cases, ◌||◌, false, ap, Bool, ==_iff, ◌≢◌, true, some, returns, refl,
  none, Returns, Option, ◌≡◌, ◌∷◌, ◌==◌, ◌<◌, ◌-◌, ◌+◌, ◌++◌, ◌&&◌, ℕ, zero, suc, ltb, leb,
  if◌then◌else◌, arith, [], List,
}

-- How often an id stands on a list.
abbrev pub count : ℕ → List ℕ → ℕ
count j [] = 0
count j (x ∷ xs) = (if j == x then 1 else 0) + count j xs

-- Every id of the array stands on one of the two lists, once, and no other id does; a free id has
-- no user data.
pub record IsValid (g : IdGen) : Type 0 where
  pub once :
      (j : ℕ) → count j g.free_ids + count j g.used_ids ≡ (if in_range g.n_ids j then 1 else 0)
  pub no_data : (j : ℕ) → 0 < count j g.free_ids → g.pdata j ≡ 0

count-append :
    (j i : ℕ) (xs : List ℕ) → count j (xs ++ i ∷ []) ≡ count j xs + (if j == i then 1 else 0)
count-append j i [] = omega arith
count-append j i (x ∷ xs) = omega (arith, count-append j i xs)

count-list_del :
    (j i : ℕ) (xs : List ℕ)
    → count j (list_del i xs) ≡ (if j == i then count j xs - 1 else count j xs)
unfolding list_del
count-list_del j i [] = ground arith
count-list_del j i (x ∷ xs) = ground (arith, count-list_del j i xs)

count-ids_from :
    (j i left : ℕ) → count j (ids_from i left) ≡ (if ltb i j && leb j (i + left) then 1 else 0)
unfolding ids_from
count-ids_from j i zero = ground arith
count-ids_from j i (suc left) = ground (arith, count-ids_from j (suc i) left)

-- A new generator of any number of ids, for which there is memory, is valid.
pub fep_id_gen_init-IsValid : (n : ℕ) → Returns IsValid (fep_id_gen_init true n)
unfolding fep_id_gen_init
fep_id_gen_init-IsValid n = returns _ (record { once = λ j. listed j; no_data = λ j h. refl })
  where
    listed : (j : ℕ) → count j (ids_from 0 n) + 0 ≡ (if in_range n j then 1 else 0)
    listed j = ground (arith, count-ids_from j 0 n)

-- The outcomes of fep_id_alloc: no id is left, or one that was not in use is, with its user data,
-- and the others are as they were.
pub data Allocated (user : ℕ) (g : IdGen) : Option ℕ → IdGen → Type 0 where
  full : ((j : ℕ) → in_range g.n_ids j ≡ true → count j g.used_ids ≡ 1) → Allocated user g none g
  fresh :
      (i : ℕ) (g' : IdGen)
      → in_range g.n_ids i ≡ true
      → count i g.used_ids ≡ 0
      → fep_id_get_data i g' ≡ user
      → ((j : ℕ) → j ≢ i → fep_id_get_data j g' ≡ fep_id_get_data j g)
      → ((j : ℕ) → count j g'.used_ids ≡ count j g.used_ids + (if j == i then 1 else 0))
      → IsValid g'
      → Allocated user g (some i) g'

below : (m n : ℕ) → 0 < m → 1 + m + n ≡ 1 → ⊥
below m n h k = omega arith

pick : {m user : ℕ} (b : Bool) → not b ≡ true → m ≡ user → (if b then 0 else m) ≡ user
pick true h e = cc
pick false h e = e

alloc_from-Allocated :
    (ids : List ℕ) (user : ℕ) (g : IdGen)
    → g.free_ids ≡ ids
    → IsValid g
    → let (r, g') = alloc_from ids user g in Allocated user g r g'
unfolding alloc_from fep_id_get_data
alloc_from-Allocated [] user g e v = full (λ j h.
    let on = v.once j in
    let empty : count j g.free_ids ≡ 0 = ap (count j) e in
    let one = rw h at on in omega (arith, one, empty))
alloc_from-Allocated (i ∷ rest) user g e v =
    let on : (j : ℕ)
        → (if j == i then 1 else 0) + count j rest + count j g.used_ids
          ≡ (if in_range g.n_ids j then 1 else 0) =
      λ j.
        subst (λ xs. count j xs + count j g.used_ids ≡ (if in_range g.n_ids j then 1 else 0)) e
          (v.once j) in
    let self : (i == i) ≡ true = (==_iff i i).1 refl in
    let here = on i in
    let listed : in_range g.n_ids i ≡ true =
      counted (in_range g.n_ids i) (count i rest) (count i g.used_ids) (rw self at here) in
    let alone = rw (self, listed) at here in
    fresh i _ listed (omega (arith, alone)) (data_of listed self) (λ j other. ground arith)
      (λ j. count-append j i g.used_ids)
      (record {
        once = λ j. omega (arith, on j, count-append j i g.used_ids);
        no_data = λ j h. still_none j h (on j) alone;
      })
  where
    counted : (b : Bool) (m n : ℕ) → 1 + m + n ≡ (if b then 1 else 0) → b ≡ true
    counted true m n h = refl
    counted false m n h = absurd (omega arith)

    data_of :
        in_range g.n_ids i ≡ true
        → (i == i) ≡ true
        → (if ltb i 1 || ltb g.n_ids i then 0 else update g.pdata i user i) ≡ user
    data_of listed self = pick _ listed (rw self)

    still_none :
        (j : ℕ)
        → 0 < count j rest
        → (if j == i then 1 else 0) + count j rest + count j g.used_ids
          ≡ (if in_range g.n_ids j then 1 else 0)
        → 1 + count i rest + count i g.used_ids ≡ 1
        → update g.pdata i user j ≡ 0
    still_none j h on alone = elim (Bool-cases (j == i)) [
      | inl at ↦
          let same = (==_iff j i).0 at in
          absurd (below _ _ (subst (λ k. 0 < count k rest) same h) alone)
      | inr off ↦ rw off (v.no_data j (subst (λ xs. 0 < count j xs) (sym e) (omega (arith, h))))
    ]

-- On a valid generator fep_id_alloc finds no id only if all are in use, and otherwise gives one
-- that was not in use, with the user data, and changes no other id; the generator stays valid.
pub fep_id_alloc-Allocated :
    (user : ℕ) (g : IdGen) → IsValid g → let (r, g') = fep_id_alloc user g in Allocated user g r g'
unfolding fep_id_alloc
fep_id_alloc-Allocated user g v = alloc_from-Allocated g.free_ids user g refl v

-- What fep_id_free_by_id leaves of the id `i`.
pub record Freed (i : ℕ) (g g' : IdGen) : Type 0 where
  pub valid : IsValid g'
  pub unused : count i g'.used_ids ≡ 0
  pub no_data : fep_id_get_data i g' ≡ 0
  pub others :
      (j : ℕ)
      → j ≢ i
      → (fep_id_get_data j g' ≡ fep_id_get_data j g) × (count j g'.used_ids ≡ count j g.used_ids)

out_of_range : (i : ℕ) (g : IdGen) → IsValid g → in_range g.n_ids i ≡ false → Freed i g g
unfolding fep_id_get_data
out_of_range i g v out =
    let on = v.once i in
    let none_on = rw out at on in
    record {
      valid = v;
      unused = omega (arith, none_on);
      no_data = ground arith;
      others = λ j h. (refl, refl);
    }

freed :
    (i : ℕ) (g : IdGen) → IsValid g → in_range g.n_ids i ≡ true → Freed i g (fep_id_free (some i) g)
unfolding fep_id_free fep_id_get_data
freed i g v within =
    let on = v.once i in
    record {
      valid = record {
        once = λ j. ground (
          arith,
          v.once j,
          on,
          within,
          count-append j i (list_del i g.free_ids),
          count-list_del j i g.free_ids,
          count-list_del j i g.used_ids,
        );
        no_data = λ j h. ground (
          arith,
          v.no_data j,
          count-append j i (list_del i g.free_ids),
          count-list_del j i g.free_ids,
        );
      };
      unused = ground (arith, on, within, count-list_del i i g.used_ids);
      no_data = ground arith;
      others = λ j h. ground (arith, count-list_del j i g.used_ids);
    }

-- fep_id_free_by_id, of an id in use, a free one or one out of range, leaves a valid generator
-- valid, the id without use and user data, and every other id as it was.
pub fep_id_free_by_id-Freed : (i : ℕ) (g : IdGen) → IsValid g → Freed i g (fep_id_free_by_id i g)
unfolding fep_id_free_by_id
fep_id_free_by_id-Freed i g v = elim (Bool-cases (ltb i 1 || ltb g.n_ids i)) [
  | inl e ↦ rw e (out_of_range i g v (rw e))
  | inr e ↦ rw e (freed i g v (rw e))
]
