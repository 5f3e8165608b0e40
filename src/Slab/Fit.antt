-- ===== src/Slab/Fit.antt =====
-- The slot that fep_slab_alloc chooses.
use code_snippets.Slab.{choose, Slab}
use code_snippets.Prelude.{
  ◌⊎◌, ◌≡◌, ◌+◌, ◌&&◌, zero, ltb, ap, ◌≤◌, ◌<◌, ℕ, suc, some, none, leb, inr, inl, if◌then◌else◌,
  arith, Option, Bool-cases,
}
use mathlib.Core.Path.{subst}

abbrev pub data_size : ℕ → Slab → ℕ
data_size i s = (s.slots i).data_size

-- Of the slots below `n`, the chosen one satisfies the request and none that does is smaller; if
-- none is chosen, none does.
abbrev pub BestFit : ℕ → ℕ → Slab → Option ℕ → Type 0
BestFit size n s none = (i : ℕ) → i < n → data_size i s < size
BestFit size n s (some j) =
    (j < n)
    × (size ≤ data_size j s)
    × ((i : ℕ) → i < n → size ≤ data_size i s → data_size j s ≤ data_size i s)

last_or : (k i : ℕ) → k < suc i → (k ≡ i) ⊎ (k < i)
last_or k i h = omega arith

-- One slot more, without and with one chosen before.
fit_none :
    (size i : ℕ) (s : Slab)
    → BestFit size i s none
    → BestFit size (suc i) s (if leb size (data_size i s) then some i else none)
fit_none size i s b = elim (Bool-cases (leb size (data_size i s))) [
  | inl e ↦ rw e (
      (
        omega arith,
        ground arith,
        λ k h m. elim (last_or k i h) [
          | inl q ↦ omega (arith, ap (λ x. data_size x s) q)
          | inr l ↦ absurd (omega (arith, b k l))
        ],
      ))
  | inr e ↦ rw e (λ k h. elim (last_or k i h) [
    | inl q ↦ let same = ap (λ x. data_size x s) q in ground arith
    | inr l ↦ b k l
  ])
]

fit_some :
    (size i j : ℕ) (s : Slab)
    → BestFit size i s (some j)
    → BestFit size
        (suc i)
        s
        (if leb size (data_size i s) && ltb (data_size i s) (data_size j s) then some i else some j)
fit_some size i j s b =
    elim (Bool-cases (leb size (data_size i s) && ltb (data_size i s) (data_size j s))) [
      | inl e ↦ rw e (
          (
            omega arith,
            ground arith,
            λ k h m. elim (last_or k i h) [
              | inl q ↦ omega (arith, ap (λ x. data_size x s) q)
              | inr l ↦ let le = b.2 k l m in ground arith
            ],
          ))
      | inr e ↦ rw e (
          (
            omega (arith, b.0),
            b.1,
            λ k h m. elim (last_or k i h) [
              | inl q ↦ let same = ap (λ x. data_size x s) q in ground arith
              | inr l ↦ b.2 k l m
            ],
          ))
    ]

choose-BestFit_from :
    (size left i : ℕ) (j : Option ℕ) (s : Slab)
    → BestFit size i s j
    → BestFit size (i + left) s (choose size left i j s)
unfolding choose
choose-BestFit_from size zero i j s b =
    let e : i ≡ i + 0 = omega arith in subst (λ n. BestFit size n s j) e b
choose-BestFit_from size (suc left) i none s b =
    let e : suc i + left ≡ i + suc left = omega arith in
    subst (λ n. BestFit size n s (choose size (suc left) i none s)) e
      (choose-BestFit_from size left (suc i) _ s (fit_none size i s b))
choose-BestFit_from size (suc left) i (some j) s b =
    let e : suc i + left ≡ i + suc left = omega arith in
    subst (λ n. BestFit size n s (choose size (suc left) i (some j) s)) e
      (choose-BestFit_from size left (suc i) _ s (fit_some size i j s b))

pub choose-BestFit : (size n : ℕ) (s : Slab) → BestFit size n s (choose size n 0 none s)
choose-BestFit size n s =
    let e : 0 + n ≡ n = omega arith in
    subst (λ m. BestFit size m s (choose size n 0 none s)) e
      (choose-BestFit_from size n 0 none s (λ i h. absurd (omega arith)))
