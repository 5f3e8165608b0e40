-- ===== src/Dsm/Context/Copied.antt =====
-- What the copies between a message and a session keep.
use code_snippets.Dsm.Context.Copy.{
  ms_per_sec, to_short, ms_of, copy_items, sec_of, minus, copy_proxies, copy_rounds,
}
use code_snippets.Dsm.Context.{Proxies}
use code_snippets.Prelude.Int.{ℤ, pos_part, pos, negsuc, neg_part}
use code_snippets.Prelude.{
  ◌-◌, ◌%◌, false, ◌≤◌, ◌≡◌, ◌∙◌, ◌^◌, ◌==◌, ◌<◌, ◌/◌, ◌+◌, ◌*◌, ℕ, zero, true, sym, suc, refl, ltb,
  inr, inl, arith, ap, Bool-cases, ==_iff,
}

-- l 0 + … + l (n - 1)
abbrev pub total : ℕ → (ℕ → ℕ) → ℕ
total zero l = 0
total (suc n) l = total n l + l n

-- Two values with the same proxies: up to the count the same hosts and lengths, and up to the sum of
-- the lengths the same data.
pub record AreSame (from to : Proxies) : Type 0 where
  pub count : to.count ≡ from.count
  pub host : (i : ℕ) → i < from.count → to.host i ≡ from.host i
  pub state_len : (i : ℕ) → i < from.count → to.state_len i ≡ from.state_len i
  pub states : (i : ℕ) → i < total from.count from.state_len → to.states i ≡ from.states i

copied_host :
    (n : ℕ) (from to : Proxies) (i : ℕ) → i < n → (copy_rounds n from to).0.host i ≡ from.host i
unfolding copy_rounds
copied_host zero from to i h = absurd (omega arith)
copied_host (suc n) from to i h = elim (Bool-cases (i == n)) [
  | inl e ↦ rw e (ap from.host (sym ((==_iff i n).0 e)))
  | inr e ↦ rw e (copied_host n from to i (ground arith))
]

copied_state_len :
    (n : ℕ) (from to : Proxies) (i : ℕ)
    → i < n
    → (copy_rounds n from to).0.state_len i ≡ from.state_len i
unfolding copy_rounds
copied_state_len zero from to i h = absurd (omega arith)
copied_state_len (suc n) from to i h = elim (Bool-cases (i == n)) [
  | inl e ↦ rw e (ap from.state_len (sym ((==_iff i n).0 e)))
  | inr e ↦ rw e (copied_state_len n from to i (ground arith))
]

copied_rest :
    (n : ℕ) (from to : Proxies)
    → let (p, j) = copy_rounds n from to in (p.count ≡ to.count) × (j ≡ total n from.state_len)
unfolding copy_rounds
copied_rest zero from to = (refl, refl)
copied_rest (suc n) from to =
    let (a, b) = copied_rest n from to in (a, ap (λ j. j + from.state_len n) b)

pub copy_proxies-AreSame : (from to : Proxies) → AreSame from (copy_proxies from to)
unfolding copy_proxies copy_items
copy_proxies-AreSame from to =
    let (a, b) = copied_rest from.count from (record to { count = from.count }) in
    record {
      count = a;
      host = λ i h. copied_host from.count from (record to { count = from.count }) i h;
      state_len = λ i h. copied_state_len from.count from (record to { count = from.count }) i h;
      states = λ i h.
          let below : ltb i (copy_rounds from.count from (record to { count = from.count })).1
              ≡ true =
            ground arith in
          rw below refl;
    }

total-same : (n : ℕ) (l m : ℕ → ℕ) → ((i : ℕ) → i < n → m i ≡ l i) → total n m ≡ total n l
total-same zero l m h = refl
total-same (suc n) l m h =
    let rest = total-same n l m (λ i p. h i (omega arith)) in omega (arith, h n (omega arith))

pub AreSame-trans : (a b c : Proxies) → AreSame a b → AreSame b c → AreSame a c
AreSame-trans a b c p q = record {
  count = q.count ∙ p.count;
  host = λ i h. q.host i (omega (arith, p.count)) ∙ p.host i h;
  state_len = λ i h. q.state_len i (omega (arith, p.count)) ∙ p.state_len i h;
  states = λ i h.
      let sum = total-same a.count a.state_len b.state_len p.state_len in
      let all = ap (λ n. total n b.state_len) p.count in
      q.states i (omega (arith, sum, all)) ∙ p.states i h;
}

sec_of-minus : (n : ℕ) → sec_of (minus n) ≡ to_short (minus (n / ms_per_sec))
unfolding sec_of
sec_of-minus zero = refl
sec_of-minus (suc n) = refl

to_short-negsuc : (n : ℕ) → n < 2 ^ 15 → to_short (negsuc n) ≡ negsuc n
to_short-negsuc n h =
    let r : (0 + (2 ^ 16 - 1) * suc n) % 2 ^ 16 ≡ 2 ^ 16 - suc n = omega arith in
    let above : ltb (2 ^ 16 - suc n) (2 ^ 15) ≡ false = ground arith in
    let back : 2 ^ 16 - (2 ^ 16 - suc n) ≡ suc n = omega arith in rw (r, above, back) refl

-- The shorts.
abbrev pub IsShort : ℤ → Type 0
IsShort z = (pos_part z < 2 ^ 15) × (neg_part z ≤ 2 ^ 15)

-- A timer's seconds, which a session keeps as milliseconds, come back.
pub sec_of-ms_of : (z : ℤ) → IsShort z → sec_of (ms_of z) ≡ z
unfolding sec_of ms_of
sec_of-ms_of (pos n) (p, q) =
    let whole : n * 1000 / 1000 ≡ n = omega arith in rw whole (ground arith)
sec_of-ms_of (negsuc n) (p, q) =
    let whole : suc n * ms_per_sec / ms_per_sec ≡ suc n = omega arith in
    sec_of-minus (suc n * ms_per_sec)
    ∙ ap (λ a. to_short (minus a)) whole
    ∙ to_short-negsuc n (omega arith)
