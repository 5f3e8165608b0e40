-- ===== src/Prelude/Bits.antt =====
-- Bitwise and, or and exclusive or of numbers.
use code_snippets.Prelude.{
  ◌≡◌, ℕ, zero, suc, ◌+◌, ◌*◌, ◌/◌, ◌%◌, ◌≤◌, ◌<◌, ◌^◌, ◌-◌, arith, refl, sym, ◌∙◌,
}
use native.Mathlib.Nat.{pow-suc, mul_assoc, mod-eq-sub-mul-div, mul-div-le, div-div-eq-div-mul}
use Prim.Native.Nat.{
  bit_xor, bit_xor-bitwise, differ, max, min, bit_and, bit_or, digits, bit_and-bitwise,
  bit_or-bitwise,
}

module _ (z : ℕ → ℕ) (f : ℕ → ℕ → ℕ) where
  none_to_go : (count right : ℕ) → digits z f count 0 right ≡ z right
  none_to_go zero right = refl
  none_to_go (suc count) right = refl

  -- The count of digits to go does not matter once it is enough.
  digits-enough :
      (left right count more : ℕ)
      → left ≤ count
      → left ≤ more
      → digits z f count left right ≡ digits z f more left right
  digits-enough zero right count more h k = none_to_go count right ∙ sym (none_to_go more right)
  digits-enough (suc left) right zero more h k = absurd (omega arith)
  digits-enough (suc left) right (suc count) zero h k = absurd (omega arith)
  digits-enough (suc left) right (suc count) (suc more) h k =
      let rest = digits-enough (suc left / 2) (right / 2) count more (omega arith) (omega arith) in
      omega (arith, rest)

bit_or-step : (a b : ℕ) → bit_or a b ≡ bit_or (a / 2) (b / 2) * 2 + max (a % 2) (b % 2)
bit_or-step zero b = omega (arith, bit_or-bitwise 0 b, bit_or-bitwise 0 (b / 2))
bit_or-step (suc a) b = omega (
  arith,
  bit_or-bitwise (suc a) b,
  bit_or-bitwise (suc a / 2) (b / 2),
  digits-enough (λ b. b) max (suc a / 2) (b / 2) a (suc a / 2) (omega arith) (omega arith),
)

bit_and-step : (a b : ℕ) → bit_and a b ≡ bit_and (a / 2) (b / 2) * 2 + min (a % 2) (b % 2)
bit_and-step zero b = omega (arith, bit_and-bitwise 0 b, bit_and-bitwise 0 (b / 2))
bit_and-step (suc a) b = omega (
  arith,
  bit_and-bitwise (suc a) b,
  bit_and-bitwise (suc a / 2) (b / 2),
  digits-enough (λ b. 0) min (suc a / 2) (b / 2) a (suc a / 2) (omega arith) (omega arith),
)

bit_or-zero_enough : (n a : ℕ) → a ≤ n → bit_or a 0 ≡ a
bit_or-zero_enough zero zero h = refl
bit_or-zero_enough zero (suc a) h = absurd (omega arith)
bit_or-zero_enough (suc n) zero h = refl
bit_or-zero_enough (suc n) (suc a) h =
    omega (arith, bit_or-step (suc a) 0, bit_or-zero_enough n (suc a / 2) (omega arith))

bit_and-zero_enough : (n a : ℕ) → a ≤ n → bit_and a 0 ≡ 0
bit_and-zero_enough zero zero h = refl
bit_and-zero_enough zero (suc a) h = absurd (omega arith)
bit_and-zero_enough (suc n) zero h = refl
bit_and-zero_enough (suc n) (suc a) h =
    omega (arith, bit_and-step (suc a) 0, bit_and-zero_enough n (suc a / 2) (omega arith))

-- Or with a number that lies below the lowest one of the other adds it.
pub bit_or-below : (k a b : ℕ) → b < 2 ^ k → bit_or (a * 2 ^ k) b ≡ a * 2 ^ k + b
bit_or-below zero a b h =
    let none_left : b ≡ 0 = omega arith in
    rw none_left (bit_or-zero_enough (a * 1) (a * 1) (omega arith) ∙ omega arith)
bit_or-below (suc k) a b h =
    let q = a * 2 ^ k in
    let double : a * 2 ^ suc k ≡ q * 2 = rw (pow-suc 2 k) (sym (mul_assoc a (2 ^ k) 2)) in
    let half : q * 2 / 2 ≡ q = omega arith in
    let below : b / 2 < 2 ^ k = omega (arith, pow-suc 2 k) in
    let rest = bit_or-below k a (b / 2) below in
    let step = bit_or-step (q * 2) b in rw double (rw (half, rest) at step ∙ omega arith)

mod-double : (a p : ℕ) → a % (2 * p) ≡ a / 2 % p * 2 + a % 2
mod-double a p =
    let d = div-div-eq-div-mul a 2 p in
    let whole = mod-eq-sub-mul-div a (2 * p) in
    let part = mod-eq-sub-mul-div (a / 2) p in
    let below = mul-div-le (a / 2) p in
    let twice = mul_assoc 2 p (a / 2 / p) in
    let whole' : a % (2 * p) ≡ a - 2 * (p * (a / 2 / p)) = rw (← twice, d) whole in
    omega (arith, whole', part, below)

pow-pos : (k : ℕ) → 0 < 2 ^ k
pow-pos zero = omega arith
pow-pos (suc k) = omega (arith, pow-suc 2 k, pow-pos k)

-- And with a mask of low ones.
pub bit_and-mask : (k a : ℕ) → bit_and a (2 ^ k - 1) ≡ a % 2 ^ k
bit_and-mask zero a = omega (arith, bit_and-zero_enough a a (omega arith))
bit_and-mask (suc k) a =
    let p = 2 ^ k in
    let power : 2 ^ suc k ≡ 2 * p = omega (arith, pow-suc 2 k) in
    let some_one : 0 < p = pow-pos k in
    let half : (2 * p - 1) / 2 ≡ p - 1 = omega arith in
    let step = bit_and-step a (2 * p - 1) in
    rw power (rw (half, bit_and-mask k (a / 2)) at step ∙ omega (arith, mod-double a p))

bit_xor-step : (a b : ℕ) → bit_xor a b ≡ bit_xor (a / 2) (b / 2) * 2 + differ (a % 2) (b % 2)
bit_xor-step zero b = omega (arith, bit_xor-bitwise 0 b, bit_xor-bitwise 0 (b / 2))
bit_xor-step (suc a) b = omega (
  arith,
  bit_xor-bitwise (suc a) b,
  bit_xor-bitwise (suc a / 2) (b / 2),
  digits-enough (λ b. b) differ (suc a / 2) (b / 2) a (suc a / 2) (omega arith) (omega arith),
)

differ-lt : (a b : ℕ) → a < 2 → b < 2 → differ a b < 2
differ-lt zero b h k = k
differ-lt (suc zero) zero h k = omega arith
differ-lt (suc zero) (suc zero) h k = omega arith
differ-lt (suc zero) (suc (suc b)) h k = absurd (omega arith)
differ-lt (suc (suc a)) b h k = absurd (omega arith)

-- Exclusive or stays below a power of two.
pub bit_xor-lt : (k a b : ℕ) → a < 2 ^ k → b < 2 ^ k → bit_xor a b < 2 ^ k
bit_xor-lt zero a b h l =
    let zero_a : a ≡ 0 = omega arith in
    let zero_b : b ≡ 0 = omega arith in rw (zero_a, zero_b) (omega arith)
bit_xor-lt (suc k) a b h l = omega (
  arith,
  pow-suc 2 k,
  bit_xor-step a b,
  differ-lt (a % 2) (b % 2) (omega arith) (omega arith),
  bit_xor-lt k (a / 2) (b / 2) (omega (arith, pow-suc 2 k)) (omega (arith, pow-suc 2 k)),
)

halved : (k a b : ℕ) → (a * 2 ^ suc k + b) / 2 ≡ a * 2 ^ k + b / 2
halved k a b =
    let double : a * 2 ^ suc k ≡ a * 2 ^ k * 2 = rw (pow-suc 2 k) (sym (mul_assoc a (2 ^ k) 2)) in
    omega (arith, double)

digit : (k a b : ℕ) → (a * 2 ^ suc k + b) % 2 ≡ b % 2
digit k a b =
    let double : a * 2 ^ suc k ≡ a * 2 ^ k * 2 = rw (pow-suc 2 k) (sym (mul_assoc a (2 ^ k) 2)) in
    omega (arith, double)

doubled : (k n r s : ℕ) → (n * 2 ^ k + r) * 2 + s ≡ n * 2 ^ suc k + (r * 2 + s)
doubled k n r s =
    let double : n * 2 ^ suc k ≡ n * 2 ^ k * 2 = rw (pow-suc 2 k) (sym (mul_assoc n (2 ^ k) 2)) in
    omega (arith, double)

-- And, and exclusive or, of numbers split at the same digit.
pub bit_and-split :
    (k a b c d : ℕ)
    → b < 2 ^ k
    → d < 2 ^ k
    → bit_and (a * 2 ^ k + b) (c * 2 ^ k + d) ≡ bit_and a c * 2 ^ k + bit_and b d
bit_and-split zero a b c d h l =
    let zero_b : b ≡ 0 = omega arith in
    let zero_d : d ≡ 0 = omega arith in
    let left : a * 1 + 0 ≡ a = omega arith in
    let right : c * 1 + 0 ≡ c = omega arith in rw (zero_b, zero_d, left, right) (omega arith)
bit_and-split (suc k) a b c d h l =
    let rest =
      bit_and-split k a (b / 2) c (d / 2) (omega (arith, pow-suc 2 k))
        (omega (arith, pow-suc 2 k)) in
    let step = bit_and-step (a * 2 ^ suc k + b) (c * 2 ^ suc k + d) in
    let low = bit_and-step b d in
    rw (halved k a b, halved k c d, digit k a b, digit k c d, rest) at step
    ∙ doubled k (bit_and a c) (bit_and (b / 2) (d / 2)) (min (b % 2) (d % 2))
    ∙ omega (arith, low)

pub bit_xor-split :
    (k a b c d : ℕ)
    → b < 2 ^ k
    → d < 2 ^ k
    → bit_xor (a * 2 ^ k + b) (c * 2 ^ k + d) ≡ bit_xor a c * 2 ^ k + bit_xor b d
bit_xor-split zero a b c d h l =
    let zero_b : b ≡ 0 = omega arith in
    let zero_d : d ≡ 0 = omega arith in
    let left : a * 1 + 0 ≡ a = omega arith in
    let right : c * 1 + 0 ≡ c = omega arith in rw (zero_b, zero_d, left, right) (omega arith)
bit_xor-split (suc k) a b c d h l =
    let rest =
      bit_xor-split k a (b / 2) c (d / 2) (omega (arith, pow-suc 2 k))
        (omega (arith, pow-suc 2 k)) in
    let step = bit_xor-step (a * 2 ^ suc k + b) (c * 2 ^ suc k + d) in
    let low = bit_xor-step b d in
    rw (halved k a b, halved k c d, digit k a b, digit k c d, rest) at step
    ∙ doubled k (bit_xor a c) (bit_xor (b / 2) (d / 2)) (differ (b % 2) (d % 2))
    ∙ omega (arith, low)

pub zero-bit_or : (b : ℕ) → bit_or 0 b ≡ b
zero-bit_or b = bit_or-bitwise 0 b
