-- ===== src/Common/Bitwise.antt =====
-- `&` with a mask of low ones and `|` of words that agree where they overlap, as arithmetic.
use Prim.Native.Nat.{
  ℕ, zero, suc, ◌+◌, ◌-◌, ◌*◌, ◌/◌, ◌%◌, ◌^◌, ◌≤◌, ◌<◌, min, max, bit_and, bit_or, digits, bitwise,
  bit_and-bitwise, bit_or-bitwise,
}
use mathlib.Core.Path.{◌≡◌, refl, ap, ap₂, ◌∙◌}
use native.Mathlib.Omega.{arith}
use native.Mathlib.Nat.{mod-one, mod-lt, mod-add-div, mod-eq_of_lt, div-div-eq-div-mul}
use pcodec.Common.Pow.{two-pow-suc, two-pow-pos, mod_of_eq, div_of_eq}

-- The recursion on binary digits that stands behind the native operations, without its fuel.
module _ (z : ℕ → ℕ) (f : ℕ → ℕ → ℕ) where
  digits_enough : (x y i j : ℕ) → x ≤ i → x ≤ j → digits z f i x y ≡ digits z f j x y
  digits_enough zero y zero zero hi hj = refl
  digits_enough zero y zero (suc j) hi hj = refl
  digits_enough zero y (suc i) zero hi hj = refl
  digits_enough zero y (suc i) (suc j) hi hj = refl
  digits_enough (suc x) y zero j hi hj = absurd (omega arith)
  digits_enough (suc x) y (suc i) zero hi hj = absurd (omega arith)
  digits_enough (suc x) y (suc i) (suc j) hi hj =
      let half : digits z f i (suc x / 2) (y / 2) ≡ digits z f j (suc x / 2) (y / 2) =
        digits_enough (suc x / 2) (y / 2) i j (omega arith) (omega arith) in
      rw half

  lowest_digit :
      (x y : ℕ)
      → bitwise z f (suc x) y ≡ f (suc x % 2) (y % 2) + 2 * bitwise z f (suc x / 2) (y / 2)
  lowest_digit x y =
      omega (arith, digits_enough (suc x / 2) (y / 2) x (suc x / 2) (omega arith) (omega arith))

bit_or_step : (x y : ℕ) → bit_or x y ≡ max (x % 2) (y % 2) + 2 * bit_or (x / 2) (y / 2)
bit_or_step zero y = simp bit_or-bitwise (omega arith)
bit_or_step (suc x) y = simp bit_or-bitwise (lowest_digit (λ e. e) max x y)

bit_and_step : (x y : ℕ) → bit_and x y ≡ min (x % 2) (y % 2) + 2 * bit_and (x / 2) (y / 2)
bit_and_step zero y = simp bit_and-bitwise (omega arith)
bit_and_step (suc x) y = simp bit_and-bitwise (lowest_digit (λ e. 0) min x y)

-- Halving ends at zero, for which the other operand is all that counts.
halves-bit_or : (i x : ℕ) → x ≤ i → bit_or x 0 ≡ x
halves-bit_or zero x h = (let none : x ≡ 0 = omega arith in rw none refl)
halves-bit_or (suc i) zero h = refl
halves-bit_or (suc i) (suc y) h =
    omega (arith, bit_or_step (suc y) 0, halves-bit_or i (suc y / 2) (omega arith))

bit_or-zero : (a : ℕ) → bit_or a 0 ≡ a
bit_or-zero a = halves-bit_or a a (omega arith)

zero-bit_or : (b : ℕ) → bit_or 0 b ≡ b
zero-bit_or b = bit_or-bitwise 0 b

halves-bit_and : (i x : ℕ) → x ≤ i → bit_and x 0 ≡ 0
halves-bit_and zero x h = (let none : x ≡ 0 = omega arith in rw none refl)
halves-bit_and (suc i) zero h = refl
halves-bit_and (suc i) (suc y) h =
    omega (arith, bit_and_step (suc y) 0, halves-bit_and i (suc y / 2) (omega arith))

bit_and-zero : (x : ℕ) → bit_and x 0 ≡ 0
bit_and-zero x = halves-bit_and x x (omega arith)

-- One binary digit off a truncated word.
mod-pow-suc : (a k : ℕ) → a % 2 ^ suc k ≡ 2 * (a / 2 % 2 ^ k) + a % 2
mod-pow-suc a k =
    let hp = two-pow-pos k in
    mod_of_eq a (a / 2 / 2 ^ k) (2 ^ suc k) _
      (omega (
        arith,
        two-pow-suc k,
        ap (λ (t : ℕ). t * (a / 2 / 2 ^ k)) (two-pow-suc k),
        mod-add-div (a / 2) (2 ^ k),
      ))
      (omega (arith, two-pow-suc k, mod-lt (a / 2) hp))

-- A mask of `k` ones takes the remainder by `2 ^ k`.
pub bit_and_mask : (k a : ℕ) → bit_and a (2 ^ k - 1) ≡ a % 2 ^ k
bit_and_mask zero a = rw (mod-one a) (bit_and-zero a)
bit_and_mask (suc k) a =
    let half : (2 ^ suc k - 1) / 2 ≡ 2 ^ k - 1 = omega (arith, two-pow-suc k, two-pow-pos k) in
    let odd : (2 ^ suc k - 1) % 2 ≡ 1 = omega (arith, two-pow-suc k, two-pow-pos k) in
    rw (bit_and_step a (2 ^ suc k - 1), half, odd, bit_and_mask k (a / 2), mod-pow-suc a k)
      (omega arith)

or_half : (a b : ℕ) → bit_or a b / 2 ≡ bit_or (a / 2) (b / 2)
or_half a b = omega (arith, bit_or_step a b)

or_odd : (a b : ℕ) → bit_or a b % 2 ≡ max (a % 2) (b % 2)
or_odd a b = omega (arith, bit_or_step a b)

mod_half : (a k : ℕ) → a % 2 ^ suc k / 2 ≡ a / 2 % 2 ^ k
mod_half a k = omega (arith, mod-pow-suc a k)

mod_odd : (a k : ℕ) → a % 2 ^ suc k % 2 ≡ a % 2
mod_odd a k = omega (arith, mod-pow-suc a k)

-- Truncation goes under `|`.
pub bit_or-mod : (k a b : ℕ) → bit_or a b % 2 ^ k ≡ bit_or (a % 2 ^ k) (b % 2 ^ k)
bit_or-mod zero a b = rw (mod-one a, mod-one b) (mod-one _)
bit_or-mod (suc k) a b =
    rw
      (
        bit_or_step (a % 2 ^ suc k) (b % 2 ^ suc k),
        mod_half a k,
        mod_half b k,
        mod_odd a k,
        mod_odd b k,
        ← bit_or-mod k (a / 2) (b / 2),
        mod-pow-suc (bit_or a b) k,
        or_half,
        or_odd,
      )
      (omega arith)

or_low : (m y : ℕ) → bit_or (y % 2 ^ m) y ≡ y
or_low zero y = rw (mod-one y) (zero-bit_or y)
or_low (suc m) y =
    rw (bit_or_step (y % 2 ^ suc m) y, mod_half y m, mod_odd y m, or_low m (y / 2)) (omega arith)

-- `|` puts a word together from its low bits and its high bits, which may overlap.
pub bit_or_overlap : (p m y : ℕ) → p ≤ m → bit_or (y % 2 ^ m) (y / 2 ^ p * 2 ^ p) ≡ y
bit_or_overlap zero m y h = let e : y / 2 ^ 0 * 2 ^ 0 ≡ y = omega arith in rw e (or_low m y)
bit_or_overlap (suc p) zero y h = absurd (omega arith)
bit_or_overlap (suc p) (suc m) y h =
    let high : y / 2 ^ suc p * 2 ^ suc p ≡ 2 * (y / 2 / 2 ^ p * 2 ^ p) =
      rw (two-pow-suc p, ← div-div-eq-div-mul y 2 (2 ^ p)) (omega arith) in
    let half : 2 * (y / 2 / 2 ^ p * 2 ^ p) / 2 ≡ y / 2 / 2 ^ p * 2 ^ p = omega arith in
    let even : 2 * (y / 2 / 2 ^ p * 2 ^ p) % 2 ≡ 0 = omega arith in
    rw
      (
        high,
        bit_or_step (y % 2 ^ suc m) (2 * (y / 2 / 2 ^ p * 2 ^ p)),
        mod_half y m,
        mod_odd y m,
        half,
        even,
        bit_or_overlap p m (y / 2) (omega arith),
      )
      (omega arith)

-- `|` of disjoint fields is their sum.
pub bit_or_disjoint : (p a b : ℕ) → a < 2 ^ p → bit_or a (b * 2 ^ p) ≡ a + b * 2 ^ p
bit_or_disjoint p a b h =
    let y : ℕ = a + b * 2 ^ p in
    let low : y % 2 ^ p ≡ a = mod_of_eq y b (2 ^ p) a (omega arith) h in
    let high : y / 2 ^ p ≡ b = div_of_eq y b (2 ^ p) a (omega arith) h in
    rw (low, high) at (bit_or_overlap p p y (omega arith))

-- `|` stays inside a type.
pub bit_or-lt : (k a b : ℕ) → a < 2 ^ k → b < 2 ^ k → bit_or a b < 2 ^ k
bit_or-lt k a b ha hb =
    let e : bit_or a b % 2 ^ k ≡ bit_or a b =
      bit_or-mod k a b ∙ ap₂ bit_or (mod-eq_of_lt ha) (mod-eq_of_lt hb) in
    rw e at (mod-lt (bit_or a b) (two-pow-pos k))
