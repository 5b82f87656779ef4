-- ===== src/Common/Pow.antt =====
-- Powers of two: shifts, masks and the base-2 logarithm of the machine, as arithmetic.
use Prim.Native.Nat.{ℕ, zero, suc, ◌+◌, ◌-◌, ◌*◌, ◌/◌, ◌%◌, ◌^◌, ◌≤◌, ◌<◌}
use mathlib.Core.Path.{◌≡◌, refl, ap}
use native.Mathlib.Nat.{
  pow-suc, one-le-pow, div-div-eq-div-mul, mod-lt, div-add-mod, add-zero, pow-le-pow_right,
  mod-mod_of_dvd, mul-add-mod_self_left, mod-eq_of_lt, mul-add-div, div-eq_of_lt, mul-le-mul_left,
  dvd-mul_right,
}
use mathlib.Core.Logic.{inl, inr}
use pcodec.Common.Tests.{ltb, if◌then◌else◌, tests, Bool-cases}
use native.Mathlib.Omega.{arith}

pub two-pow-suc : (k : ℕ) → 2 ^ suc k ≡ 2 * 2 ^ k
two-pow-suc k = omega (arith, pow-suc 2 k)

pub two-pow-pos : (k : ℕ) → 0 < 2 ^ k
two-pow-pos k = one-le-pow k 2 (omega arith)

pub pow-add : (a b : ℕ) → 2 ^ (a + b) ≡ 2 ^ a * 2 ^ b
pow-add a zero = rw add-zero (omega arith)
pow-add a (suc b) =
    let e : a + suc b ≡ suc (a + b) = omega arith in
    rw e (
      omega (
        arith,
        two-pow-suc (a + b),
        two-pow-suc b,
        pow-add a b,
        ap (λ (t : ℕ). 2 ^ a * t) (two-pow-suc b),
      ))

-- Exponents that differ by a known amount.
pub pow_split : (n m : ℕ) → n ≤ m → 2 ^ m ≡ 2 ^ n * 2 ^ (m - n)
pow_split n m h =
    let e : m ≡ n + (m - n) = omega arith in rw (← pow-add n (m - n)) (ap (λ t. 2 ^ t) e)

pub pow_mono : (n m : ℕ) → n ≤ m → 2 ^ n ≤ 2 ^ m
pow_mono n m h = pow-le-pow_right (omega arith) h

pub div-div-pow : (x a b : ℕ) → x / 2 ^ a / 2 ^ b ≡ x / 2 ^ (a + b)
div-div-pow x a b = rw (pow-add a b) (div-div-eq-div-mul x (2 ^ a) (2 ^ b))

-- Truncation to `m` bits and then to fewer.
pub mod-mod-pow : (x n m : ℕ) → n ≤ m → x % 2 ^ m % 2 ^ n ≡ x % 2 ^ n
mod-mod-pow x n m h = rw (pow_split n m h) (mod-mod_of_dvd (2 ^ n) x (dvd-mul_right _ _))

-- Quotient and remainder are determined by their equation.
pub mod_of_eq : (x q m r : ℕ) → x ≡ m * q + r → r < m → x % m ≡ r
mod_of_eq x q m r e h = rw (e, mul-add-mod_self_left m q r) (mod-eq_of_lt h)

pub div_of_eq : (x q m r : ℕ) → x ≡ m * q + r → r < m → x / m ≡ q
div_of_eq x q m r e h = rw (e, mul-add-div {m = m} (omega arith) q r, div-eq_of_lt h) (omega arith)

-- Two digits of a mixed radix: the remainder by a product, shifted right.
pub mod_mul : (x p q : ℕ) → 0 < p → 0 < q → x % (p * q) ≡ p * (x / p % q) + x % p
mod_mul x p q hp hq =
    mod_of_eq x (x / p / q) (p * q) (p * (x / p % q) + x % p)
      (omega (arith, div-add-mod x p, ap (λ (t : ℕ). p * t) (div-add-mod (x / p) q)))
      (omega (arith, mod-lt x hp, digit))
  where
    digit : p * (x / p % q) + p ≤ p * q
    digit =
        let below : suc (x / p % q) ≤ q = mod-lt (x / p) hq in
        omega (arith, mul-le-mul_left p below)

-- A shift right of a truncated word.
pub mod-div-pow : (x a b : ℕ) → x % 2 ^ (a + b) / 2 ^ a ≡ x / 2 ^ a % 2 ^ b
mod-div-pow x a b =
    let hp = two-pow-pos a in
    rw (pow-add a b, mod_mul x (2 ^ a) (2 ^ b) hp (two-pow-pos b))
      (div_of_eq _ (x / 2 ^ a % 2 ^ b) (2 ^ a) (x % 2 ^ a) refl (mod-lt x hp))

-- The modular arithmetic of machine words, at any width.
module _ (m : ℕ) where
  pub sub_add_mod : (x y : ℕ) → x < m → y < m → ((x + m - y) % m + y) % m ≡ x
  sub_add_mod x y hx hy = grind arith

  add_sub_mod : (x y : ℕ) → x < m → y < m → ((x + y) % m + m - y) % m ≡ x
  add_sub_mod x y hx hy = grind arith

-- The position of the highest one bit. Fuel `n` is enough, since `n` is halved in each round.
abbrev log_fuel : ℕ → ℕ → ℕ
log_fuel zero n = 0
log_fuel (suc f) n = let rest = log_fuel f (n / 2) in if ltb n 2 then 0 else suc rest

-- `ilog2` of the machine, on a positive number.
unfoldable pub ilog2 : ℕ → ℕ
ilog2 n = log_fuel n n

log_fuel_bounds : (f n : ℕ) → 0 < n → n ≤ f → (2 ^ log_fuel f n ≤ n) × (n < 2 * 2 ^ log_fuel f n)
log_fuel_bounds zero n p h = absurd (omega arith)
log_fuel_bounds (suc f) n p h = elim (Bool-cases (ltb n 2)) [
  | inl small ↦ rw small (omega tests)
  | inr big ↦ rw big (omega (tests, two-pow-suc (log_fuel f (n / 2)), log_fuel_bounds f (n / 2)))
]

pub ilog2_bounds : (n : ℕ) → 0 < n → (2 ^ ilog2 n ≤ n) × (n < 2 * 2 ^ ilog2 n)
unfolding ilog2
ilog2_bounds n p = log_fuel_bounds n n p (omega arith)

le_of_not_lt : (a b : ℕ) → ¬ (b < a) → a ≤ b
le_of_not_lt a b h = omega arith

eq_of_not_lt : (a b : ℕ) → ¬ (a < b) → ¬ (b < a) → a ≡ b
eq_of_not_lt a b h k = omega arith

-- The logarithm is the only exponent between whose powers the number lies.
pub ilog2_unique : (n k : ℕ) → 2 ^ k ≤ n → n < 2 * 2 ^ k → ilog2 n ≡ k
ilog2_unique n k lo hi = eq_of_not_lt (ilog2 n) k under over
  where
    bounds : (2 ^ ilog2 n ≤ n) × (n < 2 * 2 ^ ilog2 n)
    bounds = ilog2_bounds n (omega (arith, two-pow-pos k))

    under : ¬ (ilog2 n < k)
    under h = omega (arith, bounds, pow_mono (suc (ilog2 n)) k h, two-pow-suc (ilog2 n))

    over : ¬ (k < ilog2 n)
    over h = omega (arith, bounds, pow_mono (suc k) (ilog2 n) h, two-pow-suc k)

-- A power below the next power has no greater exponent.
pub exponent_le : (l k : ℕ) → 2 ^ l < 2 * 2 ^ k → l ≤ k
exponent_le l k h = le_of_not_lt l k λ q. omega (arith, pow_mono (suc k) l q, two-pow-suc k)

-- A factor may be truncated before a truncated product.
pub mod-mul-mod : (u m t : ℕ) → u % m * t % m ≡ u * t % m
mod-mul-mod u m t =
    let e : u * t ≡ m * (u / m * t) + u % m * t =
      omega (arith, ap (λ (v : ℕ). v * t) (div-add-mod u m)) in
    rw (e, mul-add-mod_self_left m (u / m * t) (u % m * t))
