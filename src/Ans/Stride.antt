-- ===== src/Ans/Stride.antt =====
-- The steps of the spread in pco/src/ans/spec.rs: an odd stride hits each index of the table once.
use pcodec.Common.{
  ℕ, zero, suc, ◌+◌, ◌-◌, ◌*◌, ◌/◌, ◌%◌, ◌^◌, ◌≤◌, ◌<◌, ◌≡◌, sym, ap, ◌∙◌, arith, bit_and, ==→eq,
  ==→ne, leb, Bool-cases, inl, inr, tests, ◌==◌,
}
use pcodec.Common.Pow.{two-pow-suc, two-pow-pos, pow_mono, pow-add, div_of_eq}
use pcodec.Common.Bitwise.{bit_and_mask}
use pcodec.Machine.{u32}
use pcodec.Ans.Spec.{choose_stride, mod_table_size}
use native.Mathlib.Nat.{mod-eq_of_lt, div-add-mod, mul-sub, mul-le-mul_right, mul-le-mul_left}

-- A power of two that divides an odd multiple of a number divides the number.
odd_cancel : (k s d m : ℕ) → s % 2 ≡ 1 → s * d ≡ m * 2 ^ k → (n : ℕ) × (d ≡ n * 2 ^ k)
odd_cancel zero s d m odd h = (d, omega arith)
odd_cancel (suc k) s d m odd h =
    let twice : s * d ≡ 2 * (m * 2 ^ k) =
      h ∙ omega (arith, ap (λ (t : ℕ). m * t) (two-pow-suc k)) in
    let parts : s * d ≡ 2 * (s / 2 * d) + d =
      ap (λ (t : ℕ). t * d) {x = s} {y = 2 * (s / 2) + 1} (omega arith) ∙ omega arith in
    let even : d ≡ 2 * (d / 2) = omega (arith, twice, parts) in
    let half : s * (d / 2) ≡ m * 2 ^ k = omega (arith, twice, ap (λ (t : ℕ). s * t) even) in
    let (n, e) = odd_cancel k s (d / 2) m odd half in
    (n, omega (arith, even, e, ap (λ (t : ℕ). n * t) (two-pow-suc k)))

module _ (k s : ℕ) (odd : s % 2 ≡ 1) where
  ordered : (a b : ℕ) → a ≤ b → b < 2 ^ k → s * a % 2 ^ k ≡ s * b % 2 ^ k → a ≡ b
  ordered a b le b-lt e =
      let p : ℕ = 2 ^ k in
      let gap : s * (b - a) ≡ (s * b / p - s * a / p) * p =
        mul-sub s b a
        ∙ omega (
          arith,
          div-add-mod (s * a) p,
          div-add-mod (s * b) p,
          e,
          mul-sub p (s * b / p) (s * a / p),
        ) in
      let (n, d) = odd_cancel k s (b - a) (s * b / p - s * a / p) odd gap in
      elim (Bool-cases (n == 0)) [
        | inl none ↦ (let e0 : n ≡ 0 = ==→eq n 0 none in omega (arith, d, ap (λ (t : ℕ). t * p) e0))
        | inr some ↦
            (let ne : ¬ (n ≡ 0) = ==→ne n 0 some in
              let one : 1 ≤ n = ground (arith, ne) in omega (arith, d, mul-le-mul_right p one))
      ]

  -- Different steps below the table size hit different indices.
  pub stride-injective : (a b : ℕ) → a < 2 ^ k → b < 2 ^ k → s * a % 2 ^ k ≡ s * b % 2 ^ k → a ≡ b
  stride-injective a b ha hb e = elim (Bool-cases (leb a b)) [
    | inl le ↦ ordered a b (omega tests) hb e
    | inr gt ↦ sym (ordered b a (omega tests) ha (sym e))
  ]

pub choose_stride-odd : (n : ℕ) → n ≤ 16384 → (choose_stride n % 2 ≡ 1) × (choose_stride n ≤ n + 1)
unfolding choose_stride
choose_stride-odd n h = ground arith

pub mod_table_size_lem : (k : ℕ) → k ≤ 31 → mod_table_size k ≡ 2 ^ k - 1
unfolding mod_table_size
mod_table_size_lem k h =
    let p : ℕ = 2 ^ (31 - k) in
    let whole : 2 ^ 31 ≡ 2 ^ (31 - k) * 2 ^ k =
      ap (λ (t : ℕ). 2 ^ t) {x = 31} {y = 31 - k + k} (omega arith) ∙ pow-add (31 - k) k in
    div_of_eq (2 ^ 31 - 1) (2 ^ k - 1) p (p - 1)
      (omega (
        arith,
        whole,
        two-pow-pos (31 - k),
        two-pow-pos k,
        mul-sub p (2 ^ k) 1,
        mul-le-mul_left p (two-pow-pos k),
      ))
      (omega (arith, two-pow-pos (31 - k)))

-- The index of a step of the loop.
pub state_idx_lem :
    (k s t : ℕ)
    → k ≤ 14
    → s ≤ 16385
    → t < 2 ^ k
    → bit_and (u32 (s * t)) (mod_table_size k) ≡ s * t % 2 ^ k
state_idx_lem k s t small hs ht =
    rw (mod_table_size_lem k (omega arith), bit_and_mask k (u32 (s * t)))
      (ap (λ n. n % 2 ^ k)
        (mod-eq_of_lt (omega (arith, mul-le-mul_right t hs, pow_mono k 14 small))))
