-- ===== src/IntMode/Gcd.antt =====
-- calc_gcd of pco/src/int_mult_utils.rs.
use pcodec.Common.{
  ℕ, zero, suc, ◌+◌, ◌-◌, ◌*◌, ◌/◌, ◌%◌, ◌<◌, ◌≡◌, refl, ap, ◌∙◌, arith, if◌then◌else◌, ◌==◌, ==→eq,
  ==→ne, Bool-cases, inl, inr, Option, none, some, ◌↔◌,
}
use native.Mathlib.Nat.{div-add-mod, mod-lt, mul-sub}

-- The loop, on fuel; each turn divides, swaps and tests.
unfoldable pub gcd_loop : ℕ → ℕ → ℕ → Option ℕ
gcd_loop zero x y = none
gcd_loop (suc fuel) x y = let rest = gcd_loop fuel y (x % y) in if y == 0 then some x else rest

unfoldable pub calc_gcd : ℕ → ℕ → Option ℕ
unfolding gcd_loop
calc_gcd x y = if x == 0 then some y else gcd_loop (y + 1) x y

abbrev pub Divides : ℕ → ℕ → Type 0
Divides d n = (k : ℕ) × (n ≡ k * d)

module _ (d x y : ℕ) where
  to_remainder : Divides d x → Divides d y → Divides d (x % y)
  to_remainder (k, hx) (m, hy) =
      (k - x / y * m, omega (arith, div-add-mod x y, ap (λ (t : ℕ). t * (x / y)) hy, hx, sub_mul))
    where
      sub_mul : (k - x / y * m) * d ≡ k * d - x / y * m * d
      sub_mul = omega (arith, mul-sub d k (x / y * m))

  from_remainder : Divides d y → Divides d (x % y) → Divides d x
  from_remainder (m, hy) (k, hr) =
      (x / y * m + k, omega (arith, div-add-mod x y, ap (λ (t : ℕ). t * (x / y)) hy, hr))

gcd_loop_lem :
    (fuel x y d : ℕ)
    → y < fuel
    → (g : ℕ) × (gcd_loop fuel x y ≡ some g)
      × (Divides d x → Divides d y → Divides d g)
      × (Divides d g → Divides d x × Divides d y)
unfolding gcd_loop
gcd_loop_lem zero x y d h = absurd (omega arith)
gcd_loop_lem (suc fuel) x y d h = elim (Bool-cases (y == 0)) [
  | inl e ↦ (x, rw e refl, λ hx hy. hx, λ hg. (hg, (0, ==→eq y 0 e ∙ omega arith)))
  | inr ne ↦
      let pos : 0 < y = ground (arith, ==→ne y 0 ne) in
      let (g, runs, up, down) = gcd_loop_lem fuel y (x % y) d (omega (arith, mod-lt x pos)) in
      (
        g,
        rw (ne, runs),
        λ hx hy. up hy (to_remainder d x y hx hy),
        λ hg. (from_remainder d x y (down hg).0 (down hg).1, (down hg).0),
      )
]

-- The loop ends, and what divides its result is just what divides both numbers.
pub calc_gcd-Divides :
    (x y d : ℕ) → (g : ℕ) × (calc_gcd x y ≡ some g) × (Divides d g ↔ (Divides d x × Divides d y))
unfolding calc_gcd
calc_gcd-Divides x y d = elim (Bool-cases (x == 0)) [
  | inl e ↦
      let zero_x : Divides d x = (0, ==→eq x 0 e ∙ omega arith) in
      (y, rw e refl, ((λ hg. (zero_x, hg)), (λ h. h.1)))
  | inr ne ↦
      let (g, runs, up, down) = gcd_loop_lem (y + 1) x y d (omega arith) in
      (g, rw (ne, runs) refl, (down, (λ h. up h.0 h.1)))
]
