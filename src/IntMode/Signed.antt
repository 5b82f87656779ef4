-- ===== src/IntMode/Signed.antt =====
-- The ordered latents of pco/src/data_types/signeds.rs. A signed number is an integer, and its casts
-- and wrapping operations go through the bits of two's complement.
use pcodec.Common.{
  ℕ, suc, ◌+◌, ◌-◌, ◌*◌, ◌%◌, ◌^◌, ◌<◌, ◌≡◌, refl, ap, ◌∙◌, arith, false, if◌then◌else◌, ltb,
  lt→ltb, le→ltb, ◌↔◌,
}
use pcodec.Common.Pow.{two-pow-suc, two-pow-pos, mod_of_eq}
use pcodec.Latent.{IsLatent, mid, wrapping_add, wrapping_sub, wrapping_sub-IsLatent}
use native.Mathlib.Nat.{mod-eq_of_lt}

-- The integers over the native numbers: `negsuc n` is - 1 - n.
pub data ℤ : Type 0 where
  pos : ℕ → ℤ
  negsuc : ℕ → ℤ

abbrev pub IsSigned : ℕ → ℤ → Type 0
IsSigned w (pos n) = n < 2 ^ (w - 1)
IsSigned w (negsuc n) = n < 2 ^ (w - 1)

infix 40 ◌<ℤ◌
abbrev pub ◌<ℤ◌ : ℤ → ℤ → Type 0
pos m <ℤ pos n = m < n
pos m <ℤ negsuc n = ⊥
negsuc m <ℤ pos n = Unit
negsuc m <ℤ negsuc n = n < m

-- The cast from a signed number of `w` bits to the unsigned type of the same size, and back.
unfoldable pub as_unsigned : ℕ → ℤ → ℕ
as_unsigned w (pos n) = n
as_unsigned w (negsuc n) = 2 ^ w - 1 - n

unfoldable pub as_signed : ℕ → ℕ → ℤ
as_signed w x = if ltb x (2 ^ (w - 1)) then pos x else negsuc (2 ^ w - 1 - x)

-- Subtracting and adding MIN, whose bits are those of the middle latent.
unfoldable pub to_latent_ordered : ℕ → ℤ → ℕ
unfolding as_unsigned as_signed
to_latent_ordered w z = as_unsigned w (as_signed w (wrapping_sub w (as_unsigned w z) (mid w)))

unfoldable pub from_latent_ordered : ℕ → ℕ → ℤ
unfolding as_unsigned as_signed
from_latent_ordered w l = as_signed w (wrapping_add w (as_unsigned w (as_signed w l)) (mid w))

module _ (w : ℕ) (wide : 0 < w) where
  double : 2 ^ w ≡ 2 * 2 ^ (w - 1)
  double = let e : w ≡ suc (w - 1) = omega arith in ap (λ k. 2 ^ k) e ∙ two-pow-suc (w - 1)

  as_unsigned-as_signed : (x : ℕ) → IsLatent w x → as_unsigned w (as_signed w x) ≡ x
  unfolding as_unsigned as_signed
  as_unsigned-as_signed x h = ground arith

  to_latent_lem : (z : ℤ) → to_latent_ordered w z ≡ wrapping_sub w (as_unsigned w z) (mid w)
  unfolding to_latent_ordered
  to_latent_lem z = as_unsigned-as_signed _ (wrapping_sub-IsLatent w (as_unsigned w z) (mid w))

  to_pos : (n : ℕ) → IsSigned w (pos n) → to_latent_ordered w (pos n) ≡ 2 ^ (w - 1) + n
  unfolding as_unsigned wrapping_sub mid
  to_pos n h =
      to_latent_lem (pos n)
      ∙ ap (λ m. m % 2 ^ w) (omega (arith, double))
      ∙ mod-eq_of_lt {n = 2 ^ (w - 1) + n} (omega (arith, h, double))

  to_negsuc : (n : ℕ) → IsSigned w (negsuc n) → to_latent_ordered w (negsuc n) ≡ 2 ^ (w - 1) - 1 - n
  unfolding as_unsigned wrapping_sub mid
  to_negsuc n h =
      to_latent_lem (negsuc n)
      ∙ mod_of_eq (2 ^ w - 1 - n + 2 ^ w - 2 ^ (w - 1)) 1 (2 ^ w) (2 ^ (w - 1) - 1 - n)
          (omega (arith, double, h)) (omega (arith, double, h))

  -- The ordered latents of signed numbers, of a type of a positive width, have the order of the
  -- numbers.
  pub to_latent_ordered-<ℤ :
      (a b : ℤ)
      → IsSigned w a
      → IsSigned w b
      → (a <ℤ b) ↔ (to_latent_ordered w a < to_latent_ordered w b)
  to_latent_ordered-<ℤ (pos m) (pos n) ha hb =
      rw (to_pos m ha, to_pos n hb) ((λ h. omega (arith, h)), (λ h. omega (arith, h)))
  to_latent_ordered-<ℤ (pos m) (negsuc n) ha hb =
      rw (to_pos m ha, to_negsuc n hb) ((λ h. absurd h), (λ h. absurd (omega (arith, h))))
  to_latent_ordered-<ℤ (negsuc m) (pos n) ha hb =
      rw (to_negsuc m ha, to_pos n hb) ((λ h. omega (arith, ha)), (λ h. tt))
  to_latent_ordered-<ℤ (negsuc m) (negsuc n) ha hb =
      rw (to_negsuc m ha, to_negsuc n hb)
        ((λ h. omega (arith, h, ha, hb)), (λ h. omega (arith, h, ha, hb)))

  from_latent_lem :
      (l : ℕ) → IsLatent w l → from_latent_ordered w l ≡ as_signed w (wrapping_add w l (mid w))
  unfolding from_latent_ordered
  from_latent_lem l h = ap (λ x. as_signed w (wrapping_add w x (mid w))) (as_unsigned-as_signed l h)

  -- For a signed number of a type of a positive width, going to the ordered latent and back gives
  -- the number that was there, and the latent is one of the type.
  pub from_latent_ordered-to_latent_ordered :
      (z : ℤ)
      → IsSigned w z
      → IsLatent w (to_latent_ordered w z) × (from_latent_ordered w (to_latent_ordered w z) ≡ z)
  unfolding as_signed wrapping_add mid
  from_latent_ordered-to_latent_ordered (pos n) h =
      let small : 2 ^ (w - 1) + n < 2 ^ w = omega (arith, h, double) in
      let back : (2 ^ (w - 1) + n + 2 ^ (w - 1)) % 2 ^ w ≡ n =
        mod_of_eq (2 ^ (w - 1) + n + 2 ^ (w - 1)) 1 (2 ^ w) n (omega (arith, double))
          (omega (arith, small)) in
      rw (to_pos n h) (small, from_latent_lem _ small ∙ rw (back, lt→ltb n (2 ^ (w - 1)) h) refl)
  from_latent_ordered-to_latent_ordered (negsuc n) h =
      let small : 2 ^ (w - 1) - 1 - n < 2 ^ w = omega (arith, h, double, two-pow-pos w) in
      let back : (2 ^ (w - 1) - 1 - n + 2 ^ (w - 1)) % 2 ^ w ≡ 2 ^ w - 1 - n =
        ap (λ m. m % 2 ^ w) {x = 2 ^ (w - 1) - 1 - n + 2 ^ (w - 1)} {y = 2 ^ w - 1 - n}
          (omega (arith, double, h))
        ∙ mod-eq_of_lt {n = 2 ^ w - 1 - n} (omega (arith, two-pow-pos w)) in
      let above : ltb (2 ^ w - 1 - n) (2 ^ (w - 1)) ≡ false =
        le→ltb _ _ (omega (arith, double, h)) in
      rw (to_negsuc n h)
        (small, from_latent_lem _ small ∙ rw (back, above) (ap negsuc (omega (arith, double, h))))
