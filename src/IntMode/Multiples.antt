-- ===== src/IntMode/Multiples.antt =====
-- split_latents and join_latents of pco/src/int_mult_utils.rs, on ordered latents of `w` bits.
use pcodec.Common.{
  ℕ, ◌+◌, ◌*◌, ◌/◌, ◌%◌, ◌^◌, ◌<◌, ◌≡◌, refl, arith, if◌then◌else◌, ltb, lt→ltb, ◌==◌, false, List,
  [], ◌∷◌, All,
}
use pcodec.Errors.{Result, ok, panic, ◌>>=◌}
use pcodec.Latent.{IsLatent, wrapping_add}
use native.Mathlib.Nat.{div-add-mod', mod-lt, mod-eq_of_lt}

module _ (w : ℕ) where
  -- The loop over the numbers; a division by zero panics.
  unfoldable pub split_latents : ℕ → List ℕ → Result (List ℕ × List ℕ)
  split_latents base [] = ok ([], [])
  split_latents base (u ∷ us) = do
    (mult, adj) ← (if base == 0 then panic else ok (u / base, u % base))
    (mults, adjs) ← split_latents base us
    ok (mult ∷ mults, adj ∷ adjs)

  -- The loop over both lists, to the end of the shorter one; a product that does not fit panics.
  unfoldable pub join_latents : ℕ → List ℕ → List ℕ → Result (List ℕ)
  join_latents base [] adjs = ok []
  join_latents base (mult ∷ mults) [] = ok (mult ∷ mults)
  join_latents base (mult ∷ mults) (adj ∷ adjs) = do
    product ← (if ltb (mult * base) (2 ^ w) then ok (mult * base) else panic)
    nums ← join_latents base mults adjs
    ok (wrapping_add w product adj ∷ nums)

  -- Numbers of the type split by a positive base into multipliers and adjustments below the base, and
  -- joining these gives the numbers back; neither step panics.
  pub join_latents-split_latents :
      (base : ℕ) (us : List ℕ)
      → 0 < base
      → All (IsLatent w) us
      → (mults : List ℕ) × (adjs : List ℕ) × (split_latents base us ≡ ok (mults, adjs))
        × All (λ adj. adj < base) adjs
        × (join_latents base mults adjs ≡ ok us)
  unfolding split_latents join_latents wrapping_add
  join_latents-split_latents base [] pos h = ([], [], refl, tt, refl)
  join_latents-split_latents base (u ∷ us) pos (hu, h) =
      let (mults, adjs, splits, small, joins) = join_latents-split_latents base us pos h in
      let nonzero : (base == 0) ≡ false = ground arith in
      let back : u / base * base + u % base ≡ u = div-add-mod' u base in
      (
        u / base ∷ mults,
        u % base ∷ adjs,
        rw (nonzero, splits),
        (mod-lt u pos, small),
        rw (
          lt→ltb (u / base * base) (2 ^ w) (omega (arith, hu, back)),
          joins,
          back,
          mod-eq_of_lt hu,
        ),
      )
