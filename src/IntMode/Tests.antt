-- ===== src/IntMode/Tests.antt =====
-- Numbers near multiples of ten, two numbers and their divisor, and signed numbers of 16 bits.
use pcodec.Common.{ℕ, ◌<◌, ◌≡◌, refl, arith, List, [], ◌∷◌, All, every_below→All, ◌↔◌, some}
use pcodec.Errors.{ok}
use pcodec.Latent.{IsLatent}
use pcodec.IntMode.Multiples.{split_latents, join_latents, join_latents-split_latents}
use pcodec.IntMode.Gcd.{Divides, calc_gcd, calc_gcd-Divides}
use pcodec.IntMode.Signed.{
  pos, negsuc, ◌<ℤ◌, to_latent_ordered, from_latent_ordered, to_latent_ordered-<ℤ,
  from_latent_ordered-to_latent_ordered,
}

abbrev numbers : List ℕ
numbers = 33 ∷ 1003 ∷ 7 ∷ 65533 ∷ []

join_latents-split_latents_example :
    (mults : List ℕ) × (adjs : List ℕ) × (split_latents 16 10 numbers ≡ ok (mults, adjs))
    × All (λ adj. adj < 10) adjs
    × (join_latents 16 10 mults adjs ≡ ok numbers)
join_latents-split_latents_example =
    join_latents-split_latents 16 10 numbers (omega arith) (every_below→All 65536 numbers refl)

calc_gcd-Divides_example :
    (g : ℕ) × (calc_gcd 84 30 ≡ some g) × (Divides 3 g ↔ (Divides 3 84 × Divides 3 30))
calc_gcd-Divides_example = calc_gcd-Divides 84 30 3

gcd_of_84_and_30 : calc_gcd 84 30 ≡ some 6
unfolding calc_gcd
gcd_of_84_and_30 = refl

to_latent_ordered-<ℤ_example :
    (negsuc 4 <ℤ pos 9) ↔ (to_latent_ordered 16 (negsuc 4) < to_latent_ordered 16 (pos 9))
to_latent_ordered-<ℤ_example =
    to_latent_ordered-<ℤ 16 (omega arith) (negsuc 4) (pos 9) (omega arith) (omega arith)

from_latent_ordered-to_latent_ordered_example :
    IsLatent 16 (to_latent_ordered 16 (negsuc 4))
    × (from_latent_ordered 16 (to_latent_ordered 16 (negsuc 4)) ≡ negsuc 4)
from_latent_ordered-to_latent_ordered_example =
    from_latent_ordered-to_latent_ordered 16 (omega arith) (negsuc 4) (omega arith)
