-- ===== src/Latent.antt =====
-- pco/src/data_types/mod.rs and unsigneds.rs: the trait Latent. A latent of a type with `w` bits is a
-- number below 2 ^ w; the operations take `w`, the constant BITS of the type, as their first argument.
use pcodec.Common.{ℕ, suc, ◌+◌, ◌-◌, ◌*◌, ◌%◌, ◌^◌, ◌<◌, ◌≡◌, ap, ◌∙◌, arith}
use pcodec.Common.Pow.{sub_add_mod, two-pow-pos, two-pow-suc}
use native.Mathlib.Nat.{mod-lt}

-- The unsigned types that implement Latent.
pub data LatentType : Type 0 where
  latent_u16 latent_u32 latent_u64 : LatentType

unfoldable pub bits : LatentType → ℕ
bits latent_u16 = 16
bits latent_u32 = 32
bits latent_u64 = 64

abbrev pub IsLatent : ℕ → ℕ → Type 0
IsLatent w x = x < 2 ^ w

unfoldable pub mid : ℕ → ℕ
mid w = 2 ^ (w - 1)

unfoldable pub from_u64 : ℕ → ℕ → ℕ
from_u64 w x = x % 2 ^ w

unfoldable pub wrapping_add : ℕ → ℕ → ℕ → ℕ
wrapping_add w a b = (a + b) % 2 ^ w

unfoldable pub wrapping_sub : ℕ → ℕ → ℕ → ℕ
wrapping_sub w a b = (a + 2 ^ w - b) % 2 ^ w

unfoldable pub toggle_center : ℕ → ℕ → ℕ
unfolding wrapping_add mid
toggle_center w l = wrapping_add w l (mid w)

wrapping_add-IsLatent : (w a b : ℕ) → IsLatent w (wrapping_add w a b)
unfolding wrapping_add
wrapping_add-IsLatent w a b = mod-lt (a + b) (two-pow-pos w)

pub wrapping_sub-IsLatent : (w a b : ℕ) → IsLatent w (wrapping_sub w a b)
unfolding wrapping_sub
wrapping_sub-IsLatent w a b = mod-lt (a + 2 ^ w - b) (two-pow-pos w)

pub wrapping_add-sub :
    (w a b : ℕ) → IsLatent w a → IsLatent w b → wrapping_add w b (wrapping_sub w a b) ≡ a
unfolding wrapping_add wrapping_sub
wrapping_add-sub w a b ha hb =
    let swap : b + (a + 2 ^ w - b) % 2 ^ w ≡ (a + 2 ^ w - b) % 2 ^ w + b = omega arith in
    rw swap (sub_add_mod (2 ^ w) a b ha hb)

pub wrapping_add_comm : (w a b : ℕ) → wrapping_add w a b ≡ wrapping_add w b a
unfolding wrapping_add
wrapping_add_comm w a b = ap (λ n. n % 2 ^ w) (omega arith)

half_turn : (h a : ℕ) → a < 2 * h → ((a + h) % (2 * h) + h) % (2 * h) ≡ a
half_turn h a b = grind arith

-- Toggling twice adds 2 ^ w, which wraps to nothing.
pub toggle_center_twice : (w a : ℕ) → 0 < w → IsLatent w a → toggle_center w (toggle_center w a) ≡ a
unfolding toggle_center
toggle_center_twice w a p h =
    let e : w ≡ suc (w - 1) = omega arith in
    let double : 2 ^ w ≡ 2 * 2 ^ (w - 1) = ap (λ k. 2 ^ k) e ∙ two-pow-suc (w - 1) in
    rw double (half_turn (2 ^ (w - 1)) a (omega (arith, h, double)))
