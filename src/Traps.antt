-- ===== src/Traps.antt =====
-- Arithmetic of the source that stops the run: on words of `w` bits, an overflow is `panic`.
use pcodec.Common.{
  ℕ, ◌+◌, ◌-◌, ◌*◌, ◌/◌, ◌%◌, ◌^◌, ◌≤◌, ◌<◌, ◌≡◌, refl, Bool-cases, inl, inr, sym, ltb, lt→ltb,
  le→ltb, if◌then◌else◌,
}
use pcodec.Errors.{Result, ok, panic, ok-injective}

-- A result that has to be below the limit.
unfoldable pub below : ℕ → ℕ → Result ℕ
below limit n = if ltb n limit then ok n else panic

unfoldable pub add_to : ℕ → ℕ → ℕ → Result ℕ
unfolding below
add_to w a b = below (2 ^ w) (a + b)

unfoldable pub mul_to : ℕ → ℕ → ℕ → Result ℕ
unfolding below
mul_to w a b = below (2 ^ w) (a * b)

unfoldable pub sub_from : ℕ → ℕ → Result ℕ
sub_from a b = if ltb a b then panic else ok (a - b)

-- A shift by the width or more is an overflow; the bits that leave the word are lost.
unfoldable pub shift_left : ℕ → ℕ → ℕ → Result ℕ
shift_left w x k = if ltb k w then ok (x * 2 ^ k % 2 ^ w) else panic

unfoldable pub shift_right : ℕ → ℕ → ℕ → Result ℕ
shift_right w x k = if ltb k w then ok (x / 2 ^ k) else panic

pub add_to_lem : (w a b : ℕ) → a + b < 2 ^ w → add_to w a b ≡ ok (a + b)
unfolding add_to
add_to_lem w a b h = rw (lt→ltb (a + b) (2 ^ w) h) refl

pub add_to-eq-ok : (w a b c : ℕ) → add_to w a b ≡ ok c → c ≡ a + b
unfolding add_to
add_to-eq-ok w a b c h = elim (Bool-cases (ltb (a + b) (2 ^ w))) [
  | inl fits ↦ sym (ok-injective (a + b) c (rw fits at h))
  | inr over ↦ absurd (let stuck = rw over at h in cc)
]

pub add_to-panic : (w a b : ℕ) → 2 ^ w ≤ a + b → add_to w a b ≡ panic
unfolding add_to
add_to-panic w a b h = rw (le→ltb (a + b) (2 ^ w) h) refl

pub mul_to_lem : (w a b : ℕ) → a * b < 2 ^ w → mul_to w a b ≡ ok (a * b)
unfolding mul_to
mul_to_lem w a b h = rw (lt→ltb (a * b) (2 ^ w) h) refl

pub sub_from_lem : (a b : ℕ) → b ≤ a → sub_from a b ≡ ok (a - b)
unfolding sub_from
sub_from_lem a b h = rw (le→ltb a b h) refl

pub shift_left_lem : (w x k : ℕ) → k < w → shift_left w x k ≡ ok (x * 2 ^ k % 2 ^ w)
unfolding shift_left
shift_left_lem w x k h = rw (lt→ltb k w h) refl

pub shift_right_lem : (w x k : ℕ) → k < w → shift_right w x k ≡ ok (x / 2 ^ k)
unfolding shift_right
shift_right_lem w x k h = rw (lt→ltb k w h) refl
