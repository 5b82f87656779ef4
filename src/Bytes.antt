-- ===== src/Bytes.antt =====
-- Byte slices. `value` reads a slice as one little-endian number, in which bit i of the stream is
-- bit i of the number; the readers and writers are specified by it.
use pcodec.Common.{
  ℕ, zero, suc, ◌+◌, ◌*◌, ◌/◌, ◌%◌, ◌^◌, ◌<◌, ◌≡◌, refl, ap, arith, List, [], ◌∷◌, ◌++◌, length,
  take, drop, All,
}
use pcodec.Common.Pow.{two-pow-pos, pow-add, mod_mul}
use native.Mathlib.Nat.{mod-one, zero-mod, zero-div, div-div-eq-div-mul}

abbrev pub IsBytes : List ℕ → Type 0
IsBytes = All (λ b. b < 256)

abbrev pub value : List ℕ → ℕ
value [] = 0
value (b ∷ bs) = b + 256 * value bs

-- `to_le_bytes` of a number that is written on `n` bytes.
abbrev pub to_le_bytes : ℕ → ℕ → List ℕ
to_le_bytes zero x = []
to_le_bytes (suc n) x = (x % 256) ∷ to_le_bytes n (x / 256)

eight-suc : (n : ℕ) → 2 ^ (8 * suc n) ≡ 256 * 2 ^ (8 * n)
eight-suc n = let e : 8 * suc n ≡ 8 + 8 * n = omega arith in rw (e, pow-add 8 (8 * n)) (omega arith)

value-lt : (bs : List ℕ) → IsBytes bs → value bs < 2 ^ (8 * length bs)
value-lt [] h = omega arith
value-lt (b ∷ bs) (hb, h) = rw (eight-suc (length bs)) (omega (arith, value-lt bs h))

cons_div : (b : ℕ) (bs : List ℕ) → b < 256 → (b + 256 * value bs) / 256 ≡ value bs
cons_div b bs h = omega arith

pub value-drop : (i : ℕ) (bs : List ℕ) → IsBytes bs → value (drop i bs) ≡ value bs / 2 ^ (8 * i)
value-drop zero bs h = omega arith
value-drop (suc i) [] h = omega (arith, zero-div (2 ^ (8 * suc i)))
value-drop (suc i) (b ∷ bs) (hb, h) = rw (
  value-drop i bs h,
  eight-suc i,
  ← div-div-eq-div-mul (b + 256 * value bs) 256 (2 ^ (8 * i)),
  cons_div b bs hb,
)

pub value-take : (n : ℕ) (bs : List ℕ) → IsBytes bs → value (take n bs) ≡ value bs % 2 ^ (8 * n)
value-take zero bs h = rw (mod-one (value bs))
value-take (suc n) [] h = rw (zero-mod (2 ^ (8 * suc n)))
value-take (suc n) (b ∷ bs) (hb, h) =
    rw
      (
        value-take n bs h,
        eight-suc n,
        mod_mul (b + 256 * value bs) 256 (2 ^ (8 * n)) (omega arith) (two-pow-pos (8 * n)),
        cons_div b bs hb,
      )
      (omega arith)

pub value-append : (xs ys : List ℕ) → value (xs ++ ys) ≡ value xs + 2 ^ (8 * length xs) * value ys
value-append [] ys = omega arith
value-append (x ∷ xs) ys = rw (eight-suc (length xs)) (omega (arith, value-append xs ys))

pub value-to_le_bytes : (n x : ℕ) → value (to_le_bytes n x) ≡ x % 2 ^ (8 * n)
value-to_le_bytes zero x = rw (mod-one x)
value-to_le_bytes (suc n) x =
    rw
      (
        value-to_le_bytes n (x / 256),
        eight-suc n,
        mod_mul x 256 (2 ^ (8 * n)) (omega arith) (two-pow-pos (8 * n)),
      )
      (omega arith)

pub length-to_le_bytes : (n x : ℕ) → length (to_le_bytes n x) ≡ n
length-to_le_bytes zero x = refl
length-to_le_bytes (suc n) x = ap suc (length-to_le_bytes n (x / 256))

pub to_le_bytes-IsBytes : (n x : ℕ) → IsBytes (to_le_bytes n x)
to_le_bytes-IsBytes zero x = tt
to_le_bytes-IsBytes (suc n) x = (omega arith, to_le_bytes-IsBytes n (x / 256))

pub drop-IsBytes : (i : ℕ) (bs : List ℕ) → IsBytes bs → IsBytes (drop i bs)
drop-IsBytes zero bs h = h
drop-IsBytes (suc i) [] h = tt
drop-IsBytes (suc i) (b ∷ bs) (hb, h) = drop-IsBytes i bs h

pub take-IsBytes : (i : ℕ) (bs : List ℕ) → IsBytes bs → IsBytes (take i bs)
take-IsBytes zero bs h = tt
take-IsBytes (suc i) [] h = tt
take-IsBytes (suc i) (b ∷ bs) (hb, h) = (hb, take-IsBytes i bs h)

pub append-IsBytes : (xs ys : List ℕ) → IsBytes xs → IsBytes ys → IsBytes (xs ++ ys)
append-IsBytes [] ys h k = k
append-IsBytes (x ∷ xs) ys (hx, h) k = (hx, append-IsBytes xs ys h k)
