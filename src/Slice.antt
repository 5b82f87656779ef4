-- ===== src/Slice.antt =====
-- Indexing of slices and vectors: out of range it panics.
use pcodec.Common.{
  ℕ, zero, suc, ◌<◌, ◌≡◌, refl, arith, if◌then◌else◌, ltb, lt→ltb, List, [], ◌∷◌, length, set,
  get_or, map, ap, ◌≢◌, All, subst, ◌++◌, ◌+◌, length-append, Rearranged, Rearranged-swap,
}
use pcodec.Errors.{Result, ok, panic, ok-injective, ◌>>=◌, Returns, returns}

module _ {ℓ} {A : Type ℓ} where
  abbrev pub index : List A → ℕ → Result A
  index [] i = panic
  index (x ∷ xs) zero = ok x
  index (x ∷ xs) (suc i) = index xs i

  unfoldable pub assign : List A → ℕ → A → Result (List A)
  assign xs i v = if ltb i (length xs) then ok (set xs i v) else panic

  -- `slice::swap`
  unfoldable pub swap : List A → ℕ → ℕ → Result (List A)
  swap xs i j = index xs i >>= λ x. index xs j >>= λ y. ok (set (set xs i y) j x)

  pub assign-eq-ok : (xs : List A) (i : ℕ) (v : A) → i < length xs → assign xs i v ≡ ok (set xs i v)
  unfolding assign
  assign-eq-ok xs i v h = rw (lt→ltb i (length xs) h)

  pub index-eq-get_or :
      (xs : List A) (i : ℕ) (d : A) → i < length xs → index xs i ≡ ok (get_or xs i d)
  index-eq-get_or [] i d h = absurd (omega arith)
  index-eq-get_or (x ∷ xs) zero d h = refl
  index-eq-get_or (x ∷ xs) (suc i) d h = index-eq-get_or xs i d (omega arith)

  pub swap-eq-ok :
      (xs : List A) (i j : ℕ) (d : A)
      → i < length xs
      → j < length xs
      → swap xs i j ≡ ok (set (set xs i (get_or xs j d)) j (get_or xs i d))
  unfolding swap
  swap-eq-ok xs i j d hi hj = rw (index-eq-get_or xs i d hi, index-eq-get_or xs j d hj)

  pub swap-Rearranged :
      (xs : List A) (i j : ℕ)
      → i < length xs
      → j < length xs
      → Returns (λ ys. Rearranged ys xs) (swap xs i j)
  swap-Rearranged [] i j hi hj = absurd (omega arith)
  swap-Rearranged (x ∷ xs) i j hi hj =
      rw (swap-eq-ok (x ∷ xs) i j x hi hj) (returns (Rearranged-swap (x ∷ xs) i j x hi hj))

  -- What stands behind a list of known length.
  pub index-length_append :
      (xs : List A) (y : A) (ys : List A) → index (xs ++ (y ∷ ys)) (length xs) ≡ ok y
  index-length_append [] y ys = refl
  index-length_append (x ∷ xs) y ys = index-length_append xs y ys

  pub assign-length_append :
      (xs : List A) (y : A) (ys : List A) (v : A)
      → assign (xs ++ (y ∷ ys)) (length xs) v ≡ ok (xs ++ (v ∷ ys))
  unfolding assign
  assign-length_append xs y ys v =
      rw (length-append xs (y ∷ ys), lt→ltb (length xs) (length xs + suc (length ys)) (omega arith))
        (ap ok (set-past xs))
    where
      set-past : (xs : List A) → set (xs ++ (y ∷ ys)) (length xs) v ≡ xs ++ (v ∷ ys)
      set-past [] = refl
      set-past (x ∷ xs) = ap (◌∷◌ x) (set-past xs)

  -- A read that succeeds is in range.
  pub index-lt : (xs : List A) (i : ℕ) {v : A} → index xs i ≡ ok v → i < length xs
  index-lt [] i h = absurd (cc)
  index-lt (x ∷ xs) zero h = omega arith
  index-lt (x ∷ xs) (suc i) h = omega (arith, index-lt xs i h)

  pub index_ok : (xs : List A) (i : ℕ) → i < length xs → (v : A) × (index xs i ≡ ok v)
  index_ok [] i h = absurd (omega arith)
  index_ok (x ∷ xs) zero h = (x, refl)
  index_ok (x ∷ xs) (suc i) h = index_ok xs i (omega arith)

  pub index-set_self : (xs : List A) (i : ℕ) (v : A) → i < length xs → index (set xs i v) i ≡ ok v
  index-set_self [] i v h = absurd (omega arith)
  index-set_self (x ∷ xs) zero v h = refl
  index-set_self (x ∷ xs) (suc i) v h = index-set_self xs i v (omega arith)

  pub index-set_ne : (xs : List A) (i j : ℕ) (v : A) → i ≢ j → index (set xs i v) j ≡ index xs j
  index-set_ne [] i j v ne = refl
  index-set_ne (x ∷ xs) zero zero v ne = absurd (ne refl)
  index-set_ne (x ∷ xs) zero (suc j) v ne = refl
  index-set_ne (x ∷ xs) (suc i) zero v ne = refl
  index-set_ne (x ∷ xs) (suc i) (suc j) v ne = index-set_ne xs i j v (λ e. ne (ap suc e))

module _ {ℓ κ} {A : Type ℓ} {B : Type κ} where
  pub index-map :
      (f : A → B) (xs : List A) (i : ℕ) {v : A} → index xs i ≡ ok v → index (map f xs) i ≡ ok (f v)
  index-map f [] i h = cc
  index-map f (x ∷ xs) zero h = ground arith
  index-map f (x ∷ xs) (suc i) h = index-map f xs i h

pub index-All {ℓ κ} :
    {A : Type ℓ} (P : A → Type κ) (xs : List A) (i : ℕ) {v : A} → All P xs → index xs i ≡ ok v → P v
index-All P [] i h e = absurd cc
index-All P (x ∷ xs) zero {v} (hx, h) e = subst P (ok-injective x v e) hx
index-All P (x ∷ xs) (suc i) (hx, h) e = index-All P xs i h e
