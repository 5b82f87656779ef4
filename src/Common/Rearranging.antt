-- ===== src/Common/Rearranging.antt =====
-- Lists with the same elements in some order, and lists in order.
use Prim.Native.Nat.{ℕ, zero, suc, ◌<◌, ◌≤◌}
use mathlib.Core.Path.{◌≡◌, refl, ap, ◌∙◌}
use mathlib.Core.List.{List, [], ◌∷◌, ◌++◌}
use native.Mathlib.Omega.{arith}
use pcodec.Common.Lists.{All, length, get_or, set}

-- The same elements in some order.
pub data Rearranged {ℓ} {A : Type ℓ} : List A → List A → Type ℓ where
  no_elements : Rearranged [] []
  keep_first : (x : A) {xs ys : List A} → Rearranged xs ys → Rearranged (x ∷ xs) (x ∷ ys)
  swap_first : (x y : A) (xs : List A) → Rearranged (x ∷ y ∷ xs) (y ∷ x ∷ xs)
  in_turn : {xs ys zs : List A} → Rearranged xs ys → Rearranged ys zs → Rearranged xs zs

pub Rearranged-refl {ℓ} : {A : Type ℓ} (xs : List A) → Rearranged xs xs
Rearranged-refl [] = no_elements
Rearranged-refl (x ∷ xs) = keep_first x (Rearranged-refl xs)

module _ {ℓ} {A : Type ℓ} where
  pub Rearranged-length : {xs ys : List A} → Rearranged xs ys → length xs ≡ length ys
  Rearranged-length no_elements = refl
  Rearranged-length (keep_first x h) = ap suc (Rearranged-length h)
  Rearranged-length (swap_first x y xs) = refl
  Rearranged-length (in_turn h k) = Rearranged-length h ∙ Rearranged-length k

  pub Rearranged-All : (P : A → Type 0) {xs ys : List A} → Rearranged xs ys → All P xs → All P ys
  Rearranged-All P no_elements a = tt
  Rearranged-All P (keep_first x h) (ax, a) = (ax, Rearranged-All P h a)
  Rearranged-All P (swap_first x y xs) (ax, (ay, a)) = (ay, (ax, a))
  Rearranged-All P (in_turn h k) a = Rearranged-All P k (Rearranged-All P h a)

  pub Rearranged-sym : {xs ys : List A} → Rearranged xs ys → Rearranged ys xs
  Rearranged-sym no_elements = no_elements
  Rearranged-sym (keep_first x h) = keep_first x (Rearranged-sym h)
  Rearranged-sym (swap_first x y xs) = swap_first y x xs
  Rearranged-sym (in_turn h k) = in_turn (Rearranged-sym k) (Rearranged-sym h)

  pub Rearranged-behind :
      (xs : List A) {ys zs : List A} → Rearranged ys zs → Rearranged (xs ++ ys) (xs ++ zs)
  Rearranged-behind [] h = h
  Rearranged-behind (x ∷ xs) h = keep_first x (Rearranged-behind xs h)

  pub Rearranged-before :
      (zs : List A) {xs ys : List A} → Rearranged xs ys → Rearranged (xs ++ zs) (ys ++ zs)
  Rearranged-before zs no_elements = Rearranged-refl zs
  Rearranged-before zs (keep_first x h) = keep_first x (Rearranged-before zs h)
  Rearranged-before zs (swap_first x y xs) = swap_first x y (xs ++ zs)
  Rearranged-before zs (in_turn h k) = in_turn (Rearranged-before zs h) (Rearranged-before zs k)

  pub Rearranged-append :
      {xs xs' ys ys' : List A}
      → Rearranged xs xs'
      → Rearranged ys ys'
      → Rearranged (xs ++ ys) (xs' ++ ys')
  Rearranged-append {xs' = xs'} {ys = ys} h k =
      in_turn (Rearranged-before ys h) (Rearranged-behind xs' k)

  -- An element comes to the front.
  pub Rearranged-front :
      (xs : List A) (y : A) (ys : List A) → Rearranged (xs ++ (y ∷ ys)) (y ∷ (xs ++ ys))
  Rearranged-front [] y ys = Rearranged-refl (y ∷ ys)
  Rearranged-front (x ∷ xs) y ys =
      in_turn (keep_first x (Rearranged-front xs y ys)) (swap_first x y (xs ++ ys))

  -- A write trades the old element for the new one.
  Rearranged-set :
      (xs : List A) (i : ℕ) (v d : A)
      → i < length xs
      → Rearranged (get_or xs i d ∷ set xs i v) (v ∷ xs)
  Rearranged-set [] i v d h = absurd (omega arith)
  Rearranged-set (x ∷ xs) zero v d h = swap_first x v xs
  Rearranged-set (x ∷ xs) (suc i) v d h =
      in_turn (swap_first (get_or xs i d) x (set xs i v))
        (in_turn (keep_first x (Rearranged-set xs i v d (omega arith))) (swap_first x v xs))

  pub Rearranged-swap :
      (xs : List A) (i j : ℕ) (d : A)
      → i < length xs
      → j < length xs
      → Rearranged (set (set xs i (get_or xs j d)) j (get_or xs i d)) xs
  Rearranged-swap [] i j d hi hj = absurd (omega arith)
  Rearranged-swap (x ∷ xs) zero zero d hi hj = Rearranged-refl (x ∷ xs)
  Rearranged-swap (x ∷ xs) zero (suc j) d hi hj = Rearranged-set xs j x d (omega arith)
  Rearranged-swap (x ∷ xs) (suc i) zero d hi hj = Rearranged-set xs i x d (omega arith)
  Rearranged-swap (x ∷ xs) (suc i) (suc j) d hi hj =
      keep_first x (Rearranged-swap xs i j d (omega arith) (omega arith))

-- No element is above a later one.
abbrev pub IsAscending : List ℕ → Type 0
IsAscending [] = Unit
IsAscending (x ∷ xs) = All (λ y. x ≤ y) xs × IsAscending xs
