-- ===== src/Errors.antt =====
-- pco/src/errors.rs: errors as values. The text of a message is left out. A panic of the source is a
-- value of its own, so that a theorem can say that there is none.
use pcodec.Common.{◌≡◌, refl, Bool, true, false, if◌then◌else◌}

pub data ErrorKind : Type 0 where
  compatibility corruption insufficient_data invalid_argument io : ErrorKind

pub data Result {ℓ} (Value : Type ℓ) : Type ℓ where
  ok : Value → Result Value
  err : ErrorKind → Result Value
  panic : Result Value

-- The `?` of the source; a panic ends the run too.
infixl 5 ◌>>=◌
abbrev pub ◌>>=◌ {ℓ κ} : {V : Type ℓ} {W : Type κ} → Result V → (V → Result W) → Result W
panic >>= next = panic
err kind >>= next = err kind
ok value >>= next = next value

infixl 5 ◌>>◌
abbrev pub ◌>>◌ {κ} : {W : Type κ} → Result (Unit {0}) → Result W → Result W
check >> next = check >>= λ _. next

pub ok-injective {ℓ} : {A : Type ℓ} (a b : A) → ok a ≡ ok b → a ≡ b
ok-injective a b h = cc

-- A run that ended well has passed its first step.
pub >>=-eq-ok {ℓ κ} :
    {V : Type ℓ} {W : Type κ} (first : Result V) (next : V → Result W) {end : W}
    → (first >>= next) ≡ ok end
    → (value : V) × (first ≡ ok value) × (next value ≡ ok end)
>>=-eq-ok panic next runs = cc
>>=-eq-ok (err kind) next runs = cc
>>=-eq-ok (ok value) next runs = (value, refl, runs)

pub >>=-assoc {ℓ κ μ} :
    {U : Type ℓ} {V : Type κ} {W : Type μ} (first : Result U) (f : U → Result V) (g : V → Result W)
    → ((first >>= f) >>= g) ≡ (first >>= λ u. f u >>= g)
>>=-assoc panic f g = refl
>>=-assoc (err kind) f g = refl
>>=-assoc (ok value) f g = refl

-- Two ways to go on that agree wherever the first step ends well.
pub >>=-cong {ℓ κ} :
    {V : Type ℓ} {W : Type κ} (first : Result V) (f g : V → Result W)
    → ((v : V) → first ≡ ok v → f v ≡ g v)
    → (first >>= f) ≡ (first >>= g)
>>=-cong panic f g h = refl
>>=-cong (err kind) f g h = refl
>>=-cong (ok value) f g h = h value refl

pub >>=-ok {ℓ} : {V : Type ℓ} (run : Result V) → (run >>= ok) ≡ run
>>=-ok panic = refl
>>=-ok (err kind) = refl
>>=-ok (ok value) = refl

-- The run ends well, with a value that satisfies `P`.
pub data Returns {ℓ κ} {V : Type ℓ} (P : V → Type κ) : Result V → Type (ℓ ⊔ κ) where
  returns : {value : V} → P value → Returns P (ok value)

module _ {ℓ κ} {V : Type ℓ} {P : V → Type κ} where
  pub Returns-if :
      {run other : Result V} (test : Bool)
      → (test ≡ true → Returns P run)
      → (test ≡ false → Returns P other)
      → Returns P (if test then run else other)
  Returns-if true on_true on_false = on_true refl
  Returns-if false on_true on_false = on_false refl

  pub Returns-map {μ} :
      {Q : V → Type μ} {run : Result V}
      → Returns P run
      → ((value : V) → P value → Q value)
      → Returns Q run
  Returns-map (returns holds) weaken = returns (weaken _ holds)

  pub Returns-bind {μ ν} :
      {W : Type μ} {Q : W → Type ν} {run : Result V} {next : V → Result W}
      → Returns P run
      → ((value : V) → P value → Returns Q (next value))
      → Returns Q (run >>= next)
  Returns-bind (returns holds) go = go _ holds
