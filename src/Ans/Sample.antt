-- ===== src/Ans/Sample.antt =====
-- The table of the test in pco/src/ans/mod.rs.
use pcodec.Common.{ℕ, zero, suc, ◌<◌, ◌≡◌, refl, arith, [], ◌∷◌, every_below→All}
use pcodec.Errors.{ok, ok-injective}
use pcodec.Slice.{index}
use pcodec.Ans.Spec.{Spec}
use pcodec.Ans.Positions.{count}
use pcodec.Ans.RoundTrip.{IsValid}

abbrev pub small_spec : Spec
small_spec = record {
  size_log = 3;
  state_symbols = 0 ∷ 1 ∷ 2 ∷ 0 ∷ 1 ∷ 2 ∷ 0 ∷ 1 ∷ [];
  symbol_weights = 3 ∷ 3 ∷ 2 ∷ [];
}

small_weights :
    (s w : ℕ)
    → index small_spec.symbol_weights s ≡ ok w
    → (0 < w) × (count s small_spec.state_symbols ≡ w)
small_weights zero w h = rw (← ok-injective 3 w h) (omega arith, refl)
small_weights (suc zero) w h = rw (← ok-injective 3 w h) (omega arith, refl)
small_weights (suc (suc zero)) w h = rw (← ok-injective 2 w h) (omega arith, refl)
small_weights (suc (suc (suc s))) w h = cc

pub small_spec-IsValid : IsValid small_spec
small_spec-IsValid = record {
  small = omega arith;
  n_states = refl;
  n_symbols = omega arith;
  known = every_below→All 3 small_spec.state_symbols refl;
  positive = λ s w h. (small_weights s w h).0;
  counted = λ s w h. (small_weights s w h).1;
}
