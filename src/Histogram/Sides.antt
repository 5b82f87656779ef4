-- ===== src/Histogram/Sides.antt =====
-- The two sides of a pivot in pco/src/histograms.rs: what bounds them, and what is done to them.
use pcodec.Common.{
  ℕ, ◌+◌, ◌-◌, ◌^◌, ◌≤◌, ◌<◌, ◌≡◌, ◌≢◌, inl, inr, arith, ltb, ltb→lt, ltb-false, Bool, true, false,
  Bool-cases, List, ◌++◌, All, All_mono, All-before, All-after, Rearranged, Rearranged-refl,
}
use pcodec.Common.Pow.{two-pow-pos}
use native.Mathlib.Nat.{mod-eq_of_lt}
use pcodec.Latent.{wrapping_add}
use pcodec.Errors.{Returns, returns, Returns-bind}
use pcodec.Sort.Pivot.{break_patterns-Rearranged}
use pcodec.Histogram.Builder.{Bound, loose, tight, loose_value}
use pcodec.Histogram.Recurse.{pivot_bounds, shaken}
use pcodec.Histogram.Describing.{
  Has, IsLower, IsUpper, IsLower-All, IsUpper-All, Has-split, All-Has,
}

-- The sides have bounds that are closer to each other.
pub record AreSides (lb ub lhs_ub rhs_lb : Bound) (lhs rhs : List ℕ) : Type 0 where
  pub lhs_lower : IsLower lb lhs
  pub lhs_upper : IsUpper lhs_ub lhs
  pub rhs_lower : IsLower rhs_lb rhs
  pub rhs_upper : IsUpper ub rhs
  pub lhs_less : loose_value lhs_ub - loose_value lb < loose_value ub - loose_value lb
  pub rhs_less : loose_value ub - loose_value rhs_lb < loose_value ub - loose_value lb

module _ (pivot : ℕ) (lhs rhs : List ℕ) (low : All (λ x. x < pivot) lhs)
    (high : All (λ x. pivot ≤ x) rhs) where
  Has-lhs : (x : ℕ) → x < pivot → Has x (lhs ++ rhs) → Has x lhs
  Has-lhs x h has = elim (Has-split x lhs rhs has) [
    | inl here ↦ here
    | inr there ↦ let le = All-Has x _ rhs high there in absurd (omega (arith, le))
  ]

  Has-rhs : (x : ℕ) → pivot ≤ x → Has x (lhs ++ rhs) → Has x rhs
  Has-rhs x h has = elim (Has-split x lhs rhs has) [
    | inl here ↦ let lt = All-Has x _ lhs low here in absurd (omega (arith, lt))
    | inr there ↦ there
  ]

  IsLower-lhs : (b : Bound) → loose_value b < pivot → IsLower b (lhs ++ rhs) → IsLower b lhs
  IsLower-lhs (loose x) h all = All-before _ lhs rhs all
  IsLower-lhs (tight x) h (has, all) = (Has-lhs x h has, All-before _ lhs rhs all)

  IsUpper-rhs : (b : Bound) → pivot ≤ loose_value b → IsUpper b (lhs ++ rhs) → IsUpper b rhs
  IsUpper-rhs (loose x) h all = All-after _ lhs rhs all
  IsUpper-rhs (tight x) h (has, all) = (Has-rhs x h has, All-after _ lhs rhs all)

-- The sides of a pivot that is one of the latents.
module _ (lb ub : Bound) (lhs rhs : List ℕ) (tentative_pivot : ℕ)
    (has : Has tentative_pivot (lhs ++ rhs)) (lower : IsLower lb (lhs ++ rhs))
    (upper : IsUpper ub (lhs ++ rhs)) (apart : loose_value lb ≢ loose_value ub) where
  least : loose_value lb ≤ tentative_pivot
  least = All-Has tentative_pivot _ (lhs ++ rhs) (IsLower-All lb (lhs ++ rhs) lower) has

  greatest : tentative_pivot ≤ loose_value ub
  greatest = All-Has tentative_pivot _ (lhs ++ rhs) (IsUpper-All ub (lhs ++ rhs) upper) has

  AreSides-at_pivot :
      loose_value lb < tentative_pivot
      → All (λ x. x < tentative_pivot) lhs
      → All (λ x. tentative_pivot ≤ x) rhs
      → AreSides lb ub (loose (tentative_pivot - 1)) (tight tentative_pivot) lhs rhs
  AreSides-at_pivot lt low high = record {
    lhs_lower = IsLower-lhs tentative_pivot lhs rhs low high lb lt lower;
    lhs_upper = All_mono (λ x. x < tentative_pivot) lhs (λ x h. omega (arith, h)) low;
    rhs_lower = (Has-rhs tentative_pivot lhs rhs low high tentative_pivot (omega arith) has, high);
    rhs_upper = IsUpper-rhs tentative_pivot lhs rhs low high ub greatest upper;
    lhs_less = omega (arith, lt, greatest);
    rhs_less = omega (arith, lt, greatest);
  }

  AreSides-after_pivot :
      (next : ℕ)
      → next ≡ tentative_pivot + 1
      → tentative_pivot ≤ loose_value lb
      → All (λ x. x < next) lhs
      → All (λ x. next ≤ x) rhs
      → AreSides lb ub (tight tentative_pivot) (loose next) lhs rhs
  AreSides-after_pivot next e le low high = record {
    lhs_lower = IsLower-lhs next lhs rhs low high lb (omega (arith, e, least)) lower;
    lhs_upper = (
      Has-lhs next lhs rhs low high tentative_pivot (omega (arith, e)) has,
      All_mono (λ x. x < next) lhs (λ x h. omega (arith, e, h)) low,
    );
    rhs_lower = high;
    rhs_upper =
        IsUpper-rhs next lhs rhs low high ub (omega (arith, e, least, le, greatest, apart)) upper;
    lhs_less = omega (arith, e, least, le, greatest, apart);
    rhs_less = omega (arith, e, least, le, greatest, apart);
  }

  pub pivot_bounds-AreSides :
      (w : ℕ)
      → loose_value ub ≤ 2 ^ w - 1
      → All (λ x. x < (pivot_bounds w tentative_pivot (loose_value lb)).0) lhs
      → All (λ x. (pivot_bounds w tentative_pivot (loose_value lb)).0 ≤ x) rhs
      → AreSides lb ub
          (pivot_bounds w tentative_pivot (loose_value lb)).1
          (pivot_bounds w tentative_pivot (loose_value lb)).2
          lhs
          rhs
  unfolding pivot_bounds wrapping_add
  pivot_bounds-AreSides w in_type low high =
      elim (Bool-cases (ltb (loose_value lb) tentative_pivot)) [
        | inl greater ↦ rw greater (
            AreSides-at_pivot (ltb→lt (loose_value lb) tentative_pivot greater) (rw greater at low)
              (rw greater at high))
        | inr equal ↦
            let le = ltb-false (loose_value lb) tentative_pivot equal in
            let next : wrapping_add w tentative_pivot 1 ≡ tentative_pivot + 1 =
              mod-eq_of_lt (omega (arith, in_type, least, le, greatest, apart, two-pow-pos w)) in
            rw equal (
              AreSides-after_pivot (wrapping_add w tentative_pivot 1) next le (rw equal at low)
                (rw equal at high))
      ]

pub shaken-Rearranged :
    (w : ℕ) (bad : Bool) (lhs rhs : List ℕ)
    → Returns (λ (lhs', rhs'). Rearranged lhs' lhs × Rearranged rhs' rhs) (shaken w bad lhs rhs)
unfolding shaken
shaken-Rearranged w false lhs rhs = returns (Rearranged-refl lhs, Rearranged-refl rhs)
shaken-Rearranged w true lhs rhs =
    Returns-bind (break_patterns-Rearranged lhs)
      λ lhs' left. Returns-bind (break_patterns-Rearranged rhs) λ rhs' right. returns (left, right)
