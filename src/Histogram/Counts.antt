-- ===== src/Histogram/Counts.antt =====
-- The arithmetic of `bin_idx` and `c_count` in pco/src/histograms.rs, for `n` latents and `2 ^ k` bins,
-- where it stays inside of 64 bits.
use pcodec.Common.{ℕ, ◌+◌, ◌-◌, ◌*◌, ◌/◌, ◌%◌, ◌^◌, ◌≤◌, ◌<◌, ◌≡◌, refl, ◌∙◌, ap, arith, ne→==}
use pcodec.Common.Pow.{two-pow-pos}
use native.Mathlib.Nat.{
  mul-le-mul_right, div-mul-le_self, lt-div-mul-add, lt_of_mul-lt-mul_right, mul_comm, mod-eq_of_lt,
}
use pcodec.Traps.{mul_to_lem, add_to_lem, sub_from_lem}
use pcodec.Errors.{ok}
use pcodec.Histogram.Builder.{HistogramBuilder, new_builder, bin_idx, c_count}

module _ (n k : ℕ) where
  pub record IsSetUp (state : HistogramBuilder) : Type 0 where
    pub for_n : state.n ≡ n
    pub for_bins : state.n_bins ≡ 2 ^ k
    pub for_log : state.n_bins_log ≡ k

  -- The bin of a rank, and the rank where a bin ends.
  abbrev pub slot : ℕ → ℕ
  slot c = c * 2 ^ k / n

  abbrev pub end_of : ℕ → ℕ
  end_of i = ((i + 1) * n + 2 ^ k - 1) / 2 ^ k

  module _ (some : 0 < n) (fits : (n + 1) * 2 ^ k < 2 ^ 64) where
    bins_fit : 2 ^ k < 2 ^ 64
    bins_fit = omega (arith, fits, mul-le-mul_right (2 ^ k) some, two-pow-pos k)

    bins_exact : 1 * 2 ^ k % 2 ^ 64 ≡ 2 ^ k
    bins_exact =
        ap (λ x. x % 2 ^ 64) {x = 1 * 2 ^ k} {y = 2 ^ k} (omega arith) ∙ mod-eq_of_lt bins_fit

    pub new_builder-IsSetUp : IsSetUp (new_builder n k)
    unfolding new_builder
    new_builder-IsSetUp = record { for_n = refl; for_bins = bins_exact; for_log = refl }

    pub slot-le : (c : ℕ) → slot c * n ≤ c * 2 ^ k
    slot-le c = div-mul-le_self (c * 2 ^ k) n

    pub slot-lt : (c : ℕ) → c * 2 ^ k < (slot c + 1) * n
    slot-lt c = omega (arith, lt-div-mul-add {a = c * 2 ^ k} some)

    pub slot_below : (c : ℕ) → c < n → slot c < 2 ^ k
    slot_below c h =
        lt_of_mul-lt-mul_right n
          (omega (arith, slot-le c, h, mul-le-mul_right (2 ^ k) h, two-pow-pos k))

    end_of-le : (i : ℕ) → end_of i * 2 ^ k < (i + 1) * n + 2 ^ k
    end_of-le i = omega (arith, div-mul-le_self ((i + 1) * n + 2 ^ k - 1) (2 ^ k), two-pow-pos k)

    end_of-ge : (i : ℕ) → (i + 1) * n ≤ end_of i * 2 ^ k
    end_of-ge i = omega (arith, lt-div-mul-add {a = (i + 1) * n + 2 ^ k - 1} (two-pow-pos k))

    pub end_of-gt : (c : ℕ) → c < end_of (slot c)
    end_of-gt c = lt_of_mul-lt-mul_right (2 ^ k) (omega (arith, slot-lt c, end_of-ge (slot c)))

    pub end_of-le_n : (i : ℕ) → i < 2 ^ k → end_of i ≤ n
    end_of-le_n i h =
        let bound : (i + 1) * n ≤ 2 ^ k * n = mul-le-mul_right n (omega (arith, h)) in
        let over : end_of i < n + 1 =
          lt_of_mul-lt-mul_right (2 ^ k) (omega (arith, end_of-le i, bound, mul_comm n (2 ^ k))) in
        omega (arith, over)

    pub end_of-reached : (i p : ℕ) → end_of i ≤ p → (i + 1) * n ≤ p * 2 ^ k
    end_of-reached i p h = omega (arith, end_of-ge i, mul-le-mul_right (2 ^ k) h)

    module _ (state : HistogramBuilder) (set_up : IsSetUp state) where
      pub bin_idx-eq-slot : (w c : ℕ) → c ≤ n → bin_idx w state c ≡ ok (slot c)
      unfolding bin_idx
      bin_idx-eq-slot w c h =
          let inside : c * 2 ^ k < 2 ^ 64 =
            omega (arith, fits, mul-le-mul_right (2 ^ k) h, two-pow-pos k) in
          rw
            (
              set_up.for_n,
              set_up.for_log,
              ne→== n 0 (λ e. omega (arith, e, some)),
              mod-eq_of_lt inside,
            )
            refl

      pub c_count-eq-end_of : (w i : ℕ) → i < 2 ^ k → c_count w state i ≡ ok (end_of i)
      unfolding c_count
      c_count-eq-end_of w i h =
          let bound : (i + 1) * n ≤ 2 ^ k * n = mul-le-mul_right n (omega (arith, h)) in
          let inside : (i + 1) * n + 2 ^ k < 2 ^ 64 =
            omega (arith, fits, bound, mul_comm n (2 ^ k)) in
          rw
            (
              set_up.for_n,
              set_up.for_bins,
              set_up.for_log,
              mul_to_lem 64 (i + 1) n (omega (arith, inside)),
              add_to_lem 64 ((i + 1) * n) (2 ^ k) inside,
              sub_from_lem ((i + 1) * n + 2 ^ k) 1 (omega (arith, two-pow-pos k)),
            )
            refl
