-- ===== src/Ans/Renorm.antt =====
-- The renormalisation of pco/src/ans/encoding.rs: how many bits a state gives up before a symbol.
use pcodec.Common.{
  ℕ, suc, ◌+◌, ◌-◌, ◌*◌, ◌/◌, ◌%◌, ◌^◌, ◌≤◌, ◌<◌, ◌≡◌, refl, ap, ◌∙◌, arith, leb, tests, Bool-cases,
  inl, inr, List, [], ◌∷◌, map,
}
use pcodec.Common.Pow.{
  ilog2, ilog2_bounds, ilog2_unique, exponent_le, pow_mono, pow_split, two-pow-suc, two-pow-pos,
}
use native.Mathlib.Numerals.{add-one}
use pcodec.Traps.{mul_to_lem, sub_from_lem, shift_left_lem}
use pcodec.Errors.{ok}
use pcodec.Slice.{index}
use pcodec.Ans.Encoding.{SymbolInfo, symbol_info, symbol_infos_of, renorm_bits}
use native.Mathlib.Nat.{mul-le-mul_right, le-div_iff_mul-le, div-lt_iff_lt-mul}

-- The state `x_s` between renormalisation and the table lies in the range of the weight, and its
-- logarithm tells the decoder how many bits it gave up.
pub record IsRenormed (size_log weight state bits : ℕ) : Type 0 where
  pub at_most : bits ≤ size_log
  pub lower : weight ≤ state / 2 ^ bits
  pub upper : state / 2 ^ bits < 2 * weight
  pub log : ilog2 (state / 2 ^ bits) ≡ size_log - bits

-- What the encoder makes of a weight of a table, where nothing overflows.
abbrev pub built_info : ℕ → ℕ → SymbolInfo
built_info k w = record {
  renorm_bit_cutoff = 2 * w * 2 ^ (k - ilog2 (2 * w - 1));
  min_renorm_bits = k - ilog2 (2 * w - 1);
  next_states = [];
}

module _ (k w : ℕ) (small : k ≤ 14) (pos : 0 < w) (fits : w ≤ 2 ^ k) where
  abbrev top : ℕ
  top = ilog2 (2 * w - 1)

  k_bound : 2 ^ k ≤ 16384
  k_bound = pow_mono k 14 small

  top_bounds : (2 ^ top ≤ 2 * w - 1) × (2 * w - 1 < 2 * 2 ^ top)
  top_bounds = ilog2_bounds (2 * w - 1) (omega arith)

  top-le : top ≤ k
  top-le = exponent_le top k (omega (arith, top_bounds))

  table_split : 2 ^ k ≡ 2 ^ top * 2 ^ (k - top)
  table_split = pow_split top k top-le

  cutoff_bound : 2 * w * 2 ^ (k - top) ≤ 2 * 2 ^ k
  cutoff_bound =
      let h : w * 2 ^ (k - top) ≤ 2 ^ top * 2 ^ (k - top) =
        mul-le-mul_right (2 ^ (k - top)) (omega (arith, top_bounds)) in
      omega (arith, h, table_split)

  symbol_info_ok : symbol_info k w ≡ ok (built_info k w)
  unfolding symbol_info
  symbol_info_ok =
      let short : 2 ^ (k - top) ≤ 16384 =
        omega (arith, k_bound, pow_mono (k - top) k (omega arith)) in
      let one : 1 * 2 ^ (k - top) % 2 ^ 32 ≡ 2 ^ (k - top) = omega (arith, short) in
      rw
        (
          mul_to_lem 32 2 w (omega (arith, fits, k_bound)),
          sub_from_lem (2 * w) 1 (omega (arith, pos)),
          sub_from_lem k top top-le,
          shift_left_lem 32 1 (k - top) (omega (arith, small)),
          one,
          mul_to_lem 32 (2 * w) (2 ^ (k - top)) (omega (arith, cutoff_bound, k_bound)),
        )
        refl

  -- Between two multiples of a power of two the shifted state lies between the multipliers.
  shifted_bounds :
      (x n lo hi : ℕ) → lo * 2 ^ n ≤ x → x < hi * 2 ^ n → (lo ≤ x / 2 ^ n) × (x / 2 ^ n < hi)
  shifted_bounds x n lo hi h j =
      ((le-div_iff_mul-le (two-pow-pos n)).1 h, (div-lt_iff_lt-mul (two-pow-pos n)).1 j)

  module _ (x : ℕ) (x_lo : 2 ^ k ≤ x) (x_hi : x < 2 * 2 ^ k) where
    low_state : x < 2 * w * 2 ^ (k - top) → IsRenormed k w x (k - top)
    low_state h =
        let b = shifted_bounds x (k - top) (2 ^ top) (2 * w) (omega (arith, table_split)) h in
        let c =
          shifted_bounds x (k - top) (2 ^ top) (2 * 2 ^ top) (omega (arith, table_split))
            (omega (arith, table_split)) in
        record {
          at_most = omega arith;
          lower = omega (arith, b, top_bounds);
          upper = b.1;
          log = ilog2_unique _ top c.0 c.1 ∙ omega (arith, top-le);
        }

    top-pos : 2 * w * 2 ^ (k - top) ≤ x → ¬ (top ≡ 0)
    top-pos h e =
        let one : 2 ^ top ≡ 1 = ap (λ t. 2 ^ t) e in
        let at_least : 1 * 2 ^ (k - top) ≤ w * 2 ^ (k - top) = mul-le-mul_right _ pos in
        omega (arith, at_least, table_split, ap (λ (t : ℕ). t * 2 ^ (k - top)) one)

    high_state : 2 * w * 2 ^ (k - top) ≤ x → IsRenormed k w x (k - top + 1)
    high_state h =
        let n : ℕ = k - top + 1 in
        let t : ℕ = top - 1 in
        let top_eq : top ≡ suc t = omega (arith, top-pos h) in
        let half : 2 ^ top ≡ 2 * 2 ^ t = ap (λ e. 2 ^ e) top_eq ∙ two-pow-suc t in
        let double : 2 ^ n ≡ 2 * 2 ^ (k - top) = rw add-one (two-pow-suc (k - top)) in
        let b =
          shifted_bounds x n w (2 ^ top) (omega (arith, ap (λ (e : ℕ). w * e) double))
            (omega (arith, table_split, ap (λ (e : ℕ). 2 ^ top * e) double)) in
        let c =
          shifted_bounds x n (2 ^ t) (2 * 2 ^ t)
            (omega (
              arith,
              table_split,
              ap (λ (e : ℕ). 2 ^ t * e) double,
              ap (λ (e : ℕ). e * 2 ^ (k - top)) half,
            ))
            (omega (
              arith,
              table_split,
              ap (λ (e : ℕ). 2 ^ top * e) double,
              ap (λ (e : ℕ). e * 2 ^ n) half,
            )) in
        record {
          at_most = omega (arith, top-le);
          lower = b.0;
          upper = omega (arith, b, top_bounds);
          log = ilog2_unique _ t c.0 c.1 ∙ omega (arith, top-le);
        }

    pub built_info-IsRenormed : IsRenormed k w x (renorm_bits (built_info k w) x)
    unfolding renorm_bits
    built_info-IsRenormed = elim (Bool-cases (leb (2 * w * 2 ^ (k - top)) x)) [
      | inl above ↦ rw above (high_state (omega tests))
      | inr below ↦ rw below (low_state (omega tests))
    ]

    -- For a weight of a table and a state of the table, the encoder makes the symbol's information without
    -- an overflow; shifting the state by the bits that it then chooses leaves at least the weight and less
    -- than twice the weight, and takes as many bits as the logarithms of the table size and of the
    -- shifted state differ by.
    pub renorm_bits-IsRenormed :
        (info : SymbolInfo) × (symbol_info k w ≡ ok info) × IsRenormed k w x (renorm_bits info x)
    renorm_bits-IsRenormed = (built_info k w, symbol_info_ok, built_info-IsRenormed)

-- The loop over weights that fit the table.
pub symbol_infos_ok :
    (k : ℕ) (weights : List ℕ)
    → k ≤ 14
    → ((s w : ℕ) → index weights s ≡ ok w → (0 < w) × (w ≤ 2 ^ k))
    → symbol_infos_of k weights ≡ ok (map (built_info k) weights)
unfolding symbol_infos_of
symbol_infos_ok k [] small fit = refl
symbol_infos_ok k (w ∷ weights) small fit =
    let (pos, fits) = fit 0 w refl in
    rw
      (
        symbol_info_ok k w small pos fits,
        symbol_infos_ok k weights small (λ s v found. fit (suc s) v found),
      )
      refl
