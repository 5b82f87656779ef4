-- ===== src/Ans/NodeOf.antt =====
-- What the decoder of pco/src/ans/decoding.rs makes of a symbol, where nothing overflows.
use pcodec.Common.{ℕ, ◌-◌, ◌*◌, ◌%◌, ◌^◌, ◌≤◌, ◌<◌, ◌≡◌, refl, arith}
use pcodec.Common.Pow.{
  ilog2, ilog2_unique, ilog2_bounds, exponent_le, two-pow-pos, pow_mono, pow_split,
}
use pcodec.Machine.{u16, u32, leading_zeros}
use pcodec.Traps.{sub_from_lem, shift_left_lem}
use pcodec.Errors.{ok}
use pcodec.Ans.Decoding.{Node, make_node}
use native.Mathlib.Nat.{mod-eq_of_lt, mul-le-mul_right}

abbrev pub built_node : ℕ → ℕ → ℕ → ℕ → Node
built_node k s x_s off = record {
  symbol = u16 s;
  next_state_idx_base = u16 (x_s * 2 ^ (k - ilog2 x_s) - 2 ^ k);
  offset_bits = u16 off;
  bits_to_read = u16 (k - ilog2 x_s);
}

leading_zeros_lem : (y : ℕ) → 0 < y → leading_zeros 32 y ≡ 31 - ilog2 y
unfolding leading_zeros
leading_zeros_lem y h = ground arith

module _ (k x_s : ℕ) (small : k ≤ 14) (lo : 1 ≤ x_s) (hi : x_s < 2 * 2 ^ k) where
  abbrev log : ℕ
  log = ilog2 x_s

  log-le : log ≤ k
  log-le = exponent_le log k (omega (arith, ilog2_bounds x_s lo, hi))

  log_size : ilog2 (2 ^ k) ≡ k
  log_size = ilog2_unique (2 ^ k) k (omega arith) (omega (arith, two-pow-pos k))

  size_bound : 2 ^ k ≤ 16384
  size_bound = pow_mono k 14 small

  base_bounds : (2 ^ k ≤ x_s * 2 ^ (k - log)) × (x_s * 2 ^ (k - log) ≤ 2 * 2 ^ k)
  base_bounds =
      let (below, above) = ilog2_bounds x_s lo in
      let split = pow_split log k log-le in
      let least : 2 ^ log * 2 ^ (k - log) ≤ x_s * 2 ^ (k - log) = mul-le-mul_right _ below in
      let most : x_s * 2 ^ (k - log) ≤ 2 * 2 ^ log * 2 ^ (k - log) =
        mul-le-mul_right _ (omega (arith, above)) in
      omega (arith, split, least, most)

  pub make_node_ok : (s off : ℕ) → make_node (2 ^ k) s x_s off ≡ ok (built_node k s x_s off)
  unfolding make_node
  make_node_ok s off =
      let word : u32 (2 ^ k) ≡ 2 ^ k = omega (arith, size_bound) in
      let bits : 31 - log - (31 - k) ≡ k - log = omega (arith, log-le, small) in
      let base : x_s * 2 ^ (k - log) % 2 ^ 32 ≡ x_s * 2 ^ (k - log) =
        mod-eq_of_lt (omega (arith, base_bounds, size_bound)) in
      rw
        (
          word,
          leading_zeros_lem x_s lo,
          leading_zeros_lem (2 ^ k) (two-pow-pos k),
          log_size,
          sub_from_lem (31 - log) (31 - k) (omega (arith, log-le)),
          bits,
          shift_left_lem 32 x_s (k - log) (omega (arith, small)),
          base,
          sub_from_lem (x_s * 2 ^ (k - log)) (2 ^ k) base_bounds.0,
        )
        refl
