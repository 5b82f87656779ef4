-- ===== src/Page/DeltaTests.antt =====
-- The lookbacks of a page of five latents that stands between others.
use pcodec.Common.{
  ℕ, ◌+◌, ◌≡◌, refl, arith, Option, List, [], ◌∷◌, ◌++◌, drop, every_below→All, false, none,
}
use pcodec.Errors.{ok}
use pcodec.Metadata.DeltaEncoding.{DeltaEncoding, lookback, n_latents_per_state, state_n}
use pcodec.Delta.Dispatch.{compute_delta_latent_var, encode_in_place}
use pcodec.Page.Decompress.{LatentPageDecompressor, with_delta, undo_delta, working_delta_state}
use pcodec.Page.DeltaTrip.{undo_delta-encode_in_place}

abbrev encoding : DeltaEncoding
encoding = lookback (record { state_n_log = 1; window_n_log = 4; secondary_uses_delta = false })

abbrev page : List ℕ
page = 3 ∷ 65535 ∷ 7 ∷ 40000 ∷ 7 ∷ []

abbrev before : List ℕ
before = 11 ∷ 12 ∷ []

abbrev behind : List ℕ
behind = 13 ∷ []

abbrev lpd : LatentPageDecompressor
lpd = record {
  u64s_per_offset = 0;
  bin_lowers = [];
  needs_ans = false;
  decoder = record { nodes = [] };
  delta_encoding = encoding;
  maybe_constant_value = none;
  state = record {
    offset_bits_csum_scratch = [];
    offset_bits_scratch = [];
    lowers_scratch = [];
    ans_state_idxs = [];
    delta_state = [];
    delta_state_pos = 0;
  };
}

undo_delta-encode_in_place_example :
    (deltas : Option (List ℕ)) × (stored : List ℕ) × (out : List ℕ) × (state : List ℕ) × (pos : ℕ)
    × (lpd' : LatentPageDecompressor) × (compute_delta_latent_var 16 encoding
          (before ++ (page ++ behind))
          2
          (2 + 5)
        ≡ ok deltas)
    × (encode_in_place 16 encoding deltas 2 (2 + 5) (before ++ (page ++ behind))
        ≡ ok (stored, before ++ (out ++ behind)))
    × (working_delta_state 16 encoding stored ≡ ok (state, pos))
    × (undo_delta 16
          (with_delta 16 (record lpd { delta_encoding = encoding }) state pos)
          deltas
          (drop (n_latents_per_state encoding) out ++ (8 ∷ 9 ∷ []))
        ≡ ok (lpd', page))
unfolding n_latents_per_state state_n
undo_delta-encode_in_place_example =
    undo_delta-encode_in_place 16 encoding before page behind (8 ∷ 9 ∷ []) lpd (omega arith)
      (omega arith, omega arith, omega arith, omega arith, omega arith, omega arith)
      (every_below→All 65536 page refl) refl
