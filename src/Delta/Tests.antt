-- ===== src/Delta/Tests.antt =====
-- The differences of a short list of 16-bit latents, there and back.
use pcodec.Common.{
  ℕ, ◌≡◌, refl, arith, List, [], ◌∷◌, ◌++◌, ◌-◌, length, take, drop, every_below→All,
}
use pcodec.Errors.{ok}
use pcodec.Delta.Consecutive.{
  first_order_encode_consecutive_in_place, encode_consecutive_in_place, decode_consecutive_in_place,
}
use pcodec.Metadata.DeltaEncoding.{DeltaLookbackConfig, state_n, window_n}
use pcodec.Delta.Lookback.{
  encode_back, decode_loop, encode_with_lookbacks_in_place, new_lookback_window_buffer_and_pos,
  decode_with_lookbacks_in_place,
}
use pcodec.Delta.LookbackTrip.{decode_loop-encode_back, AreLookbacks}
use pcodec.Delta.Choose.{choose_lookbacks}
use pcodec.Delta.Chosen.{choose_lookbacks-AreLookbacks}
use pcodec.Delta.LookbackBatch.{decode-encode_with_lookbacks}
use pcodec.Common.{replicate, false, true}
use pcodec.Delta.Oversized.{decode_loop-oversized}
use pcodec.Delta.Differences.{differences, first_order_encode_lem}
use pcodec.Delta.Stream.{decode-encode_consecutive, decode_consecutive-append}

abbrev latents : List ℕ
latents = 3 ∷ 65535 ∷ 7 ∷ 40000 ∷ 1 ∷ []

decode-encode_consecutive_example :
    (moments : List ℕ) × (buffer : List ℕ) × (encode_consecutive_in_place 16 2 latents
      ≡ ok (moments, buffer))
    × (length buffer ≡ 5)
    × (take 5 (decode_consecutive_in_place 16 moments (drop 2 buffer ++ (8 ∷ 9 ∷ []))).1 ≡ latents)
decode-encode_consecutive_example =
    decode-encode_consecutive 16 2 latents (8 ∷ 9 ∷ []) (omega arith)
      (every_below→All 65536 latents refl) (omega arith)

decode_consecutive-append_example :
    decode_consecutive_in_place 16 (3 ∷ 4 ∷ []) (latents ++ (1 ∷ 2 ∷ [])) ≡ (
      let (moments1, out1) = decode_consecutive_in_place 16 (3 ∷ 4 ∷ []) latents in
      let (moments2, out2) = decode_consecutive_in_place 16 moments1 (1 ∷ 2 ∷ []) in
      (moments2, out1 ++ out2))
decode_consecutive-append_example = decode_consecutive-append 16 (3 ∷ 4 ∷ []) latents (1 ∷ 2 ∷ [])

first_order_encode_lem_example :
    first_order_encode_consecutive_in_place 16 latents
    ≡ ok (3 ∷ differences 16 3 (65535 ∷ 7 ∷ 40000 ∷ 1 ∷ []))
first_order_encode_lem_example = first_order_encode_lem 16 3 (65535 ∷ 7 ∷ 40000 ∷ 1 ∷ [])

-- Two latents are given; the other three look back by 2, 1 and 4.
decode_loop-encode_back_example :
    (out : List ℕ) × (buffer' : List ℕ) × (encode_back 16 2 (2 ∷ 1 ∷ 4 ∷ []) 3 latents ≡ ok out)
    × (decode_loop 16 8 8
          (replicate 6 0 ++ (3 ∷ 65535 ∷ replicate 8 0))
          (drop 2 out ++ (5 ∷ []))
          (2 ∷ 1 ∷ 4 ∷ [])
          false
        ≡ ok (false, buffer'))
    × (take 5 (drop 6 buffer') ≡ latents)
decode_loop-encode_back_example =
    decode_loop-encode_back 16 8 6 2 latents (2 ∷ 1 ∷ 4 ∷ [])
      (replicate 6 0 ++ (3 ∷ 65535 ∷ replicate 8 0)) (5 ∷ []) (omega arith)
      (every_below→All 65536 latents refl)
      (
        (omega arith, omega arith, omega arith),
        ((omega arith, omega arith, omega arith), ((omega arith, omega arith, omega arith), tt)),
      )
      refl (omega arith) refl

abbrev small_config : DeltaLookbackConfig
small_config = record { state_n_log = 1; window_n_log = 4; secondary_uses_delta = false }

choose_lookbacks-AreLookbacks_example :
    (ks : List ℕ) × (choose_lookbacks 16 small_config latents ≡ ok ks)
    × (length ks ≡ length latents - state_n small_config)
    × AreLookbacks (window_n small_config) (state_n small_config) ks
choose_lookbacks-AreLookbacks_example =
    choose_lookbacks-AreLookbacks 16 small_config latents (omega arith) (omega arith) (omega arith)
      (omega arith)

decode-encode_with_lookbacks_example :
    (ks : List ℕ) × (state : List ℕ) × (out : List ℕ) × (buffer : List ℕ) × (pos : ℕ) × (pos' : ℕ)
    × (buffer' : List ℕ) × (choose_lookbacks 16 small_config latents ≡ ok ks)
    × (encode_with_lookbacks_in_place 16 small_config ks latents ≡ ok (state, out))
    × (length out ≡ length latents)
    × (new_lookback_window_buffer_and_pos 16 small_config state ≡ ok (buffer, pos))
    × (decode_with_lookbacks_in_place 16 small_config ks pos buffer
          (drop (state_n small_config) out ++ (8 ∷ 9 ∷ []))
        ≡ ok (false, pos', buffer', latents))
unfolding state_n
decode-encode_with_lookbacks_example =
    decode-encode_with_lookbacks 16 small_config latents (8 ∷ 9 ∷ []) (omega arith) (omega arith)
      (omega arith) (omega arith) (omega arith) (omega arith) (omega arith) refl
      (every_below→All 65536 latents refl)

decode_loop-oversized_example :
    (buffer' : List ℕ) × (decode_loop 16
        (window_n (record { state_n_log = 1; window_n_log = 32; secondary_uses_delta = false }))
        1
        (3 ∷ 0 ∷ 0 ∷ [])
        (4 ∷ 5 ∷ [])
        (1 ∷ 2 ∷ [])
        false
      ≡ ok (true, buffer'))
decode_loop-oversized_example =
    decode_loop-oversized 16
      (record { state_n_log = 1; window_n_log = 32; secondary_uses_delta = false }) 1
      (3 ∷ 0 ∷ 0 ∷ []) 4 (5 ∷ []) 1 (2 ∷ []) refl (omega arith, (omega arith, tt)) (omega arith)
      (omega arith)
