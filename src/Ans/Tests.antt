-- ===== src/Ans/Tests.antt =====
-- The table of the test in pco/src/ans/mod.rs, through the encoder and the decoder.
use pcodec.Common.{ℕ, ◌≡◌, ◌≢◌, ◌⊎◌, ◌^◌, arith, [], ◌∷◌}
use pcodec.Errors.{ok, err, corruption}
use pcodec.Ans.Spec.{table_size, sum, default_weights, from_weights}
use pcodec.Ans.Sample.{small_spec, small_spec-IsValid}
use pcodec.Ans.Spreading.{Made, from_weights-IsValid}
use pcodec.Ans.Encoding.{Encoder, new_encoder, encode, renorm_bits, SymbolInfo, symbol_info}
use pcodec.Ans.Decoding.{Decoder, new_decoder}
use pcodec.Ans.Renorm.{IsRenormed, renorm_bits-IsRenormed}
use pcodec.Ans.RoundTrip.{Undoes, new_encoder_ok, encode-Undoes}
use pcodec.Ans.NodeBits.{new_decoder_ok}

new_encoder_ok_example : (encoder : Encoder) × (new_encoder small_spec ≡ ok encoder)
new_encoder_ok_example = new_encoder_ok small_spec small_spec-IsValid

new_decoder_ok_example :
    (decoder : Decoder) × (new_decoder small_spec (5 ∷ 0 ∷ 9 ∷ []) ≡ ok decoder)
new_decoder_ok_example = new_decoder_ok small_spec small_spec-IsValid (5 ∷ 0 ∷ 9 ∷ [])

encode-Undoes_example :
    (next : ℕ) × (bits : ℕ) × (encode new_encoder_ok_example.0 11 1 ≡ ok (next, bits))
    × Undoes new_decoder_ok_example.0 (table_size small_spec) 1 0 11 next bits
encode-Undoes_example =
    encode-Undoes small_spec small_spec-IsValid new_encoder_ok_example.0 new_decoder_ok_example.0
      (5 ∷ 0 ∷ 9 ∷ []) 11 1 new_encoder_ok_example.1 new_decoder_ok_example.1
      (unfold table_size in omega arith) (unfold table_size in omega arith) (omega arith)

renorm_bits-IsRenormed_example :
    (info : SymbolInfo) × (symbol_info 3 2 ≡ ok info) × IsRenormed 3 2 13 (renorm_bits info 13)
renorm_bits-IsRenormed_example =
    renorm_bits-IsRenormed 3 2 (omega arith) (omega arith) (omega arith) 13 (omega arith)
      (omega arith)

-- The weights of the same table spread to a valid one.
from_weights-IsValid_example :
    ((sum (default_weights (3 ∷ 3 ∷ 2 ∷ [])) ≡ 2 ^ 3)
      × Made 3 (3 ∷ 3 ∷ 2 ∷ []) (from_weights 3 (3 ∷ 3 ∷ 2 ∷ [])))
    ⊎ ((sum (default_weights (3 ∷ 3 ∷ 2 ∷ [])) ≢ 2 ^ 3)
        × (from_weights 3 (3 ∷ 3 ∷ 2 ∷ []) ≡ err corruption))
unfolding default_weights
from_weights-IsValid_example =
    from_weights-IsValid 3 (3 ∷ 3 ∷ 2 ∷ []) (omega arith)
      (omega arith, (omega arith, (omega arith, tt))) (omega arith)
