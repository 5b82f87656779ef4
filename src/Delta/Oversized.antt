-- ===== src/Delta/Oversized.antt =====
-- The largest window that a file can ask of pco/src/delta.rs, of 2^32 latents: its cast to u32 is 0.
use pcodec.Common.{
  ℕ, ◌+◌, ◌-◌, ◌^◌, ◌≤◌, ◌<◌, ◌≡◌, refl, ◌∙◌, arith, leb, ◌||◌, Bool, true, false, List, [], ◌∷◌,
  length, get_or, set, All, length-set,
}
use pcodec.Errors.{ok}
use pcodec.Slice.{assign-eq-ok}
use pcodec.Latent.{wrapping_add}
use pcodec.Metadata.DeltaEncoding.{DeltaLookbackConfig, window_n}
use pcodec.Delta.Lookback.{decode_loop}
use pcodec.Delta.LookbackTrip.{index_back_ok}

or_true : (b : Bool) → (b || true) ≡ true
or_true true = refl
or_true false = refl

module _ (w : ℕ) where
  -- A lookback is taken for 1, and sets the flag.
  turn :
      (pos : ℕ) (buffer : List ℕ) (l : ℕ) (ls : List ℕ) (k : ℕ) (ks : List ℕ) (oob : Bool)
      → 1 ≤ k
      → 1 ≤ pos
      → pos < length buffer
      → decode_loop w (2 ^ 32) pos buffer (l ∷ ls) (k ∷ ks) oob
        ≡ decode_loop w
            (2 ^ 32)
            (pos + 1)
            (set buffer pos (wrapping_add w l (get_or buffer (pos - 1) 0)))
            ls
            ks
            true
  unfolding decode_loop
  turn pos buffer l ls k ks oob hk some room =
      let far : leb k 0 ≡ false = ground (arith, hk) in
      rw
        (
          far,
          index_back_ok buffer pos 1 (omega arith) some (omega (arith, room)),
          assign-eq-ok buffer pos (wrapping_add w l (get_or buffer (pos - 1) 0)) room,
          or_true oob,
        )
        refl

  all_flagged :
      (pos : ℕ) (buffer ls ks : List ℕ)
      → All (λ k. 1 ≤ k) ks
      → 1 ≤ pos
      → pos + length ls ≤ length buffer
      → (buffer' : List ℕ) × (decode_loop w (2 ^ 32) pos buffer ls ks true ≡ ok (true, buffer'))
  all_flagged pos buffer [] ks h some room = (buffer, unfold decode_loop in refl)
  all_flagged pos buffer (l ∷ ls) [] h some room = (buffer, unfold decode_loop in refl)
  all_flagged pos buffer (l ∷ ls) (k ∷ ks) (hk, h) some room =
      let (buffer', runs) =
        all_flagged (pos + 1) (set buffer pos (wrapping_add w l (get_or buffer (pos - 1) 0))) ls ks
          h (omega arith) (rw length-set (omega (arith, room))) in
      (buffer', turn pos buffer l ls k ks true hk some (omega (arith, room)) ∙ runs)

  -- With a window of 2^32 latents, and a buffer with room for the latents behind at least one other, the
  -- decoder's loop ends without a panic and says that the data is corrupt, whatever the lookbacks are,
  -- as long as there is a latent and a lookback, and no lookback is 0.
  pub decode_loop-oversized :
      (config : DeltaLookbackConfig) (pos : ℕ) (buffer : List ℕ) (l : ℕ) (ls : List ℕ) (k : ℕ)
      (ks : List ℕ)
      → config.window_n_log ≡ 32
      → All (λ back. 1 ≤ back) (k ∷ ks)
      → 1 ≤ pos
      → pos + length (l ∷ ls) ≤ length buffer
      → (buffer' : List ℕ) × (decode_loop w (window_n config) pos buffer (l ∷ ls) (k ∷ ks) false
          ≡ ok (true, buffer'))
  unfolding window_n
  decode_loop-oversized config pos buffer l ls k ks largest (hk, h) some room =
      let (buffer', runs) =
        all_flagged (pos + 1) (set buffer pos (wrapping_add w l (get_or buffer (pos - 1) 0))) ls ks
          h (omega arith) (rw length-set (omega (arith, room))) in
      (buffer', rw largest (turn pos buffer l ls k ks false hk some (omega (arith, room)) ∙ runs))
