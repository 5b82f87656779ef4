-- ===== src/Delta/LookbackBatch.antt =====
-- A page of one batch through the lookback deltas of pco/src/delta.rs: the choice of the lookbacks, the
-- encoder, a new window and the decoder.
use pcodec.Common.{
  ℕ, ◌+◌, ◌-◌, ◌*◌, ◌^◌, ◌≤◌, ◌<◌, ◌≡◌, ltb→lt, ltb-false, inl, inr, min, max, refl, sym, ap, subst,
  ◌∙◌, arith, ltb, false, Bool-cases, List, ◌++◌, length, get_or, take, drop, replicate, All,
  All_of_get_or, get_or-All, map-drop, get_or_ext, get_or-take, length-append, length-take,
  length-drop, length-replicate, le→leb, le→ltb, take-length_append, drop-length_append,
}
use pcodec.Common.Pow.{two-pow-pos, pow_mono}
use pcodec.Errors.{ok, ok-injective}
use pcodec.Latent.{IsLatent, wrapping_sub-IsLatent}
use pcodec.Metadata.DeltaEncoding.{DeltaLookbackConfig, state_n, window_n}
use pcodec.Delta.Consecutive.{toggle_center_in_place}
use pcodec.Delta.Stream.{toggle_twice, toggle-append, length-toggle}
use pcodec.Delta.Lookback.{
  encode_back, encode_with_lookbacks_in_place, new_lookback_window_buffer_and_pos, decode_loop,
  cycle_buffer, decode_with_lookbacks_in_place,
}
use pcodec.Delta.LookbackTrip.{AreLookbacks, Encoded, encode_back_lem, decode_loop-encode_back}
use pcodec.Delta.Choose.{choose_lookbacks}
use pcodec.Delta.Chosen.{choose_lookbacks-AreLookbacks}

-- The encoder's output is in the type.
Encoded-All :
    (w window s : ℕ) (ks : List ℕ) (hks : AreLookbacks window s ks) (xs out : List ℕ)
    → All (IsLatent w) xs
    → length xs ≡ s + length ks
    → Encoded w window s ks hks (length ks) xs out
    → All (IsLatent w) out
Encoded-All w window s ks hks xs out hx len enc = All_of_get_or (IsLatent w) out 0 λ i l.
    elim (Bool-cases (ltb i s)) [
      | inl lt ↦
          rw (enc.before i (ltb→lt i s lt))
            (get_or-All (IsLatent w) xs i 0 hx (omega (arith, enc.same_length)))
      | inr ge ↦
          let le : s ≤ i = ltb-false i s ge in
          let at : s + (i - s) ≡ i = omega (arith, le) in
          rw (← at, enc.taken (i - s) (omega (arith, le, l, len, enc.same_length)))
            (wrapping_sub-IsLatent w (get_or xs (s + (i - s)) 0)
              (get_or xs (s + (i - s) - get_or ks (i - s) 0) 0))
    ]

module _ (w window s : ℕ) (xs out : List ℕ) (room : s ≤ window) where
  -- The window that the decoder starts from.
  abbrev buffer : List ℕ
  buffer = replicate (window - s) 0 ++ (take s out ++ replicate (max window 256 * 2 - window) 0)

  length-buffer : s ≤ length out → length buffer ≡ max window 256 * 2
  length-buffer h =
      rw (length-append, length-append, length-replicate, length-replicate, length-take)
        (omega (arith, room, h))

  buffer_start : s ≤ length out → take s (drop (window - s) buffer) ≡ take s out
  buffer_start h =
      let n : length (take s out) ≡ s = length-take s out ∙ omega (arith, h) in
      let skip : drop (window - s) buffer
          ≡ take s out ++ replicate (max window 256 * 2 - window) 0 =
        rw (length-replicate {A = ℕ} (window - s) 0) at (
          drop-length_append (replicate (window - s) 0)
            (take s out ++ replicate (max window 256 * 2 - window) 0)) in
      rw skip
        (rw n at (take-length_append (take s out) (replicate (max window 256 * 2 - window) 0)))

  decode_new :
      (config : DeltaLookbackConfig) (ks ls buffer' : List ℕ)
      → window_n config ≡ window
      → state_n config ≡ s
      → length ls ≡ length xs
      → length xs ≤ 256
      → s ≤ length xs
      → s ≤ length out
      → 1 ≤ s
      → decode_loop w window window buffer (toggle_center_in_place w ls) ks false
        ≡ ok (false, buffer')
      → take (length xs) (drop (window - s) buffer') ≡ xs
      → decode_with_lookbacks_in_place w config ks window buffer ls
        ≡ ok (false, window + length xs, buffer', xs)
  unfolding decode_with_lookbacks_in_place cycle_buffer
  decode_new config ks ls buffer' ew es n_ls batch some given started runs back =
      let fits : window + length xs ≤ length buffer = omega (arith, length-buffer given) in
      let n_back : min (length xs) (length buffer' - (window - s)) ≡ length xs =
        sym (
          length-take (length xs) (drop (window - s) buffer')
          ∙ ap (min (length xs)) (length-drop (window - s) buffer'))
        ∙ ap length back in
      let ends : window + length xs - s ≤ length buffer' = omega (arith, n_back, room) in
      rw
        (
          n_ls,
          ew,
          es,
          le→leb (window + length xs) (length buffer) fits,
          runs,
          le→ltb window s room,
          le→ltb (length buffer') (window + length xs - s) ends,
          back,
        )
        refl

toggle_drop :
    (w s : ℕ) (out : List ℕ)
    → 0 < w
    → All (IsLatent w) out
    → toggle_center_in_place w (drop s (toggle_center_in_place w out)) ≡ drop s out
toggle_drop w s out pos h =
    let swap : toggle_center_in_place w (drop s (toggle_center_in_place w out))
        ≡ drop s (toggle_center_in_place w (toggle_center_in_place w out)) =
      unfold toggle_center_in_place in map-drop _ s _ in
    swap ∙ ap (drop s) (toggle_twice w pos out h)

encode_whole :
    (w : ℕ) (config : DeltaLookbackConfig) (ks xs out : List ℕ)
    → state_n config ≤ length xs
    → length ks ≡ length xs - state_n config
    → encode_back w (state_n config) ks (length ks) xs ≡ ok out
    → encode_with_lookbacks_in_place w config ks xs
      ≡ ok (take (state_n config) out, toggle_center_in_place w out)
unfolding encode_with_lookbacks_in_place
encode_whole w config ks xs out some n_ks codes =
    let real : min (length xs) (state_n config) ≡ state_n config = omega (arith, some) in
    let none : state_n config - state_n config ≡ 0 = omega arith in
    rw (real, none, ← n_ks, codes) refl

new_window :
    (w : ℕ) (config : DeltaLookbackConfig) (state : List ℕ)
    → length state ≤ window_n config
    → new_lookback_window_buffer_and_pos w config state
      ≡ ok (
        replicate (window_n config - length state) 0
            ++ (state ++ replicate (max (window_n config) 256 * 2 - window_n config) 0),
        window_n config,
      )
unfolding new_lookback_window_buffer_and_pos
new_window w config state h = rw (le→ltb (window_n config) (length state) h) refl

-- The latents are of the type; there are at most 256 of them, a batch, and at least as many as
-- are given to the decoder. The window has at least 16 and at most 2^31 latents, and at least as
-- many as are given, which are at most 2^20. Then choosing lookbacks, encoding with them, and
-- making a window from the state all succeed, and the number of latents stays; and decoding the
-- latents behind the given ones, with as many more behind them as are given, finds no lookback out
-- of bounds and returns the original latents.
pub decode-encode_with_lookbacks :
    (w : ℕ) (config : DeltaLookbackConfig) (xs tail : List ℕ)
    → 0 < w
    → 4 ≤ config.window_n_log
    → config.window_n_log ≤ 31
    → config.state_n_log ≤ 20
    → config.state_n_log ≤ config.window_n_log
    → state_n config ≤ length xs
    → length xs ≤ 256
    → length tail ≡ state_n config
    → All (IsLatent w) xs
    → (ks : List ℕ) × (state : List ℕ) × (out : List ℕ) × (buffer : List ℕ) × (pos : ℕ) × (pos' : ℕ)
      × (buffer' : List ℕ) × (choose_lookbacks w config xs ≡ ok ks)
      × (encode_with_lookbacks_in_place w config ks xs ≡ ok (state, out))
      × (length out ≡ length xs)
      × (new_lookback_window_buffer_and_pos w config state ≡ ok (buffer, pos))
      × (decode_with_lookbacks_in_place w config ks pos buffer (drop (state_n config) out ++ tail)
          ≡ ok (false, pos', buffer', xs))
unfolding state_n window_n
decode-encode_with_lookbacks w config xs tail bits lo hi given within some batch n_tail hx =
    let m : ℕ = config.window_n_log in
    let s : ℕ = state_n config in
    let window : ℕ = window_n config in
    let s_bound : 2 ^ config.state_n_log ≤ 2 ^ 20 = pow_mono config.state_n_log 20 given in
    let s_eq : s ≡ 2 ^ config.state_n_log = omega (arith, s_bound) in
    let s_pos : 1 ≤ s = omega (arith, s_eq, two-pow-pos config.state_n_log) in
    let m_le : 2 ^ m ≤ 2 ^ 31 = pow_mono m 31 hi in
    let w_eq : window ≡ 2 ^ m = omega (arith, m_le) in
    let room : s ≤ window = omega (arith, s_eq, w_eq, pow_mono config.state_n_log m within) in
    let (ks, chosen, n_ks, hks) =
      choose_lookbacks-AreLookbacks w config xs lo (omega arith) given (omega arith) in
    let len : length xs ≡ s + length ks = omega (arith, n_ks, some) in
    let (out, codes, enc) =
      encode_back_lem w window s ks hks (length ks) xs (omega arith) (omega (arith, len)) in
    let n_out : s ≤ length out = omega (arith, enc.same_length, some) in
    let junk : take s out ≡ take s xs =
      get_or_ext 0 (take s out) (take s xs)
        (length-take s out ∙ ap (min s) enc.same_length ∙ sym (length-take s xs))
        λ i l.
          let below : i < s = omega (arith, l, length-take s out) in
          get_or-take s i out 0 below ∙ enc.before i below ∙ sym (get_or-take s i xs 0 below) in
    let all_out : All (IsLatent w) out = Encoded-All w window s ks hks xs out hx len enc in
    let toggled : toggle_center_in_place w (drop s (toggle_center_in_place w out) ++ tail)
        ≡ drop s out ++ toggle_center_in_place w tail =
      toggle-append w (drop s (toggle_center_in_place w out)) tail
      ∙ ap (λ ys. ys ++ toggle_center_in_place w tail) (toggle_drop w s out bits all_out) in
    let n_state : length (take s out) ≡ s = length-take s out ∙ omega (arith, n_out) in
    let n_buffer = length-buffer w window s xs out room n_out in
    let (out2, buffer', codes2, decodes, back) =
      decode_loop-encode_back w window (window - s) s xs ks (buffer w window s xs out room)
        (toggle_center_in_place w tail) (omega (arith, w_eq, m_le)) hx hks len
        (omega (arith, n_buffer, room, batch)) (buffer_start w window s xs out room n_out ∙ junk) in
    let same : out2 ≡ out = ok-injective out2 out (sym codes2 ∙ codes) in
    let from : window - s + s ≡ window = omega (arith, room) in
    let plain : decode_loop w window window (buffer w window s xs out room)
          (drop s out ++ toggle_center_in_place w tail) ks false
        ≡ ok (false, buffer') =
      rw (same, from) at decodes in
    let runs =
      subst
        (λ ls.
          decode_loop w window window (buffer w window s xs out room) ls ks false
          ≡ ok (false, buffer'))
        (sym toggled) plain in
    (
      ks,
      take s out,
      toggle_center_in_place w out,
      buffer w window s xs out room,
      window,
      window + length xs,
      buffer',
      chosen,
      encode_whole w config ks xs out some n_ks codes,
      length-toggle w out ∙ enc.same_length,
      rw n_state at (new_window w config (take s out) (omega (arith, n_state, room))),
      decode_new w window s xs out room config ks (drop s (toggle_center_in_place w out) ++ tail)
          buffer' refl refl
          (rw (length-append, length-drop, length-toggle)
            (omega (arith, n_tail, enc.same_length, some)))
          batch some n_out s_pos runs back,
    )
