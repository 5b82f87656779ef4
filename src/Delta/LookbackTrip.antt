-- ===== src/Delta/LookbackTrip.antt =====
-- The loops of the lookback deltas of pco/src/delta.rs: the decoder's rebuilds in its window what the
-- encoder's took apart.
use pcodec.Common.{
  get_or-All, ℕ, ◌^◌, zero, suc, ◌+◌, ◌-◌, ◌≤◌, ◌<◌, ◌≡◌, refl, sym, ap, ap₂, ◌∙◌, arith, le→leb,
  le→ltb, false, List, [], ◌∷◌, length, get_or, set, All, length-set, length-append, length-take,
  length-drop, take, drop, ◌++◌, get_or_ext, get_or-drop, get_or-take, get_or-append,
  get_or-set_self, get_or-set_ne, inl, inr, ◌==◌, ==→eq, ==→ne, Bool-cases,
}
use native.Mathlib.Nat.{mod-eq_of_lt}
use pcodec.Errors.{ok}
use pcodec.Slice.{assign-eq-ok, index-eq-get_or}
use pcodec.Latent.{IsLatent, wrapping_add, wrapping_sub, wrapping_add-sub, wrapping_add_comm}
use pcodec.Delta.Lookback.{index_back, encode_back, decode_loop}

-- The lookbacks stay within the latents before them, and within the window.
abbrev pub IsLookback : ℕ → ℕ → ℕ → Type 0
IsLookback window i k = (1 ≤ k) × (k ≤ i) × (k ≤ window)

abbrev pub AreLookbacks : ℕ → ℕ → List ℕ → Type 0
AreLookbacks window i [] = Unit
AreLookbacks window i (k ∷ ks) = IsLookback window i k × AreLookbacks window (suc i) ks

IsLookback-at :
    (window i : ℕ) (ks : List ℕ) (m : ℕ)
    → AreLookbacks window i ks
    → m < length ks
    → IsLookback window (i + m) (get_or ks m 0)
IsLookback-at window i [] m h l = absurd (omega arith)
IsLookback-at window i (k ∷ ks) zero (hk, h) l = omega arith
IsLookback-at window i (k ∷ ks) (suc m) (hk, h) l =
    let at = IsLookback-at window (suc i) ks m h (omega arith) in omega arith

pub index_back_ok :
    (xs : List ℕ) (i k : ℕ)
    → 1 ≤ k
    → k ≤ i
    → i ≤ length xs
    → index_back xs i k ≡ ok (get_or xs (i - k) 0)
index_back_ok xs i k lo hi room = rw (le→ltb i k hi) (index-eq-get_or xs (i - k) 0 (omega arith))

module _ (w window s : ℕ) (ks : List ℕ) (hks : AreLookbacks window s ks) where
  -- What stands at an index after `left` turns of the encoder.
  pub record Encoded (left : ℕ) (xs out : List ℕ) : Type 0 where
    pub same_length : length out ≡ length xs
    pub taken :
        (m : ℕ)
        → m < left
        → get_or out (s + m) 0
          ≡ wrapping_sub w (get_or xs (s + m) 0) (get_or xs (s + m - get_or ks m 0) 0)
    pub before : (i : ℕ) → i < s → get_or out i 0 ≡ get_or xs i 0
    pub beyond : (i : ℕ) → s + left ≤ i → get_or out i 0 ≡ get_or xs i 0

  pub encode_back_lem :
      (left : ℕ) (xs : List ℕ)
      → left ≤ length ks
      → s + left ≤ length xs
      → (out : List ℕ) × (encode_back w s ks left xs ≡ ok out) × Encoded left xs out
  unfolding encode_back
  encode_back_lem zero xs hk hx = (
    xs,
    refl,
    record {
      same_length = refl;
      taken = λ m l. absurd (omega arith);
      before = λ i l. refl;
      beyond = λ i l. refl;
    },
  )
  encode_back_lem (suc left) xs hk hx =
      let i : ℕ = s + left in
      let k : ℕ = get_or ks left 0 in
      let (lo, hi, in_window) = IsLookback-at window s ks left hks (omega arith) in
      let v : ℕ = wrapping_sub w (get_or xs i 0) (get_or xs (i - k) 0) in
      let (out, runs, rest) =
        encode_back_lem left (set xs i v) (omega arith) (rw length-set (omega arith)) in
      (
        out,
        rw
            (
              index-eq-get_or ks left 0 (omega arith),
              index-eq-get_or xs i 0 (omega arith),
              index_back_ok xs i k lo hi (omega arith),
              assign-eq-ok xs i v (omega arith),
            )
            runs,
        record {
          same_length = rest.same_length ∙ length-set xs i v;
          taken = λ m l. elim (Bool-cases (m == left)) [
            | inl e ↦
                rw (==→eq m left e)
                  (rest.beyond i (omega arith) ∙ get_or-set_self xs i v 0 (omega arith))
            | inr ne ↦
                let apart : ¬ (m ≡ left) = ==→ne m left ne in
                let under : m < left = ground (arith, apart) in
                rest.taken m under
                ∙ ap₂ (λ x y. wrapping_sub w x y) (get_or-set_ne xs i (s + m) v 0 (omega arith))
                    (get_or-set_ne xs i (s + m - get_or ks m 0) v 0 (omega arith))
          ];
          before = λ j l. rest.before j l ∙ get_or-set_ne xs i j v 0 (omega arith);
          beyond = λ j l. rest.beyond j (omega arith) ∙ get_or-set_ne xs i j v 0 (omega arith);
        },
      )

decode_none :
    (w window pos : ℕ) (buffer ls : List ℕ)
    → decode_loop w window pos buffer ls [] false ≡ ok (false, buffer)
unfolding decode_loop
decode_none w window pos buffer [] = refl
decode_none w window pos buffer (l ∷ ls) = refl

module _ (w window off : ℕ) (word : window < 2 ^ 32) (xs : List ℕ) (hx : All (IsLatent w) xs) where
  decode_loop_lem :
      (j : ℕ) (buffer ls ks : List ℕ)
      → AreLookbacks window j ks
      → length ks ≤ length ls
      → j + length ks ≤ length xs
      → off + length xs ≤ length buffer
      → ((i : ℕ) → i < j → get_or buffer (off + i) 0 ≡ get_or xs i 0)
      → ((m : ℕ)
          → m < length ks
          → get_or ls m 0
            ≡ wrapping_sub w (get_or xs (j + m) 0) (get_or xs (j + m - get_or ks m 0) 0))
      → (buffer' : List ℕ) × (decode_loop w window (off + j) buffer ls ks false
          ≡ ok (false, buffer'))
        × (length buffer' ≡ length buffer)
        × ((i : ℕ) → i < j + length ks → get_or buffer' (off + i) 0 ≡ get_or xs i 0)
  unfolding decode_loop
  decode_loop_lem j buffer ls [] hk hl hj room same deltas =
      (buffer, decode_none w window (off + j) buffer ls, refl, λ i l. same i (omega arith))
  decode_loop_lem j buffer [] (k ∷ ks) hk hl hj room same deltas = absurd (omega arith)
  decode_loop_lem j buffer (l ∷ ls) (k ∷ ks) (h, hk) hl hj room same deltas =
      let pos : ℕ = off + j in
      let x : ℕ = get_or xs j 0 in
      let y : ℕ = get_or xs (j - k) 0 in
      let first : l ≡ wrapping_sub w x y =
        deltas 0 (omega arith)
        ∙ ap₂ (λ a b. wrapping_sub w a b) (ap (λ m. get_or xs m 0) (omega arith))
            (ap (λ m. get_or xs m 0) (omega arith)) in
      let old : get_or buffer (pos - k) 0 ≡ y =
        ap (λ m. get_or buffer m 0) {x = pos - k} {y = off + (j - k)} (omega (arith, h))
        ∙ same (j - k) (omega (arith, h)) in
      let sum : wrapping_add w l y ≡ x =
        rw (first, wrapping_add_comm w (wrapping_sub w x y) y)
          (wrapping_add-sub w x y (get_or-All (IsLatent w) xs j 0 hx (omega arith))
            (get_or-All (IsLatent w) xs (j - k) 0 hx (omega arith))) in
      let buffer1 : List ℕ = set buffer pos x in
      let same1 : (i : ℕ) → i < suc j → get_or buffer1 (off + i) 0 ≡ get_or xs i 0 = λ i l'.
        elim (Bool-cases (i == j)) [
          | inl e ↦ rw (==→eq i j e) (get_or-set_self buffer pos x 0 (omega arith))
          | inr ne ↦
              let apart : ¬ (i ≡ j) = ==→ne i j ne in
              get_or-set_ne buffer pos (off + i) x 0 (omega arith) ∙ same i (ground (arith, apart))
        ] in
      let (out, runs, len, at) =
        decode_loop_lem (suc j) buffer1 ls ks hk (omega arith) (omega arith) (rw length-set room)
          same1
          (λ m l'.
            deltas (suc m) (omega arith)
            ∙ ap₂ (λ a b. wrapping_sub w a b) (ap (λ t. get_or xs t 0) (omega arith))
                (ap (λ t. get_or xs t 0) (omega arith))) in
      let next : off + suc j ≡ pos + 1 = omega arith in
      (
        out,
        rw
            (
              mod-eq_of_lt word,
              le→leb k window h.2,
              index_back_ok buffer pos k h.0 (omega (arith, h)) (omega arith),
              old,
              sum,
              assign-eq-ok buffer pos x (omega arith),
              ← next,
            )
            runs,
        len ∙ length-set buffer pos x,
        λ i l'. at i (omega arith),
      )

-- The window is below 2^32. Latents of the type stand in the source of the encoder; the first `s` of them stand in the
-- decoder's buffer from `off` on, where there is room for all, and each other latent has a
-- lookback, at least 1, that stays within the latents before it and within the window. Then the
-- encoder's loop runs without a panic; the decoder's loop on what it made of the other latents,
-- with anything behind them, runs without a panic and finds no lookback out of bounds; and
-- afterwards all the latents stand in the buffer from `off` on.
pub decode_loop-encode_back :
    (w window off s : ℕ) (xs ks buffer tail : List ℕ)
    → window < 2 ^ 32
    → All (IsLatent w) xs
    → AreLookbacks window s ks
    → length xs ≡ s + length ks
    → off + length xs ≤ length buffer
    → take s (drop off buffer) ≡ take s xs
    → (out : List ℕ) × (buffer' : List ℕ) × (encode_back w s ks (length ks) xs ≡ ok out)
      × (decode_loop w window (off + s) buffer (drop s out ++ tail) ks false ≡ ok (false, buffer'))
      × (take (length xs) (drop off buffer') ≡ xs)
decode_loop-encode_back w window off s xs ks buffer tail word hx hks len room start =
    let (out, codes, enc) =
      encode_back_lem w window s ks hks (length ks) xs (omega arith) (omega arith) in
    let n_body : length (drop s out) ≡ length ks =
      length-drop s out ∙ omega (arith, enc.same_length) in
    let same : (i : ℕ) → i < s → get_or buffer (off + i) 0 ≡ get_or xs i 0 = λ i h.
      sym (get_or-drop off i buffer 0)
      ∙ sym (get_or-take s i (drop off buffer) 0 h)
      ∙ ap (λ ys. get_or ys i 0) start
      ∙ get_or-take s i xs 0 h in
    let (buffer', decodes, n_buffer, at) =
      decode_loop_lem w window off word xs hx s buffer (drop s out ++ tail) ks hks
        (rw length-append (omega (arith, n_body))) (omega arith) room same
        (λ m h.
          get_or-append (drop s out) tail m 0 (omega (arith, n_body))
          ∙ get_or-drop s m out 0
          ∙ enc.taken m h) in
    let whole : length (take (length xs) (drop off buffer')) ≡ length xs =
      length-take (length xs) (drop off buffer')
      ∙ omega (arith, length-drop off buffer', n_buffer) in
    (
      out,
      buffer',
      codes,
      decodes,
      get_or_ext 0 (take (length xs) (drop off buffer')) xs whole λ i h.
          get_or-take (length xs) i (drop off buffer') 0 (omega (arith, whole))
          ∙ get_or-drop off i buffer' 0
          ∙ at i (omega (arith, whole)),
    )
