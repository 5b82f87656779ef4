-- ===== src/Delta/Stream.antt =====
-- Consecutive deltas of pco/src/delta.rs: decoding undoes encoding, at once or batch by batch.
use pcodec.Common.{
  ℕ, zero, suc, ◌-◌, ◌≤◌, ◌<◌, ◌≡◌, refl, ap, ◌∙◌, arith, min, List, [], ◌∷◌, ◌++◌, length, take,
  drop, All, length-append, length-map, take-length_append, drop-length_append, ap₂, map-append,
}
use pcodec.Errors.{ok}
use pcodec.Latent.{
  IsLatent, wrapping_add, wrapping_add-sub, wrapping_sub-IsLatent, toggle_center_twice,
}
use pcodec.Delta.Consecutive.{
  toggle_center_in_place, first_order_encode_consecutive_in_place, encode_rounds,
  encode_consecutive_in_place, first_order_decode_consecutive_in_place, decode_rounds,
  decode_consecutive_in_place,
}
use pcodec.Delta.Differences.{differences, length-differences, first_order_encode_lem}

module _ (w : ℕ) where
  differences-IsLatent : (p : ℕ) (xs : List ℕ) → All (IsLatent w) (differences w p xs)
  differences-IsLatent p [] = tt
  differences-IsLatent p (x ∷ xs) = (wrapping_sub-IsLatent w x p, differences-IsLatent x xs)

  length-first_order_decode :
      (m : ℕ) (xs : List ℕ) → length (first_order_decode_consecutive_in_place w m xs).1 ≡ length xs
  unfolding first_order_decode_consecutive_in_place
  length-first_order_decode m [] = refl
  length-first_order_decode m (x ∷ xs) = ap suc (length-first_order_decode (wrapping_add w m x) xs)

  length-decode_rounds : (ms xs : List ℕ) → length (decode_rounds w ms xs).1 ≡ length xs
  unfolding decode_rounds
  length-decode_rounds [] xs = refl
  length-decode_rounds (m ∷ ms) xs = length-first_order_decode m _ ∙ length-decode_rounds ms xs

  -- Adding up the differences gives the list back, given at least one more element to decode.
  first_order_decode_lem :
      (x : ℕ) (xs : List ℕ) (extra : List ℕ)
      → IsLatent w x
      → All (IsLatent w) xs
      → 1 ≤ length extra
      → (m : ℕ) × (extra' : List ℕ) × (first_order_decode_consecutive_in_place w x
            (differences w x xs ++ extra)
          ≡ (m, x ∷ xs ++ extra'))
  unfolding first_order_decode_consecutive_in_place
  first_order_decode_lem x [] [] hx hs l = absurd (omega arith)
  first_order_decode_lem x [] (e ∷ es) hx hs l =
      (_, (first_order_decode_consecutive_in_place w (wrapping_add w x e) es).1, refl)
  first_order_decode_lem x (y ∷ ys) extra hx (hy, hs) l =
      let (m, extra', e) = first_order_decode_lem y ys extra hy hs l in
      (m, extra', rw (wrapping_add-sub w y x hy hx, e))

  record Inverts (order : ℕ) (latents moments junk rest : List ℕ) : Type 0 where
    runs : encode_rounds w order latents ≡ ok (moments, junk, rest)
    n_junk : length junk ≡ min order (length latents)
    n_rest : length rest ≡ length latents - order
    in_type : All (IsLatent w) rest
    back :
        (tail : List ℕ)
        → order ≤ length tail
        → (moments' : List ℕ) × (extra : List ℕ) × (decode_rounds w moments (rest ++ tail)
            ≡ (moments', latents ++ extra))

  -- One more order: the decoded differences are added up.
  add_up :
      (order x : ℕ) (xs moments rest tail : List ℕ)
      → IsLatent w x
      → All (IsLatent w) xs
      → length rest ≡ length (differences w x xs) - order
      → suc order ≤ length tail
      → (moments' : List ℕ) × (extra : List ℕ) × (decode_rounds w moments (rest ++ tail)
          ≡ (moments', differences w x xs ++ extra))
      → (moments' : List ℕ) × (extra : List ℕ) × (decode_rounds w (x ∷ moments) (rest ++ tail)
          ≡ (moments', (x ∷ xs) ++ extra))
  unfolding decode_rounds
  add_up order x xs moments rest tail hx h n_rest b (moments', extra, e) =
      let same : length (decode_rounds w moments (rest ++ tail)).1
          ≡ length (differences w x xs ++ extra) =
        ap (λ p. length p.1) e in
      let more : 1 ≤ length extra = omega (
        arith,
        same,
        length-decode_rounds moments (rest ++ tail),
        length-append {0} rest tail,
        length-append {0} (differences w x xs) extra,
        n_rest,
      ) in
      let (m, extra', d) = first_order_decode_lem x xs extra hx h more in
      (m ∷ moments', extra', rw (e, d))

  encode_rounds-Inverts :
      (order : ℕ) (latents : List ℕ)
      → All (IsLatent w) latents
      → (moments : List ℕ) × (junk : List ℕ) × (rest : List ℕ) × Inverts order latents moments junk
          rest
  unfolding encode_rounds decode_rounds
  encode_rounds-Inverts zero latents h = (
    [],
    [],
    latents,
    record {
      runs = refl;
      n_junk = omega arith;
      n_rest = omega arith;
      in_type = h;
      back = λ tail b. ([], tail, refl);
    },
  )
  encode_rounds-Inverts (suc order) [] h =
      let (moments, junk, rest, inv) = encode_rounds-Inverts order [] tt in
      (
        0 ∷ moments,
        junk,
        rest,
        record {
          runs = unfold first_order_encode_consecutive_in_place in rw (inv.runs);
          n_junk = omega (arith, inv.n_junk);
          n_rest = omega (arith, inv.n_rest);
          in_type = inv.in_type;
          back = λ tail b. (_, (decode_rounds w (0 ∷ moments) (rest ++ tail)).1, refl);
        },
      )
  encode_rounds-Inverts (suc order) (x ∷ xs) (hx, h) =
      let (moments, junk, rest, inv) =
        encode_rounds-Inverts order (differences w x xs) (differences-IsLatent x xs) in
      (
        x ∷ moments,
        x ∷ junk,
        rest,
        record {
          runs = rw (first_order_encode_lem w x xs, inv.runs);
          n_junk = omega (arith, inv.n_junk, length-differences w x xs);
          n_rest = omega (arith, inv.n_rest, length-differences w x xs);
          in_type = inv.in_type;
          back = λ tail b.
              add_up order x xs moments rest tail hx h inv.n_rest b (inv.back tail (omega arith));
        },
      )

  pub toggle_twice :
      (0 < w)
      → (xs : List ℕ) → All (IsLatent w) xs
      → toggle_center_in_place w (toggle_center_in_place w xs) ≡ xs
  unfolding toggle_center_in_place
  toggle_twice p [] h = refl
  toggle_twice p (x ∷ xs) (hx, h) = ap₂ ◌∷◌ (toggle_center_twice w x p hx) (toggle_twice p xs h)

  pub length-toggle : (xs : List ℕ) → length (toggle_center_in_place w xs) ≡ length xs
  unfolding toggle_center_in_place
  length-toggle xs = length-map _ xs

  pub toggle-append :
      (xs ys : List ℕ)
      → toggle_center_in_place w (xs ++ ys)
        ≡ toggle_center_in_place w xs ++ toggle_center_in_place w ys
  unfolding toggle_center_in_place
  toggle-append xs ys = map-append _ xs ys

  -- For latents of a type of a positive width, encoding succeeds for every order, and keeps the
  -- length. When the deltas behind the junk are decoded with the moments, followed by at least
  -- `order` values, the result starts with the original latents.
  pub decode-encode_consecutive :
      (order : ℕ) (latents tail : List ℕ)
      → 0 < w
      → All (IsLatent w) latents
      → order ≤ length tail
      → (moments : List ℕ) × (buffer : List ℕ) × (encode_consecutive_in_place w order latents
          ≡ ok (moments, buffer))
        × (length buffer ≡ length latents)
        × (take
              (length latents)
              (decode_consecutive_in_place w moments
                (drop (min order (length latents)) buffer ++ tail)).1
            ≡ latents)
  unfolding encode_consecutive_in_place decode_consecutive_in_place
  decode-encode_consecutive order latents tail p h b =
      let (moments, junk, rest, inv) = encode_rounds-Inverts order latents h in
      let (moments', extra, e) =
        inv.back (toggle_center_in_place w tail) (rw (length-toggle tail) b) in
      (
        moments,
        junk ++ toggle_center_in_place w rest,
        rw inv.runs,
        rw (length-append, length-toggle) (omega (arith, inv.n_junk, inv.n_rest)),
        rw (← inv.n_junk, drop-length_append, toggle-append, toggle_twice p rest inv.in_type, e)
            (take-length_append latents extra),
      )

  pub length-decode_consecutive :
      (moments xs : List ℕ) → length (decode_consecutive_in_place w moments xs).1 ≡ length xs
  unfolding decode_consecutive_in_place
  length-decode_consecutive moments xs =
      length-decode_rounds moments (toggle_center_in_place w xs) ∙ length-toggle xs

  first_order_decode-append :
      (m : ℕ) (xs ys : List ℕ)
      → first_order_decode_consecutive_in_place w m (xs ++ ys) ≡ (
          let (m1, out1) = first_order_decode_consecutive_in_place w m xs in
          let (m2, out2) = first_order_decode_consecutive_in_place w m1 ys in (m2, out1 ++ out2))
  unfolding first_order_decode_consecutive_in_place
  first_order_decode-append m [] ys = refl
  first_order_decode-append m (x ∷ xs) ys =
      rw (first_order_decode-append (wrapping_add w m x) xs ys)

  decode_rounds-append :
      (ms xs ys : List ℕ)
      → decode_rounds w ms (xs ++ ys) ≡ (
          let (ms1, out1) = decode_rounds w ms xs in
          let (ms2, out2) = decode_rounds w ms1 ys in (ms2, out1 ++ out2))
  unfolding decode_rounds
  decode_rounds-append [] xs ys = refl
  decode_rounds-append (m ∷ ms) xs ys =
      rw (decode_rounds-append ms xs ys, first_order_decode-append m (decode_rounds w ms xs).1 _)

  -- The moments carry all that a later batch needs: decoding two batches in turn is decoding them at
  -- once, both in the output and in the moments that are left.
  pub decode_consecutive-append :
      (moments xs ys : List ℕ)
      → decode_consecutive_in_place w moments (xs ++ ys) ≡ (
          let (moments1, out1) = decode_consecutive_in_place w moments xs in
          let (moments2, out2) = decode_consecutive_in_place w moments1 ys in
          (moments2, out1 ++ out2))
  unfolding decode_consecutive_in_place
  decode_consecutive-append moments xs ys = rw toggle-append (decode_rounds-append moments _ _)
