-- ===== src/Page/Filled.antt =====
-- What the scratch arrays of pco/src/latent_page_decompressor.rs hold after the symbols of a batch.
use pcodec.Common.{
  ℕ, zero, suc, ◌+◌, ◌≤◌, ◌<◌, ◌≡◌, refl, ap, ap₂, ◌∙◌, arith, List, [], ◌∷◌, ◌++◌, length, set,
  take, drop, get_or, map, length-map, length-set, append_assoc,
}
use pcodec.Machine.{u16}
use pcodec.Page.Symbols.{State}
use pcodec.Page.Interleaved.{filled, HasRoom}
use pcodec.Page.OffsetTrip.{sums, length-sums, IsScratch}

-- Writing the elements of a list one after the other, from the i-th place on.
abbrev fill : ℕ → List ℕ → List ℕ → List ℕ
fill i [] old = old
fill i (x ∷ xs) old = fill (i + 1) xs (set old i x)

take-set :
    (i x : ℕ) (xs : List ℕ) → i < length xs → take (i + 1) (set xs i x) ≡ take i xs ++ (x ∷ [])
take-set i x [] h = absurd (omega arith)
take-set zero x (y ∷ xs) h = refl
take-set (suc i) x (y ∷ xs) h =
    let e : suc i + 1 ≡ suc (i + 1) = omega arith in
    rw e (ap (◌∷◌ y) (take-set i x xs (omega arith)))

drop-set : (i k x : ℕ) (xs : List ℕ) → i < k → drop k (set xs i x) ≡ drop k xs
drop-set i k x [] h = refl
drop-set zero zero x (y ∷ xs) h = absurd (omega arith)
drop-set zero (suc k) x (y ∷ xs) h = refl
drop-set (suc i) zero x (y ∷ xs) h = absurd (omega arith)
drop-set (suc i) (suc k) x (y ∷ xs) h = drop-set i k x xs (omega arith)

take-drop : (i : ℕ) (xs : List ℕ) → xs ≡ take i xs ++ drop i xs
take-drop zero xs = refl
take-drop (suc i) [] = refl
take-drop (suc i) (x ∷ xs) = ap (◌∷◌ x) (take-drop i xs)

fill_lem :
    (i : ℕ) (xs old : List ℕ)
    → i + length xs ≤ length old
    → fill i xs old ≡ take i old ++ (xs ++ drop (i + length xs) old)
fill_lem i [] old room =
    take-drop i old ∙ ap (λ k. take i old ++ drop k old) {x = i} {y = i + 0} (omega arith)
fill_lem i (x ∷ xs) old room =
    let shift : i + 1 + length xs ≡ i + suc (length xs) = omega arith in
    fill_lem (i + 1) xs (set old i x) (rw length-set (omega arith))
    ∙ ap₂ (λ front behind. front ++ (xs ++ behind)) (take-set i x old (omega arith))
        (drop-set i (i + 1 + length xs) x old (omega arith) ∙ ap (λ k. drop k old) shift)
    ∙ append_assoc (take i old) (x ∷ []) (xs ++ drop (i + suc (length xs)) old)

module _ (bin_lowers offs : List ℕ) where
  -- The offset bits and the lower bounds of the symbols.
  abbrev pub bits_of : List ℕ → List ℕ
  bits_of symbols = map (λ s. u16 (get_or offs s 0)) symbols

  abbrev pub lowers_of : List ℕ → List ℕ
  lowers_of symbols = map (λ s. get_or bin_lowers s 0) symbols

  -- The three arrays are filled one beside the other.
  filled_lem :
      (i off : ℕ) (symbols : List ℕ) (st : State)
      → ((filled bin_lowers offs i off symbols st).offset_bits_csum_scratch
          ≡ fill i (sums off (bits_of symbols)) st.offset_bits_csum_scratch)
        × ((filled bin_lowers offs i off symbols st).offset_bits_scratch
            ≡ fill i (bits_of symbols) st.offset_bits_scratch)
        × ((filled bin_lowers offs i off symbols st).lowers_scratch
            ≡ fill i (lowers_of symbols) st.lowers_scratch)
  filled_lem i off [] st = (refl, refl, refl)
  filled_lem i off (s ∷ symbols) st =
      filled_lem (i + 1) (off + u16 (get_or offs s 0)) symbols (record st {
        offset_bits_csum_scratch = set st.offset_bits_csum_scratch i off;
        offset_bits_scratch = set st.offset_bits_scratch i (u16 (get_or offs s 0));
        lowers_scratch = set st.lowers_scratch i (get_or bin_lowers s 0);
      })

  pub filled-IsScratch :
      (symbols : List ℕ) (st : State)
      → HasRoom (length symbols) st
      → IsScratch (bits_of symbols) (filled bin_lowers offs 0 0 symbols st)
  filled-IsScratch symbols st room =
      let n_bits : length (bits_of symbols) ≡ length symbols = length-map _ symbols in
      let n_sums : length (sums 0 (bits_of symbols)) ≡ length symbols =
        length-sums 0 (bits_of symbols) ∙ n_bits in
      record {
        bits_behind = drop (0 + length (bits_of symbols)) st.offset_bits_scratch;
        csums_behind = drop (0 + length (sums 0 (bits_of symbols))) st.offset_bits_csum_scratch;
        is_bits =
            (filled_lem 0 0 symbols st).1
            ∙ fill_lem 0 (bits_of symbols) st.offset_bits_scratch
                (omega (arith, n_bits, room.bits));
        is_csums =
            (filled_lem 0 0 symbols st).0
            ∙ fill_lem 0 (sums 0 (bits_of symbols)) st.offset_bits_csum_scratch
                (omega (arith, n_sums, room.csums));
      }

  pub filled-lowers :
      (symbols : List ℕ) (st : State)
      → HasRoom (length symbols) st
      → (behind : List ℕ) × ((filled bin_lowers offs 0 0 symbols st).lowers_scratch
          ≡ lowers_of symbols ++ behind)
  filled-lowers symbols st room =
      let n : length (lowers_of symbols) ≡ length symbols = length-map _ symbols in
      (
        drop (0 + length (lowers_of symbols)) st.lowers_scratch,
        (filled_lem 0 0 symbols st).2
            ∙ fill_lem 0 (lowers_of symbols) st.lowers_scratch (omega (arith, n, room.lowers)),
      )
