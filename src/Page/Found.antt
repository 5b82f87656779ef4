-- ===== src/Page/Found.antt =====
-- The table of pco/src/compression_table.rs is what the search of pco/src/latent_batch_dissector.rs needs.
use pcodec.Common.{
  ℕ, zero, suc, ◌+◌, ◌-◌, ◌^◌, ◌≤◌, ◌<◌, ◌≡◌, min, refl, sym, ap, ap₂, ◌∙◌, arith, leb, Bool-cases,
  inl, inr, List, [], ◌∷◌, ◌++◌, length, map, replicate, All, All_mono, length-map, length-append,
  length-replicate, map-append, append_assoc, append-nil, leb→le, leb-false, ◌==◌, ==→eq, ==→ne,
}
use pcodec.Common.Pow.{pow_mono, pow-add, exponent_le, ilog2, ilog2_bounds}
use pcodec.Machine.{shl}
use pcodec.Errors.{ok}
use pcodec.Latent.{IsLatent}
use pcodec.Page.Table.{
  BinCompressionInfo, CompressionTable, search_size_log_for, pad_lowers, from_infos,
}
use pcodec.Common.{IsAscending, in_turn, Rearranged, Rearranged-length, Rearranged-All}
use pcodec.Page.Search.{binary_search}
use pcodec.Page.Searching.{
  count_le, count_le-le, count_all, count_le-append, run, run_lem, rounds_lem,
}

-- What sorting by the lower bound returns.
abbrev pub IsSorted : List BinCompressionInfo → List BinCompressionInfo → Type 0
IsSorted infos sorted = Rearranged infos sorted × IsAscending (map BinCompressionInfo.lower sorted)

pad_lowers_lem :
    (w k : ℕ) (lowers : List ℕ) → pad_lowers w k lowers ≡ lowers ++ replicate k (2 ^ w - 1)
unfolding pad_lowers
pad_lowers_lem w zero lowers = sym (append-nil lowers)
pad_lowers_lem w (suc k) lowers =
    pad_lowers_lem w k (lowers ++ ((2 ^ w - 1) ∷ []))
    ∙ append_assoc lowers ((2 ^ w - 1) ∷ []) (replicate k (2 ^ w - 1))

-- The padding keeps the bounds ascending.
pad-IsAscending :
    (m k : ℕ) (lowers : List ℕ)
    → All (λ x. x ≤ m) lowers
    → IsAscending lowers
    → IsAscending (lowers ++ replicate k m)
pad-IsAscending m zero [] h asc = tt
pad-IsAscending m (suc k) [] h asc = (all_same k, pad-IsAscending m k [] tt tt)
  where
    all_same : (n : ℕ) → All (λ y. m ≤ y) (replicate n m)
    all_same zero = tt
    all_same (suc n) = (omega arith, all_same n)
pad-IsAscending m k (x ∷ lowers) (hx, h) (ax, asc) =
    (all_above k lowers ax, pad-IsAscending m k lowers h asc)
  where
    all_above : (n : ℕ) (ys : List ℕ) → All (λ y. x ≤ y) ys → All (λ y. x ≤ y) (ys ++ replicate n m)
    all_above zero [] a = tt
    all_above (suc n) [] a = (hx, all_above n [] tt)
    all_above n (y ∷ ys) (ay, a) = (ay, all_above n ys a)

search_size_log-bound :
    (n : ℕ) → n ≤ 2 ^ 32 → (n ≤ 2 ^ search_size_log_for n) × (search_size_log_for n ≤ 32)
unfolding search_size_log_for
search_size_log-bound n h = elim (Bool-cases (leb n 1)) [
  | inl few ↦ rw few (omega (arith, leb→le n 1 few))
  | inr more ↦
      let several : 1 < n = leb-false n 1 more in
      let (lo, hi) = ilog2_bounds (n - 1) (omega (arith, several)) in
      rw more (
        omega (arith, hi, pow-add 1 (ilog2 (n - 1))),
        omega (arith, exponent_le (ilog2 (n - 1)) 31 (omega (arith, lo, h))),
      )
]

-- The index of a bin is the number of bounds that are not above the latent, less one, however many
-- pads follow.
padded_index :
    (w l k : ℕ) (lowers : List ℕ)
    → IsLatent w l
    → All (IsLatent w) lowers
    → min (count_le l (lowers ++ replicate k (2 ^ w - 1)) - 1) (length lowers - 1)
      ≡ count_le l lowers - 1
padded_index w l k lowers hl h = elim (Bool-cases (l == 2 ^ w - 1)) [
  | inl top ↦
      let e : l ≡ 2 ^ w - 1 = ==→eq l (2 ^ w - 1) top in
      let all : count_le l lowers ≡ length lowers =
        count_all l lowers (All_mono (IsLatent w) lowers (λ x hx. omega (arith, hx, e)) h) in
      rw (count_le-append l lowers (replicate k (2 ^ w - 1)), all) (omega arith)
  | inr other ↦
      let ne : l < 2 ^ w - 1 = ground (arith, hl, ==→ne l (2 ^ w - 1) other) in
      rw (count_le-append l lowers (replicate k (2 ^ w - 1)), none k ne)
        (omega (arith, count_le-le l lowers))
]
  where
    none : (n : ℕ) → l < 2 ^ w - 1 → count_le l (replicate n (2 ^ w - 1)) ≡ 0
    none zero lt = refl
    none (suc n) lt = ground (arith, lt, none n lt)

map_ext :
    (P : ℕ → Type 0) (f g : ℕ → ℕ) (xs : List ℕ)
    → All P xs
    → ((x : ℕ) → P x → f x ≡ g x)
    → map f xs ≡ map g xs
map_ext P f g [] h same = refl
map_ext P f g (x ∷ xs) (hx, h) same = ap₂ ◌∷◌ (same x hx) (map_ext P f g xs h same)

map-replicate : (f : ℕ → ℕ) (n x : ℕ) → map f (replicate n x) ≡ replicate n (f x)
map-replicate f zero x = refl
map-replicate f (suc n) x = ap (◌∷◌ (f x)) (map-replicate f n x)

map-map : (f g : ℕ → ℕ) (xs : List ℕ) → map f (map g xs) ≡ map (λ x. f (g x)) xs
map-map f g [] = refl
map-map f g (x ∷ xs) = ap (◌∷◌ (f (g x))) (map-map f g xs)

start_zeros :
    (n : ℕ) (xs : List ℕ)
    → length xs ≤ n
    → map {B = ℕ} (λ x. 0) xs ++ replicate {A = ℕ} (n - length xs) 0 ≡ replicate {A = ℕ} n 0
start_zeros n [] h = ap (λ k. replicate {A = ℕ} k 0) (omega arith)
start_zeros zero (x ∷ xs) h = absurd (omega arith)
start_zeros (suc n) (x ∷ xs) h =
    let e : suc n - length (x ∷ xs) ≡ n - length xs = omega arith in
    rw e (ap (◌∷◌ 0) (start_zeros n xs (omega arith)))

-- The lower bounds of the bins of a table.
abbrev pub lowers : CompressionTable → List ℕ
lowers table = map BinCompressionInfo.lower table.infos

record IsTable (w : ℕ) (table : CompressionTable) : Type 0 where
  ascending : IsAscending (lowers table)
  in_type : All (IsLatent w) (lowers table)
  pads : ℕ
  padded : table.search_lowers ≡ lowers table ++ replicate pads (2 ^ w - 1)
  size : length (lowers table) + pads ≡ 2 ^ table.search_size_log
  small : table.search_size_log ≤ 32

binary_search_lem :
    (w : ℕ) (table : CompressionTable) (latents : List ℕ)
    → IsTable w table
    → All (IsLatent w) latents
    → length latents ≤ 256
    → binary_search table latents
      ≡ ok (map (λ l. count_le l (lowers table) - 1) latents ++ replicate (256 - length latents) 0)
unfolding binary_search
binary_search_lem w table latents t hx batch =
    let n : ℕ = length table.infos in
    let m : ℕ = 2 ^ w - 1 in
    let all : List ℕ = lowers table ++ replicate t.pads m in
    let whole : length all ≡ 2 ^ table.search_size_log =
      length-append (lowers table) (replicate t.pads m)
      ∙ ap (λ k. length (lowers table) + k) (length-replicate t.pads m)
      ∙ t.size in
    let asc : IsAscending all =
      pad-IsAscending m t.pads (lowers table)
        (All_mono (IsLatent w) (lowers table) (λ x h. omega (arith, h)) t.in_type) t.ascending in
    let n_lowers : length (lowers table) ≡ n = length-map BinCompressionInfo.lower table.infos in
    let each : (l : ℕ)
        → IsLatent w l
        → min (run all table.search_size_log l 0) (n - 1) ≡ count_le l (lowers table) - 1 =
      λ l hl.
        rw
          (
            run_lem all table.search_size_log l 0 asc (omega (arith, whole)) (omega arith)
                (omega (arith, whole, count_le-le l all)),
            ← n_lowers,
          )
          (padded_index w l t.pads (lowers table) hl t.in_type) in
    rw
      (
        t.padded,
        ← start_zeros 256 latents batch,
        rounds_lem all table.search_size_log (λ l. 0) latents (replicate (256 - length latents) 0)
            (omega (arith, t.small)) (λ l. omega (arith, whole)),
        map-append,
        map-map,
        map-replicate,
      )
      (ap ok (
        ap₂ ◌++◌
          (map_ext (IsLatent w) (λ l. min (run all table.search_size_log l 0) (n - 1))
            (λ l. count_le l (lowers table) - 1) latents hx each)
          (ap (λ x. replicate {A = ℕ} (256 - length latents) x) {x = min 0 (n - 1)} (omega arith))))

module _ (w : ℕ) (sort_by_lower : List BinCompressionInfo → List BinCompressionInfo)
    (infos : List BinCompressionInfo) (once : IsSorted infos (sort_by_lower infos))
    (twice : IsSorted (sort_by_lower infos) (sort_by_lower (sort_by_lower infos)))
    (fits : length infos ≤ 2 ^ 32) (in_type : All (λ info. IsLatent w info.lower) infos) where
  abbrev table : CompressionTable
  table = from_infos w sort_by_lower infos

  from_infos-IsTable : IsTable w table
  unfolding from_infos
  from_infos-IsTable =
      let n_once : length infos ≡ length (sort_by_lower infos) = Rearranged-length once.0 in
      let n_twice : length (sort_by_lower infos) ≡ length (sort_by_lower (sort_by_lower infos)) =
        Rearranged-length twice.0 in
      let k : ℕ = search_size_log_for (length (sort_by_lower infos)) in
      let (room, small) =
        search_size_log-bound (length (sort_by_lower infos)) (omega (arith, n_once, fits)) in
      let n_lowers : length (lowers table) ≡ length infos =
        length-map BinCompressionInfo.lower (sort_by_lower (sort_by_lower infos))
        ∙ sym (n_once ∙ n_twice) in
      let whole : shl 64 1 k ≡ 2 ^ k = omega (arith, pow_mono k 32 small) in
      record {
        ascending = twice.1;
        in_type =
            lowers-All (sort_by_lower (sort_by_lower infos))
              (Rearranged-All (λ info. IsLatent w info.lower) (in_turn once.0 twice.0) in_type);
        pads = shl 64 1 k - length (lowers table);
        padded = pad_lowers_lem w (shl 64 1 k - length (lowers table)) (lowers table);
        size = omega (arith, whole, n_lowers, n_once, room);
        small = small;
      }
    where
      lowers-All :
          (xs : List BinCompressionInfo)
          → All (λ info. IsLatent w info.lower) xs
          → All (IsLatent w) (map BinCompressionInfo.lower xs)
      lowers-All [] h = tt
      lowers-All (x ∷ xs) (hx, h) = (hx, lowers-All xs h)

-- Both sorts of the infos return the same infos with ascending lower bounds; there are at most 2^32
-- infos, and their lower bounds are latents of the type, as are the latents of the batch, of which
-- there are at most 256. Then the search in the table of the infos succeeds, with no read out of
-- range, and gives each latent the number of bins whose lower bound is not above it, less one, which
-- is the index of the last such bin; and 0 behind the latents.
pub binary_search-from_infos :
    (w : ℕ) (sort_by_lower : List BinCompressionInfo → List BinCompressionInfo)
    (infos : List BinCompressionInfo) (latents : List ℕ)
    → IsSorted infos (sort_by_lower infos)
    → IsSorted (sort_by_lower infos) (sort_by_lower (sort_by_lower infos))
    → length infos ≤ 2 ^ 32
    → All (λ info. IsLatent w info.lower) infos
    → All (IsLatent w) latents
    → length latents ≤ 256
    → binary_search (from_infos w sort_by_lower infos) latents
      ≡ ok (
          map (λ l. count_le l (lowers (from_infos w sort_by_lower infos)) - 1) latents
          ++ replicate (256 - length latents) 0)
binary_search-from_infos w sort_by_lower infos latents once twice fits in_type hx batch =
    binary_search_lem w (from_infos w sort_by_lower infos) latents
      (from_infos-IsTable w sort_by_lower infos once twice fits in_type) hx batch
