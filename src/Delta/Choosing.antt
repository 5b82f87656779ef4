-- ===== src/Delta/Choosing.antt =====
-- What the loops of `choose_lookbacks` in pco/src/delta.rs keep up.
use pcodec.Common.{
  ℕ, suc, ◌+◌, ◌-◌, ◌*◌, ◌^◌, ◌≤◌, ◌<◌, ◌≡◌, min, refl, ap, ◌∙◌, arith, if◌then◌else◌, leb, ◌==◌,
  List, [], ◌∷◌, length, set, get_or, map, All, All-set, get_or-set, get_or-set_ne, length-set,
  le→ltb,
}
use pcodec.Common.Pow.{two-pow-pos}
use pcodec.Common.Bitwise.{bit_and_mask}
use pcodec.Machine.{u64, ◌>>>◌}
use pcodec.Errors.{ok}
use pcodec.Slice.{assign-eq-ok, index-eq-get_or}
use pcodec.Latent.{wrapping_sub}
use pcodec.Delta.LookbackTrip.{IsLookback}
use pcodec.Delta.Choose.{hash_fn, coarsenesses, propose, lookup_each, lookback_hash_lookup}
use native.Mathlib.Nat.{mod-lt}

hash_fn-lt : (n x : ℕ) → hash_fn (2 ^ n - 1) x < 2 ^ n
unfolding hash_fn
hash_fn-lt n x = rw (bit_and_mask n _) (mod-lt _ (two-pow-pos n))

-- Every index in the hash table is that of an earlier latent.
abbrev pub IsEarlier : ℕ → List ℕ → Type 0
IsEarlier i table = (j : ℕ) → get_or table j 0 < i

module _ (i n window : ℕ) (wide : 16 ≤ window) (started : 1 ≤ i) where
  abbrev T : ℕ
  T = 2 ^ n

  propose_lem :
      (offset : ℕ) (table hashes : List ℕ) (idx : ℕ) (proposed : List ℕ)
      → ((j : ℕ) → offset ≤ j → get_or table j 0 < i)
      → All (λ h. offset + h < length table) hashes
      → 1 ≤ idx
      → idx + length hashes ≤ 16
      → length proposed ≡ 16
      → All (IsLookback window i) proposed
      → (proposed' : List ℕ) × (propose i T window offset table hashes idx proposed
          ≡ ok (idx + length hashes, proposed'))
        × (length proposed' ≡ 16)
        × All (IsLookback window i) proposed'
  unfolding propose
  propose_lem offset table [] idx proposed earlier inside lo room len h =
      (proposed, ap (λ t. ok (t, proposed)) (omega arith), len, h)
  propose_lem offset table (x ∷ hashes) idx proposed earlier (hx, inside) lo room len h =
      let last : ℕ = get_or table (offset + x) 0 in
      let before : last < i = earlier (offset + x) (omega arith) in
      let back : ℕ = if leb (i - last) window then i - last else min idx i in
      let good : IsLookback window i back = ground (arith, before) in
      let (proposed', runs, len', h') =
        propose_lem offset table hashes (idx + 1) (set proposed idx back) earlier inside
          (omega arith) (omega arith) (length-set proposed idx back ∙ len)
          (All-set (IsLookback window i) proposed idx back good h) in
      (
        proposed',
        rw
            (
              index-eq-get_or table (offset + x) 0 hx,
              le→ltb i last (omega arith),
              assign-eq-ok proposed idx back (omega arith),
            )
            (runs ∙ ap (λ t. ok (t, proposed')) (omega arith)),
        len',
        h',
      )

  lookup_each_lem :
      (l : ℕ) (cs : List ℕ) (idx offset : ℕ) (table proposed : List ℕ)
      → ((j : ℕ) → offset ≤ j → get_or table j 0 < i)
      → ((j : ℕ) → get_or table j 0 < suc i)
      → offset + length cs * T ≤ length table
      → 1 ≤ idx
      → idx + 3 * length cs ≤ 16
      → length proposed ≡ 16
      → All (IsLookback window i) proposed
      → (table' : List ℕ) × (proposed' : List ℕ) × (lookup_each i T window l cs idx offset table
            proposed
          ≡ ok (table', proposed'))
        × (length table' ≡ length table)
        × IsEarlier (suc i) table'
        × (length proposed' ≡ 16)
        × All (IsLookback window i) proposed'
  unfolding lookup_each
  lookup_each_lem l [] idx offset table proposed earlier at_most room lo few len h =
      (table, proposed, refl, refl, at_most, len, h)
  lookup_each_lem l (c ∷ cs) idx offset table proposed earlier at_most room lo few len h =
      let bucket : ℕ = l >>> c in
      let buckets : List ℕ = wrapping_sub 64 bucket 1 ∷ bucket ∷ u64 (bucket + 1) ∷ [] in
      let fits : offset + T + length cs * T ≤ length table = omega arith in
      let below : (x : ℕ) → offset + hash_fn (T - 1) x < length table =
        λ x. omega (arith, hash_fn-lt n x) in
      let (proposed1, runs1, len1, h1) =
        propose_lem offset table (map (hash_fn (T - 1)) buckets) idx proposed earlier
          (below _, (below _, (below _, tt))) lo (omega arith) len h in
      let place : ℕ = offset + hash_fn (T - 1) bucket in
      let table1 : List ℕ = set table place i in
      let moved : (j : ℕ) → get_or table1 j 0 ≡ (if place == j then i else get_or table j 0) =
        λ j. get_or-set table place j i 0 (below bucket) in
      let inside : place < offset + T = omega (arith, hash_fn-lt n bucket) in
      let apart_lem : (j : ℕ) → offset + T ≤ j → get_or table1 j 0 < i = λ j le. omega (
        arith,
        get_or-set_ne table place j i 0 (λ e. omega (arith, inside, le, e)),
        earlier j (omega (arith, le)),
      ) in
      let moved_lem : (j : ℕ) → get_or table1 j 0 < suc i =
        λ j. ground (arith, moved j, at_most j) in
      let (table', proposed', runs, size, earlier', len', h') =
        lookup_each_lem l cs (idx + 3) (offset + T) table1 proposed1 (λ j le. apart_lem j le)
          (λ j. moved_lem j) (rw length-set fits) (omega arith) (omega arith) len1 h1 in
      (
        table',
        proposed',
        rw (runs1, assign-eq-ok table place i (below bucket)) runs,
        size ∙ length-set table place i,
        earlier',
        len',
        h',
      )

  pub lookback_hash_lookup_lem :
      (l : ℕ) (table proposed : List ℕ)
      → IsEarlier i table
      → length table ≡ 2 * T
      → length proposed ≡ 16
      → All (IsLookback window i) proposed
      → (table' : List ℕ) × (proposed' : List ℕ) × (lookback_hash_lookup i T window l table proposed
          ≡ ok (table', proposed'))
        × (length table' ≡ length table)
        × IsEarlier (suc i) table'
        × (length proposed' ≡ 16)
        × All (IsLookback window i) proposed'
  unfolding lookback_hash_lookup
  lookback_hash_lookup_lem l table proposed earlier size len h =
      lookup_each_lem l coarsenesses 10 0 table proposed (λ j _. earlier j)
        (λ j. omega (arith, earlier j)) (omega (arith, size)) (omega arith) (omega arith) len h
