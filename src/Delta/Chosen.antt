-- ===== src/Delta/Chosen.antt =====
-- The lookbacks that `choose_lookbacks` of pco/src/delta.rs chooses.
use pcodec.Common.{
  ℕ, zero, suc, ◌+◌, ◌-◌, ◌*◌, ◌%◌, ◌^◌, ◌≤◌, ◌<◌, ◌≡◌, inl, inr, min, refl, ap, ◌∙◌, arith,
  if◌then◌else◌, leb, ltb, ◌==◌, true, Bool-cases, List, [], ◌∷◌, length, set, get_or, replicate,
  All, All-set, All-replicate, All_mono, get_or-All, length-set, length-replicate, le→ltb, lt→ltb,
  leb→le, leb-false,
}
use pcodec.Common.Pow.{two-pow-pos, pow_mono}
use pcodec.Machine.{leading_zeros, shl, u32}
use pcodec.Errors.{ok}
use pcodec.Slice.{assign-eq-ok, index-eq-get_or}
use pcodec.Metadata.DeltaEncoding.{DeltaLookbackConfig, state_n, window_n}
use pcodec.Delta.Lookback.{index_back}
use pcodec.Delta.LookbackTrip.{IsLookback, AreLookbacks, index_back_ok}
use pcodec.Delta.Choose.{
  goodness, from_fn, find_best, find_best_lookback, Choice, choose_step, choose_each, first_choice,
  choose_lookbacks,
}
use pcodec.Delta.Choosing.{IsEarlier, lookback_hash_lookup_lem}

-- A count of the lookbacks' uses stays below the index of the latent.
abbrev pub IsCount : ℕ → ℕ → Type 0
IsCount i c = (1 ≤ c) × (c ≤ i)

goodness-pos : (w l c other : ℕ) → 1 ≤ c → c < 2 ^ 32 → 0 < goodness w l c other
unfolding goodness leading_zeros
goodness-pos w l c other lo hi = ground arith

module _ (w i window : ℕ) (latents counts : List ℕ) (here : i < length latents)
    (fits : length latents < 2 ^ 32) (n_counts : length counts ≡ min window (length latents))
    (h_counts : All (IsCount i) counts) where
  -- The counts and the latent at a lookback are in range.
  count_at : (k : ℕ) → IsLookback window i k → index_back counts k 1 ≡ ok (get_or counts (k - 1) 0)
  count_at k h = rw (le→ltb k 1 h.0) (index-eq-get_or counts (k - 1) 0 (omega (arith, n_counts, h)))

  is_count : (k : ℕ) → IsLookback window i k → IsCount i (get_or counts (k - 1) 0)
  is_count k h = get_or-All (IsCount i) counts (k - 1) 0 h_counts (omega (arith, n_counts, h))

  find_best_lem :
      (l : ℕ) (proposed : List ℕ) (best best_lookback : ℕ)
      → All (IsLookback window i) proposed
      → IsLookback window i best_lookback
      → (k : ℕ) × (find_best w l i latents counts proposed best best_lookback ≡ ok k)
        × IsLookback window i k
  unfolding find_best
  find_best_lem l [] best best_lookback h hb = (best_lookback, refl, hb)
  find_best_lem l (k ∷ proposed) best best_lookback (hk, h) hb =
      let good : ℕ = goodness w l (get_or counts (k - 1) 0) (get_or latents (i - k) 0) in
      let next : ℕ = if ltb best good then k else best_lookback in
      let is_next : IsLookback window i next = elim (Bool-cases (ltb best good)) [
        | inl e ↦ rw e hk
        | inr e ↦ rw e hb
      ] in
      let (k', runs, hk') =
        find_best_lem l proposed (if ltb best good then good else best) next h is_next in
      (k', rw (count_at k hk, index_back_ok latents i k hk.0 hk.1 (omega arith)) runs, hk')

  find_best_lookback_lem :
      (l : ℕ) (proposed : List ℕ)
      → 0 < length proposed
      → All (IsLookback window i) proposed
      → (k : ℕ) × (find_best_lookback w l i latents proposed counts ≡ ok k) × IsLookback window i k
  unfolding find_best_lookback find_best
  find_best_lookback_lem l [] some h = absurd (omega arith)
  find_best_lookback_lem l (k ∷ proposed) some (hk, h) =
      let count : ℕ = get_or counts (k - 1) 0 in
      let good : ℕ = goodness w l count (get_or latents (i - k) 0) in
      let (lo, hi) = is_count k hk in
      let better : ltb 0 good ≡ true =
        lt→ltb 0 good (goodness-pos w l count (get_or latents (i - k) 0) lo (omega (arith, hi))) in
      let (k', runs, hk') = find_best_lem l proposed good k h hk in
      (k', rw (count_at k hk, index_back_ok latents i k hk.0 hk.1 (omega arith), better) runs, hk')

-- What holds of the variables before the turn for the latent at `i`.
pub record IsChoice (n window latents_n i : ℕ) (c : Choice) : Type 0 where
  n_counts : length c.lookback_counts ≡ min window latents_n
  pub counts : All (IsCount i) c.lookback_counts
  n_table : length c.idx_hash_table ≡ 2 * 2 ^ n
  pub table : IsEarlier i c.idx_hash_table
  n_proposed : length c.proposed_lookbacks ≡ 16
  pub proposed : All (IsLookback window i) c.proposed_lookbacks

module _ (w n window : ℕ) (latents : List ℕ) (wide : 16 ≤ window)
    (fits : length latents < 2 ^ 32) where
  choose_step_lem :
      (i : ℕ) (c : Choice)
      → 1 ≤ i
      → i < length latents
      → IsChoice n window (length latents) i c
      → (k : ℕ) × (c' : Choice) × (choose_step w (2 ^ n) window latents i c ≡ ok (k, c'))
        × IsLookback window i k
        × IsChoice n window (length latents) (suc i) c'
  unfolding choose_step
  choose_step_lem i c started here inv =
      let l : ℕ = get_or latents i 0 in
      let brute : ℕ = min i 16 in
      let proposed1 : List ℕ = set c.proposed_lookbacks (brute - 1) brute in
      let len1 : length proposed1 ≡ 16 =
        length-set c.proposed_lookbacks (brute - 1) brute ∙ inv.n_proposed in
      let (table, proposed2, looks, size, earlier, len2, h2) =
        lookback_hash_lookup_lem i n window wide started l c.idx_hash_table proposed1 inv.table
          inv.n_table len1
          (All-set (IsLookback window i) c.proposed_lookbacks (brute - 1) brute (omega arith)
            inv.proposed) in
      let (k, finds, hk) =
        find_best_lookback_lem w i window latents c.lookback_counts here fits inv.n_counts
          inv.counts l proposed2 (omega (arith, len2)) h2 in
      let idx : ℕ =
        if k == c.best_lookback then c.repeating_lookback_idx else c.repeating_lookback_idx + 1 in
      let count : ℕ = get_or c.lookback_counts (k - 1) 0 in
      let (lo, hi) =
        is_count w i window latents c.lookback_counts here fits inv.n_counts inv.counts k hk in
      let next : u32 (count + 1) ≡ count + 1 = omega (arith, hi) in
      let word : u32 k ≡ k = omega (arith, hk) in
      let later : (x : ℕ) → IsLookback window i x → IsLookback window (suc i) x =
        λ x h. omega (arith, h) in
      (
        k,
        record {
          lookback_counts = set c.lookback_counts (k - 1) (u32 (count + 1));
          idx_hash_table = table;
          proposed_lookbacks = set proposed2 (6 + idx % 4) k;
          best_lookback = k;
          repeating_lookback_idx = idx;
        },
        rw
            (
              index-eq-get_or latents i 0 here,
              le→ltb brute 1 (omega arith),
              assign-eq-ok c.proposed_lookbacks (brute - 1) brute (omega (arith, inv.n_proposed)),
              looks,
              finds,
              assign-eq-ok proposed2 (6 + idx % 4) k (omega (arith, len2)),
              count_at w i window latents c.lookback_counts here fits inv.n_counts inv.counts k hk,
              assign-eq-ok c.lookback_counts (k - 1) (u32 (count + 1))
                  (omega (arith, inv.n_counts, hk)),
              word,
            )
            refl,
        hk,
        record {
          n_counts = length-set c.lookback_counts (k - 1) (u32 (count + 1)) ∙ inv.n_counts;
          counts =
              All-set (IsCount (suc i)) c.lookback_counts (k - 1) (u32 (count + 1))
                (omega (arith, next, lo, hi))
                (All_mono (IsCount i) c.lookback_counts (λ x h. omega (arith, h)) inv.counts);
          n_table = size ∙ inv.n_table;
          table = earlier;
          n_proposed = length-set proposed2 (6 + idx % 4) k ∙ len2;
          proposed =
              All_mono (IsLookback window i) (set proposed2 (6 + idx % 4) k) later
                (All-set (IsLookback window i) proposed2 (6 + idx % 4) k hk h2);
        },
      )

  choose_each_lem :
      (left i : ℕ) (c : Choice)
      → 1 ≤ i
      → i + left ≤ length latents
      → IsChoice n window (length latents) i c
      → (ks : List ℕ) × (choose_each w (2 ^ n) window latents left i c ≡ ok ks)
        × (length ks ≡ left)
        × AreLookbacks window i ks
  unfolding choose_each
  choose_each_lem zero i c started room inv = ([], refl, refl, tt)
  choose_each_lem (suc left) i c started room inv =
      let (k, c', steps, hk, inv') = choose_step_lem i c started (omega arith) inv in
      let (ks, runs, len, h) = choose_each_lem left (suc i) c' (omega arith) (omega arith) inv' in
      let next : i + 1 ≡ suc i = omega arith in
      (k ∷ ks, rw (steps, next, runs) refl, ap suc len, (hk, h))

length-from_fn : (f : ℕ → ℕ) (left i : ℕ) → length (from_fn f left i) ≡ left
length-from_fn f zero i = refl
length-from_fn f (suc left) i = ap suc (length-from_fn f left (i + 1))

first_proposed :
    (state window left i : ℕ)
    → 1 ≤ state
    → i + left ≤ window
    → All (IsLookback window state) (from_fn (λ j. min (j + 1) state) left i)
first_proposed state window zero i started wide = tt
first_proposed state window (suc left) i started wide =
    (omega arith, first_proposed state window left (i + 1) started (omega arith))

get-zeros : (n j : ℕ) → get_or {A = ℕ} (replicate n 0) j 0 ≡ 0
get-zeros zero j = refl
get-zeros (suc n) zero = refl
get-zeros (suc n) (suc j) = get-zeros n j

first_choice-IsChoice :
    (state n window latents_n : ℕ)
    → 1 ≤ state
    → 16 ≤ window
    → IsChoice n window latents_n state (first_choice state (2 ^ n) window latents_n)
first_choice-IsChoice state n window latents_n started wide = record {
  n_counts = length-replicate (min window latents_n) 1;
  counts = All-replicate (IsCount state) (min window latents_n) 1 (omega arith);
  n_table = length-replicate (2 * 2 ^ n) 0;
  table = λ j. rw (get-zeros (2 * 2 ^ n) j) started;
  n_proposed = refl;
  proposed = first_proposed state window 16 0 started wide;
}

-- The window has at least 16 latents and at most 2^32, the number of latents that are given is
-- at most 2^20, and there are fewer than 2^32 latents. Then choosing lookbacks succeeds, with no
-- read or write out of range: there is one lookback for each latent that is not given, and each is
-- at least 1 and stays within the latents before its own and within the window.
pub choose_lookbacks-AreLookbacks :
    (w : ℕ) (config : DeltaLookbackConfig) (latents : List ℕ)
    → 4 ≤ config.window_n_log
    → config.window_n_log ≤ 32
    → config.state_n_log ≤ 20
    → length latents < 2 ^ 32
    → (ks : List ℕ) × (choose_lookbacks w config latents ≡ ok ks)
      × (length ks ≡ length latents - state_n config)
      × AreLookbacks (window_n config) (state_n config) ks
unfolding choose_lookbacks state_n window_n
choose_lookbacks-AreLookbacks w config latents lo hi given fits =
    let m : ℕ = config.window_n_log in
    let s : ℕ = 2 ^ config.state_n_log in
    let s_bound : s ≤ 2 ^ 20 = pow_mono config.state_n_log 20 given in
    let state : shl 64 1 config.state_n_log ≡ s = omega (arith, s_bound) in
    let m_bound : 2 ^ (m + 1) ≤ 2 ^ 33 = pow_mono (m + 1) 33 (omega arith) in
    let m_le : 2 ^ m ≤ 2 ^ 32 = pow_mono m 32 hi in
    let window : shl 64 1 m ≡ 2 ^ m = omega (arith, m_le) in
    let table : shl 64 1 (m + 1) ≡ 2 ^ (m + 1) = omega (arith, m_bound) in
    let wide : 16 ≤ 2 ^ m = pow_mono 4 m lo in
    rw (state, window, table)
      (elim (Bool-cases (leb (length latents) s)) [
        | inl few ↦ ([], rw few refl, omega (arith, leb→le (length latents) s few), tt)
        | inr many ↦
            let more : s < length latents = leb-false (length latents) s many in
            let (ks, runs, len, h) =
              choose_each_lem w (m + 1) (2 ^ m) latents wide fits (length latents - s) s
                (first_choice s (2 ^ (m + 1)) (2 ^ m) (length latents))
                (two-pow-pos config.state_n_log) (omega (arith, more))
                (first_choice-IsChoice s (m + 1) (2 ^ m) (length latents)
                  (two-pow-pos config.state_n_log) wide) in
            (ks, rw (many, le→ltb (2 ^ m) 16 wide) runs, len, h)
      ])
