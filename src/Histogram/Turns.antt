-- ===== src/Histogram/Turns.antt =====
-- The run of equal latents around an index of an ascending slice, as pco/src/histograms.rs finds it.
use pcodec.Common.{
  ℕ, zero, suc, ◌+◌, ◌-◌, ◌≤◌, ◌<◌, ◌≡◌, ◌≢◌, inl, inr, sym, ap, ◌∙◌, arith, ◌==◌, ==→eq, ==→ne,
  ltb, ltb→lt, ltb-false, true, Bool-cases, List, [], ◌∷◌, length, get_or, take, drop, All,
  All_of_get_or, get_or-All, get_or-take, get_or-drop, length-take, length-drop, IsAscending,
}
use pcodec.Errors.{Returns, returns, Returns-map}
use pcodec.Slice.{index-eq-get_or}
use pcodec.Histogram.Builder.{run_start, run_end}

pub ascending_le :
    (xs : List ℕ) (i j : ℕ) → IsAscending xs → i ≤ j → j < length xs → get_or xs i 0 ≤ get_or xs j 0
ascending_le [] i j h le lt = absurd (omega arith)
ascending_le (x ∷ xs) zero zero h le lt = omega arith
ascending_le (x ∷ xs) zero (suc j) (hx, h) le lt = get_or-All _ xs j 0 hx (omega arith)
ascending_le (x ∷ xs) (suc i) zero h le lt = absurd (omega arith)
ascending_le (x ∷ xs) (suc i) (suc j) (hx, h) le lt =
    ascending_le xs i j h (omega arith) (omega arith)

pub IsAscending-drop : (n : ℕ) (xs : List ℕ) → IsAscending xs → IsAscending (drop n xs)
IsAscending-drop zero xs h = h
IsAscending-drop (suc n) [] h = tt
IsAscending-drop (suc n) (x ∷ xs) (hx, h) = IsAscending-drop n xs h

-- The latents of value `v` are those from `l` to `r`.
pub record IsRun (v : ℕ) (latents : List ℕ) (l r : ℕ) : Type 0 where
  pub some : l < r
  pub inside : r ≤ length latents
  pub before : All (λ y. y < v) (take l latents)
  pub run : All (λ y. y ≡ v) (take (r - l) (drop l latents))
  pub after : All (λ y. v < y) (drop r latents)

module _ (v : ℕ) (latents : List ℕ) where
  -- Where the loop down from `from` stops.
  record StartsAt (stop l : ℕ) : Type 0 where
    le : l ≤ stop
    same : (i : ℕ) → l ≤ i → i < stop → get_or latents i 0 ≡ v
    other : (i : ℕ) → i + 1 ≡ l → get_or latents i 0 ≢ v

  same_from :
      (l l' : ℕ)
      → (get_or latents l 0 == v) ≡ true
      → StartsAt l l'
      → (i : ℕ) → l' ≤ i
      → i < suc l
      → get_or latents i 0 ≡ v
  same_from l l' equal s i p q = elim (Bool-cases (i == l)) [
    | inl here ↦ ap (λ j. get_or latents j 0) (==→eq i l here) ∙ ==→eq (get_or latents l 0) v equal
    | inr there ↦ s.same i p (ground (arith, there))
  ]

  run_start_lem : (l : ℕ) → l ≤ length latents → Returns (StartsAt l) (run_start v latents l)
  unfolding run_start
  run_start_lem zero h = returns (record {
    le = omega arith;
    same = λ i p q. absurd (omega arith);
    other = λ i p. absurd (omega arith);
  })
  run_start_lem (suc l) h =
      rw (index-eq-get_or latents l 0 (omega arith)) (elim (Bool-cases (get_or latents l 0 == v)) [
        | inl equal ↦ rw equal (
            Returns-map (run_start_lem l (omega arith)) λ l' s. record {
              le = omega (arith, s.le);
              same = λ i p q. same_from l l' equal s i p q;
              other = s.other;
            })
        | inr unequal ↦ rw unequal (
            returns (record {
              le = omega arith;
              same = λ i p q. absurd (omega arith);
              other = λ i p e.
                  ==→ne (get_or latents l 0) v unequal
                    (ap (λ j. get_or latents j 0) {x = l} {y = i} (omega (arith, p)) ∙ e);
            }))
      ])

-- The loop up, on what is left of the slice: how many latents it passes.
run_end_lem :
    (v : ℕ) (xs : List ℕ) (r : ℕ)
    → (m : ℕ) × (run_end v xs r ≡ r + m)
      × (m ≤ length xs)
      × All (λ y. y ≡ v) (take m xs)
      × (m < length xs → get_or xs m 0 ≢ v)
unfolding run_end
run_end_lem v [] r = (0, omega arith, omega arith, tt, λ h. absurd (omega arith))
run_end_lem v (x ∷ xs) r = elim (Bool-cases (x == v)) [
  | inl equal ↦
      let (m, e, le, all, stop) = run_end_lem v xs (r + 1) in
      (
        suc m,
        rw equal (omega (arith, e)),
        omega (arith, le),
        (==→eq x v equal, all),
        λ h. stop (omega arith),
      )
  | inr unequal ↦ (0, rw unequal (omega arith), omega arith, tt, λ h. ==→ne x v unequal)
]

-- What the two loops say of each latent.
module _ (latents : List ℕ) (target : ℕ) (asc : IsAscending latents) (some : 1 ≤ target)
    (le : target ≤ length latents) where
  value : ℕ
  value = get_or latents (target - 1) 0

  before_run :
      (l : ℕ) → StartsAt value latents (target - 1) l → (i : ℕ) → i < l → get_or latents i 0 < value
  unfolding value
  before_run l s i h =
      let first =
        ascending_le latents i (l - 1) asc (omega arith) (omega (arith, s.le, some, le)) in
      let second =
        ascending_le latents (l - 1) (target - 1) asc (omega (arith, s.le))
          (omega (arith, some, le)) in
      omega (arith, first, second, s.other (l - 1) (omega arith))

  in_run :
      (l m : ℕ)
      → StartsAt value latents (target - 1) l
      → m ≤ length latents - target
      → All (λ y. y ≡ value) (take m (drop target latents))
      → (i : ℕ) → i < target + m - l
      → get_or latents (l + i) 0 ≡ value
  unfolding value
  in_run l m s m_le all i h = elim (Bool-cases (ltb (l + i) (target - 1))) [
    | inl early ↦ s.same (l + i) (omega arith) (ltb→lt (l + i) (target - 1) early)
    | inr later ↦ elim (Bool-cases (l + i == target - 1)) [
      | inl here ↦ ap (λ j. get_or latents j 0) (==→eq (l + i) (target - 1) here)
      | inr past ↦
          let j : ℕ = l + i - target in
          let at : l + i ≡ target + j =
            omega (arith, ltb-false (l + i) (target - 1) later, ==→ne (l + i) (target - 1) past) in
          let small : j < m = omega (arith, at, h) in
          ap (λ q. get_or latents q 0) at
          ∙ sym (get_or-drop target j latents 0)
          ∙ sym (get_or-take m j (drop target latents) 0 small)
          ∙ get_or-All _ (take m (drop target latents)) j 0 all (
              omega (
                arith,
                length-take m (drop target latents),
                length-drop target latents,
                small,
                m_le,
              ))
    ]
  ]

  after_run :
      (m : ℕ)
      → (m < length (drop target latents) → get_or (drop target latents) m 0 ≢ value)
      → (i : ℕ) → target + m + i < length latents
      → value < get_or latents (target + m + i) 0
  unfolding value
  after_run m stop i h =
      let first =
        ascending_le latents (target - 1) (target + m) asc (omega arith) (omega (arith, h)) in
      let second = ascending_le latents (target + m) (target + m + i) asc (omega arith) h in
      let ne = stop (omega (arith, h, length-drop target latents)) in
      omega (arith, first, second, ne, get_or-drop target m latents 0)

  -- The loops find the run of the latent before `target`.
  pub run_start-IsRun :
      Returns
        (λ l.
          IsRun
            (get_or latents (target - 1) 0)
            latents
            l
            (run_end (get_or latents (target - 1) 0) (drop target latents) target))
        (run_start (get_or latents (target - 1) 0) latents (target - 1))
  unfolding value
  run_start-IsRun =
      let (m, e, m_le, all, stop) = run_end_lem value (drop target latents) target in
      let n_behind : length (drop target latents) ≡ length latents - target =
        length-drop target latents in
      Returns-map (run_start_lem value latents (target - 1) (omega (arith, le))) λ l s.
        rw e (record {
          some = omega (arith, s.le, some);
          inside = omega (arith, m_le, n_behind, le);
          before = All_of_get_or _ (take l latents) 0 λ i h.
              let small : i < l = omega (arith, h, length-take l latents) in
              rw (get_or-take l i latents 0 small) (before_run l s i small);
          run = All_of_get_or _ (take (target + m - l) (drop l latents)) 0 λ i h.
              let small : i < target + m - l =
                omega (arith, h, length-take (target + m - l) (drop l latents)) in
              rw
                (get_or-take (target + m - l) i (drop l latents) 0 small, get_or-drop l i latents 0)
                (in_run l m s (omega (arith, m_le, n_behind)) all i small);
          after = All_of_get_or _ (drop (target + m) latents) 0 λ i h.
              rw (get_or-drop (target + m) i latents 0)
                (after_run m stop i (omega (arith, h, length-drop (target + m) latents)));
        })
