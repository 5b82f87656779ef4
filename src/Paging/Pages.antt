-- ===== src/Paging/Pages.antt =====
-- What PagingSpec::n_per_page of pco/src/chunk_config.rs returns.
use pcodec.Common.{
  ℕ, suc, zero, ◌+◌, ◌-◌, ◌*◌, ◌/◌, ◌%◌, ◌^◌, ◌≤◌, ◌<◌, ◌≡◌, refl, ap, ◌∙◌, arith, ltb, ltb→lt,
  ltb-false, leb, le→leb, ◌==◌, ◌||◌, true, false, List, [], ◌∷◌, ◌++◌, length, drop, replicate,
  All, length-replicate, length-append, Bool-cases, inl, inr, ==→eq, ==→ne, ==_refl, leb→le,
  leb-false, ◌⊎◌,
}
use pcodec.Errors.{ok, err, panic, invalid_argument}
use pcodec.Traps.{add_to_lem, add_to-panic}
use pcodec.Ans.Spec.{sum}
use pcodec.Paging.{
  equal_pages_up_to, exact, div_ceil, fill_prefix, equal_pages, check_pages, sum_from, check_paging,
  n_per_page,
}
use native.Mathlib.Nat.{
  mul-le-mul_right, div-add-mod, mod-lt, mul-le-mul_left, div-lt_iff_lt-mul, le-div_iff_mul-le,
}

sum-append : (xs ys : List ℕ) → sum (xs ++ ys) ≡ sum xs + sum ys
sum-append [] ys = omega arith
sum-append (x ∷ xs) ys = omega (arith, sum-append xs ys)

sum-replicate : (n v : ℕ) → sum (replicate n v) ≡ n * v
sum-replicate zero v = omega arith
sum-replicate (suc n) v = omega (arith, sum-replicate n v)

drop-replicate : (r n v : ℕ) → drop r (replicate (r + n) v) ≡ replicate n v
drop-replicate zero n v = ap (λ m. replicate m v) (omega arith)
drop-replicate (suc r) n v =
    let e : suc r + n ≡ suc (r + n) = omega arith in rw e (drop-replicate r n v)

All-append : (P : ℕ → Type 0) (xs ys : List ℕ) → All P xs → All P ys → All P (xs ++ ys)
All-append P [] ys h k = k
All-append P (x ∷ xs) ys (p, h) k = (p, All-append P xs ys h k)

All-replicate : (P : ℕ → Type 0) (n v : ℕ) → (0 < n → P v) → All P (replicate n v)
All-replicate P zero v h = tt
All-replicate P (suc n) v h = (h (omega arith), All-replicate P n v (λ p. h (omega arith)))

-- A page of nearly the same size as all others.
abbrev pub IsPage : ℕ → ℕ → ℕ → Type 0
IsPage low max_page_n page_n =
    (0 < page_n) × (page_n ≤ max_page_n) × (low ≤ page_n) × (page_n ≤ low + 1)

check_pages_ok :
    (low top : ℕ) (pages : List ℕ) → All (IsPage low top) pages → check_pages pages ≡ ok tt
unfolding check_pages
check_pages_ok low top [] h = refl
check_pages_ok low top (page_n ∷ pages) (p, h) =
    let nonzero : (page_n == 0) ≡ false = ground arith in
    rw nonzero (check_pages_ok low top pages h)

sum_from_lem :
    (acc : ℕ) (pages : List ℕ)
    → acc + sum pages < 2 ^ 64
    → sum_from acc pages ≡ ok (acc + sum pages)
unfolding sum_from
sum_from_lem acc [] h = ap ok (omega arith)
sum_from_lem acc (page_n ∷ pages) h =
    rw (add_to_lem 64 acc page_n (omega (arith, h)))
      (sum_from_lem (acc + page_n) pages (omega (arith, h)) ∙ ap ok (omega arith))

sum_from-panic :
    (acc : ℕ) (pages : List ℕ)
    → acc < 2 ^ 64
    → 2 ^ 64 ≤ acc + sum pages
    → sum_from acc pages ≡ panic
unfolding sum_from
sum_from-panic acc [] start h = absurd (omega arith)
sum_from-panic acc (page_n ∷ pages) start h = elim (Bool-cases (ltb (acc + page_n) (2 ^ 64))) [
  | inl fits ↦
      let word = ltb→lt (acc + page_n) (2 ^ 64) fits in
      rw (add_to_lem 64 acc page_n word)
        (sum_from-panic (acc + page_n) pages word (omega (arith, h)))
  | inr over ↦ rw (add_to-panic 64 acc page_n (ltb-false (acc + page_n) (2 ^ 64) over)) refl
]

module _ (top n : ℕ) (top_pos : 0 < top) (n_pos : 0 < n) (word : n + 1 < 2 ^ 64) where
  abbrev k : ℕ
  k = div_ceil n top

  abbrev low : ℕ
  low = n / k

  abbrev r : ℕ
  r = n % k

  ceiling : n + top - 1 ≡ top * k + (n + top - 1) % top
  ceiling = omega (arith, div-add-mod (n + top - 1) top)

  remainder : (n + top - 1) % top < top
  remainder = mod-lt (n + top - 1) top_pos

  k-pos : 0 < k
  k-pos = (le-div_iff_mul-le top_pos).1 (omega arith)

  enough : n ≤ k * top
  enough = omega (arith, ceiling, remainder)

  k-le : k ≤ n
  k-le =
      let h : n + top - 1 < suc n * top = omega (arith, mul-le-mul_left n top_pos) in
      let below : k < suc n = (div-lt_iff_lt-mul top_pos).1 h in omega arith

  split : n ≡ k * low + r
  split = omega (arith, div-add-mod n k)

  low-pos : 0 < low
  low-pos = (le-div_iff_mul-le k-pos).1 (omega (arith, k-le))

  low-le_all : low ≤ n
  low-le_all = omega (arith, split, mul-le-mul_right low k-pos)

  low-le : low ≤ top
  low-le =
      let below : low < suc top = (div-lt_iff_lt-mul k-pos).1 (omega (arith, enough, k-pos)) in
      omega arith

  high-le : 0 < r → low + 1 ≤ top
  high-le h = elim (Bool-cases (leb top low)) [
    | inl over ↦
        let more : k * top ≤ k * low = mul-le-mul_left k (leb→le top low over) in
        absurd (omega (arith, more, split, enough, h))
    | inr under ↦ omega (arith, leb-false top low under)
  ]

  abbrev pages : List ℕ
  pages = replicate r (low + 1) ++ replicate (k - r) low

  r-lt : r < k
  r-lt = mod-lt n k-pos

  pages-IsPage : All (IsPage low top) pages
  pages-IsPage =
      All-append (IsPage low top) (replicate r (low + 1)) (replicate (k - r) low)
        (All-replicate (IsPage low top) r (low + 1)
          (λ p. (omega arith, high-le p, omega arith, omega arith)))
        (All-replicate (IsPage low top) (k - r) low
          (λ p. (low-pos, low-le, omega arith, omega arith)))

  sum-pages : sum pages ≡ n
  sum-pages =
      let cut : k ≡ r + (k - r) = omega (arith, r-lt) in
      sum-append (replicate r (low + 1)) _
      ∙ rw (sum-replicate r (low + 1), sum-replicate (k - r) low)
          (omega (arith, split, ap (λ (t : ℕ). t * low) cut))

  length-pages : length pages ≡ k
  length-pages =
      length-append (replicate r (low + 1)) _
      ∙ rw (length-replicate, length-replicate) (omega (arith, r-lt))

  filled : fill_prefix r (low + 1) (replicate k low) ≡ ok pages
  unfolding fill_prefix
  filled =
      let cut : k ≡ r + (k - r) = omega (arith, r-lt) in
      rw (length-replicate, le→leb r k (omega (arith, r-lt)))
        (ap (λ ys. ok (replicate r (low + 1) ++ ys))
          (ap (λ m. drop r (replicate m low)) cut ∙ drop-replicate r (k - r) low))

  asserted : (r == 0 || leb (low + 1) top) ≡ true
  asserted = elim (Bool-cases (r == 0)) [
    | inl e ↦ rw e refl
    | inr ne ↦ rw (ne, le→leb (low + 1) top (high-le (ground arith))) refl
  ]

  equal_pages_ok : equal_pages top n ≡ ok pages
  unfolding equal_pages
  equal_pages_ok =
      let nonzero : (top == 0) ≡ false = ground arith in
      rw (nonzero, add_to_lem 64 low 1 (omega (arith, low-le_all, word)), asserted) filled

  -- Equal pages for a positive count of numbers that is below 2^64 - 1 and a positive largest page size: there is no error
  -- or panic, there are as few pages as the largest page size allows, their sizes add up to the
  -- count, differ by at most one, and are at least 1 and at most the largest page size.
  pub n_per_page-IsPage :
      (pages' : List ℕ) × (n_per_page (equal_pages_up_to top) n ≡ ok pages')
      × (sum pages' ≡ n)
      × (length pages' ≡ div_ceil n top)
      × All (IsPage (n / div_ceil n top) top) pages'
  unfolding n_per_page check_paging
  n_per_page-IsPage =
      let nonzero : (n == 0) ≡ false = ground arith in
      let summed : sum_from 0 pages ≡ ok n =
        sum_from_lem 0 pages (omega (arith, sum-pages, word)) ∙ ap ok (omega (arith, sum-pages)) in
      (
        pages,
        rw (nonzero, equal_pages_ok, summed, ==_refl n, check_pages_ok low top pages pages-IsPage),
        sum-pages,
        length-pages,
        pages-IsPage,
      )

-- The pages are accepted just when none is empty.
check_pages_cases :
    (pages : List ℕ)
    → ((check_pages pages ≡ ok tt) × All (λ p. 0 < p) pages)
      ⊎ ((check_pages pages ≡ err invalid_argument) × ¬ All (λ p. 0 < p) pages)
unfolding check_pages
check_pages_cases [] = inl (refl, tt)
check_pages_cases (page_n ∷ pages) = elim (Bool-cases (page_n == 0)) [
  | inl e ↦ inr (rw e refl, λ h. omega (arith, h.0, ==→eq page_n 0 e))
  | inr ne ↦ elim (check_pages_cases pages) [
    | inl (e, h) ↦ inl (rw (ne, e) refl, (ground arith, h))
    | inr (e, h) ↦ inr (rw (ne, e) refl, λ all. h all.1)
  ]
]

-- The pages that the caller gives are taken as they are where they add up to the count of numbers and
-- none is empty, and their sum is a usize; otherwise, where their sum is a usize, the error is an invalid
-- argument; a sum that is too large for a usize is an overflow, which is a panic.
pub n_per_page-exact :
    (pages : List ℕ) (n : ℕ)
    → ((n_per_page (exact pages) n ≡ ok pages)
        × (sum pages < 2 ^ 64)
        × (sum pages ≡ n)
        × All (λ p. 0 < p) pages)
      ⊎ (((n_per_page (exact pages) n ≡ err invalid_argument)
            × (sum pages < 2 ^ 64)
            × ¬ ((sum pages ≡ n) × All (λ p. 0 < p) pages))
          ⊎ ((n_per_page (exact pages) n ≡ panic) × (2 ^ 64 ≤ sum pages)))
unfolding n_per_page check_paging
n_per_page-exact pages n = elim (Bool-cases (ltb (sum pages) (2 ^ 64))) [
  | inl fits ↦
      let word = ltb→lt (sum pages) (2 ^ 64) fits in
      let summed : sum_from 0 pages ≡ ok (sum pages) =
        sum_from_lem 0 pages (omega (arith, word)) ∙ ap ok (omega arith) in
      elim (Bool-cases (sum pages == n)) [
        | inl e ↦ elim (check_pages_cases pages) [
          | inl (runs, h) ↦ inl (rw (summed, e, runs) refl, word, ==→eq (sum pages) n e, h)
          | inr (fails, h) ↦ inr (inl (rw (summed, e, fails) refl, word, λ all. h all.1))
        ]
        | inr ne ↦ inr (inl (rw (summed, ne) refl, word, λ all. ==→ne (sum pages) n ne all.0))
      ]
  | inr over ↦
      let large = ltb-false (sum pages) (2 ^ 64) over in
      inr (inr (rw (sum_from-panic 0 pages (omega arith) (omega (arith, large))) refl, large))
]
