-- ===== src/Ans/Scatter.antt =====
-- Writing a list of symbols to the places of a table one after another, as the loops of
-- `spread_state_symbols` in pco/src/ans/spec.rs do.
use pcodec.Common.{
  get_or-replicate, All-set, ℕ, zero, suc, ◌+◌, ◌≤◌, ◌<◌, ◌≡◌, ◌≢◌, refl, sym, ap, ◌∙◌, arith,
  if◌then◌else◌, ◌==◌, List, [], ◌∷◌, ◌++◌, length, set, get_or, replicate, All, length-set,
  length-replicate, get_or-set_self, get_or-set_ne, get_or_ext, Bool-cases, inl, inr, ==→eq, ==→ne,
}
use pcodec.Ans.Positions.{count}

abbrev pub one_if : ℕ → ℕ → ℕ
one_if x s = if x == s then 1 else 0

pub count-append : (s : ℕ) (xs ys : List ℕ) → count s (xs ++ ys) ≡ count s xs + count s ys
count-append s [] ys = omega arith
count-append s (x ∷ xs) ys = ground (arith, count-append s xs ys)

pub count-replicate_self : (s n : ℕ) → count s (replicate n s) ≡ n
count-replicate_self s zero = refl
count-replicate_self s (suc n) = ground (arith, count-replicate_self s n)

pub count-replicate_ne : (s x n : ℕ) → x ≢ s → count s (replicate n x) ≡ 0
count-replicate_ne s x zero ne = refl
count-replicate_ne s x (suc n) ne = ground (arith, ne, count-replicate_ne s x n ne)

-- A write takes the old symbol out of the table and puts the new one in.
count-set :
    (s i x : ℕ) (g : List ℕ)
    → i < length g
    → count s (set g i x) + one_if (get_or g i 0) s ≡ count s g + one_if x s
count-set s i x [] h = absurd (omega arith)
count-set s zero x (y ∷ g) h = ground arith
count-set s (suc i) x (y ∷ g) h = ground (arith, count-set s i x g (omega arith))

count_zero : (s i : ℕ) (g : List ℕ) → i < length g → count s g ≡ 0 → get_or g i 0 ≢ s
count_zero s i [] h e p = absurd (omega arith)
count_zero s zero (y ∷ g) h e p = ground (arith, p)
count_zero s (suc i) (y ∷ g) h e p = count_zero s i g (omega arith) (ground (arith, e)) p

module _ (p : ℕ → ℕ) where
  -- The symbols from step `t` on are written to the places p(t), p(t + 1), …
  abbrev pub scatter : ℕ → List ℕ → List ℕ → List ℕ
  scatter t [] g = g
  scatter t (x ∷ xs) g = scatter (suc t) xs (set g (p t) x)

  pub length-scatter : (t : ℕ) (xs g : List ℕ) → length (scatter t xs g) ≡ length g
  length-scatter t [] g = refl
  length-scatter t (x ∷ xs) g = length-scatter (suc t) xs (set g (p t) x) ∙ length-set g (p t) x

  pub scatter-append :
      (t : ℕ) (xs ys g : List ℕ)
      → scatter t (xs ++ ys) g ≡ scatter (t + length xs) ys (scatter t xs g)
  scatter-append t [] ys g = ap (λ u. scatter u ys g) (omega arith)
  scatter-append t (x ∷ xs) ys g =
      scatter-append (suc t) xs ys (set g (p t) x)
      ∙ ap (λ u. scatter u ys (scatter (suc t) xs (set g (p t) x))) (omega arith)

  pub All-scatter :
      (P : ℕ → Type 0) (t : ℕ) (xs g : List ℕ) → All P xs → All P g → All P (scatter t xs g)
  All-scatter P t [] g hx hg = hg
  All-scatter P t (x ∷ xs) g (h, hx) hg =
      All-scatter P (suc t) xs (set g (p t) x) hx (All-set P g (p t) x h hg)

module _ (p : ℕ → ℕ) (n bad : ℕ) (inside : (t : ℕ) → t < n → p t < n)
    (injective : (a b : ℕ) → a < n → b < n → p a ≡ p b → a ≡ b) where
  -- The places of the steps to come are still marked as bad.
  abbrev IsFresh : ℕ → List ℕ → Type 0
  IsFresh t g = (u : ℕ) → t ≤ u → u < n → get_or g (p u) 0 ≡ bad

  IsFresh-set : (t x : ℕ) (g : List ℕ) → t < n → IsFresh t g → IsFresh (suc t) (set g (p t) x)
  IsFresh-set t x g lt fresh u le hu =
      get_or-set_ne g (p t) (p u) x 0 (λ e. absurd (omega (arith, injective t u lt hu e)))
      ∙ fresh u (omega arith) hu

  -- Each write adds its symbol and uses up one mark.
  count-scatter :
      (s t : ℕ) (xs g : List ℕ)
      → s ≢ bad
      → length g ≡ n
      → t + length xs ≤ n
      → All (λ x. x < bad) xs
      → IsFresh t g
      → (count s (scatter p t xs g) ≡ count s g + count s xs)
        × (count bad (scatter p t xs g) + length xs ≡ count bad g)
  count-scatter s t [] g ne len room known fresh = omega arith
  count-scatter s t (x ∷ xs) g ne len room (hx, known) fresh =
      let at : p t < length g = rw len (inside t (omega arith)) in
      let old : get_or g (p t) 0 ≡ bad = fresh t (omega arith) (omega arith) in
      let (there, marks) =
        count-scatter s (suc t) xs (set g (p t) x) ne (length-set g (p t) x ∙ len) (omega arith)
          known (IsFresh-set t x g (omega arith) fresh) in
      let one = rw old at (count-set s (p t) x g at) in
      let mark = rw old at (count-set bad (p t) x g at) in
      ground (arith, ne, there, marks, one, mark)

  -- Where the table is not marked, it does not depend on what it started from.
  abbrev Agrees : List ℕ → List ℕ → Type 0
  Agrees g h = (i : ℕ) → i < n → get_or g i 0 ≢ bad → get_or g i 0 ≡ get_or h i 0

  Agrees-scatter :
      (t : ℕ) (xs g h : List ℕ)
      → length g ≡ n
      → length h ≡ n
      → t + length xs ≤ n
      → Agrees g h
      → Agrees (scatter p t xs g) (scatter p t xs h)
  Agrees-scatter t [] g h lg lh room same = same
  Agrees-scatter t (x ∷ xs) g h lg lh room same =
      let at : p t < n = inside t (omega arith) in
      Agrees-scatter (suc t) xs (set g (p t) x) (set h (p t) x) (length-set g (p t) x ∙ lg)
        (length-set h (p t) x ∙ lh) (omega arith)
        λ i lt ne. elim (Bool-cases (p t == i)) [
          | inl e ↦ rw (← ==→eq (p t) i e) (
              get_or-set_self g (p t) x 0 (omega arith)
              ∙ sym (get_or-set_self h (p t) x 0 (omega arith)))
          | inr e ↦
              let apart : p t ≢ i = ==→ne (p t) i e in
              let eg = get_or-set_ne g (p t) i x 0 apart in
              eg ∙ same i lt (λ b. ne (eg ∙ b)) ∙ sym (get_or-set_ne h (p t) i x 0 apart)
        ]

  -- A table all of whose places are written holds each symbol as often as the list.
  pub count-scatter_all :
      (s : ℕ) (xs h : List ℕ)
      → s < bad
      → length h ≡ n
      → length xs ≡ n
      → All (λ x. x < bad) xs
      → count s (scatter p 0 xs h) ≡ count s xs
  count-scatter_all s xs h lt lh lx known =
      let g : List ℕ = replicate n bad in
      let lg : length g ≡ n = length-replicate n bad in
      let fresh : IsFresh 0 g = λ u le hu. get_or-replicate n bad (p u) 0 (inside u hu) in
      let agree0 : Agrees g h = λ i lt ne. absurd (ne (get_or-replicate n bad i 0 lt)) in
      let (there, marks) =
        count-scatter s 0 xs g (λ e. omega (arith, e)) lg (omega arith) known fresh in
      let agree : Agrees (scatter p 0 xs g) (scatter p 0 xs h) =
        Agrees-scatter 0 xs g h lg lh (omega arith) agree0 in
      let marked : count bad (scatter p 0 xs g) ≡ 0 =
        omega (arith, marks, count-replicate_self bad n) in
      let lsg : length (scatter p 0 xs g) ≡ n = length-scatter p 0 xs g ∙ lg in
      let equal : scatter p 0 xs g ≡ scatter p 0 xs h =
        get_or_ext 0 (scatter p 0 xs g) (scatter p 0 xs h)
          (lsg ∙ sym lh ∙ sym (length-scatter p 0 xs h))
          (λ i hi. agree i (rw lsg at hi) (count_zero bad i (scatter p 0 xs g) hi marked)) in
      rw (← equal) (there ∙ omega (arith, count-replicate_ne s bad n (λ e. omega (arith, e))))
