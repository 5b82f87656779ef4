-- ===== src/Sort/Sorting.antt =====
-- The heapsort of pco/src/sort_utils.rs sorts.
use pcodec.Common.{
  ℕ, zero, suc, ◌+◌, ◌-◌, ◌/◌, ◌≤◌, ◌<◌, ◌≡◌, refl, ap, subst, ◌∙◌, arith, ◌==◌, if◌then◌else◌,
  List, [], ◌∷◌, ◌++◌, length, set, take, drop, All, All_of_get_or, get_or-All, get_or-take,
  get_or-append, append_assoc, append-nil, All_zip, All-before, length-append, length-take,
  length-set, take-length_append, drop-length_append, Rearranged, Rearranged-refl, Rearranged-sym,
  Rearranged-swap, Rearranged-before, Rearranged-length, Rearranged-All, in_turn, IsAscending,
}
use pcodec.Errors.{ok, Returns, returns, Returns-bind, Returns-map}
use pcodec.Slice.{swap, swap-eq-ok}
use pcodec.Sort.Heapsort.{build_heap, pop_heap, heapsort}
use pcodec.Sort.Heap.{
  key, parent, swapped, length-swapped, key-swapped, IsHeapFrom, IsSifting, Sifted,
  sift_down-Sifted,
}

build_heap-Sifted :
    (i : ℕ) (x : List ℕ) → i ≤ length x / 2 → IsHeapFrom i x → Returns (Sifted 0 x) (build_heap i x)
unfolding build_heap
build_heap-Sifted zero x h heap = returns (heap, Rearranged-refl x)
build_heap-Sifted (suc i) x h heap =
    let sifting : IsSifting i x i = record {
      others = λ c p q r t. heap c p q (omega (arith, r, t));
      around = λ c p q r t u. absurd (omega (arith, t, u));
    } in
    Returns-bind (sift_down-Sifted (length x + 1) i x i (omega (arith, h)) (omega arith) sifting)
      λ y (heap', mixed).
        Returns-map (build_heap-Sifted i y (omega (arith, h, Rearranged-length mixed)) heap')
          λ z (heap'', mixed'). (heap'', in_turn mixed' mixed)

root_below :
    (k : ℕ) (x : List ℕ) (c : ℕ) → IsHeapFrom 0 x → c < k → c < length x → key x c ≤ key x 0
root_below zero x c h f p = absurd (omega arith)
root_below (suc k) x zero h f p = omega arith
root_below (suc k) x (suc c) h f p = omega (
  arith,
  h (suc c) (omega arith) p (omega arith),
  root_below k x (parent (suc c)) h (omega (arith, f)) (omega (arith, p)),
)

set-append : (xs ys : List ℕ) (i v : ℕ) → i < length xs → set (xs ++ ys) i v ≡ set xs i v ++ ys
set-append [] ys i v h = absurd (omega arith)
set-append (x ∷ xs) ys zero v h = refl
set-append (x ∷ xs) ys (suc i) v h = ap (◌∷◌ x) (set-append xs ys i v (omega arith))

swapped-append :
    (xs ys : List ℕ) (i j : ℕ)
    → i < length xs
    → j < length xs
    → swapped (xs ++ ys) i j ≡ swapped xs i j ++ ys
swapped-append xs ys i j hi hj =
    rw (get_or-append xs ys i 0 hi, get_or-append xs ys j 0 hj, set-append xs ys i (key xs j) hi)
      (set-append (set xs i (key xs j)) ys j (key xs i) (rw length-set hj))

-- A list without its last element, and that element.
take_last : (n : ℕ) (xs : List ℕ) → length xs ≡ suc n → xs ≡ take n xs ++ (key xs n ∷ [])
take_last n [] e = absurd (omega arith)
take_last zero (x ∷ []) e = refl
take_last zero (x ∷ (y ∷ xs)) e = absurd (omega arith)
take_last (suc n) (x ∷ xs) e = ap (◌∷◌ x) (take_last n xs (omega arith))

-- A turn of the loop: the root goes behind the heap, whose nodes stay in order but for the new root.
record Popped (i : ℕ) (front back : List ℕ) : Type 0 where
  heap : List ℕ
  size : length heap ≡ suc i
  runs : swap (front ++ back) 0 (suc i) ≡ ok (heap ++ (key front 0 ∷ back))
  sifting : IsSifting 0 heap 0
  same : Rearranged (heap ++ (key front 0 ∷ [])) front

pop_lem :
    (i : ℕ) (front back : List ℕ)
    → length front ≡ suc (suc i)
    → IsHeapFrom 0 front
    → Popped i front back
pop_lem i front back n heap =
    let sw : List ℕ = swapped front 0 (suc i) in
    let n_sw : length sw ≡ suc (suc i) = length-swapped front 0 (suc i) ∙ n in
    let at : (c : ℕ)
        → key sw c ≡ (
            if suc i == c then key front 0 else if 0 == c then key front (suc i) else key front c) =
      λ c. key-swapped front 0 (suc i) c (omega (arith, n)) (omega (arith, n)) in
    let last : key sw (suc i) ≡ key front 0 = ground (arith, at (suc i)) in
    let split : sw ≡ take (suc i) sw ++ (key front 0 ∷ []) =
      rw last at (take_last (suc i) sw n_sw) in
    let n_heap : length (take (suc i) sw) ≡ suc i = omega (arith, length-take (suc i) sw, n_sw) in
    record {
      heap = take (suc i) sw;
      size = n_heap;
      runs =
          swap-eq-ok (front ++ back) 0 (suc i) 0 (omega (arith, n, length-append front back))
            (omega (arith, n, length-append front back))
          ∙ ap ok (
              swapped-append front back 0 (suc i) (omega (arith, n)) (omega (arith, n))
              ∙ ap (λ xs. xs ++ back) split
              ∙ append_assoc (take (suc i) sw) (key front 0 ∷ []) back);
      sifting = record {
        others = λ c p q r t.
            rw
              (
                get_or-take (suc i) c sw 0 (omega (arith, q, n_heap)),
                get_or-take (suc i) (parent c) sw 0 (omega (arith, q, n_heap)),
              )
              (ground (arith, at c, at (parent c), heap c, n, n_heap));
        around = λ c p q r t u. absurd (omega arith);
      };
      same =
          subst (λ xs. Rearranged xs front) split
            (Rearranged-swap front 0 (suc i) 0 (omega (arith, n)) (omega (arith, n)));
    }

pop_heap-IsAscending :
    (i : ℕ) (front back : List ℕ)
    → length front ≡ suc i
    → IsHeapFrom 0 front
    → IsAscending back
    → All (λ y. All (λ z. y ≤ z) back) front
    → Returns (λ out. IsAscending out × Rearranged out (front ++ back)) (pop_heap i (front ++ back))
unfolding pop_heap
pop_heap-IsAscending zero [] back n heap asc below = absurd (omega arith)
pop_heap-IsAscending zero (x ∷ []) back n heap asc below =
    returns ((below.0, asc), Rearranged-refl (x ∷ back))
pop_heap-IsAscending zero (x ∷ (y ∷ front)) back n heap asc below = absurd (omega arith)
pop_heap-IsAscending (suc i) front back n heap asc below =
    let p = pop_lem i front back n heap in
    let root : ℕ = key front 0 in
    let greatest : All (λ y. y ≤ root) front =
      All_of_get_or _ front 0 λ c l. root_below (suc c) front c heap (omega arith) l in
    let first : All (λ z. root ≤ z) back = get_or-All _ front 0 0 below (omega (arith, n)) in
    let rest : All (λ y. All (λ z. y ≤ z) (root ∷ back)) front = All_zip _ _ front greatest below in
    let taken : take (suc i) (p.heap ++ (root ∷ back)) ≡ p.heap =
      subst (λ k. take k (p.heap ++ (root ∷ back)) ≡ p.heap) p.size
        (take-length_append p.heap (root ∷ back)) in
    let dropped : drop (suc i) (p.heap ++ (root ∷ back)) ≡ root ∷ back =
      subst (λ k. drop k (p.heap ++ (root ∷ back)) ≡ root ∷ back) p.size
        (drop-length_append p.heap (root ∷ back)) in
    rw (p.runs, taken, dropped)
      (Returns-bind
        (sift_down-Sifted (suc i + 1) 0 p.heap 0 (omega (arith, p.size)) (omega (arith, p.size))
          p.sifting)
        λ heap' (ordered, mixed).
          let around : Rearranged (heap' ++ (root ∷ [])) front =
            in_turn (Rearranged-before (root ∷ []) mixed) p.same in
          let below' : All (λ y. All (λ z. y ≤ z) (root ∷ back)) heap' =
            All-before _ heap' (root ∷ []) (Rearranged-All _ (Rearranged-sym around) rest) in
          Returns-map
            (pop_heap-IsAscending i heap' (root ∷ back) (Rearranged-length mixed ∙ p.size) ordered
              (first, asc) below')
            λ out (asc', same). (
              asc',
              in_turn same (
                  subst (λ xs. Rearranged xs (front ++ back)) (append_assoc heap' (root ∷ []) back)
                    (Rearranged-before back around)),
            ))

-- Heapsort ends without an access out of range and without its fuel running out, and gives the same latents in ascending
-- order.
pub heapsort-IsAscending :
    (latents : List ℕ)
    → Returns (λ out. IsAscending out × Rearranged out latents) (heapsort latents)
unfolding heapsort
heapsort-IsAscending [] = returns (tt, Rearranged-refl [])
heapsort-IsAscending (x ∷ xs) =
    let one : suc (length xs) - 1 ≡ length xs = omega arith in
    rw one (
      Returns-bind
        (build_heap-Sifted (length (x ∷ xs) / 2) (x ∷ xs) (omega arith)
          (λ c p q r. absurd (omega (arith, r))))
        λ heap (ordered, mixed).
          Returns-map
            (subst
              (λ ys. Returns (λ out. IsAscending out × Rearranged out ys) (pop_heap (length xs) ys))
              (append-nil heap)
              (pop_heap-IsAscending (length xs) heap [] (Rearranged-length mixed) ordered tt
                (All_of_get_or _ heap 0 λ i l. tt)))
            λ out (asc, same). (asc, in_turn same mixed))
