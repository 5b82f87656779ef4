-- ===== src/Sort/Heap.antt =====
-- Sifting down keeps and restores the order of the heap in pco/src/sort_utils.rs.
use pcodec.Common.{
  ℕ, zero, suc, ◌+◌, ◌-◌, ◌*◌, ◌/◌, ◌≤◌, ◌<◌, ◌≡◌, ◌≢◌, ◌⊎◌, inl, inr, refl, arith, leb, ltb, ◌==◌,
  if◌then◌else◌, Bool-cases, List, length, get_or, set, get_or-set, length-set, Rearranged,
  Rearranged-refl, Rearranged-swap, in_turn, ltb→lt, leb-false, ==→eq,
}
use pcodec.Errors.{Returns, returns, Returns-bind, Returns-map, Returns-if}
use pcodec.Slice.{index-eq-get_or, swap-eq-ok}
use pcodec.Sort.Heapsort.{greater_child, sift_down}

abbrev pub key : List ℕ → ℕ → ℕ
key x i = get_or x i 0

abbrev pub parent : ℕ → ℕ
parent c = (c - 1) / 2

-- No node is above its parent, where the parent stands at `lo` or behind it.
abbrev pub IsHeapFrom : ℕ → List ℕ → Type 0
IsHeapFrom lo x = (c : ℕ) → 0 < c → c < length x → lo ≤ parent c → key x c ≤ key x (parent c)

abbrev pub swapped : List ℕ → ℕ → ℕ → List ℕ
swapped x i j = set (set x i (key x j)) j (key x i)

-- The order holds but for the children of `node`, and around it.
pub record IsSifting (lo : ℕ) (x : List ℕ) (node : ℕ) : Type 0 where
  pub others :
      (c : ℕ) → 0 < c → c < length x → lo ≤ parent c → parent c ≢ node → key x c ≤ key x (parent c)
  pub around :
      (c : ℕ)
      → 0 < c
      → c < length x
      → parent c ≡ node
      → 0 < node
      → lo ≤ parent node
      → key x c ≤ key x (parent node)

record IsGreaterChild (x : List ℕ) (node m : ℕ) : Type 0 where
  inside : m < length x
  child : (m ≡ 2 * node + 1) ⊎ (m ≡ 2 * node + 2)
  greatest : (c : ℕ) → 0 < c → c < length x → parent c ≡ node → key x c ≤ key x m

abbrev pub Sifted : ℕ → List ℕ → List ℕ → Type 0
Sifted lo x y = IsHeapFrom lo y × Rearranged y x

pub length-swapped : (x : List ℕ) (i j : ℕ) → length (swapped x i j) ≡ length x
length-swapped x i j = rw (length-set, length-set) refl

pub key-swapped :
    (x : List ℕ) (i j c : ℕ)
    → i < length x
    → j < length x
    → key (swapped x i j) c ≡ (if j == c then key x i else if i == c then key x j else key x c)
key-swapped x i j c hi hj =
    rw
      (
        get_or-set (set x i (key x j)) j c (key x i) 0 (rw length-set hj),
        get_or-set x i c (key x j) 0 hi,
      )
      refl

children : (node c : ℕ) → 0 < c → parent c ≡ node → (c ≡ 2 * node + 1) ⊎ (c ≡ 2 * node + 1 + 1)
children node c p r = elim (Bool-cases (c == 2 * node + 1)) [
  | inl left ↦ inl (==→eq c (2 * node + 1) left)
  | inr other ↦ inr (ground (arith, other))
]

greater_child-IsGreaterChild :
    (x : List ℕ) (node : ℕ)
    → 2 * node + 1 < length x
    → Returns (IsGreaterChild x node) (greater_child x (2 * node + 1))
unfolding greater_child
greater_child-IsGreaterChild x node h =
    Returns-if (ltb (2 * node + 1 + 1) (length x))
      (λ two.
        let both : 2 * node + 1 + 1 < length x = ltb→lt (2 * node + 1 + 1) (length x) two in
        rw (index-eq-get_or x (2 * node + 1) 0 h, index-eq-get_or x (2 * node + 1 + 1) 0 both)
          (returns (record {
            inside = ground (arith, both);
            child = elim (Bool-cases (ltb (key x (2 * node + 1)) (key x (2 * node + 1 + 1)))) [
              | inl right ↦ rw right (inr (omega arith))
              | inr left ↦ rw left (inl (omega arith))
            ];
            greatest = λ c p q r. elim (children node c p r) [
              | inl left ↦ rw left (ground arith)
              | inr right ↦ rw right (ground arith)
            ];
          })))
      (λ one.
        returns
          (record { inside = h; child = inl refl; greatest = λ c p q r. ground (arith, one) }))

swapped-IsSifting :
    (lo : ℕ) (x : List ℕ) (node m : ℕ)
    → IsSifting lo x node
    → IsGreaterChild x node m
    → key x node < key x m
    → IsSifting lo (swapped x node m) m
swapped-IsSifting lo x node m s g above =
    let size = length-swapped x node m in
    let at : (c : ℕ)
        → key (swapped x node m) c
          ≡ (if m == c then key x node else if node == c then key x m else key x c) =
      λ c. key-swapped x node m c (omega (arith, g.child, g.inside)) g.inside in
    record {
      others = λ c p q r t.
          ground
            (arith, at c, at (parent c), s.others c, s.around m, g.greatest c, g.child, g.inside);
      around = λ c p q r t u. ground (arith, at c, at (parent m), s.others c, g.child, g.inside);
    }

pub sift_down-Sifted :
    (fuel lo : ℕ) (x : List ℕ) (node : ℕ)
    → node < length x
    → length x < fuel + node
    → IsSifting lo x node
    → Returns (Sifted lo x) (sift_down fuel x node)
unfolding sift_down
sift_down-Sifted zero lo x node here f s = absurd (omega arith)
sift_down-Sifted (suc fuel) lo x node here f s =
    Returns-if (leb (length x) (2 * node + 1))
      (λ leaf. returns ((λ c p q r. ground (arith, s.others c, leaf)), Rearranged-refl x))
      (λ inner.
        let first : 2 * node + 1 < length x = leb-false (length x) (2 * node + 1) inner in
        Returns-bind (greater_child-IsGreaterChild x node first) λ m g.
          rw (index-eq-get_or x node 0 here, index-eq-get_or x m 0 g.inside)
            (Returns-if (leb (key x m) (key x node))
              (λ settled.
                returns (
                  (λ c p q r. ground (arith, s.others c, g.greatest c, settled)),
                  Rearranged-refl x,
                ))
              (λ above. rw (swap-eq-ok x node m 0 here g.inside) (
                Returns-map
                  (sift_down-Sifted fuel lo (swapped x node m) m
                    (omega (arith, g.inside, length-swapped x node m))
                    (omega (arith, f, length-swapped x node m, g.child))
                    (swapped-IsSifting lo x node m s g (leb-false (key x m) (key x node) above)))
                  λ y (heap, mixed).
                    (heap, in_turn mixed (Rearranged-swap x node m 0 here g.inside))))))
