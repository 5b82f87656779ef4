-- ===== src/Ans/Positions.antt =====
-- What the tables of pco/src/ans hold, described by the states at which a symbol stands: the encoder
-- keeps them as `next_states`, and the decoder's node at the j-th of them has the counter `x_s` = weight + j.
use pcodec.Common.{
  ℕ, zero, suc, ◌+◌, ◌-◌, ◌^◌, ◌≤◌, ◌<◌, ◌≡◌, refl, ap, ◌∙◌, arith, if◌then◌else◌, ◌==◌, List, [],
  ◌∷◌, ◌++◌, length, set, get_or, All, append-nil, append_assoc, length-set, Bool, true, false,
  Bool-cases, inl, inr, ==→eq, ==→ne,
}
use pcodec.Machine.{u32}
use pcodec.Traps.{add_to, add_to-eq-ok}
use pcodec.Errors.{ok, >>=-eq-ok, ok-injective}
use pcodec.Slice.{index, assign, assign-eq-ok, index-lt, index_ok, index-set_self, index-set_ne}
use pcodec.Ans.Encoding.{SymbolInfo, push_state, push_states}
use pcodec.Ans.Decoding.{Node, make_node, make_nodes}

-- The states of the symbol `s` in a table that starts at the state `start`.
abbrev pub positions : ℕ → List ℕ → ℕ → List ℕ
positions s [] start = []
positions s (y ∷ ys) start =
    let rest = positions s ys (start + 1) in if y == s then start ∷ rest else rest

abbrev pub count : ℕ → List ℕ → ℕ
count s [] = 0
count s (y ∷ ys) = let rest = count s ys in if y == s then suc rest else rest

pub length-positions :
    (s : ℕ) (ys : List ℕ) (start : ℕ) → length (positions s ys start) ≡ count s ys
length-positions s [] start = refl
length-positions s (y ∷ ys) start = ground (arith, length-positions s ys (start + 1))

pub count-le : (s : ℕ) (ys : List ℕ) → count s ys ≤ length ys
count-le s [] = omega arith
count-le s (y ∷ ys) = ground (arith, count-le s ys)

pub positions_bounds :
    (s : ℕ) (ys : List ℕ) (start j q : ℕ)
    → index (positions s ys start) j ≡ ok q
    → (start ≤ q) × (q < start + length ys)
positions_bounds s [] start j q h = absurd (cc)
positions_bounds s (y ∷ ys) start zero q h =
    ground (arith, positions_bounds s ys (start + 1) zero q)
positions_bounds s (y ∷ ys) start (suc j) q h =
    ground
      (arith, positions_bounds s ys (start + 1) j q, positions_bounds s ys (start + 1) (suc j) q)

abbrev pub with_states : SymbolInfo → List ℕ → SymbolInfo
with_states info states = record info { next_states = info.next_states ++ states }

-- The symbol that is pushed gains the state; the others stay as they are.
push_index :
    (infos : List SymbolInfo) (y s state : ℕ) (v info : SymbolInfo)
    → y < length infos
    → index infos y ≡ ok v
    → index infos s ≡ ok info
    → index (set infos y (push_state v state)) s
      ≡ ok (if y == s then push_state info state else info)
push_index infos y s state v info known e h = elim (Bool-cases (y == s)) [
  | inl same ↦
      rw (same, ← ==→eq y s same)
        (index-set_self infos y _ known
          ∙ ap ok (ap (λ r. push_state r state) (ok-injective v info (rw (← e, ==→eq y s same) h))))
  | inr other ↦ rw (other, index-set_ne infos y s (push_state v state) (==→ne y s other)) h
]

-- A state that is pushed comes before the positions in the rest of the table.
pushed_first :
    (b : Bool) (info : SymbolInfo) (state : ℕ) (rest : List ℕ)
    → with_states (if b then push_state info state else info) rest
      ≡ with_states info (if b then state ∷ rest else rest)
unfolding push_state
pushed_first true info state rest =
    ap (λ states. record info { next_states = states })
      (append_assoc info.next_states (state ∷ []) rest)
pushed_first false info state rest = refl

push_states_cons :
    (size i y : ℕ) (ys : List ℕ) (infos : List SymbolInfo) (v : SymbolInfo)
    → size + i < 2 ^ 32
    → y < length infos
    → index infos y ≡ ok v
    → push_states size i (y ∷ ys) infos
      ≡ push_states size (i + 1) ys (set infos y (push_state v (size + i)))
unfolding push_states
push_states_cons size i y ys infos v fits known e =
    let word : u32 (size + i) ≡ size + i = omega arith in
    rw (e, word, assign-eq-ok infos y (push_state v (size + i)) known)

-- `push_states` succeeds on symbols that are known, and gives each symbol its positions.
pub push_states_lem :
    (size i n : ℕ) (ys : List ℕ) (infos : List SymbolInfo) (s : ℕ) (info : SymbolInfo)
    → size + i + length ys ≤ 2 ^ 32
    → length infos ≡ n
    → All (λ y. y < n) ys
    → index infos s ≡ ok info
    → (infos' : List SymbolInfo) × (push_states size i ys infos ≡ ok infos')
      × (index infos' s ≡ ok (with_states info (positions s ys (size + i))))
unfolding push_states
push_states_lem size i n [] infos s info b len a h =
    (infos, refl, rw (append-nil info.next_states) h)
push_states_lem size i n (y ∷ ys) infos s info b len (known, a) h =
    let in_range : y < length infos = rw len known in
    let (v, e) = index_ok infos y in_range in
    let state : ℕ = size + i in
    let infos1 : List SymbolInfo = set infos y (push_state v state) in
    let (infos', runs, at) =
      push_states_lem size (i + 1) n ys infos1 s (if y == s then push_state info state else info)
        (omega arith) (length-set infos y _ ∙ len) a
        (push_index infos y s state v info in_range e h) in
    let start : size + (i + 1) ≡ size + i + 1 = omega arith in
    (
      infos',
      push_states_cons size i y ys infos v (omega arith) in_range e ∙ runs,
      at ∙ rw start (ap ok (pushed_first (y == s) info state (positions s ys (size + i + 1)))),
    )

pub push_states_ok :
    (size i n : ℕ) (ys : List ℕ) (infos : List SymbolInfo)
    → size + i + length ys ≤ 2 ^ 32
    → length infos ≡ n
    → All (λ y. y < n) ys
    → (infos' : List SymbolInfo) × (push_states size i ys infos ≡ ok infos')
push_states_ok size i n [] infos b len a = (infos, unfold push_states in refl)
push_states_ok size i n (y ∷ ys) infos b len (known, a) =
    let in_range : y < length infos = rw len known in
    let (v, e) = index_ok infos y in_range in
    let (infos', runs) =
      push_states_ok size (i + 1) n ys (set infos y (push_state v (size + i))) (omega arith)
        (length-set infos y _ ∙ len) a in
    (infos', push_states_cons size i y ys infos v (omega arith) in_range e ∙ runs)

module _ (size : ℕ) (offs : List ℕ) where
  pub make_nodes_cons :
      (x_s : List ℕ) (y : ℕ) (ys : List ℕ) (nodes : List Node)
      → make_nodes size offs x_s (y ∷ ys) ≡ ok nodes
      → (v : ℕ) × (node : Node) × (rest : List Node) × (index x_s y ≡ ok v)
        × (make_node size y v (get_or offs y 0) ≡ ok node)
        × (make_nodes size offs (set x_s y (v + 1)) ys ≡ ok rest)
        × (nodes ≡ node ∷ rest)
  unfolding make_nodes
  make_nodes_cons x_s y ys nodes h =
      let (v, e, h1) = >>=-eq-ok (index x_s y) _ h in
      let (node, built, h2) = >>=-eq-ok (make_node size y v (get_or offs y 0)) _ h1 in
      let (grown, more, h3) = >>=-eq-ok (add_to 32 v 1) _ h2 in
      let (x_s', e', h4) = >>=-eq-ok (assign x_s y grown) _ h3 in
      let (rest, e'', h5) = >>=-eq-ok (make_nodes size offs x_s' ys) _ h4 in
      let is_set : x_s' ≡ set x_s y (v + 1) =
        cc (e', add_to-eq-ok 32 v 1 grown more, assign-eq-ok x_s y grown (index-lt x_s y e)) in
      (v, node, rest, e, built, rw (← is_set) e'', cc)

  index-cons_from :
      (node : Node) (rest : List Node) (q start : ℕ)
      → start + 1 ≤ q
      → index (node ∷ rest) (q - start) ≡ index rest (q - (start + 1))
  index-cons_from node rest q start h =
      let e : q - start ≡ suc (q - (start + 1)) = omega arith in rw e

  -- The node at the j-th position of `s` was made from its counter after j rounds.
  pub make_nodes_at :
      (x_s ys : List ℕ) (start s w j q : ℕ) (nodes : List Node)
      → index x_s s ≡ ok w
      → make_nodes size offs x_s ys ≡ ok nodes
      → index (positions s ys start) j ≡ ok q
      → (node : Node) × (index nodes (q - start) ≡ ok node)
        × (make_node size s (w + j) (get_or offs s 0) ≡ ok node)
  make_nodes_at x_s [] start s w j q nodes hw hn h = absurd (cc)
  make_nodes_at x_s (y ∷ ys) start s w zero q nodes hw hn h =
      let (v, node, rest, e, built, runs, shape) = make_nodes_cons x_s y ys nodes hn in
      rw shape elim (Bool-cases (y == s)) [
        | inl same ↦
            let p : y ≡ s = ==→eq y s same in
            let vw : v ≡ w = ok-injective v w (rw (← e, p) hw) in
            let here : start ≡ q = ok-injective start q (rw same at h) in
            let z : q - start ≡ 0 = omega arith in
            let w0 : w + 0 ≡ w = omega arith in (node, rw z refl, rw (w0, ← vw, ← p) built)
        | inr other ↦
            let later = rw other at h in
            let ih =
              make_nodes_at (set x_s y (v + 1)) ys (start + 1) s w zero q rest
                (rw (index-set_ne x_s y s (v + 1) (==→ne y s other)) hw) runs later in
            (
              ih.0,
              index-cons_from node rest q start (positions_bounds s ys (start + 1) zero q later).0
                  ∙ ih.1,
              ih.2,
            )
      ]
  make_nodes_at x_s (y ∷ ys) start s w (suc j) q nodes hw hn h =
      let (v, node, rest, e, built, runs, shape) = make_nodes_cons x_s y ys nodes hn in
      rw shape elim (Bool-cases (y == s)) [
        | inl same ↦
            let p : y ≡ s = ==→eq y s same in
            let vw : v ≡ w = ok-injective v w (rw (← e, p) hw) in
            let later = rw same at h in
            let ih =
              make_nodes_at (set x_s y (v + 1)) ys (start + 1) s (w + 1) j q rest
                (rw (p, vw) (index-set_self x_s s (w + 1) (index-lt x_s s hw))) runs later in
            let total : w + suc j ≡ w + 1 + j = omega arith in
            (
              ih.0,
              index-cons_from node rest q start (positions_bounds s ys (start + 1) j q later).0
                  ∙ ih.1,
              rw total ih.2,
            )
        | inr other ↦
            let later = rw other at h in
            let ih =
              make_nodes_at (set x_s y (v + 1)) ys (start + 1) s w (suc j) q rest
                (rw (index-set_ne x_s y s (v + 1) (==→ne y s other)) hw) runs later in
            (
              ih.0,
              index-cons_from node rest q start
                    (positions_bounds s ys (start + 1) (suc j) q later).0
                  ∙ ih.1,
              ih.2,
            )
      ]
