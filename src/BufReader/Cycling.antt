-- ===== src/BufReader/Cycling.antt =====
-- Cycling the buffer of better_io/src/buf_reader.rs keeps the bytes in memory.
use pcodec.Common.{
  ℕ, zero, suc, ◌+◌, ◌-◌, ◌≤◌, ◌<◌, ◌≡◌, inl, inr, refl, sym, ap, ◌∙◌, arith, max, ltb, Bool-cases,
  ltb→lt, ltb-false, le→ltb, List, length, get_or, set, take, drop, get_or-set_self, get_or-set_ne,
  get_or-take, get_or-drop, get_or_ext, length-set, length-take, length-drop,
}
use pcodec.Errors.{Returns, returns, Returns-bind, Returns-map, Returns-if}
use pcodec.Slice.{index-eq-get_or, assign-eq-ok}
use pcodec.BufReader.{BetterBufReader, copy_down, cycle}

-- The copy of `left` bytes from `i` on to the front, as far as it has come.
record IsCopy (pos i left : ℕ) (buffer out : List ℕ) : Type 0 where
  size : length out ≡ length buffer
  kept : (j : ℕ) → j < i - pos → get_or out j 0 ≡ get_or buffer j 0
  moved : (j : ℕ) → i - pos ≤ j → j < i - pos + left → get_or out j 0 ≡ get_or buffer (j + pos) 0

copy_down_lem :
    (pos i left : ℕ) (buffer : List ℕ)
    → pos ≤ i
    → i + left ≤ length buffer
    → Returns (IsCopy pos i left buffer) (copy_down pos i left buffer)
unfolding copy_down
copy_down_lem pos i zero buffer h fit =
    returns (record { size = refl; kept = λ j p. refl; moved = λ j p q. absurd (omega arith) })
copy_down_lem pos i (suc left) buffer h fit =
    let written : List ℕ = set buffer (i - pos) (get_or buffer i 0) in
    rw
      (
        index-eq-get_or buffer i 0 (omega arith),
        le→ltb i pos h,
        assign-eq-ok buffer (i - pos) (get_or buffer i 0) (omega arith),
      )
      (Returns-map
        (copy_down_lem pos (i + 1) left written (omega arith)
          (omega (arith, length-set buffer (i - pos) (get_or buffer i 0))))
        λ out c. record {
          size = c.size ∙ length-set buffer (i - pos) (get_or buffer i 0);
          kept = λ j p.
              c.kept j (omega (arith, p, h))
              ∙ get_or-set_ne buffer (i - pos) j (get_or buffer i 0) 0 (λ e. omega (arith, e, p));
          moved = λ j p q. elim (Bool-cases (ltb j (i + 1 - pos))) [
            | inl first ↦
                let here : j ≡ i - pos = omega (arith, p, h, ltb→lt j (i + 1 - pos) first) in
                c.kept j (omega (arith, here, h))
                ∙ ap (λ k. get_or written k 0) here
                ∙ get_or-set_self buffer (i - pos) (get_or buffer i 0) 0 (omega arith)
                ∙ ap (λ k. get_or buffer k 0) {x = i} {y = j + pos} (omega (arith, here, h))
            | inr later ↦
                let at = ltb-false j (i + 1 - pos) later in
                c.moved j at (omega (arith, q, h))
                ∙ get_or-set_ne buffer (i - pos) (j + pos) (get_or buffer i 0) 0
                    (λ e. omega (arith, e, at, h))
          ];
        })

module _ {ℓ} {R : Type ℓ} where
  -- What keeps a reader in order.
  pub record IsReader (self : BetterBufReader R) : Type 0 where
    pub ordered : self.pos ≤ self.filled
    pub inside : self.filled ≤ length self.buffer
    pub roomy : self.desired_capacity ≤ length self.buffer

  -- The bytes that are in memory.
  abbrev pub window : BetterBufReader R → List ℕ
  window self = drop self.pos (take self.filled self.buffer)

  pub cycle_lem :
      (self : BetterBufReader R) (n unfilled : ℕ)
      → IsReader self
      → unfilled ≡ length self.buffer - self.pos
      → n ≤ max unfilled self.desired_capacity
      → Returns
          (λ self'.
            IsReader self'
            × (window self' ≡ window self)
            × (self'.inner ≡ self.inner)
            × (self'.pos + n ≤ length self'.buffer))
          (cycle self n unfilled)
  unfolding cycle
  cycle_lem self n unfilled ok' e fit =
      let ordered = ok'.ordered in
      let inside = ok'.inside in
      let roomy = ok'.roomy in
      Returns-if (ltb unfilled n)
        (λ short.
          let more = ltb→lt unfilled n short in
          Returns-bind
            (copy_down_lem self.pos self.pos (self.filled - self.pos) self.buffer (omega arith)
              (omega (arith, ordered, inside)))
            λ copied c. rw (le→ltb self.filled self.pos ordered) (
              returns (
                let room : length (take self.desired_capacity copied) ≡ self.desired_capacity =
                  omega (arith, length-take self.desired_capacity copied, c.size, roomy) in
                let n_kept : self.filled - self.pos ≤ self.desired_capacity =
                  omega (arith, more, e, inside, fit) in
                let here : length
                      (take (self.filled - self.pos) (take self.desired_capacity copied))
                    ≡ self.filled - self.pos =
                  omega (
                    arith,
                    length-take (self.filled - self.pos) (take self.desired_capacity copied),
                    room,
                    n_kept,
                  ) in
                (
                  record {
                    ordered = omega arith;
                    inside = omega (arith, n_kept, room);
                    roomy = omega (arith, room);
                  },
                  get_or_ext 0 _ _
                      (here
                        ∙ omega (
                          arith,
                          length-drop self.pos (take self.filled self.buffer),
                          length-take self.filled self.buffer,
                          inside,
                        ))
                      (λ i l.
                        let small : i < self.filled - self.pos = omega (arith, l, here) in
                        get_or-take (self.filled - self.pos) i (take self.desired_capacity copied) 0
                          small
                        ∙ get_or-take self.desired_capacity i copied 0
                            (omega (arith, small, n_kept))
                        ∙ c.moved i (omega arith) (omega (arith, small))
                        ∙ ap (λ k. get_or self.buffer k 0) {x = i + self.pos} {y = self.pos + i}
                            (omega arith)
                        ∙ sym (
                            get_or-take self.filled (self.pos + i) self.buffer 0
                              (omega (arith, small)))
                        ∙ sym (get_or-drop self.pos i (take self.filled self.buffer) 0)),
                  refl,
                  omega (arith, room, fit, more),
                ))))
        (λ enough.
          returns (ok', refl, refl, omega (arith, e, ordered, inside, ltb-false unfilled n enough)))
