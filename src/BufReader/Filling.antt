-- ===== src/BufReader/Filling.antt =====
-- Filling the buffer of better_io/src/buf_reader.rs loses none of the bytes and invents none.
use pcodec.Common.{
  ℕ, zero, suc, ◌+◌, ◌-◌, ◌≤◌, ◌<◌, ◌≡◌, ◌⊎◌, inl, inr, refl, sym, ap, ap₂, ◌∙◌, arith, max, ltb,
  leb, ltb-false, leb→le, leb-false, le→ltb, Option, none, some, List, [], ◌∷◌, ◌++◌, length, take,
  drop, length-take, length-drop, length-append, append_assoc, take-length_append,
}
use pcodec.Errors.{ok, ErrorKind, io, Returns, returns, Returns-bind, Returns-map, Returns-if}
use pcodec.BufReader.Cycling.{IsReader, window, cycle_lem}
use pcodec.BufReader.{
  ReadResult, got, interrupted, failed, Read, BetterBufReader, take_read, fill_to, fill_or_eof,
}

-- What the documentation of `Read` says: a call gives at most what is asked for, and nothing only at the
-- end; with an error no bytes are read. How often it may yet be interrupted is bounded.
pub record IsSource {ℓ} {R : Type ℓ} (source : Read R) : Type ℓ where
  pub rest : R → List ℕ
  pub patience : R → ℕ
  pub gets :
      (n : ℕ) (inner inner' : R) (bytes : List ℕ)
      → source.read n inner ≡ (got bytes, inner')
      → (length bytes ≤ n)
        × (rest inner ≡ bytes ++ rest inner')
        × (patience inner' ≤ patience inner)
        × (0 < n → length bytes ≡ 0 → rest inner ≡ [])
  pub retries :
      (n : ℕ) (inner inner' : R)
      → source.read n inner ≡ (interrupted, inner')
      → (rest inner' ≡ rest inner) × (patience inner' < patience inner)
  pub fails :
      (n : ℕ) (inner inner' : R) (kind : ErrorKind)
      → source.read n inner ≡ (failed kind, inner')
      → rest inner' ≡ rest inner

drop-append : (n : ℕ) (xs ys : List ℕ) → n ≤ length xs → drop n (xs ++ ys) ≡ drop n xs ++ ys
drop-append zero xs ys h = refl
drop-append (suc n) [] ys h = absurd (omega arith)
drop-append (suc n) (x ∷ xs) ys h = drop-append n xs ys (omega arith)

-- Bytes that are written behind what is filled.
written_lem :
    (pos filled : ℕ) (buffer bytes : List ℕ)
    → pos ≤ filled
    → filled + length bytes ≤ length buffer
    → (length (take filled buffer ++ (bytes ++ drop (filled + length bytes) buffer))
        ≡ length buffer)
      × (drop pos (
            take
              (filled + length bytes)
              (take filled buffer ++ (bytes ++ drop (filled + length bytes) buffer)))
          ≡ drop pos (take filled buffer) ++ bytes)
written_lem pos filled buffer bytes h fit =
    let behind : List ℕ = drop (filled + length bytes) buffer in
    let n_front : length (take filled buffer) ≡ filled =
      omega (arith, length-take filled buffer, fit) in
    let n_both : length (take filled buffer ++ bytes) ≡ filled + length bytes =
      omega (arith, length-append (take filled buffer) bytes, n_front) in
    (
      omega (
        arith,
        length-append (take filled buffer) (bytes ++ behind),
        length-append bytes behind,
        n_front,
        length-drop (filled + length bytes) buffer,
        fit,
      ),
      ap (drop pos) (
            sym (ap (λ k. take k (take filled buffer ++ (bytes ++ behind))) n_both)
            ∙ ap (take (length (take filled buffer ++ bytes)))
                (sym (append_assoc (take filled buffer) bytes behind))
            ∙ take-length_append (take filled buffer ++ bytes) behind)
          ∙ drop-append pos (take filled buffer) bytes (omega (arith, n_front, h)),
    )

module _ {ℓ} {R : Type ℓ} (source : Read R) (laws : IsSource source) where
  -- The bytes in memory and those that are yet to come.
  abbrev pub stream : BetterBufReader R → List ℕ
  stream self = window self ++ laws.rest self.inner

  record IsFilled (self : BetterBufReader R) (target : ℕ) (returned : Option ErrorKind)
      (self' : BetterBufReader R) : Type 0 where
    reader : IsReader self'
    same : stream self' ≡ stream self
    at : self'.pos ≡ self.pos
    enough : returned ≡ none → (target ≤ self'.filled) ⊎ (laws.rest self'.inner ≡ [])

  abbrev Fills : ℕ → ℕ → Type ℓ
  Fills fuel target =
      (self : BetterBufReader R)
      → IsReader self
      → target ≤ length self.buffer
      → (target - self.filled) + laws.patience self.inner < fuel
      → Returns (λ (returned, self'). IsFilled self target returned self')
          (fill_to source fuel target self)

  -- A turn of the loop, with what the call of `read` gave.
  turn-IsFilled :
      (fuel target : ℕ) (self : BetterBufReader R) (result : ReadResult) (inner : R)
      → Fills fuel target
      → IsReader self
      → self.filled < target
      → target ≤ length self.buffer
      → (target - self.filled) + laws.patience self.inner < suc fuel
      → source.read (target - self.filled) self.inner ≡ (result, inner)
      → Returns
          (λ (returned, self'). IsFilled self target returned self')
          (elim (take_read source self result inner).0 [
            | none ↦ fill_to source fuel target (take_read source self result inner).1
            | some returned ↦ ok (returned, (take_read source self result inner).1)
          ])
  unfolding take_read
  turn-IsFilled fuel target self (got []) inner go r short fit h e =
      let (n, split, calm, eof) = laws.gets (target - self.filled) self.inner inner [] e in
      returns (record {
        reader = record { ordered = r.ordered; inside = r.inside; roomy = r.roomy };
        same = ap (λ ys. window self ++ ys) (sym split);
        at = refl;
        enough = λ f. inr (sym split ∙ eof (omega (arith, short)) refl);
      })
  turn-IsFilled fuel target self (got (byte ∷ bytes)) inner go r short fit h e =
      let (n, split, calm, eof) =
        laws.gets (target - self.filled) self.inner inner (byte ∷ bytes) e in
      let inside : self.filled + length (byte ∷ bytes) ≤ length self.buffer =
        omega (arith, n, short, fit) in
      let ordered = r.ordered in
      let roomy = r.roomy in
      let (size, grown) =
        written_lem self.pos self.filled self.buffer (byte ∷ bytes) ordered inside in
      let self' : BetterBufReader R = (take_read source self (got (byte ∷ bytes)) inner).1 in
      Returns-map
        (go self'
          (record {
            ordered = omega (arith, ordered);
            inside = omega (arith, inside, size);
            roomy = omega (arith, roomy, size);
          })
          (omega (arith, fit, size)) (omega (arith, h, calm, short, n)))
        λ (returned, self'') f. record {
          reader = f.reader;
          same =
              f.same
              ∙ ap (λ ys. ys ++ laws.rest inner) grown
              ∙ append_assoc (window self) (byte ∷ bytes) (laws.rest inner)
              ∙ ap (λ ys. window self ++ ys) (sym split);
          at = f.at;
          enough = f.enough;
        }
  turn-IsFilled fuel target self interrupted inner go r short fit h e =
      let (kept, less) = laws.retries (target - self.filled) self.inner inner e in
      Returns-map
        (go (record self { inner = inner })
          (record { ordered = r.ordered; inside = r.inside; roomy = r.roomy }) fit
          (omega (arith, h, less)))
        λ (returned, self'') f. record {
          reader = f.reader;
          same = f.same ∙ ap (λ ys. window self ++ ys) kept;
          at = f.at;
          enough = f.enough;
        }
  turn-IsFilled fuel target self (failed kind) inner go r short fit h e = returns (record {
    reader = record { ordered = r.ordered; inside = r.inside; roomy = r.roomy };
    same = ap (λ ys. window self ++ ys) (laws.fails (target - self.filled) self.inner inner kind e);
    at = refl;
    enough = λ f. absurd (cc);
  })

  fill_to-IsFilled : (fuel target : ℕ) → Fills fuel target
  unfolding fill_to
  fill_to-IsFilled zero target self r fit h = absurd (omega arith)
  fill_to-IsFilled (suc fuel) target self r fit h =
      Returns-if (leb target self.filled)
        (λ full. returns (record {
          reader = r;
          same = refl;
          at = refl;
          enough = λ f. inl (leb→le target self.filled full);
        }))
        (λ short. rw (le→ltb (length self.buffer) target fit) (
          turn-IsFilled fuel target self _ _ (fill_to-IsFilled fuel target) r
            (leb-false target self.filled short) fit h refl))

  -- What a call of `fill_or_eof` for `n` bytes leaves.
  pub record IsRefilled (self : BetterBufReader R) (n : ℕ) (returned : Option ErrorKind)
      (self' : BetterBufReader R) : Type 0 where
    pub reader : IsReader self'
    pub same : stream self' ≡ stream self
    pub enough : returned ≡ none → (n ≤ length (window self')) ⊎ (laws.rest self'.inner ≡ [])
    pub too_many :
        max (length self.buffer - self.pos) self.desired_capacity < n → returned ≡ some io

  -- A reader whose position is at most what is filled, which lies in the buffer, as does the
  -- capacity, asks a source that keeps to the documentation of `Read` for `n` bytes; the fuel is more
  -- than `n` and the number of times that the source can be interrupted. Then `fill_or_eof` does not
  -- panic and does not run out of fuel, also where it returns an error: the reader
  -- stays in order, and the bytes in memory, followed by those that are yet to come from the source, stay
  -- the same. Where it returns no error, there are at least `n` bytes in memory, or the
  -- source is at its end; where more bytes are asked for than the buffer can hold, it returns one.
  pub fill_or_eof-IsRefilled :
      (fuel : ℕ) (self : BetterBufReader R) (n : ℕ)
      → IsReader self
      → n + laws.patience self.inner < fuel
      → Returns
          (λ (returned, self'). IsRefilled self n returned self')
          (fill_or_eof source fuel self n)
  unfolding fill_or_eof
  fill_or_eof-IsRefilled fuel self n r h =
      let unfilled : ℕ = length self.buffer - self.pos in
      let ordered = r.ordered in
      let inside = r.inside in
      rw (le→ltb (length self.buffer) self.pos (omega (arith, ordered, inside))) (
        Returns-if (ltb (max unfilled self.desired_capacity) n)
          (λ over.
            returns
              (record { reader = r; same = refl; enough = λ e. absurd (cc); too_many = λ m. refl }))
          (λ fit.
            let le = ltb-false (max unfilled self.desired_capacity) n fit in
            Returns-bind (cycle_lem self n unfilled r refl le)
              λ self1 (r1, kept, source_same, room).
                let low = r1.ordered in
                let calm : (self1.pos + n - self1.filled) + laws.patience self1.inner < fuel =
                  omega (arith, h, ap laws.patience source_same, low) in
                Returns-map (fill_to-IsFilled fuel (self1.pos + n) self1 r1 room calm)
                  λ (returned, self') f. record {
                    reader = f.reader;
                    same = f.same ∙ ap₂ (λ ys inner. ys ++ laws.rest inner) kept source_same;
                    enough = λ e. elim (f.enough e) [
                      | inl target ↦
                          let inside' = f.reader.inside in
                          inl (
                            omega (
                              arith,
                              target,
                              f.at,
                              inside',
                              length-drop self'.pos (take self'.filled self'.buffer),
                              length-take self'.filled self'.buffer,
                            ))
                      | inr end ↦ inr end
                    ];
                    too_many = λ m. absurd (omega (arith, m, le));
                  }))
