-- ===== src/Sort/Partition.antt =====
-- The partition of pco/src/sort_utils.rs. The loop counts the latents that are left, in place of a
-- pointer to the end.
use pcodec.Common.{
  ℕ, zero, suc, ◌+◌, ◌-◌, ◌/◌, ◌≤◌, ◌<◌, ◌≡◌, min, refl, ap, sym, subst, ◌∙◌, arith, ltb,
  if◌then◌else◌, Bool, Bool-cases, inl, inr, ltb→lt, ltb-false, List, [], ◌∷◌, ◌++◌, length, All,
  All-append, append_assoc, append-nil, length-append, Rearranged, Rearranged-refl,
  Rearranged-behind, Rearranged-before, Rearranged-front, Rearranged-length, in_turn,
  Rearranged-sym, keep_first,
}
use pcodec.Errors.{Result, ok, ◌>>=◌, Returns, returns, Returns-bind, Returns-map}
use pcodec.Slice.{index, assign, index-length_append, assign-length_append}

unfoldable pub partition_each : ℕ → ℕ → ℕ → ℕ → List ℕ → Result (ℕ × List ℕ)
partition_each pivot pos left_idx zero latents = ok (left_idx, latents)
partition_each pivot pos left_idx (suc left) latents = do
  value ← index latents pos
  other ← index latents left_idx
  latents1 ← assign latents pos other
  latents2 ← assign latents1 left_idx value
  partition_each pivot (pos + 1) (left_idx + (if ltb value pivot then 1 else 0)) left latents2

-- The count on the left side of the pivot, whether the pivot was bad, and the latents.
unfoldable pub partition : List ℕ → ℕ → Result (ℕ × Bool × List ℕ)
unfolding partition_each
partition latents pivot = do
  (left_idx, out) ← partition_each pivot 0 0 (length latents) latents
  ok (left_idx, ltb (1 + min left_idx (length latents - left_idx)) (length latents / 8), out)

-- The latents below the pivot stand before the others.
pub record IsPartition (pivot : ℕ) (latents : List ℕ) (left_idx : ℕ) (out : List ℕ) : Type 0 where
  pub lhs : List ℕ
  pub rhs : List ℕ
  pub parts : out ≡ lhs ++ rhs
  pub count : left_idx ≡ length lhs
  pub below : All (λ x. x < pivot) lhs
  pub above : All (λ x. pivot ≤ x) rhs
  pub same : Rearranged out latents

-- The latents that are not below the pivot, with the first of them moved to the end.
abbrev turned : List ℕ → List ℕ
turned [] = []
turned (g ∷ gs) = gs ++ (g ∷ [])

turned-Rearranged : (ge : List ℕ) → Rearranged (turned ge) ge
turned-Rearranged [] = Rearranged-refl []
turned-Rearranged (g ∷ gs) =
    subst (λ xs. Rearranged (gs ++ (g ∷ [])) (g ∷ xs)) (append-nil gs) (Rearranged-front gs g [])

turned-All : (pivot : ℕ) (ge : List ℕ) → All (λ x. pivot ≤ x) ge → All (λ x. pivot ≤ x) (turned ge)
turned-All pivot [] h = tt
turned-All pivot (g ∷ gs) (hg, h) = All-append _ gs (g ∷ []) h (hg, tt)

IsPartition-Rearranged :
    {pivot : ℕ} {xs ys : List ℕ} (k : ℕ) (out : List ℕ)
    → Rearranged xs ys
    → IsPartition pivot xs k out
    → IsPartition pivot ys k out
IsPartition-Rearranged k out mixed part = record {
  lhs = part.lhs;
  rhs = part.rhs;
  parts = part.parts;
  count = part.count;
  below = part.below;
  above = part.above;
  same = in_turn part.same mixed;
}

module _ (pivot : ℕ) where
  partition_each_turn :
      (lt ge : List ℕ) (v : ℕ) (rest : List ℕ)
      → partition_each pivot
          (length lt + length ge)
          (length lt)
          (suc (length rest))
          (lt ++ (ge ++ (v ∷ rest)))
        ≡ partition_each pivot
            (length lt + length ge + 1)
            (length lt + (if ltb v pivot then 1 else 0))
            (length rest)
            (lt ++ (v ∷ (turned ge ++ rest)))
  unfolding partition_each
  partition_each_turn lt [] v rest =
      let here : length lt + 0 ≡ length lt = omega arith in
      rw
        (
          here,
          index-length_append lt v rest,
          assign-length_append lt v rest v,
          assign-length_append lt v rest v,
        )
        refl
  partition_each_turn lt (g ∷ gs) v rest =
      let n : length lt + suc (length gs) ≡ length (lt ++ (g ∷ gs)) =
        sym (length-append lt (g ∷ gs)) in
      let first : index (lt ++ ((g ∷ gs) ++ (v ∷ rest))) (length lt + suc (length gs)) ≡ ok v =
        rw (n, ← append_assoc lt (g ∷ gs) (v ∷ rest))
          (index-length_append (lt ++ (g ∷ gs)) v rest) in
      let second : assign (lt ++ ((g ∷ gs) ++ (v ∷ rest))) (length lt + suc (length gs)) g
          ≡ ok (lt ++ (g ∷ (gs ++ (g ∷ rest)))) =
        rw (n, ← append_assoc lt (g ∷ gs) (v ∷ rest))
          (assign-length_append (lt ++ (g ∷ gs)) v rest g
            ∙ ap ok (append_assoc lt (g ∷ gs) (g ∷ rest))) in
      rw
        (
          first,
          index-length_append lt g (gs ++ (v ∷ rest)),
          second,
          assign-length_append lt g (gs ++ (g ∷ rest)) v,
        )
        (ap
          (λ xs.
            partition_each pivot (length lt + suc (length gs) + 1)
              (length lt + (if ltb v pivot then 1 else 0)) (length rest) (lt ++ (v ∷ xs)))
          (sym (append_assoc gs (g ∷ []) rest)))

  partition_each_lem :
      (lt ge rest : List ℕ)
      → All (λ x. x < pivot) lt
      → All (λ x. pivot ≤ x) ge
      → Returns
          (λ (k, out). IsPartition pivot (lt ++ (ge ++ rest)) k out)
          (partition_each pivot
            (length lt + length ge)
            (length lt)
            (length rest)
            (lt ++ (ge ++ rest)))
  unfolding partition_each
  partition_each_lem lt ge [] hlt hge = returns (record {
    lhs = lt;
    rhs = ge;
    parts = ap (λ xs. lt ++ xs) (append-nil ge);
    count = refl;
    below = hlt;
    above = hge;
    same = Rearranged-refl (lt ++ (ge ++ []));
  })
  partition_each_lem lt ge (v ∷ rest) hlt hge =
      let mixed : Rearranged (lt ++ (v ∷ (turned ge ++ rest))) (lt ++ (ge ++ (v ∷ rest))) =
        Rearranged-behind lt (
          in_turn (keep_first v (Rearranged-before rest (turned-Rearranged ge)))
            (Rearranged-sym (Rearranged-front ge v rest))) in
      let n : length (turned ge) ≡ length ge = Rearranged-length (turned-Rearranged ge) in
      subst (Returns _) (sym (partition_each_turn lt ge v rest)) (
        Returns-map
          (elim (Bool-cases (ltb v pivot)) [
            | inl low ↦
                let one : length lt + 1 ≡ length (lt ++ (v ∷ [])) =
                  sym (length-append lt (v ∷ [])) in
                let pos : length lt + length ge + 1 ≡ length (lt ++ (v ∷ [])) + length (turned ge) =
                  omega (arith, n, one) in
                rw (low, pos, one, ← append_assoc lt (v ∷ []) (turned ge ++ rest))
                  (partition_each_lem (lt ++ (v ∷ [])) (turned ge) rest
                    (All-append _ lt (v ∷ []) hlt (ltb→lt v pivot low, tt))
                    (turned-All pivot ge hge))
            | inr high ↦
                let pos : length lt + length ge + 1 ≡ length lt + suc (length (turned ge)) =
                  omega (arith, n) in
                let zero' : length lt + 0 ≡ length lt = omega arith in
                rw (high, pos, zero')
                  (partition_each_lem lt (v ∷ turned ge) rest hlt
                    (ltb-false v pivot high, turned-All pivot ge hge))
          ])
          (λ (k, out) part. IsPartition-Rearranged k out mixed part))

  -- For any latents and pivot, the partition ends without a read or a write out of range, and gives
  -- the same latents in some order, those below the pivot first, and their number.
  pub partition-IsPartition :
      (latents : List ℕ)
      → Returns
          (λ (left_idx, bad, out). IsPartition pivot latents left_idx out)
          (partition latents pivot)
  unfolding partition
  partition-IsPartition latents =
      Returns-bind (partition_each_lem [] [] latents tt tt) λ (k, out) part. returns part
