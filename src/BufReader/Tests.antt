-- ===== src/BufReader/Tests.antt =====
-- A reader on a source that is interrupted now and then, and gives at most three bytes at a time.
use pcodec.Common.{
  ℕ, zero, suc, ◌≤◌, ◌<◌, ◌≡◌, refl, sym, ap, ap₂, ◌∙◌, arith, min, none, List, [], ◌∷◌, ◌++◌,
  length, take, drop, take-append-drop, length-take,
}
use pcodec.Errors.{ok, ErrorKind, Returns}
use pcodec.BufReader.{ReadResult, got, interrupted, failed, Read, BetterBufReader, fill_or_eof}
use pcodec.BufReader.Filling.{IsSource, IsRefilled, fill_or_eof-IsRefilled}

-- The number of interruptions that are left, and the bytes.
abbrev read_some : ℕ → ℕ × List ℕ → ReadResult × (ℕ × List ℕ)
read_some n (suc left, bytes) = (interrupted, (left, bytes))
read_some n (zero, bytes) = (got (take (min n 3) bytes), (zero, drop (min n 3) bytes))

abbrev source : Read (ℕ × List ℕ)
source = record { read = read_some }

abbrev bytes_of : ReadResult → List ℕ
bytes_of (got bytes) = bytes
bytes_of interrupted = []
bytes_of (failed kind) = []

-- The kinds of result, told apart.
abbrev kind_of : ReadResult → ℕ
kind_of (got bytes) = 0
kind_of interrupted = 1
kind_of (failed kind) = 2

some_gets :
    (n : ℕ) (inner inner' : ℕ × List ℕ) (bytes : List ℕ)
    → read_some n inner ≡ (got bytes, inner')
    → (length bytes ≤ n)
      × (inner.1 ≡ bytes ++ inner'.1)
      × (inner'.0 ≤ inner.0)
      × (0 < n → length bytes ≡ 0 → inner.1 ≡ [])
some_gets n (suc left, all) inner' bytes e = absurd (omega (arith, ap (λ r. kind_of r.0) e))
some_gets n (zero, all) inner' bytes e =
    let taken : take (min n 3) all ≡ bytes = ap (λ r. bytes_of r.0) e in
    let left : drop (min n 3) all ≡ inner'.1 = ap (λ r. r.1.1) e in
    let size : length bytes ≡ min (min n 3) (length all) =
      ap length (sym taken) ∙ length-take (min n 3) all in
    (
      omega (arith, size),
      sym (take-append-drop (min n 3) all) ∙ ap₂ ◌++◌ taken left,
      omega (arith, ap (λ r. r.1.0) e),
      λ some nothing. length_zero all (omega (arith, size, some, nothing)),
    )
  where
    length_zero : (xs : List ℕ) → length xs ≡ 0 → xs ≡ []
    length_zero [] h = refl
    length_zero (x ∷ xs) h = absurd (omega arith)

some_retries :
    (n : ℕ) (inner inner' : ℕ × List ℕ)
    → read_some n inner ≡ (interrupted, inner')
    → (inner'.1 ≡ inner.1) × (inner'.0 < inner.0)
some_retries n (suc left, all) inner' e =
    (sym (ap (λ r. r.1.1) e), omega (arith, ap (λ r. r.1.0) e))
some_retries n (zero, all) inner' e = absurd (omega (arith, ap (λ r. kind_of r.0) e))

some_fails :
    (n : ℕ) (inner inner' : ℕ × List ℕ) (kind : ErrorKind)
    → read_some n inner ≡ (failed kind, inner')
    → inner'.1 ≡ inner.1
some_fails n (suc left, all) inner' kind e = absurd (omega (arith, ap (λ r. kind_of r.0) e))
some_fails n (zero, all) inner' kind e = absurd (omega (arith, ap (λ r. kind_of r.0) e))

abbrev source-IsSource : IsSource source
source-IsSource = record {
  rest = λ inner. inner.1;
  patience = λ inner. inner.0;
  gets = some_gets;
  retries = some_retries;
  fails = some_fails;
}

abbrev reader : BetterBufReader (ℕ × List ℕ)
reader = record {
  inner = (2, 7 ∷ 8 ∷ 9 ∷ 10 ∷ 11 ∷ []);
  buffer = 1 ∷ 2 ∷ 3 ∷ 0 ∷ 0 ∷ [];
  desired_capacity = 5;
  pos = 2;
  filled = 3;
}

fill_run :
    fill_or_eof source 9 reader 5
    ≡ ok (
      none,
      record reader { inner = (0, 11 ∷ []); buffer = 3 ∷ 7 ∷ 8 ∷ 9 ∷ 10 ∷ []; pos = 0; filled = 5 },
    )
unfolding fill_or_eof pcodec.Slice.assign
fill_run = refl

fill_or_eof-IsRefilled_example :
    Returns
      (λ (returned, self'). IsRefilled source source-IsSource reader 5 returned self')
      (fill_or_eof source 9 reader 5)
fill_or_eof-IsRefilled_example =
    fill_or_eof-IsRefilled source source-IsSource 9 reader 5
      (record { ordered = omega arith; inside = omega arith; roomy = omega arith }) (omega arith)
