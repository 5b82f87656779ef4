-- ===== src/BufReader.antt =====
-- better_io/src/buf_reader.rs: a buffer in front of a `Read` of the standard library, which is a parameter. The
-- buffer is changed also where an error is returned, so the new state stands beside what is returned. A
-- slice out of range and a subtraction below zero are results `panic`.
pub mod Cycling
pub mod Filling
mod Tests
use pcodec.Common.{
  ℕ, zero, suc, ◌+◌, ◌-◌, max, if◌then◌else◌, ltb, leb, ◌||◌, Option, none, some, List, [], ◌∷◌,
  ◌++◌, length, take, drop, replicate,
}
use pcodec.Errors.{Result, ok, panic, ErrorKind, io, ◌>>=◌}
use pcodec.Slice.{index, assign}
use pcodec.Delta.Choose.{sub_usize}

-- What `Read::read` may come to: some bytes at the front of the slice, or an error.
pub data ReadResult : Type 0 where
  got : List ℕ → ReadResult
  interrupted : ReadResult
  failed : ErrorKind → ReadResult

-- A source of type `R`: a call asks for at most so many bytes.
pub record Read {ℓ} (R : Type ℓ) : Type ℓ where
  pub read : ℕ → R → ReadResult × R

pub record BetterBufReader {ℓ} (R : Type ℓ) : Type ℓ where
  pub inner : R
  pub buffer : List ℕ
  pub desired_capacity : ℕ
  pub pos : ℕ
  pub filled : ℕ

-- The copy of bytes to the front: the loop over `i`, with the number of bytes left.
unfoldable pub copy_down : ℕ → ℕ → ℕ → List ℕ → Result (List ℕ)
copy_down pos i zero buffer = ok buffer
copy_down pos i (suc left) buffer = do
  byte ← index buffer i
  at ← sub_usize i pos
  buffer' ← assign buffer at byte
  copy_down pos (i + 1) left buffer'

-- `Vec::resize` with zeros.
unfoldable pub resize : ℕ → List ℕ → List ℕ
resize n xs = take n xs ++ replicate (n - length xs) 0

-- It panics where the preloaded data are longer than the capacity.
unfoldable pub make_buffer : List ℕ → ℕ → Result (List ℕ × ℕ)
make_buffer preloaded_data n =
    if ltb n (length preloaded_data)
    then panic
    else ok (preloaded_data ++ replicate (n - length preloaded_data) 0, length preloaded_data)

module _ {ℓ} {R : Type ℓ} where
  unfoldable pub cycle : BetterBufReader R → ℕ → ℕ → Result (BetterBufReader R)
  unfolding copy_down
  cycle self n_bytes unfilled =
      if ltb unfilled n_bytes
      then (do
        copied ← copy_down self.pos self.pos (self.filled - self.pos) self.buffer
        filled' ← sub_usize self.filled self.pos
        ok (record self { buffer = take self.desired_capacity copied; filled = filled'; pos = 0 }))
      else ok self

  unfoldable pub buffered : BetterBufReader R → Result (List ℕ)
  buffered self =
      if ltb self.filled self.pos || ltb (length self.buffer) self.filled
      then panic
      else ok (drop self.pos (take self.filled self.buffer))

  unfoldable pub consume_bytes : BetterBufReader R → ℕ → BetterBufReader R
  consume_bytes self n_bytes = record self { pos = self.pos + n_bytes }

  unfoldable pub capacity : BetterBufReader R → Option ℕ
  capacity self = some self.desired_capacity

  unfoldable pub resize_capacity : BetterBufReader R → ℕ → BetterBufReader R
  unfolding resize
  resize_capacity self desired =
      if leb self.filled desired
      then record self { desired_capacity = desired; buffer = resize desired self.buffer }
      else record self { desired_capacity = desired }

  unfoldable pub new_reader : List ℕ → R → ℕ → Result (BetterBufReader R)
  unfolding make_buffer
  new_reader preloaded_data inner n = do
    (buffer, filled) ← make_buffer preloaded_data n
    ok (record { inner = inner; buffer = buffer; desired_capacity = n; pos = 0; filled = filled })

  module _ (source : Read R) where
    -- What a call of `read` on `buffer[filled..target]` leaves, and whether the loop goes on: `none` where it does,
    -- and otherwise what is returned.
    unfoldable pub take_read :
        BetterBufReader R → ReadResult → R → Option (Option ErrorKind) × BetterBufReader R
    take_read self (got []) inner = (some none, record self { inner = inner })
    take_read self (got (byte ∷ bytes)) inner = (
      none,
      record self {
        inner = inner;
        buffer =
            take self.filled self.buffer
            ++ ((byte ∷ bytes) ++ drop (self.filled + length (byte ∷ bytes)) self.buffer);
        filled = self.filled + length (byte ∷ bytes);
      },
    )
    take_read self interrupted inner = (none, record self { inner = inner })
    take_read self (failed kind) inner = (some (some kind), record self { inner = inner })

    -- The loop runs on fuel, since a source may be interrupted again and again.
    unfoldable pub fill_to :
        ℕ → ℕ → BetterBufReader R → Result (Option ErrorKind × BetterBufReader R)
    unfolding take_read
    fill_to zero target self = panic
    fill_to (suc fuel) target self =
        if leb target self.filled
        then ok (none, self)
        else if ltb (length self.buffer) target
        then panic
        else (let (result, inner) = source.read (target - self.filled) self.inner in
            let (over, self') = take_read self result inner in
            elim over [ none ↦ fill_to fuel target self' | some returned ↦ ok (returned, self') ])

    unfoldable pub fill_or_eof :
        ℕ → BetterBufReader R → ℕ → Result (Option ErrorKind × BetterBufReader R)
    unfolding cycle fill_to
    fill_or_eof fuel self n_bytes = do
      unfilled ← sub_usize (length self.buffer) self.pos
      let max_available = max unfilled self.desired_capacity
      (if ltb max_available n_bytes
          then ok (some io, self)
          else do self' ← cycle self n_bytes unfilled; fill_to fuel (self'.pos + n_bytes) self')
