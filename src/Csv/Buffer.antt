-- ===== src/Csv/Buffer.antt =====
-- The `csv.Writer` that `csv.NewWriter` makes: the records go through a `bufio.Writer`.
use onedb.Prelude.{
  ℕ, suc, ◌+◌, ◌*◌, ◌≤◌, [], ◌∷◌, ◌++◌, append-nil, append_assoc, length-append, ◌≡◌, refl, sym, ap,
  ◌∙◌, Bool-cases, inl, inr, none, List, Bytes, length, ltb, ltb→lt, ltb→le, if◌then◌else◌, arith,
}
use onedb.Csv.{CsvWriter, csv_record, csv_rest, csv_field}

-- What the `io.Writer` has been given, and what waits in the buffer.
pub record CsvBuffer : Type 0 where
  pub written : Bytes
  pub pending : Bytes

-- The size of the buffer of a `bufio.Writer`.
abbrev pub buffer_size : ℕ
buffer_size = 4096

-- `csv.NewWriter` on an `io.Writer` that takes every write.
abbrev pub new_writer : Bytes → CsvBuffer
new_writer b = record { written = b; pending = [] }

-- A byte: a full buffer is passed on first.
unfoldable pub put : CsvBuffer → ℕ → CsvBuffer
put w c =
    if ltb (length w.pending) buffer_size
    then record w { pending = w.pending ++ c ∷ [] }
    else record { written = w.written ++ w.pending; pending = c ∷ [] }

unfoldable pub put_all : CsvBuffer → Bytes → CsvBuffer
unfolding put
put_all w [] = w
put_all w (c ∷ text) = put_all (put w c) text

-- `Flush` of the `bufio.Writer`.
abbrev pub flushed : CsvBuffer → CsvBuffer
flushed w = new_writer (w.written ++ w.pending)

unfoldable pub buffer_writer : CsvWriter CsvBuffer
unfolding csv_record put_all
buffer_writer = record {
  write = λ w record_. (put_all w (csv_record record_), none);
  flush = flushed;
  last_err = λ w. none;
}

pub put_all-append : (w : CsvBuffer) (l l' : Bytes) → put_all (put_all w l) l' ≡ put_all w (l ++ l')
unfolding put_all
put_all-append w [] l' = refl
put_all-append w (c ∷ l) l' = put_all-append (put w c) l l'

-- All that a writer has been given, in order.
abbrev pub given : CsvBuffer → Bytes
given w = w.written ++ w.pending

put-given : (w : CsvBuffer) (c : ℕ) → given (put w c) ≡ given w ++ c ∷ []
unfolding put
put-given w c = elim (Bool-cases (ltb (length w.pending) buffer_size)) [
  | inl room ↦ rw room (sym (append_assoc w.written w.pending (c ∷ [])))
  | inr full ↦ rw full refl
]

pub put_all-given : (w : CsvBuffer) (l : Bytes) → given (put_all w l) ≡ given w ++ l
unfolding put_all
put_all-given w [] = sym (append-nil (given w))
put_all-given w (c ∷ l) =
    put_all-given (put w c) l ∙ ap (λ t. t ++ l) (put-given w c) ∙ append_assoc (given w) (c ∷ []) l

-- What was written and `k` whole buffers are out, and at most one more waits.
pub record IsBuffering (size : ℕ) (w : CsvBuffer) : Type 0 where
  pub blocks : ℕ
  pub whole : length w.written ≡ size + blocks * buffer_size
  pub bounded : length w.pending ≤ buffer_size

put-IsBuffering :
    (size : ℕ) (w : CsvBuffer) (c : ℕ) → IsBuffering size w → IsBuffering size (put w c)
unfolding put
put-IsBuffering size w c i = elim (Bool-cases (ltb (length w.pending) buffer_size)) [
  | inl room ↦ rw room record {
    blocks = i.blocks;
    whole = i.whole;
    bounded =
        omega (arith, length-append w.pending (c ∷ []), ltb→lt (length w.pending) buffer_size room);
  }
  | inr full ↦ rw full record {
    blocks = suc i.blocks;
    whole = omega (
      arith,
      length-append w.written w.pending,
      i.whole,
      i.bounded,
      ltb→le (length w.pending) buffer_size full,
    );
    bounded = omega arith;
  }
]

pub put_all-IsBuffering :
    (size : ℕ) (w : CsvBuffer) (l : Bytes) → IsBuffering size w → IsBuffering size (put_all w l)
unfolding put_all
put_all-IsBuffering size w [] i = i
put_all-IsBuffering size w (c ∷ l) i =
    put_all-IsBuffering size (put w c) l (put-IsBuffering size w c i)

put-waits : (w : CsvBuffer) (c : ℕ) → 1 ≤ length (put w c).pending
unfolding put
put-waits w c = elim (Bool-cases (ltb (length w.pending) buffer_size)) [
  | inl room ↦ rw room (omega (arith, length-append w.pending (c ∷ [])))
  | inr full ↦ rw full (omega arith)
]

put_all-waits :
    (w : CsvBuffer) (l : Bytes) → 1 ≤ length w.pending → 1 ≤ length (put_all w l).pending
unfolding put_all
put_all-waits w [] h = h
put_all-waits w (c ∷ l) h = put_all-waits (put w c) l (put-waits w c)

-- The last byte of a text always waits.
pub put_all-some_waits :
    (w : CsvBuffer) (l : Bytes) → 1 ≤ length l → 1 ≤ length (put_all w l).pending
unfolding put_all
put_all-some_waits w [] h = absurd (omega arith)
put_all-some_waits w (c ∷ l) h = put_all-waits (put w c) l (put-waits w c)

-- A record has its line end.
csv_rest-some : (fields : List Bytes) → 1 ≤ length (csv_rest fields)
unfolding csv_rest
csv_rest-some [] = omega arith
csv_rest-some (f ∷ fields) = omega arith

pub csv_record-some : (fields : List Bytes) → 1 ≤ length (csv_record fields)
unfolding csv_record
csv_record-some [] = omega arith
csv_record-some (f ∷ fields) =
    omega (arith, length-append (csv_field f) (csv_rest fields), csv_rest-some fields)
