-- ===== src/Rw/RoundTrip.antt =====
-- pkg/rw: what one end writes the other end reads, and a stream that is cut is an error.
use data_collection.Base.{
  ℕ, zero, suc, ◌+◌, ◌%◌, ◌^◌, ◌<◌, ◌≡◌, refl, sym, ap, ◌⊎◌, true, false, Option, none, some, [],
  ◌∷◌, ◌++◌, append-nil, append_assoc, arith, ltb, ◌==◌, length, take, drop, length-append,
  take-append, drop-append, Bytes, Outcome, ok, err, Exec, ◌>>=◌,
}
use data_collection.Rw.Endian.{
  RwError, eof, unexpected_eof, be_bytes, length-be_bytes, be_value-be_bytes,
}
use data_collection.Rw.Frame.{read_full, read_uint32, read_body, read_bytes_alt, nil_mark}
use data_collection.Rw.Messages.{Writer, buffer, fill_bytes, flush, write_bytes}

-- the bytes that a write puts into an empty buffer
abbrev pub sent : Exec Bytes RwError Unit → Bytes
sent m = (m []).1

pub read_full-append : (xs rest : Bytes) → read_full (length xs) (xs ++ rest) ≡ (ok xs, rest)
unfolding read_full take drop
read_full-append [] [] = refl
read_full-append [] (b ∷ rest) = ground arith
read_full-append (x ∷ xs) rest =
    let long : ltb (length (xs ++ rest) + 1) (length xs + 1) ≡ false =
      ground (arith, length-append xs rest) in
    ground (arith, long, length-append xs rest, take-append xs rest, drop-append xs rest)

pub read_full_of_length :
    (n : ℕ) (xs rest : Bytes) → length xs ≡ n → read_full n (xs ++ rest) ≡ (ok xs, rest)
read_full_of_length n xs rest e = rw (← e) (read_full-append xs rest)

abbrev pub IsCut : {A : Type 0} → Outcome RwError A → Type 0
IsCut r = (r ≡ err eof) ⊎ (r ≡ err unexpected_eof)

pub read_full_short : (n : ℕ) (s : Bytes) → length s < n → IsCut (read_full n s).0
unfolding read_full
read_full_short n [] h = ground arith
read_full_short n (b ∷ s) h = ground arith

pub read_uint32-be_bytes :
    (v : ℕ) (rest : Bytes) → v < 2 ^ 32 → read_uint32 (be_bytes 4 v ++ rest) ≡ (ok v, rest)
unfolding read_uint32
read_uint32-be_bytes v rest h =
    rw (read_full_of_length 4 (be_bytes 4 v) rest (length-be_bytes 4 v), be_value-be_bytes 4 v h)

-- the bytes of a framed slice
abbrev pub frame : Option Bytes → Bytes
frame none = be_bytes 4 nil_mark
frame (some b) = be_bytes 4 (length b % 2 ^ 32) ++ b

fill_bytes-frame : (b : Option Bytes) → fill_bytes b [] ≡ (ok tt, frame b)
unfolding fill_bytes
fill_bytes-frame none = refl
fill_bytes-frame (some []) = ap (λ (t : Bytes). (ok tt, t)) (sym (append-nil (be_bytes 4 0)))
fill_bytes-frame (some (x ∷ xs)) =
    let long : ltb 0 (suc (length xs)) ≡ true = ground arith in rw (long, ◌>>=◌)

pub write_bytes-eq-write : (w : Writer) (b : Option Bytes) → write_bytes w b ≡ w.write (frame b)
unfolding write_bytes
write_bytes-eq-write w b = rw (fill_bytes-frame b, flush) (rw (fill_bytes-frame b))

-- the lengths that stand for themselves: all below the mark of nil
abbrev pub Fits : Option Bytes → Type 0
Fits none = Unit
Fits (some b) = length b < nil_mark

pub read_body_lem :
    (b : Bytes) (rest : Bytes)
    → length b < nil_mark
    → read_body (length b) (b ++ rest) ≡ (ok (some b), rest)
unfolding read_body
read_body_lem [] rest h = ground arith
read_body_lem (x ∷ xs) rest h =
    let unmarked : (suc (length xs) == nil_mark) ≡ false = ground arith in
    let nonempty : (suc (length xs) == 0) ≡ false = ground arith in
    rw (unmarked, nonempty, read_full-append (x ∷ xs) rest)

pub read_bytes_alt-frame :
    (b : Option Bytes) (rest : Bytes) → Fits b → read_bytes_alt (frame b ++ rest) ≡ (ok b, rest)
unfolding read_bytes_alt
read_bytes_alt-frame none rest h = rw (read_uint32-be_bytes nil_mark rest (omega arith))
read_bytes_alt-frame (some b) rest h =
    let small : length b % 2 ^ 32 ≡ length b = omega arith in
    rw
      (
        append_assoc (be_bytes 4 (length b % 2 ^ 32)) b rest,
        small,
        read_uint32-be_bytes (length b) (b ++ rest) (omega arith),
      )
      (read_body_lem b rest h)

-- A slice shorter than 2^32 - 1 bytes, or nil, is read back as it was written, and the reader stops
-- where the frame ends, whatever follows.
pub read_bytes_alt-write_bytes :
    (b : Option Bytes) (rest : Bytes)
    → Fits b
    → read_bytes_alt (sent (write_bytes buffer b) ++ rest) ≡ (ok b, rest)
read_bytes_alt-write_bytes b rest h =
    rw (write_bytes-eq-write buffer b) (read_bytes_alt-frame b rest h)

pub read_uint32-IsCut : (s : Bytes) → length s < 4 → IsCut (read_uint32 s).0
unfolding read_uint32
read_uint32-IsCut s h = ground (arith, read_full_short 4 s h)

pub length-take-lt : (n : ℕ) (s : Bytes) → n < length s → length (take n s) ≡ n
unfolding take
length-take-lt zero [] h = refl
length-take-lt zero (x ∷ s) h = refl
length-take-lt (suc n) [] h = absurd (omega arith)
length-take-lt (suc n) (x ∷ s) h = omega (arith, length-take-lt n s (omega arith))
