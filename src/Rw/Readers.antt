-- ===== src/Rw/Readers.antt =====
-- pkg/rw: the readers with an out parameter, the integer conversions, and streams that are cut.
use data_collection.Base.{
  ℕ, ◌+◌, ◌-◌, ◌%◌, ◌^◌, ◌<◌, ◌≡◌, refl, ap, subst, ◌≢◌, inl, inr, false, Option, none, some, [],
  ◌∷◌, ◌++◌, arith, ltb, ◌==◌, Bool-cases, length, take, drop, length-append, take-append, Bytes,
  Outcome, ok, err, panic, pure, fail, continue,
}
use native.Mathlib.Decide.{dec_lt}
use native.Mathlib.Nat.{zero-add, suc-add}
use data_collection.Rw.Endian.{
  RwError, remote, be_bytes, length-be_bytes, be_value-be_bytes, get_uint, uint64_to_bytes,
  uint32_to_bytes, uint16_to_bytes, bytes_to_uint32, bytes_to_uint16,
}
use data_collection.Rw.Frame.{
  Reader, read_full, read_uint32, read_body, store_body, store, read_bytes_alt, read_bytes,
  read_string_alt, read_error, nil_mark, reading,
}
use data_collection.Rw.Messages.{buffer, write_bytes}
use data_collection.Rw.RoundTrip.{
  sent, frame, Fits, IsCut, write_bytes-eq-write, read_full_short, read_uint32-IsCut,
  length-take-lt, read_uint32-be_bytes,
}

-- Storing what a reader returns: a failure leaves the target alone.
abbrev pub assign :
    {T : Type 0} → T → Outcome RwError T × Bytes → Outcome RwError Unit × (T × Bytes)
assign t (ok v, s) = (ok tt, (v, s))
assign t (err e, s) = (err e, (t, s))
assign t (panic, s) = (panic, (t, s))

store_read :
    (t : Option Bytes) (r : Outcome RwError Bytes) (s : Bytes)
    → continue {B = Unit} (reading (λ _. (r, s)) (t, s)).0 (λ b. store (some b)) (t, s)
      ≡ assign t (continue r (λ b. pure (some b)) s)
store_read t (ok b) s = refl
store_read t (err e) s = refl
store_read t panic s = refl

store_body-eq-assign :
    (n : ℕ) (t : Option Bytes) (s : Bytes) → store_body n (t, s) ≡ assign t (read_body n s)
unfolding store_body read_body
store_body-eq-assign n t s = elim (Bool-cases (n == nil_mark)) [
  | inl e ↦ rw e
  | inr e ↦ rw e (elim (Bool-cases (n == 0)) [
    | inl f ↦ rw f
    | inr f ↦ rw f (store_read t (read_full n s).0 (read_full n s).1)
  ])
]

resume :
    (t : Option Bytes) (r : Outcome RwError ℕ) (s : Bytes)
    → continue r store_body (t, s) ≡ assign t (continue r read_body s)
resume t (ok n) s = store_body-eq-assign n t s
resume t (err e) s = refl
resume t panic s = refl

-- ReadBytes stores exactly what ReadBytesAlt returns, fails exactly when it fails, and then leaves
-- the target as it was; both consume the same bytes.
pub read_bytes-eq-assign :
    (t : Option Bytes) (s : Bytes) → read_bytes (t, s) ≡ assign t (read_bytes_alt s)
unfolding read_bytes read_bytes_alt
read_bytes-eq-assign t s = resume t (read_uint32 s).0 (read_uint32 s).1

never_ok :
    (t : Option RwError) (r : Outcome RwError Bytes) (s : Bytes)
    → ((continue {S = Option RwError × Bytes} {B = Unit} r (λ b. fail (remote b)) (t, s)).0 ≢ ok tt)
      × ((continue {S = Option RwError × Bytes} {B = Unit} r (λ b. fail (remote b)) (t, s)).1.0 ≡ t)
never_ok t (ok b) s = (λ e. cc, refl)
never_ok t (err x) s = (λ e. cc, refl)
never_ok t panic s = (λ e. cc, refl)

-- ReadError never succeeds, also when it has read an error, and never sets its target.
pub read_error_never_ok :
    (t : Option RwError) (s : Bytes)
    → ((read_error (t, s)).0 ≢ ok tt) × ((read_error (t, s)).1.0 ≡ t)
unfolding read_error
read_error_never_ok t s = never_ok t (read_string_alt s).0 (read_string_alt s).1

get_uint-be_bytes : (k v : ℕ) → v < 256 ^ k → get_uint k (be_bytes k v ++ []) ≡ ok v
unfolding get_uint
get_uint-be_bytes k v h =
    let long : ltb (length (be_bytes k v ++ [])) k ≡ false =
      ground (arith, length-append (be_bytes k v) [], length-be_bytes k v) in
    let whole : take k (be_bytes k v ++ []) ≡ be_bytes k v =
      subst (λ j. take j (be_bytes k v ++ []) ≡ be_bytes k v) (length-be_bytes k v)
        (take-append (be_bytes k v) []) in
    rw (long, whole, be_value-be_bytes k v h)

-- Conversions through a fresh buffer: every 16 and 32 bit value comes back as it was, and
-- Uint64ToBytes panics at every value, since its buffer has 4 bytes.
pub integer_conversions :
    (v : ℕ)
    → ((b : Bytes) × (uint32_to_bytes (v % 2 ^ 32) ≡ ok b) × (bytes_to_uint32 b ≡ ok (v % 2 ^ 32)))
      × ((b : Bytes) × (uint16_to_bytes (v % 2 ^ 16) ≡ ok b)
          × (bytes_to_uint16 b ≡ ok (v % 2 ^ 16)))
      × (uint64_to_bytes v ≡ panic)
unfolding uint64_to_bytes uint32_to_bytes uint16_to_bytes bytes_to_uint32 bytes_to_uint16 drop
integer_conversions v =
    let w32 = v % 2 ^ 32 in
    let w16 = v % 2 ^ 16 in
    (
      (be_bytes 4 w32 ++ [], refl, get_uint-be_bytes 4 w32 (omega arith)),
      (be_bytes 2 w16 ++ [], refl, get_uint-be_bytes 2 w16 (omega arith)),
      refl,
    )

-- a failure to read passes through the rest of a read
continue-IsCut :
    {A B : Type 0} (f : A → Reader B) (r : Outcome RwError A) (s : Bytes)
    → IsCut r
    → IsCut (continue r f s).0
continue-IsCut f (ok a) s h = ground arith
continue-IsCut f (err e) s h = ground arith
continue-IsCut f panic s h = ground arith

body-IsCut : (n : ℕ) (s : Bytes) → n < nil_mark → length s < n → IsCut (read_body n s).0
unfolding read_body
body-IsCut n s small h =
    let unmarked : (n == nil_mark) ≡ false = ground arith in
    let nonempty : (n == 0) ≡ false = ground arith in
    rw (unmarked, nonempty)
      (continue-IsCut (λ b. pure (some b)) (read_full n s).0 (read_full n s).1
        (read_full_short n s h))

take_past : (n : ℕ) (xs ys : Bytes) → take (length xs + n) (xs ++ ys) ≡ xs ++ take n ys
unfolding take
take_past n [] ys = rw zero-add
take_past n (x ∷ xs) ys = rw suc-add (ap (◌∷◌ x) (take_past n xs ys))

IsCut-within :
    (n : ℕ) (b : Bytes)
    → length b < nil_mark
    → n < length b
    → IsCut (read_bytes_alt (be_bytes 4 (length b) ++ take n b)).0
unfolding read_bytes_alt
IsCut-within n b h lt =
    rw (read_uint32-be_bytes (length b) (take n b) (omega arith))
      (body-IsCut (length b) (take n b) h (omega (arith, length-take-lt n b lt)))

IsCut-before : (n : ℕ) (s : Bytes) → n < 4 → n < length s → IsCut (read_bytes_alt (take n s)).0
unfolding read_bytes_alt
IsCut-before n s h lt =
    let r = read_uint32 (take n s) in
    continue-IsCut read_body r.0 r.1
      (read_uint32-IsCut (take n s) (omega (arith, length-take-lt n s lt)))

frame-IsCut :
    (n : ℕ) (b : Option Bytes)
    → Fits b
    → n < length (frame b)
    → IsCut (read_bytes_alt (take n (frame b))).0
frame-IsCut n none h lt = IsCut-before n (frame none) (omega (arith, length-be_bytes 4 nil_mark)) lt
frame-IsCut n (some b) h lt = elim (dec_lt n 4) [
  | yes p ↦ IsCut-before n (frame (some b)) p lt
  | no p ↦
      let small : length b % 2 ^ 32 ≡ length b = omega arith in
      let head = length-be_bytes 4 (length b % 2 ^ 32) in
      let shift : n ≡ length (be_bytes 4 (length b % 2 ^ 32)) + (n - 4) = omega arith in
      rw (shift, take_past (n - 4) (be_bytes 4 (length b % 2 ^ 32)) b, small)
        (IsCut-within (n - 4) b h (omega (arith, length-append (be_bytes 4 (length b % 2 ^ 32)) b)))
]

-- A frame that breaks off anywhere is reported as the end of the stream, never as a slice.
pub read_bytes_alt-IsCut :
    (n : ℕ) (b : Option Bytes)
    → Fits b
    → n < length (sent (write_bytes buffer b))
    → IsCut (read_bytes_alt (take n (sent (write_bytes buffer b)))).0
read_bytes_alt-IsCut n b h = rw (write_bytes-eq-write buffer b) (frame-IsCut n b h)
