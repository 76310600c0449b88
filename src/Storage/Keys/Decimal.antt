-- ===== src/Storage/Keys/Decimal.antt =====
-- A decimal key is read back as the number that it was made of.
use data_collection.Base.{
  ℕ, zero, suc, ◌+◌, ◌-◌, ◌*◌, ◌/◌, ◌%◌, ◌^◌, ◌<◌, ◌≡◌, refl, ap, ◌∙◌, inl, inr, true, false, ◌&&◌,
  some, [], ◌∷◌, arith, ltb, leb, ltb→lt, ◌==◌, Bool-cases, ℤ, pos, negsuc, Bytes,
}
use data_collection.Storage.Keys.{
  emit, format_nat, format_int, scan, parse_nat, parse_int, at_most, plain,
}

scan-digit : (acc d : ℕ) (s : Bytes) → d < 10 → scan acc ((48 + d) ∷ s) ≡ scan (acc * 10 + d) s
unfolding scan
scan-digit acc d s h =
    let digit : (leb 48 (48 + d) && leb (48 + d) 57) ≡ true = ground arith in
    let value : acc * 10 + (48 + d - 48) ≡ acc * 10 + d = omega arith in rw (digit, value)

-- what has been emitted is scanned as the digits of `n`
scan-emit : (fuel n : ℕ) (out : Bytes) → n < fuel → scan 0 (emit fuel n out) ≡ scan n out
unfolding emit
scan-emit zero n out h = absurd (omega arith)
scan-emit (suc fuel) n out h = elim (Bool-cases (ltb n 10)) [
  | inl e ↦ rw e (scan-digit 0 n out (ltb→lt n 10 e) ∙ ap (λ (a : ℕ). scan a out) (omega arith))
  | inr e ↦ rw e (
      scan-emit fuel (n / 10) ((48 + n % 10) ∷ out) (ground arith)
      ∙ scan-digit (n / 10) (n % 10) out (omega arith)
      ∙ ap (λ (a : ℕ). scan a out) (omega arith))
]

abbrev Starts : Bytes → Type 0
Starts b = (d : ℕ) × (s : Bytes) × (b ≡ (48 + d) ∷ s) × (d < 10)

-- the first character is a digit
emit_start : (fuel n : ℕ) (out : Bytes) → n < fuel → Starts (emit fuel n out)
unfolding emit
emit_start zero n out h = absurd (omega arith)
emit_start (suc fuel) n out h = elim (Bool-cases (ltb n 10)) [
  | inl e ↦ (n, out, rw e, ltb→lt n 10 e)
  | inr e ↦
      let (d, s, starts, small) = emit_start fuel (n / 10) ((48 + n % 10) ∷ out) (ground arith) in
      (d, s, rw e starts, small)
]

format_nat_start : (n : ℕ) → Starts (format_nat n)
unfolding format_nat
format_nat_start n = emit_start (suc n) n [] (omega arith)

parse_nat-scan : (b : Bytes) → Starts b → parse_nat b ≡ scan 0 b
unfolding parse_nat
parse_nat-scan [] (d, s, starts, small) = cc
parse_nat-scan (c ∷ b) h = refl

scan-format_nat : (n : ℕ) → scan 0 (format_nat n) ≡ some n
unfolding format_nat scan
scan-format_nat n = scan-emit (suc n) n [] (omega arith)

parse_nat-format_nat : (n : ℕ) → parse_nat (format_nat n) ≡ some n
parse_nat-format_nat n = parse_nat-scan (format_nat n) (format_nat_start n) ∙ scan-format_nat n

parse_digits : (b : Bytes) → Starts b → parse_int b ≡ plain (at_most (2 ^ 63 - 1) (parse_nat b))
unfolding parse_int
parse_digits b (d, s, starts, small) = rw starts (
    let minus : (48 + d == b'-') ≡ false = ground arith in
    let plus : (48 + d == b'+') ≡ false = ground arith in rw (minus, plus))

abbrev pub IsInt64 : ℤ → Type 0
IsInt64 (pos n) = n < 2 ^ 63
IsInt64 (negsuc n) = n < 2 ^ 63

-- int64 values and their decimal forms
pub parse_int-format_int : (k : ℤ) → IsInt64 k → parse_int (format_int k) ≡ some k
unfolding format_int
parse_int-format_int (pos n) h =
    let fits : leb n (2 ^ 63 - 1) ≡ true = ground arith in
    rw (parse_digits (format_nat n) (format_nat_start n), parse_nat-format_nat n, fits)
parse_int-format_int (negsuc n) h =
    let fits : leb (suc n) (2 ^ 63) ≡ true = ground arith in
    unfold parse_int in rw (parse_nat-format_nat (suc n), fits)
