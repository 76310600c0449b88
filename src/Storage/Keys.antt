-- ===== src/Storage/Keys.antt =====
-- Keys of the database: the decimal form of an int64 (fmt.Sprintf("%v") and strconv.ParseInt), and
-- Go's conversion string(k), which is the UTF-8 form of one code point.
pub mod Decimal
use data_collection.Base.{
  ℕ, zero, suc, ◌+◌, ◌-◌, ◌*◌, ◌/◌, ◌%◌, ◌^◌, ◌≤◌, ◌<◌, ◌≡◌, refl, sym, ap, ◌∙◌, subst, ◌≢◌, ◌↔◌,
  ◌⊎◌, inl, inr, ite, if_pos, if_neg, Bool, true, false, not, ◌&&◌, ◌||◌, Option, none, some, List,
  [], ◌∷◌, ◌++◌, map, append-nil, append_assoc, arith, ℕ_discrete, ltb, leb, ◌==◌, if◌then◌else◌,
  Bool-cases, Option-cases, length, get_elem?, take, drop, keep, length-append, take-append,
  drop-append, length-keep-le, keep-append, keep-keep, All, ℤ, pos, negsuc, ℤ_discrete, pos_part,
  neg_part, ◌+ℤ◌, ◌-ℤ◌, ◌≤ℤ◌, ◌<ℤ◌, ltb_ℤ, leb_ℤ, eq_of_parts, Bytes, bytes_discrete, codes, Assoc,
  is_some, keys, same, contains, contains-keep, lookup, insert, delete, delete_all, Distinct,
  lookup-insert, lookup-insert_self, lookup-delete, lookup-delete_all, contains-keys,
  lookup-delete_kept, insert-Distinct, delete-Distinct, delete_all-Distinct, Outcome, ok, err,
  panic, Exec, pure, fail, crash, gets, attempt, continue, ◌>>=◌, ◌>>◌, modify,
}

-- `fuel` rounds are enough for `n` up to `fuel`
unfoldable pub emit : ℕ → ℕ → Bytes → Bytes
emit zero n out = out
emit (suc fuel) n out =
    let longer = emit fuel (n / 10) ((48 + n % 10) ∷ out) in
    if ltb n 10 then (48 + n) ∷ out else longer

unfoldable pub format_nat : ℕ → Bytes
unfolding emit
format_nat n = emit (suc n) n []

unfoldable pub format_int : ℤ → Bytes
unfolding format_nat
format_int (pos n) = format_nat n
format_int (negsuc n) = b'-' ∷ format_nat (suc n)

abbrev pub is_digit : ℕ → Bool
is_digit c = leb 48 c && leb c 57

unfoldable pub scan : ℕ → Bytes → Option ℕ
scan acc [] = some acc
scan acc (c ∷ s) = let rest = scan (acc * 10 + (c - 48)) s in if is_digit c then rest else none

-- digits, and at least one
unfoldable pub parse_nat : Bytes → Option ℕ
unfolding scan
parse_nat [] = none
parse_nat (c ∷ s) = scan 0 (c ∷ s)

abbrev pub at_most : ℕ → Option ℕ → Option ℕ
at_most limit none = none
at_most limit (some n) = if leb n limit then some n else none

abbrev pub negated : Option ℕ → Option ℤ
negated none = none
negated (some zero) = some (pos 0)
negated (some (suc n)) = some (negsuc n)

abbrev pub plain : Option ℕ → Option ℤ
plain none = none
plain (some n) = some (pos n)

-- strconv.ParseInt(s, 10, 64); `none` stands for its two errors
unfoldable pub parse_int : Bytes → Option ℤ
unfolding parse_nat
parse_int [] = none
parse_int (c ∷ s) =
    if c == b'-'
    then negated (at_most (2 ^ 63) (parse_nat s))
    else if c == b'+'
    then plain (at_most (2 ^ 63 - 1) (parse_nat s))
    else plain (at_most (2 ^ 63 - 1) (parse_nat (c ∷ s)))

-- U+FFFD
abbrev pub replacement : Bytes
replacement = 0xEF ∷ 0xBF ∷ 0xBD ∷ []

unfoldable pub utf8 : ℕ → Bytes
utf8 n =
    if ltb n 0x80
    then n ∷ []
    else if ltb n 0x800
    then (0xC0 + n / 64) ∷ (0x80 + n % 64) ∷ []
    else if (leb 0xD800 n && leb n 0xDFFF) || ltb 0x10FFFF n
    then replacement
    else if ltb n 0x10000
    then (0xE0 + n / 4096) ∷ (0x80 + n / 64 % 64) ∷ (0x80 + n % 64) ∷ []
    else (0xF0 + n / 262144) ∷ (0x80 + n / 4096 % 64) ∷ (0x80 + n / 64 % 64) ∷ (0x80 + n % 64) ∷ []

-- string(k) of an int64 `k`
unfoldable pub rune_string : ℤ → Bytes
unfolding utf8
rune_string (pos n) = utf8 n
rune_string (negsuc n) = replacement
