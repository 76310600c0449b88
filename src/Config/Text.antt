-- ===== src/Config/Text.antt =====
-- What the parsing of a marking uses of Go's package strings, on bytes. Of the white space that
-- TrimSpace removes, the bytes of ASCII.
use data_collection.Base.{
  ℕ, zero, suc, ◌-◌, Bool, true, false, ◌&&◌, ◌||◌, List, [], ◌∷◌, ◌++◌, leb, ◌==◌, if◌then◌else◌,
  length, Bytes,
}

unfoldable pub starts_with : Bytes → Bytes → Bool
starts_with [] s = true
starts_with (x ∷ p) [] = false
starts_with (x ∷ p) (y ∷ s) = x == y && starts_with p s

-- strings.Contains
unfoldable pub contains_text : Bytes → Bytes → Bool
unfolding starts_with
contains_text p [] = starts_with p []
contains_text p (x ∷ s) = starts_with p (x ∷ s) || contains_text p s

-- strings.Split by a separator that is not empty: behind `skip` bytes of the separator, the piece so
-- far is `piece`
unfoldable pub split_from : Bytes → ℕ → Bytes → Bytes → List Bytes
unfolding starts_with
split_from sep skip piece [] = piece ∷ []
split_from sep (suc skip) piece (x ∷ s) = split_from sep skip piece s
split_from sep zero piece (x ∷ s) =
    let cut = split_from sep (length sep - 1) [] s in
    let on = split_from sep zero (piece ++ x ∷ []) s in
    if starts_with sep (x ∷ s) then piece ∷ cut else on

abbrev pub split : Bytes → Bytes → List Bytes
split s sep = split_from sep 0 [] s

abbrev pub space : ℕ → Bool
space x = x == 32 || (leb 9 x && leb x 13)

unfoldable pub trim_left : Bytes → Bytes
trim_left [] = []
trim_left (x ∷ s) = if space x then trim_left s else x ∷ s

unfoldable pub trim_right : Bytes → Bytes
trim_right [] = []
trim_right (x ∷ s) = elim (trim_right s) [ [] ↦ if space x then [] else x ∷ [] | y ∷ r ↦ x ∷ y ∷ r ]

abbrev pub trim_space : Bytes → Bytes
trim_space s = trim_right (trim_left s)
