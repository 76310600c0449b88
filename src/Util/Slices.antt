-- ===== src/Util/Slices.antt =====
-- DifferenceSlice and RemoveKeyFromSlice against their descriptions.
use data_collection.Base.{
  ◌≡◌, refl, Bool, not, ◌&&◌, ◌||◌, List, [], ◌∷◌, arith, keep, Bytes, bytes_discrete, Assoc,
  is_some, same, contains, contains-keep, lookup, insert, lookup-insert,
}
use data_collection.Util.{remove_key_from_slice, set_of, missing_from, difference_slice}

abbrev pub has : List Bytes → Bytes → Bool
has slice v = contains bytes_discrete v slice

lookup-set_of :
    (v : Bytes) (slice : List Bytes) (m : Assoc Bytes Unit)
    → is_some (lookup bytes_discrete v (set_of slice m))
      ≡ (has slice v || is_some (lookup bytes_discrete v m))
unfolding set_of contains
lookup-set_of v [] m = refl
lookup-set_of v (x ∷ slice) m = ground (
  arith,
  lookup-set_of v slice (insert bytes_discrete x tt m),
  lookup-insert bytes_discrete x v tt m,
)

missing_from-keep :
    (slice other : List Bytes)
    → missing_from (set_of other []) slice ≡ keep (λ v. not (has other v)) slice
unfolding missing_from keep lookup
missing_from-keep [] other = refl
missing_from-keep (v ∷ slice) other =
    ground (arith, lookup-set_of v other [], missing_from-keep slice other)

-- DifferenceSlice returns the elements of the first slice that the second lacks, and those of the
-- second that the first lacks, each in the order and as often as its slice has them.
pub difference_slice_lem :
    (slice1 slice2 : List Bytes)
    → difference_slice slice1 slice2
      ≡ (keep (λ v. not (has slice2 v)) slice1, keep (λ v. not (has slice1 v)) slice2)
unfolding difference_slice
difference_slice_lem slice1 slice2 =
    ground (arith, missing_from-keep slice1 slice2, missing_from-keep slice2 slice1)

-- Applying the difference reaches the target: a hash stands in the first slice exactly if it is to
-- be added, or stands in the second and is not to be deleted.
pub difference_slice_reaches :
    (slice1 slice2 : List Bytes) (v : Bytes)
    → has slice1 v ≡ (
        has (difference_slice slice1 slice2).0 v
        || (has slice2 v && not (has (difference_slice slice1 slice2).1 v)))
difference_slice_reaches slice1 slice2 v = rw (difference_slice_lem slice1 slice2) (
    ground (
      arith,
      contains-keep bytes_discrete (λ x. not (has slice2 x)) v slice1,
      contains-keep bytes_discrete (λ x. not (has slice1 x)) v slice2,
    ))

-- RemoveKeyFromSlice drops the empty strings and nothing else.
remove_key-has :
    (slice : List Bytes) (v : Bytes)
    → has (remove_key_from_slice slice) v ≡ (not (same bytes_discrete v []) && has slice v)
unfolding remove_key_from_slice
remove_key-has slice v = contains-keep bytes_discrete (λ x. not (same bytes_discrete x [])) v slice
