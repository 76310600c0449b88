-- ===== src/Util.antt =====
-- pkg/util/util.go: sorting, the difference of two slices, and the machine id. Opening files and
-- downloading are calls of the system, and stay outside.
pub mod Sort
pub mod Slices
use data_collection.Base.{
  ℕ, zero, suc, ◌+◌, ◌-◌, ◌*◌, ◌/◌, ◌%◌, ◌^◌, ◌≤◌, ◌<◌, ◌≡◌, refl, sym, ap, ◌∙◌, subst, ◌≢◌, ◌↔◌,
  ◌⊎◌, inl, inr, ite, if_pos, if_neg, Bool, true, false, not, ◌&&◌, ◌||◌, Option, none, some, List,
  [], ◌∷◌, ◌++◌, map, append-nil, append_assoc, arith, ℕ_discrete, ltb, leb, ◌==◌, if◌then◌else◌,
  Bool-cases, Option-cases, length, get_elem?, take, drop, keep, length-append, take-append,
  drop-append, length-keep-le, keep-append, keep-keep, All, ℤ, pos, negsuc, ℤ_discrete, pos_part,
  neg_part, ◌+ℤ◌, ◌-ℤ◌, ◌≤ℤ◌, ◌<ℤ◌, ltb_ℤ, leb_ℤ, eq_of_parts, Bytes, bytes_discrete, codes, Assoc,
  is_some, keys, same, contains, contains-keep, lookup, insert, delete, delete_all, Distinct,
  lookup-insert, lookup-insert_self, lookup-delete, lookup-delete_all, contains-keys,
  lookup-delete_kept, insert-Distinct, delete-Distinct, delete_all-Distinct, Outcome, ok, err,
  panic, Exec, pure, fail, crash, gets, attempt, continue, ◌>>=◌, ◌>>◌, modify,
}

unfoldable pub sort_into : ℤ → List ℤ → List ℤ
sort_into x [] = x ∷ []
sort_into x (y ∷ ys) = let rest = sort_into x ys in if ltb_ℤ y x then y ∷ rest else x ∷ y ∷ ys

-- SortInt64: sort.SliceStable by `<`
unfoldable pub sort_int64 : List ℤ → List ℤ
unfolding sort_into
sort_int64 [] = []
sort_int64 (x ∷ xs) = sort_into x (sort_int64 xs)

-- RemoveKeyFromSlice
unfoldable pub remove_key_from_slice : List Bytes → List Bytes
unfolding keep
remove_key_from_slice slice1 = keep (λ key. not (same bytes_discrete key [])) slice1

-- `for _, v := range slice { m[v] = struct{}{} }`
unfoldable pub set_of : List Bytes → Assoc Bytes Unit → Assoc Bytes Unit
set_of [] m = m
set_of (v ∷ slice) m = set_of slice (insert bytes_discrete v tt m)

-- `for _, v := range slice { if _, ok := m[v]; !ok { out = append(out, v) } }`
unfoldable pub missing_from : Assoc Bytes Unit → List Bytes → List Bytes
unfolding keep
missing_from m slice = keep (λ v. not (is_some (lookup bytes_discrete v m))) slice

-- DifferenceSlice: what is to be added, and what is to be deleted
unfoldable pub difference_slice : List Bytes → List Bytes → List Bytes × List Bytes
unfolding set_of missing_from
difference_slice slice1 slice2 =
    let m1 = set_of slice2 [] in
    let add = missing_from m1 slice1 in
    let m2 = set_of slice1 [] in let del = missing_from m2 slice2 in (add, del)

-- GetMachineId; `local_id` is what machineid.ID returns, `none` for its error.
unfoldable pub get_machine_id : Bytes → Bytes → Option Bytes → Bytes
get_machine_id special_machine_id default_machine_id local_id =
    if not (same bytes_discrete special_machine_id [])
    then special_machine_id
    else elim local_id [ none ↦ default_machine_id | some id ↦ id ]
