-- ===== src/Util/Sort.antt =====
-- SortInt64 sorts: the result ascends and is a rearrangement of the input.
use mathlib.Core.List.{Perm}
use mathlib.Core.List.Perm
use data_collection.Base.{
  ◌≡◌, refl, inl, inr, List, [], ◌∷◌, arith, Bool-cases, All, ℤ, ℤ_discrete, ◌≤ℤ◌, ltb_ℤ, contains,
}
use data_collection.Util.{sort_into, sort_int64}

abbrev pub Ascends : List ℤ → Type 0
Ascends [] = Unit
Ascends (x ∷ xs) = All (λ y. x ≤ℤ y) xs × Ascends xs

All-le_trans : (x y : ℤ) (l : List ℤ) → x ≤ℤ y → All (λ z. y ≤ℤ z) l → All (λ z. x ≤ℤ z) l
All-le_trans x y [] h a = tt
All-le_trans x y (z ∷ l) h a = (omega (arith, a.0), All-le_trans x y l h a.1)

sort_into-All :
    (b x : ℤ) (l : List ℤ) → b ≤ℤ x → All (λ z. b ≤ℤ z) l → All (λ z. b ≤ℤ z) (sort_into x l)
unfolding sort_into
sort_into-All b x [] h a = (h, tt)
sort_into-All b x (y ∷ l) h a = elim (Bool-cases (ltb_ℤ y x)) [
  | inl e ↦ rw e (a.0, sort_into-All b x l h a.1)
  | inr e ↦ rw e (h, a)
]

sort_into-Ascends : (x : ℤ) (l : List ℤ) → Ascends l → Ascends (sort_into x l)
unfolding sort_into
sort_into-Ascends x [] a = (tt, tt)
sort_into-Ascends x (y ∷ l) a = elim (Bool-cases (ltb_ℤ y x)) [
  | inl e ↦ rw e (sort_into-All y x l (ground arith) a.0, sort_into-Ascends x l a.1)
  | inr e ↦ let le : x ≤ℤ y = ground arith in rw e ((le, All-le_trans x y l le a.0), a)
]

sort_int64-Ascends : (l : List ℤ) → Ascends (sort_int64 l)
unfolding sort_int64
sort_int64-Ascends [] = tt
sort_int64-Ascends (x ∷ l) = sort_into-Ascends x (sort_int64 l) (sort_int64-Ascends l)

sort_into-perm : (x : ℤ) (l : List ℤ) → Perm (sort_into x l) (x ∷ l)
unfolding sort_into
sort_into-perm x [] = Perm.refl (x ∷ [])
sort_into-perm x (y ∷ l) = elim (Bool-cases (ltb_ℤ y x)) [
  | inl e ↦ rw e (Perm.trans (Perm.cons y (sort_into-perm x l)) (Perm.swap x y l))
  | inr e ↦ rw e (Perm.refl (x ∷ y ∷ l))
]

sort_int64-perm : (l : List ℤ) → Perm (sort_int64 l) l
unfolding sort_int64
sort_int64-perm [] = Perm.refl []
sort_int64-perm (x ∷ l) =
    Perm.trans (sort_into-perm x (sort_int64 l)) (Perm.cons x (sort_int64-perm l))

-- The result of SortInt64 ascends and holds the elements of the input, as often as it does.
pub sort_int64_lem : (l : List ℤ) → Ascends (sort_int64 l) × Perm (sort_int64 l) l
sort_int64_lem l = (sort_int64-Ascends l, sort_int64-perm l)

contains-sort_into :
    (k x : ℤ) (l : List ℤ) → contains ℤ_discrete k (sort_into x l) ≡ contains ℤ_discrete k (x ∷ l)
unfolding sort_into contains
contains-sort_into k x [] = refl
contains-sort_into k x (y ∷ l) = ground (arith, contains-sort_into k x l)

-- sorting keeps the elements
pub contains-sort_int64 :
    (k : ℤ) (l : List ℤ) → contains ℤ_discrete k (sort_int64 l) ≡ contains ℤ_discrete k l
unfolding sort_int64 contains
contains-sort_int64 k [] = refl
contains-sort_int64 k (x ∷ l) =
    ground (arith, contains-sort_into k x (sort_int64 l), contains-sort_int64 k l)
