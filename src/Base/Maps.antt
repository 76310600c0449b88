-- ===== src/Base/Maps.antt =====
-- Go's maps as association lists over keys with decidable equality. A key stands at most once in
-- what `insert` builds; the order of the entries is one order in which `range` may visit them.
use mathlib.Core.Path.{◌≡◌, refl}
use mathlib.Core.Bool.{Bool, true, false, ◌&&◌, ◌||◌}
use mathlib.Core.Logic.{ite}
use mathlib.Core.Option.{Option, none, some}
use mathlib.Core.List.{List, [], ◌∷◌}
use native.Mathlib.Omega.{arith}
use data_collection.Base.Tests.{if◌then◌else◌}
use data_collection.Base.Lists.{keep}

abbrev pub Assoc {ℓ} : Type ℓ → Type ℓ → Type ℓ
Assoc K V = List (K × V)

-- `_, ok := m[k]`
abbrev pub is_some {ℓ} : {A : Type ℓ} → Option A → Bool
is_some none = false
is_some (some a) = true

module _ {ℓ} {K V : Type ℓ} where
  unfoldable pub keys : Assoc K V → List K
  keys [] = []
  keys ((k, v) ∷ m) = k ∷ keys m

module _ {ℓ} {K : Type ℓ} (dec : Discrete K) where
  -- Go's `==` on keys
  abbrev pub same : K → K → Bool
  same a b = elim (dec a b) [ yes _ ↦ true | no _ ↦ false ]

  unfoldable pub contains : K → List K → Bool
  contains k [] = false
  contains k (j ∷ js) = same j k || contains k js

  pub same_self : (k : K) → same k k ≡ true
  same_self k = ground arith

  pub contains-keep :
      (p : K → Bool) (k : K) (js : List K) → contains k (keep p js) ≡ (p k && contains k js)
  unfolding contains keep
  contains-keep p k [] = ground arith
  contains-keep p k (j ∷ js) = ground (arith, contains-keep p k js)

module _ {ℓ} {K V : Type ℓ} (dec : Discrete K) where
  unfoldable pub lookup : K → Assoc K V → Option V
  lookup k [] = none
  lookup k ((j, v) ∷ m) = ite (dec j k) (some v) (lookup k m)

  -- `m[k] = v`
  unfoldable pub insert : K → V → Assoc K V → Assoc K V
  insert k v [] = (k, v) ∷ []
  insert k v ((j, w) ∷ m) = ite (dec j k) ((k, v) ∷ m) ((j, w) ∷ insert k v m)

  -- `delete(m, k)`
  unfoldable pub delete : K → Assoc K V → Assoc K V
  delete k [] = []
  delete k ((j, v) ∷ m) = let rest = delete k m in ite (dec j k) rest ((j, v) ∷ rest)

  -- `for _, k := range ks { delete(m, k) }`
  unfoldable pub delete_all : List K → Assoc K V → Assoc K V
  delete_all [] m = m
  delete_all (k ∷ ks) m = delete_all ks (delete k m)

  -- every key stands once, as in a map
  abbrev pub Distinct : Assoc K V → Type ℓ
  Distinct [] = Unit
  Distinct ((k, v) ∷ m) = (lookup k m ≡ none) × Distinct m

  pub lookup-insert :
      (k j : K) (v : V) (m : Assoc K V)
      → lookup j (insert k v m) ≡ ite (dec k j) (some v) (lookup j m)
  unfolding lookup insert
  lookup-insert k j v [] = refl
  lookup-insert k j v ((i, w) ∷ m) = ground (arith, lookup-insert k j v m)

  pub lookup-insert_self : (k : K) (v : V) (m : Assoc K V) → lookup k (insert k v m) ≡ some v
  lookup-insert_self k v m = ground (arith, lookup-insert k k v m)

  pub lookup-delete :
      (k j : K) (m : Assoc K V) → lookup j (delete k m) ≡ ite (dec k j) none (lookup j m)
  unfolding lookup delete
  lookup-delete k j [] = ground arith
  lookup-delete k j ((i, v) ∷ m) = ground (arith, lookup-delete k j m)

  pub lookup-delete_all :
      (ks : List K) (j : K) (m : Assoc K V)
      → lookup j (delete_all ks m) ≡ (if contains dec j ks then none else lookup j m)
  unfolding delete_all contains
  lookup-delete_all [] j m = refl
  lookup-delete_all (k ∷ ks) j m =
      ground (arith, lookup-delete_all ks j (delete k m), lookup-delete k j m)

  pub contains-keys : (j : K) (m : Assoc K V) → contains dec j (keys m) ≡ is_some (lookup j m)
  unfolding contains keys lookup
  contains-keys j [] = refl
  contains-keys j ((k, v) ∷ m) = ground (arith, contains-keys j m)

  -- deleting the keys that pass a test leaves the other entries
  pub lookup-delete_kept :
      (p : K → Bool) (j : K) (m : Assoc K V)
      → lookup j (delete_all (keep p (keys m)) m) ≡ (if p j then none else lookup j m)
  lookup-delete_kept p j m = ground (
    arith,
    lookup-delete_all (keep p (keys m)) j m,
    contains-keep dec p j (keys m),
    contains-keys j m,
  )

  pub insert-Distinct : (k : K) (v : V) (m : Assoc K V) → Distinct m → Distinct (insert k v m)
  unfolding insert lookup
  insert-Distinct k v [] d = (refl, tt)
  insert-Distinct k v ((j, w) ∷ m) d =
      ground (arith, lookup-insert k j v m, insert-Distinct k v m d.1)

  pub delete-Distinct : (k : K) (m : Assoc K V) → Distinct m → Distinct (delete k m)
  unfolding delete lookup
  delete-Distinct k [] d = tt
  delete-Distinct k ((j, w) ∷ m) d = ground (arith, lookup-delete k j m, delete-Distinct k m d.1)

  pub delete_all-Distinct : (ks : List K) (m : Assoc K V) → Distinct m → Distinct (delete_all ks m)
  unfolding delete_all
  delete_all-Distinct [] m d = d
  delete_all-Distinct (k ∷ ks) m d = delete_all-Distinct ks (delete k m) (delete-Distinct k m d)
