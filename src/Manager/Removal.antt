-- ===== src/Manager/Removal.antt =====
-- The loop that ReplaceRunningPlugin and RemoveRunningPlugin of manager/lua_manager.go share: collect
-- the index of every running plugin once for each new one that it matches, sort the indices in
-- descending order, close and cut out the element at each. `none` is a run-time panic.
pub mod Indices
pub mod Exact
pub mod Once
use data_collection.Base.{
  ℕ, zero, suc, ◌+◌, ◌-◌, ◌*◌, ◌/◌, ◌%◌, ◌^◌, ◌≤◌, ◌<◌, ◌≡◌, refl, sym, ap, ◌∙◌, subst, ◌≢◌, ◌↔◌,
  ◌⊎◌, inl, inr, ite, if_pos, if_neg, Bool, true, false, not, ◌&&◌, ◌||◌, Option, none, some, List,
  [], ◌∷◌, ◌++◌, map, append-nil, append_assoc, arith, ℕ_discrete, ltb, leb, ltb→lt, leb→le, ◌==◌,
  if◌then◌else◌, Bool-cases, Option-cases, length, get_elem?, take, drop, keep, length-append,
  take-append, drop-append, length-keep-le, keep-append, keep-keep, All, ℤ, pos, negsuc, ℤ_discrete,
  pos_part, neg_part, ◌+ℤ◌, ◌-ℤ◌, ◌≤ℤ◌, ◌<ℤ◌, ltb_ℤ, leb_ℤ, eq_of_parts, Bytes, bytes_discrete,
  codes, Assoc, is_some, keys, same, same_self, contains, contains-keep, lookup, insert, delete,
  delete_all, Distinct, lookup-insert, lookup-insert_self, lookup-delete, lookup-delete_all,
  contains-keys, lookup-delete_kept, insert-Distinct, delete-Distinct, delete_all-Distinct, Outcome,
  ok, err, panic, Exec, pure, fail, crash, gets, attempt, continue, ◌>>=◌, ◌>>◌, modify,
}

infixl 10 ◌>>?◌
abbrev pub ◌>>?◌ : {A B : Type 0} → Option A → (A → Option B) → Option B
none >>? f = none
some a >>? f = f a

module _ {U A : Type 0} (matches : U → A → Bool) where
  -- the inner loop: the indices of the running elements that match, the first one at `i`
  unfoldable pub indices : U → ℕ → List A → List ℕ
  indices u i [] = []
  indices u i (x ∷ running) =
      let rest = indices u (suc i) running in if matches u x then i ∷ rest else rest

  unfoldable pub all_indices : List U → ℕ → List A → List ℕ
  unfolding indices
  all_indices [] i running = []
  all_indices (u ∷ us) i running = indices u i running ++ all_indices us i running

-- sort.Sort(sort.Reverse(sort.IntSlice(l)))
unfoldable pub sort_into : ℕ → List ℕ → List ℕ
sort_into a [] = a ∷ []
sort_into a (y ∷ ys) = let rest = sort_into a ys in if ltb a y then y ∷ rest else a ∷ y ∷ ys

unfoldable pub sort_reverse : List ℕ → List ℕ
unfolding sort_into
sort_reverse [] = []
sort_reverse (a ∷ l) = sort_into a (sort_reverse l)

module _ {A : Type 0} where
  -- l[i], and append(l[:i], l[i+1:]...)
  unfoldable pub cut : ℕ → List A → Option (A × List A)
  cut i [] = none
  cut zero (x ∷ l) = some (x, l)
  cut (suc i) (x ∷ l) = cut i l >>? λ (y, r). some (y, x ∷ r)

  -- what is left, and what has been closed, in order
  unfoldable pub cut_each : List ℕ → List A → List A → Option (List A × List A)
  unfolding cut
  cut_each [] running closed = some (running, closed)
  cut_each (i ∷ is) running closed =
      cut i running >>? λ (x, rest). cut_each is rest (closed ++ x ∷ [])

module _ {U A : Type 0} (matches : U → A → Bool) where
  unfoldable pub remove_matching : List U → List A → Option (List A × List A)
  unfolding all_indices sort_reverse cut_each
  remove_matching us running = cut_each (sort_reverse (all_indices matches us 0 running)) running []
