-- ===== src/Storage/Metric/Search.antt =====
-- Metric.Search: what a search of a window returns.
use mathlib.Core.List.{Perm}
use data_collection.Base.{
  ◌≡◌, refl, sym, ◌∙◌, subst, ◌⊎◌, inl, inr, Bool, true, ◌&&◌, none, some, List, [], ◌∷◌, ◌++◌,
  append-nil, append_assoc, arith, if◌then◌else◌, Bool-cases, keep, ℤ, ℤ_discrete, ◌≤ℤ◌, ◌<ℤ◌,
  ltb_ℤ, leb_ℤ, Bytes, Assoc, is_some, keys, contains, contains-keep, lookup, insert, lookup-insert,
  contains-keys, ok, err,
}
use data_collection.Util.{sort_int64}
use data_collection.Util.Sort.{Ascends, sort_int64_lem, contains-sort_int64}
use data_collection.Storage.Metric.{
  Metric, param_error, value_at, in_window, search_step, search_loop, search,
}

module _ (start end : ℤ) (fields : Assoc ℤ Bytes) where
  loop-keys :
      (ks found : List ℤ) (cache : Assoc ℤ Bytes)
      → (search_loop start end fields ks (found, cache)).0 ≡ found ++ keep (in_window start end) ks
  unfolding search_loop search_step keep
  loop-keys [] found cache = sym (append-nil found)
  loop-keys (k ∷ ks) found cache = ground (
    arith,
    loop-keys ks (found ++ k ∷ []) (insert ℤ_discrete k (value_at k fields) cache),
    loop-keys ks found cache,
    append_assoc found (k ∷ []) (keep (in_window start end) ks),
  )

  loop-cache :
      (j : ℤ) (ks found : List ℤ) (cache : Assoc ℤ Bytes)
      → lookup ℤ_discrete j (search_loop start end fields ks (found, cache)).1 ≡ (
          if in_window start end j && contains ℤ_discrete j ks
          then some (value_at j fields)
          else lookup ℤ_discrete j cache)
  unfolding search_loop search_step contains
  loop-cache j [] found cache = ground arith
  loop-cache j (k ∷ ks) found cache = ground (
    arith,
    loop-cache j ks (found ++ k ∷ []) (insert ℤ_discrete k (value_at k fields) cache),
    lookup-insert ℤ_discrete k j (value_at k fields) cache,
    loop-cache j ks found cache,
  )

  -- the cache that a search returns
  lookup-found :
      (j : ℤ)
      → lookup ℤ_discrete j (search_loop start end fields (keys fields) ([], [])).1
        ≡ (if in_window start end j then lookup ℤ_discrete j fields else none)
  unfolding value_at lookup
  lookup-found j =
      ground (arith, loop-cache j (keys fields) [] [], contains-keys ℤ_discrete j fields)

-- What Search promises for the window from `start` up to `end`.
pub record Finds (c : Metric) (start end : ℤ) (ks : List ℤ) (cache : Assoc ℤ Bytes) : Type 0 where
  pub ascends : Ascends ks
  pub entries :
      (k : ℤ)
      → lookup ℤ_discrete k cache
        ≡ (if leb_ℤ start k && ltb_ℤ k end then lookup ℤ_discrete k c.fields else none)
  pub keyed : (k : ℤ) → contains ℤ_discrete k ks ≡ is_some (lookup ℤ_discrete k cache)
  pub once : Perm ks (keep (λ k. is_some (lookup ℤ_discrete k cache)) (keys c.fields))

keep_congr :
    (p q : ℤ → Bool) (ks : List ℤ)
    → ((k : ℤ) → contains ℤ_discrete k ks ≡ true → p k ≡ q k)
    → keep p ks ≡ keep q ks
unfolding keep contains
keep_congr p q [] h = refl
keep_congr p q (k ∷ ks) h = ground (arith, h k, keep_congr p q ks (λ j e. h j (ground arith)))

window :
    (start end k : ℤ) (fields : Assoc ℤ Bytes)
    → (if in_window start end k then lookup ℤ_discrete k fields else none)
      ≡ (if leb_ℤ start k && ltb_ℤ k end then lookup ℤ_discrete k fields else none)
unfolding in_window
window start end k fields = ground arith

module _ (start end : ℤ) (c : Metric) where
  abbrev looped : List ℤ × Assoc ℤ Bytes
  looped = search_loop start end c.fields (keys c.fields) ([], [])

  looped-keep : looped.0 ≡ keep (λ k. is_some (lookup ℤ_discrete k looped.1)) (keys c.fields)
  looped-keep =
      loop-keys start end c.fields (keys c.fields) [] []
      ∙ keep_congr (in_window start end) (λ k. is_some (lookup ℤ_discrete k looped.1))
          (keys c.fields)
          λ k e.
            ground (arith, lookup-found start end c.fields k, contains-keys ℤ_discrete k c.fields)

  looped-Finds : Finds c start end (sort_int64 looped.0) looped.1
  looped-Finds = record {
    ascends = (sort_int64_lem looped.0).0;
    entries = λ k. lookup-found start end c.fields k ∙ window start end k c.fields;
    keyed = λ k. ground (
      arith,
      lookup-found start end c.fields k,
      contains-sort_int64 k looped.0,
      loop-keys start end c.fields (keys c.fields) [] [],
      contains-keep ℤ_discrete (in_window start end) k (keys c.fields),
      contains-keys ℤ_discrete k c.fields,
    );
    once = subst (Perm (sort_int64 looped.0)) looped-keep (sort_int64_lem looped.0).1;
  }

  -- A search with `start` after `end` is an error, and any other succeeds with the entries of the window,
  -- their times in ascending order.
  pub search-Finds :
      ((end <ℤ start) × (search start end c ≡ err param_error))
      ⊎ ((start ≤ℤ end)
          × ((ks : List ℤ) × (cache : Assoc ℤ Bytes) × (search start end c ≡ ok (ks, cache))
              × Finds c start end ks cache))
  unfolding search
  search-Finds = elim (Bool-cases (leb_ℤ start end)) [
    | inl e ↦ inr (ground arith, (sort_int64 looped.0, looped.1, ground arith, looped-Finds))
    | inr e ↦ inl (ground arith, ground arith)
  ]
