-- ===== src/Storage/Metric.antt =====
-- storage/metric.go: the cached data of one plugin, and the indexed field lists.
pub mod Search
pub mod History
use data_collection.Base.{
  ℕ, zero, suc, ◌+◌, ◌-◌, ◌*◌, ◌/◌, ◌%◌, ◌^◌, ◌≤◌, ◌<◌, ◌≡◌, refl, sym, ap, ◌∙◌, subst, ◌≢◌, ◌↔◌,
  ◌⊎◌, inl, inr, ite, if_pos, if_neg, Bool, true, false, not, ◌&&◌, ◌||◌, Option, none, some, List,
  [], ◌∷◌, ◌++◌, map, append-nil, append_assoc, arith, ℕ_discrete, ltb, leb, ◌==◌, if◌then◌else◌,
  Bool-cases, Option-cases, length, get_elem?, take, drop, keep, length-append, take-append,
  drop-append, length-keep-le, keep-append, keep-keep, All, ℤ, pos, negsuc, ℤ_discrete, pos_part,
  neg_part, ◌+ℤ◌, ◌-ℤ◌, ◌≤ℤ◌, ◌<ℤ◌, ltb_ℤ, leb_ℤ, eq_of_parts, Bytes, bytes_discrete, codes, Assoc,
  is_some, keys, same, contains, contains-keep, lookup, insert, delete, delete_all, Distinct,
  lookup-insert, lookup-insert_self, lookup-delete, lookup-delete_all, contains-keys,
  lookup-delete_kept, insert-Distinct, delete-Distinct, delete_all-Distinct, Outcome, ok, err,
  panic, Exec, pure, fail, crash, gets, attempt, continue, ◌>>=◌, ◌>>◌, modify,
}
use data_collection.Util.{sort_int64}

pub data StorageError : Type 0 where
  timestamp_existed param_error no_field no_tag no_item different_indicator : StorageError
  db_null bucket_missing key_not_found no_data metadata_empty not_open : StorageError
  json_error not_a_number : StorageError
  bolt : ℕ → StorageError

-- An error value that a method returns; `none` is nil.
abbrev pub GoError : Type 0
GoError = Option StorageError

pub record Metric : Type 0 where
  pub indicator : Bytes
  pub tag : Bytes
  pub fields : Assoc ℤ Bytes

unfoldable pub new_metric : Bytes → Metric
new_metric indicator = record { indicator = indicator; tag = []; fields = [] }

unfoldable pub set_indicator : Bytes → Metric → Metric
set_indicator indicator c = record c { indicator = indicator }

unfoldable pub add_tag : Bytes → Metric → Metric
add_tag tag c = record c { tag = tag }

unfoldable pub add_field : Bytes → ℤ → Metric → Metric × GoError
add_field value tm c =
    if is_some (lookup ℤ_discrete tm c.fields)
    then (c, some timestamp_existed)
    else (record c { fields = insert ℤ_discrete tm value c.fields }, none)

-- The capacity that DelFields computes for its slice of keys has no effect and is left out.
unfoldable pub del_fields : ℤ → ℤ → Metric → Metric × GoError
del_fields start end c =
    if ltb_ℤ end start
    then (c, some param_error)
    else let del_key = keep (λ key. leb_ℤ start key && leb_ℤ key end) (keys c.fields) in
      (record c { fields = delete_all ℤ_discrete del_key c.fields }, none)

-- `m[k]`, the empty string where `k` is missing
unfoldable pub value_at : ℤ → Assoc ℤ Bytes → Bytes
value_at k m = elim (lookup ℤ_discrete k m) [ none ↦ [] | some v ↦ v ]

-- the test of the loop in Search
unfoldable pub in_window : ℤ → ℤ → ℤ → Bool
in_window start end key = leb_ℤ start key && ltb_ℤ key end

-- the body of the loop in Search
unfoldable pub search_step :
    ℤ → ℤ → Assoc ℤ Bytes → ℤ → List ℤ × Assoc ℤ Bytes → List ℤ × Assoc ℤ Bytes
search_step start end fields key (search_keys, cache) =
    if in_window start end key
    then (search_keys ++ key ∷ [], insert ℤ_discrete key (value_at key fields) cache)
    else (search_keys, cache)

unfoldable pub search_loop :
    ℤ → ℤ → Assoc ℤ Bytes → List ℤ → List ℤ × Assoc ℤ Bytes → List ℤ × Assoc ℤ Bytes
search_loop start end fields [] found = found
search_loop start end fields (key ∷ rest) found =
    search_loop start end fields rest (search_step start end fields key found)

unfoldable pub search : ℤ → ℤ → Metric → Outcome StorageError (List ℤ × Assoc ℤ Bytes)
unfolding search_loop search_step value_at in_window
search start end c =
    if ltb_ℤ end start
    then err param_error
    else let (search_keys, cache) = search_loop start end c.fields (keys c.fields) ([], []) in
      ok (sort_int64 search_keys, cache)

unfoldable pub history : Metric → List ℤ
history c = keys c.fields

unfoldable pub has : ℤ → Metric → Bool
has tm c = is_some (lookup ℤ_discrete tm c.fields)

-- GetUnit and GetField: an index out of range gives nil.
unfoldable pub get_at : {A : Type 0} → ℤ → List A → Option A
get_at (pos i) set = if ltb i (length set) then get_elem? set i else none
get_at (negsuc i) set = none

-- Field.Append and FieldList.Append
unfoldable pub append_unit : {A : Type 0} → A → List A → List A
append_unit u set = set ++ u ∷ []
