-- ===== src/Storage/DataBox.antt =====
-- storage/databox.go: the plugins' view of the memorizer. A plugin's three names become one item name;
-- encoding/json is a parameter, by its encodings of the two results.
pub mod Names
use data_collection.Base.{
  ℕ, zero, suc, ◌+◌, ◌-◌, ◌*◌, ◌/◌, ◌%◌, ◌^◌, ◌≤◌, ◌<◌, ◌≡◌, refl, sym, ap, ◌∙◌, subst, ◌≢◌, ◌↔◌,
  ◌⊎◌, inl, inr, ite, if_pos, if_neg, Bool, true, false, not, ◌&&◌, ◌||◌, Option, none, some, List,
  [], ◌∷◌, ◌++◌, map, append-nil, append_assoc, arith, ℕ_discrete, ltb, leb, ltb→lt, leb→le, ◌==◌,
  if◌then◌else◌, Bool-cases, Option-cases, length, get_elem?, take, drop, keep, length-append,
  take-append, drop-append, length-keep-le, keep-append, keep-keep, All, ℤ, pos, negsuc, ℤ_discrete,
  pos_part, neg_part, ◌+ℤ◌, ◌-ℤ◌, ◌≤ℤ◌, ◌<ℤ◌, ltb_ℤ, leb_ℤ, eq_of_parts, Bytes, bytes_discrete,
  codes, Assoc, is_some, keys, same, same_self, contains, contains-keep, lookup, insert, delete,
  delete_all, Distinct, lookup-insert, lookup-insert_self, lookup-delete, lookup-delete_all,
  contains-keys, lookup-delete_kept, insert-Distinct, delete-Distinct, delete_all-Distinct, Outcome,
  ok, err, panic, Exec, pure, fail, crash, gets, attempt, continue, ◌>>=◌, ◌>>◌, modify,
}
use data_collection.Storage.Metric.{StorageError, GoError, json_error}
use data_collection.Storage.Bolt.{Bbolt}
use data_collection.Storage.Messenger.{MetadataJson}
use data_collection.Storage.Memorizer
use data_collection.Storage.Memorizer.{Memorizer}

unfoldable pub combine : Bytes → Bytes → Bytes → Bytes
combine category plugin_name version = category ++ codes "_" ++ plugin_name ++ codes "_" ++ version

-- a result, or its JSON if there is one
abbrev encoded :
    {A : Type 0} → (A → Option Bytes) → Outcome StorageError A → Outcome StorageError Bytes
encoded marshal (ok a) = elim (marshal a) [ none ↦ err json_error | some s ↦ ok s ]
encoded marshal (err e) = err e
encoded marshal panic = panic

abbrev encoded_pair :
    (List ℤ → Option Bytes)
    → (Assoc ℤ Bytes → Option Bytes)
    → Outcome StorageError (List ℤ × Assoc ℤ Bytes)
    → Outcome StorageError (Bytes × Bytes)
encoded_pair marshal_keys marshal_map (ok (keys, values)) = elim (marshal_keys keys) [
  | none ↦ err json_error
  | some keys_json ↦ elim (marshal_map values) [
    | none ↦ err json_error
    | some value_json ↦ ok (keys_json, value_json)
  ]
]
encoded_pair marshal_keys marshal_map (err e) = err e
encoded_pair marshal_keys marshal_map panic = panic

module _ (b : Bbolt) (json : MetadataJson) (category plugin_name version : Bytes) where
  unfoldable pub add_field : Bytes → Bytes → Bytes → ℤ → Exec (Memorizer b) StorageError Unit
  unfolding combine
  add_field indicator tag value tm =
      Memorizer.add_field b json (combine category plugin_name version) indicator tag value tm

  unfoldable pub add_tag : Bytes → Bytes → Exec (Memorizer b) StorageError Unit
  unfolding combine
  add_tag indicator tag =
      Memorizer.add_tag b json (combine category plugin_name version) indicator tag

  unfoldable pub get_tag : Bytes → Exec (Memorizer b) StorageError Bytes
  unfolding combine
  get_tag indicator = Memorizer.get_tag b json (combine category plugin_name version) indicator

  unfoldable pub get_fields :
      (List Bytes → Option Bytes) → Bytes → ℤ → ℤ → Memorizer b → Outcome StorageError Bytes
  unfolding combine
  get_fields marshal indicator start end box =
      encoded marshal
        (Memorizer.get_fields b (combine category plugin_name version) indicator start end box)

  unfoldable pub cache_has_item : Memorizer b → GoError
  unfolding combine
  cache_has_item box = Memorizer.cache_has_item b (combine category plugin_name version) box

  -- both results are encoded before either is returned
  unfoldable pub get_fields_map :
      (List ℤ → Option Bytes)
      → (Assoc ℤ Bytes → Option Bytes)
      → Bytes
      → ℤ
      → ℤ
      → Memorizer b
      → Outcome StorageError (Bytes × Bytes)
  unfolding combine
  get_fields_map marshal_keys marshal_map indicator start end box =
      encoded_pair marshal_keys marshal_map
        (Memorizer.get_fields_map b (combine category plugin_name version) indicator start end box)

-- CacheItemList and CloseDataBox pass on the memorizer's calls.
module _ (b : Bbolt) where
  unfoldable pub cache_item_list : Memorizer b → List Bytes
  cache_item_list box = Memorizer.cache_item_list b box

  unfoldable pub close_data_box : Exec (Memorizer b) StorageError Unit
  close_data_box = Memorizer.close b
