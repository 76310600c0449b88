-- ===== src/Storage/Messenger.antt =====
-- storage/db_operation.go: metadata and timed data of the buckets. Logging is left out.
pub mod Searched
pub mod Window
use data_collection.Base.{
  ℕ, zero, suc, ◌+◌, ◌-◌, ◌*◌, ◌/◌, ◌%◌, ◌^◌, ◌≤◌, ◌<◌, ◌≡◌, refl, sym, ap, ◌∙◌, subst, ◌≢◌, ◌↔◌,
  ◌⊎◌, inl, inr, ite, if_pos, if_neg, Bool, true, false, not, ◌&&◌, ◌||◌, Option, none, some, List,
  [], ◌∷◌, ◌++◌, map, append-nil, append_assoc, arith, ℕ_discrete, ltb, leb, ltb→lt, leb→le, ◌==◌,
  if◌then◌else◌, Bool-cases, Option-cases, length, get_elem?, take, drop, keep, length-append,
  take-append, drop-append, length-keep-le, keep-append, keep-keep, All, ℤ, pos, negsuc, ℤ_discrete,
  pos_part, neg_part, ◌+ℤ◌, ◌-ℤ◌, ◌≤ℤ◌, ◌<ℤ◌, ltb_ℤ, leb_ℤ, eq_of_parts, Bytes, bytes_discrete,
  codes, Assoc, is_some, keys, same, contains, contains-keep, lookup, insert, delete, delete_all,
  Distinct, lookup-insert, lookup-insert_self, lookup-delete, lookup-delete_all, contains-keys,
  lookup-delete_kept, insert-Distinct, delete-Distinct, delete_all-Distinct, Outcome, ok, err,
  panic, Exec, pure, fail, crash, gets, attempt, continue, ◌>>=◌, ◌>>◌, modify,
}
use data_collection.Util.{sort_int64}
use data_collection.Storage.Metric.{StorageError, metadata_empty, json_error, no_data, not_open}
use data_collection.Storage.Keys.{format_int, parse_int, rune_string}
use data_collection.Storage.Bolt
use data_collection.Storage.Bolt.{Bbolt, Store, StoreExec}

pub record Metadata : Type 0 where
  pub indicator : Bytes
  pub tag : Bytes

-- json.Marshal and json.Unmarshal at Metadata
pub record MetadataJson : Type 0 where
  pub marshal : Metadata → Option Bytes
  pub unmarshal : Bytes → Option Metadata

abbrev or_json : {A : Type 0} → Option A → Outcome StorageError A
or_json none = err json_error
or_json (some a) = ok a

unfoldable pub encoding_metadata : MetadataJson → Metadata → Outcome StorageError Bytes
encoding_metadata json m = or_json (json.marshal m)

unfoldable pub decode_metadata : MetadataJson → Bytes → Outcome StorageError Metadata
decode_metadata json [] = err metadata_empty
decode_metadata json (c ∷ value) = or_json (json.unmarshal (c ∷ value))

abbrev pub metadata_key : Bytes
metadata_key = codes "metadata"

abbrev pub lift : {S A : Type 0} → Outcome StorageError A → Exec S StorageError A
lift r s = (r, s)

-- the loop of SearchData and of clean: the numbers, or the keys, that lie strictly between
unfoldable pub strictly_between : ℤ → ℤ → Bytes → Bool
strictly_between start end k = elim (parse_int k) [
  | none ↦ false
  | some tm ↦ ltb_ℤ start tm && ltb_ℤ tm end
]

unfoldable pub times_between : ℤ → ℤ → List Bytes → List ℤ
times_between start end [] = []
times_between start end (k ∷ all_keys) =
    let rest = times_between start end all_keys in
    elim (parse_int k) [
      | none ↦ rest
      | some temp ↦ if ltb_ℤ start temp && ltb_ℤ temp end then temp ∷ rest else rest
    ]

-- make([]string, n)
unfoldable pub empty_strings : {A : Type 0} → List A → List Bytes
empty_strings [] = []
empty_strings (k ∷ ks) = [] ∷ empty_strings ks

module _ (b : Bbolt) where
  unfoldable pub add_bucket : Bytes → StoreExec b Unit
  add_bucket bucket = Bolt.create b bucket

  unfoldable pub has_bucket : Bytes → StoreExec b Unit
  has_bucket bucket = Bolt.has_bucket b bucket

  unfoldable pub add_data : Bytes → ℤ → Bytes → StoreExec b Unit
  add_data bucket key value = Bolt.put b bucket (format_int key) value

  unfoldable pub del_data : Bytes → ℤ → StoreExec b Unit
  del_data bucket key = Bolt.del b bucket (format_int key)

  unfoldable pub has_data : Bytes → ℤ → StoreExec b Unit
  has_data bucket key = do found ← Bolt.has b bucket (format_int key); pure tt

  -- `data, err := get(…); if err != nil { continue }; result = append(result, data)`
  abbrev appended : List Bytes → Outcome StorageError Bytes → List Bytes
  appended result (ok value) = result ++ value ∷ []
  appended result _ = result

  unfoldable pub fetch_all : Bytes → List ℤ → List Bytes → StoreExec b (List Bytes)
  fetch_all bucket [] result = pure result
  fetch_all bucket (k ∷ ks) result = do
    got ← attempt (Bolt.get b bucket (rune_string k))
    fetch_all bucket ks (appended result got)

  unfoldable pub search_data : Bytes → ℤ → ℤ → StoreExec b (List Bytes)
  unfolding times_between fetch_all empty_strings
  search_data bucket start end = do
    all_keys ← Bolt.store_keys b bucket []
    let search_keys = sort_int64 (times_between start end all_keys)
    result ← fetch_all bucket search_keys (empty_strings search_keys)
    if leb 1 (length result) then pure result else fail no_data

  -- the loop of AllDataInBucket, left when the database is not open any more
  unfoldable pub collect_all :
      Bytes → List Bytes → Assoc Bytes Bytes → StoreExec b (Assoc Bytes Bytes)
  collect_all bucket [] result = pure result
  collect_all bucket (k ∷ ks) result = do
    got ← attempt (Bolt.get b bucket k)
    elim got [
      | ok value ↦ collect_all bucket ks (insert bytes_discrete k value result)
      | err e ↦ elim e [ not_open ↦ pure result | _ ↦ collect_all bucket ks result ]
      | panic ↦ crash
    ]

  unfoldable pub all_data_in_bucket : Bytes → Bytes → StoreExec b (Assoc Bytes Bytes)
  unfolding has_bucket collect_all
  all_data_in_bucket bucket prefix = do
    has_bucket bucket
    all_keys ← Bolt.store_keys b bucket prefix
    collect_all bucket all_keys []

  unfoldable pub del_each : Bytes → List Bytes → StoreExec b Unit
  del_each bucket [] = pure tt
  del_each bucket (key ∷ keys) = do attempt (Bolt.del b bucket key); del_each bucket keys

  -- an error of Keys is logged, and its keys are nil
  abbrev keys_or_nil : Outcome StorageError (List Bytes) → List Bytes
  keys_or_nil (ok ks) = ks
  keys_or_nil _ = []

  unfoldable pub clean_bucket : ℤ → ℤ → Bytes → StoreExec b Unit
  unfolding del_each strictly_between keep
  clean_bucket start end bucket = do
    there ← attempt (Bolt.has_bucket b bucket)
    elim there [
      | ok _ ↦ do
        all_keys ← attempt (Bolt.store_keys b bucket [])
        del_each bucket (keep (strictly_between start end) (keys_or_nil all_keys))
      | _ ↦ pure tt
    ]

  unfoldable pub clean : List Bytes → ℤ → ℤ → StoreExec b Unit
  clean [] start end = pure tt
  clean (bucket ∷ del_buckets) start end = do
    clean_bucket start end bucket
    clean del_buckets start end

  module _ (json : MetadataJson) where
    unfoldable pub add_metadata : Bytes → Metadata → StoreExec b Unit
    unfolding encoding_metadata
    add_metadata bucket m = do
      text ← lift (encoding_metadata json m)
      Bolt.put b bucket metadata_key text

    unfoldable pub modify_metadata : Bytes → Metadata → StoreExec b Unit
    unfolding add_metadata
    modify_metadata bucket m = add_metadata bucket m

    unfoldable pub get_metadata : Bytes → StoreExec b Metadata
    unfolding decode_metadata
    get_metadata bucket = do text ← Bolt.get b bucket metadata_key; lift (decode_metadata json text)
