-- ===== src/Examples/Stored.antt =====
-- Runs of the storage, over a database that is two levels of association lists.
use data_collection.Base.{
  ◌≡◌, refl, ◌⊎◌, true, false, none, some, List, [], ◌∷◌, arith, ℤ, pos, ℤ_discrete, ◌≤ℤ◌, ◌<ℤ◌,
  Bytes, bytes_discrete, codes, Assoc, is_some, keys, contains, lookup, insert, delete,
  contains-keys, ok, err,
}
use data_collection.Storage.Metric
use data_collection.Storage.Metric.{
  Metric, GoError, StorageError, timestamp_existed, param_error, key_not_found, new_metric,
}
use data_collection.Storage.Metric.Search.{Finds, search-Finds}
use data_collection.Storage.Bolt.{Bbolt}
use data_collection.Storage.Messenger.{MetadataJson}
use data_collection.Storage.Messenger.Searched.{selected}
use data_collection.Storage.Memorizer.{Memorizer, get_fields_map, cache_item_list}
use data_collection.Storage.Memorizer.Cached.{fields_of, after, search_after_add_field}
use data_collection.Storage.Memorizer.Cleaning.{datum, cleaned, clean_cache_lem}

abbrev Buckets : Type 0
Buckets = Assoc Bytes (Assoc Bytes Bytes)

abbrev bucket_of : Bytes → Buckets → Assoc Bytes Bytes
bucket_of name db = elim (lookup bytes_discrete name db) [ none ↦ [] | some content ↦ content ]

abbrev listed_bolt : Bbolt
listed_bolt = record {
  Db = Buckets;
  opened = λ db. true;
  commit = λ db. (ok tt, db);
  bucket? = λ name db. is_some (lookup bytes_discrete name db);
  create_bucket = λ name db. (ok tt, insert bytes_discrete name (bucket_of name db) db);
  get = λ name key db. lookup bytes_discrete key (bucket_of name db);
  put = λ name key value db.
      (ok tt, insert bytes_discrete name (insert bytes_discrete key value (bucket_of name db)) db);
  delete = λ name key db.
      (ok tt, insert bytes_discrete name (delete bytes_discrete key (bucket_of name db)) db);
  cursor = λ name db. keys (bucket_of name db);
  close = λ db. (ok tt, db);
}

abbrev tag_json : MetadataJson
tag_json = record {
  marshal = λ m. some m.tag;
  unmarshal = λ s. some (record { indicator = []; tag = s });
}

abbrev cpu : Bytes
cpu = codes "cpu"

abbrev load_item : Bytes
load_item = codes "load"

abbrev noon : ℤ
noon = pos 1700000000

-- a database with one value
abbrev one_value : Buckets
one_value = (cpu, (codes "1700000000", codes "7") ∷ []) ∷ []

abbrev metric : Metric
metric = record { indicator = load_item; tag = []; fields = (noon, codes "7") ∷ [] }

abbrev memorizer : Memorizer listed_bolt
memorizer = record { cache = (cpu, metric) ∷ []; db = some one_value }

search-Finds_example :
    ((pos 9 <ℤ pos 5) × (Metric.search (pos 5) (pos 9) metric ≡ err param_error))
    ⊎ ((pos 5 ≤ℤ pos 9)
        × ((ks : List ℤ) × (cache : Assoc ℤ Bytes) × (Metric.search (pos 5) (pos 9) metric
              ≡ ok (ks, cache))
            × Finds metric (pos 5) (pos 9) ks cache))
search-Finds_example = search-Finds (pos 5) (pos 9) metric

there : is_some (lookup bytes_discrete cpu one_value) ≡ true
unfolding lookup bytes_discrete
there = refl

missing : is_some (lookup bytes_discrete (codes "gpu") one_value) ≡ false
unfolding lookup bytes_discrete
missing = refl

abbrev times : List ℤ
times = selected listed_bolt one_value cpu refl there (pos 1600000000) (pos 1800000000)

listed :
    (k : Bytes)
    → contains bytes_discrete k (keys (bucket_of cpu one_value))
      ≡ is_some (lookup bytes_discrete k (bucket_of cpu one_value))
listed k = contains-keys bytes_discrete k (bucket_of cpu one_value)

abbrev stored_again : Memorizer listed_bolt
stored_again = after listed_bolt tag_json cpu load_item (codes "x") (codes "8") noon memorizer

noon_taken : is_some (lookup ℤ_discrete noon (fields_of cpu memorizer.cache)) ≡ true
unfolding lookup bytes_discrete ℤ_discrete
noon_taken = refl

abbrev later : ℤ
later = pos 1700000060

later_free : lookup ℤ_discrete later (fields_of cpu memorizer.cache) ≡ none
unfolding lookup bytes_discrete ℤ_discrete
later_free = refl

abbrev stored_later : Memorizer listed_bolt
stored_later = after listed_bolt tag_json cpu load_item (codes "x") (codes "8") later memorizer

search_after_add_field_example :
    (ks : List ℤ) × (found : Assoc ℤ Bytes) × (get_fields_map listed_bolt cpu load_item noon
        (pos 1700000061)
        stored_later
      ≡ ok (ks, found))
    × (lookup ℤ_discrete later found ≡ some (codes "8"))
    × (contains ℤ_discrete later ks ≡ true)
search_after_add_field_example =
    search_after_add_field listed_bolt tag_json cpu load_item (codes "x") (codes "8") later
      memorizer noon (pos 1700000061) later_free (omega arith) (omega arith)

clean_cache_lem_example :
    (datum cpu noon (cleaned listed_bolt noon later memorizer) ≡ none)
    × (cache_item_list listed_bolt (cleaned listed_bolt noon later memorizer)
        ≡ cache_item_list listed_bolt memorizer)
clean_cache_lem_example = clean_cache_lem listed_bolt noon later memorizer cpu noon
