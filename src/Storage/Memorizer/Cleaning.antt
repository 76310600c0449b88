-- ===== src/Storage/Memorizer/Cleaning.antt =====
-- The memorizer's cleaning, and its answers about items that only the database may know.
use data_collection.Base.{
  ◌≡◌, refl, ap, ◌∙◌, true, false, ◌&&◌, Option, none, some, [], ◌∷◌, arith, if◌then◌else◌, ℤ,
  leb_ℤ, Bytes, bytes_discrete, Assoc, keys, lookup, panic,
}
use data_collection.Storage.Metric
use data_collection.Storage.Metric.{Metric, StorageError}
use data_collection.Storage.Metric.History.{at, del_fields_lem}
use data_collection.Storage.Bolt
use data_collection.Storage.Bolt.{Bbolt, on_db, view, get_body}
use data_collection.Storage.Messenger.{MetadataJson, get_metadata, metadata_key}
use data_collection.Storage.Memorizer.{
  Memorizer, each_value, in_db, cached, clean_cache, add_tag, get_tag, add_tag_in_db, get_tag_in_db,
  cache_item_list,
}

abbrev mapped : (Metric → Metric) → Option Metric → Option Metric
mapped f none = none
mapped f (some c) = some (f c)

lookup-each_value :
    (f : Metric → Metric) (j : Bytes) (m : Assoc Bytes Metric)
    → lookup bytes_discrete j (each_value f m) ≡ mapped f (lookup bytes_discrete j m)
unfolding each_value lookup
lookup-each_value f j [] = refl
lookup-each_value f j ((k, c) ∷ m) = ground (arith, lookup-each_value f j m)

keys-each_value : (f : Metric → Metric) (m : Assoc Bytes Metric) → keys (each_value f m) ≡ keys m
unfolding each_value keys
keys-each_value f [] = refl
keys-each_value f ((k, c) ∷ m) = ap (◌∷◌ k) (keys-each_value f m)

abbrev pub read : ℤ → Option Metric → Option Bytes
read k none = none
read k (some c) = at k c

-- An item's data in the whole cache.
abbrev pub datum : {b : Bbolt} → Bytes → ℤ → Memorizer b → Option Bytes
datum item k m = read k (lookup bytes_discrete item m.cache)

read-del_fields :
    (start end k : ℤ) (o : Option Metric)
    → read k (mapped (λ c. (Metric.del_fields start end c).0) o)
      ≡ (if leb_ℤ start k && leb_ℤ k end then none else read k o)
read-del_fields start end k none = ground arith
read-del_fields start end k (some c) = (del_fields_lem start end k c).1

module _ (b : Bbolt) (start end : ℤ) (m : Memorizer b) where
  abbrev pub cleaned : Memorizer b
  cleaned = (clean_cache b [] start end m).1

  datum-cleaned :
      (item : Bytes) (k : ℤ)
      → datum item k cleaned
        ≡ read k
            (mapped (λ c. (Metric.del_fields start end c).0) (lookup bytes_discrete item m.cache))
  unfolding clean_cache
  datum-cleaned item k =
      ap (read k) (lookup-each_value (λ c. (Metric.del_fields start end c).0) item m.cache)

  list-cleaned : cache_item_list b cleaned ≡ cache_item_list b m
  unfolding clean_cache cache_item_list
  list-cleaned = keys-each_value (λ c. (Metric.del_fields start end c).0) m.cache

  -- Cleaning the cache removes the data of every item from `start` to `end`, both included, keeps all
  -- other data, and keeps the items themselves.
  pub clean_cache_lem :
      (item : Bytes) (k : ℤ)
      → (datum item k cleaned ≡ (if leb_ℤ start k && leb_ℤ k end then none else datum item k m))
        × (cache_item_list b cleaned ≡ cache_item_list b m)
  clean_cache_lem item k = (
    datum-cleaned item k ∙ read-del_fields start end k (lookup bytes_discrete item m.cache),
    list-cleaned,
  )

uncached :
    (b : Bbolt) (item indicator : Bytes) (m : Memorizer b)
    → lookup bytes_discrete item m.cache ≡ none
    → cached b item indicator m ≡ none
unfolding cached
uncached b item indicator m h = rw (h, cached)

module _ (b : Bbolt) (db : b.Db) (bucket : Bytes) (opened : b.opened db ≡ true)
    (missing : b.bucket? bucket db ≡ false) where
  get_missing : (key : Bytes) → Bolt.get b bucket key (some db) ≡ (panic, some db)
  unfolding Bolt.get on_db view get_body
  get_missing key = rw opened (rw missing)

  get_metadata_missing :
      (json : MetadataJson) → get_metadata b json bucket (some db) ≡ (panic, some db)
  unfolding get_metadata
  get_metadata_missing json = rw (get_missing metadata_key)

  get_tag_in_db_missing :
      (json : MetadataJson) (indicator : Bytes)
      → get_tag_in_db b json bucket indicator (some db) ≡ (panic, some db)
  unfolding get_tag_in_db
  get_tag_in_db_missing json indicator = rw (get_metadata_missing json)

  add_tag_in_db_missing :
      (json : MetadataJson) (indicator tag : Bytes)
      → add_tag_in_db b json bucket indicator tag (some db) ≡ (panic, some db)
  unfolding add_tag_in_db
  add_tag_in_db_missing json indicator tag = rw (get_metadata_missing json)

  -- An item that neither the cache nor the open database knows makes getTag and addTag panic, where
  -- the methods mean to return an error: Get uses the bucket without looking whether it is there.
  pub unknown_item_panics :
      (json : MetadataJson) (indicator tag : Bytes) (cache : Assoc Bytes Metric)
      → lookup bytes_discrete bucket cache ≡ none
      → let m : Memorizer b = record { cache = cache; db = some db } in
        (get_tag b json bucket indicator m ≡ (panic, m))
        × (add_tag b json bucket indicator tag m ≡ (panic, m))
  unfolding get_tag add_tag in_db
  unknown_item_panics json indicator tag cache h =
      let m : Memorizer b = record { cache = cache; db = some db } in
      (
        rw (uncached b bucket indicator m h, get_tag) (rw (get_tag_in_db_missing json indicator)),
        rw (uncached b bucket indicator m h, add_tag)
            (rw (add_tag_in_db_missing json indicator tag)),
      )
