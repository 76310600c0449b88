-- ===== src/Storage/Messenger/Searched.antt =====
-- SearchData, HasData and AllDataInBucket against the reads of single keys.
use data_collection.Base.{
  ◌≡◌, refl, ap, inl, inr, true, ◌&&◌, Option, none, some, List, [], ◌∷◌, arith, if◌then◌else◌,
  Option-cases, ℤ, Bytes, bytes_discrete, Assoc, is_some, contains, lookup, insert, lookup-insert,
  Outcome, ok, err, panic,
}
use data_collection.Util.{sort_int64}
use data_collection.Storage.Metric.{StorageError, key_not_found}
use data_collection.Storage.Keys.{format_int}
use data_collection.Storage.Bolt
use data_collection.Storage.Bolt.{
  Bbolt, on_db, view, update, finish, get_body, keys_body, has_body, seek, while_prefix, bytes_lt,
  has_prefix,
}
use data_collection.Storage.Messenger.{
  times_between, has_data, collect_all, all_data_in_bucket, has_bucket,
}

while_prefix_nil : (ks : List Bytes) → while_prefix [] ks ≡ ks
unfolding while_prefix has_prefix
while_prefix_nil [] = refl
while_prefix_nil (k ∷ ks) = ap (◌∷◌ k) (while_prefix_nil ks)

-- the empty prefix selects every key
seek_nil : (ks : List Bytes) → while_prefix [] (seek [] ks) ≡ ks
unfolding seek bytes_lt
seek_nil [] = while_prefix_nil []
seek_nil (k ∷ ks) = while_prefix_nil (k ∷ ks)

abbrev pub IsEmpty : Bytes → Type 0
IsEmpty s = s ≡ []

-- what HasData makes of the outcome of a read of the same key
abbrev pub inverted : Outcome StorageError Bytes → Outcome StorageError Unit
inverted (ok v) = err key_not_found
inverted (err e) = ok tt
inverted panic = panic

module _ (b : Bbolt) (db : b.Db) (bucket : Bytes) (opened : b.opened db ≡ true)
    (there : b.bucket? bucket db ≡ true) where
  abbrev found : Option Bytes → Outcome StorageError Bytes
  found o = elim o [ some v ↦ ok v | none ↦ err key_not_found ]

  get_there :
      (key : Bytes) → Bolt.get b bucket key (some db) ≡ (found (b.get bucket key db), some db)
  unfolding Bolt.get on_db view get_body
  get_there key = rw opened (rw there)

  keys_there : Bolt.store_keys b bucket [] (some db) ≡ (ok (b.cursor bucket db), some db)
  unfolding Bolt.store_keys on_db view keys_body
  keys_there = rw opened (rw (there, seek_nil (b.cursor bucket db)))

  -- HasData answers the wrong way round: it fails with "key does not exist" exactly for a key that a
  -- read finds, and succeeds exactly for one that a read does not find.
  pub has_data-inverted :
      (key : ℤ)
      → (has_data b bucket key (some db)).0
        ≡ inverted (Bolt.get b bucket (format_int key) (some db)).0
  unfolding has_data Bolt.has has_body on_db view Bolt.get get_body
  has_data-inverted key = ground arith

  -- the times that SearchData selects, in order
  abbrev pub selected : ℤ → ℤ → List ℤ
  selected start end = sort_int64 (times_between start end (b.cursor bucket db))

  -- inserting what each key reads
  abbrev gather : List Bytes → Assoc Bytes Bytes → Assoc Bytes Bytes
  gather [] result = result
  gather (k ∷ ks) result =
      gather ks
        (elim (b.get bucket k db) [ some v ↦ insert bytes_discrete k v result | none ↦ result ])

  collect_all-gather :
      (ks : List Bytes) (result : Assoc Bytes Bytes)
      → collect_all b bucket ks result (some db) ≡ (ok (gather ks result), some db)
  unfolding collect_all
  collect_all-gather [] result = refl
  collect_all-gather (k ∷ ks) result = elim (Option-cases (b.get bucket k db)) [
    | inl e ↦ rw (get_there k, e) (collect_all-gather ks result)
    | inr (v, e) ↦ rw (get_there k, e) (collect_all-gather ks (insert bytes_discrete k v result))
  ]

  lookup-gather :
      (j : Bytes) (ks : List Bytes) (result : Assoc Bytes Bytes)
      → lookup bytes_discrete j (gather ks result) ≡ (
          if contains bytes_discrete j ks && is_some (b.get bucket j db)
          then b.get bucket j db
          else lookup bytes_discrete j result)
  unfolding contains
  lookup-gather j [] result = refl
  lookup-gather j (k ∷ ks) result = elim (Option-cases (b.get bucket k db)) [
    | inl e ↦ rw e (ground (arith, lookup-gather j ks result))
    | inr (v, e) ↦ rw e (
        ground (
          arith,
          lookup-gather j ks (insert bytes_discrete k v result),
          lookup-insert bytes_discrete k j v result,
        ))
  ]

  has_bucket_there : b.commit db ≡ (ok tt, db) → has_bucket b bucket (some db) ≡ (ok tt, some db)
  unfolding has_bucket Bolt.has_bucket on_db update finish
  has_bucket_there quiet = rw opened (rw there (rw quiet (rw quiet)))

  -- With a cursor that lists exactly the keys of the bucket, and a commit that changes nothing where
  -- nothing was written, AllDataInBucket with the empty prefix returns the bucket's contents: every
  -- key with what a read of it finds, and no other.
  pub all_data_in_bucket_lem :
      b.commit db ≡ (ok tt, db)
      → ((k : Bytes) → contains bytes_discrete k (b.cursor bucket db) ≡ is_some (b.get bucket k db))
      → (result : Assoc Bytes Bytes) × (all_data_in_bucket b bucket [] (some db)
          ≡ (ok result, some db))
        × ((k : Bytes) → lookup bytes_discrete k result ≡ b.get bucket k db)
  unfolding all_data_in_bucket
  all_data_in_bucket_lem quiet listed = (
    gather (b.cursor bucket db) [],
    rw (has_bucket_there quiet) (rw keys_there (collect_all-gather (b.cursor bucket db) [])),
    λ k. unfold lookup in ground (arith, lookup-gather k (b.cursor bucket db) [], listed k),
  )
