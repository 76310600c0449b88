-- ===== src/Storage/Memorizer/Cached.antt =====
-- The memorizer's cache: what addField leaves in it whatever the database does, and what readers of
-- the cache then find.
use data_collection.Base.{
  ◌≡◌, refl, ap, ◌∙◌, inl, inr, ite, true, ◌&&◌, Option, none, some, List, [], arith, if◌then◌else◌,
  ℤ, ℤ_discrete, ◌≤ℤ◌, ◌<ℤ◌, ltb_ℤ, leb_ℤ, Bytes, bytes_discrete, Assoc, is_some, same_self,
  contains, lookup, insert, lookup-insert, lookup-insert_self, Outcome, ok, err, continue,
}
use data_collection.Storage.Metric
use data_collection.Storage.Metric.{Metric, StorageError, timestamp_existed}
use data_collection.Storage.Metric.Search.{search-Finds}
use data_collection.Storage.Bolt.{Bbolt, StoreExec}
use data_collection.Storage.Messenger.{MetadataJson}
use data_collection.Storage.Memorizer.{
  Memorizer, GoError, lift_error, metric_for, in_db, cached, add_to_cache, add_to_db, add_field,
  get_fields_map,
}

-- the data of an item, none if it is not cached
abbrev pub fields_of : Bytes → Assoc Bytes Metric → Assoc ℤ Bytes
fields_of item cache = elim (lookup bytes_discrete item cache) [ none ↦ [] | some c ↦ c.fields ]

-- Data under a new time is added; under a time that has data it is dropped.
abbrev pub with_field : ℤ → Bytes → Assoc ℤ Bytes → Assoc ℤ Bytes
with_field tm value fields =
    if is_some (lookup ℤ_discrete tm fields) then fields else insert ℤ_discrete tm value fields

abbrev pub stored : Bytes → Bytes → Bytes → ℤ → Assoc ℤ Bytes → Metric
stored indicator tag value tm fields = record {
  indicator = indicator;
  tag = tag;
  fields = with_field tm value fields;
}

metric_for-stored :
    (indicator tag value : Bytes) (tm : ℤ) (o : Option Metric)
    → (Metric.add_field value tm (Metric.add_tag tag (metric_for indicator o))).0
      ≡ stored indicator tag value tm (elim o [ none ↦ [] | some c ↦ c.fields ])
unfolding metric_for Metric.add_field Metric.add_tag Metric.new_metric Metric.set_indicator
metric_for-stored indicator tag value tm none = unfold lookup in refl
metric_for-stored indicator tag value tm (some c) = ground arith

metric_for_again :
    (indicator tag value : Bytes) (tm : ℤ) (o : Option Metric)
    → is_some (lookup ℤ_discrete tm (elim o [ none ↦ [] | some c ↦ c.fields ])) ≡ true
    → (Metric.add_field value tm (Metric.add_tag tag (metric_for indicator o))).1
      ≡ some timestamp_existed
unfolding metric_for Metric.add_field Metric.add_tag Metric.new_metric Metric.set_indicator
metric_for_again indicator tag value tm none h = absurd (unfold lookup in cc)
metric_for_again indicator tag value tm (some c) h = rw h

lookup-with_field :
    (tm : ℤ) (value : Bytes) (fields : Assoc ℤ Bytes)
    → lookup ℤ_discrete tm fields ≡ none
    → lookup ℤ_discrete tm (with_field tm value fields) ≡ some value
lookup-with_field tm value fields h = rw h (lookup-insert_self ℤ_discrete tm value fields)

cached_self :
    (b : Bbolt) (item : Bytes) (c : Metric) (m : Memorizer b)
    → lookup bytes_discrete item m.cache ≡ some c
    → cached b item c.indicator m ≡ some c
unfolding cached
cached_self b item c m h = rw (h, cached) (rw (same_self bytes_discrete c.indicator))

get_fields_map_self :
    (b : Bbolt) (item : Bytes) (start end : ℤ) (c : Metric) (m : Memorizer b)
    → lookup bytes_discrete item m.cache ≡ some c
    → get_fields_map b item c.indicator start end m ≡ Metric.search start end c
unfolding get_fields_map
get_fields_map_self b item start end c m h = rw (cached_self b item c m h, get_fields_map)

refused :
    (b : Bbolt) (e : GoError) (x : StorageError) (m : Memorizer b) (body : StoreExec b Unit)
    → e ≡ some x
    → continue (lift_error e m).0 (λ _. in_db b body) (lift_error e m).1 ≡ (err x, m)
refused b none x m body h = absurd (cc)
refused b (some e) x m body h = ground arith

-- the database half of a method leaves the cache alone
then_db-cache :
    (b : Bbolt) (e : GoError) (m : Memorizer b) (body : StoreExec b Unit)
    → (continue (lift_error e m).0 (λ _. in_db b body) (lift_error e m).1).1.cache ≡ m.cache
unfolding in_db
then_db-cache b none m body = refl
then_db-cache b (some e) m body = refl

module _ (b : Bbolt) (json : MetadataJson) (item indicator tag value : Bytes) (tm : ℤ)
    (m : Memorizer b) where
  abbrev pub after : Memorizer b
  after = (add_field b json item indicator tag value tm m).1

  add_to_cache-cache :
      (add_to_cache b item indicator tag value tm m).1.cache
      ≡ insert bytes_discrete item (stored indicator tag value tm (fields_of item m.cache)) m.cache
  unfolding add_to_cache
  add_to_cache-cache =
      ap (λ (c : Metric). insert bytes_discrete item c m.cache)
        (metric_for-stored indicator tag value tm (lookup bytes_discrete item m.cache))

  after-cache : after.cache ≡ (add_to_cache b item indicator tag value tm m).1.cache
  unfolding add_field
  after-cache =
      let added = add_to_cache b item indicator tag value tm m in
      then_db-cache b added.0 added.1 (add_to_db b json item indicator tag value tm)

  -- Whatever the database does, addField leaves in the cache the item with the new indicator and tag,
  -- its earlier data, and the value under its time if that time had none; no other item changes.
  pub add_field-cache :
      (j : Bytes)
      → lookup bytes_discrete j after.cache
        ≡ ite
            (bytes_discrete item j)
            (some (stored indicator tag value tm (fields_of item m.cache)))
            (lookup bytes_discrete j m.cache)
  add_field-cache j =
      rw (after-cache, add_to_cache-cache) (lookup-insert bytes_discrete item j _ m.cache)

  stored_self :
      lookup bytes_discrete item after.cache
      ≡ some (stored indicator tag value tm (fields_of item m.cache))
  stored_self = ground (arith, add_field-cache item)

  stopped :
      is_some (lookup ℤ_discrete tm (fields_of item m.cache)) ≡ true
      → add_field b json item indicator tag value tm m
        ≡ (err timestamp_existed, (add_to_cache b item indicator tag value tm m).1)
  unfolding add_field
  stopped h =
      let added = add_to_cache b item indicator tag value tm m in
      let twice = metric_for_again indicator tag value tm (lookup bytes_discrete item m.cache) h in
      refused b added.0 timestamp_existed added.1 (add_to_db b json item indicator tag value tm)
        twice

  add_to_cache-db : (add_to_cache b item indicator tag value tm m).1.db ≡ m.db
  unfolding add_to_cache
  add_to_cache-db = refl

  -- A second value for a time that has data is refused, and the database is not touched. The
  -- indicator and the tag have changed in the cache all the same.
  pub add_field_again :
      is_some (lookup ℤ_discrete tm (fields_of item m.cache)) ≡ true
      → ((add_field b json item indicator tag value tm m).0 ≡ err timestamp_existed)
        × (after.db ≡ m.db)
        × (lookup bytes_discrete item after.cache
            ≡ some (record { indicator = indicator; tag = tag; fields = fields_of item m.cache }))
  add_field_again h = (
    ap (λ (r : Outcome StorageError Unit × Memorizer b). r.0) (stopped h),
    ap (λ (r : Outcome StorageError Unit × Memorizer b). r.1.db) (stopped h) ∙ add_to_cache-db,
    stored_self ∙ (rw h),
  )

  -- Data that is stored under a new time is in every search of a window around it.
  pub search_after_add_field :
      (start end : ℤ)
      → lookup ℤ_discrete tm (fields_of item m.cache) ≡ none
      → start ≤ℤ tm
      → tm <ℤ end
      → (ks : List ℤ) × (found : Assoc ℤ Bytes) × (get_fields_map b item indicator start end after
          ≡ ok (ks, found))
        × (lookup ℤ_discrete tm found ≡ some value)
        × (contains ℤ_discrete tm ks ≡ true)
  search_after_add_field start end new h1 h2 =
      let c = stored indicator tag value tm (fields_of item m.cache) in
      elim (search-Finds start end c) [
        | inl (before, e) ↦ absurd (omega arith)
        | inr (before, (ks, found, e, f)) ↦
            let inside : (leb_ℤ start tm && ltb_ℤ tm end) ≡ true = ground arith in
            let hit : lookup ℤ_discrete tm found ≡ some value =
              f.entries tm
              ∙ (rw inside (lookup-with_field tm value (fields_of item m.cache) new)) in
            (
              ks,
              found,
              get_fields_map_self b item start end c after stored_self ∙ e,
              hit,
              rw (f.keyed tm, hit),
            )
      ]
