-- ===== src/Storage/Memorizer.antt =====
-- storage/storer.go: the memorizer, a cache of metrics in front of the database. Its mutex makes
-- each method one step.
pub mod Cached
pub mod Cleaning
use data_collection.Base.{
  ℕ, zero, suc, ◌+◌, ◌-◌, ◌*◌, ◌/◌, ◌%◌, ◌^◌, ◌≤◌, ◌<◌, ◌≡◌, refl, sym, ap, ◌∙◌, subst, ◌≢◌, ◌↔◌,
  ◌⊎◌, inl, inr, ite, if_pos, if_neg, Bool, true, false, not, ◌&&◌, ◌||◌, Option, none, some, List,
  [], ◌∷◌, ◌++◌, map, append-nil, append_assoc, arith, ℕ_discrete, ltb, leb, ltb→lt, leb→le, ◌==◌,
  if◌then◌else◌, Bool-cases, Option-cases, length, get_elem?, take, drop, keep, length-append,
  take-append, drop-append, length-keep-le, keep-append, keep-keep, All, ℤ, pos, negsuc, ℤ_discrete,
  pos_part, neg_part, ◌+ℤ◌, ◌-ℤ◌, ◌≤ℤ◌, ◌<ℤ◌, ltb_ℤ, leb_ℤ, eq_of_parts, Bytes, bytes_discrete,
  codes, Assoc, is_some, keys, same, contains, contains-keep, lookup, insert, delete, delete_all,
  Distinct, lookup-insert, lookup-insert_self, lookup-delete, lookup-delete_all, contains-keys,
  lookup-delete_kept, insert-Distinct, delete-Distinct, delete_all-Distinct, Outcome, ok, err,
  panic, Exec, pure, fail, crash, gets, attempt, continue, ◌>>=◌, ◌>>◌, modify,
}
use data_collection.Storage.Metric
use data_collection.Storage.Metric.{
  Metric, GoError, StorageError, no_field, no_tag, no_item, different_indicator,
}
use data_collection.Storage.Bolt
use data_collection.Storage.Bolt.{Bbolt, Store, StoreExec}
use data_collection.Storage.Messenger
use data_collection.Storage.Messenger.{Metadata, MetadataJson, lift}

pub record Memorizer (b : Bbolt) : Type 0 where
  pub cache : Assoc Bytes Metric
  pub db : Store b

-- `if err != nil { return err }` behind a method that returns only an error
abbrev pub lift_error : {S : Type 0} → GoError → Exec S StorageError Unit
lift_error none = pure tt
lift_error (some e) = fail e

-- every value of a map
unfoldable pub each_value : (Metric → Metric) → Assoc Bytes Metric → Assoc Bytes Metric
each_value f [] = []
each_value f ((k, c) ∷ m) = (k, f c) ∷ each_value f m

-- the error of the last item that the loop of clean visits
unfoldable pub last_error : (Metric → GoError) → GoError → Assoc Bytes Metric → GoError
last_error f e [] = e
last_error f e ((k, c) ∷ m) = last_error f (f c) m

unfoldable pub values_of : Assoc ℤ Bytes → List ℤ → List Bytes
values_of m [] = []
values_of m (k ∷ ks) = Metric.value_at k m ∷ values_of m ks

-- the metric of an item, with the indicator set
unfoldable pub metric_for : Bytes → Option Metric → Metric
metric_for indicator none = Metric.new_metric indicator
metric_for indicator (some c) = Metric.set_indicator indicator c

module _ (b : Bbolt) where
  abbrev pub Action : Type 0 → Type 0
  Action A = Exec (Memorizer b) StorageError A

  unfoldable pub in_db : {A : Type 0} → StoreExec b A → Action A
  in_db body m = let (r, db') = body m.db in (r, record m { db = db' })

  -- the cached metric of an item, if it has this indicator
  unfoldable pub cached : Bytes → Bytes → Memorizer b → Option Metric
  cached item indicator m = elim (lookup bytes_discrete item m.cache) [
    | none ↦ none
    | some c ↦ if same bytes_discrete indicator c.indicator then some c else none
  ]

  -- the first half of addField
  unfoldable pub add_to_cache :
      Bytes → Bytes → Bytes → Bytes → ℤ → Memorizer b → GoError × Memorizer b
  unfolding metric_for
  add_to_cache item indicator tag value tm m =
      let c0 = metric_for indicator (lookup bytes_discrete item m.cache) in
      let c1 = Metric.add_tag tag c0 in
      let (c2, e) = Metric.add_field value tm c1 in
      (e, record m { cache = insert bytes_discrete item c2 m.cache })

  abbrev pub caching : Bytes → Bytes → Bytes → Bytes → ℤ → Action Unit
  caching item indicator tag value tm m =
      let (e, m') = add_to_cache item indicator tag value tm m in lift_error e m'

  unfoldable pub clean_cache : List Bytes → ℤ → ℤ → Memorizer b → GoError × Memorizer b
  unfolding each_value last_error
  clean_cache [] start end m = (
    last_error (λ c. (Metric.del_fields start end c).1) none m.cache,
    record m { cache = each_value (λ c. (Metric.del_fields start end c).0) m.cache },
  )
  clean_cache (item ∷ del_items) start end m = (none, m)

  unfoldable pub cache_has_item : Bytes → Memorizer b → GoError
  cache_has_item item m =
      if is_some (lookup bytes_discrete item m.cache) then none else some no_item

  unfoldable pub cache_item_list : Memorizer b → List Bytes
  cache_item_list m = keys m.cache

  -- the cache and the metric decide what getFieldsMap returns; the database is not asked
  unfoldable pub get_fields_map :
      Bytes → Bytes → ℤ → ℤ → Memorizer b → Outcome StorageError (List ℤ × Assoc ℤ Bytes)
  unfolding cached
  get_fields_map item indicator start end m = elim (cached item indicator m) [
    | none ↦ err no_field
    | some c ↦ Metric.search start end c
  ]

  unfoldable pub get_fields :
      Bytes → Bytes → ℤ → ℤ → Memorizer b → Outcome StorageError (List Bytes)
  unfolding cached values_of
  get_fields item indicator start end m = elim (cached item indicator m) [
    | none ↦ err no_field
    | some c ↦ elim (Metric.search start end c) [
      | ok (ks, found) ↦ ok (values_of found ks)
      | err e ↦ err e
      | panic ↦ panic
    ]
  ]

  unfoldable pub close : Action Unit
  close m = let (r, db') = Bolt.close b m.db in (r, record m { cache = []; db = db' })

  module _ (json : MetadataJson) where
    -- the second half of addField
    unfoldable pub add_to_db : Bytes → Bytes → Bytes → Bytes → ℤ → StoreExec b Unit
    add_to_db item indicator tag value tm = do
      there ← attempt (Messenger.has_bucket b item)
      elim there [ err e ↦ Messenger.add_bucket b item | _ ↦ pure tt ]
      meta ← attempt (Messenger.get_metadata b json item)
      elim meta [
        | ok _ ↦ Messenger.modify_metadata b json item (record { indicator = indicator; tag = tag })
        | _ ↦ Messenger.add_metadata b json item (record { indicator = indicator; tag = tag })
      ]
      attempt (Messenger.add_data b item tm value)
      pure tt

    unfoldable pub add_field : Bytes → Bytes → Bytes → Bytes → ℤ → Action Unit
    unfolding in_db add_to_cache add_to_db
    add_field item indicator tag value tm = do
      caching item indicator tag value tm
      in_db (add_to_db item indicator tag value tm)

    -- the part of addTag behind the cache
    unfoldable pub add_tag_in_db : Bytes → Bytes → Bytes → StoreExec b Unit
    add_tag_in_db item indicator tag = do
      got ← attempt (Messenger.get_metadata b json item)
      elim got [
        | ok meta ↦
            if same bytes_discrete meta.indicator indicator
            then (if same bytes_discrete meta.tag tag
                then pure tt
                else Messenger.modify_metadata b json item
                    (record { indicator = indicator; tag = tag }))
            else fail different_indicator
        | _ ↦ fail no_tag
      ]

    unfoldable pub add_tag : Bytes → Bytes → Bytes → Action Unit
    unfolding in_db cached add_tag_in_db
    add_tag item indicator tag m = elim (cached item indicator m) [
      | some c ↦
          (ok tt, record m { cache = insert bytes_discrete item (Metric.add_tag tag c) m.cache })
      | none ↦ in_db (add_tag_in_db item indicator tag) m
    ]

    unfoldable pub get_tag_in_db : Bytes → Bytes → StoreExec b Bytes
    get_tag_in_db item indicator = do
      got ← attempt (Messenger.get_metadata b json item)
      elim got [
        | ok meta ↦
            if same bytes_discrete meta.indicator indicator then pure meta.tag else fail no_tag
        | _ ↦ fail no_tag
      ]

    unfoldable pub get_tag : Bytes → Bytes → Action Bytes
    unfolding in_db cached get_tag_in_db
    get_tag item indicator m = elim (cached item indicator m) [
      | some c ↦ (ok c.tag, m)
      | none ↦ in_db (get_tag_in_db item indicator) m
    ]

  -- m.clean, whose error is logged, then m.cacheItemList
  abbrev pub clean_items : ℤ → Action (List Bytes)
  clean_items cache_deadline m =
      let (e, m1) = clean_cache [] (pos 0) cache_deadline m in (ok (cache_item_list m1), m1)

  abbrev pub report_save : Bytes
  report_save = codes "report_save"

  -- one tick of cleanPeriodically at the time `now`; its errors are logged
  unfoldable pub clean_tick : ℤ → ℤ → ℤ → Action Unit
  unfolding in_db clean_cache
  clean_tick now cache_expiration db_expiration = do
    items ← clean_items (now -ℤ cache_expiration)
    in_db (Messenger.clean b items (pos 0) (now -ℤ db_expiration))
    in_db (Messenger.clean b (report_save ∷ []) (pos 0) (now -ℤ db_expiration))

unfoldable pub new_memorizer : (b : Bbolt) → Store b → Memorizer b
new_memorizer b db = record { cache = []; db = db }
