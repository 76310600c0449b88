-- ===== src/Storage/Metric/History.antt =====
-- Metric.AddField, DelFields and Has: writes never overwrite, deletion is of a closed interval, and
-- a time stands once.
use data_collection.Base.{
  ◌≡◌, refl, inl, inr, ite, ◌&&◌, Option, none, some, arith, if◌then◌else◌, Bool-cases, keep, ℤ,
  ℤ_discrete, leb_ℤ, Bytes, is_some, keys, lookup, Distinct, lookup-insert, lookup-delete_kept,
  insert-Distinct, delete_all-Distinct,
}
use data_collection.Storage.Metric.{
  Metric, timestamp_existed, param_error, new_metric, add_field, del_fields, has,
}

abbrev pub at : ℤ → Metric → Option Bytes
at k c = lookup ℤ_discrete k c.fields

-- A new time is stored, and adding data under a time that has data is an error that changes nothing;
-- every other time keeps its data.
pub add_field_lem :
    (value : Bytes) (tm k : ℤ) (c : Metric)
    → ((add_field value tm c).1 ≡ (if has tm c then some timestamp_existed else none))
      × (at k (add_field value tm c).0
          ≡ ite (ℤ_discrete tm k) (if has tm c then at k c else some value) (at k c))
unfolding add_field has
add_field_lem value tm k c = elim (Bool-cases (is_some (lookup ℤ_discrete tm c.fields))) [
  | inl e ↦ rw e (refl, ground arith)
  | inr e ↦ rw e (refl, lookup-insert ℤ_discrete tm k value c.fields)
]

-- DelFields removes the data of the times from `start` to `end`, both included, and no other; a `start`
-- after `end` is an error.
pub del_fields_lem :
    (start end k : ℤ) (c : Metric)
    → ((del_fields start end c).1 ≡ (if leb_ℤ start end then none else some param_error))
      × (at k (del_fields start end c).0 ≡ (if leb_ℤ start k && leb_ℤ k end then none else at k c))
unfolding del_fields
del_fields_lem start end k c =
    let deleted =
      lookup-delete_kept ℤ_discrete (λ (j : ℤ). leb_ℤ start j && leb_ℤ j end) k c.fields in
    (ground arith, ground (arith, deleted))

abbrev pub IsMap : Metric → Type 0
IsMap c = Distinct ℤ_discrete c.fields

-- Each time stands once, from the start and after every operation.
pub metric-IsMap :
    (c : Metric) (value indicator : Bytes) (tm start end : ℤ)
    → IsMap c
    → IsMap (new_metric indicator)
      × IsMap (add_field value tm c).0
      × IsMap (del_fields start end c).0
unfolding new_metric add_field del_fields
metric-IsMap c value indicator tm start end d = (
  tt,
  ground (arith, insert-Distinct ℤ_discrete tm value c.fields d),
  ground (
    arith,
    delete_all-Distinct ℤ_discrete (keep (λ key. leb_ℤ start key && leb_ℤ key end) (keys c.fields))
        c.fields d,
  ),
)
