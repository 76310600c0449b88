-- ===== src/Storage/Bolt/Laws.antt =====
-- What bbolt promises about a bucket that is there, and what the store's operations then do to it.
use data_collection.Base.{
  ◌≡◌, refl, sym, ap, ◌∙◌, inl, inr, true, Option, none, some, if◌then◌else◌, Bool-cases, Bytes,
  bytes_discrete, same, Outcome, ok, err, panic, Exec,
}
use data_collection.Storage.Metric.{StorageError}
use data_collection.Storage.Bolt
use data_collection.Storage.Bolt.{Bbolt, Store, on_db, update, finish}

-- `db'` is `db` but for one key of the bucket, which holds `value`
pub record Changed (b : Bbolt) (bucket key : Bytes) (value : Option Bytes) (db db' : b.Db)
    : Type 0 where
  pub opened : b.opened db' ≡ true
  pub there : b.bucket? bucket db' ≡ true
  pub reads :
      (k : Bytes)
      → b.get bucket k db' ≡ (if same bytes_discrete key k then value else b.get bucket k db)

-- What a transaction that commits has done: CreateBucketIfNotExists leaves a bucket that is there, and a
-- Put or a Delete that succeeds changes one key. Any of Put, Delete and the commit may fail.
pub record Laws (b : Bbolt) (bucket : Bytes) : Type 0 where
  pub commits : (db db' : b.Db) → b.commit db ≡ (ok tt, db') → db' ≡ db
  pub created :
      (db : b.Db)
      → b.opened db ≡ true
      → b.bucket? bucket db ≡ true
      → b.create_bucket bucket db ≡ (ok tt, db)
  pub puts :
      (key value : Bytes) (db db' : b.Db)
      → b.opened db ≡ true
      → b.bucket? bucket db ≡ true
      → b.put bucket key value db ≡ (ok tt, db')
      → Changed b bucket key (some value) db db'
  pub deletes :
      (key : Bytes) (db db' : b.Db)
      → b.opened db ≡ true
      → b.bucket? bucket db ≡ true
      → b.delete bucket key db ≡ (ok tt, db')
      → Changed b bucket key none db db'

-- a second change of the same key
pub Changed-twice :
    (b : Bbolt) (bucket key : Bytes) (v1 v2 : Option Bytes) (db db1 db2 : b.Db)
    → Changed b bucket key v1 db db1
    → Changed b bucket key v2 db1 db2
    → Changed b bucket key v2 db db2
Changed-twice b bucket key v1 v2 db db1 db2 first second = record {
  opened = second.opened;
  there = second.there;
  reads = λ k. second.reads k ∙ elim (Bool-cases (same bytes_discrete key k)) [
    | inl q ↦ rw q refl
    | inr q ↦ rw q (first.reads k ∙ rw q refl)
  ];
}

abbrev Ran : {Db : Type 0} → Outcome StorageError (Unit {0}) × Db → Db → Type 0
Ran r db = r ≡ (ok tt, db)

module _ {Db : Type 0} (commit : Exec Db StorageError Unit) (before : Db) where
  committed :
      (r : Outcome StorageError (Unit {0})) (db1 db' : Db)
      → Ran (elim r [ ok _ ↦ (ok tt, db1) | err e ↦ (err e, before) | panic ↦ (panic, before) ]) db'
      → Ran (r, db1) db'
  committed (ok _) db1 db' h = h
  committed (err e) db1 db' h = let q : err e ≡ ok tt = ap (λ p. p.0) h in absurd (cc)
  committed panic db1 db' h = let q : panic ≡ ok tt = ap (λ p. p.0) h in absurd (cc)

  -- a transaction that ends well has done its body, and has committed
  finish-ok :
      (r : Outcome StorageError (Unit {0})) (db db' : Db)
      → Ran (finish commit before r db) db'
      → (r ≡ ok tt) × Ran (commit db) db'
  unfolding finish
  finish-ok (ok _) db db' h = (refl, committed (commit db).0 (commit db).1 db' h)
  finish-ok (err e) db db' h = let q : err e ≡ ok tt = ap (λ p. p.0) h in absurd (cc)
  finish-ok panic db db' h = let q : panic ≡ ok tt = ap (λ p. p.0) h in absurd (cc)

module _ (b : Bbolt) (bucket : Bytes) (laws : Laws b bucket) (db : b.Db)
    (opened : b.opened db ≡ true) (there : b.bucket? bucket db ≡ true) where
  abbrev handle : Outcome StorageError (Unit {0}) × b.Db → Outcome StorageError (Unit {0}) × Store b
  handle r = (r.0, some r.1)

  abbrev Held : Outcome StorageError (Unit {0}) × Store b → b.Db → Type 0
  Held r db' = r ≡ (ok tt, some db')

  Ran-of :
      (r : Outcome StorageError (Unit {0})) (db1 db' : b.Db)
      → r ≡ ok tt
      → db1 ≡ db'
      → Ran (r, db1) db'
  Ran-of r db1 db' p q = ap (λ x. (x, db1)) p ∙ ap (λ x. (ok tt, x)) q

  finished :
      (r : Outcome StorageError (Unit {0}) × b.Db) (db' : b.Db)
      → Held (handle (finish b.commit db r.0 r.1)) db'
      → Ran r db'
  finished r db' h =
      let f = finish b.commit db r.0 r.1 in
      let second : some f.1 ≡ some db' = ap (λ p. p.1) h in
      let ran : Ran f db' =
        Ran-of f.0 f.1 db' (ap (λ p. p.0) h)
          (ap (λ o. elim o [ none ↦ f.1 | some x ↦ x ]) second) in
      let (body, done) = finish-ok b.commit db r.0 r.1 db' ran in
      Ran-of r.0 r.1 db' body (sym (laws.commits r.1 db' done))

  -- a Del that succeeds changes one key
  pub del-Changed :
      (key : Bytes) (db' : b.Db)
      → Bolt.del b bucket key (some db) ≡ (ok tt, some db')
      → Changed b bucket key none db db'
  unfolding Bolt.del on_db update
  del-Changed key db' h =
      laws.deletes key db db' opened there
        (finished (b.delete bucket key db) db' (sym opened_lem ∙ h))
    where
      opened_lem :
          Bolt.del b bucket key (some db)
          ≡ handle (finish b.commit db (b.delete bucket key db).0 (b.delete bucket key db).1)
      opened_lem = rw opened (rw (laws.created db opened there) refl)

  -- a Put that succeeds changes one key
  pub put-Changed :
      (key value : Bytes) (db' : b.Db)
      → Bolt.put b bucket key value (some db) ≡ (ok tt, some db')
      → Changed b bucket key (some value) db db'
  unfolding Bolt.put on_db update
  put-Changed key value db' h =
      laws.puts key value db db' opened there
        (finished (b.put bucket key value db) db' (sym opened_lem ∙ h))
    where
      opened_lem :
          Bolt.put b bucket key value (some db)
          ≡ handle (finish b.commit db (b.put bucket key value db).0 (b.put bucket key value db).1)
      opened_lem = rw opened (rw (laws.created db opened there) refl)
