-- ===== src/Storage/Bolt.antt =====
-- storage/bbolt.go: a store of buckets over bbolt. bbolt is a parameter, by the transactions and
-- calls that the store uses; calling a method of a bucket that is not there is a nil dereference.
pub mod Laws
use data_collection.Base.{
  Bool, true, false, ◌&&◌, ◌||◌, Option, none, some, List, [], ◌∷◌, ltb, ◌==◌, if◌then◌else◌, Bytes,
  Outcome, ok, err, panic, Exec, ◌>>◌,
}
use data_collection.Storage.Metric.{StorageError, db_null, bucket_missing, key_not_found, not_open}

abbrev pub DbExec : Type 0 → Type 0 → Type 0
DbExec Db A = Exec Db StorageError A

-- go.etcd.io/bbolt, as the store uses it
pub record Bbolt : Type 1 where
  pub Db : Type 0
  -- the database has not been closed, so a transaction can begin
  pub opened : Db → Bool
  -- tx.Commit, which may fail
  pub commit : DbExec Db Unit
  -- tx.Bucket(bucket) != nil
  pub bucket? : Bytes → Db → Bool
  -- tx.CreateBucketIfNotExists
  pub create_bucket : Bytes → DbExec Db Unit
  -- Get, Put and Delete of a bucket that is there
  pub get : Bytes → Bytes → Db → Option Bytes
  pub put : Bytes → Bytes → Bytes → DbExec Db Unit
  pub delete : Bytes → Bytes → DbExec Db Unit
  -- the keys of a bucket in the order of a cursor, ascending by bytes
  pub cursor : Bytes → Db → List Bytes
  pub close : DbExec Db Unit

-- bytes.Compare(a, b) < 0
unfoldable pub bytes_lt : Bytes → Bytes → Bool
bytes_lt a [] = false
bytes_lt [] (y ∷ b) = true
bytes_lt (x ∷ a) (y ∷ b) = ltb x y || (x == y && bytes_lt a b)

-- bytes.HasPrefix(k, prefix)
unfoldable pub has_prefix : Bytes → Bytes → Bool
has_prefix k [] = true
has_prefix [] (y ∷ prefix) = false
has_prefix (x ∷ k) (y ∷ prefix) = x == y && has_prefix k prefix

-- cursor.Seek(prefix)
unfoldable pub seek : Bytes → List Bytes → List Bytes
seek prefix [] = []
seek prefix (k ∷ ks) = let rest = seek prefix ks in if bytes_lt k prefix then rest else k ∷ ks

-- the loop of Keys: up to the first key without the prefix
unfoldable pub while_prefix : Bytes → List Bytes → List Bytes
while_prefix prefix [] = []
while_prefix prefix (k ∷ ks) =
    let rest = while_prefix prefix ks in if has_prefix k prefix then k ∷ rest else []

-- db.Update(body): what the body did is kept if it returns no error and the commit succeeds.
module _ {Db A : Type 0} (commit : DbExec Db Unit) (before : Db) where
  unfoldable pub finish : Outcome StorageError A → Db → Outcome StorageError A × Db
  finish (ok a) db =
      let (r, db') = commit db in
      elim r [ ok _ ↦ (ok a, db') | err e ↦ (err e, before) | panic ↦ (panic, before) ]
  finish (err e) db = (err e, before)
  finish panic db = (panic, before)

module _ (b : Bbolt) where
  open b use {Db}

  unfoldable pub update : {A : Type 0} → DbExec Db A → DbExec Db A
  unfolding finish
  update body db =
      if b.opened db
      then (let (r, db') = body db in finish b.commit db r db')
      else (err not_open, db)

  -- db.View(body): the body cannot write
  unfoldable pub view : {A : Type 0} → (Db → Outcome StorageError A) → DbExec Db A
  view body db = if b.opened db then (body db, db) else (err not_open, db)

  -- BoltStore: the handle is nil if the database could not be opened.
  abbrev pub Store : Type 0
  Store = Option Db

  abbrev pub StoreExec : Type 0 → Type 0
  StoreExec A = Exec Store StorageError A

  unfoldable pub on_db : {A : Type 0} → DbExec Db A → StoreExec A
  on_db body none = (err db_null, none)
  on_db body (some db) = let (r, db') = body db in (r, some db')

  unfoldable pub create : Bytes → StoreExec Unit
  create bucket = on_db (update (b.create_bucket bucket))

  unfoldable pub has_bucket : Bytes → StoreExec Unit
  has_bucket bucket =
      on_db (update λ db. ((if b.bucket? bucket db then ok tt else err bucket_missing), db))

  -- the bodies of Get, Keys and Has
  unfoldable pub get_body : Bytes → Bytes → Db → Outcome StorageError Bytes
  get_body bucket key db =
      if b.bucket? bucket db
      then elim (b.get bucket key db) [ some v ↦ ok v | none ↦ err key_not_found ]
      else panic

  unfoldable pub keys_body : Bytes → Bytes → Db → Outcome StorageError (List Bytes)
  unfolding seek while_prefix
  keys_body bucket prefix db =
      if b.bucket? bucket db
      then ok (while_prefix prefix (seek prefix (b.cursor bucket db)))
      else panic

  unfoldable pub has_body : Bytes → Bytes → Db → Outcome StorageError Bool
  has_body bucket key db =
      if b.bucket? bucket db
      then elim (b.get bucket key db) [ some v ↦ err key_not_found | none ↦ ok true ]
      else panic

  unfoldable pub get : Bytes → Bytes → StoreExec Bytes
  unfolding get_body
  get bucket key = on_db (view (get_body bucket key))

  unfoldable pub put : Bytes → Bytes → Bytes → StoreExec Unit
  put bucket key value = on_db (update (do b.create_bucket bucket; b.put bucket key value))

  unfoldable pub store_keys : Bytes → Bytes → StoreExec (List Bytes)
  unfolding keys_body
  store_keys bucket prefix = on_db (view (keys_body bucket prefix))

  unfoldable pub del : Bytes → Bytes → StoreExec Unit
  del bucket key = on_db (update (do b.create_bucket bucket; b.delete bucket key))

  unfoldable pub has : Bytes → Bytes → StoreExec Bool
  unfolding has_body
  has bucket key = on_db (view (has_body bucket key))

  -- Close logs an error and returns nothing.
  unfoldable pub close : StoreExec Unit
  close none = (ok tt, none)
  close (some db) = let (r, db') = b.close db in (elim r [ panic ↦ panic | _ ↦ ok tt ], some db')
