-- ===== src/Examples/Report.antt =====
-- Runs of the report, over a database of one bucket.
use data_collection.Base.{
  ℕ, ◌≡◌, refl, sym, ap, subst, true, false, none, some, [], ◌∷◌, arith, pos, Bytes, bytes_discrete,
  codes, Assoc, keys, lookup, insert, delete, lookup-insert, lookup-delete, Outcome, ok, err, ◌>>◌,
}
use data_collection.Storage.Keys.{format_int}
use data_collection.Storage.Bolt.{Bbolt}
use data_collection.Storage.Bolt.Laws.{Changed, Laws}
use data_collection.Report.Sending.{
  text, value, Detail, Web, status_error, report_data, encoding_body, zip_body, report_signed, sign,
  judged, deliver, config_query, http_request,
}
use data_collection.Report.Keeping.{receive_one, retry_report}
use data_collection.Report.Keeping.{next_round}
use data_collection.Report.Entries.{AreTimes, send_entry, delivered_keys}
use data_collection.Report.Retry.{Deletes, Leaves, without_all, retry_forgets_delivered}
use data_collection.Report.Kept.{
  Adds, accepted_never_forgotten, refused_is_kept, same_second_overwrites,
}
use data_collection.Storage.Metric.{StorageError}
use data_collection.Storage.Bolt
use data_collection.Storage.Bolt.{on_db, update, finish}
use data_collection.Storage.Messenger.{has_bucket, add_data}

-- every name is the name of the one bucket
abbrev bolt : Bbolt
bolt = record {
  Db = Assoc Bytes Bytes;
  opened = λ db. true;
  commit = λ db. (ok tt, db);
  bucket? = λ name db. true;
  create_bucket = λ name db. (ok tt, db);
  get = λ name key db. lookup bytes_discrete key db;
  put = λ name key value db. (ok tt, insert bytes_discrete key value db);
  delete = λ name key db. (ok tt, delete bytes_discrete key db);
  cursor = λ name db. keys db;
  close = λ db. (ok tt, db);
}

abbrev saved : Bytes
saved = codes "saved"

insert-Changed :
    (key v : Bytes) (db : Assoc Bytes Bytes)
    → Changed bolt saved key (some v) db (insert bytes_discrete key v db)
insert-Changed key v db = record {
  opened = refl;
  there = refl;
  reads = λ k. ground (arith, lookup-insert bytes_discrete key k v db);
}

delete-Changed :
    (key : Bytes) (db : Assoc Bytes Bytes)
    → Changed bolt saved key none db (delete bytes_discrete key db)
delete-Changed key db = record {
  opened = refl;
  there = refl;
  reads = λ k. ground (arith, lookup-delete bytes_discrete key k db);
}

abbrev laws : Laws bolt saved
laws = record {
  commits =
      λ db db' h. ap (λ (r : Outcome StorageError (Unit {0}) × Assoc Bytes Bytes). r.1) (sym h);
  created = λ db o h. refl;
  puts = λ key v db db' o h e.
      subst (Changed bolt saved key (some v) db)
        (ap (λ (r : Outcome StorageError (Unit {0}) × Assoc Bytes Bytes). r.1) e)
        (insert-Changed key v db);
  deletes = λ key db db' o h e.
      subst (Changed bolt saved key none db)
        (ap (λ (r : Outcome StorageError (Unit {0}) × Assoc Bytes Bytes). r.1) e)
        (delete-Changed key db);
}

abbrev detail_of : Bytes → Detail ℕ
detail_of s = record {
  path = codes "/v5/data";
  category = codes "plain";
  query = none;
  body = text s;
  debug = true;
  is_zip = false;
}

-- a server that answers with the status, at noon; it needs no state
abbrev web_of : ℕ → Web ℕ Unit
web_of status = record {
  marshal_value = λ v. none;
  marshal = λ d. elim d.body [ text s ↦ some s | value v ↦ none ];
  unmarshal = λ s. some (detail_of s);
  gzip = λ s. some s;
  md5_hex = λ s. s;
  machine_id = codes "m";
  token = λ debug. codes "t";
  set_query = λ q url. some url;
  post = λ r w. (some status, w);
  now = λ w. pos 1700000000;
}

created :
    (s : Bytes) (w : Unit) → report_data (web_of 201) (detail_of s) w ≡ (ok tt, detail_of s, w)
unfolding report_data encoding_body zip_body report_signed sign bytes_discrete deliver config_query
    http_request judged status_error
created s w = refl

unavailable :
    (s : Bytes) (w : Unit) → report_data (web_of 503) (detail_of s) w ≡ (err tt, detail_of s, w)
unfolding report_data encoding_body zip_body report_signed sign bytes_discrete deliver config_query
    http_request judged status_error
unavailable s w = refl

-- a value of noon
abbrev waiting : Assoc Bytes Bytes
waiting = (codes "1700000000", codes "value") ∷ []

waiting-AreTimes : AreTimes waiting
unfolding format_int
waiting-AreTimes = ((pos 1700000000, omega arith, refl), tt)

all_deletes : Deletes (web_of 201) bolt saved laws
unfolding Bolt.del on_db update finish
all_deletes key db o h = (delete bytes_discrete key db, refl)

delivered : delivered_keys (web_of 201) 1 waiting tt ≡ some (codes "1700000000" ∷ [], tt)
unfolding delivered_keys send_entry next_round report_data encoding_body zip_body report_signed sign
    bytes_discrete deliver config_query http_request judged status_error
delivered = refl

retry_forgets_delivered_example :
    Leaves
      (web_of 201)
      bolt
      saved
      laws
      tt
      (without_all
        (web_of 201)
        bolt
        saved
        laws
        (codes "1700000000" ∷ [])
        (λ k. lookup bytes_discrete k waiting))
      tt
      (retry_report (web_of 201) bolt saved 1 waiting (some waiting, tt))
retry_forgets_delivered_example =
    retry_forgets_delivered (web_of 201) bolt saved laws all_deletes 1 waiting waiting tt tt
      (λ k. lookup bytes_discrete k waiting) (codes "1700000000" ∷ []) waiting-AreTimes delivered
      (refl, refl, λ k. refl)

accepted_never_forgotten_example :
    (retry_report (web_of 200) bolt saved 1 waiting (some waiting, tt)).1.0 ≡ some waiting
accepted_never_forgotten_example =
    accepted_never_forgotten (web_of 200) (λ r w. refl) bolt saved 1 waiting (some waiting) tt

adds :
    (content : Bytes) (db : Assoc Bytes Bytes)
    → Adds
        (web_of 503)
        bolt
        saved
        laws
        (pos 1700000000)
        content
        db
        (insert bytes_discrete (format_int (pos 1700000000)) content db)
unfolding has_bucket add_data Bolt.has_bucket Bolt.put on_db update finish
adds content db = (refl, refl)

abbrev with_value : Bytes → Assoc Bytes Bytes → Assoc Bytes Bytes
with_value content db = insert bytes_discrete (format_int (pos 1700000000)) content db

refused_is_kept_example :
    (receive_one (web_of 503) bolt saved (detail_of (codes "a")) (some waiting, tt)
      ≡ (ok tt, (some (with_value (codes "a") waiting), tt)))
    × Changed bolt saved
        (format_int (pos 1700000000))
        (some (codes "a"))
        waiting
        (with_value (codes "a") waiting)
refused_is_kept_example =
    refused_is_kept (web_of 503) bolt saved laws (detail_of (codes "a")) (detail_of (codes "a"))
      (codes "a") waiting (with_value (codes "a") waiting) tt tt (unavailable (codes "a") tt) refl
      refl refl (adds (codes "a") waiting)

same_second_overwrites_example :
    ((receive_one (web_of 503) bolt saved (detail_of (codes "a"))
          >> receive_one (web_of 503) bolt saved (detail_of (codes "b")))
        (some waiting, tt)
      ≡ (ok tt, (some (with_value (codes "b") (with_value (codes "a") waiting)), tt)))
    × Changed bolt saved
        (format_int (pos 1700000000))
        (some (codes "b"))
        waiting
        (with_value (codes "b") (with_value (codes "a") waiting))
same_second_overwrites_example =
    same_second_overwrites (web_of 503) bolt saved laws (detail_of (codes "a"))
      (detail_of (codes "b")) (detail_of (codes "a")) (detail_of (codes "b")) (codes "a")
      (codes "b") waiting (with_value (codes "a") waiting)
      (with_value (codes "b") (with_value (codes "a") waiting)) tt tt tt
      (unavailable (codes "a") tt) refl (unavailable (codes "b") tt) refl refl refl refl
      (adds (codes "a") waiting) (adds (codes "b") (with_value (codes "a") waiting))
