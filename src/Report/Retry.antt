-- ===== src/Report/Retry.antt =====
-- What a round of retries leaves in the bucket.
use data_collection.Base.{
  ℕ, ◌≡◌, refl, ap, ◌∙◌, subst, inl, inr, Bool, true, false, ◌&&◌, Option, none, some, List, [],
  ◌∷◌, arith, ◌==◌, if◌then◌else◌, Bool-cases, Option-cases, length, ℤ, Bytes, bytes_discrete,
  Assoc, same, contains, Outcome, ok, err, panic, pure, continue, ◌>>◌,
}
use data_collection.Storage.Metric.{StorageError}
use data_collection.Storage.Keys.{format_int}
use data_collection.Storage.Keys.Decimal.{IsInt64, parse_int-format_int}
use data_collection.Storage.Bolt.{Bbolt, Store}
use data_collection.Storage.Bolt
use data_collection.Storage.Bolt.Laws.{Laws, del-Changed}
use data_collection.Storage.Messenger.{del_data}
use data_collection.Report.Sending.{Detail, Web, report_data}
use data_collection.Report.Keeping.{
  ReportExec, reported, report, forget, retry_one, next_round, retry_report,
}
use data_collection.Report.Entries.{
  IsTime, AreTimes, outcome_of, send_entry, with_key, after_next, after_entry, delivered_keys,
}

module _ {Value W : Type 0} (web : Web Value W) where
  module _ (b : Bbolt) (bucket : Bytes) (laws : Laws b bucket) where
    -- a Del of an open database that has the bucket succeeds
    abbrev pub Deletes : Type 0
    Deletes =
        (key : Bytes) (db : b.Db)
        → b.opened db ≡ true
        → b.bucket? bucket db ≡ true
        → (db' : b.Db) × (Bolt.del b bucket key (some db) ≡ (ok tt, some db'))

    -- the database is open, the bucket is there and reads as `f`
    abbrev pub Reads : (Bytes → Option Bytes) → b.Db → Type 0
    Reads f db =
        (b.opened db ≡ true)
        × (b.bucket? bucket db ≡ true)
        × ((k : Bytes) → b.get bucket k db ≡ f k)

    abbrev pub Leaves :
        {A : Type 0}
        → A
        → (Bytes → Option Bytes)
        → W
        → Outcome StorageError A × (Store b × W)
        → Type 0
    Leaves a f w r = (db' : b.Db) × (r ≡ (ok a, (some db', w))) × Reads f db'

    -- what the bucket reads as when a delivered entry has been forgotten
    abbrev without : Bool → Bytes → (Bytes → Option Bytes) → Bytes → Option Bytes
    without gone key f k = if gone && same bytes_discrete key k then none else f k

    -- entries with the same key as one of `ks` read as none
    abbrev pub without_all : List Bytes → (Bytes → Option Bytes) → Bytes → Option Bytes
    without_all ks f k = if contains bytes_discrete k ks then none else f k

    -- an entry that does not panic leaves the bucket without it if it was delivered
    abbrev Left :
        Bytes
        → (Bytes → Option Bytes)
        → Option (Bool × Bool × W)
        → Outcome StorageError Bool × (Store b × W)
        → Type 0
    Left key f none r = Unit
    Left key f (some (asked, gone, w)) r = Leaves asked (without gone key f) w r

    module _ (deletes : Deletes) where
      forget_lem :
          (tm : ℤ) (db : b.Db) (w : W) (f : Bytes → Option Bytes)
          → IsInt64 tm
          → Reads f db
          → Leaves tt
              (without true (format_int tm) f)
              w
              (forget web b bucket (format_int tm) (some db, w))
      unfolding forget del_data
      forget_lem tm db w f fits (opened, there, reads) =
          let (db', e) = deletes (format_int tm) db opened there in
          let changed = del-Changed b bucket laws db opened there (format_int tm) db' e in
          (
            db',
            rw (parse_int-format_int tm fits, forget) (rw (e, del_data) refl),
            (
              changed.opened,
              changed.there,
              λ k.
                  changed.reads k
                  ∙ ap (λ o. if same bytes_discrete (format_int tm) k then none else o) (reads k),
            ),
          )

      answer_lem :
          (o : Outcome (Unit {0}) (Unit {0})) (detail : Detail Value) (tm : ℤ) (db : b.Db) (w : W)
          (f : Bytes → Option Bytes)
          → IsInt64 tm
          → Reads f db
          → Left (format_int tm) f (outcome_of web (o, detail, w)) (
              continue {S = Store b × W} {E = StorageError}
                (reported web o detail)
                (λ sent.
                  if sent.0 then (do forget web b bucket (format_int tm); pure true) else pure true)
                (some db, w))
      answer_lem (ok x) detail tm db w f fits reads =
          let (db', e, reads') = forget_lem tm db w f fits reads in (db', rw e refl, reads')
      answer_lem (err e) detail tm db w f fits reads = (db, refl, reads)
      answer_lem panic detail tm db w f fits reads = tt

      retry_one_lem :
          (tm : ℤ) (s : Bytes) (db : b.Db) (w : W) (f : Bytes → Option Bytes)
          → IsInt64 tm
          → Reads f db
          → Left
              (format_int tm)
              f
              (send_entry web s w)
              (retry_one web b bucket (format_int tm) s (some db, w))
      unfolding retry_one report send_entry
      retry_one_lem tm s db w f fits reads = elim (Bool-cases (length s == 2)) [
        | inl q ↦ rw q (db, refl, reads)
        | inr q ↦ elim (Option-cases (web.unmarshal s)) [
          | inl u ↦ rw q (rw u (db, refl, reads))
          | inr (detail, u) ↦
              let x = report_data web detail w in
              rw q (rw u (answer_lem x.0 x.1 tm db x.2 f fits reads))
        ]
      ]

      retry_one_at :
          (key s : Bytes) (db : b.Db) (w : W) (f : Bytes → Option Bytes)
          → IsTime key
          → Reads f db
          → Left key f (send_entry web s w) (retry_one web b bucket key s (some db, w))
      retry_one_at key s db w f (tm, fits, q) reads = rw q (retry_one_lem tm s db w f fits reads)

    close_lem :
        (key : Bytes) (gone : Bool) (o : Option (List Bytes × W)) (f : Bytes → Option Bytes)
        (ks : List Bytes) (w' : W)
        → with_key web key gone o ≡ some (ks, w')
        → (ks' : List Bytes) × (o ≡ some (ks', w'))
          × ((k : Bytes) → without_all ks' (without gone key f) k ≡ without_all ks f k)
    unfolding contains
    close_lem key gone none f ks w' h = absurd (cc)
    close_lem key true (some (ks', w)) f ks w' h =
        let same_keys : key ∷ ks' ≡ ks = ap (λ o. elim o [ none ↦ ks | some r ↦ r.0 ]) h in
        let same_world : w ≡ w' = ap (λ o. elim o [ none ↦ w | some r ↦ r.1 ]) h in
        (
          ks',
          ap (λ x. some (ks', x)) same_world,
          λ k.
              subst (λ l. without_all ks' (without true key f) k ≡ without_all l f k) same_keys
                (ground arith),
        )
    close_lem key false (some (ks', w)) f ks w' h = (ks, h, λ k. refl)

    end_lem :
        (db : b.Db) (w w' : W) (f : Bytes → Option Bytes) (ks : List Bytes)
        → after_next web w (λ rest. none) none ≡ some (ks, w')
        → Reads f db
        → Leaves tt (without_all ks f) w' (ok tt, (some db, w))
    unfolding contains
    end_lem db w w' f ks h (opened, there, reads) =
        let no_keys : [] ≡ ks =
          ap (λ (o : Option (List Bytes × W)). elim o [ none ↦ ks | some r ↦ r.0 ]) h in
        let same_world : w ≡ w' = ap (λ o. elim o [ none ↦ w | some r ↦ r.1 ]) h in
        (
          db,
          ap (λ x. (ok tt, (some db, x))) same_world,
          (
            opened,
            there,
            λ k. subst (λ l. b.get bucket k db ≡ without_all l f k) no_keys (reads k),
          ),
        )

    abbrev go_on : Assoc Bytes Bytes → Option ℕ → ReportExec web b bucket Unit
    go_on m next = elim next [ none ↦ pure tt | some rest ↦ retry_report web b bucket rest m ]

    rest_lem :
        (m : Assoc Bytes Bytes) (db : b.Db) (w w' : W) (f : Bytes → Option Bytes) (ks : List Bytes)
        (next : Option ℕ)
        → after_next web w (λ rest. delivered_keys web rest m w) next ≡ some (ks, w')
        → Reads f db
        → ((rest : ℕ)
            → delivered_keys web rest m w ≡ some (ks, w')
            → Leaves tt (without_all ks f) w' (retry_report web b bucket rest m (some db, w)))
        → Leaves tt (without_all ks f) w' (go_on m next (some db, w))
    rest_lem m db w w' f ks none h reads ih = end_lem db w w' f ks h reads
    rest_lem m db w w' f ks (some rest) h reads ih = ih rest h

    round_lem :
        (asks : ℕ) (key : Bytes) (m : Assoc Bytes Bytes) (f : Bytes → Option Bytes)
        (ks : List Bytes) (w' : W) (o : Option (Bool × Bool × W))
        (r : Outcome StorageError Bool × (Store b × W))
        → Left key f o r
        → after_entry web key asks (λ rest w. delivered_keys web rest m w) o ≡ some (ks, w')
        → ((rest : ℕ) (db : b.Db) (w : W) (f : Bytes → Option Bytes) (ks : List Bytes)
            → delivered_keys web rest m w ≡ some (ks, w')
            → Reads f db
            → Leaves tt (without_all ks f) w' (retry_report web b bucket rest m (some db, w)))
        → Leaves tt (without_all ks f) w' (
            continue {S = Store b × W} {E = StorageError} r.0
              (λ asked. go_on m (next_round asked asks))
              r.1)
    round_lem asks key m f ks w' none r left h ih = absurd (cc)
    round_lem asks key m f ks w' (some (asked, gone, w)) r (db, e, reads) h ih =
        let (ks', counted, same_reads) =
          close_lem key gone
            (after_next web w (λ rest. delivered_keys web rest m w) (next_round asked asks)) f ks w'
            h in
        let (db', e', (opened, there, reads')) =
          rest_lem m db w w' (without gone key f) ks' (next_round asked asks) counted reads
            (λ rest k. ih rest db w (without gone key f) ks' k reads) in
        (db', rw e e', (opened, there, λ k. reads' k ∙ same_reads k))

    -- Where no report panics, the retry ends well, in the world after the reports, and in the database that
    -- is left the bucket reads as before but for the entries that were delivered before the context was
    -- done, which are gone. Conditions: bbolt keeps `Laws` for the bucket, Del succeeds in an open database
    -- with the bucket, the keys are times, and the database is open with the bucket in it.
    pub retry_forgets_delivered :
        Deletes
        → (asks : ℕ) (m : Assoc Bytes Bytes) (db : b.Db) (w w' : W) (f : Bytes → Option Bytes)
          (ks : List Bytes)
        → AreTimes m
        → delivered_keys web asks m w ≡ some (ks, w')
        → Reads f db
        → Leaves tt (without_all ks f) w' (retry_report web b bucket asks m (some db, w))
    unfolding retry_report delivered_keys
    retry_forgets_delivered deletes asks [] db w w' f ks times h reads =
        end_lem db w w' f ks h reads
    retry_forgets_delivered deletes asks ((key, s) ∷ m) db w w' f ks (time, times) h reads =
        round_lem asks key m f ks w' (send_entry web s w)
          (retry_one web b bucket key s (some db, w)) (retry_one_at deletes key s db w f time reads)
          h
          (λ rest db1 w1 f1 ks1 k reads1.
            retry_forgets_delivered deletes rest m db1 w1 w' f1 ks1 times k reads1)
