-- ===== src/Report/Kept.antt =====
-- What is kept in the bucket of a detail that could not be delivered, and for how long.
use data_collection.Base.{
  ℕ, zero, suc, ◌≡◌, refl, ◌∙◌, subst, inl, inr, Bool, true, false, none, some, [], ◌∷◌, ◌==◌,
  if◌then◌else◌, Bool-cases, Option-cases, length, ℤ, Bytes, Assoc, Outcome, ok, err, panic, pure,
  continue, ◌>>◌,
}
use data_collection.Storage.Metric.{StorageError}
use data_collection.Storage.Keys.{format_int}
use data_collection.Storage.Bolt.{Bbolt, Store}
use data_collection.Storage.Bolt.Laws.{Changed, Laws, put-Changed, Changed-twice}
use data_collection.Storage.Messenger.{add_data, has_bucket}
use data_collection.Report.Sending.{
  http_request, config_header, Detail, Request, Web, status_error, encoding_body, zip_body, sign,
  judged, deliver, config_query, answered, report_signed, report_data,
}
use data_collection.Report.Keeping.{
  reported, report, keep_text, save_text, save_data, receive_one, forget, retry_one, next_round,
  retry_report,
}

-- not an outcome of a delivery
abbrev pub Undelivered : {E A : Type 0} → Outcome E A → Type 0
Undelivered (ok a) = ⊥
Undelivered (err e) = Unit
Undelivered panic = Unit

module _ {Value W : Type 0} (web : Web Value W)
    (always : (r : Request) (w : W) → (web.post r w).0 ≡ some 200) where
  deliver_200 :
      (content : Bytes) (detail : Detail Value) (w : W) → (deliver web content detail w).0 ≡ true
  unfolding deliver http_request status_error judged
  deliver_200 content detail w =
      elim (Option-cases (config_query web detail.path detail.category detail.query detail.debug)) [
        | inl q ↦ rw (q, deliver) refl
        | inr (url, q) ↦
            rw (q, deliver)
              (rw
                (always
                  (record {
                    url = url;
                    headers = config_header web detail.debug detail.is_zip;
                    content = content;
                  })
                  w)
                refl)
      ]

  answered_lem :
      (detail : Detail Value) (r : Bool × W) → r.0 ≡ true → Undelivered (answered web detail r).0
  answered_lem detail (x, w) q = rw q tt

  report_signed_200 :
      (content : Bytes) (detail : Detail Value) (w : W)
      → Undelivered (report_signed web content detail w).0
  unfolding report_signed
  report_signed_200 content detail w = elim (Option-cases (sign web (web.now w) content detail)) [
    | inl q ↦ rw (q, report_signed) tt
    | inr (signed, q) ↦
        rw (q, report_signed)
          (answered_lem signed (deliver web content signed w) (deliver_200 content signed w))
  ]

  report_200 : (detail : Detail Value) (w : W) → Undelivered (report_data web detail w).0
  unfolding report_data
  report_200 detail w = elim (Option-cases (encoding_body web detail.body)) [
    | inl q ↦ rw (q, report_data) tt
    | inr (bytes_body, q) ↦
        rw (q, report_data)
          (elim (Option-cases (zip_body web bytes_body detail.is_zip)) [
            | inl z ↦ rw z tt
            | inr (content, z) ↦ rw z (report_signed_200 content detail w)
          ])
  ]

  module _ (b : Bbolt) (bucket : Bytes) where
    -- what follows a report that is not a delivery does not touch the store
    step_lem :
        (x : Outcome (Unit {0}) (Unit {0})) (detail : Detail Value) (tm_str : Bytes) (s : Store b)
        (w : W)
        → Undelivered x
        → (continue {S = Store b × W} {E = StorageError}
            (reported web x detail)
            (λ sent. if sent.0 then (do forget web b bucket tm_str; pure true) else pure true)
            (s, w)).1.0
          ≡ s
    step_lem (ok a) detail tm_str s w h = absurd h
    step_lem (err e) detail tm_str s w h = refl
    step_lem panic detail tm_str s w h = refl

    retry_one_200 :
        (tm_str kept : Bytes) (s : Store b) (w : W)
        → (retry_one web b bucket tm_str kept (s, w)).1.0 ≡ s
    unfolding retry_one report
    retry_one_200 tm_str kept s w = elim (Bool-cases (length kept == 2)) [
      | inl q ↦ rw q refl
      | inr q ↦ elim (Option-cases (web.unmarshal kept)) [
        | inl u ↦ rw q (rw u refl)
        | inr (detail, u) ↦
            let x = report_data web detail w in
            rw q (rw u (step_lem x.0 x.1 tm_str s x.2 (report_200 detail w)))
      ]
    ]

    round_lem :
        (o : Outcome StorageError Bool) (asks : ℕ) (m : Assoc Bytes Bytes) (s s' : Store b) (w : W)
        → s' ≡ s
        → ((rest : ℕ) (s : Store b) (w : W) → (retry_report web b bucket rest m (s, w)).1.0 ≡ s)
        → (continue {S = Store b × W} {E = StorageError} o
            (λ asked. elim (next_round asked asks) [
              | none ↦ pure tt
              | some rest ↦ retry_report web b bucket rest m
            ])
            (s', w)).1.0
          ≡ s
    unfolding next_round
    round_lem (ok false) asks m s s' w q rest_lem = rest_lem asks s' w ∙ q
    round_lem (ok true) zero m s s' w q rest_lem = q
    round_lem (ok true) (suc asks) m s s' w q rest_lem = rest_lem asks s' w ∙ q
    round_lem (err e) asks m s s' w q rest_lem = q
    round_lem panic asks m s s' w q rest_lem = q

    -- While each answer has the status 200, the retry leaves every entry where it is, however it ends.
    pub accepted_never_forgotten :
        (asks : ℕ) (m : Assoc Bytes Bytes) (s : Store b) (w : W)
        → (retry_report web b bucket asks m (s, w)).1.0 ≡ s
    unfolding retry_report
    accepted_never_forgotten asks [] s w = refl
    accepted_never_forgotten asks ((key, kept) ∷ m) s w =
        let x = retry_one web b bucket key kept (s, w) in
        round_lem x.0 asks m s x.1.0 x.1.1 (retry_one_200 key kept s w)
          (λ rest s' w'. accepted_never_forgotten rest m s' w')

module _ {Value W : Type 0} (web : Web Value W) (b : Bbolt) (bucket : Bytes)
    (laws : Laws b bucket) where
  -- In `db` the bucket is found, and AddData succeeds and leaves `db'`.
  abbrev pub Adds : ℤ → Bytes → b.Db → b.Db → Type 0
  Adds now kept db db' =
      (has_bucket b bucket (some db) ≡ (ok tt, some db))
      × (add_data b bucket now kept (some db) ≡ (ok tt, some db'))

  save_text_lem :
      (now : ℤ) (kept : Bytes) (db db' : b.Db)
      → Adds now kept db db'
      → save_text web b bucket now kept (some db) ≡ (ok tt, some db')
  unfolding save_text keep_text
  save_text_lem now kept db db' (found, added) = rw found (rw added refl)

  Adds-Changed :
      (now : ℤ) (kept : Bytes) (db db' : b.Db)
      → b.opened db ≡ true
      → b.bucket? bucket db ≡ true
      → Adds now kept db db'
      → Changed b bucket (format_int now) (some kept) db db'
  unfolding add_data
  Adds-Changed now kept db db' opened there (found, added) =
      put-Changed b bucket laws db opened there (format_int now) kept db' added

  -- Data that could not be delivered ends as the entry of the bucket at the second in which it was
  -- saved, and the other entries stay as they are. Conditions: bbolt keeps `Laws` for the bucket, the
  -- database is open with the bucket in it, the detail that the report leaves can be written, and
  -- HasBucket and AddData succeed.
  pub refused_is_kept :
      (detail left : Detail Value) (kept : Bytes) (db db' : b.Db) (w w' : W)
      → report_data web detail w ≡ (err tt, left, w')
      → web.marshal left ≡ some kept
      → b.opened db ≡ true
      → b.bucket? bucket db ≡ true
      → Adds (web.now w') kept db db'
      → (receive_one web b bucket detail (some db, w) ≡ (ok tt, (some db', w')))
        × Changed b bucket (format_int (web.now w')) (some kept) db db'
  unfolding receive_one report save_data
  refused_is_kept detail left kept db db' w w' refused written opened there adds = (
    rw refused (rw (written, save_data) (rw (save_text_lem (web.now w') kept db db' adds) refl)),
    Adds-Changed (web.now w') kept db db' opened there adds,
  )

  -- Of two details that could not be delivered and were saved in the same second only the second is kept.
  -- Conditions: as for one detail, for both, one after the other.
  pub same_second_overwrites :
      (first second left1 left2 : Detail Value) (data1 data2 : Bytes) (db db1 db2 : b.Db)
      (w w1 w2 : W)
      → report_data web first w ≡ (err tt, left1, w1)
      → web.marshal left1 ≡ some data1
      → report_data web second w1 ≡ (err tt, left2, w2)
      → web.marshal left2 ≡ some data2
      → web.now w2 ≡ web.now w1
      → b.opened db ≡ true
      → b.bucket? bucket db ≡ true
      → Adds (web.now w1) data1 db db1
      → Adds (web.now w2) data2 db1 db2
      → ((receive_one web b bucket first >> receive_one web b bucket second) (some db, w)
          ≡ (ok tt, (some db2, w2)))
        × Changed b bucket (format_int (web.now w1)) (some data2) db db2
  same_second_overwrites first second left1 left2 data1 data2 db db1 db2 w w1 w2 refused1 written1
        refused2 written2 at_once opened there adds1 adds2 =
      let (e1, changed1) =
        refused_is_kept first left1 data1 db db1 w w1 refused1 written1 opened there adds1 in
      let (e2, changed2) =
        refused_is_kept second left2 data2 db1 db2 w1 w2 refused2 written2 changed1.opened
          changed1.there adds2 in
      (
        rw e1 (rw e2 refl),
        Changed-twice b bucket (format_int (web.now w1)) (some data1) (some data2) db db1 db2
            changed1
            (subst (λ tm. Changed b bucket (format_int tm) (some data2) db1 db2) at_once changed2),
      )
