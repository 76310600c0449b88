-- ===== src/Report/Keeping.antt =====
-- report/http_request.go: what could not be delivered is kept in a bucket, and tried again.
use data_collection.Base.{
  ℕ, zero, suc, Bool, true, false, Option, none, some, [], ◌∷◌, ◌==◌, if◌then◌else◌, length,
  get_elem?, ℤ, Bytes, codes, Assoc, is_some, Outcome, ok, err, panic, Exec, pure, fail, attempt,
  ◌>>=◌, ◌>>◌,
}
use data_collection.Storage.Metric.{StorageError, no_data}
use data_collection.Storage.Keys.{parse_int}
use data_collection.Storage.Bolt.{Bbolt, Store, StoreExec}
use data_collection.Storage.Messenger.{
  add_bucket, has_bucket, add_data, del_data, all_data_in_bucket,
}
use data_collection.Report.Sending.{Detail, Web, report_data, text}

-- the context, which is done when it has been asked for `asks` more times
unfoldable pub next_round : Bool → ℕ → Option ℕ
next_round false asks = some asks
next_round true zero = none
next_round true (suc asks) = some asks

module _ {Value W : Type 0} (web : Web Value W) where
  abbrev pub reported :
      Outcome (Unit {0}) (Unit {0}) → Detail Value → Outcome StorageError (Bool × Detail Value)
  reported (ok x) detail = ok (true, detail)
  reported (err e) detail = ok (false, detail)
  reported panic detail = panic

  module _ (b : Bbolt) (save_bucket : Bytes) where
    abbrev pub ReportExec : Type 0 → Type 0
    ReportExec A = Exec (Store b × W) StorageError A

    abbrev pub on_store : {A : Type 0} → StoreExec b A → ReportExec A
    on_store m (s, w) = let (r, s') = m s in (r, (s', w))

    -- whether a detail could be delivered
    unfoldable pub report : Detail Value → ReportExec (Bool × Detail Value)
    unfolding report_data
    report detail (s, w) =
        let (r, detail', w') = report_data web detail w in (reported r detail', (s, w'))

    -- behind the bucket; an error is logged
    unfoldable pub keep_text : ℤ → Bytes → StoreExec b Unit
    unfolding add_data
    keep_text now s = do attempt (add_data b save_bucket now s); pure tt

    unfoldable pub save_text : ℤ → Bytes → StoreExec b Unit
    unfolding keep_text has_bucket add_bucket
    save_text now s = do
      there ← attempt (has_bucket b save_bucket)
      elim there [
        | ok _ ↦ keep_text now s
        | _ ↦ do
          made ← attempt (add_bucket b save_bucket)
          elim made [ ok _ ↦ keep_text now s | _ ↦ pure tt ]
      ]

    unfoldable pub save_data : Detail Value → ReportExec Unit
    unfolding save_text
    save_data detail (s, w) = elim (web.marshal detail) [
      | none ↦ (ok tt, (s, w))
      | some data_bytes ↦ on_store (save_text (web.now w) data_bytes) (s, w)
    ]

    -- the case of receiveData that has taken a detail from the channel
    unfoldable pub receive_one : Detail Value → ReportExec Unit
    unfolding report save_data
    receive_one detail = do sent ← report detail; if sent.0 then pure tt else save_data sent.1

    unfoldable pub get_data : StoreExec b (Assoc Bytes Bytes)
    unfolding all_data_in_bucket
    get_data = do
      data_map ← all_data_in_bucket b save_bucket []
      if is_some (get_elem? data_map 0) then pure data_map else fail no_data

    -- behind a delivery
    unfoldable pub forget : Bytes → ReportExec Unit
    unfolding parse_int del_data
    forget tm_str = elim (parse_int tm_str) [
      | none ↦ pure tt
      | some tm ↦ do attempt (on_store (del_data b save_bucket tm)); pure tt
    ]

    -- the body of the loop of retryReport; `false` when it continues before it asks for the context
    unfoldable pub retry_one : Bytes → Bytes → ReportExec Bool
    unfolding report forget
    retry_one tm_str s = if length s == 2 then pure false else elim (web.unmarshal s) [
      | none ↦ pure false
      | some detail ↦ do
        sent ← report detail
        if sent.0 then (do forget tm_str; pure true) else pure true
    ]

    unfoldable pub retry_report : ℕ → Assoc Bytes Bytes → ReportExec Unit
    unfolding retry_one next_round
    retry_report asks [] = pure tt
    retry_report asks ((tm_str, s) ∷ data_map) = do
      asked ← retry_one tm_str s
      elim (next_round asked asks) [ none ↦ pure tt | some rest ↦ retry_report rest data_map ]

    -- one tick of retryPeriodically
    unfoldable pub retry_tick : ℕ → ReportExec Unit
    unfolding get_data retry_report
    retry_tick asks = do
      data_map ← attempt (on_store get_data)
      elim data_map [ ok m ↦ retry_report asks m | _ ↦ pure tt ]

-- what UploadData sends to the channel
abbrev pub upload_data : {Value : Type 0} → Bytes → Bool → Detail Value
upload_data data_json debug = record {
  path = codes "/v5/data";
  category = codes "bigData";
  query = some [];
  body = text data_json;
  debug = debug;
  is_zip = true;
}
