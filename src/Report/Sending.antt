-- ===== src/Report/Sending.antt =====
-- report/http_request.go: how a detail is sent, and how the answer is judged.
use data_collection.Base.{
  ℕ, Bool, true, false, ◌||◌, Option, none, some, List, [], ◌∷◌, ◌++◌, ltb, leb, ◌==◌,
  if◌then◌else◌, take, ℤ, Bytes, bytes_discrete, codes, Assoc, same, insert, Outcome, ok, err,
  panic,
}
use data_collection.Storage.Keys.{format_int}

-- a body: a string, or any other value
pub data Body (Value : Type 0) : Type 0 where
  text : Bytes → Body Value
  value : Value → Body Value

-- reportDetail; the query may be a nil map
pub record Detail (Value : Type 0) : Type 0 where
  pub path : Bytes
  pub category : Bytes
  pub query : Option (Assoc Bytes Bytes)
  pub body : Body Value
  pub debug : Bool
  pub is_zip : Bool

-- what is given to client.Do
pub record Request : Type 0 where
  pub url : Bytes
  pub headers : List (Bytes × Bytes)
  pub content : Bytes

-- The libraries, and the world `W` with its clock and its servers; none is an error.
pub record Web (Value W : Type 0) : Type 0 where
  pub marshal_value : Value → Option Bytes
  pub marshal : Detail Value → Option Bytes
  pub unmarshal : Bytes → Option (Detail Value)
  pub gzip : Bytes → Option Bytes
  pub md5_hex : Bytes → Bytes
  pub machine_id : Bytes
  pub token : Bool → Bytes
  -- url.ParseRequestURI, Values.Encode and String
  pub set_query : Assoc Bytes Bytes → Bytes → Option Bytes
  -- http.NewRequest and client.Do: the status of the answer
  pub post : Request → W → Option ℕ × W
  pub now : W → ℤ

-- parseHttpReason is for the log; 400 and 409 count as delivered
unfoldable pub status_error : ℕ → Bool
status_error status =
    if status == 400 || status == 409 then false else leb status 200 || ltb 300 status

unfoldable pub joint_url : Bytes → Bytes → Bool → Bytes
joint_url path category debug =
    if same bytes_discrete category (codes "bigData")
    then (if debug
        then codes "http://datachannel.test.painet.work"
        else codes "https://datachannel.painet.work")
      ++ path
    else (if debug
        then codes "http://api.test.paigod.work"
        else codes "https://internal.api.paigod.work")
      ++ path

module _ {Value W : Type 0} (web : Web Value W) where
  unfoldable pub url_sign : Bytes → ℤ → Bytes → Bytes
  unfolding format_int take
  url_sign machine_id timestamp content =
      web.md5_hex (machine_id ++ format_int timestamp ++ take 16 content)

  unfoldable pub config_query : Bytes → Bytes → Option (Assoc Bytes Bytes) → Bool → Option Bytes
  unfolding joint_url
  config_query path category none debug = web.set_query [] (joint_url path category debug)
  config_query path category (some query) debug =
      web.set_query query (joint_url path category debug)

  unfoldable pub config_header : Bool → Bool → List (Bytes × Bytes)
  config_header debug is_zip =
      (codes "Content-Type", codes "application/json")
        ∷ (if is_zip then (codes "Content-Encoding", codes "gzip") ∷ [] else [])
      ++ (codes "Authorization", web.token debug) ∷ []

  unfoldable pub encoding_body : Body Value → Option Bytes
  encoding_body (text s) = some s
  encoding_body (value v) = web.marshal_value v

  unfoldable pub zip_body : Bytes → Bool → Option Bytes
  zip_body content is_zip = if is_zip then web.gzip content else some content

  -- the query is a map that the caller shares, so its new entries stay in the detail; none is the panic of
  -- writing to a nil map
  unfoldable pub sign : ℤ → Bytes → Detail Value → Option (Detail Value)
  unfolding url_sign insert
  sign timestamp content detail =
      if same bytes_discrete detail.category (codes "bigData")
      then elim detail.query [
        | none ↦ none
        | some query ↦ some (record detail {
          query = some (
              insert bytes_discrete (codes "sign") (url_sign web.machine_id timestamp content) (
                insert bytes_discrete (codes "t") (format_int timestamp)
                  (insert bytes_discrete (codes "machine_id") web.machine_id query)));
        })
      ]
      else some detail

  -- `true` for an error
  unfoldable pub judged : Option ℕ → Bool
  unfolding status_error
  judged none = true
  judged (some status) = status_error status

  unfoldable pub http_request : Bytes → Bytes → Detail Value → W → Option ℕ × W
  unfolding config_header
  http_request full_url content detail w =
      web.post
        (record {
          url = full_url;
          headers = config_header detail.debug detail.is_zip;
          content = content;
        })
        w

  -- from the signature on
  unfoldable pub deliver : Bytes → Detail Value → W → Bool × W
  unfolding config_query http_request judged
  deliver content detail w =
      elim (config_query detail.path detail.category detail.query detail.debug) [
        | none ↦ (true, w)
        | some full_url ↦
            let (status, w') = http_request full_url content detail w in (judged status, w')
      ]

  abbrev pub answered : {A : Type 0} → A → Bool × W → Outcome (Unit {0}) (Unit {0}) × A × W
  answered detail (true, w) = (err tt, detail, w)
  answered detail (false, w) = (ok tt, detail, w)

  unfoldable pub report_signed :
      Bytes → Detail Value → W → Outcome (Unit {0}) (Unit {0}) × Detail Value × W
  unfolding sign deliver
  report_signed content detail w = elim (sign (web.now w) content detail) [
    | none ↦ (panic, detail, w)
    | some signed ↦ answered signed (deliver content signed w)
  ]

  -- the outcome, and the detail with the query that is left
  unfoldable pub report_data : Detail Value → W → Outcome (Unit {0}) (Unit {0}) × Detail Value × W
  unfolding encoding_body zip_body report_signed
  report_data detail w = elim (encoding_body detail.body) [
    | none ↦ (err tt, detail, w)
    | some bytes_body ↦ elim (zip_body bytes_body detail.is_zip) [
      | none ↦ (err tt, detail, w)
      | some content ↦ report_signed content detail w
    ]
  ]
