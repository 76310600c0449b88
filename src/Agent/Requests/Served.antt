-- ===== src/Agent/Requests/Served.antt =====
-- A request for the URL of a hash, from both ends of the connection.
use data_collection.Base.{
  ℕ, ◌^◌, ◌<◌, ◌≡◌, refl, sym, ap, ◌∙◌, Bool, true, false, some, [], ◌++◌, append-nil, arith,
  if◌then◌else◌, length, Bytes, codes, Outcome, ok, pure, ◌>>=◌,
}
use data_collection.Rw.Endian.{RwError, be_bytes}
use data_collection.Rw.Frame.{Reader, nil_mark}
use data_collection.Rw.Messages.{buffer, Json, write_uint32_and_object}
use data_collection.Rw.RoundTrip.{frame}
use data_collection.Rw.Objects.{
  read_message, write_uint32_and_object-eq-message, read_json_object-frame,
  read_message-write_uint32_and_object,
}
use data_collection.Agent.{is_empty}
use data_collection.Agent.Requests.{
  AgentLoginReq, GetHashReq, GetHashRes, Protocol, role_agent, msg_get_hash, log_in, get_hash,
}

-- JSON gives the object back by the text `j`, which fits into a frame
pub record Carries {O : Type 0} (json : Json O) (o : O) (j : Bytes) : Type 0 where
  pub written : json.marshal o ≡ some j
  pub read : json.unmarshal j ≡ some o
  pub short : length j < nil_mark

-- the bytes of a message
abbrev message_of : ℕ → Bytes → Bytes
message_of v j = be_bytes 4 v ++ frame (some j)

write_lem :
    {O : Type 0} (json : Json O) (v : ℕ) (o : O) (j s : Bytes)
    → json.marshal o ≡ some j
    → write_uint32_and_object buffer json v o s ≡ (ok tt, s ++ message_of v j)
write_lem json v o j s e = rw (write_uint32_and_object-eq-message json buffer v o, e) refl

read_lem :
    {O : Type 0} (json : Json O) (v : ℕ) (o : O) (j rest : Bytes)
    → v < 2 ^ 32
    → Carries json o j
    → read_message json (message_of v j ++ rest) ≡ (ok (v, o), rest)
read_lem json v o j rest small c =
    ap (λ (r : Outcome RwError Unit × Bytes). read_message json (r.1 ++ rest))
      (sym (write_lem json v o j [] c.written))
    ∙ read_message-write_uint32_and_object json v o j rest small c.written c.read c.short

read_last :
    {O : Type 0} (json : Json O) (v : ℕ) (o : O) (j : Bytes)
    → v < 2 ^ 32
    → Carries json o j
    → read_message json (message_of v j) ≡ (ok (v, o), [])
read_last json v o j small c =
    ap (read_message json) (sym (append-nil (message_of v j))) ∙ read_lem json v o j [] small c

answer_lem :
    (b : Bool) (url out rest : Bytes)
    → (if b then pure {S = Bytes × Bytes} {E = RwError} url else pure []) (out, rest)
      ≡ (ok (if b then url else []), (out, rest))
answer_lem true url out rest = refl
answer_lem false url out rest = refl

-- the server's side: the login, then the request
abbrev pub read_request : Protocol → Reader ((ℕ × AgentLoginReq) × (ℕ × GetHashReq))
read_request p = do login ← read_message p.login; req ← read_message p.hash_req; pure (login, req)

abbrev pub login_of : Bytes → AgentLoginReq
login_of node_id = record { node_id = node_id; token = codes "admin" }

-- GetHash sends a login and a request that the server reads as they are, and it returns the server's
-- URL, or an empty one where the server reports an error; it takes no more than the answer from the
-- connection. Conditions: JSON carries the login, the request and the answer in texts that fit into a frame.
pub get_hash_served :
    (p : Protocol) (node_id hash : Bytes) (res : GetHashRes) (j1 j2 j3 rest : Bytes)
    → Carries p.login (login_of node_id) j1
    → Carries p.hash_req (record { hash = hash }) j2
    → p.hash_res.unmarshal j3 ≡ some res
    → length j3 < nil_mark
    → (out : Bytes) × (get_hash buffer p node_id hash ([], frame (some j3) ++ rest)
        ≡ (ok (if is_empty res.error then res.url else []), (out, rest)))
      × (read_request p out
          ≡ (ok ((role_agent, login_of node_id), (msg_get_hash, record { hash = hash })), []))
unfolding get_hash log_in
get_hash_served p node_id hash res j1 j2 j3 rest c1 c2 u3 s3 =
    let m1 = message_of role_agent j1 in
    let m2 = message_of msg_get_hash j2 in
    (
      m1 ++ m2,
      rw (write_lem p.login role_agent (login_of node_id) j1 [] c1.written) (
          rw (write_lem p.hash_req msg_get_hash (record { hash = hash }) j2 m1 c2.written) (
            rw (read_json_object-frame p.hash_res res j3 rest u3 s3)
              (answer_lem (is_empty res.error) res.url (m1 ++ m2) rest))),
      rw (read_lem p.login role_agent (login_of node_id) j1 m2 (omega arith) c1) (
          rw (read_last p.hash_req msg_get_hash (record { hash = hash }) j2 (omega arith) c2) refl),
    )
