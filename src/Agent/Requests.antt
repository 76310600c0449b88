-- ===== src/Agent/Requests.antt =====
-- agent/services/agent.go and agent/protocol/protocol.go: what the agent asks the server for, over the
-- wire format. A connection is a writer and the bytes that are still to come; JSON is a parameter.
pub mod Served
use data_collection.Base.{
  ℕ, zero, suc, ◌+◌, ◌-◌, ◌*◌, ◌/◌, ◌%◌, ◌^◌, ◌≤◌, ◌<◌, ◌≡◌, refl, sym, ap, ◌∙◌, subst, ◌≢◌, ◌↔◌,
  ◌⊎◌, inl, inr, ite, if_pos, if_neg, Bool, true, false, not, ◌&&◌, ◌||◌, Option, none, some, List,
  [], ◌∷◌, ◌++◌, map, append-nil, append_assoc, arith, ℕ_discrete, ltb, leb, ltb→lt, leb→le, ◌==◌,
  if◌then◌else◌, Bool-cases, Option-cases, length, get_elem?, take, drop, keep, length-append,
  take-append, drop-append, length-keep-le, keep-append, keep-keep, All, ℤ, pos, negsuc, ℤ_discrete,
  pos_part, neg_part, ◌+ℤ◌, ◌-ℤ◌, ◌≤ℤ◌, ◌<ℤ◌, ltb_ℤ, leb_ℤ, eq_of_parts, Bytes, bytes_discrete,
  codes, Assoc, is_some, keys, same, same_self, contains, contains-keep, lookup, insert, delete,
  delete_all, Distinct, lookup-insert, lookup-insert_self, lookup-delete, lookup-delete_all,
  contains-keys, lookup-delete_kept, insert-Distinct, delete-Distinct, delete_all-Distinct, Outcome,
  ok, err, panic, Exec, pure, fail, crash, gets, attempt, continue, ◌>>=◌, ◌>>◌, modify, IfSome,
  IfSome-elim,
}
use data_collection.Util.{remove_key_from_slice}
use data_collection.Rw.Endian.{RwError}
use data_collection.Rw.Frame.{Reader}
use data_collection.Rw.Messages.{Writer, Writes, Json, write_uint32_and_object, read_json_object}
use data_collection.Agent.{is_empty}

pub record AgentLoginReq : Type 0 where
  pub node_id : Bytes
  pub token : Bytes

pub record ListNodeHashesReq : Type 0 where
  pub node_id : Bytes

pub record ListNodeHashesRes : Type 0 where
  pub error : Bytes
  pub hashes : List Bytes

pub record ListWatchHashesRes : Type 0 where
  pub hashes : List Bytes
  pub error : Bytes

pub record GetHashReq : Type 0 where
  pub hash : Bytes

pub record GetHashRes : Type 0 where
  pub url : Bytes
  pub error : Bytes

abbrev pub role_agent : ℕ
role_agent = 0

abbrev pub msg_list_node_hashes : ℕ
msg_list_node_hashes = 2000

abbrev pub msg_listwatch_hashes : ℕ
msg_listwatch_hashes = 3000

abbrev pub msg_get_hash : ℕ
msg_get_hash = 1300

-- encoding/json at the types of the messages; ListWatchHashesReq has no field
pub record Protocol : Type 0 where
  pub login : Json AgentLoginReq
  pub node_req : Json ListNodeHashesReq
  pub node_res : Json ListNodeHashesRes
  pub watch_req : Json Unit
  pub watch_res : Json ListWatchHashesRes
  pub hash_req : Json GetHashReq
  pub hash_res : Json GetHashRes

module _ (w : Writer) (p : Protocol) where
  abbrev pub ConnExec : Type 0 → Type 0
  ConnExec A = Exec (w.State × Bytes) RwError A

  abbrev pub writing : Writes w → ConnExec Unit
  writing m (s, input) = let (r, s') = m s in (r, (s', input))

  abbrev pub reading : {A : Type 0} → Reader A → ConnExec A
  reading m (s, input) = let (r, input') = m input in (r, (s, input'))

  -- the first message of each function
  unfoldable pub log_in : Bytes → ConnExec Unit
  log_in node_id = writing (
      write_uint32_and_object w p.login role_agent
        (record { node_id = node_id; token = codes "admin" }))

  -- An error that the server reports ends as an empty URL, since err is nil there.
  unfoldable pub get_hash : Bytes → Bytes → ConnExec Bytes
  get_hash node_id hash = do
    log_in node_id
    writing (write_uint32_and_object w p.hash_req msg_get_hash (record { hash = hash }))
    res2 ← reading (read_json_object p.hash_res)
    if is_empty res2.error then pure res2.url else pure []

  -- the hashes that become nodeHashes, before the send to ListNodeHashesChan
  unfoldable pub list_node_hashes : Bytes → ConnExec (Option (List Bytes))
  list_node_hashes node_id = do
    log_in node_id
    writing
        (write_uint32_and_object w p.node_req msg_list_node_hashes (record { node_id = node_id }))
    res2 ← reading (read_json_object p.node_res)
    if is_empty res2.error && not (is_empty res2.hashes) then pure (some res2.hashes) else pure none

  -- a round of the loop of ListWatchHashes
  unfoldable pub watch_hashes : ConnExec (List Bytes)
  unfolding read_json_object remove_key_from_slice
  watch_hashes = do
    res2 ← reading (read_json_object p.watch_res)
    pure (remove_key_from_slice res2.hashes)
