-- ===== src/Docker/Events.antt =====
-- pkg/docker_operator/events_handler.go: container events, kept for a while and then applied.
pub mod Phase
pub mod Update
pub mod Queue
pub mod Batched
use data_collection.Base.{
  ℕ, zero, suc, ◌+◌, ◌-◌, ◌*◌, ◌/◌, ◌%◌, ◌^◌, ◌≤◌, ◌<◌, ◌≡◌, refl, sym, ap, ◌∙◌, subst, ◌≢◌, ◌↔◌,
  ◌⊎◌, inl, inr, ite, if_pos, if_neg, Bool, true, false, not, ◌&&◌, ◌||◌, Option, none, some, List,
  [], ◌∷◌, ◌++◌, map, append-nil, append_assoc, arith, ℕ_discrete, ltb, leb, ltb→lt, leb→le, ◌==◌,
  if◌then◌else◌, Bool-cases, Option-cases, length, get_elem?, take, drop, keep, length-append,
  take-append, drop-append, length-keep-le, keep-append, keep-keep, All, ℤ, pos, negsuc, ℤ_discrete,
  pos_part, neg_part, ◌+ℤ◌, ◌-ℤ◌, ◌≤ℤ◌, ◌<ℤ◌, ltb_ℤ, leb_ℤ, eq_of_parts, Bytes, bytes_discrete,
  codes, Assoc, is_some, keys, same, same_self, contains, contains-keep, lookup, insert, delete,
  delete_all, Distinct, lookup-insert, lookup-insert_self, lookup-delete, lookup-delete_all,
  contains-keys, lookup-delete_kept, insert-Distinct, delete-Distinct, delete_all-Distinct, Outcome,
  ok, err, panic, Exec, pure, fail, crash, gets, attempt, continue, ◌>>=◌, ◌>>◌, modify,
}
use data_collection.Docker.{Storage, replace_ok}

-- the string of an event: the five that count, and all others
pub data Status : Type 0 where
  die stop pause unpause start : Status
  other : Bytes → Status

-- events.Message
pub record Message : Type 0 where
  pub id : Bytes
  pub status : Status
  pub time_nano : ℤ

pub record EventsStorage (Info Stats : Type 0) : Type 0 where
  pub base : Storage Info Stats
  pub pausing : Assoc Bytes Info
  pub cache : Assoc Bytes (List Message)
  pub msg_channel : List Message

abbrev pub counts : Status → Bool
counts (other s) = false
counts _ = true

abbrev pub messages : Option (List Message) → List Message
messages none = []
messages (some l) = l

-- `if _, in := m[k]; !in { m[k] = v }`
abbrev pub insert_new : {V : Type 0} → Bytes → V → Assoc Bytes V → Assoc Bytes V
insert_new k v m = if is_some (lookup bytes_discrete k m) then m else insert bytes_discrete k v m

-- the inner loop of update, from the greatest time so far and its status
unfoldable pub last_status : List Message → ℤ → Status → Status
last_status [] max_time last = last
last_status (msg ∷ msgs) max_time last =
    let newer = last_status msgs msg.time_nano msg.status in
    let older = last_status msgs max_time last in
    if ltb_ℤ max_time msg.time_nano then newer else older

module _ {Info Stats : Type 0} where
  unfoldable pub filter : Message → EventsStorage Info Stats → EventsStorage Info Stats
  filter msg es =
      let old = messages (lookup bytes_discrete msg.id es.cache) in
      if counts msg.status
      then record es { cache = insert bytes_discrete msg.id (old ++ msg ∷ []) es.cache }
      else es

  abbrev pub with_maps :
      Assoc Bytes Info → Assoc Bytes Info → EventsStorage Info Stats → EventsStorage Info Stats
  with_maps inspects pausing es = record es {
    base = record es.base { inspects = inspects };
    pausing = pausing;
  }

  -- `inspect` is what the daemon answers about the container
  unfoldable pub update_status :
      (Bytes → Option Info) → Bytes → Status → EventsStorage Info Stats → EventsStorage Info Stats
  update_status inspect id die es =
      with_maps (delete bytes_discrete id es.base.inspects) (delete bytes_discrete id es.pausing) es
  update_status inspect id stop es =
      with_maps (delete bytes_discrete id es.base.inspects) (delete bytes_discrete id es.pausing) es
  update_status inspect id pause es = elim (lookup bytes_discrete id es.base.inspects) [
    | none ↦ es
    | some info ↦
        with_maps (delete bytes_discrete id es.base.inspects) (insert_new id info es.pausing) es
  ]
  update_status inspect id unpause es = elim (lookup bytes_discrete id es.pausing) [
    | none ↦ es
    | some info ↦
        with_maps (replace_ok id (inspect id) (insert_new id info es.base.inspects))
          (delete bytes_discrete id es.pausing) es
  ]
  update_status inspect id start es =
      with_maps (replace_ok id (inspect id) es.base.inspects) (delete bytes_discrete id es.pausing)
        es
  update_status inspect id (other s) es = es

  unfoldable pub update_each :
      (Bytes → Option Info)
      → Assoc Bytes (List Message)
      → EventsStorage Info Stats
      → EventsStorage Info Stats
  unfolding update_status last_status
  update_each inspect [] es = es
  update_each inspect ((id, msgs) ∷ cache) es =
      update_each inspect cache (update_status inspect id (last_status msgs (pos 0) (other [])) es)

  unfoldable pub update :
      (Bytes → Option Info) → EventsStorage Info Stats → EventsStorage Info Stats
  unfolding update_each
  update inspect es = record (update_each inspect es.cache es) { cache = [] }

  -- one round of receiveEvents: a full channel drops the message
  unfoldable pub receive : Message → EventsStorage Info Stats → EventsStorage Info Stats
  receive msg es =
      if ltb (length es.msg_channel) 10
      then record es { msg_channel = es.msg_channel ++ msg ∷ [] }
      else es

  -- the case of eventsDispatcher that has taken `msg` from the channel
  unfoldable pub dispatch :
      Message → List Message → EventsStorage Info Stats → EventsStorage Info Stats
  unfolding filter
  dispatch msg rest es = filter msg (record es { msg_channel = rest })

abbrev pub new_events_storage : {Info Stats : Type 0} → EventsStorage Info Stats
new_events_storage = record {
  base = record { inspects = []; stats = []; connected = false };
  pausing = [];
  cache = [];
  msg_channel = [];
}
