-- ===== src/Agent/Loop.antt =====
-- agent/services/agent.go: ListWatchHashes and ParseWatchPlugin as two loops over the channels between
-- them. What they share is set in one step with the case that sets it; the manager has room for what
-- GetUrl sends.
pub mod Settled
pub mod Stalled
use data_collection.Base.{
  ℕ, zero, suc, ◌+◌, ◌-◌, ◌*◌, ◌/◌, ◌%◌, ◌^◌, ◌≤◌, ◌<◌, ◌≡◌, refl, sym, ap, ◌∙◌, subst, ◌≢◌, ◌↔◌,
  ◌⊎◌, inl, inr, ite, if_pos, if_neg, Bool, true, false, not, ◌&&◌, ◌||◌, Option, none, some, List,
  [], ◌∷◌, ◌++◌, map, append-nil, append_assoc, arith, ℕ_discrete, ltb, leb, ltb→lt, leb→le, ◌==◌,
  if◌then◌else◌, Bool-cases, Option-cases, length, get_elem?, take, drop, keep, length-append,
  take-append, drop-append, length-keep-le, keep-append, keep-keep, All, ℤ, pos, negsuc, ℤ_discrete,
  pos_part, neg_part, ◌+ℤ◌, ◌-ℤ◌, ◌≤ℤ◌, ◌<ℤ◌, ltb_ℤ, leb_ℤ, eq_of_parts, Bytes, bytes_discrete,
  codes, Assoc, is_some, keys, same, same_self, contains, contains-keep, lookup, insert, delete,
  delete_all, Distinct, lookup-insert, lookup-insert_self, lookup-delete, lookup-delete_all,
  contains-keys, lookup-delete_kept, insert-Distinct, delete-Distinct, delete_all-Distinct, Outcome,
  ok, err, panic, Exec, pure, fail, crash, gets, attempt, continue, ◌>>=◌, ◌>>◌, modify, IfSome,
  IfSome-elim,
}
use data_collection.Util.{remove_key_from_slice}
use data_collection.Agent.{Network, Services, is_empty, on_watch, on_list, get_url}

-- `watch` and `download` count the messages in receiveWatchChan and pluginDownloadChan, which have room
-- for one; `sending` tells that ListWatchHashes stands before its send, and `stalled` that
-- ParseWatchPlugin does.
pub record Loop : Type 0 where
  pub services : Services
  pub watch : ℕ
  pub download : ℕ
  pub sending : Bool
  pub stalled : Bool

-- pluginDownloadChan <- true
unfoldable pub ask_download : Bool → Loop → Loop
ask_download false l = l
ask_download true l =
    if l.download == 0 then record l { download = 1 } else record l { stalled = true }

-- behind ReadJsonObject in ListWatchHashes, up to the send
unfoldable pub receive_hashes : List Bytes → Loop → Loop
unfolding remove_key_from_slice
receive_hashes res_hashes l =
    let hashes = remove_key_from_slice res_hashes in
    if is_empty hashes
    then l
    else record l { services = record l.services { receive_hashes = hashes }; sending = true }

-- the cases of ParseWatchPlugin
unfoldable pub take_watch : ℕ → Loop → Loop
unfolding ask_download on_watch
take_watch left l =
    let (a, download) = on_watch l.services in
    ask_download download (record l { services = a; watch = left })

unfoldable pub take_list : List Bytes → List Bytes → Loop → Loop
unfolding ask_download on_list
take_list node_hashes local_hashes l =
    let (a, download) = on_list local_hashes (record l.services { node_hashes = node_hashes }) in
    ask_download download (record l { services = a })

-- none for a panic
unfoldable pub take_download : Network → ℕ → Loop → Option Loop
unfolding get_url
take_download n left l = elim (get_url n l.services.add_plugins l.services) [
  | none ↦ none
  | some a ↦ some (record l { services = a; download = left })
]

module _ (n : Network) where
  pub data Step : Loop → Loop → Type 0 where
    received :
        (l : Loop) (res_hashes : List Bytes)
        → l.sending ≡ false
        → Step l (receive_hashes res_hashes l)
    sent :
        (l : Loop)
        → l.sending ≡ true
        → l.watch ≡ 0
        → Step l (record l { sending = false; watch = 1 })
    watched :
        (l : Loop) (left : ℕ) → l.stalled ≡ false → l.watch ≡ suc left → Step l (take_watch left l)
    listed :
        (l : Loop) (node_hashes local_hashes : List Bytes)
        → l.stalled ≡ false
        → Step l (take_list node_hashes local_hashes l)
    downloaded :
        (l l' : Loop) (left : ℕ)
        → l.stalled ≡ false
        → l.download ≡ suc left
        → take_download n left l ≡ some l'
        → Step l l'

  pub data Reach (l : Loop) : Loop → Type 0 where
    here : Reach l l
    then_step : {l1 l2 : Loop} → Reach l l1 → Step l1 l2 → Reach l l2
