-- ===== src/Agent.antt =====
-- agent/services/agent.go: which plugins are to be loaded and which to be deleted, and how their texts are
-- fetched. The server and MD5 are parameters; the channels stand in Agent/Loop.
pub mod Fetched
pub mod Loop
pub mod Requests
use data_collection.Base.{
  ℕ, zero, suc, ◌+◌, ◌-◌, ◌*◌, ◌/◌, ◌%◌, ◌^◌, ◌≤◌, ◌<◌, ◌≡◌, refl, sym, ap, ◌∙◌, subst, ◌≢◌, ◌↔◌,
  ◌⊎◌, inl, inr, ite, if_pos, if_neg, Bool, true, false, not, ◌&&◌, ◌||◌, Option, none, some, List,
  [], ◌∷◌, ◌++◌, map, append-nil, append_assoc, arith, ℕ_discrete, ltb, leb, ltb→lt, leb→le, ◌==◌,
  if◌then◌else◌, Bool-cases, Option-cases, length, get_elem?, take, drop, keep, length-append,
  take-append, drop-append, length-keep-le, keep-append, keep-keep, All, ℤ, pos, negsuc, ℤ_discrete,
  pos_part, neg_part, ◌+ℤ◌, ◌-ℤ◌, ◌≤ℤ◌, ◌<ℤ◌, ltb_ℤ, leb_ℤ, eq_of_parts, Bytes, bytes_discrete,
  codes, Assoc, is_some, keys, same, same_self, contains, contains-keep, lookup, insert, delete,
  delete_all, Distinct, lookup-insert, lookup-insert_self, lookup-delete, lookup-delete_all,
  contains-keys, lookup-delete_kept, insert-Distinct, delete-Distinct, delete_all-Distinct, Outcome,
  ok, err, panic, Exec, pure, fail, crash, gets, attempt, continue, ◌>>=◌, ◌>>◌, modify,
}
use data_collection.Util.{difference_slice}

-- what a request for a hash meets: whether the server is reached, the URL that GetHash returns and the
-- body behind a URL, none for an error, and GetMd5Hash
pub record Network : Type 0 where
  pub dial : Bytes → Bool
  pub get_hash : Bytes → Option Bytes
  pub download_url : Bytes → Option Bytes
  pub get_md5_hash : Bytes → Bytes

-- the variables of the package; `updates` and `deletions` are what has been sent to the manager
pub record Services : Type 0 where
  pub node_hashes : List Bytes
  pub receive_hashes : List Bytes
  pub delete_plugins : List Bytes
  pub add_plugins : List Bytes
  pub last_hashes : List Bytes
  pub hash_map : Assoc Bytes Bytes
  pub updates : List (Assoc Bytes Bytes)
  pub deletions : List (List Bytes)

abbrev pub is_empty : {A : Type 0} → List A → Bool
is_empty [] = true
is_empty (x ∷ l) = false

-- the case of receiveWatchChan: whether a download is asked for
unfoldable pub on_watch : Services → Services × Bool
unfolding difference_slice
on_watch a =
    if not (is_empty a.last_hashes)
    then (let (added, deleted) = difference_slice a.receive_hashes a.last_hashes in
        let a' = record a { add_plugins = added; delete_plugins = deleted } in
        if not (is_empty added) || not (is_empty deleted)
        then (record a' { last_hashes = a.receive_hashes }, true)
        else (a', false))
    else if not (is_empty a.receive_hashes)
    then (record a { add_plugins = a.receive_hashes; last_hashes = a.receive_hashes }, true)
    else (a, false)

-- the case of ListNodeHashesChan, with the hashes of the local plugins
unfoldable pub on_list : List Bytes → Services → Services × Bool
unfolding difference_slice
on_list local_hashes a =
    if not (is_empty local_hashes) && not (is_empty a.node_hashes)
    then (let (added, deleted) = difference_slice a.node_hashes local_hashes in
        let a' = record a { add_plugins = added; delete_plugins = deleted } in
        (a', not (is_empty added) || not (is_empty deleted)))
    else if not (is_empty a.node_hashes)
    then (record a { add_plugins = a.node_hashes }, true)
    else (a, false)

-- one round of the loop of GetUrl behind the connection
unfoldable pub fetch_hash : Network → Bytes → Assoc Bytes Bytes → Assoc Bytes Bytes
fetch_hash n hash m = elim (n.get_hash hash) [
  | none ↦ m
  | some url ↦ elim (n.download_url url) [
    | none ↦ m
    | some body ↦
        if same bytes_discrete hash (n.get_md5_hash body)
        then insert bytes_discrete hash body m
        else m
  ]
]

-- the loop; where no connection is made, GetHash writes to nil, which is a panic
unfoldable pub fetch_hashes : Network → List Bytes → Assoc Bytes Bytes → Option (Assoc Bytes Bytes)
unfolding fetch_hash
fetch_hashes n [] m = some m
fetch_hashes n (hash ∷ hashes) m =
    let rest = fetch_hashes n hashes (fetch_hash n hash m) in if n.dial hash then rest else none

-- GetUrl: without hashes the map of the last time is sent again
unfoldable pub get_url : Network → List Bytes → Services → Option Services
unfolding fetch_hashes
get_url n hashes a = elim (fetch_hashes n hashes (if is_empty hashes then a.hash_map else [])) [
  | none ↦ none
  | some m ↦ some (record a {
    hash_map = m;
    updates = a.updates ++ m ∷ [];
    deletions =
        if is_empty a.delete_plugins then a.deletions else a.deletions ++ a.delete_plugins ∷ [];
  })
]
