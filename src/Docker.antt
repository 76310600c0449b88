-- ===== src/Docker.antt =====
-- pkg/docker_operator: the containers that the daemon runs, by polling and by events. What the docker
-- daemon answers is a parameter; locks and logging are left out.
pub mod Events
pub mod Poll
use data_collection.Base.{
  ℕ, zero, suc, ◌+◌, ◌-◌, ◌*◌, ◌/◌, ◌%◌, ◌^◌, ◌≤◌, ◌<◌, ◌≡◌, refl, sym, ap, ◌∙◌, subst, ◌≢◌, ◌↔◌,
  ◌⊎◌, inl, inr, ite, if_pos, if_neg, Bool, true, false, not, ◌&&◌, ◌||◌, Option, none, some, List,
  [], ◌∷◌, ◌++◌, map, append-nil, append_assoc, arith, ℕ_discrete, ltb, leb, ltb→lt, leb→le, ◌==◌,
  if◌then◌else◌, Bool-cases, Option-cases, length, get_elem?, take, drop, keep, length-append,
  take-append, drop-append, length-keep-le, keep-append, keep-keep, All, ℤ, pos, negsuc, ℤ_discrete,
  pos_part, neg_part, ◌+ℤ◌, ◌-ℤ◌, ◌≤ℤ◌, ◌<ℤ◌, ltb_ℤ, leb_ℤ, eq_of_parts, Bytes, bytes_discrete,
  codes, Assoc, is_some, keys, same, same_self, contains, contains-keep, lookup, insert, delete,
  delete_all, Distinct, lookup-insert, lookup-insert_self, lookup-delete, lookup-delete_all,
  contains-keys, lookup-delete_kept, insert-Distinct, delete-Distinct, delete_all-Distinct, Outcome,
  ok, err, panic, Exec, pure, fail, crash, gets, attempt, continue, ◌>>=◌, ◌>>◌, modify,
}

-- What the daemon answers: the running containers, and for each what it is and what it uses. `none`
-- is an error.
pub record Daemon (Info Stats : Type 0) : Type 0 where
  pub containers : Option (List Bytes)
  pub inspect : Bytes → Option Info
  pub measure : Bytes → Option Stats

-- `connected` tells whether the client is not nil; both maps are made at the start.
pub record Storage (Info Stats : Type 0) : Type 0 where
  pub inspects : Assoc Bytes Info
  pub stats : Assoc Bytes Stats
  pub connected : Bool

-- what is kept for a key when a call returns a value or an error
abbrev pub replace_ok : {V : Type 0} → Bytes → Option V → Assoc Bytes V → Assoc Bytes V
replace_ok k none m = m
replace_ok k (some v) m = insert bytes_discrete k v m

module _ {Info Stats : Type 0} where
  -- the body of the loop in allContainersInfo
  unfoldable pub container_info :
      Daemon Info Stats → Bytes → Storage Info Stats → Storage Info Stats
  container_info d id s = record s {
    inspects = replace_ok id (d.inspect id) s.inspects;
    stats = replace_ok id (d.measure id) s.stats;
  }

  unfoldable pub each_container :
      Daemon Info Stats → List Bytes → Storage Info Stats → Storage Info Stats
  unfolding container_info
  each_container d [] s = s
  each_container d (id ∷ ids) s = each_container d ids (container_info d id s)

  -- and whether it returns an error
  unfoldable pub all_containers_info :
      Daemon Info Stats → Storage Info Stats → Storage Info Stats × Bool
  unfolding each_container
  all_containers_info d s = elim d.containers [
    | none ↦ (s, true)
    | some ids ↦ (each_container d ids s, false)
  ]

  -- the loop over j, `left` rounds before the last one: `daemon j` answers in round j
  unfoldable pub fetch : ℕ → (ℕ → Daemon Info Stats) → ℕ → Storage Info Stats → Storage Info Stats
  unfolding all_containers_info
  fetch zero daemon j s = (all_containers_info (daemon j) s).0
  fetch (suc left) daemon j s =
      let (s', failed) = all_containers_info (daemon j) s in
      let again = fetch left daemon (suc j) s' in if failed then again else s'

  -- the loop over i, `left` rounds: `connects i` tells whether a client is made in round i
  unfoldable pub connect :
      ℕ → (ℕ → Bool) → (ℕ → Daemon Info Stats) → ℕ → Storage Info Stats → Storage Info Stats
  unfolding fetch
  connect zero connects daemon i s = s
  connect (suc left) connects daemon i s =
      let again = connect left connects daemon (suc i) (record s { connected = false }) in
      if connects i then fetch 10 daemon 0 (record s { connected = true }) else again

  unfoldable pub create :
      (ℕ → Bool) → (ℕ → Daemon Info Stats) → Storage Info Stats → Storage Info Stats
  unfolding connect
  create connects daemon = connect 10 connects daemon 0
