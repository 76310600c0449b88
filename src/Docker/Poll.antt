-- ===== src/Docker/Poll.antt =====
-- What one round of polling leaves in the maps, and how the first round is retried.
use data_collection.Base.{
  ℕ, zero, suc, ◌+◌, ◌≤◌, ◌<◌, ◌≡◌, refl, ap, ◌∙◌, inl, inr, ite, Bool, true, false, Option, none,
  some, List, [], ◌∷◌, arith, if◌then◌else◌, Option-cases, Bytes, bytes_discrete, Assoc, contains,
  lookup, lookup-insert,
}
use native.Mathlib.Decide.{dec_lt}
use data_collection.Docker.{
  Daemon, Storage, replace_ok, container_info, each_container, all_containers_info, fetch, connect,
  create,
}

abbrev pub or_else : {V : Type 0} → Option V → Option V → Option V
or_else none o = o
or_else (some v) o = some v

lookup-replace_ok :
    {V : Type 0} (id k : Bytes) (o : Option V) (m : Assoc Bytes V)
    → lookup bytes_discrete k (replace_ok id o m)
      ≡ ite
          (bytes_discrete id k)
          (or_else o (lookup bytes_discrete k m))
          (lookup bytes_discrete k m)
lookup-replace_ok id k none m = ground arith
lookup-replace_ok id k (some v) m = ground (arith, lookup-insert bytes_discrete id k v m)

module _ {Info Stats : Type 0} (d : Daemon Info Stats) (k : Bytes) where
  each_container_lem :
      (ids : List Bytes) (s : Storage Info Stats)
      → (lookup bytes_discrete k (each_container d ids s).inspects ≡ (
          if contains bytes_discrete k ids
          then or_else (d.inspect k) (lookup bytes_discrete k s.inspects)
          else lookup bytes_discrete k s.inspects))
        × (lookup bytes_discrete k (each_container d ids s).stats ≡ (
            if contains bytes_discrete k ids
            then or_else (d.measure k) (lookup bytes_discrete k s.stats)
            else lookup bytes_discrete k s.stats))
  unfolding each_container contains container_info
  each_container_lem [] s = (refl, refl)
  each_container_lem (id ∷ ids) s =
      let (i, t) = each_container_lem ids (container_info d id s) in
      (
        i ∙ ground (arith, lookup-replace_ok id k (d.inspect id) s.inspects),
        t ∙ ground (arith, lookup-replace_ok id k (d.measure id) s.stats),
      )

  -- A round of polling that gets a list stores what the daemon answers for each listed container, where
  -- an error keeps what was known; the entries of all other containers stay, also of those that have
  -- stopped. A round that gets no list changes nothing.
  pub all_containers_info_lem :
      (s : Storage Info Stats)
      → (lookup bytes_discrete k (all_containers_info d s).0.inspects ≡ (elim d.containers [
        | none ↦ lookup bytes_discrete k s.inspects
        | some ids ↦
            if contains bytes_discrete k ids
            then or_else (d.inspect k) (lookup bytes_discrete k s.inspects)
            else lookup bytes_discrete k s.inspects
      ]))
        × (lookup bytes_discrete k (all_containers_info d s).0.stats ≡ (elim d.containers [
          | none ↦ lookup bytes_discrete k s.stats
          | some ids ↦
              if contains bytes_discrete k ids
              then or_else (d.measure k) (lookup bytes_discrete k s.stats)
              else lookup bytes_discrete k s.stats
        ]))
  unfolding all_containers_info
  all_containers_info_lem s = elim (Option-cases d.containers) [
    | inl e ↦ rw e (refl, refl)
    | inr (ids, e) ↦ rw e (each_container_lem ids s)
  ]

answered :
    {Info Stats : Type 0} (d : Daemon Info Stats) (ids : List Bytes) (s : Storage Info Stats)
    → d.containers ≡ some ids
    → all_containers_info d s ≡ (each_container d ids s, false)
unfolding all_containers_info
answered {Info} {Stats} d ids s e =
    ap
      (λ (o : Option (List Bytes)). elim o as (λ _. Storage Info Stats × Bool) [
        | none ↦ (s, true)
        | some l ↦ (each_container d l s, false)
      ])
      e

module _ {Info Stats : Type 0} (daemon : ℕ → Daemon Info Stats) (ids : List Bytes) where
  fetch_now :
      (left j : ℕ) (s : Storage Info Stats)
      → (daemon j).containers ≡ some ids
      → fetch left daemon j s ≡ each_container (daemon j) ids s
  unfolding fetch
  fetch_now zero j s e = ap (λ (r : Storage Info Stats × Bool). r.0) (answered (daemon j) ids s e)
  fetch_now (suc left) j s e = rw (answered (daemon j) ids s e, fetch)

  fetch_first :
      (left j end : ℕ) (s : Storage Info Stats)
      → j ≤ end
      → end ≤ j + left
      → ((i : ℕ) → j ≤ i → i < end → (daemon i).containers ≡ none)
      → (daemon end).containers ≡ some ids
      → fetch left daemon j s ≡ each_container (daemon end) ids s
  unfolding fetch all_containers_info
  fetch_first zero j end s h1 h2 quiet answer =
      let e : j ≡ end = omega arith in rw e (fetch_now zero end s answer)
  fetch_first (suc left) j end s h1 h2 quiet answer = elim (dec_lt j end) [
    | yes l ↦ rw (quiet j (omega arith) l) (
        fetch_first left (suc j) end s (omega arith) (omega arith)
          (λ i a b. quiet i (omega arith) b) answer)
    | no l ↦ let e : j ≡ end = omega arith in rw e (fetch_now (suc left) end s answer)
  ]

  connect_first :
      (connects : ℕ → Bool) (left i end : ℕ) (s : Storage Info Stats)
      → i ≤ end
      → end < i + left
      → ((k : ℕ) → i ≤ k → k < end → connects k ≡ false)
      → connects end ≡ true
      → connect left connects daemon i s ≡ fetch 10 daemon 0 (record s { connected = true })
  unfolding connect
  connect_first connects zero i end s h1 h2 quiet made = absurd (omega arith)
  connect_first connects (suc left) i end s h1 h2 quiet made = elim (dec_lt i end) [
    | yes l ↦ rw (quiet i (omega arith) l) (
        connect_first connects left (suc i) end (record s { connected = false }) (omega arith)
          (omega arith) (λ k a b. quiet k (omega arith) b) made)
    | no l ↦ let e : i ≡ end = omega arith in rw (ap connects e ∙ made)
  ]

  -- If a client is made in one of the ten rounds and then one of the eleven requests for the containers
  -- is answered, create stores the first answer.
  pub create_first_answer :
      (connects : ℕ → Bool) (n m : ℕ) (s : Storage Info Stats)
      → n < 10
      → ((i : ℕ) → i < n → connects i ≡ false)
      → connects n ≡ true
      → m ≤ 10
      → ((j : ℕ) → j < m → (daemon j).containers ≡ none)
      → (daemon m).containers ≡ some ids
      → create connects daemon s ≡ each_container (daemon m) ids (record s { connected = true })
  unfolding create
  create_first_answer connects n m s h1 unmade made h2 quiet answer =
      connect_first connects 10 0 n s (omega arith) (omega arith) (λ i a b. unmade i b) made
      ∙ fetch_first 10 0 m (record s { connected = true }) (omega arith) (omega arith)
          (λ j a b. quiet j b) answer
