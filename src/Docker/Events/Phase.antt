-- ===== src/Docker/Events/Phase.antt =====
-- The events as a state machine of each container: it is gone, running or paused.
use data_collection.Base.{
  ◌≡◌, inl, inr, ite, false, ◌&&◌, Option, none, some, arith, if◌then◌else◌, Option-cases, Bytes,
  bytes_discrete, Assoc, is_some, lookup, lookup-insert, lookup-delete,
}
use data_collection.Docker.{replace_ok}
use data_collection.Docker.Events.{
  Status, die, stop, pause, unpause, start, other, EventsStorage, insert_new, update_status,
}

pub data Phase (Info : Type 0) : Type 0 where
  gone : Phase Info
  running : Info → Phase Info
  paused : Info → Phase Info

-- What an event does to a container about which the daemon then answers `answer`.
unfoldable pub transition : {Info : Type 0} → Status → Option Info → Phase Info → Phase Info
transition die answer p = gone
transition stop answer p = gone
transition pause answer (running info) = paused info
transition pause answer p = p
transition unpause none (paused info) = running info
transition unpause (some now) (paused info) = running now
transition unpause answer p = p
transition start (some now) p = running now
transition start none (running info) = running info
transition start none p = gone
transition (other s) answer p = p

abbrev pub phase_of : {Info : Type 0} → Option Info → Option Info → Phase Info
phase_of (some info) p = running info
phase_of none (some info) = paused info
phase_of none none = gone

lookup-replace_ok :
    {V : Type 0} (id k : Bytes) (o : Option V) (m : Assoc Bytes V)
    → lookup bytes_discrete k (replace_ok id o m)
      ≡ ite
          (bytes_discrete id k)
          (elim o [ none ↦ lookup bytes_discrete k m | some v ↦ some v ])
          (lookup bytes_discrete k m)
lookup-replace_ok id k none m = ground arith
lookup-replace_ok id k (some v) m = lookup-insert bytes_discrete id k v m

lookup-insert_new :
    {V : Type 0} (id k : Bytes) (v : V) (m : Assoc Bytes V)
    → lookup bytes_discrete k (insert_new id v m) ≡ (
        if is_some (lookup bytes_discrete id m)
        then lookup bytes_discrete k m
        else ite (bytes_discrete id k) (some v) (lookup bytes_discrete k m))
lookup-insert_new id k v m = ground (arith, lookup-insert bytes_discrete id k v m)

module _ {Info Stats : Type 0} where
  abbrev pub phase : Bytes → EventsStorage Info Stats → Phase Info
  phase k es =
      phase_of (lookup bytes_discrete k es.base.inspects) (lookup bytes_discrete k es.pausing)

  -- no container is both running and paused
  abbrev pub AreApart : EventsStorage Info Stats → Type 0
  AreApart es =
      (k : Bytes)
      → (is_some (lookup bytes_discrete k es.base.inspects)
          && is_some (lookup bytes_discrete k es.pausing))
        ≡ false

  module _ (inspect : Bytes → Option Info) (id k : Bytes) (es : EventsStorage Info Stats)
      (apart : AreApart es) where
    pub update_status-phase :
        (st : Status)
        → phase k (update_status inspect id st es)
          ≡ ite (bytes_discrete id k) (transition st (inspect k) (phase k es)) (phase k es)
    unfolding update_status transition
    update_status-phase die = ground (
      arith,
      lookup-delete bytes_discrete id k es.base.inspects,
      lookup-delete bytes_discrete id k es.pausing,
    )
    update_status-phase stop = ground (
      arith,
      lookup-delete bytes_discrete id k es.base.inspects,
      lookup-delete bytes_discrete id k es.pausing,
    )
    update_status-phase pause = elim (Option-cases (lookup bytes_discrete id es.base.inspects)) [
      | inl e ↦ rw (e, update_status) (ground arith)
      | inr (info, e) ↦
          rw (e, update_status)
            (ground (
              arith,
              apart id,
              apart k,
              lookup-delete bytes_discrete id k es.base.inspects,
              lookup-insert_new id k info es.pausing,
            ))
    ]
    update_status-phase unpause = elim (Option-cases (lookup bytes_discrete id es.pausing)) [
      | inl e ↦ rw (e, update_status) (ground arith)
      | inr (info, e) ↦
          rw (e, update_status)
            (ground (
              arith,
              apart id,
              apart k,
              lookup-delete bytes_discrete id k es.pausing,
              lookup-replace_ok id k (inspect id) (insert_new id info es.base.inspects),
              lookup-insert_new id k info es.base.inspects,
            ))
    ]
    update_status-phase start = ground (
      arith,
      lookup-replace_ok id k (inspect id) es.base.inspects,
      lookup-delete bytes_discrete id k es.pausing,
    )
    update_status-phase (other s) = ground arith

    pub update_status-apart :
        (st : Status)
        → (is_some (lookup bytes_discrete k (update_status inspect id st es).base.inspects)
            && is_some (lookup bytes_discrete k (update_status inspect id st es).pausing))
          ≡ false
    unfolding update_status
    update_status-apart die = ground (
      arith,
      apart k,
      lookup-delete bytes_discrete id k es.base.inspects,
      lookup-delete bytes_discrete id k es.pausing,
    )
    update_status-apart stop = ground (
      arith,
      apart k,
      lookup-delete bytes_discrete id k es.base.inspects,
      lookup-delete bytes_discrete id k es.pausing,
    )
    update_status-apart pause = elim (Option-cases (lookup bytes_discrete id es.base.inspects)) [
      | inl e ↦ rw (e, update_status) (apart k)
      | inr (info, e) ↦
          rw (e, update_status)
            (ground (
              arith,
              apart k,
              lookup-delete bytes_discrete id k es.base.inspects,
              lookup-insert_new id k info es.pausing,
            ))
    ]
    update_status-apart unpause = elim (Option-cases (lookup bytes_discrete id es.pausing)) [
      | inl e ↦ rw (e, update_status) (apart k)
      | inr (info, e) ↦
          rw (e, update_status)
            (ground (
              arith,
              apart k,
              lookup-delete bytes_discrete id k es.pausing,
              lookup-replace_ok id k (inspect id) (insert_new id info es.base.inspects),
              lookup-insert_new id k info es.base.inspects,
            ))
    ]
    update_status-apart start = ground (
      arith,
      apart k,
      lookup-replace_ok id k (inspect id) es.base.inspects,
      lookup-delete bytes_discrete id k es.pausing,
    )
    update_status-apart (other s) = apart k
