-- ===== src/Docker/Events/Queue.antt =====
-- The two loops of the events operator as steps, in any order, and what holds throughout.
use data_collection.Base.{
  ◌≤◌, ◌≡◌, refl, ap, ◌∙◌, subst, inl, inr, ite, true, Option, some, List, [], ◌∷◌, ◌++◌, arith,
  ltb, Bool-cases, length, length-append, All, pos, Bytes, bytes_discrete, Assoc, lookup, Distinct,
  lookup-insert, insert-Distinct,
}
use data_collection.Docker.{Storage}
use data_collection.Docker.Events.{
  Status, die, stop, start, pause, unpause, other, update_status, Message, EventsStorage, messages,
  counts, filter, update_each, update, receive, dispatch, new_events_storage, last_status,
}
use data_collection.Docker.Events.Phase.{AreApart}
use data_collection.Docker.Events.Update.{update-phase}

abbrev pub Filed : Bytes → List Message → Type 0
Filed k msgs = All (λ (m : Message). (m.id ≡ k) × (counts m.status ≡ true)) msgs

Filed-snoc :
    (k : Bytes) (msgs : List Message) (msg : Message)
    → Filed k msgs
    → msg.id ≡ k
    → counts msg.status ≡ true
    → Filed k (msgs ++ msg ∷ [])
Filed-snoc k [] msg f e c = ((e, c), tt)
Filed-snoc k (m ∷ msgs) msg f e c = (f.0, Filed-snoc k msgs msg f.1 e c)

module _ {Info Stats : Type 0} where
  pub data Step : EventsStorage Info Stats → EventsStorage Info Stats → Type 0 where
    receive_one : (es : EventsStorage Info Stats) (msg : Message) → Step es (receive msg es)
    dispatch_one :
        (es : EventsStorage Info Stats) (msg : Message) (rest : List Message)
        → es.msg_channel ≡ msg ∷ rest
        → Step es (dispatch msg rest es)
    tick :
        (es : EventsStorage Info Stats) (inspect : Bytes → Option Info)
        → Step es (update inspect es)

  -- from the containers that create has found
  pub data Reach (base : Storage Info Stats) : EventsStorage Info Stats → Type 0 where
    begin : Reach base (record new_events_storage { base = base })
    next : {es es' : EventsStorage Info Stats} → Reach base es → Step es es' → Reach base es'

  pub record IsSound (es : EventsStorage Info Stats) : Type 0 where
    pub apart : AreApart es
    pub distinct : Distinct bytes_discrete es.cache
    pub filed : (k : Bytes) → Filed k (messages (lookup bytes_discrete k es.cache))
    pub room : length es.msg_channel ≤ 10

  filter-IsSound :
      (msg : Message) (es : EventsStorage Info Stats) → IsSound es → IsSound (filter msg es)
  unfolding filter
  filter-IsSound msg es s = elim (Bool-cases (counts msg.status)) [
    | inr e ↦ rw e s
    | inl e ↦ rw e (record {
      apart = s.apart;
      distinct =
          insert-Distinct bytes_discrete msg.id
            (messages (lookup bytes_discrete msg.id es.cache) ++ msg ∷ []) es.cache s.distinct;
      filed = λ k.
          rw
            (lookup-insert bytes_discrete msg.id k
              (messages (lookup bytes_discrete msg.id es.cache) ++ msg ∷ []) es.cache)
            (elim (bytes_discrete msg.id k)
              as (λ d. Filed k (
                messages (
                  ite d (some (messages (lookup bytes_discrete msg.id es.cache) ++ msg ∷ []))
                    (lookup bytes_discrete k es.cache)))) [
                      | yes q ↦
                          Filed-snoc k (messages (lookup bytes_discrete msg.id es.cache)) msg
                            (subst (λ j. Filed j (messages (lookup bytes_discrete msg.id es.cache)))
                              q (s.filed msg.id))
                            q e
                      | no q ↦ s.filed k
                    ]);
      room = s.room;
    })
  ]

  receive-IsSound :
      (msg : Message) (es : EventsStorage Info Stats) → IsSound es → IsSound (receive msg es)
  unfolding receive
  receive-IsSound msg es s = elim (Bool-cases (ltb (length es.msg_channel) 10)) [
    | inr e ↦ rw e s
    | inl e ↦ rw e (record {
      apart = s.apart;
      distinct = s.distinct;
      filed = s.filed;
      room = ground (arith, length-append es.msg_channel (msg ∷ []));
    })
  ]

  dispatch-IsSound :
      (msg : Message) (rest : List Message) (es : EventsStorage Info Stats)
      → es.msg_channel ≡ msg ∷ rest
      → IsSound es
      → IsSound (dispatch msg rest es)
  dispatch-IsSound msg rest es c s =
      unfold dispatch in
      filter-IsSound msg (record es { msg_channel = rest })
        (record {
          apart = s.apart;
          distinct = s.distinct;
          filed = s.filed;
          room = omega (arith, ap (λ (l : List Message). length l) c, s.room);
        })

  update_status-room :
      (inspect : Bytes → Option Info) (id : Bytes) (st : Status) (es : EventsStorage Info Stats)
      → (update_status inspect id st es).msg_channel ≡ es.msg_channel
  unfolding update_status
  update_status-room inspect id die es = refl
  update_status-room inspect id stop es = refl
  update_status-room inspect id pause es = ground arith
  update_status-room inspect id unpause es = ground arith
  update_status-room inspect id start es = refl
  update_status-room inspect id (other s) es = refl

  update-room :
      (inspect : Bytes → Option Info) (cache : Assoc Bytes (List Message))
      (es : EventsStorage Info Stats)
      → (update_each inspect cache es).msg_channel ≡ es.msg_channel
  unfolding update_each
  update-room inspect [] es = refl
  update-room inspect ((id, msgs) ∷ cache) es =
      update-room inspect cache (update_status inspect id (last_status msgs (pos 0) (other [])) es)
      ∙ update_status-room inspect id (last_status msgs (pos 0) (other [])) es

  update-IsSound :
      (inspect : Bytes → Option Info) (es : EventsStorage Info Stats)
      → IsSound es
      → IsSound (update inspect es)
  update-IsSound inspect es s = record {
    apart = (update-phase inspect es [] s.apart s.distinct).2;
    distinct = unfold update in tt;
    filed = λ k. unfold update lookup in tt;
    room = unfold update in rw (update-room inspect es.cache es) s.room;
  }

  Step-IsSound : {es es' : EventsStorage Info Stats} → Step es es' → IsSound es → IsSound es'
  Step-IsSound (receive_one es msg) s = receive-IsSound msg es s
  Step-IsSound (dispatch_one es msg rest e) s = dispatch-IsSound msg rest es e s
  Step-IsSound (tick es inspect) s = update-IsSound inspect es s

  -- Whatever events arrive and whatever the daemon answers, in every order of the two loops: no container
  -- is running and paused at once, what is kept for a container are events of it that count, and the
  -- channel holds at most ten messages.
  pub Reach-IsSound :
      {base : Storage Info Stats} {es : EventsStorage Info Stats} → Reach base es → IsSound es
  Reach-IsSound begin = record {
    apart = λ k. unfold lookup in ground arith;
    distinct = tt;
    filed = λ k. unfold lookup in tt;
    room = omega arith;
  }
  Reach-IsSound (next r st) = Step-IsSound st (Reach-IsSound r)
