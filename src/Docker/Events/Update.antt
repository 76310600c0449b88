-- ===== src/Docker/Events/Update.antt =====
-- What a tick applies: of the events of a container the latest, and nothing of the others.
use data_collection.Base.{
  ◌≡◌, refl, sym, subst, ap, ◌∙◌, ◌⊎◌, inl, inr, Option, none, some, List, [], ◌∷◌, ◌++◌, arith,
  Bool-cases, All, ℤ, pos, ◌≤ℤ◌, ◌<ℤ◌, ltb_ℤ, Bytes, bytes_discrete, Assoc, lookup, Distinct,
}
use data_collection.Docker.Events.{
  Status, other, Message, EventsStorage, update_status, last_status, update_each, update,
}
use data_collection.Docker.Events.Phase.{
  Phase, transition, phase, AreApart, update_status-phase, update_status-apart,
}

-- `m` stands in `msgs`, none is later, and those before it are earlier.
pub record IsLatest (msgs : List Message) (m : Message) : Type 0 where
  pub before : List Message
  pub behind : List Message
  pub stands : msgs ≡ before ++ m ∷ behind
  pub greatest : All (λ (x : Message). x.time_nano ≤ℤ m.time_nano) msgs
  pub first : All (λ (x : Message). x.time_nano <ℤ m.time_nano) before

abbrev Later : ℤ → List Message → Status → Type 0
Later max_time msgs st =
    (m : Message) × (max_time <ℤ m.time_nano) × (st ≡ m.status) × IsLatest msgs m

All-le_trans :
    (a b : ℤ) (msgs : List Message)
    → a ≤ℤ b
    → All (λ (x : Message). x.time_nano ≤ℤ a) msgs
    → All (λ (x : Message). x.time_nano ≤ℤ b) msgs
All-le_trans a b [] h all = tt
All-le_trans a b (m ∷ msgs) h all = (omega (arith, all.0), All-le_trans a b msgs h all.1)

IsLatest-cons :
    (x m : Message) (msgs : List Message)
    → x.time_nano <ℤ m.time_nano
    → IsLatest msgs m
    → IsLatest (x ∷ msgs) m
IsLatest-cons x m msgs h l = record {
  before = x ∷ l.before;
  behind = l.behind;
  stands = ap (◌∷◌ x) l.stands;
  greatest = (omega arith, l.greatest);
  first = (h, l.first);
}

last_status-cases :
    (msgs : List Message) (max_time : ℤ) (last : Status)
    → ((last_status msgs max_time last ≡ last)
        × All (λ (x : Message). x.time_nano ≤ℤ max_time) msgs)
      ⊎ Later max_time msgs (last_status msgs max_time last)
unfolding last_status
last_status-cases [] max_time last = inl (refl, tt)
last_status-cases (msg ∷ msgs) max_time last = elim (Bool-cases (ltb_ℤ max_time msg.time_nano)) [
  | inl e ↦ rw e (newer (ground arith) (last_status-cases msgs msg.time_nano msg.status))
  | inr e ↦ rw e (older (ground arith) (last_status-cases msgs max_time last))
]
  where
    newer :
        {st : Status}
        → max_time <ℤ msg.time_nano
        → ((st ≡ msg.status) × All (λ (x : Message). x.time_nano ≤ℤ msg.time_nano) msgs)
          ⊎ Later msg.time_nano msgs st
        → ((st ≡ last) × All (λ (x : Message). x.time_nano ≤ℤ max_time) (msg ∷ msgs))
          ⊎ Later max_time (msg ∷ msgs) st
    newer h (inl (e, all)) = inr (
      msg,
      h,
      e,
      record {
        before = [];
        behind = msgs;
        stands = refl;
        greatest = (omega arith, all);
        first = tt;
      },
    )
    newer h (inr (m, l, e, latest)) = inr (m, omega arith, e, IsLatest-cons msg m msgs l latest)

    older :
        {st : Status}
        → msg.time_nano ≤ℤ max_time
        → ((st ≡ last) × All (λ (x : Message). x.time_nano ≤ℤ max_time) msgs)
          ⊎ Later max_time msgs st
        → ((st ≡ last) × All (λ (x : Message). x.time_nano ≤ℤ max_time) (msg ∷ msgs))
          ⊎ Later max_time (msg ∷ msgs) st
    older h (inl (e, all)) = inl (e, (h, all))
    older h (inr (m, l, e, latest)) = inr (m, l, e, IsLatest-cons msg m msgs (omega arith) latest)

-- the phase after the status that update computes from some events
abbrev pub latest : {Info : Type 0} → Option (List Message) → Option Info → Phase Info → Phase Info
latest none answer p = p
latest (some msgs) answer p = transition (last_status msgs (pos 0) (other [])) answer p

-- `after` is the phase `p` changed by the latest of the events; events at time zero or before do not count.
abbrev pub Applied :
    {Info : Type 0} → Option (List Message) → Option Info → Phase Info → Phase Info → Type 0
Applied none answer p after = after ≡ p
Applied (some msgs) answer p after =
    ((after ≡ p) × All (λ (x : Message). x.time_nano ≤ℤ pos 0) msgs)
    ⊎ ((m : Message) × (pos 0 <ℤ m.time_nano)
        × IsLatest msgs m
        × (after ≡ transition m.status answer p))

Applied-latest :
    {Info : Type 0} (msgs : Option (List Message)) (answer : Option Info) (p : Phase Info)
    → Applied msgs answer p (latest msgs answer p)
unfolding transition
Applied-latest none answer p = refl
Applied-latest (some msgs) answer p = elim (last_status-cases msgs (pos 0) (other [])) [
  | inl (e, all) ↦ inl (ap (λ st. transition st answer p) e, all)
  | inr (m, l, e, is_latest) ↦ inr (m, l, is_latest, ap (λ st. transition st answer p) e)
]

module _ {Info Stats : Type 0} (inspect : Bytes → Option Info) where
  update_each-AreApart :
      (cache : Assoc Bytes (List Message)) (es : EventsStorage Info Stats)
      → AreApart es
      → AreApart (update_each inspect cache es)
  unfolding update_each
  update_each-AreApart [] es apart = apart
  update_each-AreApart ((id, msgs) ∷ cache) es apart =
      update_each-AreApart cache (update_status inspect id (last_status msgs (pos 0) (other [])) es)
        (λ k. update_status-apart inspect id k es apart (last_status msgs (pos 0) (other [])))

  update_each-phase :
      (k : Bytes) (cache : Assoc Bytes (List Message)) (es : EventsStorage Info Stats)
      → AreApart es
      → Distinct bytes_discrete cache
      → phase k (update_each inspect cache es)
        ≡ latest (lookup bytes_discrete k cache) (inspect k) (phase k es)
  unfolding update_each lookup
  update_each-phase k [] es apart d = refl
  update_each-phase k ((id, msgs) ∷ cache) es apart d =
      let st = last_status msgs (pos 0) (other []) in
      let ih =
        update_each-phase k cache (update_status inspect id st es)
          (λ j. update_status-apart inspect id j es apart st) d.1 in
      ih ∙ ground (arith, update_status-phase inspect id k es apart st, d.0)

  pub update-latest :
      (es : EventsStorage Info Stats) (k : Bytes)
      → AreApart es
      → Distinct bytes_discrete es.cache
      → phase k (update inspect es)
        ≡ latest (lookup bytes_discrete k es.cache) (inspect k) (phase k es)
  unfolding update
  update-latest es k apart d = update_each-phase k es.cache es apart d

  -- A tick applies to a container with events the transition of the event with the greatest time, the
  -- first of these where several have it; to one whose events all have times of zero or less, and to one
  -- without events, it applies none. The events are used up, and no container becomes running and paused at
  -- once. Conditions: no container is both before, and the cache lists every container once.
  pub update-phase :
      (es : EventsStorage Info Stats) (k : Bytes)
      → AreApart es
      → Distinct bytes_discrete es.cache
      → Applied
          (lookup bytes_discrete k es.cache)
          (inspect k)
          (phase k es)
          (phase k (update inspect es))
        × ((update inspect es).cache ≡ [])
        × AreApart (update inspect es)
  unfolding update
  update-phase es k apart d = (
    subst (Applied (lookup bytes_discrete k es.cache) (inspect k) (phase k es))
        (sym (update-latest es k apart d))
        (Applied-latest (lookup bytes_discrete k es.cache) (inspect k) (phase k es)),
    refl,
    update_each-AreApart es.cache es apart,
  )
