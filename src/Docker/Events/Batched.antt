-- ===== src/Docker/Events/Batched.antt =====
-- Two events of one container within one tick.
use data_collection.Base.{
  ◌≡◌, refl, ◌∙◌, true, Option, some, [], ◌∷◌, ◌++◌, arith, ℤ, pos, ◌<ℤ◌, Bytes, bytes_discrete,
  lookup, Distinct, lookup-insert_self, insert-Distinct,
}
use data_collection.Docker.Events.{
  Status, start, pause, other, Message, EventsStorage, messages, counts, filter, last_status,
  update,
}
use data_collection.Docker.Events.Phase.{gone, running, paused, transition, phase, AreApart}
use data_collection.Docker.Events.Update.{update-phase, update-latest}

abbrev pub event : Bytes → Status → ℤ → Message
event k st tm = record { id = k; status = st; time_nano = tm }

module _ {Info Stats : Type 0} (k : Bytes) (st : Status) (tm : ℤ) where
  filter-lookup :
      (es : EventsStorage Info Stats)
      → counts st ≡ true
      → lookup bytes_discrete k (filter (event k st tm) es).cache
        ≡ some (messages (lookup bytes_discrete k es.cache) ++ event k st tm ∷ [])
  unfolding filter
  filter-lookup es c = rw (c, filter) (lookup-insert_self bytes_discrete k _ es.cache)

  filter-same :
      (es : EventsStorage Info Stats)
      → counts st ≡ true
      → Distinct bytes_discrete es.cache
      → (phase k (filter (event k st tm) es) ≡ phase k es)
        × (AreApart es → AreApart (filter (event k st tm) es))
        × Distinct bytes_discrete (filter (event k st tm) es).cache
  unfolding filter
  filter-same es c d = rw (c, filter) (refl, λ a. a, insert-Distinct bytes_discrete k _ es.cache d)

  -- one event, and a tick
  applied :
      (inspect : Bytes → Option Info) (es : EventsStorage Info Stats)
      → counts st ≡ true
      → AreApart es
      → Distinct bytes_discrete es.cache
      → phase k (update inspect (filter (event k st tm) es))
        ≡ transition
            (last_status
              (messages (lookup bytes_discrete k es.cache) ++ event k st tm ∷ [])
              (pos 0)
              (other []))
            (inspect k)
            (phase k es)
  applied inspect es c a d =
      let (p, a', d') = filter-same es c d in
      update-latest inspect (filter (event k st tm) es) k (a' a) d'
      ∙ rw (filter-lookup es c, p) refl

-- A container that starts and is then paused between two ticks stays unknown, although the daemon
-- describes it; with a tick between the two events it is kept as paused.
pub start_pause_lost :
    {Info Stats : Type 0} (es : EventsStorage Info Stats) (k : Bytes)
    (inspect : Bytes → Option Info) (info : Info) (t1 t2 : ℤ)
    → AreApart es
    → es.cache ≡ []
    → phase k es ≡ gone
    → pos 0 <ℤ t1
    → t1 <ℤ t2
    → inspect k ≡ some info
    → (phase k (update inspect (filter (event k pause t2) (filter (event k start t1) es))) ≡ gone)
      × (phase k (
            update inspect
              (filter (event k pause t2) (update inspect (filter (event k start t1) es))))
          ≡ paused info)
unfolding last_status transition
start_pause_lost {Info} es k inspect info t1 t2 apart empty unknown h1 h2 answer =
    let none_yet : Distinct bytes_discrete es.cache = rw empty tt in
    let nothing : messages (lookup bytes_discrete k es.cache) ≡ [] =
      rw empty (unfold lookup in refl) in
    let es1 = filter (event k start t1) es in
    let (p1, a1, d1) = filter-same k start t1 es refl none_yet in
    let held : messages (lookup bytes_discrete k es1.cache) ≡ event k start t1 ∷ [] =
      rw (filter-lookup k start t1 es refl, nothing) refl in
    let es2 = update inspect es1 in
    let (p2, c2, a2) = update-phase inspect es1 k (a1 apart) d1 in
    let started : phase k es2 ≡ running info =
      applied k start t1 inspect es refl apart none_yet
      ∙ rw (nothing, unknown, answer) (after_start t1 h1 info) in
    let emptied : messages (lookup bytes_discrete k es2.cache) ≡ [] =
      rw c2 (unfold lookup in refl) in
    (
      applied k pause t2 inspect es1 refl (a1 apart) d1
          ∙ rw (held, p1, unknown) (both t1 t2 h1 h2 (inspect k)),
      applied k pause t2 inspect es2 refl a2 (rw c2 tt)
          ∙ rw (emptied, started) (after_pause t2 (omega arith) info (inspect k)),
    )
  where
    after_start :
        (t : ℤ)
        → pos 0 <ℤ t
        → (i : Info)
        → transition (last_status (event k start t ∷ []) (pos 0) (other [])) (some i) gone
          ≡ running i
    after_start t h i = ground arith

    after_pause :
        (t : ℤ)
        → pos 0 <ℤ t
        → (i : Info) (answer : Option Info)
        → transition (last_status (event k pause t ∷ []) (pos 0) (other [])) answer (running i)
          ≡ paused i
    after_pause t h i answer = ground arith

    both :
        (t t' : ℤ)
        → pos 0 <ℤ t
        → t <ℤ t'
        → (answer : Option Info)
        → transition
            (last_status (event k start t ∷ event k pause t' ∷ []) (pos 0) (other []))
            answer
            gone
          ≡ gone
    both t t' h h' answer = ground arith
