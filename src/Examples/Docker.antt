-- ===== src/Examples/Docker.antt =====
-- Runs of the docker operator.
use data_collection.Base.{
  ℕ, zero, suc, ◌<◌, ◌≡◌, refl, Bool, true, false, none, some, [], ◌∷◌, arith, pos, Bytes,
  bytes_discrete, codes, lookup,
}
use data_collection.Docker.{Daemon, Storage, create, each_container}
use data_collection.Docker.Poll.{create_first_answer}
use data_collection.Docker.Events.{
  start, pause, Message, EventsStorage, new_events_storage, filter, update, receive, dispatch,
}
use data_collection.Docker.Events.Phase.{phase, gone, paused, AreApart}
use data_collection.Docker.Events.Update.{Applied, update-phase}
use data_collection.Docker.Events.Queue.{
  begin, next, receive_one, dispatch_one, tick, IsSound, Reach-IsSound,
}
use data_collection.Docker.Events.Batched.{event, start_pause_lost}

abbrev web : Bytes
web = codes "web"

abbrev db : Bytes
db = codes "db"

-- a daemon that runs one container, and numbers for what it tells
abbrev daemon : Daemon ℕ ℕ
daemon = record { containers = some (web ∷ []); inspect = λ k. some 7; measure = λ k. none }

abbrev silent : Daemon ℕ ℕ
silent = record { containers = none; inspect = λ k. none; measure = λ k. none }

abbrev known : Storage ℕ ℕ
known = record { inspects = (db, 1) ∷ []; stats = []; connected = true }

-- the stopped container stays

-- a daemon that answers the second request, and a client that is made at the second attempt
abbrev late : ℕ → Daemon ℕ ℕ
late zero = silent
late (suc j) = daemon

abbrev second : ℕ → Bool
second zero = false
second (suc i) = true

not_at_first : {A : Type 0} (f : ℕ → A) (a : A) → f 0 ≡ a → (i : ℕ) → i < 1 → f i ≡ a
not_at_first f a e zero h = e
not_at_first f a e (suc i) h = absurd (omega arith)

create_first_answer_example : create second late known ≡ each_container daemon (web ∷ []) known
create_first_answer_example =
    create_first_answer late (web ∷ []) second 1 1 known (omega arith)
      (not_at_first second false refl) refl (omega arith)
      (not_at_first (λ j. (late j).containers) none refl) refl

abbrev fresh : EventsStorage ℕ ℕ
fresh = new_events_storage

abbrev started : Message
started = event web start (pos 5)

fresh_apart : AreApart fresh
fresh_apart k = unfold lookup in refl

abbrev waiting : EventsStorage ℕ ℕ
waiting = record fresh { cache = (web, started ∷ []) ∷ [] }

update-phase_example :
    Applied (some (started ∷ [])) (some 7) gone (phase web (update daemon.inspect waiting))
    × ((update daemon.inspect waiting).cache ≡ [])
    × AreApart (update daemon.inspect waiting)
unfolding lookup bytes_discrete
update-phase_example =
    update-phase daemon.inspect waiting web fresh_apart (unfold lookup in (refl, tt))

abbrev after_one : EventsStorage ℕ ℕ
after_one = receive started fresh

channel_of_one : after_one.msg_channel ≡ started ∷ []
channel_of_one = unfold receive in refl

Reach-IsSound_example : IsSound (update daemon.inspect (dispatch started [] after_one))
Reach-IsSound_example = Reach-IsSound (
    next
      (next (next begin (receive_one fresh started))
        (dispatch_one after_one started [] channel_of_one))
      (tick (dispatch started [] after_one) daemon.inspect))

start_pause_lost_example :
    (phase web (update daemon.inspect (filter (event web pause (pos 6)) (filter started fresh)))
      ≡ gone)
    × (phase web (
          update daemon.inspect
            (filter (event web pause (pos 6)) (update daemon.inspect (filter started fresh))))
        ≡ paused 7)
start_pause_lost_example =
    start_pause_lost fresh web daemon.inspect 7 (pos 5) (pos 6) fresh_apart refl
      (unfold lookup in refl) (omega arith) (omega arith) refl
