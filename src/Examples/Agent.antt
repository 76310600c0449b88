-- ===== src/Examples/Agent.antt =====
-- Runs of the agent.
use data_collection.Base.{
  ◌≡◌, refl, true, none, some, [], ◌∷◌, ◌++◌, if◌then◌else◌, Bytes, bytes_discrete, codes, contains,
  lookup, List, inl, inr, ok, arith, keep, insert, false,
}
use data_collection.Agent.{Network, Services, get_url}
use data_collection.Util.{remove_key_from_slice, difference_slice, set_of, missing_from}
use data_collection.Rw.Messages.{buffer}
use data_collection.Rw.RoundTrip.{frame}
use data_collection.Agent.Requests.{Protocol, role_agent, msg_get_hash, get_hash}
use data_collection.Agent.Requests.Served.{Carries, login_of, read_request, get_hash_served}
use data_collection.Agent.Loop.{
  Loop, Reach, here, then_step, received, sent, watched, receive_hashes, take_watch,
}
use data_collection.Agent.Loop.Settled.{IsSettled, Reach-IsSettled}
use data_collection.Agent.Loop.Stalled.{Stands, two_watches_stall}
use data_collection.Agent.Fetched.{text_of, get_url_lem}

-- a server at which every hash is its own URL and text
abbrev mirror : Network
mirror = record {
  dial = λ h. true;
  get_hash = λ h. some h;
  download_url = λ u. some u;
  get_md5_hash = λ b. b;
}

abbrev quiet : Services
quiet = record {
  node_hashes = [];
  receive_hashes = [];
  delete_plugins = codes "h0" ∷ [];
  add_plugins = [];
  last_hashes = codes "h0" ∷ [];
  hash_map = (codes "h0", codes "h0") ∷ [];
  updates = [];
  deletions = [];
}

get_url_lem_example :
    (a' : Services) × (get_url mirror (codes "h1" ∷ []) quiet ≡ some a')
    × (a'.updates ≡ [] ++ a'.hash_map ∷ [])
    × ((j : Bytes)
        → lookup bytes_discrete j a'.hash_map
          ≡ (if contains bytes_discrete j (codes "h1" ∷ []) then text_of mirror j else none))
get_url_lem_example = get_url_lem mirror (codes "h1") [] quiet refl

-- nothing has been received
abbrev fresh : Loop
fresh = record {
  services = record quiet { delete_plugins = []; last_hashes = []; hash_map = [] };
  watch = 0;
  download = 0;
  sending = false;
  stalled = false;
}

abbrev h1 : List Bytes
h1 = codes "h1" ∷ []

abbrev h2 : List Bytes
h2 = codes "h2" ∷ []

two_watches_stall_example :
    (l1 : Loop) × Reach mirror fresh l1 × ((l2 : Loop) → Reach mirror l1 l2 → Stands fresh l2)
unfolding remove_key_from_slice keep bytes_discrete difference_slice set_of missing_from insert
    lookup
two_watches_stall_example =
    two_watches_stall mirror fresh h1 h2 refl refl refl refl refl refl refl refl

abbrev one_taken : Loop
one_taken = take_watch 0 (record (receive_hashes h1 fresh) { sending = false; watch = 1 })

one_taken-Reach : Reach mirror fresh one_taken
unfolding receive_hashes remove_key_from_slice keep bytes_discrete
one_taken-Reach =
    then_step
      (then_step (then_step here (received fresh h1 refl))
        (sent (receive_hashes h1 fresh) refl refl))
      (watched (record (receive_hashes h1 fresh) { sending = false; watch = 1 }) 0 refl refl)

Reach-IsSettled_example : IsSettled one_taken
Reach-IsSettled_example =
    Reach-IsSettled mirror fresh one_taken one_taken-Reach (inr (inr (inl refl)))

-- every message is the text of its one field that matters
abbrev protocol : Protocol
protocol = record {
  login = record { marshal = λ o. some o.node_id; unmarshal = λ s. some (login_of s) };
  node_req = record {
    marshal = λ o. some o.node_id;
    unmarshal = λ s. some (record { node_id = s });
  };
  node_res = record {
    marshal = λ o. some o.error;
    unmarshal = λ s. some (record { error = s; hashes = [] });
  };
  watch_req = record { marshal = λ o. some []; unmarshal = λ s. some tt };
  watch_res = record {
    marshal = λ o. some o.error;
    unmarshal = λ s. some (record { hashes = s ∷ []; error = [] });
  };
  hash_req = record { marshal = λ o. some o.hash; unmarshal = λ s. some (record { hash = s }) };
  hash_res = record {
    marshal = λ o. some o.url;
    unmarshal = λ s. some (record { url = s; error = [] });
  };
}

login_carried : Carries protocol.login (login_of (codes "node")) (codes "node")
login_carried = record { written = refl; read = refl; short = omega arith }

hash_carried : Carries protocol.hash_req (record { hash = codes "h1" }) (codes "h1")
hash_carried = record { written = refl; read = refl; short = omega arith }

get_hash_served_example :
    (out : Bytes) × (get_hash buffer protocol
        (codes "node")
        (codes "h1")
        ([], frame (some (codes "url")) ++ [])
      ≡ (ok (codes "url"), (out, [])))
    × (read_request protocol out ≡ (
      ok ((role_agent, login_of (codes "node")), (msg_get_hash, record { hash = codes "h1" })),
      [],
    ))
get_hash_served_example =
    get_hash_served protocol (codes "node") (codes "h1") (record { url = codes "url"; error = [] })
      (codes "node") (codes "h1") (codes "url") [] login_carried hash_carried refl (omega arith)

abbrev pushed : Bytes
pushed = frame (some (codes "h1")) ++ frame (some (codes "h2"))
