-- ===== src/Agent/Loop/Settled.antt =====
-- What ParseWatchPlugin keeps of the last hashes that the server has sent.
use data_collection.Base.{
  ℕ, ◌<◌, ◌≡◌, refl, ◌∙◌, subst, ◌⊎◌, inl, inr, Bool, true, false, not, ◌&&◌, ◌||◌, List, [], ◌∷◌,
  arith, ◌==◌, if◌then◌else◌, Option-cases, Bytes, contains, IfSome,
}
use data_collection.Util.{remove_key_from_slice, difference_slice}
use data_collection.Util.Slices.{has, difference_slice_reaches}
use data_collection.Agent.{Network, Services, is_empty, on_watch, on_list, get_url, fetch_hashes}
use data_collection.Agent.Loop.{
  Loop, ask_download, receive_hashes, take_watch, take_list, take_download, Step, received, sent,
  watched, listed, downloaded, Reach, here, then_step,
}

-- the last hashes taken are those that were received, as sets
abbrev pub Taken : Services → Type 0
Taken a =
    (is_empty a.receive_hashes ≡ true)
    ⊎ ((v : Bytes) → has a.receive_hashes v ≡ has a.last_hashes v)

-- unless hashes are on their way to ParseWatchPlugin
abbrev pub IsSettled : Loop → Type 0
IsSettled l = (l.sending ≡ true) ⊎ (0 < l.watch) ⊎ Taken l.services

is_empty_lem : {A : Type 0} (l : List A) → is_empty l ≡ true → l ≡ []
is_empty_lem [] h = refl
is_empty_lem (x ∷ l) h = absurd (ground arith)

same_sets :
    (s1 s2 : List Bytes) (v : Bytes)
    → is_empty (difference_slice s1 s2).0 ≡ true
    → is_empty (difference_slice s1 s2).1 ≡ true
    → has s1 v ≡ has s2 v
unfolding contains
same_sets s1 s2 v a d =
    difference_slice_reaches s1 s2 v
    ∙ rw (is_empty_lem (difference_slice s1 s2).0 a, is_empty_lem (difference_slice s1 s2).1 d)
        (ground arith)

pub if_lem :
    {A : Type 0} (P : A → Type 0) (c : Bool) (x y : A)
    → (c ≡ true → P x)
    → (c ≡ false → P y)
    → P (if c then x else y)
if_lem P true x y f g = f refl
if_lem P false x y f g = g refl

unchanged : (b1 b2 : Bool) → (not b1 || not b2) ≡ false → (b1 ≡ true) × (b2 ≡ true)
unchanged true true h = (refl, refl)
unchanged true false h = absurd (ground arith)
unchanged false b2 h = absurd (ground arith)

on_watch-Taken : (a : Services) → Taken (on_watch a).0
unfolding on_watch
on_watch-Taken a =
    let (added, deleted) = difference_slice a.receive_hashes a.last_hashes in
    if_lem (λ (r : Services × Bool). Taken r.0) (not (is_empty a.last_hashes)) _ _
      (λ _.
        if_lem (λ (r : Services × Bool). Taken r.0) (not (is_empty added) || not (is_empty deleted))
          _ _ (λ _. inr λ v. refl)
          (λ e.
            let (ea, ed) = unchanged (is_empty added) (is_empty deleted) e in
            inr λ v. same_sets a.receive_hashes a.last_hashes v ea ed))
      (λ _.
        if_lem (λ (r : Services × Bool). Taken r.0) (not (is_empty a.receive_hashes)) _ _
          (λ _. inr λ v. refl) (λ e. inl (ground (arith, e))))

on_list-Taken :
    (local_hashes : List Bytes) (a : Services) → Taken a → Taken (on_list local_hashes a).0
unfolding on_list
on_list-Taken local_hashes a h =
    if_lem (λ (r : Services × Bool). Taken r.0)
      (not (is_empty local_hashes) && not (is_empty a.node_hashes)) _ _ (λ _. h)
      (λ _.
        if_lem (λ (r : Services × Bool). Taken r.0) (not (is_empty a.node_hashes)) _ _ (λ _. h)
          (λ _. h))

get_url-Taken : (n : Network) (a : Services) → Taken a → IfSome Taken (get_url n a.add_plugins a)
unfolding get_url
get_url-Taken n a h =
    elim (Option-cases
      (fetch_hashes n a.add_plugins (if is_empty a.add_plugins then a.hash_map else []))) [
        | inl e ↦ rw (e, get_url, IfSome) tt
        | inr (m, e) ↦ rw (e, get_url, IfSome) h
      ]

ask_download-IsSettled : (b : Bool) (l : Loop) → IsSettled l → IsSettled (ask_download b l)
unfolding ask_download
ask_download-IsSettled false l h = h
ask_download-IsSettled true l h = if_lem IsSettled (l.download == 0) _ _ (λ _. h) (λ _. h)

receive_hashes-IsSettled :
    (res_hashes : List Bytes) (l : Loop) → IsSettled l → IsSettled (receive_hashes res_hashes l)
unfolding receive_hashes
receive_hashes-IsSettled res_hashes l h =
    if_lem IsSettled (is_empty (remove_key_from_slice res_hashes)) _ _ (λ _. h) (λ _. inl refl)

later :
    (l l' : Loop)
    → l'.sending ≡ l.sending
    → l'.watch ≡ l.watch
    → (Taken l.services → Taken l'.services)
    → IsSettled l
    → IsSettled l'
later l l' s w f (inl h) = inl (s ∙ h)
later l l' s w f (inr (inl h)) = inr (inl (rw w h))
later l l' s w f (inr (inr h)) = inr (inr (f h))

take_download-IsSettled :
    (n : Network) (left : ℕ) (l : Loop) → IsSettled l → IfSome IsSettled (take_download n left l)
unfolding take_download
take_download-IsSettled n left l h =
    elim (Option-cases (get_url n l.services.add_plugins l.services)) [
      | inl e ↦ rw (e, take_download, IfSome) tt
      | inr (a, e) ↦
          rw (e, take_download, IfSome)
            (later l (record l { services = a; download = left }) refl refl
              (λ t. subst (IfSome Taken) e (get_url-Taken n l.services t)) h)
    ]

Step-IsSettled : (n : Network) (l l' : Loop) → Step n l l' → IsSettled l → IsSettled l'
unfolding take_watch take_list
Step-IsSettled n l _ (received _ res_hashes e) h = receive_hashes-IsSettled res_hashes l h
Step-IsSettled n l _ (sent _ e w) h = inr (inl (omega arith))
Step-IsSettled n l _ (watched _ left e w) h =
    ask_download-IsSettled (on_watch l.services).1
      (record l { services = (on_watch l.services).0; watch = left })
      (inr (inr (on_watch-Taken l.services)))
Step-IsSettled n l _ (listed _ node_hashes local_hashes e) h =
    let r = on_list local_hashes (record l.services { node_hashes = node_hashes }) in
    ask_download-IsSettled r.1 (record l { services = r.0 })
      (later l (record l { services = r.0 }) refl refl
        (on_list-Taken local_hashes (record l.services { node_hashes = node_hashes })) h)
Step-IsSettled n l l' (downloaded _ _ left e d q) h =
    subst (IfSome IsSettled) q (take_download-IsSettled n left l h)

-- In each state that the two loops reach from one in which this is so, the hashes received last are,
-- as a set, those that ParseWatchPlugin took last, unless none were received or some are on their way.
pub Reach-IsSettled : (n : Network) (l l' : Loop) → Reach n l l' → IsSettled l → IsSettled l'
Reach-IsSettled n l l' here h = h
Reach-IsSettled n l l' (then_step r s) h = Step-IsSettled n _ l' s (Reach-IsSettled n l _ r h)
