-- ===== src/Agent/Loop/Stalled.antt =====
-- ParseWatchPlugin sends to a channel that only it reads.
use data_collection.Base.{
  ◌≡◌, refl, ap, ◌∙◌, subst, Bool, true, false, not, ◌||◌, List, arith, ◌==◌, if◌then◌else◌, Bytes,
}
use data_collection.Util.{remove_key_from_slice, difference_slice}
use data_collection.Agent.{Network, Services, is_empty, on_watch}
use data_collection.Agent.Loop.{
  Loop, ask_download, receive_hashes, take_watch, Step, received, sent, watched, listed, downloaded,
  Reach, here, then_step,
}
use data_collection.Agent.Loop.Settled.{if_lem}

-- the loop stands before its send, and the manager has been sent what it had been sent in `l`
abbrev pub Stands : Loop → Loop → Type 0
Stands l l' =
    (l'.stalled ≡ true)
    × (l'.services.updates ≡ l.services.updates)
    × (l'.services.deletions ≡ l.services.deletions)

Step-Stands : (n : Network) (l l1 l2 : Loop) → Step n l1 l2 → Stands l l1 → Stands l l2
unfolding receive_hashes
Step-Stands n l l1 _ (received _ res_hashes e) h =
    if_lem (Stands l) (is_empty (remove_key_from_slice res_hashes)) _ _ (λ _. h) (λ _. h)
Step-Stands n l l1 _ (sent _ e w) h = h
Step-Stands n l l1 _ (watched _ left e w) h = absurd (ground (arith, h))
Step-Stands n l l1 _ (listed _ node_hashes local_hashes e) h = absurd (ground (arith, h))
Step-Stands n l l1 l2 (downloaded _ _ left e d q) h = absurd (ground (arith, h))

Reach-Stands : (n : Network) (l l' : Loop) → Reach n l l' → l.stalled ≡ true → Stands l l'
Reach-Stands n l l' here h = (h, refl, refl)
Reach-Stands n l l' (then_step r s) h = Step-Stands n l _ l' s (Reach-Stands n l _ r h)

if_taken : {A : Type 0} (c : Bool) (x y : A) → c ≡ true → (if c then x else y) ≡ x
if_taken c x y q = rw q refl

if_left : {A : Type 0} (c : Bool) (x y : A) → c ≡ false → (if c then x else y) ≡ y
if_left c x y q = rw q refl

Reach-trans : (n : Network) (l1 l2 l3 : Loop) → Reach n l1 l2 → Reach n l2 l3 → Reach n l1 l3
Reach-trans n l1 l2 l3 r here = r
Reach-trans n l1 l2 l3 r (then_step q s) = then_step (Reach-trans n l1 l2 _ r q) s

-- new hashes on their way
abbrev with_hashes : List Bytes → Loop → Loop
with_hashes hashes l = record l {
  services = record l.services { receive_hashes = hashes };
  sending = false;
  watch = 1;
}

sent_hashes :
    (n : Network) (res_hashes : List Bytes) (l : Loop)
    → l.sending ≡ false
    → l.watch ≡ 0
    → is_empty (remove_key_from_slice res_hashes) ≡ false
    → Reach n l (with_hashes (remove_key_from_slice res_hashes) l)
unfolding receive_hashes
sent_hashes n res_hashes l s w e =
    let hashes = remove_key_from_slice res_hashes in
    let l1 : Loop = record l {
      services = record l.services { receive_hashes = hashes };
      sending = true;
    } in
    let entered : receive_hashes res_hashes l ≡ l1 = if_left (is_empty hashes) _ _ e in
    then_step (subst (Reach n l) entered (then_step here (received l res_hashes s)))
      (sent l1 refl w)

on_watch_first :
    (a : Services)
    → is_empty a.last_hashes ≡ true
    → is_empty a.receive_hashes ≡ false
    → on_watch a
      ≡ (record a { add_plugins = a.receive_hashes; last_hashes = a.receive_hashes }, true)
unfolding on_watch
on_watch_first a e r =
    if_left (not (is_empty a.last_hashes)) _ _ (rw e refl)
    ∙ if_taken (not (is_empty a.receive_hashes)) _ _ (rw r refl)

on_watch_next :
    (a : Services)
    → is_empty a.last_hashes ≡ false
    → (let (added, deleted) = difference_slice a.receive_hashes a.last_hashes in
        not (is_empty added) || not (is_empty deleted))
      ≡ true
    → on_watch a ≡ (
        let (added, deleted) = difference_slice a.receive_hashes a.last_hashes in
        (
          record a {
            add_plugins = added;
            delete_plugins = deleted;
            last_hashes = a.receive_hashes;
          },
          true,
        ))
unfolding on_watch
on_watch_next a e c =
    if_taken (not (is_empty a.last_hashes)) _ _ (rw e refl)
    ∙ (let (added, deleted) = difference_slice a.receive_hashes a.last_hashes in
        if_taken (not (is_empty added) || not (is_empty deleted)) _ _ c)

watch_asks :
    (l : Loop) (a : Services)
    → on_watch l.services ≡ (a, true)
    → take_watch 0 l ≡ ask_download true (record l { services = a; watch = 0 })
unfolding take_watch
watch_asks l a e =
    ap (λ (r : Services × Bool). ask_download r.1 (record l { services = r.0; watch = 0 })) e

ask_download_first : (l : Loop) → l.download ≡ 0 → ask_download true l ≡ record l { download = 1 }
unfolding ask_download
ask_download_first l e = if_taken (l.download == 0) _ _ (ap (λ x. x == 0) e)

ask_download_again : (l : Loop) → l.download ≡ 1 → ask_download true l ≡ record l { stalled = true }
unfolding ask_download
ask_download_again l e = if_left (l.download == 0) _ _ (ap (λ x. x == 0) e)

-- new hashes are received, and ParseWatchPlugin takes them and asks for a download
round :
    (n : Network) (res_hashes : List Bytes) (l l' : Loop) (a : Services)
    → l.sending ≡ false
    → l.watch ≡ 0
    → l.stalled ≡ false
    → is_empty (remove_key_from_slice res_hashes) ≡ false
    → on_watch (record l.services { receive_hashes = remove_key_from_slice res_hashes }) ≡ (a, true)
    → ask_download true (record l { services = a; sending = false; watch = 0 }) ≡ l'
    → Reach n l l'
round n res_hashes l l' a s w h e q asked =
    let p = with_hashes (remove_key_from_slice res_hashes) l in
    Reach-trans n l p l' (sent_hashes n res_hashes l s w e)
      (subst (Reach n p) (watch_asks p a q ∙ asked) (then_step here (watched p 0 h refl)))

-- Where the server sends hashes twice before ParseWatchPlugin takes the first download, and they are not
-- the same, the loop can come to stand before its send, and from then on, whatever happens, it
-- stands there, and the manager is sent nothing more. Conditions: nothing is on its way and no hashes were
-- taken yet, and neither list is empty but for empty hashes.
pub two_watches_stall :
    (n : Network) (l : Loop) (first second : List Bytes)
    → l.sending ≡ false
    → l.watch ≡ 0
    → l.download ≡ 0
    → l.stalled ≡ false
    → is_empty l.services.last_hashes ≡ true
    → is_empty (remove_key_from_slice first) ≡ false
    → is_empty (remove_key_from_slice second) ≡ false
    → (let (added, deleted) =
          difference_slice (remove_key_from_slice second) (remove_key_from_slice first) in
        not (is_empty added) || not (is_empty deleted))
      ≡ true
    → (l1 : Loop) × Reach n l l1 × ((l2 : Loop) → Reach n l1 l2 → Stands l l2)
two_watches_stall n l first second s w d h last e1 e2 changes =
    let hashes = remove_key_from_slice first in
    let (added, deleted) = difference_slice (remove_key_from_slice second) hashes in
    let a1 : Services = record l.services {
      receive_hashes = hashes;
      add_plugins = hashes;
      last_hashes = hashes;
    } in
    let p1 : Loop = record l { services = a1; sending = false; watch = 0; download = 1 } in
    let a2 : Services = record a1 {
      receive_hashes = remove_key_from_slice second;
      add_plugins = added;
      delete_plugins = deleted;
      last_hashes = remove_key_from_slice second;
    } in
    let p2 : Loop = record p1 { services = a2; stalled = true } in
    let r1 : Reach n l p1 =
      round n first l p1 a1 s w h e1
        (on_watch_first (record l.services { receive_hashes = hashes }) last e1)
        (ask_download_first (record l { services = a1; sending = false; watch = 0 }) d) in
    let r2 : Reach n p1 p2 =
      round n second p1 p2 a2 refl refl h e2
        (on_watch_next (record a1 { receive_hashes = remove_key_from_slice second }) e1 changes)
        (ask_download_again (record p1 { services = a2 }) refl) in
    (p2, Reach-trans n l p1 p2 r1 r2, λ l2 r. Reach-Stands n p2 l2 r refl)
