-- ===== src/Executor/Handshake.antt =====
-- manager/lua_manager.go's Receive and notify and executor/executor.go's Execute as two loops: they share
-- the manager and the configuration, and two channels of one element decide who may change them.
use data_collection.Base.{
  IfSome, ℕ, ◌<◌, ◌≡◌, refl, ap, ◌∙◌, subst, Bool, true, false, Option, none, some, List, [], ◌∷◌,
  ◌++◌, arith, ℤ, Bytes, Assoc, Outcome, ok, err, panic,
}
use data_collection.Plugin.{PluginError}
use data_collection.Manager.{LuaPluginManager, empty_set}
use data_collection.Config.Marking.{Json}
use data_collection.Executor.{Lua, Shared, handle_update, handle_remove, take_signal, once_execute}
use data_collection.Executor.Signals.{
  IsClear, Left, handle_update-Left, take_signal-IsClear, take_signal_one-IsClear,
  once_execute-update,
}

-- `waiting` tells whether the manager stands in notify.
pub record Loops (Doc : Type 0) : Type 0 where
  pub shared : Shared Doc
  pub ready : List ℕ
  pub finish : List Bool
  pub waiting : Bool

-- a handler has ended with or without a signal
abbrev pub notified : {Doc : Type 0} → Option ℕ → Shared Doc → Loops Doc → Loops Doc
notified none s l = record l { shared = s }
notified (some signal) s l = record l { shared = s; ready = l.ready ++ signal ∷ []; waiting = true }

-- where the two loops stand
pub data Mode {Doc : Type 0} (l : Loops Doc) : Type 0 where
  idle : l.waiting ≡ false → l.ready ≡ [] → l.finish ≡ [] → IsClear l.shared → Mode l
  to_replace :
      l.waiting ≡ true
      → l.ready ≡ 0 ∷ []
      → l.finish ≡ []
      → l.shared.settings.part.removal ≡ empty_set
      → Mode l
  to_remove :
      l.waiting ≡ true
      → l.ready ≡ 1 ∷ []
      → l.finish ≡ []
      → l.shared.manager.update ≡ empty_set
      → Mode l
  changed : l.waiting ≡ true → l.ready ≡ [] → l.finish ≡ true ∷ [] → IsClear l.shared → Mode l

module _ (json : Json) (do_string : Bytes → Option PluginError) (Box : Type 0) where
  -- A step of one of the loops; a handler that panics ends the program and has no step.
  pub data Step : Loops json.Doc → Loops json.Doc → Type 0 where
    updated :
        (l : Loops json.Doc) (hash_map : Assoc Bytes Bytes) (signal : Option ℕ)
        (s : Shared json.Doc)
        → l.waiting ≡ false
        → handle_update json do_string hash_map l.shared ≡ (ok signal, s)
        → Step l (notified signal s l)
    removed :
        (l : Loops json.Doc) (hash_list : List Bytes) (signal : Option ℕ) (s : Shared json.Doc)
        → l.waiting ≡ false
        → handle_remove json do_string hash_list l.shared ≡ (ok signal, s)
        → Step l (notified signal s l)
    answered :
        (l : Loops json.Doc) (signal : ℕ) (rest : List ℕ) (s : Shared json.Doc)
        → signal < 2
        → l.ready ≡ signal ∷ rest
        → take_signal json do_string signal l.shared ≡ some s
        → Step l (record l { shared = s; ready = rest; finish = l.finish ++ true ∷ [] })
    finished :
        (l : Loops json.Doc) (b : Bool) (rest : List Bool)
        → l.waiting ≡ true
        → l.finish ≡ b ∷ rest
        → Step l (record l { finish = rest; waiting = false })
    ticked :
        (l : Loops json.Doc) (lua : Lua Box) (time_range : ℤ × ℤ) (box box' : Box)
        (m : LuaPluginManager) (errors : List PluginError)
        → once_execute lua l.shared.settings.interval l.shared.settings.plugin_category time_range
            l.shared.manager box
          ≡ some (m, errors, box')
        → Step l (record l { shared = record l.shared { manager = m } })

  notified-Mode :
      (l : Loops json.Doc) (signal : Option ℕ) (s : Shared json.Doc)
      → l.waiting ≡ false
      → l.ready ≡ []
      → l.finish ≡ []
      → l.shared.settings.part.removal ≡ empty_set
      → Left json do_string Box l.shared.settings.part.removal (ok signal, s)
      → Mode (notified signal s l)
  notified-Mode l none s w r f h (e, u) = idle w r f (u, e ∙ h)
  notified-Mode l (some n) s w r f h (e, z) =
      to_replace refl (ap (λ (x : List ℕ). x ++ n ∷ []) r ∙ ap (λ x. x ∷ []) z) f (e ∙ h)

  updated-Mode :
      (l : Loops json.Doc) (hash_map : Assoc Bytes Bytes) (signal : Option ℕ) (s : Shared json.Doc)
      → l.waiting ≡ false
      → handle_update json do_string hash_map l.shared ≡ (ok signal, s)
      → Mode l
      → Mode (notified signal s l)
  updated-Mode l hash_map signal s w e (idle w' r f (u, h)) = notified-Mode l signal s w r f h (
      subst (Left json do_string Box l.shared.settings.part.removal) e
        (handle_update-Left json do_string Box hash_map l.shared u))
  updated-Mode l hash_map signal s w e (to_replace w' r f h) = absurd (ground arith)
  updated-Mode l hash_map signal s w e (to_remove w' r f h) = absurd (ground arith)
  updated-Mode l hash_map signal s w e (changed w' r f h) = absurd (ground arith)

  abbrev Then : Loops json.Doc → Outcome Unit (Option ℕ) × Shared json.Doc → Type 0
  Then l (ok signal, s) = Mode (notified signal s l)
  Then l (err e, s) = Unit
  Then l (panic, s) = Unit

  removed-Mode :
      (l : Loops json.Doc) (hash_list : List Bytes) (signal : Option ℕ) (s : Shared json.Doc)
      → l.waiting ≡ false
      → handle_remove json do_string hash_list l.shared ≡ (ok signal, s)
      → Mode l
      → Mode (notified signal s l)
  unfolding handle_remove
  removed-Mode l hash_list signal s w e (idle w' r f (u, h)) =
      subst (Then l) e (to_remove refl (ap (λ (x : List ℕ). x ++ 1 ∷ []) r) f u)
  removed-Mode l hash_list signal s w e (to_replace w' r f h) = absurd (ground arith)
  removed-Mode l hash_list signal s w e (to_remove w' r f h) = absurd (ground arith)
  removed-Mode l hash_list signal s w e (changed w' r f h) = absurd (ground arith)

  answered-changed :
      (l : Loops json.Doc) (signal : ℕ) (rest : List ℕ) (s : Shared json.Doc) (n : ℕ)
      → l.waiting ≡ true
      → l.ready ≡ n ∷ []
      → l.finish ≡ []
      → l.ready ≡ signal ∷ rest
      → take_signal json do_string signal l.shared ≡ some s
      → IfSome (λ (s' : Shared json.Doc). IsClear s') (take_signal json do_string n l.shared)
      → Mode (record l { shared = s; ready = rest; finish = l.finish ++ true ∷ [] })
  answered-changed l signal rest s n w r f e t clear =
      let z : signal ≡ n = ground arith in
      let empty : rest ≡ [] = ground arith in
      let t' = subst (λ x. take_signal json do_string x l.shared ≡ some s) z t in
      changed w empty (ap (λ (x : List Bool). x ++ true ∷ []) f)
        (subst (λ o. IfSome (λ (s' : Shared json.Doc). IsClear s') o) t' clear)

  answered-Mode :
      (l : Loops json.Doc) (signal : ℕ) (rest : List ℕ) (s : Shared json.Doc)
      → l.ready ≡ signal ∷ rest
      → take_signal json do_string signal l.shared ≡ some s
      → Mode l
      → Mode (record l { shared = s; ready = rest; finish = l.finish ++ true ∷ [] })
  answered-Mode l signal rest s e t (idle w r f h) = absurd (ground arith)
  answered-Mode l signal rest s e t (to_replace w r f h) =
      answered-changed l signal rest s 0 w r f e t
        (take_signal-IsClear json do_string Box l.shared h)
  answered-Mode l signal rest s e t (to_remove w r f h) =
      answered-changed l signal rest s 1 w r f e t
        (take_signal_one-IsClear json do_string Box l.shared h)
  answered-Mode l signal rest s e t (changed w r f h) = absurd (ground arith)

  finished-Mode :
      (l : Loops json.Doc) (b : Bool) (rest : List Bool)
      → l.waiting ≡ true
      → l.finish ≡ b ∷ rest
      → Mode l
      → Mode (record l { finish = rest; waiting = false })
  finished-Mode l b rest w e (idle w' r f h) = absurd (ground arith)
  finished-Mode l b rest w e (to_replace w' r f h) = absurd (ground arith)
  finished-Mode l b rest w e (to_remove w' r f h) = absurd (ground arith)
  finished-Mode l b rest w e (changed w' r f h) = idle refl r (ground arith) h

  ticked-Mode :
      (l : Loops json.Doc) (m : LuaPluginManager)
      → m.update ≡ l.shared.manager.update
      → Mode l
      → Mode (record l { shared = record l.shared { manager = m } })
  ticked-Mode l m e (idle w r f (u, h)) = idle w r f (e ∙ u, h)
  ticked-Mode l m e (to_replace w r f h) = to_replace w r f h
  ticked-Mode l m e (to_remove w r f u) = to_remove w r f (e ∙ u)
  ticked-Mode l m e (changed w r f (u, h)) = changed w r f (e ∙ u, h)

  Step-Mode : {l l' : Loops json.Doc} → Step l l' → Mode l → Mode l'
  Step-Mode (updated l hash_map signal s w e) mode = updated-Mode l hash_map signal s w e mode
  Step-Mode (removed l hash_list signal s w e) mode = removed-Mode l hash_list signal s w e mode
  Step-Mode (answered l signal rest s b e t) mode = answered-Mode l signal rest s e t mode
  Step-Mode (finished l b rest w e) mode = finished-Mode l b rest w e mode
  Step-Mode (ticked l lua range box box' m errors e) mode =
      ticked-Mode l m
        (subst
          (IfSome (λ (r : LuaPluginManager × List PluginError × Box).
            r.0.update ≡ l.shared.manager.update))
          e
          (once_execute-update json do_string Box lua l.shared.settings.interval
            l.shared.settings.plugin_category range l.shared.manager box))
        mode

  -- from a manager without updates and a configuration without deletions
  pub data Reach : Loops json.Doc → Type 0 where
    begin :
        (s : Shared json.Doc)
        → IsClear s
        → Reach (record { shared = s; ready = []; finish = []; waiting = false })
    next : {l l' : Loops json.Doc} → Reach l → Step l l' → Reach l'

  -- In every order of the steps of both loops: outside of notify both channels are empty and nothing is
  -- left to replace or to remove; in notify exactly one of the channels holds one message, and a removal
  -- never meets plugins to update, nor a replacement configurations to delete.
  pub Reach-Mode : {l : Loops json.Doc} → Reach l → Mode l
  Reach-Mode (begin s h) = idle refl refl refl h
  Reach-Mode (next r st) = Step-Mode st (Reach-Mode r)
