-- ===== src/Manager/Update.antt =====
-- What an update that fails leaves behind in the manager and in the pool of Lua states.
use data_collection.Base.{
  ◌≡◌, refl, ◌∙◌, inl, inr, true, Option, List, [], ◌∷◌, Option-cases, Bytes, Outcome, ok, err,
  panic, Exec, continue, ◌>>=◌, ◌>>◌,
}
use data_collection.Plugin.{PluginConfig, PluginError, LuaPlugin}
use data_collection.Manager.{
  PluginSet, LuaPluginManager, close_plugin, close, close_each, close_set, place, put_plugin,
  on_pool, load, load_each, load_set, update_plugins, remove_update_cache, empty_set,
}

-- a step that leaves the running plugins and the closed states as they are
abbrev Quiet : {A : Type 0} → Exec LuaPluginManager PluginError A → Type 0
Quiet f = (m : LuaPluginManager) → ((f m).1.running ≡ m.running) × ((f m).1.closed ≡ m.closed)

Quiet-bind :
    {A B : Type 0} (f : Exec LuaPluginManager PluginError A)
    (g : A → Exec LuaPluginManager PluginError B)
    → Quiet f
    → ((a : A) → Quiet (g a))
    → Quiet (f >>= g)
Quiet-bind {A = A} f g p q m = after (f m).0 (f m).1 (p m).0 (p m).1
  where
    after :
        (r : Outcome PluginError A) (m' : LuaPluginManager)
        → m'.running ≡ m.running
        → m'.closed ≡ m.closed
        → ((continue r g m').1.running ≡ m.running) × ((continue r g m').1.closed ≡ m.closed)
    after (ok a) m' e c = ((q a m').0 ∙ e, (q a m').1 ∙ c)
    after (err x) m' e c = (e, c)
    after panic m' e c = (e, c)

put_plugin-Quiet : (category : Bytes) (p : LuaPlugin) → Quiet (put_plugin category true p)
unfolding put_plugin
put_plugin-Quiet category p m = elim (Option-cases (place category p m.update)) [
  | inl e ↦ rw (e, put_plugin) (refl, refl)
  | inr (s, e) ↦ rw (e, put_plugin) (refl, refl)
]

Quiet-then : (f g : Exec LuaPluginManager PluginError Unit) → Quiet f → Quiet g → Quiet (f >> g)
Quiet-then f g p q = Quiet-bind f (λ _. g) p (λ _. q)

module _ (do_string : Bytes → Option PluginError) where
  on_pool-Quiet : (conf : PluginConfig) → Quiet (on_pool do_string conf)
  unfolding on_pool
  on_pool-Quiet conf m = (refl, refl)

  load-Quiet : (conf : PluginConfig) → Quiet (load do_string conf true)
  unfolding load
  load-Quiet conf =
      Quiet-bind (on_pool do_string conf) (put_plugin conf.category true) (on_pool-Quiet conf)
        (put_plugin-Quiet conf.category)

  load_each-Quiet : (confs : List PluginConfig) → Quiet (load_each do_string true confs)
  unfolding load_each
  load_each-Quiet [] = λ m. (refl, refl)
  load_each-Quiet (conf ∷ confs) =
      Quiet-then (load do_string conf true) (load_each do_string true confs) (load-Quiet conf)
        (load_each-Quiet confs)

  update_plugins-Quiet : (s : PluginSet PluginConfig) → Quiet (update_plugins do_string s)
  unfolding update_plugins load_set
  update_plugins-Quiet s =
      let l = load_each do_string true in
      Quiet-then (l s.inputs >> l s.processors >> l s.aggregators) (l s.outputs)
        (Quiet-then (l s.inputs >> l s.processors) (l s.aggregators)
          (Quiet-then (l s.inputs) (l s.processors) (load_each-Quiet s.inputs)
            (load_each-Quiet s.processors))
          (load_each-Quiet s.aggregators))
        (load_each-Quiet s.outputs)

close_each-running :
    (ps : List LuaPlugin) (m : LuaPluginManager) → (close_each ps m).running ≡ m.running
unfolding close_each close close_plugin
close_each-running [] m = refl
close_each-running (p ∷ ps) m = close_each-running ps (close p m)

close_set-running :
    (s : PluginSet LuaPlugin) (m : LuaPluginManager) → (close_set s m).running ≡ m.running
unfolding close_set
close_set-running s m =
    close_each-running s.outputs _
    ∙ close_each-running s.aggregators _
    ∙ close_each-running s.processors _
    ∙ close_each-running s.inputs m

-- Whatever the configurations are and whether loading them succeeds, fails or panics, neither
-- updatePlugins nor the removal of the update cache after it changes the plugins that run, updatePlugins
-- closes no Lua state, and the removal leaves no plugin to update.
pub update_plugins_keeps_running :
    (do_string : Bytes → Option PluginError) (s : PluginSet PluginConfig) (m : LuaPluginManager)
    → let m' = (update_plugins do_string s m).1 in
      (m'.running ≡ m.running)
      × (m'.closed ≡ m.closed)
      × ((remove_update_cache m').running ≡ m.running)
      × ((remove_update_cache m').update ≡ empty_set)
unfolding remove_update_cache
update_plugins_keeps_running do_string s m =
    let m' = (update_plugins do_string s m).1 in
    let (r, c) = update_plugins-Quiet do_string s m in
    (r, c, close_set-running m'.update m' ∙ r, refl)
