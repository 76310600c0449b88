-- ===== src/Executor/Blocked.antt =====
-- What happens after an update in which the code of a plugin does not run.
use data_collection.Base.{
  ℕ, ◌≡◌, refl, ap, ◌∙◌, Bool, true, false, Option, none, some, [], ◌∷◌, arith, Bytes, Assoc,
  Outcome, ok, err, panic,
}
use data_collection.Plugin.{PluginError, LuaPlugin}
use data_collection.Manager.{PluginSet, update_plugins, remove_update_cache}
use data_collection.Manager.Update.{update_plugins_keeps_running}
use data_collection.Config.Marking.{
  Json, Settings, try_update_config, parse_plugin_marking, parse_plugin_config,
}
use data_collection.Config.Marking.Again.{try_update_config-Keeps}
use data_collection.Executor.{Shared, after_loading, handle_update}
use data_collection.Executor.Held.{holds, mark_each-holds, parse_plugin_config-holds}
use data_collection.Executor.Failing.{is_ok, update_plugins-fails}

-- a handler has ended with a signal for the executor
abbrev pub sends : Outcome Unit (Option ℕ) → Bool
sends (ok (some n)) = true
sends (ok none) = false
sends (err x) = false
sends panic = false

module _ (do_string : Bytes → Option PluginError) (text : Bytes) (e : PluginError)
    (broken : do_string text ≡ some e) where
  after_loading-fails :
      {Doc : Type 0} (r : Outcome PluginError Unit) (s : Shared Doc) (running : PluginSet LuaPlugin)
      → is_ok r ≡ false
      → s.manager.running ≡ running
      → (remove_update_cache s.manager).running ≡ running
      → (sends (after_loading r s).0 ≡ false)
        × ((after_loading r s).1.manager.running ≡ running)
        × ((after_loading r s).1.settings ≡ s.settings)
  unfolding after_loading
  after_loading-fails (ok x) s running h k l = absurd (ground arith)
  after_loading-fails (err x) s running h k l = (refl, l, refl)
  after_loading-fails panic s running h k l = (refl, k, refl)

  -- As long as the updates hold a plugin whose code does not run, update sends no signal and changes no
  -- running plugin, whatever the hash map holds; and the updates hold that plugin afterwards too, so this
  -- is so for every later update.
  pub update_blocked :
      (json : Json) (hash_map : Assoc Bytes Bytes) (s : Shared json.Doc)
      → holds text s.settings.part.update ≡ true
      → let (r, s') = handle_update json do_string hash_map s in
        (sends r ≡ false)
        × (s'.manager.running ≡ s.manager.running)
        × (holds text s'.settings.part.update ≡ true)
  unfolding handle_update
  update_blocked json hash_map s h =
      let (c, cache) = parse_plugin_marking json hash_map s.settings in
      let updates = parse_plugin_config json c.interval c.obj c.plugin_category c.part.update in
      let c' : Settings json.Doc = record c { part = record c.part { update = updates } } in
      let (r, m) = update_plugins do_string updates s.manager in
      let first = try_update_config json hash_map s.settings in
      let kept : holds text first.part.update ≡ true =
        ap (holds text) (try_update_config-Keeps json hash_map s.settings).update ∙ h in
      let marked : holds text c.part.update ≡ true =
        mark_each-holds text first.plugin_marking hash_map first.part kept in
      let inserted : holds text updates ≡ true =
        parse_plugin_config-holds text json c.interval c.obj c.plugin_category c.part.update
        ∙ marked in
      let run = update_plugins_keeps_running do_string updates s.manager in
      let (sent, same_running, same_settings) =
        after_loading-fails r (record { manager = m; settings = c' }) s.manager.running
          (update_plugins-fails do_string text e broken updates s.manager inserted) run.0 run.2 in
      elim cache
        as (λ l.
          let o = elim l as (λ _. Outcome Unit (Option ℕ) × Shared json.Doc) [
            | [] ↦ (ok none, record s { settings = c })
            | conf ∷ confs ↦ after_loading r (record { manager = m; settings = c' })
          ] in
          (sends o.0 ≡ false)
          × (o.1.manager.running ≡ s.manager.running)
          × (holds text o.1.settings.part.update ≡ true)) [
            | [] ↦ (refl, refl, marked)
            | conf ∷ confs ↦ (
              sent,
              same_running,
              ap (λ (x : Settings json.Doc). holds text x.part.update) same_settings ∙ inserted,
            )
          ]
