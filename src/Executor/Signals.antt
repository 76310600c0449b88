-- ===== src/Executor/Signals.antt =====
-- What the handlers of the manager and the executor's answers leave behind, for the handshake.
use data_collection.Base.{
  ℕ, ◌≡◌, refl, ◌∙◌, subst, inl, inr, not, ◌&&◌, Option, none, some, List, [], ◌∷◌, arith,
  Bool-cases, length, ℤ, Bytes, Assoc, Outcome, ok, err, panic, IfSome,
}
use data_collection.Plugin.{PluginError, PluginConfig}
use data_collection.Manager.{
  PluginSet, LuaPluginManager, empty_set, replace_list, update_plugins, remove_update_cache,
  replace_running_plugin, remove_running_plugin, deletes,
}
use data_collection.Manager.Removal.{◌>>?◌, remove_matching}
use data_collection.Config.{Config, compare_hash, replace_running_config, remove_delete_config}
use data_collection.Config.Marking.{
  Json, Settings, mark_one, mark_each, try_update_config, parse_plugin_marking, parse_plugin_config,
  parse_global_config,
}
use data_collection.Config.Marking.Again.{try_update_config-Keeps}
use data_collection.Executor.{
  Lua, Shared, after_loading, handle_update, take_signal, once_execute, once_execute_all, any_due,
  timeout, is_positive,
}

abbrev pub IsClear : {Doc : Type 0} → Shared Doc → Type 0
IsClear s = (s.manager.update ≡ empty_set) × (s.settings.part.removal ≡ empty_set)

IfSome-bind :
    {A B : Type 0} (P : B → Type 0) (o : Option A) (f : A → Option B)
    → ((a : A) → IfSome P (f a))
    → IfSome P (o >>? f)
IfSome-bind P none f h = tt
IfSome-bind P (some a) f h = h a

IfSome-map :
    {A B : Type 0} (Q : A → Type 0) (P : B → Type 0) (o : Option A) (g : A → B)
    → IfSome Q o
    → ((a : A) → Q a → P (g a))
    → IfSome P (o >>? λ a. some (g a))
IfSome-map Q P none g q h = tt
IfSome-map Q P (some a) g q h = h a q

replace_running_plugin-update :
    (m : LuaPluginManager)
    → IfSome (λ (m' : LuaPluginManager). m'.update ≡ empty_set) (replace_running_plugin m)
unfolding replace_running_plugin
replace_running_plugin-update m =
    let P : LuaPluginManager → Type 0 = λ m'. m'.update ≡ empty_set in
    IfSome-bind P (replace_list m.update.inputs m.running.inputs) _ (λ a.
      IfSome-bind P (replace_list m.update.processors m.running.processors) _ (λ b.
        IfSome-bind P (replace_list m.update.aggregators m.running.aggregators) _
          (λ c. IfSome-bind P (replace_list m.update.outputs m.running.outputs) _ (λ d. refl))))

remove_running_plugin-update :
    (c : PluginSet PluginConfig) (m : LuaPluginManager)
    → IfSome (λ (m' : LuaPluginManager). m'.update ≡ m.update) (remove_running_plugin c m)
unfolding remove_running_plugin
remove_running_plugin-update s m =
    let P : LuaPluginManager → Type 0 = λ m'. m'.update ≡ m.update in
    IfSome-bind P (remove_matching deletes s.inputs m.running.inputs) _ (λ a.
      IfSome-bind P (remove_matching deletes s.processors m.running.processors) _ (λ b.
        IfSome-bind P (remove_matching deletes s.aggregators m.running.aggregators) _
          (λ c. IfSome-bind P (remove_matching deletes s.outputs m.running.outputs) _ (λ d. refl))))

mark_each-removal :
    (mark : Bytes) (m : Assoc Bytes Bytes) (c : Config) → (mark_each mark m c).0.removal ≡ c.removal
unfolding mark_each mark_one compare_hash
mark_each-removal mark [] c = refl
mark_each-removal mark ((hash, source) ∷ m) c =
    mark_each-removal mark m (mark_one mark hash source c).0 ∙ ground arith

module _ (json : Json) (do_string : Bytes → Option PluginError) (Box : Type 0) where
  -- what handle_update leaves behind, by its outcome
  abbrev pub Left : PluginSet PluginConfig → Outcome Unit (Option ℕ) × Shared json.Doc → Type 0
  Left removal (ok none, s) = (s.settings.part.removal ≡ removal) × (s.manager.update ≡ empty_set)
  Left removal (ok (some n), s) = (s.settings.part.removal ≡ removal) × (n ≡ 0)
  Left removal (err e, s) = Unit
  Left removal (panic, s) = Unit

  after_loading-Left :
      (r : Outcome PluginError Unit) (s : Shared json.Doc)
      → Left s.settings.part.removal (after_loading r s)
  unfolding after_loading remove_update_cache
  after_loading-Left (ok x) s = (refl, refl)
  after_loading-Left (err e) s = (refl, refl)
  after_loading-Left panic s = tt

  pub handle_update-Left :
      (hash_map : Assoc Bytes Bytes) (s : Shared json.Doc)
      → s.manager.update ≡ empty_set
      → Left s.settings.part.removal (handle_update json do_string hash_map s)
  unfolding handle_update parse_plugin_marking
  handle_update-Left hash_map s h =
      let (c, cache) = parse_plugin_marking json hash_map s.settings in
      let updates = parse_plugin_config json c.interval c.obj c.plugin_category c.part.update in
      let c' : Settings json.Doc = record c { part = record c.part { update = updates } } in
      let (r, m) = update_plugins do_string updates s.manager in
      let first = try_update_config json hash_map s.settings in
      let stays : c.part.removal ≡ s.settings.part.removal =
        mark_each-removal first.plugin_marking hash_map first.part
        ∙ (try_update_config-Keeps json hash_map s.settings).removal in
      elim cache
        as (λ l. Left s.settings.part.removal (elim l [
          | [] ↦ (ok none, record s { settings = c })
          | conf ∷ confs ↦ after_loading r (record { manager = m; settings = c' })
        ])) [
          | [] ↦ (stays, h)
          | conf ∷ confs ↦
              subst (λ x. Left x (after_loading r (record { manager = m; settings = c' }))) stays
                (after_loading-Left r (record { manager = m; settings = c' }))
        ]

  pub take_signal-IsClear :
      (s : Shared json.Doc)
      → s.settings.part.removal ≡ empty_set
      → IfSome (λ (s' : Shared json.Doc). IsClear s') (take_signal json do_string 0 s)
  unfolding take_signal replace_running_config parse_global_config
  take_signal-IsClear s h =
      IfSome-map (λ (m : LuaPluginManager). m.update ≡ empty_set)
        (λ (s' : Shared json.Doc). IsClear s') (replace_running_plugin s.manager) _
        (replace_running_plugin-update s.manager) (λ m e. (e, h))

  pub take_signal_one-IsClear :
      (s : Shared json.Doc)
      → s.manager.update ≡ empty_set
      → IfSome (λ (s' : Shared json.Doc). IsClear s') (take_signal json do_string 1 s)
  unfolding take_signal remove_delete_config
  take_signal_one-IsClear s h =
      IfSome-map (λ (m : LuaPluginManager). m.update ≡ s.manager.update)
        (λ (s' : Shared json.Doc). IsClear s')
        (remove_running_plugin s.settings.part.removal s.manager) _
        (remove_running_plugin-update s.settings.part.removal s.manager) (λ m e. (e ∙ h, refl))

  pub once_execute-update :
      (lua : Lua Box) (interval : ℤ) (categories : List Bytes) (range : ℤ × ℤ)
      (m : LuaPluginManager) (box : Box)
      → IfSome
          (λ (r : LuaPluginManager × List PluginError × Box). r.0.update ≡ m.update)
          (once_execute lua interval categories range m box)
  unfolding once_execute once_execute_all
  once_execute-update lua interval [] range m box = tt
  once_execute-update lua interval (c ∷ cs) (start, end) m box =
      elim (Bool-cases
        (any_due m.running.inputs && not (is_positive (timeout interval (length (c ∷ cs)))))) [
          | inl e ↦ rw e tt
          | inr e ↦ rw e refl
        ]
