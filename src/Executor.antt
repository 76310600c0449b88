-- ===== src/Executor.antt =====
-- executor/executor.go, executor/tick.go, and the handlers of manager/lua_manager.go that it answers: one
-- round of all plugins, the times of a round, and the handshake by which the running plugins change. What
-- a Lua function does is a parameter; writing and removing plugin files, locks and logging are left out.
pub mod Round
pub mod Ticks
pub mod Signals
pub mod Handshake
pub mod Returns
pub mod Held
pub mod Failing
pub mod Blocked
use data_collection.Base.{
  ℕ, zero, suc, ◌+◌, ◌-◌, ◌*◌, ◌/◌, ◌%◌, ◌^◌, ◌≤◌, ◌<◌, ◌≡◌, refl, sym, ap, ◌∙◌, subst, ◌≢◌, ◌↔◌,
  ◌⊎◌, inl, inr, ite, if_pos, if_neg, Bool, true, false, not, ◌&&◌, ◌||◌, Option, none, some, List,
  [], ◌∷◌, ◌++◌, map, append-nil, append_assoc, arith, ℕ_discrete, ltb, leb, ltb→lt, leb→le, ◌==◌,
  if◌then◌else◌, Bool-cases, Option-cases, length, get_elem?, take, drop, keep, length-append,
  take-append, drop-append, length-keep-le, keep-append, keep-keep, All, ℤ, pos, negsuc, ℤ_discrete,
  pos_part, neg_part, ◌+ℤ◌, ◌-ℤ◌, ◌≤ℤ◌, ◌<ℤ◌, ltb_ℤ, leb_ℤ, eq_of_parts, Bytes, bytes_discrete,
  codes, Assoc, is_some, keys, same, same_self, contains, contains-keep, lookup, insert, delete,
  delete_all, Distinct, lookup-insert, lookup-insert_self, lookup-delete, lookup-delete_all,
  contains-keys, lookup-delete_kept, insert-Distinct, delete-Distinct, delete_all-Distinct, Outcome,
  ok, err, panic, Exec, pure, fail, crash, gets, attempt, continue, ◌>>=◌, ◌>>◌, modify,
}
use data_collection.Plugin.{
  PluginConfig, PluginError, LuaPlugin, count_call, collect, dispose, converge, write,
}
use data_collection.Manager.{
  PluginSet, LuaPluginManager, update_plugins, remove_update_cache, replace_running_plugin,
  remove_running_plugin,
}
use data_collection.Manager.Removal.{◌>>?◌}
use data_collection.Config.{Config, checkout_config, replace_running_config, remove_delete_config}
use data_collection.Config.Marking.{
  Json, Settings, parse_plugin_marking, parse_plugin_config, parse_global_config,
}

-- `Box` is the state of the data box. A Lua function reads and writes it and returns an error or none.
pub record Lua (Box : Type 0) : Type 0 where
  pub collect_lua : LuaPlugin → Box → Option PluginError × Box
  pub run_lua : ℤ → ℤ → LuaPlugin → Box → Option PluginError × Box

abbrev pub logged : Option PluginError → List PluginError → List PluginError
logged none errors = errors
logged (some e) errors = e ∷ errors

-- Interval / int64(n), towards 0
unfoldable pub timeout : ℤ → ℕ → ℤ
unfolding ◌-ℤ◌
timeout (pos i) n = pos (i / n)
timeout (negsuc i) n = pos 0 -ℤ pos (suc i / n)

-- time.Second * t > 0, where the product wraps in int64
unfoldable pub is_positive : ℤ → Bool
is_positive (pos t) = let r = t * 1000000000 % 2 ^ 64 in ltb 0 r && ltb r (2 ^ 63)
is_positive (negsuc t) = ltb (2 ^ 63) (suc t * 1000000000 % 2 ^ 64)

-- an input's Collect comes as far as the ticker
unfoldable pub any_due : List LuaPlugin → Bool
unfolding count_call
any_due [] = false
any_due (p ∷ ps) = (count_call p).1 || any_due ps

module _ {Box : Type 0} where
  -- a loop of onceExecute and of firstCollect: the plugins afterwards, the errors in order, the data box
  unfoldable pub collect_each :
      Lua Box → List LuaPlugin → Box → List LuaPlugin × List PluginError × Box
  unfolding collect count_call
  collect_each lua [] box = ([], [], box)
  collect_each lua (p ∷ ps) box =
      let (answer, touched) = lua.collect_lua p box in
      let (p', error) = collect answer p in
      let (ps', errors, box') = collect_each lua ps (if (count_call p).1 then touched else box) in
      (p' ∷ ps', logged error errors, box')

  -- `run` is Dispose, Converge or Write
  unfoldable pub run_each :
      ((ℤ → ℤ → Option PluginError) → List ℤ → LuaPlugin → LuaPlugin × Option PluginError)
      → Lua Box
      → ℤ
      → ℤ
      → List LuaPlugin
      → Box
      → List LuaPlugin × List PluginError × Box
  unfolding count_call
  run_each run lua start end [] box = ([], [], box)
  run_each run lua start end (p ∷ ps) box =
      let touched = (lua.run_lua start end p box).1 in
      let (p', error) = run (λ a b. (lua.run_lua a b p box).0) (start ∷ end ∷ []) p in
      let (ps', errors, box') =
        run_each run lua start end ps (if (count_call p).1 then touched else box) in
      (p' ∷ ps', logged error errors, box')

  -- the four loops
  unfoldable pub once_execute_all :
      Lua Box → ℤ → ℤ → LuaPluginManager → Box → Option (LuaPluginManager × List PluginError × Box)
  unfolding collect_each run_each dispose converge write
  once_execute_all lua start end m box =
      let (inputs, e1, box1) = collect_each lua m.running.inputs box in
      let (processors, e2, box2) = run_each dispose lua start end m.running.processors box1 in
      let (aggregators, e3, box3) = run_each converge lua start end m.running.aggregators box2 in
      let (outputs, e4, box4) = run_each write lua start end m.running.outputs box3 in
      let running : PluginSet LuaPlugin = record {
        inputs = inputs;
        processors = processors;
        aggregators = aggregators;
        outputs = outputs;
      } in
      some (record m { running = running }, e1 ++ e2 ++ e3 ++ e4, box4)

  -- None where the program ends: by a division by zero, or by the panic of time.NewTicker in the
  -- goroutine of an input that is due. A Lua function that does not return is left out.
  unfoldable pub once_execute :
      Lua Box
      → ℤ
      → List Bytes
      → ℤ × ℤ
      → LuaPluginManager
      → Box
      → Option (LuaPluginManager × List PluginError × Box)
  unfolding once_execute_all any_due timeout is_positive
  once_execute lua interval [] time_range m box = none
  once_execute lua interval (category ∷ categories) (start, end) m box =
      if any_due m.running.inputs
        && not (is_positive (timeout interval (length (category ∷ categories))))
      then none
      else once_execute_all lua start end m box

  unfoldable pub first_collect :
      Lua Box
      → ℤ
      → List Bytes
      → LuaPluginManager
      → Box
      → Option (LuaPluginManager × List PluginError × Box)
  unfolding collect_each any_due timeout is_positive
  first_collect lua interval [] m box = none
  first_collect lua interval (category ∷ categories) m box =
      let (inputs, errors, box') = collect_each lua m.running.inputs box in
      if any_due m.running.inputs
        && not (is_positive (timeout interval (length (category ∷ categories))))
      then none
      else some (record m { running = record m.running { inputs = inputs } }, errors, box')

-- seconds from the year 1 to 1970
abbrev pub unix_epoch : ℕ
unix_epoch = 62135596800

-- Time.Truncate of a time in seconds from the year 1; an interval that is not positive changes nothing
unfoldable pub truncate : ℕ → ℤ → ℕ
truncate now (negsuc n) = now
truncate now (pos zero) = now
truncate now (pos (suc n)) = now - now % suc n

abbrev pub unix : ℕ → ℤ
unix t = pos t -ℤ pos unix_epoch

-- the nanoseconds of the interval fit into an int64
unfoldable pub fits : ℤ → Bool
fits (pos n) = ltb (n * 1000000000) (2 ^ 63)
fits (negsuc n) = leb (suc n * 1000000000) (2 ^ 63)

-- none where time.Second * time.Duration(interval) wraps, which is not followed further
unfoldable pub generate_time_range : ℤ → ℕ → Option (ℤ × ℤ)
unfolding truncate ◌-ℤ◌ ◌+ℤ◌ fits
generate_time_range interval now =
    let middle = unix (truncate now interval) in
    if fits interval then some (middle -ℤ interval, middle +ℤ interval) else none

-- The seconds that adjustmentTime waits, none for an immediate start. It reads the clock twice.
unfoldable pub adjustment_time : ℤ → ℕ → ℕ → Option ℤ
unfolding truncate ◌-ℤ◌ ◌+ℤ◌
adjustment_time gap now now_again =
    let integral = unix (truncate now_again gap) in
    let past = unix now -ℤ integral in
    if leb_ℤ gap past || (leb_ℤ past (pos 0) && leb_ℤ (pos 0) past)
    then none
    else some (integral +ℤ gap -ℤ unix now)

-- the manager and the configuration, which the two loops share
pub record Shared (Doc : Type 0) : Type 0 where
  pub manager : LuaPluginManager
  pub settings : Settings Doc

abbrev pub with_part : {Doc : Type 0} → Config → Shared Doc → Shared Doc
with_part part s = record s { settings = record s.settings { part = part } }

-- behind updatePlugins: the signal that update sends, if any
unfoldable pub after_loading :
    {Doc : Type 0} → Outcome PluginError Unit → Shared Doc → Outcome Unit (Option ℕ) × Shared Doc
unfolding remove_update_cache
after_loading (ok x) s = (ok (some 0), s)
after_loading (err e) s = (ok none, record s { manager = remove_update_cache s.manager })
after_loading panic s = (panic, s)

module _ (json : Json) (do_string : Bytes → Option PluginError) where
  -- LuaPluginManager.update up to notify
  unfoldable pub handle_update : Assoc Bytes Bytes → Exec (Shared json.Doc) Unit (Option ℕ)
  unfolding parse_plugin_marking parse_plugin_config update_plugins after_loading
  handle_update hash_map s =
      let (c, config_cache) = parse_plugin_marking json hash_map s.settings in
      let updates = parse_plugin_config json c.interval c.obj c.plugin_category c.part.update in
      let c' = record c { part = record c.part { update = updates } } in
      let (r, m) = update_plugins do_string updates s.manager in
      elim config_cache [
        | [] ↦ (ok none, record s { settings = c })
        | conf ∷ confs ↦ after_loading r (record { manager = m; settings = c' })
      ]

  -- LuaPluginManager.remove up to notify
  unfoldable pub handle_remove : List Bytes → Exec (Shared json.Doc) Unit (Option ℕ)
  unfolding checkout_config
  handle_remove hash_list s =
      (ok (some 1), with_part (checkout_config hash_list s.settings.part []).0 s)

  -- the case of Execute that has taken a signal from PluginReady
  unfoldable pub take_signal : ℕ → Shared json.Doc → Option (Shared json.Doc)
  unfolding replace_running_plugin replace_running_config remove_running_plugin remove_delete_config
      parse_global_config
  take_signal zero s = replace_running_plugin s.manager >>? λ m.
      let c = parse_global_config json s.settings in
      some (record { manager = m; settings = record c { part = replace_running_config c.part } })
  take_signal (suc zero) s = remove_running_plugin s.settings.part.removal s.manager >>? λ m.
      some (record {
        manager = m;
        settings = record s.settings { part = remove_delete_config s.settings.part };
      })
  take_signal (suc (suc n)) s = some s
