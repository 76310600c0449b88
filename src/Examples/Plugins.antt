-- ===== src/Examples/Plugins.antt =====
-- Runs of the plugins and of the manager.
use data_collection.Base.{
  ℕ, ◌≡◌, refl, true, none, some, [], ◌∷◌, arith, keep, pos, bytes_discrete, codes,
}
use data_collection.Plugin.{Plugin, PluginConfig, LuaPlugin, count_call}
use data_collection.Plugin.Trigger.{calls, count_call_period}
use data_collection.Manager.{
  PluginSet, LuaPluginManager, new_lua_plugin_manager, replaces, deletes, empty_set,
  replace_running_plugin, remove_running_plugin, update_plugins, remove_update_cache,
}
use data_collection.Config.{Config, checkout_config, remove_delete_config}
use data_collection.Config.Checkout.{
  with_hash, checked_out, updated, deleted, checkout_config_lem, deleted_again,
}
use data_collection.Manager.Removal.{remove_matching}
use data_collection.Manager.Removal.Indices.{hits}
use data_collection.Manager.Removal.Exact.{survivors, remove_matching-survivors}
use data_collection.Manager.Removal.Once.{matched, MatchedOnce}
use data_collection.Manager.Replacement.{replace_running_plugin_lem, remove_running_plugin_lem}
use data_collection.Manager.Update.{update_plugins_keeps_running}

abbrev cpu : Plugin
cpu = record {
  pattern = codes "pi";
  category = codes "input";
  name = codes "cpu";
  version = codes "1";
  cur_hash = codes "h1";
  path = codes "cpu.lua";
}

abbrev disk : Plugin
disk = record cpu { name = codes "disk"; cur_hash = codes "h2" }

abbrev config_of : Plugin → PluginConfig
config_of p = record {
  plugin = p;
  source_code = codes "x";
  global_interval = pos 10;
  plugin_interval = pos 35;
}

abbrev instance_of : Plugin → ℕ → LuaPlugin
instance_of p i = record {
  plugin = p;
  cur_ins = i;
  lua_string = codes "x";
  trigger_interval = pos 3;
  execute_count = pos 0;
}

abbrev cpu_plugin : LuaPlugin
cpu_plugin = instance_of cpu 0

abbrev disk_plugin : LuaPlugin
disk_plugin = instance_of disk 1

abbrev new_cpu : LuaPlugin
new_cpu = instance_of cpu 2

-- two plugins run, and one of them is to be replaced
abbrev manager : LuaPluginManager
manager = record new_lua_plugin_manager {
  running = record (empty_set {A = LuaPlugin}) { inputs = cpu_plugin ∷ disk_plugin ∷ [] };
  update = record (empty_set {A = LuaPlugin}) { inputs = new_cpu ∷ [] };
}

abbrev configs : PluginSet PluginConfig
configs = record (empty_set {A = PluginConfig}) { inputs = config_of disk ∷ [] }

count_call_period_example :
    ((count_call (calls 2 cpu_plugin)).1 ≡ true) × ((calls 3 cpu_plugin).execute_count ≡ pos 0)
count_call_period_example = count_call_period cpu_plugin 2 2 refl refl (omega arith)

remove_matching-survivors_example :
    remove_matching replaces (new_cpu ∷ []) (cpu_plugin ∷ disk_plugin ∷ [])
    ≡ survivors replaces (new_cpu ∷ []) (cpu_plugin ∷ disk_plugin ∷ [])
remove_matching-survivors_example =
    remove_matching-survivors replaces (new_cpu ∷ []) (cpu_plugin ∷ disk_plugin ∷ [])

cpu_once : MatchedOnce replaces (new_cpu ∷ []) (cpu_plugin ∷ disk_plugin ∷ [])
unfolding hits replaces bytes_discrete
cpu_once = (omega arith, (omega arith, tt))

replace_running_plugin_lem_example :
    replace_running_plugin manager
    ≡ some (record manager {
      running = record (empty_set {A = LuaPlugin}) { inputs = disk_plugin ∷ new_cpu ∷ [] };
      update = empty_set;
      closed = 0 ∷ [];
    })
unfolding keep matched hits replaces bytes_discrete
replace_running_plugin_lem_example = replace_running_plugin_lem manager cpu_once tt tt tt

disk_once : MatchedOnce deletes (config_of disk ∷ []) (cpu_plugin ∷ disk_plugin ∷ [])
unfolding hits deletes bytes_discrete
disk_once = (omega arith, (omega arith, tt))

remove_running_plugin_lem_example :
    remove_running_plugin configs manager
    ≡ some (record manager {
      running = record (empty_set {A = LuaPlugin}) { inputs = cpu_plugin ∷ [] };
      closed = 1 ∷ [];
    })
unfolding keep matched hits deletes bytes_discrete
remove_running_plugin_lem_example = remove_running_plugin_lem configs manager disk_once tt tt tt

abbrev after_update : LuaPluginManager
after_update = (update_plugins (λ text. none) configs manager).1

update_plugins_keeps_running_example :
    (after_update.running ≡ manager.running)
    × (after_update.closed ≡ manager.closed)
    × ((remove_update_cache after_update).running ≡ manager.running)
    × ((remove_update_cache after_update).update ≡ empty_set)
update_plugins_keeps_running_example = update_plugins_keeps_running (λ text. none) configs manager

abbrev no_config : Config
no_config = record {
  running = empty_set;
  running_hash = [];
  update = empty_set;
  removal = empty_set;
}

abbrev one_config : Config
one_config = record no_config { running = configs; running_hash = (codes "h2", 1) ∷ [] }

checkout_config_lem_example :
    (checkout_config (codes "h2" ∷ []) one_config []).0 ≡ checked_out (codes "h2" ∷ []) one_config
checkout_config_lem_example = checkout_config_lem (codes "h2" ∷ []) one_config []

none_yet : with_hash (codes "h1") configs.inputs ≡ []
unfolding keep bytes_discrete
none_yet = refl

deleted_again_example :
    (deleted (codes "h1") (
      updated (config_of cpu) (
        remove_delete_config
          (deleted (codes "h1") (updated (config_of cpu) one_config))))).removal.inputs
    ≡ config_of cpu ∷ config_of cpu ∷ []
deleted_again_example = deleted_again one_config (config_of cpu) none_yet
