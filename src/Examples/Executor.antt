-- ===== src/Examples/Executor.antt =====
-- Runs of the configuration's parsing, of a round of all plugins and of the handshake.
use data_collection.Base.{
  ℕ, suc, ◌≤◌, ◌≡◌, refl, ◌⊎◌, true, false, Option, none, some, [], ◌∷◌, arith, ◌==◌, if◌then◌else◌,
  ℤ, pos, ◌+ℤ◌, ◌≤ℤ◌, ◌<ℤ◌, Bytes, bytes_discrete, codes, Assoc, keys, contains, lookup, ok,
}
use data_collection.Plugin.{count_call, PluginConfig, PluginError, no_match}
use data_collection.Manager.{LuaPluginManager, new_lua_plugin_manager, empty_set}
use data_collection.Config.{Config, checkout_config}
use data_collection.Config.Marking.{Json, Settings, parse_plugin_marking}
use data_collection.Config.Marking.Again.{known, Entered, parse_plugin_marking_again}
use data_collection.Executor.{
  Lua, Shared, is_positive, timeout, once_execute, generate_time_range, unix, handle_update,
  handle_remove, take_signal,
}
use data_collection.Executor.Round.{all_counted, with_turn, due_in_turn, once_execute_lem}
use data_collection.Executor.Ticks.{generate_time_range_lem}
use data_collection.Executor.Handshake.{Loops, Mode, removed, Reach, begin, next, Reach-Mode}
use data_collection.Executor.Returns.{Run, steps, notify_returns}
use data_collection.Executor.Held.{holds}
use data_collection.Executor.Blocked.{sends, update_blocked}

-- documents are the texts that begin with a brace
abbrev as_document : Bytes → Option Bytes
as_document [] = none
as_document (x ∷ s) = if x == 123 then some (x ∷ s) else none

abbrev json : Json
json = record {
  Doc = Bytes;
  new_json = as_document;
  entries = λ doc category. [];
  interval = λ doc. pos 60;
  plugin_category = λ doc. codes "input" ∷ [];
  plugin_marking = λ doc. codes "marking";
}

abbrev no_plugins : Config
no_plugins = record {
  running = empty_set;
  running_hash = (codes "h0", 1) ∷ [];
  update = empty_set;
  removal = empty_set;
}

abbrev settings : Settings Bytes
settings = record {
  part = no_plugins;
  interval = pos 60;
  plugin_category = codes "input" ∷ [];
  plugin_marking = codes "marking";
  obj = codes "{}";
  obj_hash = codes "h0";
}

abbrev two_texts : Assoc Bytes Bytes
two_texts = (codes "h1", codes "-- marking:lua,input,cpu,1") ∷ (codes "h2", codes "{ }") ∷ []

parse_plugin_marking_again_example :
    let first = (parse_plugin_marking json two_texts settings).0 in
    ((j : Bytes) → contains bytes_discrete j (keys two_texts) ≡ true → known j first.part ≡ true)
    × ((parse_plugin_marking json two_texts first).1 ≡ [])
    × ((parse_plugin_marking json two_texts first).0.part.update ≡ first.part.update)
parse_plugin_marking_again_example = parse_plugin_marking_again json two_texts settings

abbrev documents : Assoc Bytes Bytes
documents = (codes "h2", codes "{ }") ∷ []

entered : Entered json settings
unfolding lookup bytes_discrete
entered = refl

abbrev cpu_config : PluginConfig
cpu_config = record {
  plugin = record {
    pattern = codes "lua";
    category = codes "input";
    name = codes "cpu";
    version = codes "1";
    cur_hash = codes "h1";
    path = [];
  };
  source_code = codes "end end";
  global_interval = pos 60;
  plugin_interval = pos 60;
}

abbrev broken : Bytes → Option PluginError
broken text = some no_match

abbrev spoiled : Shared Bytes
spoiled = record {
  manager = new_lua_plugin_manager;
  settings = record settings {
    part = record no_plugins { update = record empty_set { inputs = cpu_config ∷ [] } };
  };
}

spoiled-holds : holds (codes "end end") spoiled.settings.part.update ≡ true
unfolding contains bytes_discrete
spoiled-holds = refl

update_blocked_example :
    let (r, s') = handle_update json broken two_texts spoiled in
    (sends r ≡ false)
    × (s'.manager.running ≡ empty_set)
    × (holds (codes "end end") s'.settings.part.update ≡ true)
update_blocked_example =
    update_blocked broken (codes "end end") no_match refl json two_texts spoiled spoiled-holds

abbrev one_plugin : LuaPluginManager
one_plugin = record new_lua_plugin_manager {
  running = record empty_set {
    inputs =
        record {
          plugin = cpu_config.plugin;
          cur_ins = 0;
          lua_string = [];
          trigger_interval = pos 2;
          execute_count = pos 1;
        }
        ∷ [];
  };
}

-- functions that count and fail
abbrev counting : Lua ℕ
counting = record {
  collect_lua = λ p box. (some no_match, suc box);
  run_lua = λ start end p box. (none, suc box);
}

once_execute_lem_example :
    once_execute counting (pos 60) (codes "input" ∷ []) (pos 0, pos 9) one_plugin 4
    ≡ some (
        with_turn
          (record one_plugin { running = all_counted one_plugin.running })
          (due_in_turn counting (pos 0) (pos 9) one_plugin.running 4))
unfolding count_call ◌+ℤ◌ is_positive timeout
once_execute_lem_example =
    once_execute_lem counting (pos 60) (codes "input" ∷ []) (pos 0) (pos 9) one_plugin 4

generate_time_range_lem_example :
    (range : ℤ × ℤ) × (generate_time_range (pos 60) 63000000007 ≡ some range)
    × (range.1 ≡ range.0 +ℤ pos 60 +ℤ pos 60)
    × (range.0 +ℤ pos 60 ≤ℤ unix 63000000007)
    × (unix 63000000007 <ℤ range.1)
generate_time_range_lem_example = generate_time_range_lem 59 63000000007 (omega arith)

abbrev calm : Shared Bytes
calm = record { manager = new_lua_plugin_manager; settings = settings }

abbrev asked : Loops Bytes
asked = record { shared = calm; ready = 1 ∷ []; finish = []; waiting = true }

nothing_to_remove : handle_remove json broken [] calm ≡ (ok (some 1), calm)
unfolding handle_remove checkout_config
nothing_to_remove = refl

asked-reached : Reach json broken ℕ asked
asked-reached = next (begin calm (refl, refl)) (
    removed (record { shared = calm; ready = []; finish = []; waiting = false }) [] (some 1) calm
      refl nothing_to_remove)

Reach-Mode_example : Mode asked
Reach-Mode_example = Reach-Mode json broken ℕ asked-reached

notify_returns_example :
    ((n : ℕ) × (1 ∷ [] ≡ n ∷ []) × (take_signal json broken n calm ≡ none))
    ⊎ ((l' : Loops Bytes) × (r : Run json broken ℕ asked l') × (steps json broken ℕ r ≤ 2)
        × (l'.waiting ≡ false))
notify_returns_example = notify_returns json broken ℕ asked-reached refl
