-- ===== src/Manager.antt =====
-- manager/lua_manager.go: the plugins that run, their replacement and their removal. The source has one
-- field and one copy of the code for each of the four categories; here the four lists are a record, and
-- the code is a function of one list. The lock and the log are left out.
pub mod Removal
pub mod Replacement
pub mod Update
use data_collection.Base.{
  ℕ, zero, suc, ◌+◌, ◌-◌, ◌*◌, ◌/◌, ◌%◌, ◌^◌, ◌≤◌, ◌<◌, ◌≡◌, refl, sym, ap, ◌∙◌, subst, ◌≢◌, ◌↔◌,
  ◌⊎◌, inl, inr, ite, if_pos, if_neg, Bool, true, false, not, ◌&&◌, ◌||◌, Option, none, some, List,
  [], ◌∷◌, ◌++◌, map, append-nil, append_assoc, arith, ℕ_discrete, ltb, leb, ltb→lt, leb→le, ◌==◌,
  if◌then◌else◌, Bool-cases, Option-cases, length, get_elem?, take, drop, keep, length-append,
  take-append, drop-append, length-keep-le, keep-append, keep-keep, All, ℤ, pos, negsuc, ℤ_discrete,
  pos_part, neg_part, ◌+ℤ◌, ◌-ℤ◌, ◌≤ℤ◌, ◌<ℤ◌, ltb_ℤ, leb_ℤ, eq_of_parts, Bytes, bytes_discrete,
  codes, Assoc, is_some, keys, same, same_self, contains, contains-keep, lookup, insert, delete,
  delete_all, Distinct, lookup-insert, lookup-insert_self, lookup-delete, lookup-delete_all,
  contains-keys, lookup-delete_kept, insert-Distinct, delete-Distinct, delete_all-Distinct, Outcome,
  ok, err, panic, Exec, pure, fail, crash, gets, attempt, continue, ◌>>=◌, ◌>>◌, modify,
}
use data_collection.Plugin.{
  Plugin, PluginConfig, LuaPlugin, PluginError, no_match, create_lua_plugin, LStatePool,
  init_lstate_pool, put_lstate, Factories, init_lua_plugin,
}
use data_collection.Manager.Removal.{◌>>?◌, remove_matching}

-- one list for each category; config.PluginConfigSet is such a set
pub record PluginSet (A : Type 0) : Type 0 where
  pub inputs : List A
  pub processors : List A
  pub aggregators : List A
  pub outputs : List A

abbrev pub empty_set : {A : Type 0} → PluginSet A
empty_set = record { inputs = []; processors = []; aggregators = []; outputs = [] }

-- `closed` holds the Lua states that have been closed, `ready_open` whether PluginReady is open.
pub record LuaPluginManager : Type 0 where
  pub running : PluginSet LuaPlugin
  pub update : PluginSet LuaPlugin
  pub pool : LStatePool
  pub closed : List ℕ
  pub ready_open : Bool

-- NewLuaPluginManager and InitEnv
abbrev pub new_lua_plugin_manager : LuaPluginManager
new_lua_plugin_manager = record {
  running = empty_set;
  update = empty_set;
  pool = init_lstate_pool;
  closed = [];
  ready_open = true;
}

abbrev pub factories : Factories
factories = init_lua_plugin []

-- ClosePlugin; Close puts the state back into the pool as well
unfoldable pub close_plugin : LuaPlugin → LuaPluginManager → LuaPluginManager
close_plugin p m = record m { closed = m.closed ++ p.cur_ins ∷ [] }

unfoldable pub close : LuaPlugin → LuaPluginManager → LuaPluginManager
unfolding close_plugin
close p m = let m' = close_plugin p m in record m' { pool = put_lstate p.cur_ins m'.pool }

unfoldable pub close_each : List LuaPlugin → LuaPluginManager → LuaPluginManager
unfolding close
close_each [] m = m
close_each (p ∷ ps) m = close_each ps (close p m)

unfoldable pub close_set : PluginSet LuaPlugin → LuaPluginManager → LuaPluginManager
unfolding close_each
close_set s m =
    close_each s.outputs
      (close_each s.aggregators (close_each s.processors (close_each s.inputs m)))

-- the switch of Load: the list to append to
unfoldable pub place : Bytes → LuaPlugin → PluginSet LuaPlugin → Option (PluginSet LuaPlugin)
place category p s =
    if same bytes_discrete category (codes "input")
    then some (record s { inputs = s.inputs ++ p ∷ [] })
    else if same bytes_discrete category (codes "processor")
    then some (record s { processors = s.processors ++ p ∷ [] })
    else if same bytes_discrete category (codes "aggregator")
    then some (record s { aggregators = s.aggregators ++ p ∷ [] })
    else if same bytes_discrete category (codes "output")
    then some (record s { outputs = s.outputs ++ p ∷ [] })
    else none

-- where the plugin goes
unfoldable pub put_plugin : Bytes → Bool → LuaPlugin → Exec LuaPluginManager PluginError Unit
unfolding place
put_plugin category true p m = elim (place category p m.update) [
  | none ↦ (err no_match, m)
  | some s ↦ (ok tt, record m { update = s })
]
put_plugin category false p m = elim (place category p m.running) [
  | none ↦ (err no_match, m)
  | some s ↦ (ok tt, record m { running = s })
]

module _ (do_string : Bytes → Option PluginError) where
  unfoldable pub on_pool : PluginConfig → Exec LuaPluginManager PluginError LuaPlugin
  unfolding create_lua_plugin
  on_pool conf m =
      let (r, pool) = create_lua_plugin do_string factories conf m.pool in
      (r, record m { pool = pool })

  unfoldable pub load : PluginConfig → Bool → Exec LuaPluginManager PluginError Unit
  unfolding on_pool put_plugin
  load conf is_update = on_pool conf >>= put_plugin conf.category is_update

  -- one loop of LoadPlugins and of updatePlugins
  unfoldable pub load_each : Bool → List PluginConfig → Exec LuaPluginManager PluginError Unit
  unfolding load
  load_each is_update [] = pure tt
  load_each is_update (conf ∷ confs) = load conf is_update >> load_each is_update confs

  unfoldable pub load_set : Bool → PluginSet PluginConfig → Exec LuaPluginManager PluginError Unit
  unfolding load_each
  load_set is_update s =
      load_each is_update s.inputs
      >> load_each is_update s.processors
      >> load_each is_update s.aggregators
      >> load_each is_update s.outputs

  unfoldable pub load_plugins : PluginSet PluginConfig → Exec LuaPluginManager PluginError Unit
  unfolding load_set
  load_plugins = load_set false

  unfoldable pub update_plugins : PluginSet PluginConfig → Exec LuaPluginManager PluginError Unit
  unfolding load_set
  update_plugins = load_set true

-- RemovePlugins; closing a closed channel is a panic
unfoldable pub remove_plugins : LuaPluginManager → Option LuaPluginManager
unfolding close_set
remove_plugins m =
    if m.ready_open
    then some (record (close_set m.update (close_set m.running m)) { ready_open = false })
    else none

unfoldable pub remove_update_cache : LuaPluginManager → LuaPluginManager
unfolding close_set
remove_update_cache m = record (close_set m.update m) { update = empty_set }

-- the test of ReplaceRunningPlugin, and that of RemoveRunningPlugin
unfoldable pub replaces : LuaPlugin → LuaPlugin → Bool
replaces new old =
    same bytes_discrete old.category new.category && same bytes_discrete old.name new.name

unfoldable pub deletes : PluginConfig → LuaPlugin → Bool
deletes conf old = same bytes_discrete old.cur_hash conf.cur_hash

abbrev pub states : List LuaPlugin → List ℕ
states ps = map (λ p. p.cur_ins) ps

-- one category of ReplaceRunningPlugin: the list that runs afterwards, and what has been closed
unfoldable pub replace_list :
    List LuaPlugin → List LuaPlugin → Option (List LuaPlugin × List LuaPlugin)
unfolding remove_matching
replace_list new running =
    remove_matching replaces new running >>? λ (kept, gone). some (kept ++ new, gone)

unfoldable pub replace_running_plugin : LuaPluginManager → Option LuaPluginManager
unfolding replace_list
replace_running_plugin m = replace_list m.update.inputs m.running.inputs >>? λ (inputs, c1).
    replace_list m.update.processors m.running.processors >>? λ (processors, c2).
    replace_list m.update.aggregators m.running.aggregators >>? λ (aggregators, c3).
    replace_list m.update.outputs m.running.outputs >>? λ (outputs, c4). some (record m {
      running = record {
        inputs = inputs;
        processors = processors;
        aggregators = aggregators;
        outputs = outputs;
      };
      update = empty_set;
      closed = m.closed ++ states (c1 ++ c2 ++ c3 ++ c4);
    })

unfoldable pub remove_running_plugin :
    PluginSet PluginConfig → LuaPluginManager → Option LuaPluginManager
unfolding remove_matching
remove_running_plugin config m =
    remove_matching deletes config.inputs m.running.inputs >>? λ (inputs, c1).
    remove_matching deletes config.processors m.running.processors >>? λ (processors, c2).
    remove_matching deletes config.aggregators m.running.aggregators >>? λ (aggregators, c3).
    remove_matching deletes config.outputs m.running.outputs >>? λ (outputs, c4). some (record m {
      running = record {
        inputs = inputs;
        processors = processors;
        aggregators = aggregators;
        outputs = outputs;
      };
      closed = m.closed ++ states (c1 ++ c2 ++ c3 ++ c4);
    })
