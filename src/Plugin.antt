-- ===== src/Plugin.antt =====
-- models/luaplugin, pkg/engine and the plugin types of config/config.go. The four plugin kinds embed
-- the same LuaPlugin and hold the same fields, so one record stands for all; running Lua code is a
-- parameter.
pub mod Trigger
use data_collection.Base.{
  ℕ, zero, suc, ◌+◌, ◌-◌, ◌*◌, ◌/◌, ◌%◌, ◌^◌, ◌≤◌, ◌<◌, ◌≡◌, refl, sym, ap, ◌∙◌, subst, ◌≢◌, ◌↔◌,
  ◌⊎◌, inl, inr, ite, if_pos, if_neg, Bool, true, false, not, ◌&&◌, ◌||◌, Option, none, some, List,
  [], ◌∷◌, ◌++◌, map, append-nil, append_assoc, arith, ℕ_discrete, ltb, leb, ltb→lt, leb→le, ◌==◌,
  if◌then◌else◌, Bool-cases, Option-cases, length, get_elem?, take, drop, keep, length-append,
  take-append, drop-append, length-keep-le, keep-append, keep-keep, All, ℤ, pos, negsuc, ℤ_discrete,
  pos_part, neg_part, ◌+ℤ◌, ◌-ℤ◌, ◌≤ℤ◌, ◌<ℤ◌, ltb_ℤ, leb_ℤ, eq_of_parts, Bytes, bytes_discrete,
  codes, Assoc, is_some, keys, same, same_self, contains, contains-keep, lookup, insert, delete,
  delete_all, Distinct, lookup-insert, lookup-insert_self, lookup-delete, lookup-delete_all,
  contains-keys, lookup-delete_kept, insert-Distinct, delete-Distinct, delete_all-Distinct, Outcome,
  ok, err, panic, Exec, pure, fail, crash, gets, attempt, continue, ◌>>=◌, ◌>>◌, modify,
}

-- config.Plugin
pub record Plugin : Type 0 where
  pub pattern : Bytes
  pub category : Bytes
  pub name : Bytes
  pub version : Bytes
  pub cur_hash : Bytes
  pub path : Bytes

-- config.PluginConfig; Include and Exclude are read by no plugin
pub record PluginConfig : Type 0 where
  pub plugin : Plugin
  pub open plugin use *
  pub source_code : Bytes
  pub global_interval : ℤ
  pub plugin_interval : ℤ

-- `cur_ins` names a Lua state.
pub record LuaPlugin : Type 0 where
  pub plugin : Plugin
  pub open plugin use *
  pub cur_ins : ℕ
  pub lua_string : Bytes
  pub trigger_interval : ℤ
  pub execute_count : ℤ

-- the quotient of two positive numbers
abbrev quotient : ℤ → ℤ → ℤ
quotient a b = pos (pos_part a / pos_part b)

-- parseConfig: the trigger interval, 0 before the call
unfoldable pub parse_config : PluginConfig → ℤ
parse_config c =
    let interval = quotient c.plugin_interval c.global_interval in
    let trigger =
      if ltb_ℤ (pos 0) c.plugin_interval
        && ltb_ℤ (pos 0) c.global_interval
        && ltb_ℤ c.global_interval c.plugin_interval
      then (if ltb_ℤ (pos 0) interval then interval else pos 0)
      else pos 0 in
    if ltb_ℤ trigger (pos 1) then pos 1 else trigger

pub data PluginError : Type 0 where
  invalid_type no_category no_factory short_time_range no_match : PluginError
  lua_error : ℕ → PluginError

-- The counter of Collect, Dispose, Converge and Write: whether the Lua function is due.
unfoldable pub count_call : LuaPlugin → LuaPlugin × Bool
count_call p =
    let count = p.execute_count +ℤ pos 1 in
    if ltb_ℤ count p.trigger_interval
    then (record p { execute_count = count }, false)
    else (record p { execute_count = pos 0 }, true)

-- Collect; `call` is what the Lua function collect returns, none for no error.
unfoldable pub collect : Option PluginError → LuaPlugin → LuaPlugin × Option PluginError
unfolding count_call
collect call p = let (p', due) = count_call p in (p', (if due then call else none))

-- Dispose, Converge and Write: the Lua function is called with the first two times.
unfoldable pub run_in_range :
    (ℤ → ℤ → Option PluginError) → List ℤ → LuaPlugin → LuaPlugin × Option PluginError
unfolding count_call
run_in_range call time_range p =
    let (p', due) = count_call p in
    (
      p',
      (if due
          then elim time_range [
            | [] ↦ some short_time_range
            | start ∷ more ↦ elim more [ [] ↦ some short_time_range | end ∷ _ ↦ call start end ]
          ]
          else none),
    )

unfoldable pub dispose :
    (ℤ → ℤ → Option PluginError) → List ℤ → LuaPlugin → LuaPlugin × Option PluginError
unfolding run_in_range
dispose = run_in_range

unfoldable pub converge :
    (ℤ → ℤ → Option PluginError) → List ℤ → LuaPlugin → LuaPlugin × Option PluginError
unfolding run_in_range
converge = run_in_range

unfoldable pub write :
    (ℤ → ℤ → Option PluginError) → List ℤ → LuaPlugin → LuaPlugin × Option PluginError
unfolding run_in_range
write = run_in_range

-- pkg/engine: states that can be used again, the last one put back first, and the next new state
pub record LStatePool : Type 0 where
  pub saved : List ℕ
  pub fresh : ℕ

abbrev pub init_lstate_pool : LStatePool
init_lstate_pool = record { saved = []; fresh = 0 }

-- x := saved[n-1]; saved = saved[0 : n-1]
unfoldable pub pop : List ℕ → Option (ℕ × List ℕ)
pop [] = none
pop (x ∷ []) = some (x, [])
pop (x ∷ y ∷ l) = elim (pop (y ∷ l)) [ none ↦ none | some (z, r) ↦ some (z, x ∷ r) ]

unfoldable pub get_lstate : LStatePool → ℕ × LStatePool
unfolding pop
get_lstate pl = elim (pop pl.saved) [
  | none ↦ (pl.fresh, record pl { fresh = suc pl.fresh })
  | some (x, saved) ↦ (x, record pl { saved = saved })
]

unfoldable pub put_lstate : ℕ → LStatePool → LStatePool
put_lstate x pl = record pl { saved = pl.saved ++ x ∷ [] }

-- the states that are closed; they stay in the pool
unfoldable pub shutdown : LStatePool → List ℕ
shutdown pl = pl.saved

-- Go's map of factories: a category has one of the four
pub data Kind : Type 0 where
  input processor aggregator output : Kind

abbrev pub Factories : Type 0
Factories = Assoc Bytes Kind

-- register, with a factory that is not nil: the first registration stands
unfoldable pub register : Bytes → Kind → Factories → Factories
register category factory factories =
    if is_some (lookup bytes_discrete category factories)
    then factories
    else insert bytes_discrete category factory factories

unfoldable pub init_lua_plugin : Factories → Factories
unfolding register
init_lua_plugin factories = register (codes "output") output (
    register (codes "aggregator") aggregator
      (register (codes "processor") processor (register (codes "input") input factories)))

-- NewInput and the others: a state from the pool, the interval, and the plugin's code run once.
-- `do_string` is the error of running a text, none if it runs. The state is not put back on an error.
unfoldable pub new_plugin :
    (Bytes → Option PluginError) → PluginConfig → Exec LStatePool PluginError LuaPlugin
unfolding get_lstate parse_config
new_plugin do_string c pl =
    let (ins, pl') = get_lstate pl in
    let p : LuaPlugin = record {
      plugin = c.plugin;
      cur_ins = ins;
      lua_string = c.source_code;
      trigger_interval = parse_config c;
      execute_count = pos 0;
    } in
    elim (do_string c.source_code) [ none ↦ (ok p, pl') | some e ↦ (err e, pl') ]

unfoldable pub new_input :
    (Bytes → Option PluginError) → PluginConfig → Exec LStatePool PluginError LuaPlugin
unfolding new_plugin
new_input = new_plugin

unfoldable pub new_processor :
    (Bytes → Option PluginError) → PluginConfig → Exec LStatePool PluginError LuaPlugin
unfolding new_plugin
new_processor = new_plugin

unfoldable pub new_aggregator :
    (Bytes → Option PluginError) → PluginConfig → Exec LStatePool PluginError LuaPlugin
unfolding new_plugin
new_aggregator = new_plugin

unfoldable pub new_output :
    (Bytes → Option PluginError) → PluginConfig → Exec LStatePool PluginError LuaPlugin
unfolding new_plugin
new_output = new_plugin

unfoldable pub create_lua_plugin :
    (Bytes → Option PluginError) → Factories → PluginConfig → Exec LStatePool PluginError LuaPlugin
unfolding new_input new_processor new_aggregator new_output
create_lua_plugin do_string factories c =
    if same bytes_discrete c.category []
    then fail no_category
    else elim (lookup bytes_discrete c.category factories) [
      | none ↦ fail invalid_type
      | some kind ↦ elim kind [
        | input ↦ new_input do_string c
        | processor ↦ new_processor do_string c
        | aggregator ↦ new_aggregator do_string c
        | output ↦ new_output do_string c
      ]
    ]
