-- ===== src/Manager/Replacement.antt =====
-- What runs after ReplaceRunningPlugin and RemoveRunningPlugin, and where a closed Lua state goes.
use data_collection.Base.{ℕ, ◌≡◌, refl, not, some, List, [], ◌∷◌, ◌++◌, keep}
use data_collection.Plugin.{PluginConfig, LuaPlugin, pop, get_lstate, put_lstate}
use data_collection.Manager.{
  PluginSet, LuaPluginManager, close_plugin, close, replaces, deletes, states, replace_list,
  replace_running_plugin, remove_running_plugin, empty_set,
}
use data_collection.Manager.Removal.Once.{matched, MatchedOnce, gone, remove_matching_once}

-- what is to run in one category
abbrev pub replaced : List LuaPlugin → List LuaPlugin → List LuaPlugin
replaced new running = keep (λ x. not (matched replaces new x)) running ++ new

abbrev pub left : List PluginConfig → List LuaPlugin → List LuaPlugin
left confs running = keep (λ x. not (matched deletes confs x)) running

replace_list_once :
    (new running : List LuaPlugin)
    → MatchedOnce replaces new running
    → replace_list new running ≡ some (replaced new running, gone replaces new running)
unfolding replace_list
replace_list_once new running h = rw (remove_matching_once replaces new running h) refl

-- If no running plugin has the category and name of two plugins to update, ReplaceRunningPlugin does not
-- panic: in each category the plugins without a successor go on, in their order, and the updates follow
-- them; no update is left over, and the replaced plugins are closed and stay out of the pool.
pub replace_running_plugin_lem :
    (m : LuaPluginManager)
    → MatchedOnce replaces m.update.inputs m.running.inputs
    → MatchedOnce replaces m.update.processors m.running.processors
    → MatchedOnce replaces m.update.aggregators m.running.aggregators
    → MatchedOnce replaces m.update.outputs m.running.outputs
    → replace_running_plugin m
      ≡ some (record m {
        running = record {
          inputs = replaced m.update.inputs m.running.inputs;
          processors = replaced m.update.processors m.running.processors;
          aggregators = replaced m.update.aggregators m.running.aggregators;
          outputs = replaced m.update.outputs m.running.outputs;
        };
        update = empty_set;
        closed =
            m.closed
            ++ states (
                gone replaces m.update.inputs m.running.inputs
                ++ gone replaces m.update.processors m.running.processors
                ++ gone replaces m.update.aggregators m.running.aggregators
                ++ gone replaces m.update.outputs m.running.outputs);
      })
unfolding replace_running_plugin
replace_running_plugin_lem m h1 h2 h3 h4 =
    rw (replace_list_once m.update.inputs m.running.inputs h1) (
      rw (replace_list_once m.update.processors m.running.processors h2) (
        rw (replace_list_once m.update.aggregators m.running.aggregators h3)
          (rw (replace_list_once m.update.outputs m.running.outputs h4) refl)))

-- If no running plugin has the hash of two of the configurations, RemoveRunningPlugin does not panic: in
-- each category the plugins without such a hash go on, in their order, and the others are closed.
pub remove_running_plugin_lem :
    (c : PluginSet PluginConfig) (m : LuaPluginManager)
    → MatchedOnce deletes c.inputs m.running.inputs
    → MatchedOnce deletes c.processors m.running.processors
    → MatchedOnce deletes c.aggregators m.running.aggregators
    → MatchedOnce deletes c.outputs m.running.outputs
    → remove_running_plugin c m
      ≡ some (record m {
        running = record {
          inputs = left c.inputs m.running.inputs;
          processors = left c.processors m.running.processors;
          aggregators = left c.aggregators m.running.aggregators;
          outputs = left c.outputs m.running.outputs;
        };
        closed =
            m.closed
            ++ states (
                gone deletes c.inputs m.running.inputs
                ++ gone deletes c.processors m.running.processors
                ++ gone deletes c.aggregators m.running.aggregators
                ++ gone deletes c.outputs m.running.outputs);
      })
unfolding remove_running_plugin
remove_running_plugin_lem c m h1 h2 h3 h4 =
    rw (remove_matching_once deletes c.inputs m.running.inputs h1) (
      rw (remove_matching_once deletes c.processors m.running.processors h2) (
        rw (remove_matching_once deletes c.aggregators m.running.aggregators h3)
          (rw (remove_matching_once deletes c.outputs m.running.outputs h4) refl)))

pop-snoc : (l : List ℕ) (x : ℕ) → pop (l ++ x ∷ []) ≡ some (x, l)
unfolding pop
pop-snoc [] x = refl
pop-snoc (y ∷ []) x = refl
pop-snoc (y ∷ z ∷ l) x = rw (pop-snoc (z ∷ l) x) refl

-- The state of a plugin that Close has just closed is the next one that the pool hands out, and the pool
-- is then as it was before Close.
pub closed_state_reused :
    (p : LuaPlugin) (m : LuaPluginManager)
    → ((close p m).closed ≡ m.closed ++ p.cur_ins ∷ [])
      × (get_lstate (close p m).pool ≡ (p.cur_ins, m.pool))
unfolding close close_plugin get_lstate put_lstate
closed_state_reused p m = (refl, rw (pop-snoc m.pool.saved p.cur_ins, get_lstate) refl)
