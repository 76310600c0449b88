-- ===== src/Executor/Round.antt =====
-- What a round of all plugins does: which Lua functions it calls, in which order, and what it counts.
use data_collection.Base.{
  ◌≡◌, refl, ap, inl, inr, Bool, false, not, ◌&&◌, ◌||◌, Option, none, some, List, [], ◌∷◌, ◌++◌,
  map, if◌then◌else◌, Bool-cases, length, keep, ℤ, Bytes,
}
use data_collection.Plugin.{
  PluginError, LuaPlugin, count_call, collect, dispose, converge, write, run_in_range,
}
use data_collection.Manager.{PluginSet, LuaPluginManager}
use data_collection.Executor.{
  Lua, logged, collect_each, run_each, once_execute, once_execute_all, timeout, is_positive,
  any_due,
}

abbrev pub counted : LuaPlugin → LuaPlugin
counted p = (count_call p).0

abbrev pub is_due : LuaPlugin → Bool
is_due p = (count_call p).1

abbrev pub all_counted : PluginSet LuaPlugin → PluginSet LuaPlugin
all_counted s = record {
  inputs = map counted s.inputs;
  processors = map counted s.processors;
  aggregators = map counted s.aggregators;
  outputs = map counted s.outputs;
}

abbrev pub contains_true : List Bool → Bool
contains_true [] = false
contains_true (b ∷ bs) = b || contains_true bs

any_due_lem : (ps : List LuaPlugin) → any_due ps ≡ contains_true (map is_due ps)
unfolding any_due
any_due_lem [] = refl
any_due_lem (p ∷ ps) = ap (λ b. is_due p || b) (any_due_lem ps)

module _ {Box : Type 0} where
  abbrev pub with_turn : {A : Type 0} → A → List PluginError × Box → A × List PluginError × Box
  with_turn a (errors, box) = (a, errors, box)

  -- Lua functions one after the other, each on what the one before has left: their errors, and the box
  abbrev pub in_turn :
      (LuaPlugin → Box → Option PluginError × Box) → List LuaPlugin → Box → List PluginError × Box
  in_turn f [] box = ([], box)
  in_turn f (p ∷ ps) box =
      let (errors, box') = in_turn f ps (f p box).1 in (logged (f p box).0 errors, box')

  collect_each_lem :
      (lua : Lua Box) (ps : List LuaPlugin) (box : Box)
      → collect_each lua ps box
        ≡ with_turn (map counted ps) (in_turn lua.collect_lua (keep is_due ps) box)
  unfolding collect_each collect keep
  collect_each_lem lua [] box = refl
  collect_each_lem lua (p ∷ ps) box = elim (Bool-cases (is_due p)) [
    | inl e ↦ rw (e, collect_each_lem lua ps (lua.collect_lua p box).1) refl
    | inr e ↦ rw (e, collect_each_lem lua ps box) refl
  ]

  run_each_lem :
      (lua : Lua Box) (start end : ℤ) (ps : List LuaPlugin) (box : Box)
      → run_each run_in_range lua start end ps box
        ≡ with_turn (map counted ps) (in_turn (lua.run_lua start end) (keep is_due ps) box)
  unfolding run_each run_in_range keep
  run_each_lem lua start end [] box = refl
  run_each_lem lua start end (p ∷ ps) box = elim (Bool-cases (is_due p)) [
    | inl e ↦ rw (e, run_each_lem lua start end ps (lua.run_lua start end p box).1) refl
    | inr e ↦ rw (e, run_each_lem lua start end ps box) refl
  ]

  -- the Lua functions that are due, by category
  abbrev pub due_in_turn : Lua Box → ℤ → ℤ → PluginSet LuaPlugin → Box → List PluginError × Box
  due_in_turn lua start end s box =
      let (e1, box1) = in_turn lua.collect_lua (keep is_due s.inputs) box in
      let (e2, box2) = in_turn (lua.run_lua start end) (keep is_due s.processors) box1 in
      let (e3, box3) = in_turn (lua.run_lua start end) (keep is_due s.aggregators) box2 in
      let (e4, box4) = in_turn (lua.run_lua start end) (keep is_due s.outputs) box3 in
      (e1 ++ e2 ++ e3 ++ e4, box4)

  once_execute_all_lem :
      (lua : Lua Box) (start end : ℤ) (m : LuaPluginManager) (box : Box)
      → once_execute_all lua start end m box
        ≡ some (
            with_turn
              (record m { running = all_counted m.running })
              (due_in_turn lua start end m.running box))
  unfolding once_execute_all dispose converge write
  once_execute_all_lem lua start end m box =
      let (e1, box1) = in_turn lua.collect_lua (keep is_due m.running.inputs) box in
      let (e2, box2) = in_turn (lua.run_lua start end) (keep is_due m.running.processors) box1 in
      let (e3, box3) = in_turn (lua.run_lua start end) (keep is_due m.running.aggregators) box2 in
      rw
        (
          collect_each_lem lua m.running.inputs box,
          run_each_lem lua start end m.running.processors box1,
          run_each_lem lua start end m.running.aggregators box2,
          run_each_lem lua start end m.running.outputs box3,
        )
        refl

  -- A round calls exactly the Lua functions that are due, first of the inputs, then of the processors,
  -- the aggregators and the outputs, each on the data that the ones before have left; errors stop
  -- nothing, and every plugin counts the round. It panics with no categories, and where an input is due
  -- and the interval divided by the number of categories is no positive time. Every Lua function returns
  -- in the model.
  pub once_execute_lem :
      (lua : Lua Box) (interval : ℤ) (categories : List Bytes) (start end : ℤ)
      (m : LuaPluginManager) (box : Box)
      → once_execute lua interval categories (start, end) m box ≡ (elim categories [
        | [] ↦ none
        | c ∷ cs ↦
            if contains_true (map is_due m.running.inputs)
              && not (is_positive (timeout interval (length (c ∷ cs))))
            then none
            else some (
                with_turn
                  (record m { running = all_counted m.running })
                  (due_in_turn lua start end m.running box))
      ])
  unfolding once_execute
  once_execute_lem lua interval [] start end m box = refl
  once_execute_lem lua interval (c ∷ cs) start end m box =
      rw (any_due_lem m.running.inputs, once_execute_all_lem lua start end m box) refl
