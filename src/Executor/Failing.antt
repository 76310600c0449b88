-- ===== src/Executor/Failing.antt =====
-- That updatePlugins fails where the code of a plugin does not run.
use data_collection.Base.{
  ◌≡◌, refl, ap, ◌∙◌, inl, inr, Bool, true, false, Option, some, List, [], ◌∷◌, arith, Bool-cases,
  Option-cases, Bytes, bytes_discrete, same, contains, lookup, Outcome, ok, err, panic, Exec,
  continue, ◌>>=◌, ◌>>◌,
}
use data_collection.Plugin.{
  PluginError, PluginConfig, LStatePool, Factories, create_lua_plugin, new_input, new_processor,
  new_aggregator, new_output, new_plugin, input, processor, aggregator, output,
}
use data_collection.Manager.{
  PluginSet, LuaPluginManager, on_pool, put_plugin, load, load_each, load_set, update_plugins,
  factories,
}
use data_collection.Executor.Held.{sources, holds}

abbrev pub is_ok : {E A : Type 0} → Outcome E A → Bool
is_ok (ok a) = true
is_ok (err e) = false
is_ok panic = false

module _ {S E A B : Type 0} (f : Exec S E A) (g : A → Exec S E B) where
  fails-first : (s : S) → is_ok (f s).0 ≡ false → is_ok ((f >>= g) s).0 ≡ false
  fails-first s h = go (f s).0 (f s).1 h
    where
      go : (r : Outcome E A) (s' : S) → is_ok r ≡ false → is_ok (continue r g s').0 ≡ false
      go (ok a) s' h' = absurd (ground arith)
      go (err e) s' h' = refl
      go panic s' h' = refl

  fails-second :
      ((a : A) (s : S) → is_ok (g a s).0 ≡ false) → (s : S) → is_ok ((f >>= g) s).0 ≡ false
  fails-second h s = go (f s).0 (f s).1
    where
      go : (r : Outcome E A) (s' : S) → is_ok (continue r g s').0 ≡ false
      go (ok a) s' = h a s'
      go (err e) s' = refl
      go panic s' = refl

module _ (do_string : Bytes → Option PluginError) (text : Bytes) (e : PluginError)
    (broken : do_string text ≡ some e) where
  new_plugin-fails :
      (conf : PluginConfig) (pl : LStatePool)
      → conf.source_code ≡ text
      → is_ok (new_plugin do_string conf pl).0 ≡ false
  unfolding new_plugin
  new_plugin-fails conf pl h =
      let bad : do_string conf.source_code ≡ some e = ap do_string h ∙ broken in
      rw (is_ok, new_plugin, bad) refl

  create-fails :
      (conf : PluginConfig) (fs : Factories) (pl : LStatePool)
      → conf.source_code ≡ text
      → is_ok (create_lua_plugin do_string fs conf pl).0 ≡ false
  unfolding create_lua_plugin new_input new_processor new_aggregator new_output
  create-fails conf fs pl h = elim (Bool-cases (same bytes_discrete conf.category [])) [
    | inl q ↦ rw q refl
    | inr q ↦ elim (Option-cases (lookup bytes_discrete conf.category fs)) [
      | inl k ↦ rw (q, k) refl
      | inr (input, k) ↦ rw (q, k) (new_plugin-fails conf pl h)
      | inr (processor, k) ↦ rw (q, k) (new_plugin-fails conf pl h)
      | inr (aggregator, k) ↦ rw (q, k) (new_plugin-fails conf pl h)
      | inr (output, k) ↦ rw (q, k) (new_plugin-fails conf pl h)
    ]
  ]

  load-fails :
      (conf : PluginConfig) (is_update : Bool) (m : LuaPluginManager)
      → conf.source_code ≡ text
      → is_ok (load do_string conf is_update m).0 ≡ false
  unfolding load on_pool
  load-fails conf is_update m h =
      fails-first (on_pool do_string conf) (put_plugin conf.category is_update) m
        (create-fails conf factories m.pool h)

  load_each-fails :
      (is_update : Bool) (l : List PluginConfig) (m : LuaPluginManager)
      → contains bytes_discrete text (sources l) ≡ true
      → is_ok (load_each do_string is_update l m).0 ≡ false
  unfolding load_each contains
  load_each-fails is_update [] m h = absurd (ground arith)
  load_each-fails is_update (conf ∷ l) m h = elim (bytes_discrete conf.source_code text) [
    | yes q ↦
        fails-first (load do_string conf is_update) (λ _. load_each do_string is_update l) m
          (load-fails conf is_update m q)
    | no q ↦
        fails-second (load do_string conf is_update) (λ _. load_each do_string is_update l)
          (λ _ s. load_each-fails is_update l s (ground arith)) m
  ]

  pub update_plugins-fails :
      (s : PluginSet PluginConfig) (m : LuaPluginManager)
      → holds text s ≡ true
      → is_ok (update_plugins do_string s m).0 ≡ false
  unfolding update_plugins load_set
  update_plugins-fails s m h =
      let l = load_each do_string true in
      elim (Bool-cases (contains bytes_discrete text (sources s.outputs))) [
        | inl q ↦
            fails-second (l s.inputs >> l s.processors >> l s.aggregators) (λ _. l s.outputs)
              (λ _ n. load_each-fails true s.outputs n q) m
        | inr q1 ↦
            fails-first (l s.inputs >> l s.processors >> l s.aggregators) (λ _. l s.outputs) m
              (elim (Bool-cases (contains bytes_discrete text (sources s.aggregators))) [
                | inl q ↦
                    fails-second (l s.inputs >> l s.processors) (λ _. l s.aggregators)
                      (λ _ n. load_each-fails true s.aggregators n q) m
                | inr q2 ↦
                    fails-first (l s.inputs >> l s.processors) (λ _. l s.aggregators) m
                      (elim (Bool-cases (contains bytes_discrete text (sources s.processors))) [
                        | inl q ↦
                            fails-second (l s.inputs) (λ _. l s.processors)
                              (λ _ n. load_each-fails true s.processors n q) m
                        | inr q3 ↦
                            fails-first (l s.inputs) (λ _. l s.processors) m
                              (load_each-fails true s.inputs m (ground arith))
                      ])
              ])
      ]
