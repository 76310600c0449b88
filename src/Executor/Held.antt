-- ===== src/Executor/Held.antt =====
-- That parsing keeps the plugins which the updates hold.
use data_collection.Base.{
  ◌≡◌, refl, ap, ◌∙◌, ◌⊎◌, inl, inr, Bool, true, false, ◌||◌, List, [], ◌∷◌, ◌++◌, map, arith,
  Bool-cases, Option-cases, ℤ, Bytes, bytes_discrete, codes, Assoc, is_some, contains, lookup,
  insert,
}
use data_collection.Plugin.{PluginConfig}
use data_collection.Manager.{PluginSet}
use data_collection.Config.{Config, compare_hash}
use data_collection.Config.Text.{split}
use data_collection.Config.Marking.{
  Json, Entry, mark_one, mark_each, marking_of, place_config, insert_entry, insert_config,
  parse_plugin_config, parse_category,
}

-- a set holds a plugin whose code is `text`
abbrev pub sources : List PluginConfig → List Bytes
sources l = map (λ c. c.source_code) l

abbrev pub holds : Bytes → PluginSet PluginConfig → Bool
holds text s =
    contains bytes_discrete text (sources s.inputs)
    || contains bytes_discrete text (sources s.processors)
    || contains bytes_discrete text (sources s.aggregators)
    || contains bytes_discrete text (sources s.outputs)

module _ (text : Bytes) where
  contains-append :
      (l r : List PluginConfig)
      → contains bytes_discrete text (sources (l ++ r))
        ≡ (contains bytes_discrete text (sources l) || contains bytes_discrete text (sources r))
  unfolding contains
  contains-append [] r = refl
  contains-append (c ∷ l) r = ground (arith, contains-append l r)

  holds-place :
      (conf : PluginConfig) (s : PluginSet PluginConfig)
      → holds text s ≡ true
      → holds text (place_config conf s) ≡ true
  unfolding place_config
  holds-place conf s h = ground (
    arith,
    h,
    contains-append s.inputs (conf ∷ []),
    contains-append s.processors (conf ∷ []),
    contains-append s.aggregators (conf ∷ []),
    contains-append s.outputs (conf ∷ []),
  )

  insert_entry-source :
      (g : ℤ) (e : Entry) (rc : PluginConfig) → (insert_entry g e rc).source_code ≡ rc.source_code
  unfolding insert_entry
  insert_entry-source g e rc = ground arith

  sources-insert_entry :
      (g : ℤ) (e : Entry) (l : List PluginConfig) → sources (map (insert_entry g e) l) ≡ sources l
  sources-insert_entry g e [] = refl
  sources-insert_entry g e (c ∷ l) = rw (insert_entry-source g e c, sources-insert_entry g e l) refl

  sources-insert_config :
      (g : ℤ) (es : List Entry) (l : List PluginConfig) → sources (insert_config g es l) ≡ sources l
  unfolding insert_config
  sources-insert_config g [] l = refl
  sources-insert_config g (e ∷ es) l =
      sources-insert_config g es (map (insert_entry g e) l) ∙ sources-insert_entry g e l

  compare_hash-cases :
      (hash : Bytes) (c : Config)
      → (compare_hash hash c ≡ (false, c))
        ⊎ ((c' : Config) × (compare_hash hash c ≡ (true, c')) × (c'.update ≡ c.update))
  unfolding compare_hash
  compare_hash-cases hash c =
      elim (Bool-cases (is_some (lookup bytes_discrete hash c.running_hash))) [
        | inl e ↦ inl (rw e refl)
        | inr e ↦ inr (
          record c { running_hash = insert bytes_discrete hash 1 c.running_hash },
          rw e refl,
          refl,
        )
      ]

  mark_one-holds :
      (mark hash source : Bytes) (c : Config)
      → holds text c.update ≡ true
      → holds text (mark_one mark hash source c).0.update ≡ true
  unfolding mark_one
  mark_one-holds mark hash source c h = elim (compare_hash-cases hash c) [
    | inl e ↦ rw e h
    | inr (c', e, u) ↦
        let h' = ap (holds text) u ∙ h in
        elim (Option-cases (marking_of mark hash source (split source (codes "\n")))) [
          | inl q ↦ rw (e, q, e) h'
          | inr (conf, q) ↦ rw (e, q, e) (holds-place conf c'.update h')
        ]
  ]

  pub mark_each-holds :
      (mark : Bytes) (m : Assoc Bytes Bytes) (c : Config)
      → holds text c.update ≡ true
      → holds text (mark_each mark m c).0.update ≡ true
  unfolding mark_each
  mark_each-holds mark [] c h = h
  mark_each-holds mark ((hash, source) ∷ m) c h =
      mark_each-holds mark m (mark_one mark hash source c).0 (mark_one-holds mark hash source c h)

  parse_category-holds :
      (json : Json) (g : ℤ) (obj : json.Doc) (category : Bytes) (s : PluginSet PluginConfig)
      → holds text (parse_category json g obj category s) ≡ holds text s
  unfolding parse_category
  parse_category-holds json g obj category s = ground (
    arith,
    sources-insert_config g (json.entries obj category) s.inputs,
    sources-insert_config g (json.entries obj category) s.processors,
    sources-insert_config g (json.entries obj category) s.aggregators,
    sources-insert_config g (json.entries obj (codes "output")) s.outputs,
  )

  pub parse_plugin_config-holds :
      (json : Json) (g : ℤ) (obj : json.Doc) (categories : List Bytes) (s : PluginSet PluginConfig)
      → holds text (parse_plugin_config json g obj categories s) ≡ holds text s
  unfolding parse_plugin_config
  parse_plugin_config-holds json g obj [] s = refl
  parse_plugin_config-holds json g obj (category ∷ categories) s =
      parse_plugin_config-holds json g obj categories (parse_category json g obj category s)
      ∙ parse_category-holds json g obj category s
