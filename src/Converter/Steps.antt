-- ===== src/Converter/Steps.antt =====
-- How the two conversions compute on a table, for proofs that keep them shut.
use data_collection.Base.{ℕ, suc, ◌≡◌, refl, ap, ◌∙◌, true, Bytes}
use data_collection.Converter.{
  list_or_dict, LuaValue, l_number, l_table, Entries, no_entries, pair, GoValue, nil, boolean,
  float64, string, list, dict, strings, maps, unsupported, Items, no_items, item, no_fields, field,
  Lua, number_keys, is_number, check_list, set_field, marshal, marshal_list, marshal_dict,
  unmarshal, unmarshal_list,
}
use data_collection.Converter.Plain.{Plain, PlainItems, NotNil, add_entry, IsArray, Laws}
use data_collection.Converter.Shapes.{append_items}

module _ {Float : Type 0} (lua : Lua Float) (laws : Laws lua) where
  pub marshal_list-add_entry :
      (key v : LuaValue Float) (tb : Entries Float)
      → marshal_list lua (add_entry tb key v)
        ≡ append_items (marshal_list lua tb) (item (marshal lua v) no_items)
  unfolding marshal add_entry append_items
  marshal_list-add_entry key v no_entries = refl
  marshal_list-add_entry key v (pair k w es) =
      ap (item (marshal lua w)) (marshal_list-add_entry key v es)

  pub NotNil-unmarshal : (v : GoValue Float) → Plain v → NotNil (unmarshal lua v)
  unfolding unmarshal Plain
  NotNil-unmarshal (boolean b) h = tt
  NotNil-unmarshal (float64 x) h = tt
  NotNil-unmarshal (string s) h = tt
  NotNil-unmarshal (list vs) h = tt
  NotNil-unmarshal (dict fs) h = tt
  NotNil-unmarshal nil h = absurd h
  NotNil-unmarshal (strings ss) h = tt
  NotNil-unmarshal (maps ms) h = tt
  NotNil-unmarshal unsupported h = absurd h

  -- how the two conversions compute, for proofs that keep them shut
  pub marshal-list_table :
      (es : Entries Float)
      → number_keys es ≡ true
      → marshal lua (l_table es) ≡ list (marshal_list lua es)
  unfolding marshal check_list
  marshal-list_table es e =
      ap (λ b. list_or_dict b (marshal_list lua es) (marshal_dict lua es no_fields)) e

  pub marshal_list-no_entries :
      (vs : Items Float) → append_items (marshal_list lua no_entries) vs ≡ vs
  unfolding marshal append_items
  marshal_list-no_entries vs = refl

  pub unmarshal-list :
      (vs : Items Float) → unmarshal lua (list vs) ≡ l_table (unmarshal_list lua vs 0 no_entries)
  unfolding unmarshal
  unmarshal-list vs = refl

  pub unmarshal_list-item :
      (v : GoValue Float) (vs : Items Float) (i : ℕ) (tb : Entries Float)
      → PlainItems (item v vs)
      → IsArray laws.number i 0 tb
      → unmarshal_list lua (item v vs) i tb
        ≡ unmarshal_list lua vs
            (suc i)
            (add_entry tb (l_number (laws.number (suc i))) (unmarshal lua v))
  unfolding unmarshal Plain
  unmarshal_list-item v vs i tb (h, hs) array =
      ap (unmarshal_list lua vs (suc i))
        (laws.inserts i tb (unmarshal lua v) array (NotNil-unmarshal v h))

  -- the values without a table
  abbrev pub Atomic : GoValue Float → Type 0
  Atomic (list vs) = ⊥
  Atomic (dict fs) = ⊥
  Atomic _ = Unit

  pub atom_lem : (v : GoValue Float) → Atomic v → Plain v → marshal lua (unmarshal lua v) ≡ v
  unfolding marshal unmarshal Plain
  atom_lem (boolean b) a h = refl
  atom_lem (float64 x) a h = refl
  atom_lem (string s) a h = refl
  atom_lem (list vs) a h = absurd a
  atom_lem (dict fs) a h = absurd a
  atom_lem nil a h = absurd h
  atom_lem (strings ss) a h = absurd h
  atom_lem (maps ms) a h = absurd h
  atom_lem unsupported a h = absurd h

  pub unmarshal_list-no_items : (i : ℕ) (tb : Entries Float) → unmarshal_list lua no_items i tb ≡ tb
  unfolding unmarshal
  unmarshal_list-no_items i tb = refl

  -- a map with one entry
  pub one_field :
      (k : Bytes) (v : GoValue Float)
      → Plain v
      → marshal lua (unmarshal lua v) ≡ v
      → marshal lua (unmarshal lua (dict (field k v no_fields))) ≡ dict (field k v no_fields)
  unfolding marshal unmarshal check_list number_keys is_number set_field
  one_field k v h back =
      let u = unmarshal lua v in
      ap (λ es. marshal lua (l_table es)) (laws.sets k u (NotNil-unmarshal v h))
      ∙ ap (λ s. dict (field s (marshal lua u) no_fields)) (laws.string_text k)
      ∙ ap (λ x. dict (field k x no_fields)) back
