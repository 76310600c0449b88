-- ===== src/Converter/RoundTrip.antt =====
-- A Go value that becomes a Lua value and comes back.
use data_collection.Base.{ℕ, suc, ◌≡◌, sym, ap, ◌∙◌, true}
use data_collection.Converter.{
  l_number, Entries, no_entries, GoValue, list, dict, Items, no_items, item, no_fields, field, Lua,
  number_keys, marshal, marshal_list, unmarshal, unmarshal_list,
}
use data_collection.Converter.Plain.{Plain, PlainItems, add_entry, IsArray, Laws}
use data_collection.Converter.Shapes.{
  append_items, append_items_assoc, append_items-no_items, IsArray-add_entry, number_keys-IsArray,
  no_entries-IsArray,
}
use data_collection.Converter.Steps.{
  marshal_list-add_entry, marshal-list_table, marshal_list-no_entries, unmarshal-list,
  unmarshal_list-item, atom_lem, unmarshal_list-no_items, one_field,
}

module _ {Float : Type 0} (lua : Lua Float) (laws : Laws lua) where
  mutual
    unfolding Plain

    value_lem : (v : GoValue Float) → Plain v → marshal lua (unmarshal lua v) ≡ v
    value_lem (list vs) h =
        let (numbers, e) = list_lem vs 0 no_entries h (no_entries-IsArray laws.number) in
        ap (marshal lua) (unmarshal-list lua laws vs)
        ∙ marshal-list_table lua laws (unmarshal_list lua vs 0 no_entries) numbers
        ∙ ap list (e ∙ marshal_list-no_entries lua laws vs)
    value_lem (dict no_fields) (some_field, h) = absurd some_field
    value_lem (dict (field k v no_fields)) (some_field, h) =
        one_field lua laws k v h (value_lem v h)
    value_lem (dict (field k v (field j u fs))) (some_field, h) = absurd h
    value_lem v h = atom_lem lua laws v tt h

    list_lem :
        (vs : Items Float) (i : ℕ) (tb : Entries Float)
        → PlainItems vs
        → IsArray laws.number i 0 tb
        → (number_keys (unmarshal_list lua vs i tb) ≡ true)
          × (marshal_list lua (unmarshal_list lua vs i tb) ≡ append_items (marshal_list lua tb) vs)
    list_lem no_items i tb h array = (
      ap number_keys (unmarshal_list-no_items lua laws i tb)
          ∙ number_keys-IsArray laws.number i 0 tb array,
      ap (marshal_list lua) (unmarshal_list-no_items lua laws i tb)
          ∙ sym (append_items-no_items (marshal_list lua tb)),
    )
    list_lem (item v vs) i tb (h, hs) array =
        let u = unmarshal lua v in
        let us = marshal_list lua tb in
        let tb' = add_entry tb (l_number (laws.number (suc i))) u in
        let step = unmarshal_list-item lua laws v vs i tb (h, hs) array in
        let (numbers, e) =
          list_lem vs (suc i) tb' hs (IsArray-add_entry laws.number i 0 tb u array) in
        (
          ap number_keys step ∙ numbers,
          ap (marshal_list lua) step
              ∙ e
              ∙ ap (λ ws. append_items ws vs)
                  (marshal_list-add_entry lua laws (l_number (laws.number (suc i))) u tb)
              ∙ ap (λ w. append_items (append_items us (item w no_items)) vs) (value_lem v h)
              ∙ append_items_assoc us v vs,
        )

  -- A Go value comes back from Lua as it was. Conditions: gopher-lua keeps `Laws`, and the value is `Plain`:
  -- without nil, of lists, maps, texts, numbers and Booleans only, and each map has one entry.
  pub marshal-unmarshal : (v : GoValue Float) → Plain v → marshal lua (unmarshal lua v) ≡ v
  marshal-unmarshal = value_lem
