-- ===== src/Converter/Decoded.antt =====
-- A JSON object that a script decodes and encodes again.
use data_collection.Base.{◌≡◌, refl, ap, ◌∙◌, true, false, some, Bytes}
use data_collection.Converter.{
  GoValue, list, dict, no_items, Fields, no_fields, field, Lua, number_keys, check_list, marshal,
  unmarshal, json_marshal, json_un_marshal, written,
}
use data_collection.Converter.Plain.{Plain, PlainFields, Laws}
use data_collection.Converter.RoundTrip.{marshal-unmarshal}

-- the map as it is after Lua: the empty one is a list
abbrev pub after_lua : {Float : Type 0} → Fields Float → GoValue Float
after_lua no_fields = list no_items
after_lua (field k v fs) = dict (field k v fs)

module _ {Float : Type 0} (lua : Lua Float) (laws : Laws lua) where
  empty_map_lem : marshal lua (unmarshal lua (dict no_fields)) ≡ list no_items
  unfolding marshal unmarshal check_list number_keys
  empty_map_lem = refl

  marshal-unmarshal_map :
      (fs : Fields Float) → PlainFields fs → marshal lua (unmarshal lua (dict fs)) ≡ after_lua fs
  unfolding Plain
  marshal-unmarshal_map no_fields h = empty_map_lem
  marshal-unmarshal_map (field k v fs) h = marshal-unmarshal lua laws (dict (field k v fs)) (tt, h)

  decoded_lem :
      (str : Bytes) (fs : Fields Float)
      → (lua.json_strings str).0 ≡ true
      → lua.json_map str ≡ (false, fs)
      → json_un_marshal lua str ≡ unmarshal lua (dict fs)
  unfolding json_un_marshal
  decoded_lem str fs failed decoded = rw failed (rw decoded refl)

  json_marshal-table :
      (fs : Fields Float)
      → json_marshal lua (unmarshal lua (dict fs))
        ≡ some (written lua (lua.json_marshal (marshal lua (unmarshal lua (dict fs)))))
  unfolding json_marshal unmarshal
  json_marshal-table fs = refl

  -- An object with one entry that a script decodes by JsonUnMarshal and encodes by JsonMarshal is written as
  -- it was read, but the empty one is written as an empty list. Conditions: gopher-lua keeps `Laws`, the
  -- text is no array of texts and decodes to the map, and the value of the entry is `Plain`.
  pub encoded_again :
      (str : Bytes) (fs : Fields Float)
      → (lua.json_strings str).0 ≡ true
      → lua.json_map str ≡ (false, fs)
      → PlainFields fs
      → json_marshal lua (json_un_marshal lua str)
        ≡ some (written lua (lua.json_marshal (after_lua fs)))
  encoded_again str fs failed decoded h =
      ap (json_marshal lua) (decoded_lem str fs failed decoded)
      ∙ json_marshal-table fs
      ∙ ap (λ v. some (written lua (lua.json_marshal v))) (marshal-unmarshal_map fs h)
