-- ===== src/Examples/Converter.antt =====
-- Runs of the conversions, over tables that are lists of entries.
use data_collection.Base.{ℕ, ◌≡◌, refl, true, false, none, some, [], Bytes, codes}
use data_collection.Converter.{
  LuaValue, l_number, l_string, boolean, float64, string, list, dict, no_items, item, Fields,
  no_fields, field, no_maps, Lua, marshal, unmarshal, json_marshal, json_un_marshal, written,
}
use data_collection.Converter.Plain.{Plain, PlainFields, Laws, add_entry}
use data_collection.Converter.RoundTrip.{marshal-unmarshal}
use data_collection.Converter.Decoded.{after_lua, encoded_again}

-- a string's text is the string
abbrev text_of : LuaValue ℕ → Bytes
text_of (l_string s) = s
text_of _ = []

-- {"load": [7, true, {"name": "cpu"}]}
abbrev machine : Fields ℕ
machine =
    field (codes "load")
      (list (
        item (float64 7) (
          item (boolean true)
            (item (dict (field (codes "name") (string (codes "cpu")) no_fields)) no_items))))
      no_fields

abbrev lua : Lua ℕ
lua = record {
  table_insert = λ i v tb. add_entry tb (l_number i) v;
  raw_set = λ k v tb. add_entry tb k v;
  to_text = text_of;
  json_marshal = λ v. none;
  json_strings = λ s. (true, []);
  json_map = λ s. (false, machine);
  json_maps = λ s. (true, no_maps);
}

abbrev laws : Laws lua
unfolding add_entry
laws = record {
  number = λ i. i;
  string_text = λ s. refl;
  inserts = λ i tb v array h. refl;
  sets = λ k v h. refl;
}

machine-Plain : PlainFields machine
unfolding Plain
machine-Plain = (tt, (tt, ((tt, tt), tt)))

dict-Plain : Plain (dict machine)
unfolding Plain
dict-Plain = (tt, machine-Plain)

marshal-unmarshal_example : marshal lua (unmarshal lua (dict machine)) ≡ dict machine
marshal-unmarshal_example = marshal-unmarshal lua laws (dict machine) dict-Plain

encoded_again_example :
    json_marshal lua (json_un_marshal lua (codes "{...}"))
    ≡ some (written lua (lua.json_marshal (after_lua machine)))
encoded_again_example = encoded_again lua laws (codes "{...}") machine refl refl machine-Plain
