-- ===== src/Converter/Plain.antt =====
-- The Go values that Lua has a value for, and what gopher-lua promises about tables.
use data_collection.Base.{ℕ, suc, ◌≡◌, Bytes}
use data_collection.Converter.{
  LuaValue, l_nil, l_number, l_string, Entries, no_entries, pair, GoValue, boolean, float64, string,
  list, dict, Items, no_items, item, Fields, no_fields, field, Lua,
}

module _ {Float : Type 0} where
  abbrev pub NotEmpty : Fields Float → Type 0
  NotEmpty no_fields = ⊥
  NotEmpty (field k v fs) = Unit

  -- no nil, and maps with one entry
  unfoldable mutual
    pub Plain : GoValue Float → Type 0
    Plain (boolean b) = Unit
    Plain (float64 x) = Unit
    Plain (string s) = Unit
    Plain (list vs) = PlainItems vs
    Plain (dict fs) = NotEmpty fs × PlainFields fs
    Plain _ = ⊥

    pub PlainItems : Items Float → Type 0
    PlainItems no_items = Unit
    PlainItems (item v vs) = Plain v × PlainItems vs

    pub PlainFields : Fields Float → Type 0
    PlainFields no_fields = Unit
    PlainFields (field k v no_fields) = Plain v
    PlainFields (field k v (field j u fs)) = ⊥

  abbrev pub NotNil : LuaValue Float → Type 0
  NotNil l_nil = ⊥
  NotNil _ = Unit

  -- an entry behind the others
  unfoldable pub add_entry : Entries Float → LuaValue Float → LuaValue Float → Entries Float
  add_entry no_entries key value = pair key value no_entries
  add_entry (pair k v es) key value = pair k v (add_entry es key value)

  -- the keys from `suc j` on, up to `i`
  unfoldable pub IsArray : (ℕ → Float) → ℕ → ℕ → Entries Float → Type 0
  IsArray number i j no_entries = i ≡ j
  IsArray number i j (pair k v es) = (k ≡ l_number (number (suc j))) × IsArray number i (suc j) es

-- Insert behind the last element adds an entry that ForEach visits last, RawSet in an empty table leaves
-- that entry only, and a string's text is the string. In which order ForEach visits several entries with
-- string keys is left open, as it is in gopher-lua.
pub record Laws {Float : Type 0} (lua : Lua Float) : Type 0 where
  pub number : ℕ → Float
  pub string_text : (s : Bytes) → lua.to_text (l_string s) ≡ s
  pub inserts :
      (i : ℕ) (tb : Entries Float) (v : LuaValue Float)
      → IsArray number i 0 tb
      → NotNil v
      → lua.table_insert (suc i) v tb ≡ add_entry tb (l_number (number (suc i))) v
  pub sets :
      (key : Bytes) (v : LuaValue Float)
      → NotNil v
      → lua.raw_set (l_string key) v no_entries ≡ pair (l_string key) v no_entries
