-- ===== src/Converter.antt =====
-- pkg/converter/converter.go: values of Lua and of Go, which become each other on the way to and from
-- JSON. The tables of gopher-lua, its numbers and JSON are parameters; a table is shown as the entries
-- that ForEach visits, in that order. Errors are logged and left out.
pub mod Plain
pub mod Shapes
pub mod Steps
pub mod RoundTrip
pub mod Decoded
use data_collection.Base.{
  ℕ, zero, suc, ◌+◌, ◌-◌, ◌*◌, ◌/◌, ◌%◌, ◌^◌, ◌≤◌, ◌<◌, ◌≡◌, refl, sym, ap, ◌∙◌, subst, ◌≢◌, ◌↔◌,
  ◌⊎◌, inl, inr, ite, if_pos, if_neg, Bool, true, false, not, ◌&&◌, ◌||◌, Option, none, some, List,
  [], ◌∷◌, ◌++◌, map, append-nil, append_assoc, arith, ℕ_discrete, ltb, leb, ltb→lt, leb→le, ◌==◌,
  if◌then◌else◌, Bool-cases, Option-cases, length, get_elem?, take, drop, keep, length-append,
  take-append, drop-append, length-keep-le, keep-append, keep-keep, All, ℤ, pos, negsuc, ℤ_discrete,
  pos_part, neg_part, ◌+ℤ◌, ◌-ℤ◌, ◌≤ℤ◌, ◌<ℤ◌, ltb_ℤ, leb_ℤ, eq_of_parts, Bytes, bytes_discrete,
  codes, Assoc, is_some, keys, same, same_self, contains, contains-keep, lookup, insert, delete,
  delete_all, Distinct, lookup-insert, lookup-insert_self, lookup-delete, lookup-delete_all,
  contains-keys, lookup-delete_kept, insert-Distinct, delete-Distinct, delete_all-Distinct, Outcome,
  ok, err, panic, Exec, pure, fail, crash, gets, attempt, continue, ◌>>=◌, ◌>>◌, modify, IfSome,
  IfSome-elim,
}

-- lua.LValue; the other kinds are functions, threads, user data and channels
mutual
  pub data LuaValue (Float : Type 0) : Type 0 where
    l_nil : LuaValue Float
    l_bool : Bool → LuaValue Float
    l_number : Float → LuaValue Float
    l_string : Bytes → LuaValue Float
    l_table : Entries Float → LuaValue Float
    l_other : LuaValue Float

  pub data Entries (Float : Type 0) : Type 0 where
    no_entries : Entries Float
    pair : LuaValue Float → LuaValue Float → Entries Float → Entries Float

-- interface{}; `strings` is a []string and `maps` a []map[string]interface{}
mutual
  pub data GoValue (Float : Type 0) : Type 0 where
    nil : GoValue Float
    boolean : Bool → GoValue Float
    float64 : Float → GoValue Float
    string : Bytes → GoValue Float
    list : Items Float → GoValue Float
    dict : Fields Float → GoValue Float
    strings : List Bytes → GoValue Float
    maps : Maps Float → GoValue Float
    unsupported : GoValue Float

  pub data Items (Float : Type 0) : Type 0 where
    no_items : Items Float
    item : GoValue Float → Items Float → Items Float

  pub data Fields (Float : Type 0) : Type 0 where
    no_fields : Fields Float
    field : Bytes → GoValue Float → Fields Float → Fields Float

  pub data Maps (Float : Type 0) : Type 0 where
    no_maps : Maps Float
    one_map : Fields Float → Maps Float → Maps Float

-- gopher-lua and encoding/json; an error of json.Unmarshal stands beside the value that it leaves
pub record Lua (Float : Type 0) : Type 0 where
  -- LTable.Insert and LTable.RawSet
  pub table_insert : ℕ → LuaValue Float → Entries Float → Entries Float
  pub raw_set : LuaValue Float → LuaValue Float → Entries Float → Entries Float
  -- LValue.String
  pub to_text : LuaValue Float → Bytes
  pub json_marshal : GoValue Float → Option Bytes
  pub json_strings : Bytes → Bool × List Bytes
  pub json_map : Bytes → Bool × Fields Float
  pub json_maps : Bytes → Bool × Maps Float

-- key.Type().String() == "number"
unfoldable pub is_number : {Float : Type 0} → LuaValue Float → Bool
is_number (l_number x) = true
is_number _ = false

unfoldable pub number_keys : {Float : Type 0} → Entries Float → Bool
number_keys no_entries = true
number_keys (pair key value es) = is_number key && number_keys es

unfoldable pub check_list : {Float : Type 0} → LuaValue Float → Bool
unfolding number_keys
check_list (l_table es) = number_keys es
check_list _ = false

-- dict[key] = value
unfoldable pub set_field : {Float : Type 0} → Bytes → GoValue Float → Fields Float → Fields Float
set_field key value no_fields = field key value no_fields
set_field key value (field k v fs) =
    if same bytes_discrete k key then field k value fs else field k v (set_field key value fs)

abbrev pub list_or_dict : {Float : Type 0} → Bool → Items Float → Fields Float → GoValue Float
list_or_dict true vs fs = list vs
list_or_dict false vs fs = dict fs

module _ {Float : Type 0} (lua : Lua Float) where
  unfoldable mutual
    unfolding check_list set_field

    pub marshal : LuaValue Float → GoValue Float
    marshal (l_table es) =
        list_or_dict (check_list (l_table es)) (marshal_list es) (marshal_dict es no_fields)
    marshal (l_number x) = float64 x
    marshal (l_string s) = string s
    marshal (l_bool b) = boolean b
    marshal _ = nil

    pub marshal_list : Entries Float → Items Float
    marshal_list no_entries = no_items
    marshal_list (pair key value es) = item (marshal value) (marshal_list es)

    pub marshal_dict : Entries Float → Fields Float → Fields Float
    marshal_dict no_entries acc = acc
    marshal_dict (pair key value es) acc =
        marshal_dict es (set_field (lua.to_text key) (marshal value) acc)

  -- `i` elements are in the table before
  unfoldable pub insert_strings : List Bytes → ℕ → Entries Float → Entries Float
  insert_strings [] i tb = tb
  insert_strings (s ∷ ss) i tb =
      insert_strings ss (suc i) (lua.table_insert (suc i) (l_string s) tb)

  unfoldable mutual
    unfolding insert_strings

    pub unmarshal : GoValue Float → LuaValue Float
    unmarshal (dict fs) = l_table (unmarshal_dict fs no_entries)
    unmarshal (maps ms) = l_table (unmarshal_maps ms 0 no_entries)
    unmarshal (list vs) = l_table (unmarshal_list vs 0 no_entries)
    unmarshal (strings ss) = l_table (insert_strings ss 0 no_entries)
    unmarshal (float64 x) = l_number x
    unmarshal (string s) = l_string s
    unmarshal (boolean b) = l_bool b
    unmarshal _ = l_nil

    pub unmarshal_dict : Fields Float → Entries Float → Entries Float
    unmarshal_dict no_fields tb = tb
    unmarshal_dict (field k v fs) tb = unmarshal_dict fs (lua.raw_set (l_string k) (unmarshal v) tb)

    pub unmarshal_list : Items Float → ℕ → Entries Float → Entries Float
    unmarshal_list no_items i tb = tb
    unmarshal_list (item v vs) i tb =
        unmarshal_list vs (suc i) (lua.table_insert (suc i) (unmarshal v) tb)

    pub unmarshal_maps : Maps Float → ℕ → Entries Float → Entries Float
    unmarshal_maps no_maps i tb = tb
    unmarshal_maps (one_map fs ms) i tb =
        unmarshal_maps ms (suc i)
          (lua.table_insert (suc i) (l_table (unmarshal_dict fs no_entries)) tb)

  -- on an error str is nil
  abbrev pub written : Option Bytes → LuaValue Float
  written none = l_string []
  written (some str) = l_string str

  -- The text that is pushed; what L.ToTable gives for anything but a table is a nil pointer, which none
  -- stands for: Marshal would follow it.
  unfoldable pub json_marshal : LuaValue Float → Option (LuaValue Float)
  unfolding marshal
  json_marshal (l_table es) = some (written (lua.json_marshal (marshal (l_table es))))
  json_marshal _ = none

  -- The value that the call returns: the last one on the stack, which holds the argument below what is pushed.
  unfoldable pub json_un_marshal : Bytes → LuaValue Float
  unfolding unmarshal
  json_un_marshal str =
      let (failed, string_array) = lua.json_strings str in
      let (map_failed, map_obj) = lua.json_map str in
      let (maps_failed, map_array) = lua.json_maps str in
      if not failed
      then unmarshal (strings string_array)
      else if not map_failed
      then unmarshal (dict map_obj)
      else if not maps_failed
      then unmarshal (maps map_array)
      else l_string str

  unfoldable pub array_un_marshal : Bytes → LuaValue Float
  unfolding unmarshal
  array_un_marshal str =
      let (failed, array) = lua.json_strings str in
      let (maps_failed, obj) = lua.json_maps str in
      if failed then unmarshal (maps obj) else unmarshal (strings array)
