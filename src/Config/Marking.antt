-- ===== src/Config/Marking.antt =====
-- config/config.go: which configuration the text of a plugin stands for, and how a hash map of such texts
-- and of configuration documents is taken over. JSON and the files are parameters; an entry of a
-- document is what the code reads of it.
pub mod Again
use data_collection.Base.{
  ℕ, zero, suc, ◌+◌, ◌-◌, ◌*◌, ◌/◌, ◌%◌, ◌^◌, ◌≤◌, ◌<◌, ◌≡◌, refl, sym, ap, ◌∙◌, subst, ◌≢◌, ◌↔◌,
  ◌⊎◌, inl, inr, ite, if_pos, if_neg, Bool, true, false, not, ◌&&◌, ◌||◌, Option, none, some, List,
  [], ◌∷◌, ◌++◌, map, append-nil, append_assoc, arith, ℕ_discrete, ltb, leb, ltb→lt, leb→le, ◌==◌,
  if◌then◌else◌, Bool-cases, Option-cases, length, get_elem?, take, drop, keep, length-append,
  take-append, drop-append, length-keep-le, keep-append, keep-keep, All, ℤ, pos, negsuc, ℤ_discrete,
  pos_part, neg_part, ◌+ℤ◌, ◌-ℤ◌, ◌≤ℤ◌, ◌<ℤ◌, ltb_ℤ, leb_ℤ, eq_of_parts, Bytes, bytes_discrete,
  codes, Assoc, is_some, keys, same, same_self, contains, contains-keep, lookup, insert, delete,
  delete_all, Distinct, lookup-insert, lookup-insert_self, lookup-delete, lookup-delete_all,
  contains-keys, lookup-delete_kept, insert-Distinct, delete-Distinct, delete_all-Distinct, Outcome,
  ok, err, panic, Exec, pure, fail, crash, gets, attempt, continue, ◌>>=◌, ◌>>◌, modify,
}
use data_collection.Plugin.{Plugin, PluginConfig}
use data_collection.Manager.{PluginSet, empty_set}
use data_collection.Config.{Config, compare_hash}
use data_collection.Config.Text.{
  contains_text, split, split_from, trim_space, trim_left, trim_right,
}

-- one element of the array of a category: pattern and name, which may be missing, and the interval
pub record Entry : Type 0 where
  pub pattern : Option Bytes
  pub name : Option Bytes
  pub interval : ℤ

-- simplejson: NewJson, the array of a category, and what parseGlobalConfig reads of the global settings
pub record Json : Type 1 where
  pub Doc : Type 0
  pub new_json : Bytes → Option Doc
  pub entries : Doc → Bytes → List Entry
  pub interval : Doc → ℤ
  pub plugin_category : Doc → List Bytes
  pub plugin_marking : Doc → Bytes

-- config.Config as a whole, around the part that the manager changes
pub record Settings (Doc : Type 0) : Type 0 where
  pub part : Config
  pub interval : ℤ
  pub plugin_category : List Bytes
  pub plugin_marking : Bytes
  pub obj : Doc
  pub obj_hash : Bytes

-- the fields that NewPluginConfig does not name are 0
unfoldable pub new_plugin_config :
    Bytes → Bytes → Bytes → Bytes → Bytes → Bytes → Bytes → PluginConfig
new_plugin_config pattern category name version hash path source_code = record {
  plugin = record {
    pattern = pattern;
    category = category;
    name = name;
    version = version;
    cur_hash = hash;
    path = path;
  };
  source_code = source_code;
  global_interval = pos 0;
  plugin_interval = pos 0;
}

-- behind the split by commas
unfoldable pub from_fields : Bytes → Bytes → List Bytes → Option PluginConfig
unfolding new_plugin_config
from_fields hash source (pattern ∷ category ∷ name ∷ version ∷ more) =
    some (new_plugin_config pattern category name version hash [] source)
from_fields hash source (pattern ∷ category ∷ name ∷ []) = none
from_fields hash source (pattern ∷ category ∷ []) = none
from_fields hash source (pattern ∷ []) = none
from_fields hash source [] = none

-- behind the split by the marking and a colon
unfoldable pub from_pieces : Bytes → Bytes → List Bytes → Option PluginConfig
unfolding from_fields split_from trim_left trim_right
from_pieces hash source (before ∷ text ∷ more) =
    from_fields hash source (split (trim_space text) (codes ","))
from_pieces hash source (before ∷ []) = none
from_pieces hash source [] = none

-- the loop over the lines: the first line with a whole marking counts
unfoldable pub marking_of : Bytes → Bytes → Bytes → List Bytes → Option PluginConfig
unfolding contains_text split_from from_pieces
marking_of mark hash source [] = none
marking_of mark hash source (line ∷ lines) =
    let rest = marking_of mark hash source lines in
    if contains_text mark line
    then elim (from_pieces hash source (split line (mark ++ codes ":"))) [
      | none ↦ rest
      | some conf ↦ some conf
    ]
    else rest

-- a category that is none of the four goes nowhere
unfoldable pub place_config : PluginConfig → PluginSet PluginConfig → PluginSet PluginConfig
place_config conf s =
    if not (same bytes_discrete conf.pattern (codes "lua"))
    then s
    else if same bytes_discrete conf.category (codes "input")
    then record s { inputs = s.inputs ++ conf ∷ [] }
    else if same bytes_discrete conf.category (codes "processor")
    then record s { processors = s.processors ++ conf ∷ [] }
    else if same bytes_discrete conf.category (codes "aggregator")
    then record s { aggregators = s.aggregators ++ conf ∷ [] }
    else if same bytes_discrete conf.category (codes "output")
    then record s { outputs = s.outputs ++ conf ∷ [] }
    else s

-- one round of the loop of ParsePluginMarking over the hash map, into the set of updates
unfoldable pub mark_one : Bytes → Bytes → Bytes → Config → Config × List PluginConfig
unfolding compare_hash marking_of place_config
mark_one mark hash source c =
    let (is_new, c') = compare_hash hash c in
    if is_new
    then elim (marking_of mark hash source (split source (codes "\n"))) [
      | none ↦ (c', [])
      | some conf ↦ (record c' { update = place_config conf c'.update }, conf ∷ [])
    ]
    else (c', [])

unfoldable pub mark_each : Bytes → Assoc Bytes Bytes → Config → Config × List PluginConfig
unfolding mark_one
mark_each mark [] c = (c, [])
mark_each mark ((hash, source) ∷ hash_map) c =
    let (c1, found) = mark_one mark hash source c in
    let (c2, more) = mark_each mark hash_map c1 in (c2, found ++ more)

-- the inner body of insertConfig, for one configuration and one element
unfoldable pub insert_entry : ℤ → Entry → PluginConfig → PluginConfig
insert_entry global e rc = elim e.pattern [
  | none ↦ rc
  | some pattern ↦ elim e.name [
    | none ↦ rc
    | some name ↦
        if same bytes_discrete rc.pattern pattern && same bytes_discrete rc.name name
        then record rc {
          global_interval = global;
          plugin_interval =
              if leb_ℤ e.interval (pos 0) && leb_ℤ (pos 0) e.interval then global else e.interval;
        }
        else rc
  ]
]

unfoldable pub insert_config : ℤ → List Entry → List PluginConfig → List PluginConfig
unfolding insert_entry
insert_config global [] raw = raw
insert_config global (e ∷ es) raw = insert_config global es (map (insert_entry global e) raw)

-- what tryUpdateConfig does with a document
unfoldable pub adopt : {Doc : Type 0} → Bytes → Doc → Settings Doc → Settings Doc
adopt hash doc c = if same bytes_discrete c.obj_hash hash then c else record c {
  part = record c.part { running_hash = insert bytes_discrete hash 1 c.part.running_hash };
  obj = doc;
  obj_hash = hash;
}

module _ (json : Json) where
  -- the loop of tryUpdateConfig
  unfoldable pub try_update_config : Assoc Bytes Bytes → Settings json.Doc → Settings json.Doc
  unfolding adopt
  try_update_config [] c = c
  try_update_config ((hash, src) ∷ hash_map) c = elim (json.new_json src) [
    | none ↦ try_update_config hash_map c
    | some doc ↦ try_update_config hash_map (adopt hash doc c)
  ]

  unfoldable pub parse_plugin_marking :
      Assoc Bytes Bytes → Settings json.Doc → Settings json.Doc × List PluginConfig
  unfolding try_update_config mark_each
  parse_plugin_marking hash_map c =
      let c' = try_update_config hash_map c in
      let (part, cache) = mark_each c'.plugin_marking hash_map c'.part in
      (record c' { part = part }, cache)

  -- one round of ParsePluginConfig
  unfoldable pub parse_category :
      ℤ → json.Doc → Bytes → PluginSet PluginConfig → PluginSet PluginConfig
  unfolding insert_config
  parse_category global obj category s =
      if same bytes_discrete category (codes "input")
      then record s { inputs = insert_config global (json.entries obj category) s.inputs }
      else if same bytes_discrete category (codes "processor")
      then record s { processors = insert_config global (json.entries obj category) s.processors }
      else if same bytes_discrete category (codes "aggregator")
      then record s { aggregators = insert_config global (json.entries obj category) s.aggregators }
      else if same bytes_discrete category (codes "output")
      then record s { outputs = insert_config global (json.entries obj (codes "output")) s.outputs }
      else s

  unfoldable pub parse_plugin_config :
      ℤ → json.Doc → List Bytes → PluginSet PluginConfig → PluginSet PluginConfig
  unfolding parse_category
  parse_plugin_config global obj [] s = s
  parse_plugin_config global obj (category ∷ categories) s =
      parse_plugin_config global obj categories (parse_category global obj category s)

  -- parseGlobalConfig, as ReplaceRunningConfig calls it
  unfoldable pub parse_global_config : Settings json.Doc → Settings json.Doc
  parse_global_config c = record c {
    interval = json.interval c.obj;
    plugin_category = json.plugin_category c.obj;
    plugin_marking = json.plugin_marking c.obj;
  }
