-- ===== src/Config/Files.antt =====
-- config/config.go: the files of the plugins, and Parse, which reads the configuration and those files at
-- the start. The file system and the digest are parameters; what the code logs is left out.
pub mod Restart
pub mod Lost
use data_collection.Base.{
  ℕ, zero, suc, ◌+◌, ◌-◌, ◌*◌, ◌/◌, ◌%◌, ◌^◌, ◌≤◌, ◌<◌, ◌≡◌, refl, sym, ap, ◌∙◌, subst, ◌≢◌, ◌↔◌,
  ◌⊎◌, inl, inr, ite, if_pos, if_neg, Bool, true, false, not, ◌&&◌, ◌||◌, Option, none, some, List,
  [], ◌∷◌, ◌++◌, map, append-nil, append_assoc, arith, ℕ_discrete, ltb, leb, ltb→lt, leb→le, ◌==◌,
  if◌then◌else◌, Bool-cases, Option-cases, length, get_elem?, take, drop, keep, length-append,
  take-append, drop-append, length-keep-le, keep-append, keep-keep, All, ℤ, pos, negsuc, ℤ_discrete,
  pos_part, neg_part, ◌+ℤ◌, ◌-ℤ◌, ◌≤ℤ◌, ◌<ℤ◌, ltb_ℤ, leb_ℤ, eq_of_parts, Bytes, bytes_discrete,
  codes, Assoc, is_some, keys, same, same_self, contains, contains-keep, lookup, insert, delete,
  delete_all, Distinct, lookup-insert, lookup-insert_self, lookup-delete, lookup-delete_all,
  contains-keys, lookup-delete_kept, insert-Distinct, delete-Distinct, delete_all-Distinct, Outcome,
  ok, err, panic, Exec, pure, fail, crash, gets, attempt, continue, ◌>>=◌, ◌>>◌, modify,
}
use data_collection.Plugin.{Plugin, PluginConfig}
use data_collection.Manager.{PluginSet}
use data_collection.Config.{Config}
use data_collection.Config.Marking.{
  Json, Settings, mark_each, parse_plugin_marking, parse_plugin_config, parse_global_config,
}

-- path.Join, util.IsExists, util.FetchFiles and the calls of package os; a Bool tells whether a call succeeds
pub record Disk (D : Type 0) : Type 0 where
  pub join : Bytes → Bytes → Bytes
  pub is_exists : Bytes → D → Bool
  pub fetch_files : Bytes → D → List Bytes
  pub mkdir_all : Bytes → D → Bool × D
  pub read_file : Bytes → D → Option Bytes
  pub write_file : Bytes → Bytes → D → Bool × D
  pub remove : Bytes → D → Bool × D

-- PluginRootPath, and pluginSuffix, where none stands for a value that is no string
pub record Paths : Type 0 where
  pub root : Bytes
  pub suffixes : Assoc Bytes (Option Bytes)

-- none for the panic of a type assertion
unfoldable pub suffix_of : Paths → Bytes → Option Bytes
suffix_of paths pattern = elim (lookup bytes_discrete pattern paths.suffixes) [
  | none ↦ some (codes "plugin")
  | some suffix ↦ suffix
]

module _ {D : Type 0} (disk : Disk D) (paths : Paths) where
  abbrev pub dir_of : PluginConfig → Bytes
  dir_of unit = disk.join paths.root unit.category

  abbrev pub path_of : PluginConfig → Bytes → Bytes
  path_of unit suffix = disk.join (dir_of unit) (unit.name ++ codes "." ++ suffix)

  -- behind the directory
  unfoldable pub write_plugin : PluginConfig → D → Option D
  unfolding suffix_of
  write_plugin unit d = elim (suffix_of paths unit.pattern) [
    | none ↦ none
    | some suffix ↦ some (disk.write_file (path_of unit suffix) unit.source_code d).1
  ]

  unfoldable pub remove_plugin : PluginConfig → D → Option D
  unfolding suffix_of
  remove_plugin unit d = elim (suffix_of paths unit.pattern) [
    | none ↦ none
    | some suffix ↦ some (disk.remove (path_of unit suffix) d).1
  ]

  -- the bodies of the loops of StoragePlugin and DeletePlugin
  unfoldable pub storage_one : PluginConfig → D → Option D
  unfolding write_plugin
  storage_one unit d =
      let (made, d') = disk.mkdir_all (dir_of unit) d in
      if disk.is_exists (dir_of unit) d
      then write_plugin unit d
      else if made
      then write_plugin unit d'
      else some d'

  unfoldable pub delete_one : PluginConfig → D → Option D
  unfolding remove_plugin
  delete_one unit d = if disk.is_exists (dir_of unit) d then remove_plugin unit d else some d

  unfoldable pub storage_plugin : List PluginConfig → D → Option D
  unfolding storage_one
  storage_plugin [] d = some d
  storage_plugin (unit ∷ cache) d = elim (storage_one unit d) [
    | none ↦ none
    | some d' ↦ storage_plugin cache d'
  ]

  unfoldable pub delete_plugin : List PluginConfig → D → Option D
  unfolding delete_one
  delete_plugin [] d = some d
  delete_plugin (unit ∷ cache) d = elim (delete_one unit d) [
    | none ↦ none
    | some d' ↦ delete_plugin cache d'
  ]

  module _ (get_md5_hash : Bytes → Bytes) where
    -- the loop of readPluginFile
    unfoldable pub read_each : List Bytes → D → Assoc Bytes Bytes → Assoc Bytes Bytes
    read_each [] d content = content
    read_each (file ∷ files) d content = read_each files d (elim (disk.read_file file d) [
      | none ↦ content
      | some text ↦ insert bytes_discrete (get_md5_hash text) text content
    ])

    unfoldable pub read_plugin_file : D → Assoc Bytes Bytes
    unfolding read_each
    read_plugin_file d = read_each (disk.fetch_files paths.root d) d []

-- LocalPluginChan has room for one message; a full channel drops it.
unfoldable pub report_local_plugins : Assoc Bytes Bytes → List (List Bytes) → List (List Bytes)
unfolding keys
report_local_plugins content ch = if is_some (get_elem? ch 0) then ch else keys content ∷ []

-- what Parse changes
pub record Start (Doc D : Type 0) : Type 0 where
  pub settings : Settings Doc
  pub d : D
  pub local_plugins : List (List Bytes)

-- ParsePluginMarking and ParsePluginConfig fill the set that they are given: here the running plugins,
-- which stand in the place of the updates while they do.
abbrev pub exchange : {Doc : Type 0} → Settings Doc → Settings Doc
exchange c = record c { part = record c.part { running = c.part.update; update = c.part.running } }

module _ {D : Type 0} (json : Json) (disk : Disk D) (get_md5_hash : Bytes → Bytes)
    (paths_of : json.Doc → Paths) where
  -- up to the plugin files
  unfoldable pub adopt_config : Bytes → json.Doc → Settings json.Doc → Settings json.Doc
  unfolding parse_global_config
  adopt_config src doc c =
      let hash = get_md5_hash src in
      parse_global_config json (record c {
        part = record c.part { running_hash = insert bytes_discrete hash 1 c.part.running_hash };
        obj = doc;
        obj_hash = hash;
      })

  abbrev pub ended :
      Settings json.Doc → List (List Bytes) → Option D → Option (Start json.Doc D × Bool)
  ended c local_plugins none = none
  ended c local_plugins (some d) =
      some (record { settings = c; d = d; local_plugins = local_plugins }, false)

  -- storageConfig
  unfoldable pub storage_config : Paths → Bytes → D → D
  storage_config paths buffer d =
      let dir = disk.join (disk.join paths.root (codes "..")) (codes "config") in
      let file_path = disk.join dir (codes "collect.json") in
      let (made, d') = disk.mkdir_all dir d in
      if disk.is_exists dir d
      then (disk.write_file file_path buffer d).1
      else if made
      then (disk.write_file file_path buffer d').1
      else d'

  -- what tryUpdateConfig writes to the disk, from the hash of the document in use
  unfoldable pub store_documents : Paths → Assoc Bytes Bytes → Bytes → D → D
  unfolding storage_config
  store_documents paths [] obj_hash d = d
  store_documents paths ((hash, src) ∷ hash_map) obj_hash d =
      let skipped = store_documents paths hash_map obj_hash d in
      let stored = store_documents paths hash_map hash (storage_config paths src d) in
      if is_some (json.new_json src) && not (same bytes_discrete obj_hash hash)
      then stored
      else skipped

  -- the settings after the running plugins have been read, and what StoragePlugin is given
  unfoldable pub load_running :
      Bytes → json.Doc → Start json.Doc D → Settings json.Doc × List PluginConfig
  unfolding adopt_config read_plugin_file mark_each parse_plugin_config
  load_running src doc s =
      let content = read_plugin_file disk (paths_of doc) get_md5_hash s.d in
      let (part, config_cache) =
        parse_plugin_marking json content (exchange (adopt_config src doc s.settings)) in
      let running =
        parse_plugin_config json part.interval part.obj part.plugin_category part.part.update in
      (exchange (record part { part = record part.part { update = running } }), config_cache)

  unfoldable pub parse_with :
      Bytes → Start json.Doc D → Option json.Doc → Option (Start json.Doc D × Bool)
  unfolding load_running storage_plugin report_local_plugins store_documents
  parse_with src s none = some (s, true)
  parse_with src s (some doc) =
      let (c, config_cache) = load_running src doc s in
      let content = read_plugin_file disk (paths_of doc) get_md5_hash s.d in
      let d1 = store_documents (paths_of doc) content (get_md5_hash src) s.d in
      ended c (report_local_plugins content s.local_plugins)
        (storage_plugin disk (paths_of doc) config_cache d1)

  -- none for a panic, and otherwise whether Parse returns an error
  unfoldable pub parse : Bytes → Start json.Doc D → Option (Start json.Doc D × Bool)
  unfolding parse_with
  parse src s = parse_with src s (json.new_json src)
