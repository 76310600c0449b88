-- ===== src/Examples/Files.antt =====
-- Runs with the files of the plugins, over a disk that is an association list.
use data_collection.Base.{
  ◌≡◌, refl, inl, Bool, true, false, Option, none, some, [], ◌∷◌, ◌++◌, arith, pos, Bytes,
  bytes_discrete, codes, Assoc, keys, contains, lookup, insert, delete, lookup-insert_self,
  lookup-delete,
}
use data_collection.Plugin.{PluginConfig}
use data_collection.Manager.{empty_set}
use data_collection.Config.{Config, checkout_config, checkout_hash, checkout_list, del_hash}
use data_collection.Config.Marking.{
  Json, new_plugin_config, from_fields, from_pieces, marking_of, place_config, mark_one, mark_each,
  parse_plugin_marking, try_update_config, adopt, insert_entry, insert_config, parse_category,
  parse_plugin_config, parse_global_config,
}
use data_collection.Config.Files.{
  store_documents, storage_config, Disk, Paths, Start, suffix_of, write_plugin, remove_plugin,
  storage_one, delete_one, storage_plugin, delete_plugin, read_each, read_plugin_file,
  report_local_plugins, adopt_config, load_running, parse_with, parse,
}
use data_collection.Config.Files.Restart.{parse_then_marking}
use data_collection.Config.Files.Lost.{Laws, storage_then_delete}

abbrev disk : Disk (Assoc Bytes Bytes)
disk = record {
  join = λ p q. p ++ codes "/" ++ q;
  is_exists = λ p d. true;
  fetch_files = λ root d. keys d;
  mkdir_all = λ p d. (true, d);
  read_file = λ p d. lookup bytes_discrete p d;
  write_file = λ p text d. (true, insert bytes_discrete p text d);
  remove = λ p d. (true, delete bytes_discrete p d);
}

abbrev paths : Paths
paths = record { root = codes "plugins"; suffixes = (codes "lua", some (codes "lua")) ∷ [] }

abbrev version_of : Bytes → Bytes → PluginConfig
version_of hash source = record {
  plugin = record {
    pattern = codes "lua";
    category = codes "input";
    name = codes "cpu";
    version = codes "1";
    cur_hash = hash;
    path = [];
  };
  source_code = source;
  global_interval = pos 60;
  plugin_interval = pos 60;
}

abbrev old : PluginConfig
old = version_of (codes "h1") (codes "a")

abbrev new : PluginConfig
new = version_of (codes "h2") (codes "b")

laws : Laws disk
laws = record {
  written = λ p content d h. lookup-insert_self bytes_discrete p content d;
  gone = λ p d h. ground (arith, lookup-delete bytes_discrete p p d);
  stays_gone = λ p q d h. ground (arith, lookup-delete bytes_discrete q p d, h);
}

lua_suffix : suffix_of paths new.pattern ≡ some (codes "lua")
unfolding suffix_of lookup bytes_discrete
lua_suffix = refl

-- the old version runs
abbrev config : Config
config = record {
  running = record empty_set { inputs = old ∷ [] };
  running_hash = (codes "h1", 1) ∷ [];
  update = empty_set;
  removal = empty_set;
}

abbrev path : Bytes
path = codes "plugins/input/cpu.lua"

stored : storage_plugin disk paths (new ∷ []) [] ≡ some ((path, codes "b") ∷ [])
unfolding storage_plugin storage_one write_plugin suffix_of lookup insert bytes_discrete
stored = refl

deleted :
    delete_plugin disk paths
      (checkout_config (codes "h1" ∷ []) config []).1
      ((path, codes "b") ∷ [])
    ≡ some []
unfolding delete_plugin delete_one remove_plugin suffix_of lookup delete bytes_discrete
    checkout_config checkout_hash checkout_list del_hash
deleted = refl

storage_then_delete_example :
    (disk.read_file path ((path, codes "b") ∷ []) ≡ some (codes "b"))
    × (disk.read_file path [] ≡ none)
storage_then_delete_example =
    storage_then_delete disk paths old new (codes "lua") laws lua_suffix refl refl refl
      (λ d content h. (refl, refl)) config [] ((path, codes "b") ∷ []) [] refl refl (inl refl)
      stored deleted

abbrev json : Json
json = record {
  Doc = Bytes;
  new_json = λ s. some s;
  entries = λ doc category. [];
  interval = λ doc. pos 60;
  plugin_category = λ doc. codes "input" ∷ [];
  plugin_marking = λ doc. codes "marking";
}

abbrev start : Start Bytes (Assoc Bytes Bytes)
start = record {
  settings = record {
    part = record config { running = empty_set; running_hash = [] };
    interval = pos 0;
    plugin_category = [];
    plugin_marking = [];
    obj = [];
    obj_hash = [];
  };
  d = (path, codes "-- marking:lua,input,cpu,1") ∷ [];
  local_plugins = [];
}

-- the digest is the text
abbrev parsed : Option (Start Bytes (Assoc Bytes Bytes) × Bool)
parsed = parse json disk (λ s. s) (λ doc. paths) (codes "{}") start

abbrev started : Start Bytes (Assoc Bytes Bytes)
started = elim parsed [ none ↦ start | some r ↦ r.0 ]

parsed_lem : parsed ≡ some (started, false)
unfolding parse parse_with load_running storage_plugin storage_one write_plugin suffix_of
    report_local_plugins read_plugin_file read_each adopt_config parse_global_config store_documents
    storage_config parse_plugin_marking mark_each mark_one marking_of place_config from_pieces
    from_fields new_plugin_config parse_plugin_config parse_category insert_config insert_entry
    try_update_config adopt lookup insert keys bytes_discrete
parsed_lem = refl

abbrev texts : Assoc Bytes Bytes
texts = (codes "-- marking:lua,input,cpu,1", codes "-- marking:lua,input,cpu,1") ∷ []

parse_then_marking_example :
    ((parse_plugin_marking json texts started.settings).1 ≡ [])
    × ((parse_plugin_marking json texts started.settings).0.part.update
        ≡ started.settings.part.update)
unfolding read_plugin_file read_each insert keys contains lookup bytes_discrete
parse_then_marking_example =
    parse_then_marking json disk (λ s. s) (λ doc. paths) (codes "{}") (codes "{}") start started
      texts refl parsed_lem (λ j h. h)
