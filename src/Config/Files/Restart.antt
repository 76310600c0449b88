-- ===== src/Config/Files/Restart.antt =====
-- What a start with the plugins on disk makes of the same plugins when the agent sends them again.
use data_collection.Base.{
  ◌≡◌, sym, ap, ◌∙◌, true, false, Option, none, some, List, [], arith, Bytes, bytes_discrete, Assoc,
  keys, contains,
}
use data_collection.Config.Marking.{Json, Settings, try_update_config, parse_plugin_marking}
use data_collection.Config.Marking.Again.{
  known, AllKnown-of, skips, try_update_config-Keeps, parse_plugin_marking_again,
}
use data_collection.Config.Files.{
  Disk, Paths, Start, read_plugin_file, storage_plugin, report_local_plugins, exchange,
  adopt_config, ended, load_running, parse_with, parse, store_documents,
}

module _ {D : Type 0} (json : Json) (disk : Disk D) (get_md5_hash : Bytes → Bytes)
    (paths_of : json.Doc → Paths) where
  abbrev content_of : json.Doc → Start json.Doc D → Assoc Bytes Bytes
  content_of doc s = read_plugin_file disk (paths_of doc) get_md5_hash s.d

  ended-settings :
      (c : Settings json.Doc) (l : List (List Bytes)) (o : Option D) (s' : Start json.Doc D)
      → ended json disk get_md5_hash paths_of c l o ≡ some (s', false)
      → s'.settings ≡ c
  ended-settings c l none s' h = absurd (cc)
  ended-settings c l (some d) s' h = ground arith

  load_running-known :
      (src : Bytes) (doc : json.Doc) (s : Start json.Doc D) (j : Bytes)
      → contains bytes_discrete j (keys (content_of doc s)) ≡ true
      → known j (load_running json disk get_md5_hash paths_of src doc s).0.part ≡ true
  unfolding load_running
  load_running-known src doc s j h =
      (parse_plugin_marking_again json (content_of doc s)
          (exchange (adopt_config json disk get_md5_hash paths_of src doc s.settings))).0
        j h

  -- If Parse succeeds, each plugin that it has read from disk is known: when the agent sends texts with
  -- such hashes only, in whichever selection, they bring no plugin and leave the updates as they are.
  pub parse_then_marking :
      (src : Bytes) (doc : json.Doc) (s s' : Start json.Doc D) (hash_map : Assoc Bytes Bytes)
      → json.new_json src ≡ some doc
      → parse json disk get_md5_hash paths_of src s ≡ some (s', false)
      → ((j : Bytes)
          → contains bytes_discrete j (keys hash_map) ≡ true
          → contains bytes_discrete j (keys (content_of doc s)) ≡ true)
      → ((parse_plugin_marking json hash_map s'.settings).1 ≡ [])
        × ((parse_plugin_marking json hash_map s'.settings).0.part.update ≡ s'.settings.part.update)
  unfolding parse parse_with
  parse_then_marking src doc s s' hash_map e h only =
      let ran : parse_with json disk get_md5_hash paths_of src s (some doc) ≡ some (s', false) =
        ap (parse_with json disk get_md5_hash paths_of src s) (sym e) ∙ h in
      let (c, config_cache) = load_running json disk get_md5_hash paths_of src doc s in
      let same_settings : s'.settings ≡ c =
        ended-settings c (report_local_plugins (content_of doc s) s.local_plugins)
          (storage_plugin disk (paths_of doc) config_cache (
            store_documents json disk get_md5_hash paths_of (paths_of doc) (content_of doc s)
              (get_md5_hash src) s.d))
          s' ran in
      let entered : (j : Bytes)
          → contains bytes_discrete j (keys hash_map) ≡ true
          → known j s'.settings.part ≡ true =
        λ j k.
          ap (λ (x : Settings json.Doc). known j x.part) same_settings
          ∙ load_running-known src doc s j (only j k) in
      let kept = try_update_config-Keeps json hash_map s'.settings in
      let skipped = skips json hash_map s'.settings (
        AllKnown-of s'.settings.plugin_marking hash_map
          (try_update_config json hash_map s'.settings).part
          (λ j k. kept.hashes j (entered j k))) in
      (ap (λ r. r.1) skipped, ap (λ r. r.0.part.update) skipped ∙ kept.update)
