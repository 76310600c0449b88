-- ===== src/Config/Files/Lost.antt =====
-- What the deletion of a plugin does to the file of its next version.
use data_collection.Base.{
  IfSome, IfSome-elim, ◌≡◌, refl, sym, ap, ◌∙◌, subst, ◌⊎◌, inl, inr, Bool, true, Option, none,
  some, List, [], ◌∷◌, ◌++◌, arith, Bool-cases, Option-cases, keep, Bytes, bytes_discrete, codes,
  same, same_self,
}
use data_collection.Plugin.{PluginConfig}
use data_collection.Config.{Config, checkout_hash, checkout_config, del_hash}
use data_collection.Config.Checkout.{with_hash, checkout_list_lem}
use data_collection.Config.Files.{
  Disk, Paths, suffix_of, dir_of, path_of, write_plugin, remove_plugin, storage_one, delete_one,
  storage_plugin, delete_plugin,
}

-- `conf` stands in the list
abbrev pub Has : PluginConfig → List PluginConfig → Type 0
Has conf [] = ⊥
Has conf (x ∷ l) = (x ≡ conf) ⊎ Has conf l

Has-append_left : (conf : PluginConfig) (l r : List PluginConfig) → Has conf l → Has conf (l ++ r)
Has-append_left conf [] r h = absurd h
Has-append_left conf (x ∷ l) r (inl e) = inl e
Has-append_left conf (x ∷ l) r (inr h) = inr (Has-append_left conf l r h)

Has-keep :
    (p : PluginConfig → Bool) (conf : PluginConfig) (l : List PluginConfig)
    → p conf ≡ true
    → Has conf l
    → Has conf (keep p l)
unfolding keep
Has-keep p conf [] t h = absurd h
Has-keep p conf (x ∷ l) t (inl e) = rw (ap p e ∙ t) (inl e)
Has-keep p conf (x ∷ l) t (inr h) = elim (Bool-cases (p x)) [
  | inl k ↦ rw k (inr (Has-keep p conf l t h))
  | inr k ↦ rw k (Has-keep p conf l t h)
]

-- CheckoutConfig puts a running input of the hash into the list whose files are deleted.
checkout_config-Has :
    (conf : PluginConfig) (c : Config)
    → Has conf c.running.inputs
    → Has conf (checkout_config (conf.cur_hash ∷ []) c []).1
unfolding checkout_config checkout_hash del_hash
checkout_config-Has conf c h =
    let w = λ (l : List PluginConfig). with_hash conf.cur_hash l in
    let found : Has conf (w c.running.inputs) =
      Has-keep (λ x. same bytes_discrete x.cur_hash conf.cur_hash) conf c.running.inputs
        (same_self bytes_discrete conf.cur_hash) h in
    rw (checkout_list_lem conf.cur_hash c.running.inputs c.removal.inputs []) (
      rw (checkout_list_lem conf.cur_hash c.running.processors c.removal.processors _) (
        rw (checkout_list_lem conf.cur_hash c.running.aggregators c.removal.aggregators _) (
          rw (checkout_list_lem conf.cur_hash c.running.outputs c.removal.outputs _) (
            Has-append_left conf _ (w c.running.outputs) (
              Has-append_left conf _ (w c.running.aggregators)
                (Has-append_left conf _ (w c.running.processors) found))))))

-- What package os and util.IsExists say of a file: one that has been written reads as the text, one that
-- has been removed reads as nothing, and a removal brings no file back. Writes and removals may fail.
pub record Laws {D : Type 0} (disk : Disk D) : Type 0 where
  pub written :
      (p text : Bytes) (d : D)
      → (disk.write_file p text d).0 ≡ true
      → disk.read_file p (disk.write_file p text d).1 ≡ some text
  pub gone :
      (p : Bytes) (d : D) → (disk.remove p d).0 ≡ true → disk.read_file p (disk.remove p d).1 ≡ none
  pub stays_gone :
      (p q : Bytes) (d : D)
      → disk.read_file p d ≡ none
      → disk.read_file p (disk.remove q d).1 ≡ none

module _ {D : Type 0} (disk : Disk D) (paths : Paths) (old new : PluginConfig) (suffix : Bytes)
    (laws : Laws disk) (known_suffix : suffix_of paths new.pattern ≡ some suffix)
    (same_pattern : old.pattern ≡ new.pattern) (same_category : old.category ≡ new.category)
    (same_name : old.name ≡ new.name) where
  abbrev Absent : D → Type 0
  Absent d = disk.read_file (path_of disk paths new suffix) d ≡ none

  -- Where the file is there, so is its directory, and os.Remove of it succeeds.
  abbrev pub Removable : Type 0
  Removable =
      (d : D) (content : Bytes)
      → disk.read_file (path_of disk paths new suffix) d ≡ some content
      → (disk.is_exists (dir_of disk paths new) d ≡ true)
        × ((disk.remove (path_of disk paths new suffix) d).0 ≡ true)

  removed :
      (unit : PluginConfig) (d : D) → Absent d → IfSome Absent (remove_plugin disk paths unit d)
  unfolding remove_plugin
  removed unit d h = elim (Option-cases (suffix_of paths unit.pattern)) [
    | inl e ↦ rw (e, remove_plugin, IfSome) tt
    | inr (x, e) ↦
        rw (e, remove_plugin, IfSome)
          (laws.stays_gone (path_of disk paths new suffix) (path_of disk paths unit x) d h)
  ]

  stays : (unit : PluginConfig) (d : D) → Absent d → IfSome Absent (delete_one disk paths unit d)
  unfolding delete_one
  stays unit d h = elim (Bool-cases (disk.is_exists (dir_of disk paths unit) d)) [
    | inl e ↦ rw e (removed unit d h)
    | inr e ↦ rw e h
  ]

  goes-there :
      (d : D)
      → disk.is_exists (dir_of disk paths new) d ≡ true
      → (disk.remove (path_of disk paths new suffix) d).0 ≡ true
      → IfSome Absent (delete_one disk paths old d)
  unfolding delete_one remove_plugin
  goes-there d exists removes =
      let there : disk.is_exists (dir_of disk paths old) d ≡ true =
        ap (λ x. disk.is_exists (disk.join paths.root x) d) same_category ∙ exists in
      let suffixed : suffix_of paths old.pattern ≡ some suffix =
        ap (suffix_of paths) same_pattern ∙ known_suffix in
      let same_path : path_of disk paths old suffix ≡ path_of disk paths new suffix =
        ap (λ x. disk.join (disk.join paths.root x) (old.name ++ codes "." ++ suffix)) same_category
        ∙ ap (λ x. disk.join (dir_of disk paths new) (x ++ codes "." ++ suffix)) same_name in
      rw there (
        rw (suffixed, remove_plugin, IfSome)
          (subst (λ q. disk.read_file (path_of disk paths new suffix) (disk.remove q d).1 ≡ none)
            (sym same_path) (laws.gone (path_of disk paths new suffix) d removes)))

  goes : Removable → (d : D) → IfSome Absent (delete_one disk paths old d)
  goes removable d = elim (Option-cases (disk.read_file (path_of disk paths new suffix) d)) [
    | inl e ↦ stays old d e
    | inr (content, e) ↦ goes-there d (removable d content e).0 (removable d content e).1
  ]

  stays-all :
      (cache : List PluginConfig) (d : D)
      → Absent d
      → IfSome Absent (delete_plugin disk paths cache d)
  unfolding delete_plugin
  stays-all [] d h = h
  stays-all (unit ∷ cache) d h =
      IfSome-elim Absent Absent (delete_one disk paths unit d)
        (λ d'. delete_plugin disk paths cache d') (stays unit d h) (λ d' h'. stays-all cache d' h')

  anything : (o : Option D) → IfSome (λ (d : D). Unit {0}) o
  anything none = tt
  anything (some d) = tt

  goes-all :
      Removable
      → (cache : List PluginConfig) (d : D) → Has old cache
      → IfSome Absent (delete_plugin disk paths cache d)
  unfolding delete_plugin
  goes-all removable [] d h = absurd h
  goes-all removable (unit ∷ cache) d (inl e) =
      IfSome-elim Absent Absent (delete_one disk paths unit d)
        (λ d'. delete_plugin disk paths cache d')
        (subst (λ u. IfSome Absent (delete_one disk paths u d)) (sym e) (goes removable d))
        (λ d' h'. stays-all cache d' h')
  goes-all removable (unit ∷ cache) d (inr h) =
      IfSome-elim (λ (d' : D). Unit {0}) Absent (delete_one disk paths unit d)
        (λ d'. delete_plugin disk paths cache d') (anything (delete_one disk paths unit d))
        (λ d' _. goes-all removable cache d' h)

  storage_one-written :
      (d : D)
      → disk.is_exists (dir_of disk paths new) d ≡ true
      → storage_one disk paths new d
        ≡ some (disk.write_file (path_of disk paths new suffix) new.source_code d).1
  unfolding storage_one write_plugin
  storage_one-written d exists = rw exists (rw (known_suffix, write_plugin) refl)

  -- Where a new version of a running input is stored and the old version is then deleted by its hash, as
  -- the agent asks for, the file that was just written is gone: both versions have the same path.
  -- Conditions: the file system keeps `Laws`; the versions have one name, one category and one pattern, for
  -- which pluginSuffix has a text; the directory is there and the file can be written at the start, and it
  -- can be removed where it is; and neither call panics.
  pub storage_then_delete :
      Removable
      → (c : Config) (d d1 d2 : D) → disk.is_exists (dir_of disk paths new) d ≡ true
      → (disk.write_file (path_of disk paths new suffix) new.source_code d).0 ≡ true
      → Has old c.running.inputs
      → storage_plugin disk paths (new ∷ []) d ≡ some d1
      → delete_plugin disk paths (checkout_config (old.cur_hash ∷ []) c []).1 d1 ≡ some d2
      → (disk.read_file (path_of disk paths new suffix) d1 ≡ some new.source_code)
        × (disk.read_file (path_of disk paths new suffix) d2 ≡ none)
  unfolding storage_plugin
  storage_then_delete removable c d d1 d2 exists writes h stored deleted =
      let written : (disk.write_file (path_of disk paths new suffix) new.source_code d).1 ≡ d1 =
        ground (arith, storage_one-written d exists, stored) in
      (
        ap (disk.read_file (path_of disk paths new suffix)) (sym written)
            ∙ laws.written (path_of disk paths new suffix) new.source_code d writes,
        subst (IfSome Absent) deleted (
            goes-all removable (checkout_config (old.cur_hash ∷ []) c []).1 d1
              (checkout_config-Has old c h)),
      )
