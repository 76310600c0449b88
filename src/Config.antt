-- ===== src/Config.antt =====
-- config/config.go: the configurations of the plugins that run, that are to be updated and that are to
-- be deleted, and the hashes of the sources that are loaded. Logging, locks, the global settings and
-- the files are left out.
pub mod Checkout
pub mod Text
pub mod Marking
pub mod Files
use data_collection.Base.{
  ℕ, zero, suc, ◌+◌, ◌-◌, ◌*◌, ◌/◌, ◌%◌, ◌^◌, ◌≤◌, ◌<◌, ◌≡◌, refl, sym, ap, ◌∙◌, subst, ◌≢◌, ◌↔◌,
  ◌⊎◌, inl, inr, ite, if_pos, if_neg, Bool, true, false, not, ◌&&◌, ◌||◌, Option, none, some, List,
  [], ◌∷◌, ◌++◌, map, append-nil, append_assoc, arith, ℕ_discrete, ltb, leb, ltb→lt, leb→le, ◌==◌,
  if◌then◌else◌, Bool-cases, Option-cases, length, get_elem?, take, drop, keep, length-append,
  take-append, drop-append, length-keep-le, keep-append, keep-keep, All, ℤ, pos, negsuc, ℤ_discrete,
  pos_part, neg_part, ◌+ℤ◌, ◌-ℤ◌, ◌≤ℤ◌, ◌<ℤ◌, ltb_ℤ, leb_ℤ, eq_of_parts, Bytes, bytes_discrete,
  codes, Assoc, is_some, keys, same, same_self, contains, contains-keep, lookup, insert, delete,
  delete_all, Distinct, lookup-insert, lookup-insert_self, lookup-delete, lookup-delete_all,
  contains-keys, lookup-delete_kept, insert-Distinct, delete-Distinct, delete_all-Distinct, Outcome,
  ok, err, panic, Exec, pure, fail, crash, gets, attempt, continue, ◌>>=◌, ◌>>◌, modify,
}
use data_collection.Plugin.{Plugin, PluginConfig}
use data_collection.Manager.{PluginSet, empty_set}

pub record Config : Type 0 where
  pub running : PluginSet PluginConfig
  pub running_hash : Assoc Bytes ℕ
  pub update : PluginSet PluginConfig
  pub removal : PluginSet PluginConfig

-- deleting a key that is not there does nothing
unfoldable pub del_hash : Bytes → Config → Config
del_hash hash c = record c { running_hash = delete bytes_discrete hash c.running_hash }

unfoldable pub compare_hash : Bytes → Config → Bool × Config
compare_hash hash c =
    if is_some (lookup bytes_discrete hash c.running_hash)
    then (false, c)
    else (true, record c { running_hash = insert bytes_discrete hash 1 c.running_hash })

-- one loop of CheckoutConfig: what is to be deleted, and the cache
unfoldable pub checkout_list :
    Bytes
    → List PluginConfig
    → List PluginConfig
    → List PluginConfig
    → List PluginConfig × List PluginConfig
checkout_list hash [] removal cache = (removal, cache)
checkout_list hash (conf ∷ confs) removal cache =
    let found = checkout_list hash confs (removal ++ conf ∷ []) (cache ++ conf ∷ []) in
    let rest = checkout_list hash confs removal cache in
    if same bytes_discrete conf.cur_hash hash then found else rest

unfoldable pub checkout_hash : Bytes → Config → List PluginConfig → Config × List PluginConfig
unfolding checkout_list del_hash
checkout_hash hash c0 cache0 =
    let c = del_hash hash c0 in
    let (inputs, cache1) = checkout_list hash c.running.inputs c.removal.inputs cache0 in
    let (processors, cache2) =
      checkout_list hash c.running.processors c.removal.processors cache1 in
    let (aggregators, cache3) =
      checkout_list hash c.running.aggregators c.removal.aggregators cache2 in
    let (outputs, cache4) = checkout_list hash c.running.outputs c.removal.outputs cache3 in
    let removal : PluginSet PluginConfig = record {
      inputs = inputs;
      processors = processors;
      aggregators = aggregators;
      outputs = outputs;
    } in
    (record c { removal = removal }, cache4)

unfoldable pub checkout_config :
    List Bytes → Config → List PluginConfig → Config × List PluginConfig
unfolding checkout_hash
checkout_config [] c cache = (c, cache)
checkout_config (hash ∷ hash_list) c cache =
    let (c', cache') = checkout_hash hash c cache in checkout_config hash_list c' cache'

-- ReplaceRunningConfig behind the global settings
unfoldable pub replace_running_config : Config → Config
replace_running_config c = record c {
  running = record {
    inputs = c.running.inputs ++ c.update.inputs;
    processors = c.running.processors ++ c.update.processors;
    aggregators = c.running.aggregators ++ c.update.aggregators;
    outputs = c.running.outputs ++ c.update.outputs;
  };
  update = empty_set;
}

unfoldable pub remove_delete_config : Config → Config
remove_delete_config c = record c { removal = empty_set }

unfoldable pub len : Config → ℕ
len c =
    length c.running.inputs
    + length c.running.processors
    + length c.running.aggregators
    + length c.running.outputs
