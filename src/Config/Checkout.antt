-- ===== src/Config/Checkout.antt =====
-- What CheckoutConfig collects, and what it collects for a plugin that is loaded a second time.
use data_collection.Base.{
  ◌≡◌, refl, ap, ◌∙◌, inl, inr, List, [], ◌∷◌, ◌++◌, append-nil, append_assoc, Bool-cases, keep,
  keep-append, Bytes, bytes_discrete, same, same_self, delete, delete_all,
}
use data_collection.Plugin.{PluginConfig}
use data_collection.Manager.{PluginSet}
use data_collection.Config.{
  Config, del_hash, checkout_list, checkout_hash, checkout_config, replace_running_config,
  remove_delete_config,
}

abbrev pub with_hash : Bytes → List PluginConfig → List PluginConfig
with_hash hash confs = keep (λ conf. same bytes_discrete conf.cur_hash hash) confs

-- the configurations of each hash in turn
unfoldable pub with_hashes : List Bytes → List PluginConfig → List PluginConfig
with_hashes [] confs = []
with_hashes (hash ∷ hash_list) confs = with_hash hash confs ++ with_hashes hash_list confs

pub checkout_list_lem :
    (hash : Bytes) (confs removal cache : List PluginConfig)
    → checkout_list hash confs removal cache
      ≡ (removal ++ with_hash hash confs, cache ++ with_hash hash confs)
unfolding checkout_list keep
checkout_list_lem hash [] removal cache = rw (append-nil removal, append-nil cache) refl
checkout_list_lem hash (conf ∷ confs) removal cache =
    elim (Bool-cases (same bytes_discrete conf.cur_hash hash)) [
      | inl e ↦ rw e (
          checkout_list_lem hash confs (removal ++ conf ∷ []) (cache ++ conf ∷ [])
          ∙ rw
              (
                append_assoc removal (conf ∷ []) (with_hash hash confs),
                append_assoc cache (conf ∷ []) (with_hash hash confs),
              )
              refl)
      | inr e ↦ rw e (checkout_list_lem hash confs removal cache)
    ]

-- the lists of a set, each with what is collected for it behind
abbrev pub collected :
    List Bytes → PluginSet PluginConfig → PluginSet PluginConfig → PluginSet PluginConfig
collected hash_list running removal = record {
  inputs = removal.inputs ++ with_hashes hash_list running.inputs;
  processors = removal.processors ++ with_hashes hash_list running.processors;
  aggregators = removal.aggregators ++ with_hashes hash_list running.aggregators;
  outputs = removal.outputs ++ with_hashes hash_list running.outputs;
}

abbrev pub checked_out : List Bytes → Config → Config
checked_out hash_list c = record c {
  running_hash = delete_all bytes_discrete hash_list c.running_hash;
  removal = collected hash_list c.running c.removal;
}

checkout_hash_lem :
    (hash : Bytes) (c : Config) (cache : List PluginConfig)
    → (checkout_hash hash c cache).0 ≡ record c {
      running_hash = delete bytes_discrete hash c.running_hash;
      removal = record {
        inputs = c.removal.inputs ++ with_hash hash c.running.inputs;
        processors = c.removal.processors ++ with_hash hash c.running.processors;
        aggregators = c.removal.aggregators ++ with_hash hash c.running.aggregators;
        outputs = c.removal.outputs ++ with_hash hash c.running.outputs;
      };
    }
unfolding checkout_hash del_hash
checkout_hash_lem hash c cache =
    rw (checkout_list_lem hash c.running.inputs c.removal.inputs cache) (
      rw (checkout_list_lem hash c.running.processors c.removal.processors _) (
        rw (checkout_list_lem hash c.running.aggregators c.removal.aggregators _)
          (rw (checkout_list_lem hash c.running.outputs c.removal.outputs _) refl)))

-- In each category CheckoutConfig appends to what is to be deleted the running configurations of every
-- listed hash, hash by hash; it forgets those hashes and leaves the running configurations and the
-- updates as they are.
pub checkout_config_lem :
    (hash_list : List Bytes) (c : Config) (cache : List PluginConfig)
    → (checkout_config hash_list c cache).0 ≡ checked_out hash_list c
unfolding checkout_config with_hashes delete_all
checkout_config_lem [] c cache =
    rw
      (
        append-nil c.removal.inputs,
        append-nil c.removal.processors,
        append-nil c.removal.aggregators,
        append-nil c.removal.outputs,
      )
      refl
checkout_config_lem (hash ∷ hash_list) c cache =
    let first = checkout_hash hash c cache in
    let running = c.running in
    let removal = c.removal in
    checkout_config_lem hash_list first.0 first.1
    ∙ ap (checked_out hash_list) (checkout_hash_lem hash c cache)
    ∙ (rw
        (
          append_assoc removal.inputs (with_hash hash running.inputs)
              (with_hashes hash_list running.inputs),
          append_assoc removal.processors (with_hash hash running.processors)
              (with_hashes hash_list running.processors),
          append_assoc removal.aggregators (with_hash hash running.aggregators)
              (with_hashes hash_list running.aggregators),
          append_assoc removal.outputs (with_hash hash running.outputs)
              (with_hashes hash_list running.outputs),
        )
        refl)

abbrev pub updated : PluginConfig → Config → Config
updated conf c =
    replace_running_config (record c { update = record c.update { inputs = conf ∷ [] } })

abbrev pub deleted : Bytes → Config → Config
deleted hash c = (checkout_config (hash ∷ []) c []).0

with_hash_self : (conf : PluginConfig) → with_hash conf.cur_hash (conf ∷ []) ≡ conf ∷ []
unfolding keep
with_hash_self conf = rw (same_self bytes_discrete conf.cur_hash) refl

with_hash_twice :
    (conf : PluginConfig) (confs : List PluginConfig)
    → with_hash conf.cur_hash confs ≡ []
    → with_hash conf.cur_hash ((confs ++ conf ∷ []) ++ conf ∷ []) ≡ conf ∷ conf ∷ []
with_hash_twice conf confs h =
    let p = λ (x : PluginConfig). same bytes_discrete x.cur_hash conf.cur_hash in
    keep-append p (confs ++ conf ∷ []) (conf ∷ [])
    ∙ ap (λ l. l ++ with_hash conf.cur_hash (conf ∷ [])) (keep-append p confs (conf ∷ []))
    ∙ rw (h, with_hash_self conf) refl

-- Where no running input has its hash, an input that ReplaceRunningConfig takes over as the only input
-- to update, CheckoutConfig and RemoveDeleteConfig delete, and the same calls load and delete again is
-- listed twice for the second deletion, since the first has left it among the running configurations.
pub deleted_again :
    (c : Config) (conf : PluginConfig)
    → with_hash conf.cur_hash c.running.inputs ≡ []
    → (deleted conf.cur_hash (
        updated conf
          (remove_delete_config (deleted conf.cur_hash (updated conf c))))).removal.inputs
      ≡ conf ∷ conf ∷ []
unfolding replace_running_config remove_delete_config with_hashes
deleted_again c conf h =
    let hash = conf.cur_hash in
    let once = deleted hash (updated conf c) in
    let kept : once.running.inputs ≡ c.running.inputs ++ conf ∷ [] =
      ap (λ (d : Config). d.running.inputs) (checkout_config_lem (hash ∷ []) (updated conf c) []) in
    let again = updated conf (remove_delete_config once) in
    ap (λ (d : Config). d.removal.inputs) (checkout_config_lem (hash ∷ []) again [])
    ∙ append-nil (with_hash hash again.running.inputs)
    ∙ ap (λ l. with_hash hash (l ++ conf ∷ [])) kept
    ∙ with_hash_twice conf c.running.inputs h
