-- ===== src/Plugin/Trigger.antt =====
-- When a plugin runs: of every `trigger_interval` calls the last one.
use data_collection.Base.{
  ℕ, zero, suc, ◌/◌, ◌≤◌, ◌<◌, ◌≡◌, sym, ap, ◌∙◌, inl, inr, true, false, ◌&&◌, arith, ◌==◌,
  if◌then◌else◌, Bool-cases, ℤ, pos, negsuc, pos_part, ◌+ℤ◌, ◌≤ℤ◌, ◌<ℤ◌, ltb_ℤ,
}
use native.Mathlib.Nat.{le-div_iff_mul-le}
use data_collection.Plugin.{LuaPlugin, PluginConfig, parse_config, count_call}

at_least_one : (t : ℤ) → pos 1 ≤ℤ (if ltb_ℤ t (pos 1) then pos 1 else t)
at_least_one (pos n) = ground arith
at_least_one (negsuc n) = ground arith

quotient_pos : (g i : ℕ) → 0 < g → g < i → 0 < i / g
quotient_pos g i h k = (le-div_iff_mul-le h).1 (omega arith)

trigger :
    (g i : ℤ)
    → pos 0 <ℤ g
    → g <ℤ i
    → (let interval = pos (pos_part i / pos_part g) in
        let trigger =
          if ltb_ℤ (pos 0) i && ltb_ℤ (pos 0) g && ltb_ℤ g i
          then (if ltb_ℤ (pos 0) interval then interval else pos 0)
          else pos 0 in
        if ltb_ℤ trigger (pos 1) then pos 1 else trigger)
      ≡ pos (pos_part i / pos_part g)
trigger (pos g) (pos i) h k = let l = quotient_pos g i (omega arith) (omega arith) in ground arith
trigger (pos g) (negsuc i) h k = ground arith
trigger (negsuc g) i h k = ground arith

-- The trigger interval of every configuration is at least 1.
pub parse_config_positive : (c : PluginConfig) → pos 1 ≤ℤ parse_config c
unfolding parse_config
parse_config_positive c = search at_least_one

-- Where the global interval is positive and the plugin's is longer, the trigger interval is the quotient
-- of the two.
pub parse_config_lem :
    (c : PluginConfig)
    → pos 0 <ℤ c.global_interval
    → c.global_interval <ℤ c.plugin_interval
    → parse_config c ≡ pos (pos_part c.plugin_interval / pos_part c.global_interval)
unfolding parse_config
parse_config_lem c h k = trigger c.global_interval c.plugin_interval h k

-- `n` calls in a row
abbrev pub calls : ℕ → LuaPlugin → LuaPlugin
calls zero p = p
calls (suc n) p = (count_call (calls n p)).0

pos_suc : (n : ℕ) → pos n +ℤ pos 1 ≡ pos (suc n)
unfolding ◌+ℤ◌
pos_suc n = ground arith

count_call_quiet :
    (p : LuaPlugin) (k n : ℕ)
    → p.trigger_interval ≡ pos (suc k)
    → p.execute_count ≡ pos n
    → n < k
    → count_call p ≡ (record p { execute_count = pos (suc n) }, false)
unfolding count_call
count_call_quiet p k n t z h =
    let e = ap (λ x. x +ℤ pos 1) z ∙ pos_suc n in rw (e, t) (ground arith)

count_call_due :
    (p : LuaPlugin) (k : ℕ)
    → p.trigger_interval ≡ pos (suc k)
    → p.execute_count ≡ pos k
    → count_call p ≡ (record p { execute_count = pos 0 }, true)
unfolding count_call
count_call_due p k t z = let e = ap (λ x. x +ℤ pos 1) z ∙ pos_suc k in rw (e, t) (ground arith)

calls-count :
    (p : LuaPlugin) (k n : ℕ)
    → p.trigger_interval ≡ pos (suc k)
    → p.execute_count ≡ pos 0
    → n ≤ k
    → ((calls n p).trigger_interval ≡ pos (suc k)) × ((calls n p).execute_count ≡ pos n)
calls-count p k zero t z h = (t, z)
calls-count p k (suc n) t z h =
    let (t', z') = calls-count p k n t z (omega arith) in
    let q = count_call_quiet (calls n p) k n t' z' (omega arith) in
    (ap (λ r. r.0.trigger_interval) q ∙ t', ap (λ r. r.0.execute_count) q)

-- Starting right after a run, with the interval suc k: of the first suc k calls exactly the last one
-- runs, and the counter is 0 after it.
pub count_call_period :
    (p : LuaPlugin) (k n : ℕ)
    → p.trigger_interval ≡ pos (suc k)
    → p.execute_count ≡ pos 0
    → n ≤ k
    → ((count_call (calls n p)).1 ≡ (n == k)) × ((calls (suc k) p).execute_count ≡ pos 0)
count_call_period p k n t z h =
    let (tn, zn) = calls-count p k n t z h in
    let (tk, zk) = calls-count p k k t z (omega arith) in
    (
      elim (Bool-cases (n == k)) [
        | inl e ↦
            let same_count : n ≡ k = ground arith in
            ap (λ r. r.1) (count_call_due (calls n p) k tn (zn ∙ ap pos same_count)) ∙ sym e
        | inr e ↦ ap (λ r. r.1) (count_call_quiet (calls n p) k n tn zn (ground arith)) ∙ sym e
      ],
      ap (λ r. r.0.execute_count) (count_call_due (calls k p) k tk zk),
    )
