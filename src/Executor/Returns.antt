-- ===== src/Executor/Returns.antt =====
-- That the manager's notify ends.
use data_collection.Base.{
  ℕ, suc, ◌≤◌, ◌<◌, ◌≡◌, refl, ap, ◌⊎◌, inl, inr, Bool, true, false, Option, none, List, [], ◌∷◌,
  ◌++◌, arith, Option-cases, Bytes,
}
use data_collection.Plugin.{PluginError}
use data_collection.Config.Marking.{Json}
use data_collection.Executor.{take_signal}
use data_collection.Executor.Handshake.{
  Loops, Mode, idle, to_replace, to_remove, changed, Step, answered, finished, Reach, Reach-Mode,
}

module _ (json : Json) (do_string : Bytes → Option PluginError) (Box : Type 0) where
  pub data Run : Loops json.Doc → Loops json.Doc → Type 0 where
    stop : (l : Loops json.Doc) → Run l l
    go : {l l' l'' : Loops json.Doc} → Step json do_string Box l l' → Run l' l'' → Run l l''

  abbrev pub steps : {l l' : Loops json.Doc} → Run l l' → ℕ
  steps (stop l) = 0
  steps (go s r) = suc (steps r)

  answer :
      (l : Loops json.Doc) (n : ℕ)
      → n < 2
      → l.waiting ≡ true
      → l.ready ≡ n ∷ []
      → l.finish ≡ []
      → (take_signal json do_string n l.shared ≡ none)
        ⊎ ((l' : Loops json.Doc) × (r : Run l l') × (steps r ≤ 2) × (l'.waiting ≡ false))
  answer l n b w r f = elim (Option-cases (take_signal json do_string n l.shared)) [
    | inl e ↦ inl e
    | inr (s, e) ↦
        let l1 : Loops json.Doc = record l {
          shared = s;
          ready = [];
          finish = l.finish ++ true ∷ [];
        } in
        let l2 : Loops json.Doc = record l1 { finish = []; waiting = false } in
        inr (
          l2,
          go (answered l n [] s b r e)
              (go (finished l1 true [] w (ap (λ (x : List Bool). x ++ true ∷ []) f)) (stop l2)),
          omega arith,
          refl,
        )
  ]

  -- From every reached state in which the manager waits in notify, a run of at most two steps leads back to
  -- Receive, unless the executor panics on the signal.
  pub notify_returns :
      {l : Loops json.Doc}
      → Reach json do_string Box l
      → l.waiting ≡ true
      → ((n : ℕ) × (l.ready ≡ n ∷ []) × (take_signal json do_string n l.shared ≡ none))
        ⊎ ((l' : Loops json.Doc) × (r : Run l l') × (steps r ≤ 2) × (l'.waiting ≡ false))
  notify_returns {l = l} reached w = from (Reach-Mode json do_string Box reached)
    where
      from :
          Mode l
          → ((n : ℕ) × (l.ready ≡ n ∷ []) × (take_signal json do_string n l.shared ≡ none))
            ⊎ ((l' : Loops json.Doc) × (r : Run l l') × (steps r ≤ 2) × (l'.waiting ≡ false))
      from (idle w' r f h) = absurd (ground arith)
      from (to_replace w' r f h) = elim (answer l 0 (omega arith) w r f) [
        | inl e ↦ inl (0, r, e)
        | inr x ↦ inr x
      ]
      from (to_remove w' r f h) = elim (answer l 1 (omega arith) w r f) [
        | inl e ↦ inl (1, r, e)
        | inr x ↦ inr x
      ]
      from (changed w' r f h) = inr (
        record l { finish = []; waiting = false },
        go (finished l true [] w f) (stop _),
        omega arith,
        refl,
      )
