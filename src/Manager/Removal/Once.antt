-- ===== src/Manager/Removal/Once.antt =====
-- When the removal loop does what it is for.
use data_collection.Base.{
  ℕ, ◌≤◌, ◌≡◌, refl, ◌∙◌, ◌⊎◌, inl, inr, Bool, not, some, List, [], ◌∷◌, ◌++◌, append-nil, arith,
  leb, if◌then◌else◌, keep, All,
}
use data_collection.Manager.Removal.{remove_matching}
use data_collection.Manager.Removal.Indices.{hits}
use data_collection.Manager.Removal.Exact.{shed, survivors, remove_matching-survivors}

module _ {U A : Type 0} (matches : U → A → Bool) (us : List U) where
  unfoldable pub matched : A → Bool
  matched x = leb 1 (hits matches us x)

  -- no element is matched by more than one of `us`
  abbrev pub MatchedOnce : List A → Type 0
  MatchedOnce running = All (λ x. hits matches us x ≤ 1) running

  -- the elements that are matched, from the back
  abbrev pub gone : List A → List A
  gone [] = []
  gone (x ∷ running) = let rest = gone running in if matched x then rest ++ x ∷ [] else rest

  survivors-once :
      (running : List A)
      → MatchedOnce running
      → survivors matches us running ≡ some (keep (λ x. not (matched x)) running, gone running)
  unfolding survivors matched keep
  survivors-once [] h = refl
  survivors-once (x ∷ running) h =
      rw (survivors-once running h.1) (elim (at_most_one (hits matches us x) h.0) [
        | inl e ↦ rw e (unfold shed in rw (append-nil (gone running)))
        | inr e ↦ rw e (unfold shed in refl)
      ])
    where
      at_most_one : (n : ℕ) → n ≤ 1 → (n ≡ 0) ⊎ (n ≡ 1)
      at_most_one n h = ground arith

  -- If no running element is matched by more than one of `us`, the loop leaves the elements that none
  -- matches, in their order, and closes the others, the last one first.
  pub remove_matching_once :
      (running : List A)
      → MatchedOnce running
      → remove_matching matches us running
        ≡ some (keep (λ x. not (matched x)) running, gone running)
  remove_matching_once running h =
      remove_matching-survivors matches us running ∙ survivors-once running h
