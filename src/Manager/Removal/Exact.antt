-- ===== src/Manager/Removal/Exact.antt =====
-- What the removal loop does, exactly: from the back, each element is cut out as often as it is
-- matched, and a second cut at its place takes what stands behind it.
use data_collection.Base.{
  ℕ, zero, suc, ◌≡◌, refl, ap, ◌∙◌, inl, inr, Bool, Option, none, some, List, [], ◌∷◌, ◌++◌,
  append-nil, append_assoc, arith, Option-cases, length, length-append,
}
use data_collection.Manager.Removal.{
  ◌>>?◌, indices, all_indices, sort_reverse, cut, cut_each, remove_matching,
}
use data_collection.Manager.Removal.Indices.{hits, copies, sorted_end}

abbrev Halves : Type 0 → Type 0
Halves A = List A × List A

module _ {A : Type 0} where
  abbrev in_front : A → (Halves A) → Option (Halves A)
  in_front x (d, r) = some (x ∷ d, r)

  abbrev behind : List A → List A → (Halves A) → Option (Halves A)
  behind pre closed (d, r) = some (pre ++ r, closed ++ d)

  abbrev taken : List A → (Halves A) → Option (Halves A)
  taken closed (d, r) = some (r, closed ++ d)

  abbrev kept_behind : List A → (Halves A) → Option (Halves A)
  kept_behind pre (r, c) = some (pre ++ r, c)

  -- the first `m` elements and the others, a panic if there are fewer
  unfoldable pub shed : ℕ → List A → Option (List A × List A)
  shed zero l = some ([], l)
  shed (suc m) [] = none
  shed (suc m) (x ∷ l) = shed m l >>? in_front x

  shed_more :
      (o : Option (List A × List A)) (pre closed : List A) (x : A)
      → (o >>? behind pre (closed ++ x ∷ [])) ≡ (o >>? in_front x >>? behind pre closed)
  shed_more none pre closed x = refl
  shed_more (some (d, r)) pre closed x = rw (append_assoc closed (x ∷ []) d)

  cut_end : (pre : List A) → cut (length pre) (pre ++ []) ≡ none
  unfolding cut
  cut_end [] = refl
  cut_end (p ∷ pre) = rw (cut_end pre)

  cut_middle :
      (pre : List A) (x : A) (l : List A) → cut (length pre) (pre ++ x ∷ l) ≡ some (x, pre ++ l)
  unfolding cut
  cut_middle [] x l = refl
  cut_middle (p ∷ pre) x l = rw (cut_middle pre x l)

  -- cutting again and again at one place
  cut_copies :
      (m : ℕ) (pre l closed : List A)
      → cut_each (copies m (length pre)) (pre ++ l) closed ≡ (shed m l >>? behind pre closed)
  unfolding cut_each copies shed
  cut_copies zero pre l closed = rw (append-nil closed)
  cut_copies (suc m) pre [] closed = rw (cut_end pre)
  cut_copies (suc m) pre (x ∷ l) closed =
      rw (cut_middle pre x l)
        (cut_copies m pre l (closed ++ x ∷ []) ∙ shed_more (shed m l) pre closed x)

  cut_each-append :
      (is js : List ℕ) (running closed : List A)
      → cut_each (is ++ js) running closed
        ≡ (cut_each is running closed >>? λ (r, c). cut_each js r c)
  unfolding cut_each
  cut_each-append [] js running closed = refl
  cut_each-append (i ∷ is) js running closed = elim (Option-cases (cut i running)) [
    | inl e ↦ rw e
    | inr (p, e) ↦ rw e (cut_each-append is js p.1 (closed ++ p.0 ∷ []))
  ]

module _ {U A : Type 0} (matches : U → A → Bool) where
  -- Survivors and closed elements, by recursion from the back of the list.
  unfoldable pub survivors : List U → List A → Option (List A × List A)
  unfolding shed hits
  survivors us [] = some ([], [])
  survivors us (x ∷ running) = survivors us running >>? λ (kept, closed).
      shed (hits matches us x) (x ∷ kept) >>? taken closed

  all_indices_nil : (us : List U) (i : ℕ) → all_indices matches us i [] ≡ []
  unfolding all_indices indices
  all_indices_nil [] i = refl
  all_indices_nil (u ∷ us) i = all_indices_nil us i

  module _ (us : List U) (pre : List A) (x : A) where
    abbrev cut_here : (Halves A) → Option (Halves A)
    cut_here (r, c) = cut_each (copies (hits matches us x) (length pre)) r c

    abbrev shed_here : (Halves A) → Option (Halves A)
    shed_here (kept, closed) = shed (hits matches us x) (x ∷ kept) >>? taken closed

    regroup :
        (closed : List A) (o : Option (Halves A))
        → (o >>? behind pre closed) ≡ (o >>? taken closed >>? kept_behind pre)
    regroup closed none = refl
    regroup closed (some p) = refl

    finish :
        (o : Option (Halves A))
        → (o >>? kept_behind (pre ++ x ∷ []) >>? cut_here) ≡ (o >>? shed_here >>? kept_behind pre)
    finish none = refl
    finish (some (kept, closed)) = rw (append_assoc pre (x ∷ []) kept) (
        cut_copies (hits matches us x) pre (x ∷ kept) closed
        ∙ regroup closed (shed (hits matches us x) (x ∷ kept)))

  length-snoc : (pre : List A) (x : A) → length (pre ++ x ∷ []) ≡ suc (length pre)
  length-snoc pre x = omega (arith, length-append pre (x ∷ []))

  remove_behind :
      (us : List U) (pre running : List A)
      → cut_each (sort_reverse (all_indices matches us (length pre) running)) (pre ++ running) []
        ≡ (survivors us running >>? kept_behind pre)
  unfolding survivors
  remove_behind us pre [] =
      rw (all_indices_nil us (length pre)) (unfold sort_reverse cut_each in refl)
  remove_behind us pre (x ∷ running) =
      let ih = remove_behind us (pre ++ x ∷ []) running in
      let moved = rw (length-snoc pre x, append_assoc pre (x ∷ []) running) at ih in
      rw (sorted_end matches us (length pre) x running) (
        cut_each-append (sort_reverse (all_indices matches us (suc (length pre)) running))
          (copies (hits matches us x) (length pre)) (pre ++ x ∷ running) []
        ∙ ap (λ (o : Option (Halves A)). o >>? cut_here us pre x) moved
        ∙ finish us pre x (survivors us running))

  same_halves : (o : Option (Halves A)) → (o >>? kept_behind []) ≡ o
  same_halves none = refl
  same_halves (some p) = refl

  -- The removal loop computes the survivors: each running element is cut out once for every new
  -- one that it matches, and cuts beyond the first take the elements behind it, or panic.
  pub remove_matching-survivors :
      (us : List U) (running : List A) → remove_matching matches us running ≡ survivors us running
  unfolding remove_matching
  remove_matching-survivors us running =
      remove_behind us [] running ∙ same_halves (survivors us running)
