-- ===== src/Manager/Removal/Indices.antt =====
-- The sorted indices: those of the later elements first, then the first element's as often as it
-- is matched.
use data_collection.Base.{
  ℕ, zero, suc, ◌≤◌, ◌≡◌, refl, sym, ap, ◌∙◌, inl, inr, Bool, true, List, [], ◌∷◌, ◌++◌, append-nil,
  arith, ltb, if◌then◌else◌, Bool-cases, All,
}
use data_collection.Manager.Removal.{indices, all_indices, sort_into, sort_reverse}

sort_into_comm : (a b : ℕ) (l : List ℕ) → sort_into a (sort_into b l) ≡ sort_into b (sort_into a l)
unfolding sort_into
sort_into_comm a b [] = ground arith
sort_into_comm a b (y ∷ l) = ground (arith, sort_into_comm a b l)

-- `m` copies of `i`
unfoldable pub copies : ℕ → ℕ → List ℕ
copies zero i = []
copies (suc m) i = i ∷ copies m i

sort_all : List ℕ → List ℕ → List ℕ
sort_all [] s = s
sort_all (a ∷ l) s = sort_into a (sort_all l s)

sort_reverse-cons : (a : ℕ) (l : List ℕ) → sort_reverse (a ∷ l) ≡ sort_into a (sort_reverse l)
unfolding sort_reverse
sort_reverse-cons a l = refl

sort_reverse-append : (l m : List ℕ) → sort_reverse (l ++ m) ≡ sort_all l (sort_reverse m)
unfolding sort_reverse sort_all
sort_reverse-append [] m = refl
sort_reverse-append (a ∷ l) m = ap (sort_into a) (sort_reverse-append l m)

sort_into-all : (a : ℕ) (l s : List ℕ) → sort_all l (sort_into a s) ≡ sort_into a (sort_all l s)
unfolding sort_all
sort_into-all a [] s = refl
sort_into-all a (b ∷ l) s =
    ap (sort_into b) (sort_into-all a l s) ∙ sort_into_comm b a (sort_all l s)

sort_all_comm : (k l s : List ℕ) → sort_all k (sort_all l s) ≡ sort_all l (sort_all k s)
unfolding sort_all
sort_all_comm [] l s = refl
sort_all_comm (a ∷ k) l s =
    ap (sort_into a) (sort_all_comm k l s) ∙ sym (sort_into-all a l (sort_all k s))

module _ {U A : Type 0} (matches : U → A → Bool) where
  -- how many of the new ones match
  unfoldable pub hits : List U → A → ℕ
  hits [] x = 0
  hits (u ∷ us) x = let rest = hits us x in if matches u x then suc rest else rest

  module _ (u : U) (us : List U) (i : ℕ) (x : A) (running : List A) where
    -- the indices of one more element of the outer loop stand in front
    sorted_front :
        sort_reverse (all_indices matches us i (x ∷ running))
          ≡ sort_all (copies (hits us x) i) (sort_reverse (all_indices matches us (suc i) running))
        → sort_reverse (indices matches u (suc i) running ++ all_indices matches us i (x ∷ running))
          ≡ sort_all (copies (hits us x) i) (
              sort_reverse
                (indices matches u (suc i) running ++ all_indices matches us (suc i) running))
    sorted_front ih =
        let found = indices matches u (suc i) running in
        let later = all_indices matches us (suc i) running in
        sort_reverse-append found (all_indices matches us i (x ∷ running))
        ∙ ap (sort_all found) ih
        ∙ sort_all_comm found (copies (hits us x) i) (sort_reverse later)
        ∙ ap (sort_all (copies (hits us x) i)) (sym (sort_reverse-append found later))

  sorted_step :
      (us : List U) (i : ℕ) (x : A) (running : List A)
      → sort_reverse (all_indices matches us i (x ∷ running))
        ≡ sort_all (copies (hits us x) i) (sort_reverse (all_indices matches us (suc i) running))
  unfolding all_indices indices hits copies sort_all
  sorted_step [] i x running = refl
  sorted_step (u ∷ us) i x running =
      let core = sorted_front u us i x running (sorted_step us i x running) in
      elim (Bool-cases (matches u x)) [
        | inl e ↦ rw e (sort_reverse-cons i _ ∙ ap (sort_into i) core)
        | inr e ↦ rw e core
      ]

abbrev From : ℕ → List ℕ → Type 0
From i l = All (λ s. i ≤ s) l

From-append : (i : ℕ) (l m : List ℕ) → From i l → From i m → From i (l ++ m)
From-append i [] m h k = k
From-append i (a ∷ l) m h k = (h.0, From-append i l m h.1 k)

From-sort_into : (i a : ℕ) (l : List ℕ) → i ≤ a → From i l → From i (sort_into a l)
unfolding sort_into
From-sort_into i a [] h k = (h, tt)
From-sort_into i a (y ∷ l) h k = elim (Bool-cases (ltb a y)) [
  | inl e ↦ rw e (k.0, From-sort_into i a l h k.1)
  | inr e ↦ rw e (h, k)
]

From-sort_reverse : (i : ℕ) (l : List ℕ) → From i l → From i (sort_reverse l)
unfolding sort_reverse
From-sort_reverse i [] h = tt
From-sort_reverse i (a ∷ l) h = From-sort_into i a (sort_reverse l) h.0 (From-sort_reverse i l h.1)

module _ {U A : Type 0} (matches : U → A → Bool) where
  From-indices : (i j : ℕ) (u : U) (running : List A) → i ≤ j → From i (indices matches u j running)
  unfolding indices
  From-indices i j u [] h = tt
  From-indices i j u (x ∷ running) h = elim (Bool-cases (matches u x)) [
    | inl e ↦ rw e (h, From-indices i (suc j) u running (omega arith))
    | inr e ↦ rw e (From-indices i (suc j) u running (omega arith))
  ]

  From-all_indices :
      (i : ℕ) (us : List U) (running : List A) → From i (all_indices matches us i running)
  unfolding all_indices
  From-all_indices i [] running = tt
  From-all_indices i (u ∷ us) running =
      From-append i (indices matches u i running) (all_indices matches us i running)
        (From-indices i i u running (omega arith)) (From-all_indices i us running)

-- an index below all others goes to the end
sort_into_end :
    (i m : ℕ) (s : List ℕ) → From (suc i) s → sort_into i (s ++ copies m i) ≡ s ++ copies (suc m) i
unfolding sort_into copies
sort_into_end i zero [] h = refl
sort_into_end i (suc m) [] h = ground arith
sort_into_end i m (y ∷ s) h =
    let below : ltb i y ≡ true = ground arith in rw below (ap (◌∷◌ y) (sort_into_end i m s h.1))

sort_all_end : (i m : ℕ) (s : List ℕ) → From (suc i) s → sort_all (copies m i) s ≡ s ++ copies m i
unfolding sort_all copies
sort_all_end i zero s h = sym (append-nil s)
sort_all_end i (suc m) s h = ap (sort_into i) (sort_all_end i m s h) ∙ sort_into_end i m s h

-- The sorted indices of a list end in those of its first element.
pub sorted_end :
    {U A : Type 0} (matches : U → A → Bool) (us : List U) (i : ℕ) (x : A) (running : List A)
    → sort_reverse (all_indices matches us i (x ∷ running))
      ≡ sort_reverse (all_indices matches us (suc i) running) ++ copies (hits matches us x) i
sorted_end matches us i x running =
    sorted_step matches us i x running
    ∙ sort_all_end i (hits matches us x) (sort_reverse (all_indices matches us (suc i) running)) (
        From-sort_reverse (suc i) (all_indices matches us (suc i) running)
          (From-all_indices matches (suc i) us running))
