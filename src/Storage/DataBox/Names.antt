-- ===== src/Storage/DataBox/Names.antt =====
-- Which plugins share an item.
use data_collection.Base.{◌≡◌, refl, sym, ◌∙◌, ◌≢◌, [], ◌∷◌, ◌++◌, append_assoc, All, Bytes}
use data_collection.Storage.DataBox.{combine}

-- no underscore
abbrev pub Unmarked : Bytes → Type 0
Unmarked s = All (λ c. c ≢ 95) s

same_parts :
    (a b s t : Bytes) → Unmarked a → Unmarked b → a ++ 95 ∷ s ≡ b ++ 95 ∷ t → (a ≡ b) × (s ≡ t)
same_parts [] [] s t ha hb e = (refl, cc)
same_parts [] (y ∷ b) s t ha hb e = absurd (hb.0 cc)
same_parts (x ∷ a) [] s t ha hb e = absurd (ha.0 cc)
same_parts (x ∷ a) (y ∷ b) s t ha hb e = let (p, q) = same_parts a b s t ha.1 hb.1 cc in (cc, q)

combine_parts :
    (category name version : Bytes)
    → combine category name version ≡ category ++ 95 ∷ (name ++ 95 ∷ version)
unfolding combine
combine_parts category name version =
    let u : Bytes = 95 ∷ [] in
    append_assoc (category ++ u ++ name) u version
    ∙ append_assoc (category ++ u) name (u ++ version)
    ∙ append_assoc category u (name ++ (u ++ version))

-- Plugins whose categories and names have no underscore share an item only if all three of their names
-- are the same.
pub combine_injective :
    (category1 name1 version1 category2 name2 version2 : Bytes)
    → Unmarked category1
    → Unmarked name1
    → Unmarked category2
    → Unmarked name2
    → combine category1 name1 version1 ≡ combine category2 name2 version2
    → (category1 ≡ category2) × (name1 ≡ name2) × (version1 ≡ version2)
combine_injective category1 name1 version1 category2 name2 version2 hc1 hn1 hc2 hn2 e =
    let (c, r) =
      same_parts category1 category2 (name1 ++ 95 ∷ version1) (name2 ++ 95 ∷ version2) hc1 hc2 (
        sym (combine_parts category1 name1 version1)
        ∙ e
        ∙ combine_parts category2 name2 version2) in
    let (n, v) = same_parts name1 name2 version1 version2 hn1 hn2 r in (c, n, v)
