-- ===== src/Converter/Shapes.antt =====
-- Lists of elements, of fields and of a table's entries, as the conversions build them.
use data_collection.Base.{ℕ, suc, ◌≡◌, refl, ap, true}
use data_collection.Converter.{
  LuaValue, l_number, Entries, no_entries, pair, GoValue, Items, no_items, item, is_number,
  number_keys,
}
use data_collection.Converter.Plain.{add_entry, IsArray}

module _ {Float : Type 0} where
  unfoldable pub append_items : Items Float → Items Float → Items Float
  append_items no_items ws = ws
  append_items (item v vs) ws = item v (append_items vs ws)

  pub append_items_assoc :
      (us : Items Float) (v : GoValue Float) (ws : Items Float)
      → append_items (append_items us (item v no_items)) ws ≡ append_items us (item v ws)
  unfolding append_items
  append_items_assoc no_items v ws = refl
  append_items_assoc (item u us) v ws = ap (item u) (append_items_assoc us v ws)

  pub append_items-no_items : (vs : Items Float) → append_items vs no_items ≡ vs
  unfolding append_items
  append_items-no_items no_items = refl
  append_items-no_items (item v vs) = ap (item v) (append_items-no_items vs)

  pub IsArray-add_entry :
      (number : ℕ → Float) (i j : ℕ) (tb : Entries Float) (v : LuaValue Float)
      → IsArray number i j tb
      → IsArray number (suc i) j (add_entry tb (l_number (number (suc i))) v)
  unfolding IsArray add_entry
  IsArray-add_entry number i j no_entries v e = (ap (λ n. l_number (number (suc n))) e, ap suc e)
  IsArray-add_entry number i j (pair k w es) v (e, h) =
      (e, IsArray-add_entry number i (suc j) es v h)

  pub number_keys-IsArray :
      (number : ℕ → Float) (i j : ℕ) (tb : Entries Float)
      → IsArray number i j tb
      → number_keys tb ≡ true
  unfolding IsArray number_keys is_number
  number_keys-IsArray number i j no_entries h = refl
  number_keys-IsArray number i j (pair k v es) (e, h) =
      rw e (number_keys-IsArray number i (suc j) es h)

  pub no_entries-IsArray : (number : ℕ → Float) → IsArray number 0 0 no_entries
  unfolding IsArray
  no_entries-IsArray number = refl
