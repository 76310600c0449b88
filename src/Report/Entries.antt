-- ===== src/Report/Entries.antt =====
-- The entries that a retry sends, one after the other: which of them are delivered.
use data_collection.Base.{
  ℕ, ◌≡◌, Bool, true, false, Option, none, some, List, [], ◌∷◌, ◌==◌, if◌then◌else◌, length, All, ℤ,
  Bytes, Assoc, Outcome, ok, err, panic,
}
use data_collection.Storage.Keys.{format_int}
use data_collection.Storage.Keys.Decimal.{IsInt64}
use data_collection.Report.Sending.{Detail, Web, report_data}
use data_collection.Report.Keeping.{next_round}

-- a key of AddData
abbrev pub IsTime : Bytes → Type 0
IsTime key = (tm : ℤ) × IsInt64 tm × (key ≡ format_int tm)

abbrev pub AreTimes : Assoc Bytes Bytes → Type 0
AreTimes m = All (λ (e : Bytes × Bytes). IsTime e.0) m

module _ {Value W : Type 0} (web : Web Value W) where
  -- whether the context is asked for after an entry, whether the entry was delivered, and the world
  -- that is left; none for a panic
  abbrev pub outcome_of :
      Outcome (Unit {0}) (Unit {0}) × Detail Value × W → Option (Bool × Bool × W)
  outcome_of (ok x, detail, w) = some (true, true, w)
  outcome_of (err e, detail, w) = some (true, false, w)
  outcome_of (panic, detail, w) = none

  unfoldable pub send_entry : Bytes → W → Option (Bool × Bool × W)
  send_entry s w = if length s == 2 then some (false, false, w) else elim (web.unmarshal s) [
    | none ↦ some (false, false, w)
    | some detail ↦ outcome_of (report_data web detail w)
  ]

  abbrev pub with_key : Bytes → Bool → Option (List Bytes × W) → Option (List Bytes × W)
  with_key key gone none = none
  with_key key true (some (ks, w)) = some (key ∷ ks, w)
  with_key key false (some (ks, w)) = some (ks, w)

  abbrev pub after_next : W → (ℕ → Option (List Bytes × W)) → Option ℕ → Option (List Bytes × W)
  after_next w go none = some ([], w)
  after_next w go (some rest) = go rest

  abbrev pub after_entry :
      Bytes
      → ℕ
      → (ℕ → W → Option (List Bytes × W))
      → Option (Bool × Bool × W)
      → Option (List Bytes × W)
  after_entry key asks go none = none
  after_entry key asks go (some (asked, gone, w)) =
      with_key key gone (after_next w (λ rest. go rest w) (next_round asked asks))

  -- the keys of the entries that are delivered when the entries are sent one after the other until the
  -- context is done, and the world that is left; none where a report panics
  unfoldable pub delivered_keys : ℕ → Assoc Bytes Bytes → W → Option (List Bytes × W)
  unfolding send_entry next_round
  delivered_keys asks [] w = some ([], w)
  delivered_keys asks ((key, s) ∷ m) w =
      after_entry key asks (λ rest w'. delivered_keys rest m w') (send_entry s w)
