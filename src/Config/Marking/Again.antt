-- ===== src/Config/Marking/Again.antt =====
-- What a hash map that has been taken over before, or that holds documents only, changes.
use data_collection.Base.{
  ◌≡◌, refl, ap, ◌∙◌, subst, inl, inr, Bool, true, ◌||◌, [], ◌∷◌, arith, Bool-cases, Option-cases,
  All, Bytes, bytes_discrete, Assoc, is_some, keys, same, same_self, contains, lookup,
  lookup-insert, lookup-insert_self,
}
use data_collection.Config.{Config, compare_hash}
use data_collection.Config.Marking.{
  Json, Settings, adopt, mark_one, mark_each, try_update_config, parse_plugin_marking,
}

abbrev pub known : Bytes → Config → Bool
known j c = is_some (lookup bytes_discrete j c.running_hash)

compare_hash-known :
    (j hash : Bytes) (c : Config)
    → known j (compare_hash hash c).1 ≡ (same bytes_discrete hash j || known j c)
unfolding compare_hash
compare_hash-known j hash c = ground (arith, lookup-insert bytes_discrete hash j 1 c.running_hash)

module _ (mark : Bytes) where
  mark_one-known :
      (j hash source : Bytes) (c : Config)
      → known j (mark_one mark hash source c).0 ≡ (same bytes_discrete hash j || known j c)
  unfolding mark_one
  mark_one-known j hash source c = ground (arith, compare_hash-known j hash c)

  pub mark_each-known :
      (j : Bytes) (m : Assoc Bytes Bytes) (c : Config)
      → known j (mark_each mark m c).0 ≡ (contains bytes_discrete j (keys m) || known j c)
  unfolding mark_each contains keys
  mark_each-known j [] c = refl
  mark_each-known j ((hash, source) ∷ m) c =
      mark_each-known j m (mark_one mark hash source c).0
      ∙ ground (arith, mark_one-known j hash source c)

  mark_one-skips :
      (hash source : Bytes) (c : Config)
      → known hash c ≡ true
      → mark_one mark hash source c ≡ (c, [])
  unfolding mark_one compare_hash
  mark_one-skips hash source c h = rw h refl

  abbrev pub AllKnown : Assoc Bytes Bytes → Config → Type 0
  AllKnown m c = All (λ (e : Bytes × Bytes). known e.0 c ≡ true) m

  pub mark_each-skips :
      (m : Assoc Bytes Bytes) (c : Config) → AllKnown m c → mark_each mark m c ≡ (c, [])
  unfolding mark_each
  mark_each-skips [] c h = refl
  mark_each-skips ((hash, source) ∷ m) c h =
      rw (mark_one-skips hash source c h.0, mark_each-skips m c h.1) refl

pub AllKnown-of :
    (mark : Bytes) (m : Assoc Bytes Bytes) (c : Config)
    → ((j : Bytes) → contains bytes_discrete j (keys m) ≡ true → known j c ≡ true)
    → AllKnown mark m c
unfolding contains keys
AllKnown-of mark [] c h = tt
AllKnown-of mark ((hash, source) ∷ m) c h = (
  h hash (ground (arith, same_self bytes_discrete hash)),
  AllKnown-of mark m c (λ j e. h j (ground arith)),
)

-- what a document leaves as it is
pub record Keeps {Doc : Type 0} (c c' : Settings Doc) : Type 0 where
  pub update : c'.part.update ≡ c.part.update
  pub running : c'.part.running ≡ c.part.running
  pub removal : c'.part.removal ≡ c.part.removal
  pub marking : c'.plugin_marking ≡ c.plugin_marking
  pub hashes : (j : Bytes) → known j c.part ≡ true → known j c'.part ≡ true

Keeps-refl : {Doc : Type 0} (c : Settings Doc) → Keeps c c
Keeps-refl c = record {
  update = refl;
  running = refl;
  removal = refl;
  marking = refl;
  hashes = λ j h. h;
}

Keeps-trans : {Doc : Type 0} (a b c : Settings Doc) → Keeps a b → Keeps b c → Keeps a c
Keeps-trans a b c k l = record {
  update = l.update ∙ k.update;
  running = l.running ∙ k.running;
  removal = l.removal ∙ k.removal;
  marking = l.marking ∙ k.marking;
  hashes = λ j h. l.hashes j (k.hashes j h);
}

adopt-Keeps :
    {Doc : Type 0} (hash : Bytes) (doc : Doc) (c : Settings Doc) → Keeps c (adopt hash doc c)
unfolding adopt
adopt-Keeps hash doc c = elim (Bool-cases (same bytes_discrete c.obj_hash hash)) [
  | inl e ↦ rw (e, adopt) (Keeps-refl c)
  | inr e ↦
      rw (e, adopt)
        (record {
          update = refl;
          running = refl;
          removal = refl;
          marking = refl;
          hashes =
              λ j h. ground (arith, lookup-insert bytes_discrete hash j 1 c.part.running_hash, h);
        })
]

module _ (json : Json) where
  pub try_update_config-Keeps :
      (m : Assoc Bytes Bytes) (c : Settings json.Doc) → Keeps c (try_update_config json m c)
  unfolding try_update_config
  try_update_config-Keeps [] c = Keeps-refl c
  try_update_config-Keeps ((hash, src) ∷ m) c = elim (Option-cases (json.new_json src)) [
    | inl e ↦ rw (e, try_update_config) (try_update_config-Keeps m c)
    | inr (doc, e) ↦
        rw (e, try_update_config)
          (Keeps-trans c (adopt hash doc c) (try_update_config json m (adopt hash doc c))
            (adopt-Keeps hash doc c) (try_update_config-Keeps m (adopt hash doc c)))
  ]

  -- the document whose hash is kept has been entered among the hashes, as Parse does
  abbrev pub Entered : Settings json.Doc → Type 0
  Entered c = known c.obj_hash c.part ≡ true

  adopt-Entered :
      (hash : Bytes) (doc : json.Doc) (c : Settings json.Doc)
      → Entered c
      → Entered (adopt hash doc c) × (known hash (adopt hash doc c).part ≡ true)
  unfolding adopt
  adopt-Entered hash doc c h = elim (Bool-cases (same bytes_discrete c.obj_hash hash)) [
    | inl e ↦
        let q : c.obj_hash ≡ hash = ground arith in
        rw (e, adopt) (h, subst (λ x. known x c.part ≡ true) q h)
    | inr e ↦
        rw (e, adopt, lookup-insert_self bytes_discrete hash 1 c.part.running_hash) (refl, refl)
  ]

  abbrev pub AllDocuments : Assoc Bytes Bytes → Type 0
  AllDocuments m = All (λ (e : Bytes × Bytes). is_some (json.new_json e.1) ≡ true) m

  documents-known :
      (m : Assoc Bytes Bytes) (c : Settings json.Doc) (j : Bytes)
      → AllDocuments m
      → Entered c
      → contains bytes_discrete j (keys m) ≡ true
      → known j (try_update_config json m c).part ≡ true
  unfolding try_update_config contains keys
  documents-known [] c j docs h e = ground arith
  documents-known ((hash, src) ∷ m) c j docs h e = elim (Option-cases (json.new_json src)) [
    | inl q ↦ absurd (ground (arith, docs.0))
    | inr (doc, q) ↦
        let (h', hk) = adopt-Entered hash doc c h in
        rw (q, try_update_config)
          (elim (bytes_discrete hash j) [
            | yes r ↦
                (try_update_config-Keeps m (adopt hash doc c)).hashes j
                  (subst (λ x. known x (adopt hash doc c).part ≡ true) r hk)
            | no r ↦ documents-known m (adopt hash doc c) j docs.1 h' (ground arith)
          ])
  ]

  pub skips :
      (m : Assoc Bytes Bytes) (c : Settings json.Doc)
      → AllKnown c.plugin_marking m (try_update_config json m c).part
      → parse_plugin_marking json m c ≡ (try_update_config json m c, [])
  unfolding parse_plugin_marking
  skips m c h =
      rw
        (mark_each-skips (try_update_config json m c).plugin_marking m
          (try_update_config json m c).part h)
        refl

  -- Taking over a hash map a second time finds no plugin and leaves the updates as they are: the first
  -- time has entered every hash, whatever its text is.
  pub parse_plugin_marking_again :
      (hash_map : Assoc Bytes Bytes) (c : Settings json.Doc)
      → let first = (parse_plugin_marking json hash_map c).0 in
        ((j : Bytes) → contains bytes_discrete j (keys hash_map) ≡ true → known j first.part ≡ true)
        × ((parse_plugin_marking json hash_map first).1 ≡ [])
        × ((parse_plugin_marking json hash_map first).0.part.update ≡ first.part.update)
  unfolding parse_plugin_marking
  parse_plugin_marking_again m c =
      let first = (parse_plugin_marking json m c).0 in
      let entered : (j : Bytes)
          → contains bytes_discrete j (keys m) ≡ true
          → known j first.part ≡ true =
        λ j e.
          mark_each-known (try_update_config json m c).plugin_marking j m
            (try_update_config json m c).part
          ∙ rw e refl in
      let k = try_update_config-Keeps m first in
      let s = skips m first (
        AllKnown-of first.plugin_marking m (try_update_config json m first).part
          (λ j e. k.hashes j (entered j e))) in
      (entered, ap (λ r. r.1) s, ap (λ r. r.0.part.update) s ∙ k.update)

  -- A hash map of configuration documents only finds no plugin and leaves the updates as they are.
  pub documents_alone :
      (hash_map : Assoc Bytes Bytes) (c : Settings json.Doc)
      → AllDocuments hash_map
      → Entered c
      → ((parse_plugin_marking json hash_map c).1 ≡ [])
        × ((parse_plugin_marking json hash_map c).0.part.update ≡ c.part.update)
  documents_alone m c docs h =
      let k = try_update_config-Keeps m c in
      let s = skips m c (
        AllKnown-of c.plugin_marking m (try_update_config json m c).part
          (λ j e. documents-known m c j docs h e)) in
      (ap (λ r. r.1) s, ap (λ r. r.0.part.update) s ∙ k.update)
