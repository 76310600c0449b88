-- ===== src/Agent/Fetched.antt =====
-- Which texts GetUrl sends to the manager.
use data_collection.Base.{
  ◌≡◌, refl, ap, ◌∙◌, inl, inr, Bool, true, false, ◌&&◌, ◌||◌, Option, none, some, List, [], ◌∷◌,
  ◌++◌, arith, if◌then◌else◌, Bool-cases, Option-cases, Bytes, bytes_discrete, Assoc, same,
  contains, lookup, insert, lookup-insert,
}
use data_collection.Agent.{Network, Services, is_empty, fetch_hash, fetch_hashes, get_url}

-- the text of a hash, if every step succeeds and the text has this hash
abbrev pub text_of : Network → Bytes → Option Bytes
text_of n hash = elim (n.get_hash hash) [
  | none ↦ none
  | some url ↦ elim (n.download_url url) [
    | none ↦ none
    | some body ↦ if same bytes_discrete hash (n.get_md5_hash body) then some body else none
  ]
]

abbrev pub reached : Network → List Bytes → Bool
reached n [] = true
reached n (hash ∷ hashes) = n.dial hash && reached n hashes

abbrev found_or : Option Bytes → Option Bytes → Option Bytes
found_or none o = o
found_or (some v) o = some v

abbrev stored : Bytes → Option Bytes → Assoc Bytes Bytes → Assoc Bytes Bytes
stored hash none m = m
stored hash (some body) m = insert bytes_discrete hash body m

fetch_hash_lem :
    (n : Network) (hash : Bytes) (m : Assoc Bytes Bytes)
    → fetch_hash n hash m ≡ stored hash (text_of n hash) m
unfolding fetch_hash
fetch_hash_lem n hash m = elim (Option-cases (n.get_hash hash)) [
  | inl e ↦ rw (e, fetch_hash, text_of, stored) refl
  | inr (url, e) ↦ elim (Option-cases (n.download_url url)) [
    | inl d ↦ rw (e, d, fetch_hash, text_of, stored) refl
    | inr (body, d) ↦ elim (Bool-cases (same bytes_discrete hash (n.get_md5_hash body))) [
      | inl c ↦ rw (e, d, c, fetch_hash, text_of, stored) refl
      | inr c ↦ rw (e, d, c, fetch_hash, text_of, stored) refl
    ]
  ]
]

lookup-stored :
    (hash j : Bytes) (o : Option Bytes) (m : Assoc Bytes Bytes)
    → lookup bytes_discrete j (stored hash o m) ≡ (
        if same bytes_discrete hash j
        then found_or o (lookup bytes_discrete j m)
        else lookup bytes_discrete j m)
lookup-stored hash j none m = ground arith
lookup-stored hash j (some body) m = ground (arith, lookup-insert bytes_discrete hash j body m)

same_text :
    (n : Network) (hash j : Bytes) (o : Option Bytes)
    → (if same bytes_discrete hash j then found_or (text_of n hash) o else o)
      ≡ (if same bytes_discrete hash j then found_or (text_of n j) o else o)
same_text n hash j o =
    elim (bytes_discrete hash j)
      as (λ d.
        (if (elim d as (λ _. Bool) [ yes _ ↦ true | no _ ↦ false ])
          then found_or (text_of n hash) o
          else o)
        ≡ (if (elim d as (λ _. Bool) [ yes _ ↦ true | no _ ↦ false ])
            then found_or (text_of n j) o
            else o)) [ yes q ↦ ap (λ h. found_or (text_of n h) o) q | no q ↦ refl ]

lookup-fetch_hash :
    (n : Network) (hash j : Bytes) (m : Assoc Bytes Bytes)
    → lookup bytes_discrete j (fetch_hash n hash m) ≡ (
        if same bytes_discrete hash j
        then found_or (text_of n j) (lookup bytes_discrete j m)
        else lookup bytes_discrete j m)
lookup-fetch_hash n hash j m =
    ap (lookup bytes_discrete j) (fetch_hash_lem n hash m)
    ∙ lookup-stored hash j (text_of n hash) m
    ∙ same_text n hash j (lookup bytes_discrete j m)

fetch_hashes_lem :
    (n : Network) (hashes : List Bytes) (m : Assoc Bytes Bytes)
    → reached n hashes ≡ true
    → (m' : Assoc Bytes Bytes) × (fetch_hashes n hashes m ≡ some m')
      × ((j : Bytes)
          → lookup bytes_discrete j m' ≡ (
              if contains bytes_discrete j hashes
              then found_or (text_of n j) (lookup bytes_discrete j m)
              else lookup bytes_discrete j m))
unfolding fetch_hashes contains
fetch_hashes_lem n [] m h = (m, refl, λ j. refl)
fetch_hashes_lem n (hash ∷ hashes) m h =
    let here : n.dial hash ≡ true = ground (arith, h) in
    let later : reached n hashes ≡ true = ground (arith, h) in
    let (m', e, found) = fetch_hashes_lem n hashes (fetch_hash n hash m) later in
    (
      m',
      rw here e,
      λ j. found j ∙ twice n hash j (text_of n j) m (contains bytes_discrete j hashes),
    )
  where
    twice :
        (n : Network) (hash j : Bytes) (o : Option Bytes) (m : Assoc Bytes Bytes) (b : Bool)
        → (if b
            then found_or (text_of n j) (lookup bytes_discrete j (fetch_hash n hash m))
            else lookup bytes_discrete j (fetch_hash n hash m))
          ≡ (if same bytes_discrete hash j || b
              then found_or (text_of n j) (lookup bytes_discrete j m)
              else lookup bytes_discrete j m)
    twice n hash j o m b =
        rw (lookup-fetch_hash n hash j m)
          (plain (text_of n j) (lookup bytes_discrete j m) (same bytes_discrete hash j) b)
      where
        plain :
            (o v : Option Bytes) (c b : Bool)
            → (if b
                then found_or o (if c then found_or o v else v)
                else (if c then found_or o v else v))
              ≡ (if c || b then found_or o v else v)
        plain none v c b = ground arith
        plain (some x) v c b = ground arith

-- If the server is reached each time, GetUrl for at least one hash sends the manager a map of exactly
-- the texts that could be fetched and have the hash under which they stand.
pub get_url_lem :
    (n : Network) (hash : Bytes) (hashes : List Bytes) (a : Services)
    → reached n (hash ∷ hashes) ≡ true
    → (a' : Services) × (get_url n (hash ∷ hashes) a ≡ some a')
      × (a'.updates ≡ a.updates ++ a'.hash_map ∷ [])
      × ((j : Bytes)
          → lookup bytes_discrete j a'.hash_map
            ≡ (if contains bytes_discrete j (hash ∷ hashes) then text_of n j else none))
unfolding get_url
get_url_lem n hash hashes a h =
    let (m, e, found) = fetch_hashes_lem n (hash ∷ hashes) [] h in
    (
      after m,
      rw (e, get_url) refl,
      refl,
      λ j.
          found j ∙ unfold lookup in bare (contains bytes_discrete j (hash ∷ hashes)) (text_of n j),
    )
  where
    after : Assoc Bytes Bytes → Services
    after m = record a {
      hash_map = m;
      updates = a.updates ++ m ∷ [];
      deletions =
          if is_empty a.delete_plugins then a.deletions else a.deletions ++ a.delete_plugins ∷ [];
    }

    bare :
        (b : Bool) (o : Option Bytes)
        → (if b then found_or o none else none) ≡ (if b then o else none)
    bare true none = refl
    bare true (some x) = refl
    bare false o = refl

-- Where the list of hashes is empty, as after a change that only deletes plugins, GetUrl sends the map of
-- the download before once more.
pub get_url_resends :
    (n : Network) (a : Services)
    → (a' : Services) × (get_url n [] a ≡ some a') × (a'.updates ≡ a.updates ++ a.hash_map ∷ [])
unfolding get_url fetch_hashes
get_url_resends n a = (_, refl, refl)
