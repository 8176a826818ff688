-- ===== src/Settings/File/Read/Maps.antt =====
-- The maps that `Load` fills from the members of an object, in whatever order these come.
use hyprv.Prelude.{
  ◌≡◌, refl, sym, ap, subst, ◌∙◌, Option-cases, Bool, true, false, ◌&&◌, ◌||◌, Option, none, some,
  List, [], ◌∷◌, if◌then◌else◌, arith, inl, inr, Bool-cases, All, some_of,
}
use hyprv.Prelude.Text.{Text, text_eq, eq_of_text_eq}
use hyprv.Settings.Map.{Map, lookup, insert, lookup-insert}
use hyprv.Settings.File.State.{Numbers}
use hyprv.Settings.File.Grammar.{Json, Members}
use hyprv.Settings.File.Parts.{is_set, text_lt, insert_sorted, sort_keys, keys_of}
use hyprv.Settings.File.Write.Entries.{sort_keys-All, keys_of-All}
use hyprv.Settings.File.Tree.{members_of}
use hyprv.Settings.File.Objects.{find, listed, JsonLibrary}
use hyprv.Settings.File.Read.{read_entries}

-- A key that sorting keeps.
some_of-insert_sorted :
    (p : Text → Bool) (k : Text) (ks : List Text)
    → some_of p (insert_sorted k ks) ≡ (p k || some_of p ks)
unfolding insert_sorted
some_of-insert_sorted p k [] = ground arith
some_of-insert_sorted p k (j ∷ js) = elim (Bool-cases (text_lt j k)) [
  | inl e ↦ rw e (ground (arith, some_of-insert_sorted p k js))
  | inr e ↦ rw e (ground arith)
]

some_of-sort_keys : (p : Text → Bool) (ks : List Text) → some_of p (sort_keys ks) ≡ some_of p ks
unfolding sort_keys
some_of-sort_keys p [] = refl
some_of-sort_keys p (k ∷ ks) =
    ground (arith, some_of-insert_sorted p k (sort_keys ks), some_of-sort_keys p ks)

lookup-keys_of :
    {V : Type 0} (k : Text) (m : Map V)
    → some_of (λ j. text_eq j k) (keys_of m) ≡ is_set (lookup k m)
unfolding lookup keys_of
lookup-keys_of k [] = refl
lookup-keys_of k ((j, v) ∷ m) = ground (arith, lookup-keys_of k m)

-- The key is among the sorted keys exactly if the map has a value there.
pub sorted_lookup :
    {V : Type 0} (k : Text) (m : Map V)
    → some_of (λ j. text_eq j k) (sort_keys (keys_of m)) ≡ is_set (lookup k m)
sorted_lookup k m = rw (some_of-sort_keys (λ j. text_eq j k) (keys_of m), lookup-keys_of k m)

module _ (nums : Numbers) where
  open nums use {Double}

  pub find-members_of :
      (f : Text → Json Double) (k : Text) (ks : List Text)
      → find Double k (members_of nums f ks)
        ≡ (if some_of (λ j. text_eq j k) ks then some (f k) else none)
  unfolding find
  find-members_of f k [] = refl
  find-members_of f k (j ∷ ks) = elim (Bool-cases (text_eq j k)) [
    | inl e ↦ let same = ap f (eq_of_text_eq j k e) in ground (arith, same)
    | inr e ↦ ground (arith, find-members_of f k ks)
  ]

  module _ (lib : JsonLibrary nums) {V : Type 0} (key : Text → Text)
      (read : Json Double → Option (Option V)) (value : Text → Option V) where
    -- The value that an entry gives to its key depends on the key only.
    abbrev pub Gives : (Text × Json Double) → Type 0
    Gives e = (key e.0 ≡ e.0) × (read e.1 ≡ some (value e.0))

    abbrev entry_at : Text → List (Text × Json Double) → Map V → Option V
    entry_at k es m = if listed Double k es && is_set (value k) then value k else lookup k m

    pub read_entries_lem :
        (es : List (Text × Json Double)) (m : Map V)
        → All Gives es
        → (m' : Map V) × (read_entries nums lib key read es m ≡ some m')
          × ((k : Text) → lookup k m' ≡ entry_at k es m)
    unfolding read_entries
    read_entries_lem [] m h = (m, refl, λ k. refl)
    read_entries_lem ((j, v) ∷ es) m ((same, gives), h) = elim (Option-cases (value j)) [
      | inl e ↦
          let (m', r, at) = read_entries_lem es m h in
          (
            m',
            rw (gives, e) r,
            λ k. elim (Bool-cases (text_eq j k)) [
              | inl t ↦
                  let same_value = ap value (eq_of_text_eq j k t) in
                  ground (arith, e, same_value, at k)
              | inr t ↦ ground (arith, at k)
            ],
          )
      | inr (w, e) ↦
          let (m', r, at) = read_entries_lem es (insert (key j) w m) h in
          (
            m',
            rw (gives, e) r,
            λ k. elim (Bool-cases (text_eq j k)) [
              | inl t ↦
                  let same_value = ap value (eq_of_text_eq j k t) in
                  let inserted = lookup-insert (key j) k w m in
                  let at_j : text_eq (key j) k ≡ true = rw same t in
                  ground (arith, e, same_value, at k, inserted, at_j)
              | inr t ↦
                  let inserted = lookup-insert (key j) k w m in
                  let at_j : text_eq (key j) k ≡ false = rw same t in
                  ground (arith, at k, inserted, at_j)
            ],
          )
    ]

All-imp :
    {A : Type 0} (P Q : A → Type 0) (items : List A)
    → ((a : A) → P a → Q a)
    → All P items
    → All Q items
All-imp P Q [] f h = tt
All-imp P Q (a ∷ items) f (p, h) = (f a p, All-imp P Q items f h)

key_of-All :
    (P : Text → Type 0) (k : Text) (ks : List Text)
    → All P ks
    → some_of (λ j. text_eq j k) ks ≡ true
    → P k
key_of-All P k [] h e = absurd cc
key_of-All P k (j ∷ ks) (p, h) e = elim (Bool-cases (text_eq j k)) [
  | inl t ↦ subst P (eq_of_text_eq j k t) p
  | inr t ↦ key_of-All P k ks h (ground (arith, t))
]

some_of_if :
    {A : Type 0} (b : Bool) (a c : A) → (if b then some a else none) ≡ some c → (b ≡ true) × (c ≡ a)
some_of_if true a c e = (refl, cc)
some_of_if false a c e = absurd cc

module _ (nums : Numbers) (lib : JsonLibrary nums) {V W : Type 0} (key : Text → Text)
    (read : Json nums.Double → Option (Option V)) (value : Text → Option V)
    (f : Text → Json nums.Double) (m : Map W) (keys : All (λ e. key e.0 ≡ e.0) m)
    (reads : (k : Text) → is_set (lookup k m) ≡ true → read (f k) ≡ some (value k))
    (held : (k : Text) → is_set (value k) ≡ true → is_set (lookup k m) ≡ true) where
  abbrev tree : Members nums.Double
  tree = members_of nums f (sort_keys (keys_of m))

  entry_Gives :
      (e : Text × Json nums.Double)
      → find nums.Double e.0 tree ≡ some e.1
      → Gives nums lib key read value e
  entry_Gives (k, j) h =
      let (there, same) =
        some_of_if _ (f k) j (sym (find-members_of nums f k (sort_keys (keys_of m))) ∙ h) in
      (
        key_of-All (λ i. key i ≡ i) k _ (sort_keys-All _ _ (keys_of-All _ m keys)) there,
        rw same (reads k (sym (sorted_lookup k m) ∙ there)),
      )

  found_key : (k : Text) → is_set (value k) ≡ true → is_set (find nums.Double k tree) ≡ true
  found_key k h = rw (find-members_of nums f k (sort_keys (keys_of m)), sorted_lookup k m, held k h)

  -- What the members of a sorted map give to the keys is what the new map has there.
  pub read_entries-members_of :
      (m' : Map V) × (read_entries nums lib key read (lib.entries tree) [] ≡ some m')
      × ((k : Text) → lookup k m' ≡ value k)
  unfolding lookup
  read_entries-members_of =
      let (m', r, at) =
        read_entries_lem nums lib key read value (lib.entries tree) []
          (All-imp _ _ (lib.entries tree) entry_Gives (lib.entries_sound tree)) in
      (
        m',
        r,
        λ k. elim (Option-cases (value k)) [
          | inl e ↦ ground (arith, at k, e)
          | inr (v, e) ↦
              let there = lib.entries_complete tree k (found_key k (rw e)) in
              ground (arith, at k, e, there)
        ],
      )
