-- ===== src/Vm/Texts/Find.antt =====
-- What is found in a text, and what the extraction of a key and the cleaning of a message return.
use hyprv.Prelude.{
  ℕ, zero, suc, ◌+◌, ◌≤◌, ◌≡◌, ◌≢◌, ◌⊎◌, inl, inr, refl, ap, Bool, true, false, ◌&&◌, Option, none,
  some, [], ◌∷◌, ◌++◌, ltb, ◌==◌, if◌then◌else◌, is_empty, length, take, drop, arith, All,
  Bool-cases,
}
use hyprv.Prelude.Text.{Text}
use hyprv.Vm.Texts.{
  starts_with, one_further, find, quoted, first_of, first_key, later_key,
  extract_name_property_from_path,
}

starts_with-split : (n s : Text) → starts_with n s ≡ true → s ≡ n ++ drop (length n) s
starts_with-split [] s h = refl
starts_with-split (a ∷ n) [] h = absurd cc
starts_with-split (a ∷ n) (c ∷ s) h = elim (Bool-cases (a == c)) [
  | inl e ↦ ground (arith, starts_with-split n s)
  | inr e ↦ absurd (ground arith)
]

-- What a position says of a text that starts with `c`.
split_of :
    (n : Text) (c : ℕ) (s : Text) (b : Bool) (o : Option ℕ) (p : ℕ)
    → starts_with n (c ∷ s) ≡ b
    → ((q : ℕ) → o ≡ some q → s ≡ take q s ++ (n ++ drop (q + length n) s))
    → (if b then some 0 else one_further o) ≡ some p
    → c ∷ s ≡ take p (c ∷ s) ++ (n ++ drop (p + length n) (c ∷ s))
split_of n c s true o p e f h =
    let z : p ≡ 0 = cc in
    let len : 0 + length n ≡ length n = omega arith in rw (z, len) (starts_with-split n (c ∷ s) e)
split_of n c s false none p e f h = absurd cc
split_of n c s false (some q) p e f h =
    let z : p ≡ suc q = cc in
    let len : suc q + length n ≡ suc (q + length n) = omega arith in
    rw (z, len) (ap (◌∷◌ c) (f q refl))

-- The text is what stands before the position, the needle, and what stands behind it.
pub find-split :
    (n s : Text) (p : ℕ) → find n s ≡ some p → s ≡ take p s ++ (n ++ drop (p + length n) s)
unfolding find
find-split [] [] p h = let e : p ≡ 0 = cc in rw e refl
find-split (a ∷ n) [] p h = absurd cc
find-split n (c ∷ s) p h =
    split_of n c s (starts_with n (c ∷ s)) (find n s) p refl (λ q e. find-split n s q e) h

-- What stands before the first quotation mark has none.
before_of :
    (a c : ℕ) (s : Text) (b : Bool) (o : Option ℕ) (p : ℕ)
    → ((a == c) && true) ≡ b
    → ((q : ℕ) → o ≡ some q → All (λ x. x ≢ a) (take q s))
    → (if b then some 0 else one_further o) ≡ some p
    → All (λ x. x ≢ a) (take p (c ∷ s))
before_of a c s true o p e f h = let z : p ≡ 0 = cc in rw z tt
before_of a c s false none p e f h = absurd cc
before_of a c s false (some q) p e f h =
    let z : p ≡ suc q = cc in rw z (λ (k : c ≡ a). absurd (ground arith), f q refl)

pub find-before :
    (a : ℕ) (s : Text) (p : ℕ) → find (a ∷ []) s ≡ some p → All (λ x. x ≢ a) (take p s)
unfolding find
find-before a [] p h = absurd cc
find-before a (c ∷ s) p h =
    before_of a c s (starts_with (a ∷ []) (c ∷ s)) (find (a ∷ []) s) p refl
      (λ q e. find-before a s q e) h

-- A quoted text that is not empty ends at the first quotation mark.
quoted-split :
    (rest : Text)
    → is_empty (quoted rest) ≡ false
    → (after : Text) × (rest ≡ quoted rest ++ (34 ∷ after)) × All (λ x. x ≢ 34) (quoted rest)
quoted-split rest h = of_end (find (34 ∷ []) rest) refl h
  where
    of_end :
        (o : Option ℕ)
        → find (34 ∷ []) rest ≡ o
        → is_empty (elim o [ none ↦ [] | some e ↦ take e rest ]) ≡ false
        → (after : Text) × (rest ≡ elim o [ none ↦ [] | some e ↦ take e rest ] ++ (34 ∷ after))
          × All (λ x. x ≢ 34) (elim o [ none ↦ [] | some e ↦ take e rest ])
    of_end none e k = absurd cc
    of_end (some p) e k =
        (drop (p + 1) rest, find-split (34 ∷ []) rest p e, find-before 34 rest p e)

-- A needle lies within the text.
starts_with-le : (n s : Text) → starts_with n s ≡ true → length n ≤ length s
starts_with-le [] s h = omega arith
starts_with-le (a ∷ n) [] h = absurd cc
starts_with-le (a ∷ n) (c ∷ s) h = ground (arith, starts_with-le n s)

le_of :
    (n : Text) (c : ℕ) (s : Text) (b : Bool) (o : Option ℕ) (p : ℕ)
    → starts_with n (c ∷ s) ≡ b
    → ((q : ℕ) → o ≡ some q → q + length n ≤ length s)
    → (if b then some 0 else one_further o) ≡ some p
    → p + length n ≤ length (c ∷ s)
le_of n c s true o p e f h = let z : p ≡ 0 = cc in omega (arith, starts_with-le n (c ∷ s) e)
le_of n c s false none p e f h = absurd cc
le_of n c s false (some q) p e f h = let z : p ≡ suc q = cc in omega (arith, f q refl)

pub find-le : (n s : Text) (p : ℕ) → find n s ≡ some p → p + length n ≤ length s
unfolding find
find-le [] [] p h = let e : p ≡ 0 = cc in omega arith
find-le (a ∷ n) [] p h = absurd cc
find-le n (c ∷ s) p h =
    le_of n c s (starts_with n (c ∷ s)) (find n s) p refl (λ q e. find-le n s q e) h

pub length-drop-le : (n : ℕ) (s : Text) → length (drop n s) + n ≤ length s ⊎ (length (drop n s) ≡ 0)
length-drop-le zero s = inl (omega arith)
length-drop-le (suc n) [] = inr refl
length-drop-le (suc n) (c ∷ s) = elim (length-drop-le n s) [
  | inl h ↦ inl (omega arith)
  | inr h ↦ inr h
]

if_both {ℓ κ} :
    {A : Type ℓ} (b : Bool) (P : A → Type κ) (x y : A) → P x → P y → P (if b then x else y)
if_both true P x y p q = p
if_both false P x y p q = q

-- Whatever name is returned stands in the path as the whole value of a key `Name`, behind the
-- separator of a first or of a later key; so the value of `CreationClassName` is never taken for it.
pub extract_name_property_sound :
    (path : Text)
    → is_empty (extract_name_property_from_path path) ≡ false
    → (before key after : Text) × ((key ≡ first_key) ⊎ (key ≡ later_key))
      × (path ≡ before ++ (key ++ (extract_name_property_from_path path ++ (34 ∷ after))))
      × All (λ x. x ≢ 34) (extract_name_property_from_path path)
unfolding extract_name_property_from_path
extract_name_property_sound [] h = absurd cc
extract_name_property_sound (c ∷ cs) h =
    of_keys (find first_key path) (find later_key path) refl refl h
  where
    path : Text
    path = c ∷ cs

    named : Option ℕ → Text
    named o = elim o [ none ↦ [] | some p ↦ quoted (drop (p + 7) path) ]

    Sound : Text → Type 0
    Sound name =
        (before key after : Text) × ((key ≡ first_key) ⊎ (key ≡ later_key))
        × (path ≡ before ++ (key ++ (name ++ (34 ∷ after))))
        × All (λ x. x ≢ 34) name

    at_key :
        (key : Text) (p : ℕ)
        → ((key ≡ first_key) ⊎ (key ≡ later_key))
        → length key ≡ 7
        → find key path ≡ some p
        → is_empty (quoted (drop (p + 7) path)) ≡ false
        → Sound (quoted (drop (p + 7) path))
    at_key key p which len e k =
        let (after, split, clean) = quoted-split (drop (p + 7) path) k in
        (take p path, key, after, which, rw (← split) (rw (← len) (find-split key path p e)), clean)

    of_keys :
        (o q : Option ℕ)
        → find first_key path ≡ o
        → find later_key path ≡ q
        → is_empty (named (first_of o q)) ≡ false
        → Sound (named (first_of o q))
    of_keys none none e f k = absurd cc
    of_keys none (some q) e f k = at_key later_key q (inr refl) refl f k
    of_keys (some p) none e f k = at_key first_key p (inl refl) refl e k
    of_keys (some p) (some q) e f k =
        if_both (ltb q p) (λ o. is_empty (named o) ≡ false → Sound (named o)) (some q) (some p)
          (at_key later_key q (inr refl) refl f) (at_key first_key p (inl refl) refl e) k
