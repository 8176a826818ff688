-- ===== src/Examples/Trees.antt =====
-- Whole numbers for `double`, and the trees of JSON themselves for the objects of the library.
use hyprv.Prelude.{
  ℕ, zero, suc, ◌+◌, ◌/◌, ◌%◌, ◌^◌, ◌<◌, ◌≤◌, ◌≡◌, refl, ap, inl, inr, true, false, Option, none,
  some, List, [], ◌∷◌, arith, ltb, leb, not, All, some_of, Bool-cases,
}
use hyprv.Prelude.Text.{Text, codes, text_eq, eq_of_text_eq}
use hyprv.Prelude.Int.{ℤ, pos, negsuc, ltb_ℤ}
use hyprv.Settings.File.State.{Numbers}
use hyprv.Settings.File.Grammar.{Json, Members, member, no_members}
use hyprv.Settings.File.Objects.{
  find, boolean_or, number_or, string_or, object_of, array_of, listed, JsonLibrary,
}
use hyprv.Settings.File.Parts.{is_set}

-- The decimal digits, before those that are there already.
unfoldable pub digits : ℕ → ℕ → Text → Text
digits zero n ds = ds
digits (suc fuel) n ds = elim (ltb n 10) [
  | true ↦ (48 + n) ∷ ds
  | false ↦ digits fuel (n / 10) ((48 + n % 10) ∷ ds)
]

unfoldable pub show_integer : ℤ → Text
show_integer (pos n) = digits (suc n) n []
show_integer (negsuc n) = 45 ∷ digits (suc (suc n)) (suc n) []

abbrev pub cast : ℤ → ℕ
cast (pos n) = n
cast (negsuc n) = 0

pub cast_between :
    (v : ℤ) (a b : ℕ)
    → b < 2 ^ 16
    → ltb_ℤ v (pos a) ≡ false
    → ltb_ℤ (pos b) v ≡ false
    → (a ≤ cast v) × (cast v ≤ b)
cast_between (pos n) a b h k l = ground arith
cast_between (negsuc n) a b h k l = ground arith

pub lt_of_nat_at : (a b : ℕ) → ltb_ℤ (pos a) (pos b) ≡ ltb a b
lt_of_nat_at a b = ground arith

pub le_of_nat_at : (a b : ℕ) → not (ltb_ℤ (pos b) (pos a)) ≡ leb a b
le_of_nat_at a b = ground arith

pub one_digit : codes "1" ≡ show_integer (pos 1)
unfolding show_integer digits
one_digit = refl

abbrev pub integers : Numbers
integers = record {
  Double = ℤ;
  of_int = λ z. z;
  of_nat = pos;
  half = pos 0;
  lt = ltb_ℤ;
  le = λ a b. not (ltb_ℤ b a);
  to_int = λ z. z;
  to_int64 = cast;
  to_uint16 = cast;
  show_int = show_integer;
  show_nat = λ n. show_integer (pos n);
  show_double = show_integer;
  IsNumeral = λ w d. w ≡ show_integer d;
  lt_of_nat = lt_of_nat_at;
  le_of_nat = le_of_nat_at;
  to_uint16_between = cast_between;
  to_int_of_int = λ z h. refl;
  to_int64_of_nat = λ n h. refl;
  show_int_numeral = λ z h. refl;
  show_nat_numeral = λ n h. refl;
  one_numeral = one_digit;
}

abbrev pub keys : Members ℤ → List Text
keys no_members = []
keys (member k v ms) = k ∷ keys ms

abbrev pub entry : Text → Option (Json ℤ) → List (Text × Json ℤ) → List (Text × Json ℤ)
entry k none es = es
entry k (some j) es = (k, j) ∷ es

abbrev pub entries_at : Members ℤ → List Text → List (Text × Json ℤ)
entries_at ms [] = []
entries_at ms (k ∷ ks) = entry k (find ℤ k ms) (entries_at ms ks)

entry_sound :
    (ms : Members ℤ) (k : Text) (o : Option (Json ℤ)) (es : List (Text × Json ℤ))
    → find ℤ k ms ≡ o
    → All (λ e. find ℤ e.0 ms ≡ some e.1) es
    → All (λ e. find ℤ e.0 ms ≡ some e.1) (entry k o es)
entry_sound ms k none es e h = h
entry_sound ms k (some j) es e h = (e, h)

pub entries_at_sound :
    (ms : Members ℤ) (ks : List Text) → All (λ e. find ℤ e.0 ms ≡ some e.1) (entries_at ms ks)
entries_at_sound ms [] = tt
entries_at_sound ms (k ∷ ks) =
    entry_sound ms k (find ℤ k ms) (entries_at ms ks) refl (entries_at_sound ms ks)

entry_at_key :
    (k j : Text) (o : Option (Json ℤ)) (es : List (Text × Json ℤ))
    → text_eq j k ≡ true
    → is_set o ≡ true
    → listed ℤ k (entry j o es) ≡ true
entry_at_key k j none es t h = absurd cc
entry_at_key k j (some v) es t h = ground (arith, t)

entry_over :
    (k j : Text) (o : Option (Json ℤ)) (es : List (Text × Json ℤ))
    → listed ℤ k es ≡ true
    → listed ℤ k (entry j o es) ≡ true
entry_over k j none es h = h
entry_over k j (some v) es h = ground (arith, h)

pub entries_at_complete :
    (ms : Members ℤ) (k : Text) (ks : List Text)
    → is_set (find ℤ k ms) ≡ true
    → some_of (λ j. text_eq j k) ks ≡ true
    → listed ℤ k (entries_at ms ks) ≡ true
entries_at_complete ms k [] h e = cc
entries_at_complete ms k (j ∷ ks) h e = elim (Bool-cases (text_eq j k)) [
  | inl t ↦
      let same = ap (λ i. find ℤ i ms) (eq_of_text_eq j k t) in
      entry_at_key k j (find ℤ j ms) (entries_at ms ks) t (rw same h)
  | inr t ↦
      entry_over k j (find ℤ j ms) (entries_at ms ks)
        (entries_at_complete ms k ks h (ground (arith, t)))
]

pub found_among :
    (ms : Members ℤ) (k : Text)
    → is_set (find ℤ k ms) ≡ true
    → some_of (λ j. text_eq j k) (keys ms) ≡ true
unfolding find
found_among no_members k h = cc
found_among (member j v ms) k h = ground (arith, found_among ms k)

abbrev pub trees : JsonLibrary integers
trees = record {
  has_key = λ ms k. is_set (find ℤ k ms);
  get_named_boolean = λ ms k b. boolean_or ℤ b (find ℤ k ms);
  get_named_number = λ ms k d. number_or ℤ d (find ℤ k ms);
  get_named_string = λ ms k s. string_or ℤ s (find ℤ k ms);
  get_named_object = λ ms k. object_of ℤ (find ℤ k ms);
  get_named_array = λ ms k. array_of ℤ (find ℤ k ms);
  lookup_value = λ ms k. find ℤ k ms;
  get_object = λ j. object_of ℤ (some j);
  entries = λ ms. entries_at ms (keys ms);
  has_key_lem = λ ms k. refl;
  boolean_lem = λ ms k b. refl;
  number_lem = λ ms k d. refl;
  string_lem = λ ms k s. refl;
  object_lem = λ ms k. refl;
  array_lem = λ ms k. refl;
  lookup_lem = λ ms k. refl;
  get_object_lem = λ j. refl;
  entries_sound = λ ms. entries_at_sound ms (keys ms);
  entries_complete = λ ms k h. entries_at_complete ms k (keys ms) h (found_among ms k h);
}
