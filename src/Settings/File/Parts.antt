-- ===== src/Settings/File/Parts.antt =====
-- The parts that `SaveLocked` in src/app/settings/Settings.cpp puts its text together from: strings, flags, the
-- sorted keys of a map, arrays and objects. Each text has what is appended after it as its last argument.
use hyprv.Prelude.{
  ℕ, Bool, true, false, Option, none, some, List, [], ◌∷◌, ◌++◌, ◌==◌, ltb, if◌then◌else◌, ◌^◌, ◌-◌,
}
use hyprv.Prelude.Text.{Text, codes}
use hyprv.Prelude.Int.{ℤ, negsuc}
use hyprv.Settings.Map.{Map}

-- The `switch` of `esc`.
unfoldable pub escape_char : ℕ → Text
escape_char c =
    if c == 34
    then 92 ∷ 34 ∷ []
    else if c == 92
    then 92 ∷ 92 ∷ []
    else if c == 10
    then 92 ∷ 110 ∷ []
    else if c == 13
    then 92 ∷ 114 ∷ []
    else if c == 9
    then 92 ∷ 116 ∷ []
    else c ∷ []

unfoldable pub escape_body : Text → Text → Text
escape_body [] out = 34 ∷ out
escape_body (c ∷ cs) out = escape_char c ++ escape_body cs out

unfoldable pub esc : Text → Text → Text
esc s out = 34 ∷ escape_body s out

abbrev pub put_bool : Bool → Text → Text
put_bool true out = codes "true" ++ out
put_bool false out = codes "false" ++ out

-- `std::sort` on the keys: an insertion sort by the code units, which gives the one sorted list.
unfoldable pub text_lt : Text → Text → Bool
text_lt [] [] = false
text_lt [] (d ∷ ds) = true
text_lt (c ∷ cs) [] = false
text_lt (c ∷ cs) (d ∷ ds) = if ltb c d then true else if c == d then text_lt cs ds else false

unfoldable pub insert_sorted : Text → List Text → List Text
insert_sorted k [] = k ∷ []
insert_sorted k (j ∷ js) = if text_lt j k then j ∷ insert_sorted k js else k ∷ j ∷ js

unfoldable pub sort_keys : List Text → List Text
sort_keys [] = []
sort_keys (k ∷ ks) = insert_sorted k (sort_keys ks)

unfoldable pub keys_of {ℓ} : {V : Type ℓ} → Map V → List Text
keys_of [] = []
keys_of ((k, v) ∷ m) = k ∷ keys_of m

-- `at(key)` of a key that is there.
abbrev pub at_key {ℓ} : {V : Type ℓ} → V → Option V → V
at_key v none = v
at_key v (some w) = w

-- What closes an entry: a comma if another one follows.
abbrev pub put_comma {ℓ} : {A : Type ℓ} → List A → Text → Text
put_comma [] out = 10 ∷ out
put_comma (a ∷ rest) out = 44 ∷ 10 ∷ out

abbrev pub is_set {ℓ} : {A : Type ℓ} → Option A → Bool
is_set none = false
is_set (some a) = true

abbrev pub int_min : ℤ
int_min = negsuc (2 ^ 31 - 1)

-- The loop over the entries of an array or of an object.
unfoldable pub put_each {ℓ} : {A : Type ℓ} → (A → Text → Text) → List A → Text → Text
put_each put [] out = out
put_each put (a ∷ rest) out = put a (put_comma rest (put_each put rest out))

-- An array behind its opening bracket, and an object behind its opening brace: closed at once if empty.
abbrev pub put_array {ℓ} : {A : Type ℓ} → (A → Text → Text) → List A → Text → Text
put_array put [] out = codes "]" ++ out
put_array put (a ∷ rest) out = 10 ∷ put_each put (a ∷ rest) (codes "  ]" ++ out)

abbrev pub put_object {ℓ} : {A : Type ℓ} → (A → Text → Text) → List A → Text → Text
put_object put [] out = codes "}" ++ out
put_object put (a ∷ rest) out = 10 ∷ put_each put (a ∷ rest) (codes "  }" ++ out)
