-- ===== src/Settings/Map.antt =====
-- An `std::unordered_map` with text keys as an association list: a key that is inserted again keeps
-- its place.
use hyprv.Prelude.{◌≡◌, refl, true, Option, none, some, List, [], ◌∷◌, arith, if◌then◌else◌}
use hyprv.Prelude.Text.{Text, text_eq, text_eq_left, text_eq_right, eq_of_text_eq}

abbrev pub Map {ℓ} : Type ℓ → Type ℓ
Map V = List (Text × V)

module _ {ℓ} {V : Type ℓ} where
  unfoldable pub lookup : Text → Map V → Option V
  lookup k [] = none
  lookup k ((j, v) ∷ m) = if text_eq j k then some v else lookup k m

  unfoldable pub insert : Text → V → Map V → Map V
  insert k v [] = (k, v) ∷ []
  insert k v ((j, w) ∷ m) = if text_eq j k then (k, v) ∷ m else (j, w) ∷ insert k v m

  unfoldable pub erase : Text → Map V → Map V
  erase k [] = []
  erase k ((j, w) ∷ m) = if text_eq j k then erase k m else (j, w) ∷ erase k m

  pub lookup-class : (k j : Text) (m : Map V) → text_eq k j ≡ true → lookup j m ≡ lookup k m
  lookup-class k j m h = rw (eq_of_text_eq k j h)

  pub lookup-insert :
      (k j : Text) (v : V) (m : Map V)
      → lookup j (insert k v m) ≡ (if text_eq k j then some v else lookup j m)
  unfolding lookup insert
  lookup-insert k j v [] = refl
  lookup-insert k j v ((i, w) ∷ m) =
      ground (arith, text_eq_left i k j, text_eq_right k j i, lookup-insert k j v m)

  pub lookup-erase :
      (k j : Text) (m : Map V) → lookup j (erase k m) ≡ (if text_eq k j then none else lookup j m)
  unfolding lookup erase
  lookup-erase k j [] = ground arith
  lookup-erase k j ((i, w) ∷ m) =
      ground (arith, text_eq_left i k j, text_eq_right k j i, lookup-erase k j m)
