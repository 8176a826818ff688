-- ===== src/Settings/File/Objects.antt =====
-- What src/app/settings/Settings.cpp uses of Windows.Data.Json. A `JsonObject` is the list of its members,
-- a `JsonArray` the list of its items; a throw is `none`.
use hyprv.Prelude.{◌≡◌, Bool, true, Option, none, some, List, if◌then◌else◌, All, some_of}
use hyprv.Prelude.Text.{Text, text_eq}
use hyprv.Settings.File.State.{Numbers}
use hyprv.Settings.File.Grammar.{
  Json, bool, number, string, array, object, Items, Members, no_members, member,
}
use hyprv.Settings.File.Parts.{is_set}

module _ (Double : Type 0) where
  unfoldable pub find : Text → Members Double → Option (Json Double)
  find k no_members = none
  find k (member j v ms) = if text_eq j k then some v else find k ms

  -- A value of the type asked for, the fallback for a missing one, and a throw for another type.
  abbrev pub boolean_or : Bool → Option (Json Double) → Option Bool
  boolean_or b none = some b
  boolean_or b (some (bool c)) = some c
  boolean_or b (some _) = none

  abbrev pub number_or : Double → Option (Json Double) → Option Double
  number_or d none = some d
  number_or d (some (number e)) = some e
  number_or d (some _) = none

  abbrev pub string_or : Text → Option (Json Double) → Option Text
  string_or s none = some s
  string_or s (some (string t)) = some t
  string_or s (some _) = none

  abbrev pub object_of : Option (Json Double) → Option (Members Double)
  object_of (some (object ms)) = some ms
  object_of _ = none

  abbrev pub array_of : Option (Json Double) → Option (Items Double)
  array_of (some (array items)) = some items
  array_of _ = none

  abbrev pub listed : Text → List (Text × Json Double) → Bool
  listed k es = some_of (λ e. text_eq e.0 k) es

-- The methods of `JsonObject` and `JsonArray`, as documented. The order of an iteration is open.
pub record JsonLibrary (nums : Numbers) : Type 0 where
  pub has_key : Members nums.Double → Text → Bool
  pub get_named_boolean : Members nums.Double → Text → Bool → Option Bool
  pub get_named_number : Members nums.Double → Text → nums.Double → Option nums.Double
  pub get_named_string : Members nums.Double → Text → Text → Option Text
  pub get_named_object : Members nums.Double → Text → Option (Members nums.Double)
  pub get_named_array : Members nums.Double → Text → Option (Items nums.Double)
  pub lookup_value : Members nums.Double → Text → Option (Json nums.Double)
  pub get_object : Json nums.Double → Option (Members nums.Double)
  pub entries : Members nums.Double → List (Text × Json nums.Double)
  pub has_key_lem :
      (ms : Members nums.Double) (k : Text) → has_key ms k ≡ is_set (find nums.Double k ms)
  pub boolean_lem :
      (ms : Members nums.Double) (k : Text) (b : Bool)
      → get_named_boolean ms k b ≡ boolean_or nums.Double b (find nums.Double k ms)
  pub number_lem :
      (ms : Members nums.Double) (k : Text) (d : nums.Double)
      → get_named_number ms k d ≡ number_or nums.Double d (find nums.Double k ms)
  pub string_lem :
      (ms : Members nums.Double) (k s : Text)
      → get_named_string ms k s ≡ string_or nums.Double s (find nums.Double k ms)
  pub object_lem :
      (ms : Members nums.Double) (k : Text)
      → get_named_object ms k ≡ object_of nums.Double (find nums.Double k ms)
  pub array_lem :
      (ms : Members nums.Double) (k : Text)
      → get_named_array ms k ≡ array_of nums.Double (find nums.Double k ms)
  pub lookup_lem : (ms : Members nums.Double) (k : Text) → lookup_value ms k ≡ find nums.Double k ms
  pub get_object_lem : (j : Json nums.Double) → get_object j ≡ object_of nums.Double (some j)
  pub entries_sound :
      (ms : Members nums.Double) → All (λ e. find nums.Double e.0 ms ≡ some e.1) (entries ms)
  pub entries_complete :
      (ms : Members nums.Double) (k : Text)
      → is_set (find nums.Double k ms) ≡ true
      → listed nums.Double k (entries ms) ≡ true
