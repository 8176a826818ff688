-- ===== src/Settings/File/Read/Values.antt =====
-- What the accessors find in the tree of the settings, and the sections that are read back from it.
use hyprv.Prelude.{◌≡◌, refl, Bool, Option, none, some, ◌>>=◌}
use hyprv.Prelude.Text.{Text, codes, text_eq}
use hyprv.Settings.Options.{RdpOptions}
use hyprv.Settings.Json.Usable.{IsUsable}
use hyprv.Settings.Json.Stored.{Has, Holds, rdp_options_from_json-Holds}
use hyprv.Settings.File.State.{Numbers}
use hyprv.Settings.File.Grammar.{bool, number, string, object, Members, member, no_members}
use hyprv.Settings.File.Objects.{find, JsonLibrary}
use hyprv.Settings.File.Read.{reader, if_key, in_object, read_options, read_debugger}
use hyprv.Settings.File.Tree.{rdp_members}

pub then_some {ℓ κ} :
    {A : Type ℓ} {B : Type κ} {o : Option A} {a : A} {r : Option B} (f : A → Option B)
    → o ≡ some a
    → f a ≡ r
    → (o >>= f) ≡ r
then_some f e g = rw e g

module _ (nums : Numbers) (lib : JsonLibrary nums) where
  open nums use {Double, of_int, of_nat, lt, to_int}
  open lib use {has_key, get_named_boolean, get_named_number, get_named_string}

  pub boolean-Has :
      (ms : Members Double) (k : Text) (b : Bool)
      → find Double k ms ≡ some (bool b)
      → Has (reader nums lib) get_named_boolean ms k b
  boolean-Has ms k b e = (rw (lib.has_key_lem ms k, e), λ d. rw (lib.boolean_lem ms k d, e))

  pub number-Has :
      (ms : Members Double) (k : Text) (v : Double)
      → find Double k ms ≡ some (number v)
      → Has (reader nums lib) get_named_number ms k v
  number-Has ms k v e = (rw (lib.has_key_lem ms k, e), λ d. rw (lib.number_lem ms k d, e))

  pub string-Has :
      (ms : Members Double) (k s : Text)
      → find Double k ms ≡ some (string s)
      → Has (reader nums lib) get_named_string ms k s
  string-Has ms k s e = (rw (lib.has_key_lem ms k, e), λ d. rw (lib.string_lem ms k d, e))

  pub if_key-Has {ℓ κ} :
      {V : Type ℓ} {S : Type κ} (get : Members Double → Text → V → Option V) (ms : Members Double)
      (k : Text) (fallback v : V) (put : V → S) (s : S)
      → Has (reader nums lib) get ms k v
      → if_key nums lib get ms k fallback put s ≡ some (put v)
  if_key-Has get ms k fallback v put s (there, value) = rw there (rw (value fallback))

  pub if_key-none {ℓ κ} :
      {V : Type ℓ} {S : Type κ} (get : Members Double → Text → V → Option V) (ms : Members Double)
      (k : Text) (fallback : V) (put : V → S) (s : S)
      → find Double k ms ≡ none
      → if_key nums lib get ms k fallback put s ≡ some s
  if_key-none get ms k fallback put s e = rw (lib.has_key_lem ms k, e)

  pub in_object-found {ℓ} :
      {S : Type ℓ} (ms : Members Double) (k : Text) (sub : Members Double)
      (read : Members Double → S → Option S) (s : S)
      → find Double k ms ≡ some (object sub)
      → in_object nums lib ms k read s ≡ read sub s
  in_object-found ms k sub read s e = rw (lib.has_key_lem ms k, lib.object_lem ms k, e)

  rdp_members-Holds : (o : RdpOptions) → Holds (reader nums lib) (rdp_members nums o) o
  unfolding find text_eq
  rdp_members-Holds o =
      let ms = rdp_members nums o in
      record {
        audio = string-Has ms (codes "audioMode") _ refl;
        clipboard = boolean-Has ms (codes "redirectClipboard") _ refl;
        drives = boolean-Has ms (codes "redirectDrives") _ refl;
        devices = boolean-Has ms (codes "redirectDevices") _ refl;
        smart_cards = boolean-Has ms (codes "redirectSmartCards") _ refl;
        ports = boolean-Has ms (codes "redirectPorts") _ refl;
        capture = boolean-Has ms (codes "audioCaptureRedirect") _ refl;
        width = number-Has ms (codes "initialDesktopWidth") _ refl;
        height = number-Has ms (codes "initialDesktopHeight") _ refl;
        depth = number-Has ms (codes "colorDepth") _ refl;
        scale = number-Has ms (codes "dpiScaleOverridePercent") _ refl;
      }

  -- Usable options are read back, whatever they are read over.
  pub read_options-rdp_members :
      (o before : RdpOptions)
      → IsUsable o
      → read_options nums lib (rdp_members nums o) before ≡ some o
  read_options-rdp_members o before u = rw (
      rdp_options_from_json-Holds (reader nums lib) (rdp_members nums o) before o
        (rdp_members-Holds o) u)

  pub read_debugger-stored :
      (enabled : Bool) (exe : Text) (before : Bool × Text)
      → read_debugger nums lib
          (member (codes "enabled") (bool enabled) (member (codes "exe") (string exe) no_members))
          before
        ≡ some (enabled, exe)
  unfolding read_debugger find text_eq
  read_debugger-stored enabled exe before =
      let ms =
        member (codes "enabled") (bool enabled) (member (codes "exe") (string exe) no_members) in
      then_some _
        (if_key-Has get_named_boolean ms (codes "enabled") _ _ _ _
          (boolean-Has ms (codes "enabled") _ refl))
        (then_some _
          (if_key-Has get_named_string ms (codes "exe") _ _ _ _
            (string-Has ms (codes "exe") _ refl))
          refl)
