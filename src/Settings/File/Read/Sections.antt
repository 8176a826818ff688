-- ===== src/Settings/File/Read/Sections.antt =====
-- The window, the appearance and the arrays of the settings are read back from the tree.
use hyprv.Prelude.{
  ℕ, ◌≤◌, ◌≡◌, refl, ap, ◌∙◌, Bool, true, false, ◌&&◌, Option, none, some, List, [], ◌∷◌,
  if◌then◌else◌, arith, is_empty, All,
}
use hyprv.Prelude.Text.{Text, codes, text_eq}
use hyprv.Settings.Options.{RdpOptions, AudioMode, tokens_round_trip}
use hyprv.Settings.RemoteHosts.{RemoteHost}
use hyprv.Settings.General.{Window, Appearance, OpenTab}
use hyprv.Settings.Json.Usable.{IsUsable}
use hyprv.Settings.Json.Stored.{to_uint16-of_nat}
use hyprv.Settings.File.State.{Numbers}
use hyprv.Settings.File.Grammar.{Json, number, string, object, Members, member, no_members}
use hyprv.Settings.File.Objects.{find, JsonLibrary}
use hyprv.Settings.File.Read.{
  reader, read_options, read_window, read_appearance, clamp_unit, read_each, read_tab, read_host,
}
use hyprv.Settings.File.Read.Values.{
  then_some, boolean-Has, number-Has, string-Has, if_key-Has, if_key-none, in_object-found,
  read_options-rdp_members,
}
use hyprv.Settings.File.Write.Whole.{IsWritableWindow}
use hyprv.Settings.File.Tree.{
  rdp_members, size_members, appearance_members, items_of, tab_object, host_object,
}

module _ (nums : Numbers) (lib : JsonLibrary nums) where
  open nums use {Double, of_int, of_nat, lt, to_int}
  open lib use {get_named_boolean, get_named_number, get_named_string, get_object}

  -- A value that is there needs no fallback.
  pub number_there :
      (ms : Members Double) (k : Text) (fallback v : Double)
      → find Double k ms ≡ some (number v)
      → get_named_number ms k fallback ≡ some v
  number_there ms k fallback v e = (number-Has nums lib ms k v e).1 fallback

  pub string_there :
      (ms : Members Double) (k fallback s : Text)
      → find Double k ms ≡ some (string s)
      → get_named_string ms k fallback ≡ some s
  string_there ms k fallback s e = (string-Has nums lib ms k s e).1 fallback

  pub read_window-stored :
      (placed : Bool) (w before : Window Double)
      → IsWritableWindow nums w
      → (placed ≡ false → (before.x ≡ w.x) × (before.y ≡ w.y))
      → read_window nums lib
          (if placed
            then member
                (codes "x")
                (number (of_int w.x))
                (member (codes "y") (number (of_int w.y)) (size_members nums w))
            else size_members nums w)
          before
        ≡ some w
  unfolding read_window find text_eq
  read_window-stored true w before h same =
      let ms =
        member (codes "x") (number (of_int w.x))
          (member (codes "y") (number (of_int w.y)) (size_members nums w)) in
      then_some _
        (if_key-Has nums lib get_named_number ms (codes "x") _ _ to_int _
          (number-Has nums lib ms (codes "x") _ refl))
        (then_some _
          (if_key-Has nums lib get_named_number ms (codes "y") _ _ to_int _
            (number-Has nums lib ms (codes "y") _ refl))
          (then_some _ (number_there ms (codes "width") _ _ refl) (
            then_some _ (number_there ms (codes "height") _ _ refl) (
              then_some _ (number_there ms (codes "railWidth") _ _ refl) (
                then_some _ (number_there ms (codes "flyoutWidth") _ _ refl) (
                  then_some _
                    (if_key-Has nums lib get_named_boolean ms (codes "railVisible") _ _ _ _
                      (boolean-Has nums lib ms (codes "railVisible") _ refl))
                    (then_some _
                      (if_key-Has nums lib get_named_boolean ms (codes "flyoutVisible") _ _ _ _
                        (boolean-Has nums lib ms (codes "flyoutVisible") _ refl))
                      (λ i. some record {
                        x = nums.to_int_of_int w.x h.x i;
                        y = nums.to_int_of_int w.y h.y i;
                        width = nums.to_int_of_int w.width h.width i;
                        height = nums.to_int_of_int w.height h.height i;
                        rail_width = w.rail_width;
                        flyout_width = w.flyout_width;
                        rail_visible = w.rail_visible;
                        flyout_visible = w.flyout_visible;
                      }))))))))
  read_window-stored false w before h same =
      let ms = size_members nums w in
      then_some _ (if_key-none nums lib get_named_number ms (codes "x") _ to_int _ refl) (
        then_some _ (if_key-none nums lib get_named_number ms (codes "y") _ to_int _ refl) (
          then_some _ (number_there ms (codes "width") _ _ refl) (
            then_some _ (number_there ms (codes "height") _ _ refl) (
              then_some _ (number_there ms (codes "railWidth") _ _ refl) (
                then_some _ (number_there ms (codes "flyoutWidth") _ _ refl) (
                  then_some _
                    (if_key-Has nums lib get_named_boolean ms (codes "railVisible") _ _ _ _
                      (boolean-Has nums lib ms (codes "railVisible") _ refl))
                    (then_some _
                      (if_key-Has nums lib get_named_boolean ms (codes "flyoutVisible") _ _ _ _
                        (boolean-Has nums lib ms (codes "flyoutVisible") _ refl))
                      (λ i. some record {
                        x = (same refl).0 i;
                        y = (same refl).1 i;
                        width = nums.to_int_of_int w.width h.width i;
                        height = nums.to_int_of_int w.height h.height i;
                        rail_width = w.rail_width;
                        flyout_width = w.flyout_width;
                        rail_visible = w.rail_visible;
                        flyout_visible = w.flyout_visible;
                      }))))))))

  -- A value between 0 and 1.
  abbrev pub IsFraction : Double → Type 0
  IsFraction v = (lt v (of_nat 0) ≡ false) × (lt (of_nat 1) v ≡ false)

  clamp_unit-IsFraction : (v : Double) → IsFraction v → clamp_unit nums lib v ≡ v
  unfolding clamp_unit
  clamp_unit-IsFraction v (low, high) = rw low (rw high)

  pub read_appearance-stored :
      (a before : Appearance Double)
      → IsFraction a.acrylic_tint_opacity
      → IsFraction a.mica_tint_opacity
      → read_appearance nums lib (appearance_members nums a) before ≡ some a
  unfolding read_appearance find text_eq
  read_appearance-stored a before h g =
      let ms = appearance_members nums a in
      let tokens = tokens_round_trip a.backdrop a.theme AudioMode.none in
      then_some _
        (if_key-Has nums lib get_named_string ms (codes "backdrop") _ _ _ _
          (string-Has nums lib ms (codes "backdrop") _ refl))
        (then_some _
          (if_key-Has nums lib get_named_string ms (codes "theme") _ _ _ _
            (string-Has nums lib ms (codes "theme") _ refl))
          (then_some _
            (if_key-Has nums lib get_named_number ms (codes "acrylicTintOpacity") _ _ _ _
              (number-Has nums lib ms (codes "acrylicTintOpacity") _ refl))
            (then_some _
              (if_key-Has nums lib get_named_number ms (codes "micaTintOpacity") _ _ _ _
                (number-Has nums lib ms (codes "micaTintOpacity") _ refl))
              (λ i. some record {
                backdrop = tokens.0 i;
                theme = tokens.1 i;
                acrylic_tint_opacity = clamp_unit-IsFraction a.acrylic_tint_opacity h i;
                mica_tint_opacity = clamp_unit-IsFraction a.mica_tint_opacity g i;
              }))))

  -- Items that are read back one by one make a list that is read back.
  module _ {A : Type 0} (read : Members Double → Option (Option A)) (json : A → Json Double)
      (IsOk : A → Type 0)
      (kept : (a : A)
        → IsOk a
        → (ms : Members Double) × (json a ≡ object ms) × (read ms ≡ some (some a))) where
    pub read_each-items_of :
        (items : List A)
        → All IsOk items
        → read_each nums lib read (items_of nums json items) ≡ some items
    unfolding read_each
    read_each-items_of [] h = refl
    read_each-items_of (a ∷ items) (p, h) =
        let (ms, same, e) = kept a p in
        rw (lib.get_object_lem (json a), same, e, read_each-items_of items h)

  pub nonempty_ite {ℓ} :
      {A : Type ℓ} (t : Text) (a b : A) → is_empty t ≡ false → (if is_empty t then a else b) ≡ b
  nonempty_ite t a b h = rw h

  abbrev pub IsTab : OpenTab → Type 0
  IsTab t = is_empty t.kind ≡ false

  pub read_tab-stored :
      (t : OpenTab)
      → IsTab t
      → (ms : Members Double) × (tab_object nums t ≡ object ms)
        × (read_tab nums lib ms ≡ some (some t))
  unfolding read_tab find text_eq
  read_tab-stored t h =
      let ms =
        member (codes "type") (string t.kind)
          (member (codes "identifier") (string t.identifier) no_members) in
      (
        ms,
        refl,
        then_some _ (string_there ms (codes "type") _ _ refl) (
            then_some _ (string_there ms (codes "identifier") _ _ refl)
              (ap some (nonempty_ite t.kind none (some t) h))),
      )

  pub record IsHost (h : RemoteHost) : Type 0 where
    pub address : is_empty h.address ≡ false
    pub port : (1 ≤ h.port) × (h.port ≤ 65535)
    pub rdp : IsUsable h.rdp

  port_kept :
      (n : ℕ)
      → (1 ≤ n) × (n ≤ 65535)
      → (if nums.le (of_nat 1) (of_nat n) && nums.le (of_nat n) (of_nat 65535)
          then nums.to_uint16 (of_nat n)
          else 3389)
        ≡ n
  port_kept n h = ground (
    arith,
    h.0,
    h.1,
    nums.le_of_nat 1 n,
    nums.le_of_nat n 65535,
    to_uint16-of_nat (reader nums lib) n,
  )

  pub read_host-stored :
      (defaults : RdpOptions) (h : RemoteHost)
      → IsHost h
      → (ms : Members Double) × (host_object nums h ≡ object ms)
        × (read_host nums lib defaults ms ≡ some (some h))
  unfolding read_host find text_eq
  read_host-stored defaults h p =
      let ms = member (codes "name") (string h.name) (
        member (codes "address") (string h.address) (
          member (codes "username") (string h.username) (
            member (codes "domain") (string h.domain) (
              member (codes "port") (number (of_nat h.port))
                (member (codes "rdp") (object (rdp_members nums h.rdp)) no_members))))) in
      (
        ms,
        refl,
        then_some _ (string_there ms (codes "address") _ _ refl) (
            nonempty_ite h.address _ _ p.address
            ∙ then_some _ (string_there ms (codes "name") _ _ refl) (
                then_some _ (string_there ms (codes "username") _ _ refl) (
                  then_some _ (string_there ms (codes "domain") _ _ refl) (
                    then_some _ (number_there ms (codes "port") _ _ refl) (
                      then_some _
                        (in_object-found nums lib ms (codes "rdp") (rdp_members nums h.rdp)
                            (read_options nums lib) defaults refl
                          ∙ read_options-rdp_members nums lib h.rdp defaults p.rdp)
                        (λ i. some (
                          some record {
                            name = h.name;
                            address = h.address;
                            username = h.username;
                            domain = h.domain;
                            port = port_kept h.port p.port i;
                            rdp = h.rdp;
                          }))))))),
      )
