-- ===== src/Settings/File/Read/Entries.antt =====
-- The tabs, the overrides of the confirmations and the flags of the file, as the reader takes them.
use hyprv.Prelude.{
  ◌>>=◌, ◌≡◌, refl, ap, Bool, true, false, Option, none, some, List, [], ◌∷◌, if◌then◌else◌, All,
}
use hyprv.Prelude.Text.{Text, codes}
use hyprv.Prelude.Int.{ℤ, IsInt32}
use hyprv.Settings.Map.{Map, lookup}
use hyprv.Settings.General.{OpenTab}
use hyprv.Settings.File.State.{Numbers, Saved}
use hyprv.Settings.File.Grammar.{bool, number, array, Items, Members, member, no_members}
use hyprv.Settings.File.Objects.{find, JsonLibrary}
use hyprv.Settings.File.Read.{if_key, read_tabs, read_tab, read_entries, boolean_of}
use hyprv.Settings.File.Read.Values.{then_some, boolean-Has, number-Has, if_key-Has}
use hyprv.Settings.File.Read.Sections.{read_each-items_of, IsTab, read_tab-stored}
use hyprv.Settings.File.Read.Maps.{read_entries-members_of}
use hyprv.Settings.File.Parts.{is_set, at_key, sort_keys, keys_of}
use hyprv.Settings.File.Tree.{members_of, items_of, override_value, tab_object}

module _ (nums : Numbers) (lib : JsonLibrary nums) where
  open nums use {Double, of_int, to_int}
  open lib use {get_named_boolean, get_named_number}

  pub array-found :
      {A : Type 0} (ms : Members Double) (k : Text) (arr : Items Double)
      (read : Items Double → Option A) (before : A)
      → find Double k ms ≡ some (array arr)
      → (if lib.has_key ms k
          then (do found ← lib.get_named_array ms k; read found)
          else some before)
        ≡ read arr
  array-found ms k arr read before e = rw (lib.has_key_lem ms k, lib.array_lem ms k, e)

  pub one_flag :
      (k : Text) (b before : Bool)
      → find Double k (member k (bool b) no_members) ≡ some (bool b)
      → if_key nums lib get_named_boolean (member k (bool b) no_members) k before (λ c. c) before
        ≡ some b
  one_flag k b before e =
      let ms = member k (bool b) no_members in
      if_key-Has nums lib get_named_boolean ms k before b (λ c. c) before
        (boolean-Has nums lib ms k b e)

  override_read :
      (m : Map Bool) (k : Text)
      → is_set (lookup k m) ≡ true
      → some (boolean_of nums lib (override_value nums m k)) ≡ some (lookup k m)
  override_read m k h = elim_set (lookup k m) h
    where
      elim_set : (o : Option Bool) → is_set o ≡ true → some (some (at_key false o)) ≡ some o
      elim_set none e = absurd cc
      elim_set (some b) e = refl

  pub read_tabs-stored :
      (root : Members Double) (s : Saved Double) (before : List OpenTab × ℤ)
      → All (IsTab nums lib) s.general.open_tabs
      → IsInt32 s.general.selected_tab_index
      → find Double (codes "openTabs") root
        ≡ some (array (items_of nums (tab_object nums) s.general.open_tabs))
      → find Double (codes "selectedTabIndex") root
        ≡ some (number (of_int s.general.selected_tab_index))
      → read_tabs nums lib root before ≡ some (s.general.open_tabs, s.general.selected_tab_index)
  unfolding read_tabs
  read_tabs-stored root s before h i e f =
      rw (lib.has_key_lem root (codes "openTabs"), lib.array_lem root (codes "openTabs"), e)
        (then_some _
          (read_each-items_of nums lib (read_tab nums lib) (tab_object nums) (IsTab nums lib)
            (read_tab-stored nums lib) s.general.open_tabs h)
          (then_some _
            (if_key-Has nums lib get_named_number root (codes "selectedTabIndex") _ _ to_int
              before.1 (number-Has nums lib root (codes "selectedTabIndex") _ f))
            (ap (λ z. some (s.general.open_tabs, z))
              (nums.to_int_of_int s.general.selected_tab_index i))))

  -- The overrides that the next start has.
  pub read_overrides-stored :
      (m : Map Bool)
      → (m' : Map Bool) × (read_entries nums lib
            (λ k. k)
            (λ j. some (boolean_of nums lib j))
            (lib.entries (members_of nums (override_value nums m) (sort_keys (keys_of m))))
            []
          ≡ some m')
        × ((k : Text) → lookup k m' ≡ lookup k m)
  read_overrides-stored m =
      read_entries-members_of nums lib (λ k. k) (λ j. some (boolean_of nums lib j))
        (λ k. lookup k m) (override_value nums m) m (all_refl m) (override_read m) (λ k h. h)
    where
      all_refl : (n : Map Bool) → All (λ e. e.0 ≡ e.0) n
      all_refl [] = tt
      all_refl (e ∷ n) = (refl, all_refl n)
