-- ===== src/Settings/Confirmations.antt =====
-- Whether an action asks for confirmation, in src/app/settings/Settings.cpp: the defaults, and the
-- user's overrides. The `unordered_map` of the overrides is an association list with each key once.
use hyprv.Prelude.{
  ◌≡◌, refl, ◌↔◌, ◌⊎◌, inl, inr, Bool, true, false, not, Option, none, some, arith, if◌then◌else◌,
}
use hyprv.Prelude.Text.{Text, codes, text_eq, eq_of_text_eq}
use hyprv.Settings.Map.{Map, lookup, insert, erase, lookup-insert, lookup-erase, lookup-class}

unfoldable pub default_confirmation_enabled : Text → Bool
default_confirmation_enabled key =
    if text_eq key (codes "reset")
    then true
    else if text_eq key (codes "turnOff")
    then true
    else if text_eq key (codes "restart")
    then true
    else if text_eq key (codes "shutdown")
    then true
    else if text_eq key (codes "deleteVm")
    then true
    else if text_eq key (codes "deleteSnapshot")
    then true
    else if text_eq key (codes "deleteSnapshotSubtree")
    then true
    else if text_eq key (codes "applySnapshot")
    then true
    else if text_eq key (codes "revertToLastSnapshot")
    then true
    else if text_eq key (codes "save")
    then false
    else if text_eq key (codes "pause")
    then false
    else if text_eq key (codes "startResume")
    then false
    else if text_eq key (codes "takeSnapshot")
    then false
    else if text_eq key (codes "toggleEnhancedSession")
    then false
    else true

abbrev pub Overrides : Type 0
Overrides = Map Bool

unfoldable pub confirmation_enabled : Overrides → Text → Bool
confirmation_enabled m key = elim (lookup key m) [
  | some on ↦ on
  | none ↦ default_confirmation_enabled key
]

abbrev same_bool : Bool → Option Bool → Bool
same_bool on none = false
same_bool true (some b) = b
same_bool false (some b) = not b

-- The overrides, and whether `MarkDirty` was called.
unfoldable pub set_confirmation_enabled : Text → Bool → Overrides → Overrides × Bool
set_confirmation_enabled key on m =
    if same_bool on (lookup key m) then (m, false) else (insert key on m, true)

unfoldable pub clear_confirmation_override : Text → Overrides → Overrides × Bool
clear_confirmation_override key m = elim (lookup key m) [
  | none ↦ (m, false)
  | some _ ↦ (erase key m, true)
]

-- After a choice is set for a key, that key answers the choice, and every other key as before.
pub confirmation_enabled-set :
    (m : Overrides) (key other : Text) (on : Bool)
    → confirmation_enabled (set_confirmation_enabled key on m).0 other
      ≡ (if text_eq key other then on else confirmation_enabled m other)
unfolding confirmation_enabled set_confirmation_enabled
confirmation_enabled-set m key other on =
    ground (arith, lookup-insert key other on m, lookup-class key other m)

-- After an override is cleared, its key answers the default, and every other key as before.
pub confirmation_enabled-clear :
    (m : Overrides) (key other : Text)
    → confirmation_enabled (clear_confirmation_override key m).0 other ≡ (
        if text_eq key other
        then default_confirmation_enabled other
        else confirmation_enabled m other)
unfolding confirmation_enabled clear_confirmation_override
confirmation_enabled-clear m key other =
    ground (arith, lookup-erase key other m, lookup-class key other m)

-- The actions that do not ask by default are the five that lose nothing.
abbrev pub Reversible : Text → Type 0
Reversible key =
    (key ≡ codes "save")
    ⊎ (key ≡ codes "pause")
    ⊎ (key ≡ codes "startResume")
    ⊎ (key ≡ codes "takeSnapshot")
    ⊎ (key ≡ codes "toggleEnhancedSession")

Reversible-off : (key : Text) → Reversible key → default_confirmation_enabled key ≡ false
unfolding default_confirmation_enabled text_eq
Reversible-off key (inl e) = rw e refl
Reversible-off key (inr (inl e)) = rw e refl
Reversible-off key (inr (inr (inl e))) = rw e refl
Reversible-off key (inr (inr (inr (inl e)))) = rw e refl
Reversible-off key (inr (inr (inr (inr e)))) = rw e refl

off-Reversible : (key : Text) → default_confirmation_enabled key ≡ false → Reversible key
unfolding default_confirmation_enabled
off-Reversible key h = ground (
  arith,
  eq_of_text_eq key (codes "save"),
  eq_of_text_eq key (codes "pause"),
  eq_of_text_eq key (codes "startResume"),
  eq_of_text_eq key (codes "takeSnapshot"),
  eq_of_text_eq key (codes "toggleEnhancedSession"),
)

-- An action asks for confirmation by default exactly if it is not one of these, an unknown action
-- included.
pub default_confirmation_enabled_lem :
    (key : Text) → (default_confirmation_enabled key ≡ false) ↔ Reversible key
default_confirmation_enabled_lem key = (off-Reversible key, Reversible-off key)
