-- ===== src/Settings/File/Read/Prefs.antt =====
-- The preferences of the machines and the list of recent ones are read back from the tree.
use hyprv.Prelude.{
  ℕ, suc, ◌+◌, ◌≤◌, ◌≡◌, refl, ap, sym, ◌∙◌, Bool, true, false, ◌*◌, ◌/◌, ◌^◌, Option, none, some,
  List, [], ◌∷◌, if◌then◌else◌, arith, inl, inr, Bool-cases, is_empty, All, length, leb,
}
use hyprv.Prelude.Text.{Text, codes, text_eq, text_eq_refl}
use hyprv.Settings.Crt.{Crt}
use hyprv.Settings.Options.{RdpOptions}
use hyprv.Settings.Map.{Map, lookup}
use hyprv.Settings.Recents.{Recent, RecentKind, max_recents}
use hyprv.Settings.VmPrefs.{VmPrefs, no_prefs, slot_of}
use hyprv.Settings.Json.Usable.{IsUsable}
use hyprv.Settings.File.State.{Numbers}
use hyprv.Settings.File.Grammar.{Json, bool, number, string, object, Members, member, no_members}
use hyprv.Settings.File.Objects.{find, object_of, JsonLibrary}
use hyprv.Settings.File.Read.{
  looked_up, boolean_of, string_of, options_of, any_set, read_sub, read_prefs,
}
use hyprv.Settings.File.Load.{read_recent, read_recents}
use hyprv.Settings.File.Read.Values.{then_some, read_options-rdp_members}
use hyprv.Settings.File.Read.Sections.{number_there, string_there, nonempty_ite}
use hyprv.Settings.File.Write.{kind_token}
use hyprv.Settings.File.Parts.{is_set, at_key}
use hyprv.Settings.File.Write.Entries.{at_key-All}
use hyprv.Settings.File.Write.Prefs.{Each, none_of_is_set}
use hyprv.Settings.File.Tree.{
  rdp_members, optional_member, pref_members, prefs_value, items_of, recent_object,
}

abbrev found_as {ℓ κ} : {A : Type ℓ} {B : Type κ} → (A → B) → Option A → Option B
found_as f none = none
found_as f (some a) = some (f a)

ite_same {ℓ} :
    {A : Type ℓ} (b : Bool) (a : A) → (if b then some (a ∷ []) else some (a ∷ [])) ≡ some (a ∷ [])
ite_same true a = refl
ite_same false a = refl

module _ (nums : Numbers) (lib : JsonLibrary nums) where
  open nums use {Double, of_nat}

  find-other :
      {A : Type 0} (k j : Text) (o : Option A) (f : A → Json Double) (ms : Members Double)
      → text_eq j k ≡ false
      → find Double k (optional_member nums j o f ms) ≡ find Double k ms
  unfolding find
  find-other k j none f ms e = refl
  find-other k j (some a) f ms e = rw e

  find-same :
      {A : Type 0} (k : Text) (o : Option A) (f : A → Json Double) (ms : Members Double)
      → find Double k ms ≡ none
      → find Double k (optional_member nums k o f ms) ≡ found_as f o
  unfolding find
  find-same k none f ms e = e
  find-same k (some a) f ms e = rw (text_eq_refl k)

  -- A member that is there exactly if the option is set is read back.
  looked_up-found :
      {A : Type 0} (ms : Members Double) (k : Text) (read : Json Double → Option (Option A))
      (f : A → Json Double) (o : Option A)
      → find Double k ms ≡ found_as f o
      → Each (λ a. read (f a) ≡ some (some a)) o
      → looked_up nums lib ms k read ≡ some o
  looked_up-found ms k read f none e h = rw (lib.has_key_lem ms k, e)
  looked_up-found ms k read f (some a) e h = rw (lib.has_key_lem ms k, lib.lookup_lem ms k, e, h)

  kept-Each :
      {A : Type 0} (read : Json Double → Option (Option A)) (f : A → Json Double) (o : Option A)
      → ((a : A) → read (f a) ≡ some (some a))
      → Each (λ a. read (f a) ≡ some (some a)) o
  kept-Each read f none h = tt
  kept-Each read f (some a) h = h a

  usable-Each :
      (defaults : RdpOptions) (o : Option RdpOptions)
      → Each IsUsable o
      → Each (λ a. options_of nums lib defaults (object (rdp_members nums a)) ≡ some (some a)) o
  usable-Each defaults none h = tt
  usable-Each defaults (some o) h = rw (read_options-rdp_members nums lib o defaults h)

  read_sub-pref_members :
      (defaults : RdpOptions) (p : VmPrefs)
      → Each IsUsable p.rdp_options
      → read_sub nums lib defaults (pref_members nums p) ≡ some p
  unfolding read_sub text_eq find
  read_sub-pref_members defaults p h =
      let k1 = codes "enhancedSession" in
      let k2 = codes "enhancedSessionSupported" in
      let k3 = codes "debuggerExe" in
      let k4 = codes "debuggerArgs" in
      let k5 = codes "rdpOptions" in
      let ms = pref_members nums p in
      then_some _
        (looked_up-found ms k1 _ (λ b. bool b) p.enhanced_session
          (find-same k1 p.enhanced_session _ _ (
            find-other k1 k2 p.enhanced_session_supported _ _ refl
            ∙ find-other k1 k3 p.debugger_exe _ _ refl
            ∙ find-other k1 k4 p.debugger_args _ _ refl
            ∙ find-other k1 k5 p.rdp_options _ no_members refl))
          (kept-Each (λ v. some (boolean_of nums lib v)) (λ b. bool b) p.enhanced_session
            (λ b. refl)))
        (then_some _
          (looked_up-found ms k2 _ (λ b. bool b) p.enhanced_session_supported
            (find-other k2 k1 p.enhanced_session _ _ refl
              ∙ find-same k2 p.enhanced_session_supported _ _ (
                  find-other k2 k3 p.debugger_exe _ _ refl
                  ∙ find-other k2 k4 p.debugger_args _ _ refl
                  ∙ find-other k2 k5 p.rdp_options _ no_members refl))
            (kept-Each (λ v. some (boolean_of nums lib v)) (λ b. bool b)
              p.enhanced_session_supported (λ b. refl)))
          (then_some _
            (looked_up-found ms k5 _ (λ o. object (rdp_members nums o)) p.rdp_options
              (find-other k5 k1 p.enhanced_session _ _ refl
                ∙ find-other k5 k2 p.enhanced_session_supported _ _ refl
                ∙ find-other k5 k3 p.debugger_exe _ _ refl
                ∙ find-other k5 k4 p.debugger_args _ _ refl
                ∙ find-same k5 p.rdp_options _ no_members refl)
              (usable-Each defaults p.rdp_options h))
            (then_some _
              (looked_up-found ms k3 _ (λ s. string s) p.debugger_exe
                (find-other k3 k1 p.enhanced_session _ _ refl
                  ∙ find-other k3 k2 p.enhanced_session_supported _ _ refl
                  ∙ find-same k3 p.debugger_exe _ _ (
                      find-other k3 k4 p.debugger_args _ _ refl
                      ∙ find-other k3 k5 p.rdp_options _ no_members refl))
                (kept-Each (λ v. some (string_of nums lib v)) (λ t. string t) p.debugger_exe
                  (λ t. refl)))
              (then_some _
                (looked_up-found ms k4 _ (λ s. string s) p.debugger_args
                  (find-other k4 k1 p.enhanced_session _ _ refl
                    ∙ find-other k4 k2 p.enhanced_session_supported _ _ refl
                    ∙ find-other k4 k3 p.debugger_exe _ _ refl
                    ∙ find-same k4 p.debugger_args _ _
                        (find-other k4 k5 p.rdp_options _ no_members refl))
                  (kept-Each (λ v. some (string_of nums lib v)) (λ t. string t) p.debugger_args
                    (λ t. refl)))
                refl))))

  -- The entry that is kept: none for preferences with nothing set.
  abbrev pub kept_prefs : VmPrefs → Option VmPrefs
  kept_prefs p = if any_set nums lib p then some p else none

  pub read_prefs-value :
      (defaults : RdpOptions) (m : Map VmPrefs)
      → All (λ e. Each IsUsable e.1.rdp_options) m
      → (k : Text)
      → read_prefs nums lib defaults (prefs_value nums m k)
        ≡ some (kept_prefs (at_key no_prefs (lookup k m)))
  unfolding read_prefs
  read_prefs-value defaults m h k = rw (
      read_sub-pref_members defaults (at_key no_prefs (lookup k m))
        (at_key-All (λ p. Each IsUsable p.rdp_options) no_prefs k m tt h))

  kept_prefs-slot_of : (p : VmPrefs) → slot_of (kept_prefs p) ≡ p
  kept_prefs-slot_of p = elim (Bool-cases (any_set nums lib p)) [
    | inl e ↦ rw e
    | inr e ↦ rw e (λ i. record {
      enhanced_session = sym (none_of_is_set p.enhanced_session (ground arith)) i;
      enhanced_session_supported =
          sym (none_of_is_set p.enhanced_session_supported (ground arith)) i;
      rdp_options = sym (none_of_is_set p.rdp_options (ground arith)) i;
      debugger_exe = sym (none_of_is_set p.debugger_exe (ground arith)) i;
      debugger_args = sym (none_of_is_set p.debugger_args (ground arith)) i;
    })
  ]

  at_key-slot_of : (o : Option VmPrefs) → at_key no_prefs o ≡ slot_of o
  at_key-slot_of none = refl
  at_key-slot_of (some p) = refl

  -- What is kept of an entry is the entry, for a reader of the preferences.
  pub kept_slot : (o : Option VmPrefs) → slot_of (kept_prefs (at_key no_prefs o)) ≡ slot_of o
  kept_slot o = kept_prefs-slot_of (at_key no_prefs o) ∙ at_key-slot_of o

  pub kept_held :
      (o : Option VmPrefs) → is_set (kept_prefs (at_key no_prefs o)) ≡ true → is_set o ≡ true
  kept_held none h = absurd cc
  kept_held (some p) h = refl

  -- A key, and a time that is a number of whole microseconds.
  pub record IsRecent (period : ℕ) (r : Recent) : Type 0 where
    pub guid : is_empty r.guid ≡ false
    pub whole : r.last_opened / period * period ≡ r.last_opened
    pub small : r.last_opened / period ≤ 2 ^ 53

  module _ (crt : Crt) (period : ℕ)
      (tokens_differ : crt.wcsicmp_eq (codes "vm") (codes "remote") ≡ false) where
    kind_kept :
        (k : RecentKind)
        → (if crt.wcsicmp_eq (kind_token k) (codes "remote")
            then RecentKind.remote
            else RecentKind.vm)
          ≡ k
    kind_kept RecentKind.vm = rw tokens_differ
    kind_kept RecentKind.remote = rw (crt.wcsicmp_refl (codes "remote"))

    read_recent-stored :
        (r : Recent)
        → IsRecent period r
        → (ms : Members Double) × (recent_object nums period r ≡ object ms)
          × (read_recent nums lib crt period ms ≡ some (some r))
    unfolding read_recent find text_eq
    read_recent-stored r p =
        let ms = member (codes "guid") (string r.guid) (
          member (codes "kind") (string (kind_token r.kind))
            (member (codes "lastOpened") (number (of_nat (r.last_opened / period))) no_members)) in
        (
          ms,
          refl,
          then_some _ (string_there nums lib ms (codes "guid") _ _ refl) (
              nonempty_ite nums lib r.guid _ _ p.guid
              ∙ then_some _ (string_there nums lib ms (codes "kind") _ _ refl) (
                  then_some _ (number_there nums lib ms (codes "lastOpened") _ _ refl) (λ i. some (
                    some record {
                      guid = r.guid;
                      kind = kind_kept r.kind i;
                      last_opened =
                          (ap (λ n. n * period)
                                (nums.to_int64_of_nat (r.last_opened / period) p.small)
                              ∙ p.whole)
                            i;
                    })))),
        )

    got_object :
        (r : Recent) (ms : Members Double)
        → recent_object nums period r ≡ object ms
        → lib.get_object (recent_object nums period r) ≡ some ms
    got_object r ms same =
        lib.get_object_lem (recent_object nums period r) ∙ ap (λ j. object_of Double (some j)) same

    -- A list of at most ten recent machines is read back.
    pub read_recents-items_of :
        (rs : List Recent) (n : ℕ)
        → All (IsRecent period) rs
        → n + length rs ≤ max_recents
        → read_recents nums lib crt period (items_of nums (recent_object nums period) rs) n
          ≡ some rs
    unfolding read_recents
    read_recents-items_of [] n h b = refl
    read_recents-items_of (r ∷ []) n (p, h) b =
        let (ms, same, e) = read_recent-stored r p in
        then_some _ (got_object r ms same) (then_some _ e (ite_same (leb max_recents (suc n)) r))
    read_recents-items_of (r ∷ s ∷ rs) n (p, h) b =
        let (ms, same, e) = read_recent-stored r p in
        let more = read_recents-items_of (s ∷ rs) (suc n) h (omega (arith, b)) in
        let below : leb max_recents (suc n) ≡ false = ground (arith, b) in
        then_some _ (got_object r ms same) (then_some _ e (rw below (then_some _ more refl)))
