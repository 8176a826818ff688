-- ===== src/Settings/File/Write/Entries.antt =====
-- The entries of the arrays and of the objects that the file lists.
use hyprv.Prelude.{
  ℕ, ◌≤◌, ◌/◌, ◌^◌, ◌≡◌, refl, inl, inr, Bool, true, false, List, [], ◌∷◌, ◌++◌, arith, All,
  Bool-cases,
}
use hyprv.Prelude.Text.{Text, codes, text_eq}
use hyprv.Settings.Map.{Map, lookup}
use hyprv.Settings.RemoteHosts.{RemoteHost}
use hyprv.Settings.Recents.{Recent, RecentKind}
use hyprv.Settings.General.{OpenTab}
use hyprv.Settings.File.State.{Numbers}
use hyprv.Settings.File.Grammar.{
  Json, array, object, item, Members, member, separator, spaced, numeral, listed, braced, Elements,
  end_array, element, end_object, field,
}
use hyprv.Settings.File.Write.{put_tab, put_override, put_host, put_recent, kind_token}
use hyprv.Settings.File.Parts.{
  esc, put_comma, put_each, put_array, put_object, sort_keys, insert_sorted, keys_of, text_lt,
  at_key,
}
use hyprv.Settings.File.Write.Pieces.{
  all_writable, IsValue, IsFields, escape_body-Chars, esc-Value, put_bool-Value, named, Fits16,
  put_rdp_options-Fields,
}
use hyprv.Settings.File.Tree.{
  items_of, members_of, tab_object, override_value, host_object, recent_object,
}

-- Sorting the keys keeps what holds of all of them.
insert_sorted-All :
    (P : Text → Type 0) (k : Text) (ks : List Text) → P k → All P ks → All P (insert_sorted k ks)
unfolding insert_sorted
insert_sorted-All P k [] p h = (p, tt)
insert_sorted-All P k (j ∷ js) p (q, h) = elim (Bool-cases (text_lt j k)) [
  | inl e ↦ rw e (q, insert_sorted-All P k js p h)
  | inr e ↦ rw e (p, (q, h))
]

pub sort_keys-All : (P : Text → Type 0) (ks : List Text) → All P ks → All P (sort_keys ks)
unfolding sort_keys
sort_keys-All P [] h = tt
sort_keys-All P (k ∷ ks) (p, h) = insert_sorted-All P k (sort_keys ks) p (sort_keys-All P ks h)

pub keys_of-All :
    {V : Type 0} (P : Text → Type 0) (m : Map V) → All (λ e. P e.0) m → All P (keys_of m)
unfolding keys_of
keys_of-All P [] h = tt
keys_of-All P ((k, v) ∷ m) (p, h) = (p, keys_of-All P m h)

-- What holds of each value of a map, and of the value for a missing key, holds of the value at a key.
pub at_key-All :
    {V : Type 0} (P : V → Type 0) (v : V) (k : Text) (m : Map V)
    → P v
    → All (λ e. P e.1) m
    → P (at_key v (lookup k m))
unfolding lookup
at_key-All P v k [] p h = p
at_key-All P v k ((j, w) ∷ m) p (q, h) = elim (Bool-cases (text_eq j k)) [
  | inl e ↦ rw e q
  | inr e ↦ rw e (at_key-All P v k m p h)
]

module _ (nums : Numbers) where
  open nums use {Double, IsNumeral}

  module _ {A : Type 0} (put : A → Text → Text) (json : A → Json Double) (IsOk : A → Type 0)
      (written : (a : A) (out : Text) → IsOk a → IsValue nums (json a) (10 ∷ put a out) out) where
    put_each-Elements :
        (first : Bool) (a : A) (rest : List A) (out : Text)
        → IsOk a
        → All IsOk rest
        → Elements Double IsNumeral first
            (item (json a) (items_of nums json rest))
            (separator first
              ++ 10 ∷ put a (put_comma rest (put_each put rest (codes "  ]" ++ out))))
            out
    unfolding put_each
    put_each-Elements first a [] out p h = element (written a _ p) (end_array (codes "\n  ") refl)
    put_each-Elements first a (b ∷ rest) out p (q, h) =
        element (written a _ p) (put_each-Elements false b rest out q h)

    pub put_array-Value :
        (items : List A) (out : Text)
        → All IsOk items
        → IsValue nums (array (items_of nums json items)) (91 ∷ put_array put items out) out
    unfolding put_each
    put_array-Value [] out h = listed (end_array [] refl)
    put_array-Value (a ∷ rest) out (p, h) = listed (put_each-Elements true a rest out p h)

  module _ (put : Text → Text → Text) (json : Text → Json Double) (IsOk : Text → Type 0)
      (written : (first : Bool) (ms : Members Double) (k out rest : Text)
        → IsOk k
        → IsFields nums false ms out rest
        → IsFields nums first (member k (json k) ms) (separator first ++ 10 ∷ put k out) rest) where
    put_each-Fields :
        (first : Bool) (k : Text) (ks : List Text) (out : Text)
        → IsOk k
        → All IsOk ks
        → IsFields nums first
            (member k (json k) (members_of nums json ks))
            (separator first ++ 10 ∷ put k (put_comma ks (put_each put ks (codes "  }" ++ out))))
            out
    unfolding put_each
    put_each-Fields first k [] out p h = written _ _ k _ _ p (end_object (codes "\n  ") refl)
    put_each-Fields first k (j ∷ ks) out p (q, h) =
        written _ _ k _ _ p (put_each-Fields false j ks out q h)

    pub put_object-Value :
        (ks : List Text) (out : Text)
        → All IsOk ks
        → IsValue nums (object (members_of nums json ks)) (123 ∷ put_object put ks out) out
    unfolding put_each
    put_object-Value [] out h = braced (end_object [] refl)
    put_object-Value (k ∷ ks) out (p, h) = braced (put_each-Fields true k ks out p h)

  abbrev pub IsWritableTab : OpenTab → Type 0
  IsWritableTab t = (all_writable t.kind ≡ true) × (all_writable t.identifier ≡ true)

  pub put_tab-Value :
      (t : OpenTab) (out : Text)
      → IsWritableTab t
      → IsValue nums (tab_object nums t) (10 ∷ put_tab t out) out
  unfolding put_tab
  put_tab-Value t out (k, i) = spaced (codes "\n    ") refl (
      braced (
        named nums (codes "\n      ") (codes "type") refl refl (esc-Value nums _ _ k) (
          named nums (codes "\n      ") (codes "identifier") refl refl (esc-Value nums _ _ i)
            (end_object (codes "\n    ") refl))))

  pub record IsWritableHost (h : RemoteHost) : Type 0 where
    pub name : all_writable h.name ≡ true
    pub address : all_writable h.address ≡ true
    pub username : all_writable h.username ≡ true
    pub domain : all_writable h.domain ≡ true
    pub port : h.port ≤ 2 ^ 16
    pub rdp : Fits16 nums h.rdp

  pub put_host-Value :
      (h : RemoteHost) (out : Text)
      → IsWritableHost h
      → IsValue nums (host_object nums h) (10 ∷ put_host nums h out) out
  unfolding put_host
  put_host-Value h out p = spaced (codes "\n    ") refl (
      braced (
        named nums (codes "\n      ") (codes "name") refl refl (esc-Value nums _ _ p.name) (
          named nums (codes "\n      ") (codes "address") refl refl (esc-Value nums _ _ p.address) (
            named nums (codes "\n      ") (codes "username") refl refl
              (esc-Value nums _ _ p.username)
              (named nums (codes "\n      ") (codes "domain") refl refl
                (esc-Value nums _ _ p.domain)
                (named nums (codes "\n      ") (codes "port") refl refl
                  (numeral _ (nums.show_nat_numeral h.port (omega (arith, p.port))))
                  (named nums (codes "\n      ") (codes "rdp") refl refl
                    (braced (
                      put_rdp_options-Fields nums h.rdp (codes "        ") (codes "      ") _ p.rdp
                        refl refl))
                    (end_object (codes "\n    ") refl))))))))

  abbrev pub IsWritableRecent : ℕ → Recent → Type 0
  IsWritableRecent period r = (all_writable r.guid ≡ true) × (r.last_opened / period ≤ 2 ^ 53)

  kind_writable : (k : RecentKind) → all_writable (kind_token k) ≡ true
  kind_writable RecentKind.vm = refl
  kind_writable RecentKind.remote = refl

  pub put_recent-Value :
      (period : ℕ) (r : Recent) (out : Text)
      → IsWritableRecent period r
      → IsValue nums (recent_object nums period r) (10 ∷ put_recent nums period r out) out
  unfolding put_recent
  put_recent-Value period r out (g, t) = spaced (codes "\n    ") refl (
      braced (
        named nums (codes "\n      ") (codes "guid") refl refl (esc-Value nums _ _ g) (
          named nums (codes "\n      ") (codes "kind") refl refl
            (esc-Value nums _ _ (kind_writable r.kind))
            (named nums (codes "\n      ") (codes "lastOpened") refl refl
              (numeral _ (nums.show_nat_numeral (r.last_opened / period) t))
              (end_object (codes "\n    ") refl)))))

  pub put_override-Fields :
      (m : Map Bool) (first : Bool) (ms : Members Double) (k out rest : Text)
      → all_writable k ≡ true
      → IsFields nums false ms out rest
      → IsFields nums first
          (member k (override_value nums m k) ms)
          (separator first ++ 10 ∷ put_override m k out)
          rest
  unfolding put_override esc
  put_override-Fields m first ms k out rest h more =
      field (codes "\n    ") refl (escape_body-Chars nums k _ h)
        (spaced (codes " ") refl (put_bool-Value nums _ _)) more
