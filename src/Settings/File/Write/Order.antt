-- ===== src/Settings/File/Write/Order.antt =====
-- The order in which an unordered map hands out its keys does not show in the text.
use hyprv.Prelude.{
  ℕ, ◌≡◌, refl, sym, ap, subst, ◌∙◌, Bool, true, false, List, [], ◌∷◌, ◌++◌, arith, inl, inr,
  Bool-cases,
}
use mathlib.Core.List.{Permᴰ}
use hyprv.Prelude.Text.{Text, codes}
use hyprv.Settings.Map.{Map, lookup}
use hyprv.Settings.VmPrefs.{VmPrefs}
use hyprv.Settings.File.State.{Numbers, Saved}
use hyprv.Settings.File.Write.{put_override, put_prefs, put_values, put_maps, put_lists, save_text}
use hyprv.Settings.File.Parts.{
  put_comma, text_lt, insert_sorted, sort_keys, keys_of, put_each, put_object,
}

text_lt_trans : (a b c : Text) → text_lt a b ≡ true → text_lt b c ≡ true → text_lt a c ≡ true
unfolding text_lt
text_lt_trans [] [] c h k = absurd cc
text_lt_trans [] (y ∷ b) [] h k = absurd cc
text_lt_trans [] (y ∷ b) (z ∷ c) h k = refl
text_lt_trans (x ∷ a) [] c h k = absurd cc
text_lt_trans (x ∷ a) (y ∷ b) [] h k = absurd cc
text_lt_trans (x ∷ a) (y ∷ b) (z ∷ c) h k = ground (arith, h, k, text_lt_trans a b c)

text_lt_asym : (a b : Text) → text_lt a b ≡ true → text_lt b a ≡ false
unfolding text_lt
text_lt_asym [] [] h = refl
text_lt_asym [] (y ∷ b) h = refl
text_lt_asym (x ∷ a) [] h = absurd cc
text_lt_asym (x ∷ a) (y ∷ b) h = ground (arith, h, text_lt_asym a b)

-- Texts of which neither comes first are the same.
text_lt_total : (a b : Text) → text_lt a b ≡ false → text_lt b a ≡ false → a ≡ b
unfolding text_lt
text_lt_total [] [] h k = refl
text_lt_total [] (y ∷ b) h k = absurd cc
text_lt_total (x ∷ a) [] h k = absurd cc
text_lt_total (x ∷ a) (y ∷ b) h k = ground (arith, h, k, text_lt_total a b)

-- What comes before one text comes before the other, or is not after it.
text_lt_mixed : (a b c : Text) → text_lt b a ≡ false → text_lt b c ≡ true → text_lt a c ≡ true
text_lt_mixed a b c h k = elim (Bool-cases (text_lt a b)) [
  | inl e ↦ text_lt_trans a b c e k
  | inr e ↦ let same = text_lt_total a b e h in rw same k
]

-- Two keys go in in either order.
insert_sorted_comm :
    (j k : Text) (rest : List Text)
    → insert_sorted j (insert_sorted k rest) ≡ insert_sorted k (insert_sorted j rest)
unfolding insert_sorted
insert_sorted_comm j k [] = elim (Bool-cases (text_lt j k)) [
  | inl e ↦ rw (e, text_lt_asym j k e)
  | inr e ↦ elim (Bool-cases (text_lt k j)) [
    | inl f ↦ rw (e, f)
    | inr f ↦ rw (text_lt_total j k e f)
  ]
]
insert_sorted_comm j k (i ∷ rest) = elim (Bool-cases (text_lt i j)) [
  | inl a ↦ elim (Bool-cases (text_lt i k)) [
    | inl b ↦ rw (a, b) (rw a (ap (◌∷◌ i) (insert_sorted_comm j k rest)))
    | inr b ↦ let c = text_lt_mixed k i j b a in rw (a, b, c) (rw a)
  ]
  | inr a ↦ elim (Bool-cases (text_lt i k)) [
    | inl b ↦ let c = text_lt_mixed j i k a b in rw (a, b, c) (rw a)
    | inr b ↦ elim (Bool-cases (text_lt j k)) [
      | inl e ↦ let f = text_lt_asym j k e in rw (a, b, e, f)
      | inr e ↦ elim (Bool-cases (text_lt k j)) [
        | inl f ↦ rw (a, b, e, f) (rw a)
        | inr f ↦
            subst
              (λ h.
                insert_sorted j (insert_sorted h (i ∷ rest))
                ≡ insert_sorted h (insert_sorted j (i ∷ rest)))
              (text_lt_total j k e f) refl
      ]
    ]
  ]
]

sort_keys-Perm : {ks js : List Text} → Permᴰ ks js → sort_keys ks ≡ sort_keys js
unfolding sort_keys
sort_keys-Perm Permᴰ.nil = refl
sort_keys-Perm (Permᴰ.cons {a = a} {b = b} {l₁ = l} {l₂ = m} e p) = rw (e, sort_keys-Perm p)
sort_keys-Perm (Permᴰ.swap {a = a} {b = b} {a' = a'} {b' = b'} {l = l} e f) =
    rw (e, f) (insert_sorted_comm b' a' (sort_keys l))
sort_keys-Perm (Permᴰ.trans p q) = sort_keys-Perm p ∙ sort_keys-Perm q

put_each-cong :
    (f g : Text → Text → Text) (ks : List Text) (out : Text)
    → ((k out' : Text) → f k out' ≡ g k out')
    → put_each f ks out ≡ put_each g ks out
unfolding put_each
put_each-cong f g [] out h = refl
put_each-cong f g (k ∷ ks) out h =
    h k (put_comma ks (put_each f ks out))
    ∙ ap (λ t. g k (put_comma ks t)) (put_each-cong f g ks out h)

put_object-cong :
    (f g : Text → Text → Text) (ks js : List Text) (out : Text)
    → ks ≡ js
    → ((k out' : Text) → f k out' ≡ g k out')
    → put_object f ks out ≡ put_object g js out
put_object-cong f g [] js out e h = rw (sym e)
put_object-cong f g (k ∷ ks) js out e h =
    ap (λ t. 10 ∷ t) (put_each-cong f g (k ∷ ks) (codes "  }" ++ out) h)
    ∙ ap (λ l. put_object g l out) e

-- Two lists of one map: the keys in some order, and the same value at every key.
pub record IsSameMap {V : Type 0} (m n : Map V) : Type 0 where
  pub same_keys : Permᴰ (keys_of m) (keys_of n)
  pub same_values : (k : Text) → lookup k m ≡ lookup k n

module _ (nums : Numbers) where
  open nums use {Double}

  put_maps-order :
      (s : Saved Double) (confirms : Map Bool) (prefs : Map VmPrefs) (out : Text)
      → IsSameMap s.confirm_overrides confirms
      → IsSameMap s.vm_prefs prefs
      → put_maps nums (record s { confirm_overrides = confirms; vm_prefs = prefs }) out
        ≡ put_maps nums s out
  unfolding put_maps put_override put_prefs
  put_maps-order s confirms prefs out c p =
      ap (λ t. codes "  \"confirmations\": {" ++ t)
        (put_object-cong (put_override confirms) (put_override s.confirm_overrides) _ _ _
            (sym (sort_keys-Perm c.same_keys)) (λ k t. rw (c.same_values k))
          ∙ ap
              (λ t.
                put_object (put_override s.confirm_overrides)
                  (sort_keys (keys_of s.confirm_overrides)) (codes ",\n  \"vmPrefs\": {" ++ t))
              (put_object-cong (put_prefs nums prefs) (put_prefs nums s.vm_prefs) _ _
                (codes ",\n" ++ out) (sym (sort_keys-Perm p.same_keys))
                (λ k t. rw (p.same_values k))))

  -- The text that `SaveLocked` writes does not depend on the order in which the two unordered maps, of the
  -- confirmations and of the machines' preferences, hand out their entries.
  pub save_text-order :
      (period : ℕ) (s : Saved Double) (confirms : Map Bool) (prefs : Map VmPrefs)
      → IsSameMap s.confirm_overrides confirms
      → IsSameMap s.vm_prefs prefs
      → save_text nums period (record s { confirm_overrides = confirms; vm_prefs = prefs })
        ≡ save_text nums period s
  unfolding save_text put_values put_lists
  save_text-order period s confirms prefs c p =
      ap (put_values nums s) (put_maps-order s confirms prefs (put_lists nums period s) c p)
