-- ===== src/Settings/Recents/Mru.antt =====
-- The list against its specification: the newest ten of the machines opened, each once.
use hyprv.Prelude.{
  ℕ, zero, suc, ◌≤◌, ◌≡◌, refl, sym, ap, ◌∙◌, Bool, true, false, List, [], ◌∷◌, arith, inl, inr,
  if◌then◌else◌, ltb, length, take, is_empty, remove_if, some_of, Bool-cases, remove_if-none,
  some_of-remove_if, some_of-remove_if_other, some_of-take,
}
use hyprv.Prelude.Text.{Text}
use hyprv.Settings.Crt.{Crt, wcsicmp_class}
use hyprv.Settings.Recents.{RecentKind, Recent, max_recents, has_key, bump_recent, forget_recent}

take-length_le {ℓ} : {A : Type ℓ} (n : ℕ) (xs : List A) → length xs ≤ n → take n xs ≡ xs
take-length_le zero [] h = refl
take-length_le zero (x ∷ xs) h = absurd (omega arith)
take-length_le (suc n) [] h = refl
take-length_le (suc n) (x ∷ xs) h = ap (◌∷◌ x) (take-length_le n xs (omega arith))

take-take {ℓ} : {A : Type ℓ} (n : ℕ) (xs : List A) → take n (take n xs) ≡ take n xs
take-take zero xs = refl
take-take (suc n) [] = refl
take-take (suc n) (x ∷ xs) = ap (◌∷◌ x) (take-take n xs)

trim-take :
    (rs : List Recent)
    → (if ltb max_recents (length rs) then take max_recents rs else rs) ≡ take max_recents rs
trim-take rs = ground (arith, take-length_le max_recents rs)

module _ (crt : Crt) where
  -- No two entries are of one machine.
  abbrev pub Distinct : List Recent → Type 0
  Distinct [] = Unit {0}
  Distinct (r ∷ rs) = (some_of (has_key crt r.guid) rs ≡ false) × Distinct rs

  -- The machines opened, newest first, each at the place of its newest opening.
  pub newest : List Recent → List Recent
  newest [] = []
  newest (r ∷ rs) = r ∷ remove_if (has_key crt r.guid) (newest rs)

  remove_if-Distinct :
      (test : Recent → Bool) (rs : List Recent) → Distinct rs → Distinct (remove_if test rs)
  remove_if-Distinct test [] d = tt
  remove_if-Distinct test (r ∷ rs) d = ground (
    arith,
    remove_if-Distinct test rs d.1,
    some_of-remove_if_other test (has_key crt r.guid) rs d.0,
  )

  newest-Distinct : (rs : List Recent) → Distinct (newest rs)
  unfolding newest
  newest-Distinct [] = tt
  newest-Distinct (r ∷ rs) = (
    some_of-remove_if (has_key crt r.guid) (newest rs),
    remove_if-Distinct (has_key crt r.guid) (newest rs) (newest-Distinct rs),
  )

  -- In a class, one test is as good as another.
  some_of-class :
      (a b : Text) (rs : List Recent)
      → crt.wcsicmp_eq a b ≡ true
      → some_of (has_key crt a) rs ≡ some_of (has_key crt b) rs
  some_of-class a b [] h = refl
  some_of-class a b (r ∷ rs) h = ground (
    arith,
    some_of-class a b rs h,
    wcsicmp_class crt a b r.guid h,
    crt.wcsicmp_sym r.guid a,
    crt.wcsicmp_sym r.guid b,
  )

  take-remove_if_none :
      (test : Recent → Bool) (n : ℕ) (rs : List Recent)
      → some_of test rs ≡ false
      → take n (remove_if test (take n rs)) ≡ take n (remove_if test rs)
  take-remove_if_none test n rs h =
      ap (take n) (remove_if-none test (take n rs) (some_of-take test n rs h))
      ∙ take-take n rs
      ∙ ap (take n) (sym (remove_if-none test rs h))

  take-remove_if :
      (key : Text) (n : ℕ) (rs : List Recent)
      → Distinct rs
      → take n (remove_if (has_key crt key) (take (suc n) rs))
        ≡ take n (remove_if (has_key crt key) rs)
  take-remove_if key zero rs d = refl
  take-remove_if key (suc n) [] d = refl
  take-remove_if key (suc n) (r ∷ rs) d = ground (
    arith,
    some_of-class r.guid key rs,
    take-remove_if_none (has_key crt key) (suc n) rs,
    take-remove_if key n rs d.1,
  )

  -- Opening a machine on a list that is the newest ten of a history makes it the newest ten of the
  -- longer history.
  bump-newest :
      (now : ℕ) (key : Text) (kind : RecentKind) (history : List Recent)
      → is_empty key ≡ false
      → (bump_recent crt now key kind (take max_recents (newest history))).0
        ≡ take max_recents
            (newest (record { guid = key; kind = kind; last_opened = now } ∷ history))
  unfolding bump_recent newest
  bump-newest now key kind history h = rw h (
      trim-take (
        record { guid = key; kind = kind; last_opened = now }
        ∷ remove_if (has_key crt key) (take max_recents (newest history)))
      ∙ ap (◌∷◌ (record { guid = key; kind = kind; last_opened = now }))
          (take-remove_if key 9 (newest history) (newest-Distinct history)))

  -- Opening machines one after another, the oldest last in the list, from no recent machine on.
  -- `BumpRecent` gets the key, the kind and the time of each.
  pub recents_after : List Recent → List Recent
  recents_after [] = []
  recents_after (r ∷ history) =
      (bump_recent crt r.last_opened r.guid r.kind (recents_after history)).0

  -- A history with no empty key.
  abbrev pub Named : List Recent → Type 0
  Named [] = Unit {0}
  Named (r ∷ rs) = (is_empty r.guid ≡ false) × Named rs

  -- However often and in whatever order machines are opened, each under a key that is not empty,
  -- the list is the ten opened last, each once, at its last opening, newest first.
  pub recents_after-newest :
      (history : List Recent)
      → Named history
      → recents_after history ≡ take max_recents (newest history)
  unfolding recents_after newest
  recents_after-newest [] v = refl
  recents_after-newest (r ∷ history) v =
      ap (λ rs. (bump_recent crt r.last_opened r.guid r.kind rs).0)
        (recents_after-newest history v.1)
      ∙ bump-newest r.last_opened r.guid r.kind history v.0

  some_of-remove_if_apart :
      (key other : Text) (rs : List Recent)
      → crt.wcsicmp_eq other key ≡ false
      → some_of (has_key crt other) (remove_if (has_key crt key) rs)
        ≡ some_of (has_key crt other) rs
  some_of-remove_if_apart key other [] h = refl
  some_of-remove_if_apart key other (r ∷ rs) h = ground (
    arith,
    some_of-remove_if_apart key other rs h,
    wcsicmp_class crt r.guid key other,
    crt.wcsicmp_sym key other,
  )

  some_of_forgotten :
      (key other : Text) (rs : List Recent)
      → some_of (has_key crt other) (remove_if (has_key crt key) rs)
        ≡ (if crt.wcsicmp_eq other key then false else some_of (has_key crt other) rs)
  some_of_forgotten key other rs = ground (
    arith,
    some_of-class other key (remove_if (has_key crt key) rs),
    some_of-remove_if (has_key crt key) rs,
    some_of-remove_if_apart key other rs,
  )

  some_of_missing :
      (key other : Text) (rs : List Recent)
      → some_of (has_key crt key) rs ≡ false
      → some_of (has_key crt other) rs
        ≡ (if crt.wcsicmp_eq other key then false else some_of (has_key crt other) rs)
  some_of_missing key other rs h = ground (arith, some_of-class other key rs)

  -- Forgetting a machine, by a key that is not empty, takes every entry of it from the list and
  -- leaves those of every other machine, and the file is marked for saving exactly if something
  -- went.
  pub forget_recent_lem :
      (key other : Text) (rs : List Recent)
      → is_empty key ≡ false
      → (some_of (has_key crt other) (forget_recent crt key rs).0
          ≡ (if crt.wcsicmp_eq other key then false else some_of (has_key crt other) rs))
        × ((forget_recent crt key rs).1 ≡ some_of (has_key crt key) rs)
  unfolding forget_recent
  forget_recent_lem key other rs h = rw h (elim (Bool-cases (some_of (has_key crt key) rs)) [
    | inl found ↦ rw found (some_of_forgotten key other rs, refl)
    | inr missing ↦ rw missing (some_of_missing key other rs missing, refl)
  ])
