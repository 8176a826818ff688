-- ===== src/Settings/RemoteHosts/Laws.antt =====
-- What is found after a save or a removal, and that no two saved hosts have one address.
use hyprv.Prelude.{
  ◌≡◌, refl, ap, subst, ◌∙◌, ◌⊎◌, inl, inr, Bool, true, false, none, some, List, [], ◌∷◌, ◌++◌,
  arith, if◌then◌else◌, is_empty, remove_if, some_of, Bool-cases, some_of-remove_if,
  some_of-remove_if_other,
}
use hyprv.Prelude.Text.{Text}
use hyprv.Settings.Crt.{Crt, wcsicmp_class}
use hyprv.Settings.RemoteHosts.{
  RemoteHost, at_address, first_at, find_remote_host, put_at, add_or_update_remote_host,
  remove_remote_host, dialog_save,
}

some_of-tail {ℓ} :
    {A : Type ℓ} (test : A → Bool) (x : A) (xs : List A)
    → some_of test (x ∷ xs) ≡ false
    → (test x ≡ false) × (some_of test xs ≡ false)
some_of-tail test x xs h = (ground arith, ground arith)

module _ (crt : Crt) where
  -- No two hosts have one address, in any case.
  abbrev pub Distinct : List RemoteHost → Type 0
  Distinct [] = Unit {0}
  Distinct (h ∷ hs) = (some_of (at_address crt h.address) hs ≡ false) × Distinct hs

  wcsicmp_right :
      (a b c : Text) → crt.wcsicmp_eq a b ≡ true → crt.wcsicmp_eq c a ≡ crt.wcsicmp_eq c b
  wcsicmp_right a b c h = crt.wcsicmp_sym c a ∙ wcsicmp_class crt a b c h ∙ crt.wcsicmp_sym b c

  some_of-class :
      (a b : Text) (hs : List RemoteHost)
      → crt.wcsicmp_eq a b ≡ true
      → some_of (at_address crt a) hs ≡ some_of (at_address crt b) hs
  some_of-class a b [] e = refl
  some_of-class a b (h ∷ hs) e =
      ground (arith, some_of-class a b hs e, wcsicmp_right a b h.address e)

  first_at-put_at :
      (host : RemoteHost) (other : Text) (hs : List RemoteHost)
      → first_at crt other (put_at crt host.address host hs)
        ≡ (if crt.wcsicmp_eq host.address other then some host else first_at crt other hs)
  unfolding first_at put_at
  first_at-put_at host other [] = refl
  first_at-put_at host other (h ∷ hs) = ground (
    arith,
    first_at-put_at host other hs,
    wcsicmp_class crt h.address host.address other,
    wcsicmp_right host.address other h.address,
  )

  -- A host that is saved as new is found at its address, in place of the one that was there, and at
  -- every other address the same host is found as before. The addresses are not empty.
  pub find-add :
      (host : RemoteHost) (other : Text) (hs : List RemoteHost)
      → is_empty host.address ≡ false
      → is_empty other ≡ false
      → find_remote_host crt other (add_or_update_remote_host crt [] host hs).0
        ≡ (if crt.wcsicmp_eq host.address other then some host else find_remote_host crt other hs)
  unfolding find_remote_host add_or_update_remote_host
  find-add host other hs h o = rw (h, o) (first_at-put_at host other hs)

  -- An address that is nowhere in the list but at the key is nowhere in the rest once the key's
  -- host is replaced.
  some_of-put_at :
      (key other : Text) (host : RemoteHost) (hs : List RemoteHost)
      → crt.wcsicmp_eq host.address other ≡ false
      → some_of (at_address crt other) hs ≡ false
      → some_of (at_address crt other) (put_at crt key host hs) ≡ false
  unfolding put_at
  some_of-put_at key other host [] a b = ground arith
  some_of-put_at key other host (h ∷ hs) a b = ground (arith, some_of-put_at key other host hs a)

  -- Replacing at a key keeps the addresses distinct, if the new address is that key's or no host's.
  put_at-Distinct :
      (key : Text) (host : RemoteHost) (hs : List RemoteHost)
      → Distinct hs
      → (crt.wcsicmp_eq host.address key ≡ true)
        ⊎ (some_of (at_address crt host.address) hs ≡ false)
      → Distinct (put_at crt key host hs)
  unfolding put_at
  put_at-Distinct key host [] d c = (refl, tt)
  put_at-Distinct key host (h ∷ hs) d (inl same) = elim (Bool-cases (at_address crt key h)) [
    | inl hit ↦
        rw (hit, put_at)
          (
            ground (
              arith,
              some_of-class h.address host.address hs,
              wcsicmp_right host.address key h.address same,
            ),
            d.1,
          )
    | inr miss ↦
        rw (miss, put_at)
          (
            some_of-put_at key h.address host hs
                (ground (arith, wcsicmp_class crt host.address h.address key, same)) d.0,
            put_at-Distinct key host hs d.1 (inl same),
          )
  ]
  put_at-Distinct key host (h ∷ hs) d (inr new) =
      let (apart, others) = some_of-tail (at_address crt host.address) h hs new in
      elim (Bool-cases (at_address crt key h)) [
        | inl hit ↦ rw (hit, put_at) (others, d.1)
        | inr miss ↦
            rw (miss, put_at)
              (
                some_of-put_at key h.address host hs
                    (crt.wcsicmp_sym host.address h.address ∙ apart) d.0,
                put_at-Distinct key host hs d.1 (inr others),
              )
      ]

  first_at-none :
      (key : Text) (hs : List RemoteHost)
      → first_at crt key hs ≡ none
      → some_of (at_address crt key) hs ≡ false
  unfolding first_at
  first_at-none key [] e = refl
  first_at-none key (h ∷ hs) e = ground (arith, first_at-none key hs)

  -- What the dialog lets through is a replacement at a key that is the new address or is not taken.
  dialog_cases :
      (original : Text) (host : RemoteHost) (hs saved : List RemoteHost)
      → dialog_save crt original host hs ≡ some saved
      → (key : Text) × (put_at crt key host hs ≡ saved)
        × ((crt.wcsicmp_eq host.address key ≡ true)
            ⊎ (some_of (at_address crt host.address) hs ≡ false))
  unfolding dialog_save find_remote_host add_or_update_remote_host
  dialog_cases original host hs saved e = (
    (if is_empty original then host.address else original),
    ground arith,
    ground (arith, first_at-none host.address hs, crt.wcsicmp_refl host.address),
  )

  -- Saving through the dialog keeps distinct addresses distinct, whatever is edited into whatever.
  pub dialog_save-Distinct :
      (original : Text) (host : RemoteHost) (hs saved : List RemoteHost)
      → Distinct hs
      → dialog_save crt original host hs ≡ some saved
      → Distinct saved
  unfolding dialog_save
  dialog_save-Distinct original host hs saved d e =
      let (key, done, free) = dialog_cases original host hs saved e in
      subst Distinct done (put_at-Distinct key host hs d free)

  put_at_middle :
      (key : Text) (host h : RemoteHost) (before after : List RemoteHost)
      → at_address crt key h ≡ true
      → some_of (at_address crt key) before ≡ false
      → put_at crt key host (before ++ h ∷ after) ≡ before ++ host ∷ after
  unfolding put_at
  put_at_middle key host h [] after a b = rw a
  put_at_middle key host h (x ∷ before) after a b =
      let (apart, others) = some_of-tail (at_address crt key) x before b in
      rw apart (ap (◌∷◌ x) (put_at_middle key host h before after a others))

  Distinct-middle :
      (host : RemoteHost) (before after : List RemoteHost)
      → Distinct (before ++ host ∷ after)
      → some_of (at_address crt host.address) after ≡ false
  Distinct-middle host [] after d = d.0
  Distinct-middle host (x ∷ before) after d = Distinct-middle host before after d.1

  -- An edit that the dialog would refuse, of a saved host into the address of another one behind it
  -- in the list, makes the setting itself hold two hosts of one address. Neither address is empty.
  pub add_or_update-not_Distinct :
      (original : Text) (host : RemoteHost) (before after : List RemoteHost) (h : RemoteHost)
      → is_empty host.address ≡ false
      → is_empty original ≡ false
      → at_address crt original h ≡ true
      → some_of (at_address crt original) before ≡ false
      → some_of (at_address crt host.address) after ≡ true
      → ¬ Distinct (add_or_update_remote_host crt original host (before ++ h ∷ after)).0
  unfolding add_or_update_remote_host
  add_or_update-not_Distinct original host before after h a b c e f d =
      let edited : add_or_update_remote_host crt original host (before ++ h ∷ after)
          ≡ (before ++ host ∷ after, true) =
        rw (a, b) (ap (λ l. (l, true)) (put_at_middle original host h before after c e)) in
      cc (Distinct-middle host before after (subst (λ r. Distinct r.0) edited d))

  remove_if-Distinct :
      (key : Text) (hs : List RemoteHost)
      → Distinct hs
      → Distinct (remove_if (at_address crt key) hs)
  remove_if-Distinct key [] d = tt
  remove_if-Distinct key (h ∷ hs) d = ground (
    arith,
    remove_if-Distinct key hs d.1,
    some_of-remove_if_other (at_address crt key) (at_address crt h.address) hs d.0,
  )

  -- From hosts of distinct addresses, a removed address, if it is not empty, is not found again,
  -- the addresses stay distinct, and the file is marked for saving exactly if something went.
  pub remove_remote_host_lem :
      (address : Text) (hs : List RemoteHost)
      → is_empty address ≡ false
      → Distinct hs
      → (some_of (at_address crt address) (remove_remote_host crt address hs).0 ≡ false)
        × Distinct (remove_remote_host crt address hs).0
        × ((remove_remote_host crt address hs).1 ≡ some_of (at_address crt address) hs)
  unfolding remove_remote_host
  remove_remote_host_lem address hs a d =
      rw a (elim (Bool-cases (some_of (at_address crt address) hs)) [
        | inl found ↦
            rw found
              (some_of-remove_if (at_address crt address) hs, remove_if-Distinct address hs d, refl)
        | inr missing ↦ rw missing (missing, d, refl)
      ])
