-- ===== src/Vm/Texts/Guids.antt =====
-- The identifiers within an instance's identifier are found, each whole and in order.
use hyprv.Prelude.{
  ℕ, zero, suc, ◌+◌, ◌≤◌, ◌<◌, ◌≡◌, ◌≢◌, refl, sym, ap, ◌∙◌, true, false, ◌&&◌, List, [], ◌∷◌, ◌++◌,
  leb, length, length-append, length-take, take, drop, take_prefix, take-drop, arith, All,
}
use mathlib.Core.List.{append_assoc}
use mathlib.Core.Path.{ap₂}
use hyprv.Prelude.Text.{Text}
use hyprv.Vm.Texts.{
  hyphen_at, guid_here, find_first_guid_in_instance_id, guids_from, find_all_guids_in_instance_id,
}

abbrev pub NoHyphen : Text → Type 0
NoHyphen s = All (λ x. x ≢ 45) s

-- The shape of an identifier: four hyphens, none before the first.
pub record IsGuid (g : Text) : Type 0 where
  pub long : length g ≡ 36
  pub head : NoHyphen (take 8 g)
  pub first : hyphen_at 8 g ≡ true
  pub second : hyphen_at 13 g ≡ true
  pub third : hyphen_at 18 g ≡ true
  pub fourth : hyphen_at 23 g ≡ true

hyphen_at-append : (k : ℕ) (p y : Text) → k < length p → hyphen_at k (p ++ y) ≡ hyphen_at k p
hyphen_at-append k [] y h = absurd (omega arith)
hyphen_at-append zero (c ∷ p) y h = refl
hyphen_at-append (suc k) (c ∷ p) y h = hyphen_at-append k p y (omega arith)

hyphen_at-none : (k : ℕ) (p : Text) → NoHyphen p → hyphen_at k p ≡ false
hyphen_at-none k [] h = refl
hyphen_at-none zero (c ∷ p) h = ground (arith, h.0)
hyphen_at-none (suc k) (c ∷ p) h = hyphen_at-none k p h.1

NoHyphen-append : (p q : Text) → NoHyphen p → NoHyphen q → NoHyphen (p ++ q)
NoHyphen-append [] q h k = k
NoHyphen-append (c ∷ p) q h k = (h.0, NoHyphen-append p q h.1 k)

guid_not_here : (s : Text) → hyphen_at 8 s ≡ false → guid_here s ≡ false
unfolding guid_here
guid_not_here s h = ground arith

-- Before an identifier there is none: the ninth character is no hyphen.
none_before :
    (p g rest : Text) → NoHyphen p → 0 < length p → IsGuid g → guid_here (p ++ (g ++ rest)) ≡ false
none_before p g rest h pos is =
    let start = p ++ take 8 g in
    let split : p ++ (g ++ rest) ≡ start ++ (drop 8 g ++ rest) = regrouped p g rest in
    let long : length start ≡ length p + 8 =
      length-append p (take 8 g)
      ∙ ap (λ k. length p + k) (length-take 8 g (omega (arith, is.long))) in
    guid_not_here (p ++ (g ++ rest)) (
      ap (hyphen_at 8) split
      ∙ hyphen_at-append 8 start (drop 8 g ++ rest) (omega arith)
      ∙ hyphen_at-none 8 start (NoHyphen-append p (take 8 g) h is.head))
  where
    regrouped : (p g rest : Text) → p ++ (g ++ rest) ≡ (p ++ take 8 g) ++ (drop 8 g ++ rest)
    regrouped p g rest = ap (λ x. p ++ (x ++ rest)) (sym (take-drop 8 g)) ∙ (simp append_assoc)

guid_is_here : (g rest : Text) → IsGuid g → guid_here (g ++ rest) ≡ true
unfolding guid_here
guid_is_here g rest is =
    rw
      (
        hyphen_at-append 8 g rest (omega (arith, is.long)),
        hyphen_at-append 13 g rest (omega (arith, is.long)),
        hyphen_at-append 18 g rest (omega (arith, is.long)),
        hyphen_at-append 23 g rest (omega (arith, is.long)),
        is.first,
        is.second,
        is.third,
        is.fourth,
      )
      (long_enough (length (g ++ rest)) (omega (arith, length-append g rest, is.long)))
  where
    long_enough : (n : ℕ) → 36 ≤ n → (leb 36 n && true && true && true && true) ≡ true
    long_enough n h = ground arith

guids_from-skip :
    (k : ℕ) (p rest : Text) → length p ≡ k → guids_from k (p ++ rest) ≡ guids_from 0 rest
unfolding guids_from
guids_from-skip zero [] rest h = refl
guids_from-skip zero (c ∷ p) rest h = absurd (omega arith)
guids_from-skip (suc k) [] rest h = absurd (omega arith)
guids_from-skip (suc k) (c ∷ p) rest h = guids_from-skip k p rest (omega arith)

guids_from-found :
    (c : ℕ) (s : Text)
    → guid_here (c ∷ s) ≡ true
    → guids_from 0 (c ∷ s) ≡ take 36 (c ∷ s) ∷ guids_from 35 s
unfolding guids_from
guids_from-found c s h = rw (h, guids_from) refl

guids_from-missed :
    (c : ℕ) (s : Text) → guid_here (c ∷ s) ≡ false → guids_from 0 (c ∷ s) ≡ guids_from 0 s
unfolding guids_from
guids_from-missed c s h = rw (h, guids_from) refl

guids_from-here : (g rest : Text) → IsGuid g → guids_from 0 (g ++ rest) ≡ g ∷ guids_from 0 rest
guids_from-here [] rest is = absurd (omega (arith, is.long))
guids_from-here (c ∷ g) rest is =
    guids_from-found c (g ++ rest) (guid_is_here (c ∷ g) rest is)
    ∙ ap₂ ◌∷◌ (take_prefix (c ∷ g) rest is.long refl)
        (guids_from-skip 35 g rest (omega (arith, is.long)))

guids_from-segment :
    (p g rest : Text)
    → NoHyphen p
    → IsGuid g
    → guids_from 0 (p ++ (g ++ rest)) ≡ g ∷ guids_from 0 rest
guids_from-segment [] g rest h is = guids_from-here g rest is
guids_from-segment (c ∷ p) g rest h is =
    guids_from-missed c (p ++ (g ++ rest)) (none_before (c ∷ p) g rest h (omega arith) is)
    ∙ guids_from-segment p g rest h.1 is

guids_from-none : (s : Text) → NoHyphen s → guids_from 0 s ≡ []
unfolding guids_from
guids_from-none [] h = refl
guids_from-none (c ∷ s) h =
    guids_from-missed c s (guid_not_here (c ∷ s) (hyphen_at-none 8 (c ∷ s) h))
    ∙ guids_from-none s h.1

first-segment :
    (p g rest : Text)
    → NoHyphen p
    → IsGuid g
    → find_first_guid_in_instance_id (p ++ (g ++ rest)) ≡ g
unfolding find_first_guid_in_instance_id
first-segment [] [] rest h is = absurd (omega (arith, is.long))
first-segment [] (c ∷ g) rest h is =
    rw (guid_is_here (c ∷ g) rest is) (take_prefix (c ∷ g) rest is.long refl)
first-segment (c ∷ p) g rest h is =
    rw (none_before (c ∷ p) g rest h (omega arith) is) (first-segment p g rest h.1 is)

-- An identifier of an instance: identifiers of objects, each behind a text of its own, and a rest.
abbrev pub joined : List (Text × Text) → Text → Text
joined [] tail = tail
joined ((p, g) ∷ parts) tail = p ++ (g ++ joined parts tail)

abbrev pub guids_in : List (Text × Text) → List Text
guids_in [] = []
guids_in ((p, g) ∷ parts) = g ∷ guids_in parts

abbrev pub IsPart : Text × Text → Type 0
IsPart (p, g) = NoHyphen p × IsGuid g

-- Where the texts between the identifiers and behind the last have no hyphen, all identifiers are
-- found, whole and in order; "Microsoft:GuestNetwork\", a machine's, "\" and an adapter's give the two.
pub guids_from-joined :
    (parts : List (Text × Text)) (tail : Text)
    → All IsPart parts
    → NoHyphen tail
    → find_all_guids_in_instance_id (joined parts tail) ≡ guids_in parts
guids_from-joined [] tail h k = guids_from-none tail k
guids_from-joined ((p, g) ∷ parts) tail h k =
    guids_from-segment p g (joined parts tail) h.0.0 h.0.1
    ∙ ap (◌∷◌ g) (guids_from-joined parts tail h.1 k)

-- The first of them is what is found as the machine's.
pub find_first_guid-joined :
    (p g : Text) (parts : List (Text × Text)) (tail : Text)
    → IsPart (p, g)
    → find_first_guid_in_instance_id (joined ((p, g) ∷ parts) tail) ≡ g
find_first_guid-joined p g parts tail h = first-segment p g (joined parts tail) h.0 h.1
