-- ===== src/Prelude/Lists.antt =====
-- Lists measured by native numbers, under the library's names, and the monad of `Option`.
use Prim.Native.Nat.{ℕ, zero, suc, ◌+◌, ◌-◌, ◌≤◌}
use mathlib.Core.Logic.{◌⊎◌}
use mathlib.Core.Path.{◌≡◌, refl, ap, ◌∙◌}
use mathlib.Core.List.{List, [], ◌∷◌, ◌++◌, append_assoc, append-nil}
use mathlib.Core.Option.{Option, none, some}
use mathlib.Core.Bool.{Bool, true, false}
use native.Mathlib.Omega.{arith}

infixl 5 ◌>>=◌ ◌>>◌
abbrev pub ◌>>=◌ {ℓ κ} : {A : Type ℓ} {B : Type κ} → Option A → (A → Option B) → Option B
none >>= f = none
some a >>= f = f a

abbrev pub ◌>>◌ {ℓ} : {B : Type ℓ} → Option (Unit {0}) → Option B → Option B
m >> k = m >>= λ _. k

-- An early `return false` on a failed test.
abbrev pub require : Bool → Option (Unit {0})
require true = some tt
require false = none

module _ {ℓ} {A : Type ℓ} where
  abbrev pub length : List A → ℕ
  length [] = 0
  length (x ∷ xs) = suc (length xs)

  abbrev pub take : ℕ → List A → List A
  take zero xs = []
  take (suc n) [] = []
  take (suc n) (x ∷ xs) = x ∷ take n xs

  abbrev pub drop : ℕ → List A → List A
  drop zero xs = xs
  drop (suc n) [] = []
  drop (suc n) (x ∷ xs) = drop n xs

  abbrev pub replicate : ℕ → A → List A
  replicate zero a = []
  replicate (suc n) a = a ∷ replicate n a

  abbrev pub is_empty : List A → Bool
  is_empty [] = true
  is_empty (x ∷ xs) = false

  pub length-append : (xs ys : List A) → length (xs ++ ys) ≡ length xs + length ys
  length-append [] ys = omega arith
  length-append (x ∷ xs) ys = omega (arith, length-append xs ys)

  pub take-append : (xs ys : List A) → take (length xs) (xs ++ ys) ≡ xs
  take-append [] ys = refl
  take-append (x ∷ xs) ys = ap (◌∷◌ x) (take-append xs ys)

  pub drop-append : (xs ys : List A) → drop (length xs) (xs ++ ys) ≡ ys
  drop-append [] ys = refl
  drop-append (x ∷ xs) ys = drop-append xs ys

  pub take-all : (xs : List A) → take (length xs) xs ≡ xs
  take-all [] = refl
  take-all (x ∷ xs) = ap (◌∷◌ x) (take-all xs)

  pub take-drop : (n : ℕ) (xs : List A) → take n xs ++ drop n xs ≡ xs
  take-drop zero xs = refl
  take-drop (suc n) [] = refl
  take-drop (suc n) (x ∷ xs) = ap (◌∷◌ x) (take-drop n xs)

  pub length-take : (n : ℕ) (xs : List A) → n ≤ length xs → length (take n xs) ≡ n
  length-take zero xs h = refl
  length-take (suc n) [] h = absurd (omega arith)
  length-take (suc n) (x ∷ xs) h = ap suc (length-take n xs (omega arith))

  pub length-take-le : (n : ℕ) (xs : List A) → length (take n xs) ≤ n
  length-take-le zero xs = omega arith
  length-take-le (suc n) [] = omega arith
  length-take-le (suc n) (x ∷ xs) = omega (arith, length-take-le n xs)

  -- The parts of a list at the end of a known prefix.
  pub take_prefix :
      {n : ℕ} {zs : List A} (xs ys : List A) → length xs ≡ n → zs ≡ xs ++ ys → take n zs ≡ xs
  take_prefix xs ys h e = rw (e, ← h) (take-append xs ys)

  pub drop_prefix :
      {n : ℕ} {zs : List A} (xs ys : List A) → length xs ≡ n → zs ≡ xs ++ ys → drop n zs ≡ ys
  drop_prefix xs ys h e = rw (e, ← h) (drop-append xs ys)

  pub take-append_le :
      (n : ℕ) (xs ys : List A) → length xs ≤ n → take n (xs ++ ys) ≡ xs ++ take (n - length xs) ys
  take-append_le n [] ys h = ap (λ k. take k ys) (omega arith)
  take-append_le zero (x ∷ xs) ys h = absurd (omega arith)
  take-append_le (suc n) (x ∷ xs) ys h =
      rw (take-append_le n xs ys (omega arith)) (ap (λ k. x ∷ xs ++ take k ys) (omega arith))

  pub drop-append_le :
      (n : ℕ) (xs ys : List A) → length xs ≤ n → drop n (xs ++ ys) ≡ drop (n - length xs) ys
  drop-append_le n [] ys h = ap (λ k. drop k ys) (omega arith)
  drop-append_le zero (x ∷ xs) ys h = absurd (omega arith)
  drop-append_le (suc n) (x ∷ xs) ys h =
      drop-append_le n xs ys (omega arith) ∙ ap (λ k. drop k ys) (omega arith)

abbrev pub OneOf : List ℕ → ℕ → Type 0
OneOf [] x = ⊥
OneOf (v ∷ vs) x = (x ≡ v) ⊎ OneOf vs x

abbrev pub All {ℓ κ} : {A : Type ℓ} → (A → Type κ) → List A → Type κ
All P [] = Unit
All P (x ∷ xs) = P x × All P xs

module _ {ℓ} {A : Type ℓ} where
  -- `std::remove_if` and `erase`: what the test is true of goes.
  abbrev pub remove_if : (A → Bool) → List A → List A
  remove_if test [] = []
  remove_if test (x ∷ xs) =
      let rest = remove_if test xs in elim (test x) [ true ↦ rest | false ↦ x ∷ rest ]

  -- Whether the test is true of some element.
  abbrev pub some_of : (A → Bool) → List A → Bool
  some_of test [] = false
  some_of test (x ∷ xs) = elim (test x) [ true ↦ true | false ↦ some_of test xs ]

  pub length-remove_if-le : (test : A → Bool) (xs : List A) → length (remove_if test xs) ≤ length xs
  length-remove_if-le test [] = omega arith
  length-remove_if-le test (x ∷ xs) = ground (arith, length-remove_if-le test xs)

  pub remove_if-none :
      (test : A → Bool) (xs : List A) → some_of test xs ≡ false → remove_if test xs ≡ xs
  remove_if-none test [] h = refl
  remove_if-none test (x ∷ xs) h = ground (arith, remove_if-none test xs)

  pub some_of-remove_if : (test : A → Bool) (xs : List A) → some_of test (remove_if test xs) ≡ false
  some_of-remove_if test [] = refl
  some_of-remove_if test (x ∷ xs) = ground (arith, some_of-remove_if test xs)

  -- Removing does not bring in an element that passes another test.
  pub some_of-remove_if_other :
      (test other : A → Bool) (xs : List A)
      → some_of other xs ≡ false
      → some_of other (remove_if test xs) ≡ false
  some_of-remove_if_other test other [] h = refl
  some_of-remove_if_other test other (x ∷ xs) h =
      ground (arith, some_of-remove_if_other test other xs)

  pub some_of-take :
      (test : A → Bool) (n : ℕ) (xs : List A)
      → some_of test xs ≡ false
      → some_of test (take n xs) ≡ false
  some_of-take test zero xs h = refl
  some_of-take test (suc n) [] h = refl
  some_of-take test (suc n) (x ∷ xs) h = ground (arith, some_of-take test n xs)

pub ruleset append_laws = (append_assoc, append-nil)

abbrev pub value_or {ℓ} : {A : Type ℓ} → A → Option A → A
value_or a none = a
value_or a (some b) = b
