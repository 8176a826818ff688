-- ===== src/Examples.antt =====
-- Concrete runs of the theorems: what stands for the operating system and the C runtime here, and the
-- modules of the runs.
mod Pipes
mod Sessions
mod Lists
mod Files
mod Trees
mod Texts
mod Tabs
mod Machines
mod Adapters
mod Polls
mod Remotes
use hyprv.Prelude.{
  ℕ, zero, suc, ◌<◌, ◌≤◌, ◌≡◌, refl, sym, ap, ◌∙◌, Bool, true, false, Option, none, some, List, [],
  ◌∷◌, ◌++◌, ◌+◌, ◌&&◌, map, arith, ltb, leb, if◌then◌else◌, length, take, drop,
}
use mathlib.Core.Path.{ap₂}
use hyprv.Prelude.Text.{Text, text_eq, text_eq_refl, eq_of_text_eq}
use hyprv.Ipc.Pipe.{PipeReader}
use hyprv.Settings.Crt.{Crt}

abbrev min_three : ℕ → ℕ
min_three n = if ltb n 3 then n else 3

take-drop : (n : ℕ) (p : List ℕ) → p ≡ take n p ++ drop n p
take-drop zero p = refl
take-drop (suc n) [] = refl
take-drop (suc n) (b ∷ p) = ap (◌∷◌ b) (take-drop n p)

length-take_le : (n : ℕ) (p : List ℕ) → length (take n p) ≤ n
length-take_le zero p = omega arith
length-take_le (suc n) [] = omega arith
length-take_le (suc n) (b ∷ p) = omega (arith, length-take_le n p)

pub take_some : (n : ℕ) (p : List ℕ) → 0 < n → 0 < length p → 0 < length (take n p)
take_some zero p h k = absurd (omega arith)
take_some (suc n) [] h k = absurd (omega arith)
take_some (suc n) (b ∷ p) h k = omega arith

pub min_three_bounds : (n : ℕ) → (min_three n ≤ n) × (0 < n → 0 < min_three n)
min_three_bounds n = (ground arith, λ h. ground arith)

pub read_splits_at :
    (p : List ℕ) (n : ℕ) (bs p' : List ℕ)
    → ◌≡◌ {A = Option (List ℕ × List ℕ)}
        (some (take (min_three n) p, drop (min_three n) p))
        (some (bs, p'))
    → (p ≡ bs ++ p') × (length bs ≤ n)
read_splits_at p n bs p' e =
    let front : take (min_three n) p ≡ bs = cc in
    let back : drop (min_three n) p ≡ p' = cc in
    (
      take-drop (min_three n) p ∙ ap₂ (λ x y. x ++ y) front back,
      omega (arith, (min_three_bounds n).0, length-take_le (min_three n) p, ap length front),
    )

-- A pipe that hands over at most three bytes at a time.
abbrev pub bursts : PipeReader
bursts = record {
  Pipe = List ℕ;
  pending = λ p. p;
  read = λ p n. some (take (min_three n) p, drop (min_three n) p);
  read_splits = λ p n bs p' e. read_splits_at p n bs p' e;
  read_progress = λ p n h k. (
    take (min_three n) p,
    drop (min_three n) p,
    refl,
    take_some (min_three n) p ((min_three_bounds n).1 h) k,
  );
}

-- Writes that take everything.
abbrev pub takes_all : List ℕ → List ℕ → Option ℕ
takes_all sent buf = some (length buf)

abbrev fold_case : ℕ → ℕ
fold_case c = if leb 65 c && ltb c 91 then c + 32 else c

abbrev same_text : Text → Text → Bool
same_text a b = text_eq (map fold_case a) (map fold_case b)

pub text_eq_sym : (a b : Text) → text_eq a b ≡ text_eq b a
text_eq_sym a b = ground (arith, eq_of_text_eq a b, eq_of_text_eq b a, text_eq_refl a)

-- Comparison up to the case of ASCII letters.
abbrev pub ascii : Crt
ascii = record {
  towlower = fold_case;
  wcsicmp_eq = same_text;
  wcsicmp_refl = λ a. text_eq_refl (map fold_case a);
  wcsicmp_sym = λ a b. text_eq_sym (map fold_case a) (map fold_case b);
  wcsicmp_trans = λ a b c h k.
      ap (λ t. text_eq t (map fold_case c)) (eq_of_text_eq (map fold_case a) (map fold_case b) h)
      ∙ k;
}
