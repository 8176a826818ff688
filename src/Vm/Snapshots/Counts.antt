-- ===== src/Vm/Snapshots/Counts.antt =====
-- How often an index is in a list of indices.
use hyprv.Prelude.{
  ℕ, zero, suc, ◌+◌, ◌≤◌, ◌<◌, ◌≡◌, refl, ap, ◌∙◌, Bool, Option, none, some, List, [], ◌∷◌, ◌++◌,
  ◌==◌, if◌then◌else◌, length, ltb, arith,
}
use native.Mathlib.Decide.{dec_lt}
use hyprv.Vm.Snapshots.{get_elem?, indices_of, deeper}

abbrev pub one_if : Bool → ℕ
one_if b = if b then 1 else 0

abbrev pub count : ℕ → List ℕ → ℕ
count x [] = 0
count x (y ∷ ys) = one_if (y == x) + count x ys

abbrev pub fsts : List (ℕ × ℕ) → List ℕ
fsts [] = []
fsts ((i, d) ∷ rest) = i ∷ fsts rest

pub count-append : (x : ℕ) (ys zs : List ℕ) → count x (ys ++ zs) ≡ count x ys + count x zs
count-append x [] zs = omega arith
count-append x (y ∷ ys) zs = ground (arith, count-append x ys zs)

pub fsts-append : (is bs : List (ℕ × ℕ)) → fsts (is ++ bs) ≡ fsts is ++ fsts bs
fsts-append [] bs = refl
fsts-append ((i, d) ∷ is) bs = ap (◌∷◌ i) (fsts-append is bs)

pub fsts-deeper : (d : ℕ) (is : List ℕ) → fsts (deeper d is) ≡ is
fsts-deeper d [] = refl
fsts-deeper d (i ∷ is) = ap (◌∷◌ i) (fsts-deeper d is)

-- Whether the test holds at an index.
abbrev pub holds_at : (Option ℕ → Bool) → List (Option ℕ) → ℕ → ℕ
holds_at test ps x = elim (get_elem? ps x) [ none ↦ 0 | some p ↦ one_if (test p) ]

count_below :
    (test : Option ℕ → Bool) (i x : ℕ) (ps : List (Option ℕ))
    → x < i
    → count x (indices_of test i ps) ≡ 0
unfolding indices_of
count_below test i x [] h = refl
count_below test i x (p ∷ ps) h = ground (arith, count_below test (suc i) x ps)

count_from :
    (test : Option ℕ → Bool) (i x : ℕ) (ps : List (Option ℕ))
    → count (i + x) (indices_of test i ps) ≡ holds_at test ps x
unfolding indices_of
count_from test i x [] = refl
count_from test i zero (p ∷ ps) = ground (arith, count_below test (suc i) (i + 0) ps)
count_from test i (suc x) (p ∷ ps) =
    let e : i + suc x ≡ suc i + x = omega arith in
    rw e (ground (arith, count_from test (suc i) x ps))

pub count-indices_of :
    (test : Option ℕ → Bool) (x : ℕ) (ps : List (Option ℕ))
    → count x (indices_of test 0 ps) ≡ holds_at test ps x
count-indices_of test x ps =
    ap (λ k. count k (indices_of test 0 ps)) (omega arith) ∙ count_from test 0 x ps

-- The counts of all indices below `n`.
total : ℕ → List ℕ → ℕ
total zero ys = 0
total (suc n) ys = total n ys + count n ys

total-nil : (n : ℕ) → total n [] ≡ 0
unfolding total
total-nil zero = refl
total-nil (suc n) = omega (arith, total-nil n)

total-cons : (n y : ℕ) (ys : List ℕ) → total n (y ∷ ys) ≡ one_if (ltb y n) + total n ys
unfolding total
total-cons zero y ys = ground arith
total-cons (suc n) y ys = ground (arith, total-cons n y ys)

total-le : (n : ℕ) (ys : List ℕ) → ((x : ℕ) → count x ys ≤ 1) → total n ys ≤ n
unfolding total
total-le zero ys h = omega arith
total-le (suc n) ys h = omega (arith, total-le n ys h, h n)

total-length : (n : ℕ) (ys : List ℕ) → ((x : ℕ) → n ≤ x → count x ys ≡ 0) → total n ys ≡ length ys
total-length n [] h = total-nil n
total-length n (y ∷ ys) h = elim (dec_lt y n) [
  | yes lt ↦ ground (arith, total-cons n y ys, total-length n ys (λ x le. omega (arith, h x le)))
  | no ge ↦ absurd (ground (arith, h y (omega arith)))
]

-- Indices below `n` of which none is listed twice are at most `n`.
pub length-le :
    (n : ℕ) (ys : List ℕ)
    → ((x : ℕ) → count x ys ≤ 1)
    → ((x : ℕ) → n ≤ x → count x ys ≡ 0)
    → length ys ≤ n
length-le n ys h k = omega (arith, total-le n ys h, total-length n ys k)
