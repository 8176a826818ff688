-- ===== src/Vm/Snapshots/Walk.antt =====
-- The loop over the stack lists a forest in preorder, each index once.
use hyprv.Prelude.{
  ℕ, zero, suc, ◌+◌, ◌≤◌, ◌<◌, ◌≡◌, refl, ap, subst, ◌∙◌, Option, none, some, List, [], ◌∷◌, ◌++◌,
  length, length-append, arith,
}
use mathlib.Core.List.{append_assoc, append-nil}
use hyprv.Vm.Snapshots.{get_elem?, is_child_of, deeper, walk}
use hyprv.Vm.Snapshots.Counts.{
  one_if, count, fsts, count-append, fsts-append, fsts-deeper, holds_at, length-le,
}

-- A row of siblings at a depth, each followed by the rows below it.
pub data Forest (children : ℕ → List ℕ) : ℕ → List ℕ → List (ℕ × ℕ) → Type 0 where
  no_trees : {d : ℕ} → Forest children d [] []
  tree :
      {d i : ℕ} {siblings : List ℕ} {below beside : List (ℕ × ℕ)}
      → Forest children (suc d) (children i) below
      → Forest children d siblings beside
      → Forest children d (i ∷ siblings) ((i, d) ∷ (below ++ beside))

regroup {ℓ} :
    {A : Type ℓ} (out : List A) (x : A) (below beside : List A)
    → ((out ++ x ∷ []) ++ below) ++ beside ≡ out ++ (x ∷ (below ++ beside))
regroup out x below beside = simp append_assoc

walk_forest :
    (children : ℕ → List ℕ) (bound fuel d : ℕ) (is : List ℕ) (rest out r : List (ℕ × ℕ))
    → fuel ≤ bound
    → walk children fuel (deeper d is ++ rest) out ≡ some r
    → (left : ℕ) × (row : List (ℕ × ℕ)) × (left ≤ fuel)
      × Forest children d is row
      × (walk children left rest (out ++ row) ≡ some r)
unfolding walk
walk_forest children bound fuel d [] rest out r le h =
    (fuel, [], omega arith, Forest.no_trees, rw append-nil h)
walk_forest children bound zero d (i ∷ is) rest out r le h = absurd cc
walk_forest children zero (suc fuel) d (i ∷ is) rest out r le h = absurd (omega arith)
walk_forest children (suc bound) (suc fuel) d (i ∷ is) rest out r le h =
    let (left, below, shorter, low, on) =
      walk_forest children bound fuel (suc d) (children i) (deeper d is ++ rest)
        (out ++ (i, d) ∷ []) r (omega arith) h in
    let (left', beside, shorter', high, end) =
      walk_forest children bound left d is rest ((out ++ (i, d) ∷ []) ++ below) r (omega arith)
        on in
    (
      left',
      (i, d) ∷ (below ++ beside),
      omega arith,
      Forest.tree low high,
      subst (λ o. walk children left' rest o ≡ some r) (regroup out (i, d) below beside) end,
    )

-- What the loop returns on a row is the forest of the row.
pub walk-Forest :
    (children : ℕ → List ℕ) (fuel d : ℕ) (is : List ℕ) (r : List (ℕ × ℕ))
    → walk children fuel (deeper d is) [] ≡ some r
    → Forest children d is r
unfolding walk
walk-Forest children fuel d is r h =
    let (left, row, shorter, forest, end) =
      walk_forest children fuel fuel d is [] [] r (omega arith) (rw append-nil h) in
    at_end left row forest end
  where
    at_end :
        (left : ℕ) (row : List (ℕ × ℕ))
        → Forest children d is row
        → walk children left [] row ≡ some r
        → Forest children d is r
    at_end zero row f e = absurd cc
    at_end (suc left) row f e = let same : row ≡ r = cc in subst (Forest children d is) same f

-- How often an index is listed, by what is listed before.
abbrev pub expected_of : Option (Option ℕ) → List ℕ → ℕ
expected_of none out = 0
expected_of (some none) out = 1
expected_of (some (some p)) out = count p out

abbrev pub child_count : ℕ → Option (Option ℕ) → ℕ
child_count i none = 0
child_count i (some p) = one_if (is_child_of i p)

expected-step :
    (i : ℕ) (q : Option (Option ℕ)) (out : List ℕ)
    → expected_of q (out ++ i ∷ []) ≡ expected_of q out + child_count i q
expected-step i none out = refl
expected-step i (some none) out = refl
expected-step i (some (some p)) out = ground (arith, count-append p out (i ∷ []))

get_elem?-past : (ps : List (Option ℕ)) (x : ℕ) → length ps ≤ x → get_elem? ps x ≡ none
get_elem?-past [] x h = refl
get_elem?-past (p ∷ ps) zero h = absurd (omega arith)
get_elem?-past (p ∷ ps) (suc x) h = get_elem?-past ps x (omega arith)

module _ (ps : List (Option ℕ)) (children : ℕ → List ℕ)
    (counted : (x i : ℕ) → count x (children i) ≡ holds_at (is_child_of i) ps x) where
  -- An index is listed or on the stack exactly if it is a root or its parent is listed, and once.
  pub record IsOnce (out stack : List ℕ) : Type 0 where
    pub expected : (x : ℕ) → count x out + count x stack ≡ expected_of (get_elem? ps x) out
    pub once : (x : ℕ) → count x out + count x stack ≤ 1

  step_expected :
      (out stack : List ℕ) (i x : ℕ)
      → IsOnce out (i ∷ stack)
      → count x (out ++ i ∷ []) + count x (children i ++ stack)
        ≡ expected_of (get_elem? ps x) (out ++ i ∷ [])
  step_expected out stack i x o = omega (
    arith,
    o.expected x,
    expected-step i (get_elem? ps x) out,
    count-append x out (i ∷ []),
    count-append x (children i) stack,
    counted x i,
    holds_of (get_elem? ps x),
  )
    where
      holds_of :
          (q : Option (Option ℕ))
          → child_count i q ≡ elim q [ none ↦ 0 | some p ↦ one_if (is_child_of i p) ]
      holds_of none = refl
      holds_of (some p) = refl

  expected-le :
      (q : Option (Option ℕ)) (out stack : List ℕ) (i : ℕ)
      → IsOnce out (i ∷ stack)
      → expected_of q (out ++ i ∷ []) ≤ 1
  expected-le none out stack i o = omega arith
  expected-le (some none) out stack i o = omega arith
  expected-le (some (some p)) out stack i o = omega (arith, count-append p out (i ∷ []), o.once p)

  step-IsOnce :
      (out stack : List ℕ) (i : ℕ)
      → IsOnce out (i ∷ stack)
      → IsOnce (out ++ i ∷ []) (children i ++ stack)
  step-IsOnce out stack i o = record {
    expected = λ x. step_expected out stack i x o;
    once = λ x.
        omega (arith, step_expected out stack i x o, expected-le (get_elem? ps x) out stack i o);
  }

  listed-le : (out stack : List ℕ) → IsOnce out stack → length out ≤ length ps
  listed-le out stack o =
      length-le (length ps) out (λ x. omega (arith, o.once x))
        (λ x h. omega (arith, o.expected x ∙ ap (λ q. expected_of q out) (get_elem?-past ps x h)))

  pushed :
      (out stack : List (ℕ × ℕ)) (i d : ℕ)
      → IsOnce (fsts out) (i ∷ fsts stack)
      → IsOnce (fsts (out ++ (i, d) ∷ [])) (fsts (deeper (suc d) (children i) ++ stack))
  pushed out stack i d o =
      rw
        (
          fsts-append out ((i, d) ∷ []),
          fsts-append (deeper (suc d) (children i)) stack,
          fsts-deeper (suc d) (children i),
        )
        (step-IsOnce (fsts out) (fsts stack) i o)

  -- The fuel of one more than the indices is enough.
  pub walk-total :
      (fuel : ℕ) (stack out : List (ℕ × ℕ))
      → IsOnce (fsts out) (fsts stack)
      → length ps < length (fsts out) + fuel
      → (r : List (ℕ × ℕ)) × (walk children fuel stack out ≡ some r) × IsOnce (fsts r) []
  unfolding walk
  walk-total zero stack out o h = absurd (omega (arith, listed-le (fsts out) (fsts stack) o))
  walk-total (suc fuel) [] out o h = (out, refl, o)
  walk-total (suc fuel) ((i, d) ∷ stack) out o h =
      walk-total fuel (deeper (suc d) (children i) ++ stack) (out ++ (i, d) ∷ [])
        (pushed out stack i d o)
        (omega
          (arith, ap length (fsts-append out ((i, d) ∷ [])), length-append (fsts out) (i ∷ [])))
