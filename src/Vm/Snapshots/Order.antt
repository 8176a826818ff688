-- ===== src/Vm/Snapshots/Order.antt =====
-- Which snapshots the list holds, in what order, at what depth.
use hyprv.Prelude.{
  ℕ, suc, ◌+◌, ◌≤◌, ◌≡◌, refl, ap, subst, ◌∙◌, Bool, true, false, Option, none, some, List, [], ◌∷◌,
  ◌++◌, map, length, arith, All,
}
use hyprv.Vm.Snapshots.{
  Snapshot, get_elem?, is_root, is_child_of, indices_of, deeper, parents, parent_index, roots,
  children, tree_walk, earlier, created, by_creation,
}
use hyprv.Vm.Snapshots.Counts.{one_if, count, fsts, fsts-deeper, holds_at, count-indices_of}
use hyprv.Vm.Snapshots.Walk.{Forest, walk-Forest, IsOnce, expected_of, walk-total}

length-map {ℓ κ} :
    {A : Type ℓ} {B : Type κ} (f : A → B) (xs : List A) → length (map f xs) ≡ length xs
length-map f [] = refl
length-map f (x ∷ xs) = ap suc (length-map f xs)

-- An index from which the parents lead to a root, in so many steps.
pub data Descends (ps : List (Option ℕ)) : ℕ → ℕ → Type 0 where
  root : {x : ℕ} → get_elem? ps x ≡ some none → Descends ps x 0
  child : {x p d : ℕ} → get_elem? ps x ≡ some (some p) → Descends ps p d → Descends ps x (suc d)

-- An entry of the list: an index with its depth.
abbrev pub DescendsTo : List (Option ℕ) → ℕ × ℕ → Type 0
DescendsTo ps (i, d) = Descends ps i d

root_at : (ps : List (Option ℕ)) (x : ℕ) → 1 ≤ holds_at is_root ps x → get_elem? ps x ≡ some none
root_at ps x h = of_entry (get_elem? ps x) h
  where
    of_entry :
        (q : Option (Option ℕ))
        → 1 ≤ elim q [ none ↦ 0 | some p ↦ one_if (is_root p) ]
        → q ≡ some none
    of_entry none h = absurd (omega arith)
    of_entry (some none) h = refl
    of_entry (some (some p)) h = absurd (omega arith)

child_at :
    (ps : List (Option ℕ)) (i x : ℕ)
    → 1 ≤ holds_at (is_child_of i) ps x
    → get_elem? ps x ≡ some (some i)
child_at ps i x h = of_entry (get_elem? ps x) h
  where
    of_entry :
        (q : Option (Option ℕ))
        → 1 ≤ elim q [ none ↦ 0 | some p ↦ one_if (is_child_of i p) ]
        → q ≡ some (some i)
    of_entry none h = absurd (omega arith)
    of_entry (some none) h = absurd (omega arith)
    of_entry (some (some p)) h = ground arith

-- What holds of all that a list counts holds of the list.
All-counted : {P : ℕ → Type 0} (xs : List ℕ) → ((x : ℕ) → 1 ≤ count x xs → P x) → All P xs
All-counted [] f = tt
All-counted (x ∷ xs) f = (f x (ground arith), All-counted xs (λ y h. f y (omega arith)))

All-append {ℓ κ} :
    {A : Type ℓ} (P : A → Type κ) (xs ys : List A) → All P xs → All P ys → All P (xs ++ ys)
All-append P [] ys p q = q
All-append P (x ∷ xs) ys p q = (p.0, All-append P xs ys p.1 q)

module _ (ps : List (Option ℕ)) (kids : ℕ → List ℕ)
    (counted : (x i : ℕ) → count x (kids i) ≡ holds_at (is_child_of i) ps x) where
  kids_descend : (i d : ℕ) → Descends ps i d → All (λ x. Descends ps x (suc d)) (kids i)
  kids_descend i d h =
      All-counted (kids i) (λ x c. Descends.child (child_at ps i x (omega (arith, counted x i))) h)

  forest-Descends :
      {d : ℕ} {is : List ℕ} {out : List (ℕ × ℕ)}
      → Forest kids d is out
      → All (λ x. Descends ps x d) is
      → All (DescendsTo ps) out
  forest-Descends Forest.no_trees h = tt
  forest-Descends (Forest.tree {d} {i} {siblings} {below} {beside} low high) h = (
    h.0,
    All-append (DescendsTo ps) below beside (forest-Descends low (kids_descend i d h.0))
        (forest-Descends high h.1),
  )

  Descends-count :
      (out : List ℕ) {x d : ℕ} → IsOnce ps kids counted out [] → Descends ps x d → count x out ≡ 1
  Descends-count out {x} o (Descends.root e) =
      omega (arith, o.expected x ∙ ap (λ q. expected_of q out) e)
  Descends-count out {x} o (Descends.child {p = p} e h) =
      omega (arith, o.expected x ∙ ap (λ q. expected_of q out) e, Descends-count out o h)

module _ (sort : (ℕ → ℕ → Bool) → List ℕ → List ℕ)
    (keeps : (before : ℕ → ℕ → Bool) (xs : List ℕ) (x : ℕ) → count x (sort before xs) ≡ count x xs)
    (flat : List Snapshot) where
  children_counted :
      (x i : ℕ) → count x (children sort flat i) ≡ holds_at (is_child_of i) (parents sort flat) x
  unfolding children
  children_counted x i =
      keeps (by_creation flat) (indices_of (is_child_of i) 0 (parents sort flat)) x
      ∙ count-indices_of (is_child_of i) x (parents sort flat)

  roots_counted : (x : ℕ) → count x (roots sort flat) ≡ holds_at is_root (parents sort flat) x
  unfolding roots
  roots_counted x =
      keeps (by_creation flat) (indices_of is_root 0 (parents sort flat)) x
      ∙ count-indices_of is_root x (parents sort flat)

  root_count :
      (q : Option (Option ℕ)) → elim q [ none ↦ 0 | some p ↦ one_if (is_root p) ] ≡ expected_of q []
  root_count none = refl
  root_count (some none) = refl
  root_count (some (some p)) = refl

  root_count-le : (q : Option (Option ℕ)) → expected_of q [] ≤ 1
  root_count-le none = omega arith
  root_count-le (some none) = omega arith
  root_count-le (some (some p)) = omega arith

  start-IsOnce :
      IsOnce
        (parents sort flat)
        (children sort flat)
        children_counted
        []
        (fsts (deeper 0 (roots sort flat)))
  start-IsOnce = record {
    expected = counts;
    once = λ x. omega (arith, counts x, root_count-le (get_elem? (parents sort flat) x));
  }
    where
      counts :
          (x : ℕ)
          → count x [] + count x (fsts (deeper 0 (roots sort flat)))
            ≡ expected_of (get_elem? (parents sort flat) x) []
      counts x = omega (
        arith,
        ap (count x) (fsts-deeper 0 (roots sort flat)),
        roots_counted x,
        root_count (get_elem? (parents sort flat) x),
      )

  walked :
      (out : List (ℕ × ℕ)) × (tree_walk sort flat ≡ some out)
      × IsOnce (parents sort flat) (children sort flat) children_counted (fsts out) []
  unfolding tree_walk
  walked =
      walk-total (parents sort flat) (children sort flat) children_counted (suc (length flat))
        (deeper 0 (roots sort flat)) [] start-IsOnce
        (omega (arith, length-map (parent_index flat) flat))

  walked_forest :
      (out : List (ℕ × ℕ))
      → tree_walk sort flat ≡ some out
      → Forest (children sort flat) 0 (roots sort flat) out
  unfolding tree_walk
  walked_forest out e =
      walk-Forest (children sort flat) (suc (length flat)) 0 (roots sort flat) out e

  -- If the sort neither drops nor doubles an index: a snapshot from which the parents lead to a root is
  -- listed exactly once, and every snapshot that is listed has as its depth the number of parents up to
  -- its root; so snapshots whose parents run in a cycle are not listed.
  pub tree_walk-once :
      (out : List (ℕ × ℕ))
      → tree_walk sort flat ≡ some out
      → ((x d : ℕ) → Descends (parents sort flat) x d → count x (fsts out) ≡ 1)
        × All (DescendsTo (parents sort flat)) out
  tree_walk-once out e = (
    λ x d h.
        Descends-count (parents sort flat) (children sort flat) children_counted (fsts out)
          (once_of walked) h,
    forest-Descends (parents sort flat) (children sort flat) children_counted (walked_forest out e)
        (All-counted (roots sort flat)
          (λ x c. Descends.root (root_at (parents sort flat) x (omega (arith, roots_counted x))))),
  )
    where
      once_of :
          (o : List (ℕ × ℕ)) × (tree_walk sort flat ≡ some o)
            × IsOnce (parents sort flat) (children sort flat) children_counted (fsts o) []
          → IsOnce (parents sort flat) (children sort flat) children_counted (fsts out) []
      once_of (o, e', once) =
          let same : o ≡ out = cc in
          subst
            (λ (r : List (ℕ × ℕ)).
              IsOnce (parents sort flat) (children sort flat) children_counted (fsts r) [])
            same once

-- `byCreation` is an order as std::sort demands it: nothing is before itself, and both being before
-- and being neither before nor behind pass from one pair of neighbours to the next.
pub by_creation-strict_weak :
    (flat : List Snapshot) (a b c : ℕ)
    → (by_creation flat a a ≡ false)
      × (by_creation flat a b ≡ true → by_creation flat b c ≡ true → by_creation flat a c ≡ true)
      × (by_creation flat a b ≡ false → by_creation flat b c ≡ false → by_creation flat a c ≡ false)
unfolding by_creation
by_creation-strict_weak flat a b c = of_times (created flat a) (created flat b) (created flat c)
  where
    of_times :
        (x y z : Option ℕ)
        → (earlier x x ≡ false)
          × (earlier x y ≡ true → earlier y z ≡ true → earlier x z ≡ true)
          × (earlier x y ≡ false → earlier y z ≡ false → earlier x z ≡ false)
    of_times none y none = (refl, λ p q. cc, λ p q. refl)
    of_times none y (some c) = (refl, λ p q. cc, λ p q. refl)
    of_times (some a) none z = (ground arith, λ p q. cc, λ p q. cc)
    of_times (some a) (some b) none = (ground arith, λ p q. refl, λ p q. cc)
    of_times (some a) (some b) (some c) = (ground arith, λ p q. ground arith, λ p q. ground arith)
