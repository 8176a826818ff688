-- ===== src/Vm/Snapshots.antt =====
-- The snapshots of a machine as a tree, `OrderSnapshotsAsTree` of src/app/vm/VMManager.cpp: a list in
-- preorder, each snapshot with its depth. `std::sort` is a parameter.
pub mod Counts
pub mod Walk
pub mod Order
use hyprv.Prelude.{
  ℕ, zero, suc, Bool, true, false, Option, none, some, List, [], ◌∷◌, ◌++◌, map, ltb, ◌==◌,
  if◌then◌else◌, is_empty, length,
}
use hyprv.Prelude.Text.{Text, text_eq}

pub record Snapshot : Type 0 where
  pub path : Text
  pub instance_id : Text
  pub parent_instance_id : Text
  pub element_name : Text
  pub depth : ℕ
  pub creation_time : Option ℕ
  pub is_current : Bool

module _ {ℓ} {A : Type ℓ} where
  abbrev pub get_elem? : List A → ℕ → Option A
  get_elem? [] i = none
  get_elem? (x ∷ xs) zero = some x
  get_elem? (x ∷ xs) (suc i) = get_elem? xs i

-- `byId`: of snapshots with one identifier the last has the entry.
unfoldable pub by_id : Text → ℕ → List Snapshot → Option ℕ
by_id id i [] = none
by_id id i (s ∷ rest) = elim (by_id id (suc i) rest) [
  | some j ↦ some j
  | none ↦ if text_eq s.instance_id id then some i else none
]

abbrev pub parent_index : List Snapshot → Snapshot → Option ℕ
parent_index flat s =
    if is_empty s.parent_instance_id then none else by_id s.parent_instance_id 0 flat

-- The indices, from `i` on, at which the test holds.
unfoldable pub indices_of : (Option ℕ → Bool) → ℕ → List (Option ℕ) → List ℕ
indices_of test i [] = []
indices_of test i (p ∷ ps) =
    let rest = indices_of test (suc i) ps in elim (test p) [ true ↦ i ∷ rest | false ↦ rest ]

abbrev pub is_root : Option ℕ → Bool
is_root none = true
is_root (some p) = false

abbrev pub is_child_of : ℕ → Option ℕ → Bool
is_child_of q none = false
is_child_of q (some p) = p == q

-- The order of siblings: by time, those without one last.
abbrev pub earlier : Option ℕ → Option ℕ → Bool
earlier none b = false
earlier (some a) none = true
earlier (some a) (some b) = ltb a b

abbrev pub created : List Snapshot → ℕ → Option ℕ
created flat i = elim (get_elem? flat i) [ none ↦ none | some s ↦ s.creation_time ]

unfoldable pub by_creation : List Snapshot → ℕ → ℕ → Bool
by_creation flat a b = earlier (created flat a) (created flat b)

abbrev pub deeper : ℕ → List ℕ → List (ℕ × ℕ)
deeper d [] = []
deeper d (i ∷ is) = (i, d) ∷ deeper d is

-- The loop over the stack, its top first; `none` if the fuel runs out.
unfoldable pub walk : (ℕ → List ℕ) → ℕ → List (ℕ × ℕ) → List (ℕ × ℕ) → Option (List (ℕ × ℕ))
walk children zero stack out = none
walk children (suc fuel) [] out = some out
walk children (suc fuel) ((i, d) ∷ stack) out =
    walk children fuel (deeper (suc d) (children i) ++ stack) (out ++ (i, d) ∷ [])

unfoldable pub stamped : List Snapshot → List (ℕ × ℕ) → List Snapshot
stamped flat [] = []
stamped flat ((i, d) ∷ rest) = elim (get_elem? flat i) [
  | none ↦ stamped flat rest
  | some s ↦ record s { depth = d } ∷ stamped flat rest
]

module _ (sort : (ℕ → ℕ → Bool) → List ℕ → List ℕ) (flat : List Snapshot) where
  abbrev pub parents : List (Option ℕ)
  parents = map (parent_index flat) flat

  unfoldable pub roots : List ℕ
  roots = sort (by_creation flat) (indices_of is_root 0 parents)

  unfoldable pub children : ℕ → List ℕ
  children i = sort (by_creation flat) (indices_of (is_child_of i) 0 parents)

  -- The indices in order, with the depths.
  unfoldable pub tree_walk : Option (List (ℕ × ℕ))
  tree_walk = walk children (suc (length flat)) (deeper 0 roots) []

  unfoldable pub order_snapshots_as_tree : Option (List Snapshot)
  order_snapshots_as_tree =
      if is_empty flat
      then some flat
      else elim tree_walk [ none ↦ none | some out ↦ some (stamped flat out) ]
