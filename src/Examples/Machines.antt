-- ===== src/Examples/Machines.antt =====
-- Concrete runs of the theorems on the management of machines.
use hyprv.Prelude.{
  ℕ, ◌≤◌, ◌≡◌, ◌≢◌, ◌⊎◌, refl, Bool, true, false, Option, none, some, List, [], ◌∷◌, ◌++◌,
  if◌then◌else◌, is_empty, arith, All, drop,
}
use hyprv.Prelude.Text.{Text, codes, text_eq}
use hyprv.Vm.Poll.{
  PollStep, edits, registers, kicks, wakes, begins, publishes, updates, register, poll_run,
  is_served, new_poller,
}
use hyprv.Vm.Poll.Fresh.{poll_run-fresh, register-served, two_cycles}
use hyprv.Vm.Interval.{padded, seconds_to_cim_interval, cim_interval_to_seconds}
use hyprv.Vm.Interval.RoundTrip.{cim_interval_to_seconds-seconds_to_cim_interval}
use hyprv.Vm.Snapshots.{
  Snapshot, by_id, indices_of, walk, parents, roots, children, tree_walk, by_creation,
}
use hyprv.Vm.Snapshots.Counts.{count, fsts}
use hyprv.Vm.Snapshots.Order.{Descends, DescendsTo, tree_walk-once}
use hyprv.Vm.Texts.{
  find, id_marker, first_key, later_key, extract_name_property_from_path,
  find_all_guids_in_instance_id, clean_job_error,
}
use hyprv.Vm.Texts.Find.{extract_name_property_sound}
use hyprv.Vm.Texts.Guids.{IsGuid, joined, guids_in, guids_from-joined}
use hyprv.Vm.Texts.Clean.{clean_job_error-clean}

-- An edit of the host while a cycle reads, and a call that waits for the next cycle.
abbrev edited : List PollStep
edited =
    begins
    ∷ edits
    ∷ registers
    ∷ kicks
    ∷ updates true
    ∷ publishes
    ∷ wakes
    ∷ begins
    ∷ updates true
    ∷ publishes
    ∷ []

poll_run-fresh_example :
    All
      (λ w.
        is_served (poll_run new_poller edited) w ≡ true
        → w.asked_at ≤ (poll_run new_poller edited).cached)
      (poll_run new_poller edited).waiters
poll_run-fresh_example =
    poll_run-fresh edited (omega arith)
      (tt, (tt, (tt, (tt, (refl, (tt, (tt, (tt, (refl, (tt, tt))))))))))

register-served_example :
    (poll_run (register new_poller) (two_cycles false true)).poll_serviced
    ≡ (register new_poller).poll_req
register-served_example = register-served new_poller false true refl (λ e. absurd cc)

cim_interval_to_seconds-seconds_to_cim_interval_example :
    cim_interval_to_seconds (seconds_to_cim_interval 90061) ≡ 90061
cim_interval_to_seconds-seconds_to_cim_interval_example =
    cim_interval_to_seconds-seconds_to_cim_interval 90061 (omega arith)

one_day : seconds_to_cim_interval 90061 ≡ codes "00000001010101.000000:000"
unfolding seconds_to_cim_interval padded
one_day = refl

abbrev snapshot : Text → Text → Option ℕ → Snapshot
snapshot id parent time = record {
  path = id;
  instance_id = id;
  parent_instance_id = parent;
  element_name = id;
  depth = 0;
  creation_time = time;
  is_current = false;
}

-- A root with two children, listed out of order, and two snapshots that are each other's parents.
abbrev taken : List Snapshot
taken =
    snapshot (codes "c") (codes "a") (some 3)
    ∷ snapshot (codes "b") (codes "a") (some 2)
    ∷ snapshot (codes "a") [] (some 1)
    ∷ snapshot (codes "x") (codes "y") none
    ∷ snapshot (codes "y") (codes "x") none
    ∷ []

abbrev insert : (ℕ → ℕ → Bool) → ℕ → List ℕ → List ℕ
insert before x [] = x ∷ []
insert before x (y ∷ ys) =
    let rest = insert before x ys in if before y x then y ∷ rest else x ∷ y ∷ ys

abbrev insertion_sort : (ℕ → ℕ → Bool) → List ℕ → List ℕ
insertion_sort before [] = []
insertion_sort before (x ∷ xs) = insert before x (insertion_sort before xs)

insert_keeps :
    (before : ℕ → ℕ → Bool) (x y : ℕ) (ys : List ℕ)
    → count x (insert before y ys) ≡ count x (y ∷ ys)
insert_keeps before x y [] = refl
insert_keeps before x y (z ∷ zs) = ground (arith, insert_keeps before x y zs)

sort_keeps :
    (before : ℕ → ℕ → Bool) (xs : List ℕ) (x : ℕ) → count x (insertion_sort before xs) ≡ count x xs
sort_keeps before [] x = refl
sort_keeps before (y ∷ ys) x =
    omega (arith, insert_keeps before x y (insertion_sort before ys), sort_keeps before ys x)

taken_walk : tree_walk insertion_sort taken ≡ some ((2, 0) ∷ (1, 1) ∷ (0, 1) ∷ [])
unfolding tree_walk roots children walk indices_of by_id text_eq by_creation
taken_walk = refl

tree_walk-once_example :
    ((x d : ℕ)
      → Descends (parents insertion_sort taken) x d
      → count x (fsts ((2, 0) ∷ (1, 1) ∷ (0, 1) ∷ [])) ≡ 1)
    × All (DescendsTo (parents insertion_sort taken)) ((2, 0) ∷ (1, 1) ∷ (0, 1) ∷ [])
tree_walk-once_example =
    tree_walk-once insertion_sort sort_keeps taken ((2, 0) ∷ (1, 1) ∷ (0, 1) ∷ []) taken_walk

abbrev quote : Text
quote = 34 ∷ []

abbrev switch_path : Text
switch_path =
    codes "v2:Switch.CreationClassName="
    ++ (quote
        ++ (codes "Switch" ++ (quote ++ (codes ",Name=" ++ (quote ++ (codes "5A" ++ quote))))))

switch_named : extract_name_property_from_path switch_path ≡ codes "5A"
unfolding extract_name_property_from_path find
switch_named = refl

switch_name_found : is_empty (extract_name_property_from_path switch_path) ≡ false
unfolding extract_name_property_from_path find
switch_name_found = refl

extract_name_property_sound_example :
    (before key after : Text) × ((key ≡ first_key) ⊎ (key ≡ later_key))
    × (switch_path
        ≡ before ++ (key ++ (extract_name_property_from_path switch_path ++ (34 ∷ after))))
    × All (λ x. x ≢ 34) (extract_name_property_from_path switch_path)
extract_name_property_sound_example = extract_name_property_sound switch_path switch_name_found

abbrev message : Text
message = codes "No start. (Virtual machine ID 5A-7)"

clean_job_error-clean_example :
    (r : Text) × (clean_job_error message ≡ some r)
    × ((find id_marker r ≡ none)
        ⊎ ((p : ℕ) × (find id_marker r ≡ some p) × (find (41 ∷ []) (drop p r) ≡ none)))
clean_job_error-clean_example = clean_job_error-clean message

abbrev machine : Text
machine = codes "11111111-2222-3333-4444-555555555555"

abbrev adapter : Text
adapter = codes "66666666-7777-8888-9999-000000000000"

machine-IsGuid : IsGuid machine
machine-IsGuid = record {
  long = refl;
  head = omega arith;
  first = refl;
  second = refl;
  third = refl;
  fourth = refl;
}

adapter-IsGuid : IsGuid adapter
adapter-IsGuid = record {
  long = refl;
  head = omega arith;
  first = refl;
  second = refl;
  third = refl;
  fourth = refl;
}

abbrev parts : List (Text × Text)
parts = (codes "Microsoft:GuestNetwork\\", machine) ∷ (92 ∷ [], adapter) ∷ []

guids_from-joined_example : find_all_guids_in_instance_id (joined parts []) ≡ guids_in parts
guids_from-joined_example =
    guids_from-joined parts [] ((omega arith, machine-IsGuid), ((omega arith, adapter-IsGuid), tt))
      tt
