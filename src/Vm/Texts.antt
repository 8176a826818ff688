-- ===== src/Vm/Texts.antt =====
-- What src/app/vm/VMManager.cpp picks out of the identifiers, paths and messages of the management
-- service. A loop over positions is a recursion on what is left of the text from there.
pub mod Find
pub mod Guids
pub mod Clean
use hyprv.Prelude.{
  ℕ, zero, suc, ◌+◌, ◌-◌, Bool, true, false, ◌&&◌, Option, none, some, List, [], ◌∷◌, ◌++◌, leb,
  ltb, ◌==◌, if◌then◌else◌, is_empty, length, take, drop,
}
use hyprv.Prelude.Text.{Text, codes}

-- Whether a hyphen stands at a position.
abbrev pub hyphen_at : ℕ → Text → Bool
hyphen_at k [] = false
hyphen_at zero (c ∷ cs) = c == 45
hyphen_at (suc k) (c ∷ cs) = hyphen_at k cs

unfoldable pub guid_here : Text → Bool
guid_here s =
    leb 36 (length s) && hyphen_at 8 s && hyphen_at 13 s && hyphen_at 18 s && hyphen_at 23 s

unfoldable pub find_first_guid_in_instance_id : Text → Text
find_first_guid_in_instance_id [] = []
find_first_guid_in_instance_id (c ∷ cs) =
    if guid_here (c ∷ cs) then take 36 (c ∷ cs) else find_first_guid_in_instance_id cs

-- `skip` positions lie in the identifier that was found last.
unfoldable pub guids_from : ℕ → Text → List Text
guids_from skip [] = []
guids_from (suc skip) (c ∷ cs) = guids_from skip cs
guids_from zero (c ∷ cs) = elim (guid_here (c ∷ cs)) [
  | true ↦ take 36 (c ∷ cs) ∷ guids_from 35 cs
  | false ↦ guids_from 0 cs
]

abbrev pub find_all_guids_in_instance_id : Text → List Text
find_all_guids_in_instance_id iid = guids_from 0 iid

abbrev pub starts_with : Text → Text → Bool
starts_with [] s = true
starts_with (n ∷ ns) [] = false
starts_with (n ∷ ns) (c ∷ cs) = (n == c) && starts_with ns cs

abbrev pub one_further : Option ℕ → Option ℕ
one_further none = none
one_further (some p) = some (suc p)

-- `find`: where a text first stands in another.
unfoldable pub find : Text → Text → Option ℕ
find needle [] = if is_empty needle then some 0 else none
find needle (c ∷ cs) =
    let rest = find needle cs in if starts_with needle (c ∷ cs) then some 0 else one_further rest

-- The text up to the next quotation mark; empty if there is none.
abbrev pub quoted : Text → Text
quoted rest = elim (find (34 ∷ []) rest) [ none ↦ [] | some e ↦ take e rest ]

unfoldable pub extract_instance_id_from_path : Text → Text
extract_instance_id_from_path path =
    if is_empty path then [] else elim (find (codes "InstanceID=" ++ (34 ∷ [])) path) [
      | none ↦ []
      | some p ↦ quoted (drop (p + 12) path)
    ]

-- The first of two positions.
abbrev pub first_of : Option ℕ → Option ℕ → Option ℕ
first_of none q = q
first_of (some p) none = some p
first_of (some p) (some q) = if ltb q p then some q else some p

abbrev pub first_key : Text
first_key = codes ".Name=" ++ (34 ∷ [])

abbrev pub later_key : Text
later_key = codes ",Name=" ++ (34 ∷ [])

unfoldable pub extract_name_property_from_path : Text → Text
extract_name_property_from_path path =
    if is_empty path then [] else elim (first_of (find first_key path) (find later_key path)) [
      | none ↦ []
      | some p ↦ quoted (drop (p + 7) path)
    ]

abbrev pub id_marker : Text
id_marker = codes "(Virtual machine ID "

-- Whether a space stands before a position.
abbrev pub space_before : ℕ → Text → Bool
space_before zero s = false
space_before (suc p) [] = false
space_before (suc zero) (c ∷ cs) = c == 32
space_before (suc (suc p)) (c ∷ cs) = space_before (suc p) cs

-- A round of the loop: the text without the marker's parenthesis, if there is a whole one.
unfoldable pub without_id : Text → Option Text
without_id s = elim (find id_marker s) [
  | none ↦ none
  | some p ↦ elim (find (41 ∷ []) (drop p s)) [
    | none ↦ none
    | some e ↦ some (take (if space_before p s then p - 1 else p) s ++ drop (suc (p + e)) s)
  ]
]

-- `none` if the fuel runs out.
unfoldable pub clean_loop : ℕ → Text → Option Text
clean_loop zero s = none
clean_loop (suc fuel) s = elim (without_id s) [ none ↦ some s | some s' ↦ clean_loop fuel s' ]

abbrev pub clean_job_error : Text → Option Text
clean_job_error s = clean_loop (suc (length s)) s
