-- ===== src/Vm/Interval.antt =====
-- Intervals of the management service as seconds, in src/app/vm/VMManager.cpp: the delay before a machine
-- is started is kept as "ddddddddHHMMSS.mmmmmm:000".
pub mod RoundTrip
use hyprv.Prelude.{
  ℕ, zero, suc, ◌+◌, ◌-◌, ◌*◌, ◌/◌, ◌%◌, ◌^◌, List, [], ◌∷◌, ◌++◌, ltb, leb, ◌&&◌, if◌then◌else◌,
  length, take, drop, true, false,
}
use hyprv.Prelude.Text.{Text, codes}

-- `%u`, before what follows. The fuel is more than the number of digits.
unfoldable pub decimal : ℕ → ℕ → Text → Text
decimal zero n rest = rest
decimal (suc fuel) n rest = elim (ltb n 10) [
  | true ↦ (48 + n) ∷ rest
  | false ↦ decimal fuel (n / 10) ((48 + n % 10) ∷ rest)
]

-- `%0wu`: the last `w` digits, and before them what is left of the number.
unfoldable pub padded : ℕ → ℕ → Text → Text
padded zero n rest = elim n [ zero ↦ rest | suc m ↦ decimal (suc (suc m)) (suc m) rest ]
padded (suc w) n rest = padded w (n / 10) ((48 + n % 10) ∷ rest)

unfoldable pub seconds_to_cim_interval : ℕ → Text
seconds_to_cim_interval total =
    let days = total / 86400 in
    let total' = total % 86400 in
    let hh = total' / 3600 in
    let total'' = total' % 3600 in
    let mm = total'' / 60 in
    let ss = total'' % 60 in
    padded 8 days (padded 2 hh (padded 2 mm (padded 2 ss (codes ".000000:000"))))

-- A field of digits; what is none makes the whole field zero.
unfoldable pub num : ℕ → Text → ℕ
num v [] = v
num v (c ∷ cs) = if leb 48 c && leb c 57 then num (v * 10 + (c - 48)) cs else 0

abbrev pub field_at : Text → ℕ → ℕ → ℕ
field_at s off len = num 0 (take len (drop off s))

unfoldable pub cim_interval_to_seconds : Text → ℕ
cim_interval_to_seconds s =
    if ltb (length s) 14
    then 0
    else (field_at s 0 8 * 86400 + field_at s 8 2 * 3600 + field_at s 10 2 * 60 + field_at s 12 2)
      % 2 ^ 32
