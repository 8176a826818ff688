-- ===== src/Ipc/Scale.antt =====
-- `SnapRdpScalePercent` in src/app/rdp/RdpHostClient.cpp: the loop over the scale factors that the
-- remote desktop control accepts.
use hyprv.Prelude.{ℕ, ◌+◌, ◌-◌, ◌*◌, ◌/◌, ◌%◌, ◌^◌, List, [], ◌∷◌, ltb, if◌then◌else◌}

abbrev pub valid_scales : List ℕ
valid_scales = 100 ∷ 125 ∷ 150 ∷ 175 ∷ 200 ∷ 250 ∷ 300 ∷ 400 ∷ 500 ∷ []

-- `(v > pct) ? (v - pct) : (pct - v)`.
unfoldable pub distance : ℕ → ℕ → ℕ
distance v pct = if ltb pct v then v - pct else pct - v

snap_loop : ℕ → ℕ → ℕ → List ℕ → ℕ
snap_loop pct best best_delta [] = best
snap_loop pct best best_delta (v ∷ vs) =
    let closer = ltb (distance v pct) best_delta in
    snap_loop pct (if closer then v else best) (if closer then distance v pct else best_delta) vs

unfoldable pub snap_rdp_scale_percent : ℕ → ℕ
unfolding snap_loop
snap_rdp_scale_percent pct = snap_loop pct 100 (2 ^ 32 - 1) valid_scales

-- The scale for a DPI value, `SnapRdpScalePercent((dpiX * 100u + 48u) / 96u)`.
unfoldable pub scale_of_dpi : ℕ → ℕ
scale_of_dpi dpi = snap_rdp_scale_percent ((dpi * 100 + 48) % 2 ^ 32 / 96)
