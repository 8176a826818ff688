-- ===== src/Settings/Json/Usable.antt =====
-- Whatever the file holds, the options that come out of it are ones that a session can use.
use hyprv.Prelude.{
  ℕ, ◌<◌, ◌≤◌, ◌≡◌, ◌^◌, inl, inr, refl, Bool, true, false, Option, none, some, List, [], ◌∷◌,
  arith, if◌then◌else◌, All, OneOf, subst, ◌>>=◌, Option-cases,
}
use hyprv.Prelude.Text.{Text, codes}
use hyprv.Settings.Options.{RdpOptions}
use hyprv.Settings.Json.{
  JsonReader, clamped, snapped_depth, snapped_scale, overlay, flag_field, number_field,
  option_fields, read_fields, rdp_options_from_json,
}

pub record IsUsable (o : RdpOptions) : Type 0 where
  pub width : (320 ≤ o.initial_desktop_width) × (o.initial_desktop_width ≤ 7680)
  pub height : (240 ≤ o.initial_desktop_height) × (o.initial_desktop_height ≤ 4320)
  pub depth : OneOf (16 ∷ 24 ∷ 32 ∷ []) o.color_depth
  pub scale : OneOf (0 ∷ 100 ∷ 125 ∷ 150 ∷ 175 ∷ 200 ∷ []) o.dpi_scale_override_percent

module _ (js : JsonReader) where
  open js use {Object, Double, of_nat, lt, lt_of_nat, to_uint16, to_uint16_between}

  pub clamped_between :
      (lo hi : ℕ) (v : Double)
      → lo ≤ hi
      → hi < 2 ^ 16
      → (lo ≤ clamped js lo hi v) × (clamped js lo hi v ≤ hi)
  unfolding clamped
  clamped_between lo hi v h k = ground (
    arith,
    lt_of_nat lo lo,
    lt_of_nat hi lo,
    lt_of_nat hi hi,
    lt_of_nat lo hi,
    to_uint16_between v lo hi k,
    to_uint16_between (of_nat lo) lo hi k,
    to_uint16_between (of_nat hi) lo hi k,
  )

  snapped_depth_lem : (n : ℕ) → OneOf (16 ∷ 24 ∷ 32 ∷ []) (snapped_depth js n)
  unfolding snapped_depth
  snapped_depth_lem n = ground arith

  snapped_scale_lem : (n : ℕ) → OneOf (0 ∷ 100 ∷ 125 ∷ 150 ∷ 175 ∷ 200 ∷ []) (snapped_scale js n)
  unfolding snapped_scale
  snapped_scale_lem n = ground arith

  -- A field's reader makes usable options of usable options, if it does not throw.
  abbrev Keeps : (Object → RdpOptions → Option RdpOptions) → Type 0
  Keeps f = (obj : Object) (o o' : RdpOptions) → IsUsable o → f obj o ≡ some o' → IsUsable o'

  overlay_cases {ℓ} :
      {V : Type ℓ} (present : Bool) (value : Option V) (put : V → RdpOptions) (o o' : RdpOptions)
      → IsUsable o
      → ((v : V) → IsUsable (put v))
      → (if present then (do v ← value; some (put v)) else some o) ≡ some o'
      → IsUsable o'
  overlay_cases false value put o o' u w e = let same : o ≡ o' = cc in subst IsUsable same u
  overlay_cases true none put o o' u w e = absurd cc
  overlay_cases true (some v) put o o' u w e =
      let same : put v ≡ o' = cc in subst IsUsable same (w v)

  -- A reader keeps options usable if every value that it may store does.
  overlay-Keeps {ℓ} :
      {V : Type ℓ} (get : Object → Text → V → Option V) (key : Text) (fallback : RdpOptions → V)
      (put : V → RdpOptions → RdpOptions)
      → ((v : V) (o : RdpOptions) → IsUsable o → IsUsable (put v o))
      → Keeps (λ obj o. overlay js get key (fallback o) (λ v. put v o) obj o)
  overlay-Keeps get key fallback put w obj o o' u e =
      overlay_cases (js.has_key obj key) (get obj key (fallback o)) (λ v. put v o) o o' u
        (λ v. w v o u) e

  flag_field-Keeps :
      (key : Text) (field : RdpOptions → Bool) (put : Bool → RdpOptions → RdpOptions)
      → ((b : Bool) (o : RdpOptions) → IsUsable o → IsUsable (put b o))
      → Keeps (flag_field js key field put)
  flag_field-Keeps key field put w = overlay-Keeps js.get_named_boolean key field put w

  number_field-Keeps :
      (key : Text) (field : RdpOptions → ℕ) (put : Double → RdpOptions → RdpOptions)
      → ((v : Double) (o : RdpOptions) → IsUsable o → IsUsable (put v o))
      → Keeps (number_field js key field put)
  number_field-Keeps key field put w =
      overlay-Keeps js.get_named_number key (λ o. of_nat (field o)) put w

  -- A change of other fields.
  kept :
      (o o' : RdpOptions)
      → o.initial_desktop_width ≡ o'.initial_desktop_width
      → o.initial_desktop_height ≡ o'.initial_desktop_height
      → o.color_depth ≡ o'.color_depth
      → o.dpi_scale_override_percent ≡ o'.dpi_scale_override_percent
      → IsUsable o
      → IsUsable o'
  kept o o' a b c d u = record {
    width = subst (λ n. (320 ≤ n) × (n ≤ 7680)) a u.width;
    height = subst (λ n. (240 ≤ n) × (n ≤ 4320)) b u.height;
    depth = subst (OneOf (16 ∷ 24 ∷ 32 ∷ [])) c u.depth;
    scale = subst (OneOf (0 ∷ 100 ∷ 125 ∷ 150 ∷ 175 ∷ 200 ∷ [])) d u.scale;
  }

  option_fields-Keeps : All Keeps (option_fields js)
  option_fields-Keeps = (
    overlay-Keeps js.get_named_string (codes "audioMode") (λ o. codes "redirect") _
        (λ t o u. kept o _ refl refl refl refl u),
    (
      flag_field-Keeps (codes "redirectClipboard") _ _ (λ b o u. kept o _ refl refl refl refl u),
      (
        flag_field-Keeps (codes "redirectDrives") _ _ (λ b o u. kept o _ refl refl refl refl u),
        (
          flag_field-Keeps (codes "redirectDevices") _ _ (λ b o u. kept o _ refl refl refl refl u),
          (
            flag_field-Keeps (codes "redirectSmartCards") _ _
                (λ b o u. kept o _ refl refl refl refl u),
            (
              flag_field-Keeps (codes "redirectPorts") _ _
                  (λ b o u. kept o _ refl refl refl refl u),
              (
                flag_field-Keeps (codes "audioCaptureRedirect") _ _
                    (λ b o u. kept o _ refl refl refl refl u),
                (
                  number_field-Keeps (codes "initialDesktopWidth") _ _ (λ v o u. record {
                    width = clamped_between 320 7680 v (omega arith) (omega arith);
                    height = u.height;
                    depth = u.depth;
                    scale = u.scale;
                  }),
                  (
                    number_field-Keeps (codes "initialDesktopHeight") _ _ (λ v o u. record {
                      width = u.width;
                      height = clamped_between 240 4320 v (omega arith) (omega arith);
                      depth = u.depth;
                      scale = u.scale;
                    }),
                    (
                      number_field-Keeps (codes "colorDepth") _ _ (λ v o u. record {
                        width = u.width;
                        height = u.height;
                        depth = snapped_depth_lem (to_uint16 v);
                        scale = u.scale;
                      }),
                      (
                        number_field-Keeps (codes "dpiScaleOverridePercent") _ _ (λ v o u. record {
                          width = u.width;
                          height = u.height;
                          depth = u.depth;
                          scale = snapped_scale_lem (to_uint16 v);
                        }),
                        tt,
                      ),
                    ),
                  ),
                ),
              ),
            ),
          ),
        ),
      ),
    ),
  )

  read_fields-IsUsable :
      (fs : List (Object → RdpOptions → Option RdpOptions)) (obj : Object) (o : RdpOptions)
      → All Keeps fs
      → IsUsable o
      → IsUsable (read_fields js fs obj o).0
  unfolding read_fields
  read_fields-IsUsable [] obj o w u = u
  read_fields-IsUsable (f ∷ fs) obj o w u = elim (Option-cases (f obj o)) [
    | inl e ↦ rw (e, read_fields) u
    | inr (o', e) ↦ rw (e, read_fields) (read_fields-IsUsable fs obj o' w.1 (w.0 obj o o' u e))
  ]

  -- Whatever the object holds, and also where a value of the wrong type ends the reading half-way, usable
  -- options stay usable: a width of 320 to 7680, a height of 240 to 4320, a depth of 16, 24 or 32, and
  -- a scale of 0 or of one of the five percentages.
  pub rdp_options_from_json-IsUsable :
      (obj : Object) (o : RdpOptions) → IsUsable o → IsUsable (rdp_options_from_json js obj o).0
  unfolding rdp_options_from_json
  rdp_options_from_json-IsUsable obj o u =
      read_fields-IsUsable (option_fields js) obj o option_fields-Keeps u
