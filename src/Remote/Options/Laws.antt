-- ===== src/Remote/Options/Laws.antt =====
-- What the wire options of a remote host hold, whatever was saved and measured.
use hyprv.Prelude.{
  ℕ, ◌/◌, ◌%◌, ◌^◌, ◌≤◌, ◌<◌, ◌≡◌, refl, Bool, true, false, not, ◌&&◌, Option, none, some, ◌==◌,
  arith,
}
use hyprv.Settings.RemoteHosts.{RemoteHost}
use hyprv.Remote.Options.{
  Size, redirection_flags, desktop_extent, wire_options, width_of, height_of,
}

desktop_extent_bounds :
    (measured : Option ℕ) (saved fallback : ℕ)
    → 0 < fallback
    → (0 < desktop_extent measured saved fallback)
      × (desktop_extent measured saved fallback ≤ 65535)
unfolding desktop_extent
desktop_extent_bounds none saved fallback h = ground arith
desktop_extent_bounds (some e) saved fallback h = ground arith

-- Whatever is saved and however the border is measured, the desktop that is asked for has from 1 to
-- 65535 pixels each way, which its two bytes hold, and the port is not 0.
pub wire_options_bounds :
    (host : RemoteHost) (border : Option Size) (dpi : ℕ)
    → (0 < (wire_options host border dpi).desktop_width)
      × ((wire_options host border dpi).desktop_width ≤ 65535)
      × (0 < (wire_options host border dpi).desktop_height)
      × ((wire_options host border dpi).desktop_height ≤ 65535)
      × (0 < (wire_options host border dpi).port)
unfolding wire_options
wire_options_bounds host border dpi =
    let (w0, w1) =
      desktop_extent_bounds (width_of border) host.rdp.initial_desktop_width 1024 (omega arith) in
    let (h0, h1) =
      desktop_extent_bounds (height_of border) host.rdp.initial_desktop_height 768 (omega arith) in
    (w0, w1, h0, h1, ground arith)

-- The bit of a flag.
abbrev pub flag_set : ℕ → ℕ → Bool
flag_set bit flags = flags / 2 ^ bit % 2 == 1

abbrev same : Bool → Bool → Bool
same true b = b
same false b = not b

same_eq : (a b : Bool) → same a b ≡ true → a ≡ b
same_eq true true h = refl
same_eq true false h = cc
same_eq false true h = cc
same_eq false false h = refl

abbrev both : (Bool → Bool) → Bool
both p = p true && p false

both_sound : (p : Bool → Bool) (b : Bool) → both p ≡ true → p b ≡ true
both_sound p true h = ground arith
both_sound p false h = ground arith

abbrev flags_hold : Bool → Bool → Bool → Bool → Bool → Bool → Bool
flags_hold clipboard drives devices cards ports capture =
    let flags = redirection_flags clipboard drives devices cards ports capture in
    same (flag_set 7 flags) clipboard
    && (same (flag_set 8 flags) drives
        && (same (flag_set 9 flags) devices
            && (same (flag_set 11 flags) cards
                && (same (flag_set 10 flags) ports && same (flag_set 12 flags) capture))))

flags_table :
    both (λ a. both (λ b. both (λ c. both (λ d. both (λ e. both (λ f. flags_hold a b c d e f))))))
    ≡ true
unfolding redirection_flags
flags_table = refl

all_six : (a b c d e f : Bool) → flags_hold a b c d e f ≡ true
all_six a b c d e f =
    both_sound (λ f. flags_hold a b c d e f) f
      (both_sound (λ e. both (λ f. flags_hold a b c d e f)) e
        (both_sound (λ d. both (λ e. both (λ f. flags_hold a b c d e f))) d
          (both_sound (λ c. both (λ d. both (λ e. both (λ f. flags_hold a b c d e f)))) c
            (both_sound
              (λ b. both (λ c. both (λ d. both (λ e. both (λ f. flags_hold a b c d e f))))) b
              (both_sound
                (λ a.
                  both
                    (λ b. both (λ c. both (λ d. both (λ e. both (λ f. flags_hold a b c d e f))))))
                a flags_table)))))

&&-parts : (a b : Bool) → (a && b) ≡ true → (a ≡ true) × (b ≡ true)
&&-parts true b h = (refl, h)
&&-parts false b h = cc

-- Each redirection that is saved, and no other, has its bit in the flags that are sent.
pub redirection_flags_lem :
    (a b c d e f : Bool)
    → (flag_set 7 (redirection_flags a b c d e f) ≡ a)
      × (flag_set 8 (redirection_flags a b c d e f) ≡ b)
      × (flag_set 9 (redirection_flags a b c d e f) ≡ c)
      × (flag_set 11 (redirection_flags a b c d e f) ≡ d)
      × (flag_set 10 (redirection_flags a b c d e f) ≡ e)
      × (flag_set 12 (redirection_flags a b c d e f) ≡ f)
redirection_flags_lem a b c d e f =
    let (p7, r7) = &&-parts _ _ (all_six a b c d e f) in
    let (p8, r8) = &&-parts _ _ r7 in
    let (p9, r9) = &&-parts _ _ r8 in
    let (p11, r11) = &&-parts _ _ r9 in
    let (p10, p12) = &&-parts _ _ r11 in
    (
      same_eq _ a p7,
      same_eq _ b p8,
      same_eq _ c p9,
      same_eq _ d p11,
      same_eq _ e p10,
      same_eq _ f p12,
    )
