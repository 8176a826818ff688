-- ===== src/Settings/File/Write/Pieces.antt =====
-- The pieces that the text of the file is made of stand for strings, flags and options.
use hyprv.Prelude.{
  ℕ, ◌≤◌, ◌≡◌, refl, sym, subst, ◌⊎◌, inl, inr, Bool, true, false, ◌&&◌, ◌||◌, [], ◌∷◌, ◌++◌, ◌==◌,
  ==_iff, leb, arith, Bool-cases, ◌^◌,
}
use hyprv.Prelude.Text.{Text, codes}
use hyprv.Settings.Options.{RdpOptions, AudioMode, audio_mode_to_string}
use hyprv.Settings.File.State.{Numbers}
use hyprv.Settings.File.Grammar.{
  Json, bool, string, Members, member, all_space, is_plain, all_plain, Escape, quote, backslash,
  newline, return, tab, separator, Chars, closing, plain, escaped, Value, spaced, true', false',
  numeral, quoted, Fields, end_object, field, plain_chars,
}
use hyprv.Settings.File.Write.{put_rdp_options}
use hyprv.Settings.File.Parts.{escape_char, escape_body, esc, put_bool}
use hyprv.Settings.File.Tree.{rdp_members}

-- The characters that `esc` makes a string of: the control characters are left out but for the line
-- feed, the carriage return and the tab.
abbrev pub is_writable : ℕ → Bool
is_writable c = leb 32 c || c == 10 || c == 13 || c == 9

abbrev pub all_writable : Text → Bool
all_writable [] = true
all_writable (c ∷ cs) = is_writable c && all_writable cs

at_letter : {e k : ℕ} (c : ℕ) → Escape e k → (c == k) ≡ true → Escape e c
at_letter {e} {k} c x h = subst (Escape e) (sym ((==_iff c k).0 h)) x

escape_char_lem :
    (c : ℕ)
    → is_writable c ≡ true
    → ((e : ℕ) × Escape e c × (escape_char c ≡ 92 ∷ e ∷ []))
      ⊎ ((is_plain c ≡ true) × (escape_char c ≡ c ∷ []))
unfolding escape_char
escape_char_lem c h = elim (Bool-cases (c == 34)) [
  | inl a ↦ inl (34, at_letter c quote a, rw a)
  | inr a ↦ elim (Bool-cases (c == 92)) [
    | inl b ↦ inl (92, at_letter c backslash b, rw (a, b))
    | inr b ↦ elim (Bool-cases (c == 10)) [
      | inl d ↦ inl (110, at_letter c newline d, rw (a, b, d))
      | inr d ↦ elim (Bool-cases (c == 13)) [
        | inl e ↦ inl (114, at_letter c return e, rw (a, b, d, e))
        | inr e ↦ elim (Bool-cases (c == 9)) [
          | inl f ↦ inl (116, at_letter c tab f, rw (a, b, d, e, f))
          | inr f ↦ inr (ground arith, rw (a, b, d, e, f))
        ]
      ]
    ]
  ]
]

module _ (nums : Numbers) where
  open nums use {Double, IsNumeral}

  abbrev pub IsValue : Json Double → Text → Text → Type 0
  IsValue = Value Double IsNumeral

  abbrev pub IsFields : Bool → Members Double → Text → Text → Type 0
  IsFields = Fields Double IsNumeral

  pub escape_body-Chars :
      (s out : Text) → all_writable s ≡ true → Chars Double IsNumeral s (escape_body s out) out
  unfolding escape_body
  escape_body-Chars [] out h = closing
  escape_body-Chars (c ∷ s) out h =
      let more = escape_body-Chars s out (ground arith) in
      elim (escape_char_lem c (ground arith)) [
        | inl (e, x, same) ↦
            subst (λ t. Chars Double IsNumeral (c ∷ s) (t ++ escape_body s out) out) (sym same)
              (escaped x more)
        | inr (x, same) ↦
            subst (λ t. Chars Double IsNumeral (c ∷ s) (t ++ escape_body s out) out) (sym same)
              (plain x more)
      ]

  pub esc-Value : (s out : Text) → all_writable s ≡ true → IsValue (string s) (esc s out) out
  unfolding esc
  esc-Value s out h = quoted (escape_body-Chars s out h)

  pub put_bool-Value : (b : Bool) (out : Text) → IsValue (bool b) (put_bool b out) out
  put_bool-Value true out = true'
  put_bool-Value false out = false'

  -- A member with a key of plain characters and a space before its value.
  pub named :
      {first : Bool} {j : Json Double} {ms : Members Double} {t t' rest : Text} (w k : Text)
      → all_space w ≡ true
      → all_plain k ≡ true
      → IsValue j t t'
      → IsFields false ms t' rest
      → IsFields first (member k j ms) (separator first ++ (w ++ 34 ∷ (k ++ 34 ∷ 58 ∷ 32 ∷ t))) rest
  named {t} w k h e v more =
      field w h (plain_chars Double IsNumeral k (58 ∷ 32 ∷ t) e) (spaced (codes " ") refl v) more

  audio_mode_writable : (m : AudioMode) → all_writable (audio_mode_to_string m) ≡ true
  unfolding audio_mode_to_string
  audio_mode_writable AudioMode.redirect = refl
  audio_mode_writable _ = refl

  -- The four numbers of the options are `uint16_t`.
  pub record Fits16 (o : RdpOptions) : Type 0 where
    pub width : o.initial_desktop_width ≤ 2 ^ 16
    pub height : o.initial_desktop_height ≤ 2 ^ 16
    pub depth : o.color_depth ≤ 2 ^ 16
    pub scale : o.dpi_scale_override_percent ≤ 2 ^ 16

  -- The body of an options object behind the line feed of its opening brace.
  pub put_rdp_options-Fields :
      (o : RdpOptions) (indent w rest : Text)
      → Fits16 o
      → all_space indent ≡ true
      → all_space w ≡ true
      → IsFields true
          (rdp_members nums o)
          (10 ∷ put_rdp_options nums o indent (w ++ 125 ∷ rest))
          rest
  unfolding put_rdp_options
  put_rdp_options-Fields o indent w rest f h e =
      named (10 ∷ indent) (codes "audioMode") h refl
        (esc-Value _ _ (audio_mode_writable o.audio_mode))
        (named (10 ∷ indent) (codes "redirectClipboard") h refl (put_bool-Value _ _) (
          named (10 ∷ indent) (codes "redirectDrives") h refl (put_bool-Value _ _) (
            named (10 ∷ indent) (codes "redirectDevices") h refl (put_bool-Value _ _) (
              named (10 ∷ indent) (codes "redirectSmartCards") h refl (put_bool-Value _ _) (
                named (10 ∷ indent) (codes "redirectPorts") h refl (put_bool-Value _ _) (
                  named (10 ∷ indent) (codes "audioCaptureRedirect") h refl (put_bool-Value _ _) (
                    named (10 ∷ indent) (codes "initialDesktopWidth") h refl
                      (numeral _
                        (nums.show_nat_numeral o.initial_desktop_width (omega (arith, f.width))))
                      (named (10 ∷ indent) (codes "initialDesktopHeight") h refl
                        (numeral _ (
                          nums.show_nat_numeral o.initial_desktop_height (omega (arith, f.height))))
                        (named (10 ∷ indent) (codes "colorDepth") h refl
                          (numeral _ (nums.show_nat_numeral o.color_depth (omega (arith, f.depth))))
                          (named (10 ∷ indent) (codes "dpiScaleOverridePercent") h refl
                            (numeral _ (
                              nums.show_nat_numeral o.dpi_scale_override_percent
                                (omega (arith, f.scale))))
                            (end_object (10 ∷ w) e)))))))))))
