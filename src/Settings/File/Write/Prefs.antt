-- ===== src/Settings/File/Write/Prefs.antt =====
-- The preferences of a machine in the file: on one line, or on a line per field.
use hyprv.Prelude.{
  ◌≡◌, refl, sym, subst, All, Bool, true, false, not, Option, none, some, ◌∷◌, ◌++◌, if◌then◌else◌,
  arith,
}
use hyprv.Prelude.Text.{Text, codes}
use hyprv.Settings.Map.{Map, lookup}
use hyprv.Settings.VmPrefs.{VmPrefs, no_prefs}
use hyprv.Settings.Options.{RdpOptions}
use hyprv.Settings.File.State.{Numbers}
use hyprv.Settings.File.Grammar.{
  Json, bool, string, object, Members, no_members, member, separator, all_plain, spaced, braced,
  end_object, field,
}
use hyprv.Settings.File.Write.{
  put_field, put_flag_after, put_short_prefs, put_long_prefs, put_prefs, is_long, put_rdp_options,
}
use hyprv.Settings.File.Parts.{esc, put_bool, is_set, at_key}
use hyprv.Settings.File.Write.Pieces.{
  all_writable, IsFields, escape_body-Chars, esc-Value, put_bool-Value, named, Fits16,
  put_rdp_options-Fields,
}
use hyprv.Settings.File.Write.Entries.{at_key-All}
use hyprv.Settings.File.Tree.{optional_member, pref_members, prefs_value, rdp_members}

abbrev pub Each {ℓ κ} : {A : Type ℓ} → (A → Type κ) → Option A → Type κ
Each P none = Unit
Each P (some a) = P a

flags-Each : (o : Option Bool) → Each {0, 0} (λ b. Unit) o
flags-Each none = tt
flags-Each (some b) = tt

pub none_of_is_set {ℓ} : {A : Type ℓ} (o : Option A) → is_set o ≡ false → o ≡ none
none_of_is_set none h = refl
none_of_is_set (some a) h = cc

module _ (nums : Numbers) where
  open nums use {Double}

  pub record IsWritablePrefs (p : VmPrefs) : Type 0 where
    pub exe : Each (λ s. all_writable s ≡ true) p.debugger_exe
    pub args : Each (λ s. all_writable s ≡ true) p.debugger_args
    pub rdp : Each (Fits16 nums) p.rdp_options

  pub no_prefs-IsWritablePrefs : IsWritablePrefs no_prefs
  no_prefs-IsWritablePrefs = record { exe = tt; args = tt; rdp = tt }

  -- What stands behind the fields written so far: a line feed is still there before the first one.
  abbrev Behind : Bool → Members Double → Text → Text → Type 0
  Behind true ms t rest = IsFields nums false ms t rest
  Behind false ms t rest = IsFields nums true ms (10 ∷ t) rest

  put_field-Behind :
      {A : Type 0} (P : A → Type 0) (wrote : Bool) (o : Option A) (put : A → Text → Text)
      (more : Bool → Text) (k : Text) (f : A → Json Double) (ms : Members Double) (rest : Text)
      → ((a : A) (first : Bool) (t : Text)
          → P a
          → IsFields nums false ms t rest
          → IsFields nums first (member k (f a) ms) (separator first ++ 10 ∷ put a t) rest)
      → Each P o
      → ((w : Bool) → Behind w ms (more w) rest)
      → Behind wrote (optional_member nums k o f ms) (put_field wrote o put more) rest
  put_field-Behind P wrote none put more k f ms rest step p h = h wrote
  put_field-Behind P true (some a) put more k f ms rest step p h =
      step a false (more true) p (h true)
  put_field-Behind P false (some a) put more k f ms rest step p h =
      step a true (more true) p (h true)

  flag_step :
      (k : Text) (b first : Bool) (ms : Members Double) (t rest : Text)
      → all_plain k ≡ true
      → IsFields nums false ms t rest
      → IsFields nums first
          (member k (bool b) ms)
          (separator first ++ (codes "\n      \"" ++ (k ++ (codes "\": " ++ put_bool b t))))
          rest
  flag_step k b first ms t rest h more =
      named nums (codes "\n      ") k refl h (put_bool-Value nums b t) more

  string_step :
      (k s : Text) (first : Bool) (ms : Members Double) (t rest : Text)
      → all_plain k ≡ true
      → all_writable s ≡ true
      → IsFields nums false ms t rest
      → IsFields nums first
          (member k (string s) ms)
          (separator first ++ (codes "\n      \"" ++ (k ++ (codes "\": " ++ esc s t))))
          rest
  string_step k s first ms t rest h w more =
      named nums (codes "\n      ") k refl h (esc-Value nums s t w) more

  rdp_step :
      (o : RdpOptions) (first : Bool) (t rest : Text)
      → Fits16 nums o
      → IsFields nums false no_members t rest
      → IsFields nums first
          (member (codes "rdpOptions") (object (rdp_members nums o)) no_members)
          (separator first
            ++ (codes "\n      \"rdpOptions\": {\n"
                ++ put_rdp_options nums o (codes "        ") (codes "      }" ++ t)))
          rest
  rdp_step o first t rest h more =
      named nums (codes "\n      ") (codes "rdpOptions") refl refl
        (braced (put_rdp_options-Fields nums o (codes "        ") (codes "      ") t h refl refl))
        more

  end_Behind : (out : Text) (w : Bool) → Behind w no_members (codes "\n    }" ++ out) out
  end_Behind out true = end_object (codes "\n    ") refl
  end_Behind out false = end_object (codes "\n\n    ") refl

  -- The fields behind `{` and the line feed.
  long-IsFields :
      (p : VmPrefs) (out : Text)
      → IsWritablePrefs p
      → (t : Text) × (put_long_prefs nums p out ≡ codes ": {\n" ++ t)
        × IsFields nums true (pref_members nums p) (10 ∷ t) out
  unfolding put_long_prefs
  long-IsFields p out h = (
    _,
    refl,
    put_field-Behind (λ b. Unit) false p.enhanced_session _ _ (codes "enhancedSession")
        (λ b. bool b) _ out
        (λ b first t u more. flag_step (codes "enhancedSession") b first _ t out refl more)
        (flags-Each p.enhanced_session)
        λ w1.
          put_field-Behind (λ b. Unit) w1 p.enhanced_session_supported _ _
            (codes "enhancedSessionSupported") (λ b. bool b) _ out
            (λ b first t u more.
              flag_step (codes "enhancedSessionSupported") b first _ t out refl more)
            (flags-Each p.enhanced_session_supported)
            λ w2.
              put_field-Behind (λ s. all_writable s ≡ true) w2 p.debugger_exe _ _
                (codes "debuggerExe") (λ s. string s) _ out
                (λ s first t u more. string_step (codes "debuggerExe") s first _ t out refl u more)
                h.exe
                λ w3.
                  put_field-Behind (λ s. all_writable s ≡ true) w3 p.debugger_args _ _
                    (codes "debuggerArgs") (λ s. string s) _ out
                    (λ s first t u more.
                      string_step (codes "debuggerArgs") s first _ t out refl u more)
                    h.args
                    λ w4.
                      put_field-Behind (Fits16 nums) w4 p.rdp_options _ _ (codes "rdpOptions")
                        (λ o. object (rdp_members nums o)) _ out
                        (λ o first t u more. rdp_step o first t out u more) h.rdp (end_Behind out),
  )

  flag_last-IsFields :
      (es : Option Bool) (first : Bool) (out : Text)
      → IsFields nums first
          (optional_member nums (codes "enhancedSessionSupported") es (λ b. bool b) no_members)
          (if first
            then 32
              ∷ put_flag_after true (codes "\"enhancedSessionSupported\": ") es (codes " }" ++ out)
            else put_flag_after false
                (codes "\"enhancedSessionSupported\": ")
                es
                (codes " }" ++ out))
          out
  unfolding put_flag_after
  flag_last-IsFields none true out = end_object (codes "  ") refl
  flag_last-IsFields none false out = end_object (codes " ") refl
  flag_last-IsFields (some b) true out =
      named nums (codes " ") (codes "enhancedSessionSupported") refl refl (put_bool-Value nums b _)
        (end_object (codes " ") refl)
  flag_last-IsFields (some b) false out =
      named nums (codes " ") (codes "enhancedSessionSupported") refl refl (put_bool-Value nums b _)
        (end_object (codes " ") refl)

  short-IsFields :
      (es ess : Option Bool) (out : Text)
      → IsFields nums true
          (optional_member nums
            (codes "enhancedSession")
            es
            (λ b. bool b)
            (optional_member nums (codes "enhancedSessionSupported") ess (λ b. bool b) no_members))
          (32
            ∷ put_flag_after true (codes "\"enhancedSession\": ") es (
                put_flag_after
                  (not (is_set es))
                  (codes "\"enhancedSessionSupported\": ")
                  ess
                  (codes " }" ++ out)))
          out
  unfolding put_flag_after
  short-IsFields none ess out = flag_last-IsFields ess true out
  short-IsFields (some b) ess out =
      named nums (codes " ") (codes "enhancedSession") refl refl (put_bool-Value nums b _)
        (flag_last-IsFields ess false out)

  short_members :
      (p : VmPrefs)
      → is_long p ≡ false
      → pref_members nums p
        ≡ optional_member nums
            (codes "enhancedSession")
            p.enhanced_session
            (λ b. bool b)
            (optional_member nums
              (codes "enhancedSessionSupported")
              p.enhanced_session_supported
              (λ b. bool b)
              no_members)
  short_members p h = rw (
    none_of_is_set p.rdp_options (ground arith),
    none_of_is_set p.debugger_exe (ground arith),
    none_of_is_set p.debugger_args (ground arith),
  )

  put_prefs_at-IsFields :
      (long : Bool) (p : VmPrefs) (first : Bool) (ms : Members Double) (k out rest : Text)
      → is_long p ≡ long
      → all_writable k ≡ true
      → IsWritablePrefs p
      → IsFields nums false ms out rest
      → IsFields nums first
          (member k (object (pref_members nums p)) ms)
          (separator first
            ++ (codes "\n    "
                ++ esc k (if long then put_long_prefs nums p out else put_short_prefs p out)))
          rest
  unfolding esc put_short_prefs
  put_prefs_at-IsFields true p first ms k out rest l h w more =
      let (t, e, fields) = long-IsFields p out w in
      subst
        (λ u.
          IsFields nums first (member k (object (pref_members nums p)) ms)
            (separator first ++ (codes "\n    " ++ esc k u)) rest)
        (sym e)
        (field (codes "\n    ") refl (escape_body-Chars nums k _ h)
          (spaced (codes " ") refl (braced fields)) more)
  put_prefs_at-IsFields false p first ms k out rest l h w more =
      subst
        (λ n.
          IsFields nums first (member k (object n) ms)
            (separator first ++ (codes "\n    " ++ esc k (put_short_prefs p out))) rest)
        (sym (short_members p l))
        (field (codes "\n    ") refl (escape_body-Chars nums k _ h)
          (spaced (codes " ") refl
            (braced (short-IsFields p.enhanced_session p.enhanced_session_supported out)))
          more)

  pub put_prefs-Fields :
      (m : Map VmPrefs) (first : Bool) (ms : Members Double) (k out rest : Text)
      → All (λ e. IsWritablePrefs e.1) m
      → all_writable k ≡ true
      → IsFields nums false ms out rest
      → IsFields nums first
          (member k (prefs_value nums m k) ms)
          (separator first ++ 10 ∷ put_prefs nums m k out)
          rest
  unfolding put_prefs
  put_prefs-Fields m first ms k out rest w h more =
      let p = at_key no_prefs (lookup k m) in
      put_prefs_at-IsFields (is_long p) p first ms k out rest refl h
        (at_key-All IsWritablePrefs no_prefs k m no_prefs-IsWritablePrefs w) more
