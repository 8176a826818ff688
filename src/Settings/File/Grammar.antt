-- ===== src/Settings/File/Grammar.antt =====
-- The grammar of JSON texts (RFC 8259), as far as the file uses it: which texts stand for which tree.
-- A derivation reads a value off the front of a text and leaves a rest.
use hyprv.Prelude.{
  ℕ, ◌≡◌, Bool, true, false, ◌&&◌, ◌||◌, [], ◌∷◌, ◌++◌, ◌==◌, leb, if◌then◌else◌, arith,
}
use hyprv.Prelude.Text.{Text, codes}

module _ (Double : Type 0) where
  mutual
    pub data Json : Type 0 where
      bool : Bool → Json
      number : Double → Json
      string : Text → Json
      array : Items → Json
      object : Members → Json

    pub data Items : Type 0 where
      no_items : Items
      item : Json → Items → Items

    pub data Members : Type 0 where
      no_members : Members
      member : Text → Json → Members → Members

abbrev pub is_space : ℕ → Bool
is_space c = c == 32 || c == 10 || c == 13 || c == 9

abbrev pub all_space : Text → Bool
all_space [] = true
all_space (c ∷ cs) = is_space c && all_space cs

-- A character that stands for itself in a string.
abbrev pub is_plain : ℕ → Bool
is_plain c = leb 32 c && (if c == 34 then false else if c == 92 then false else true)

abbrev pub all_plain : Text → Bool
all_plain [] = true
all_plain (c ∷ cs) = is_plain c && all_plain cs

-- The letter behind a backslash, and the character that the two stand for.
pub data Escape : ℕ → ℕ → Type 0 where
  quote : Escape 34 34
  backslash : Escape 92 92
  newline : Escape 110 10
  return : Escape 114 13
  tab : Escape 116 9

abbrev pub separator : Bool → Text
separator true = []
separator false = 44 ∷ []

module _ (Double : Type 0) (IsNumeral : Text → Double → Type 0) where
  -- A string behind its opening quote.
  pub data Chars : Text → Text → Text → Type 0 where
    closing : {rest : Text} → Chars [] (34 ∷ rest) rest
    plain :
        {c : ℕ} {s t rest : Text} → is_plain c ≡ true → Chars s t rest → Chars (c ∷ s) (c ∷ t) rest
    escaped :
        {e c : ℕ} {s t rest : Text} → Escape e c → Chars s t rest → Chars (c ∷ s) (92 ∷ e ∷ t) rest

  mutual
    pub data Value : Json Double → Text → Text → Type 0 where
      spaced :
          {j : Json Double} {t rest : Text} (w : Text)
          → all_space w ≡ true
          → Value j t rest
          → Value j (w ++ t) rest
      true' : {rest : Text} → Value (bool true) (codes "true" ++ rest) rest
      false' : {rest : Text} → Value (bool false) (codes "false" ++ rest) rest
      numeral :
          {d : Double} {rest : Text} (w : Text) → IsNumeral w d → Value (number d) (w ++ rest) rest
      quoted : {s t rest : Text} → Chars s t rest → Value (string s) (34 ∷ t) rest
      listed :
          {js : Items Double} {t rest : Text}
          → Elements true js t rest
          → Value (array js) (91 ∷ t) rest
      braced :
          {ms : Members Double} {t rest : Text}
          → Fields true ms t rest
          → Value (object ms) (123 ∷ t) rest

    pub data Elements : Bool → Items Double → Text → Text → Type 0 where
      end_array :
          {first : Bool} {rest : Text} (w : Text)
          → all_space w ≡ true
          → Elements first no_items (w ++ 93 ∷ rest) rest
      element :
          {first : Bool} {j : Json Double} {js : Items Double} {t t' rest : Text}
          → Value j t t'
          → Elements false js t' rest
          → Elements first (item j js) (separator first ++ t) rest

    pub data Fields : Bool → Members Double → Text → Text → Type 0 where
      end_object :
          {first : Bool} {rest : Text} (w : Text)
          → all_space w ≡ true
          → Fields first no_members (w ++ 125 ∷ rest) rest
      field :
          {first : Bool} {k : Text} {j : Json Double} {ms : Members Double} {t t' t'' rest : Text}
          (w : Text)
          → all_space w ≡ true
          → Chars k t (58 ∷ t')
          → Value j t' t''
          → Fields false ms t'' rest
          → Fields first (member k j ms) (separator first ++ (w ++ 34 ∷ t)) rest

  -- A whole text: a value, and spaces behind it.
  pub record IsText (j : Json Double) (t : Text) : Type 0 where
    pub end : Text
    pub end_space : all_space end ≡ true
    pub value : Value j t end

  pub plain_chars : (k rest : Text) → all_plain k ≡ true → Chars k (k ++ 34 ∷ rest) rest
  plain_chars [] rest h = closing
  plain_chars (c ∷ k) rest h = plain (ground arith) (plain_chars k rest (ground arith))
