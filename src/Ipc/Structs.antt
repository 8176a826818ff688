-- ===== src/Ipc/Structs.antt =====
-- Writing a struct of src/shared/RdpIpc.h to a buffer and reading it back.
use hyprv.Prelude.{ℕ, ◌≡◌, ap, Option, some, List, ◌++◌, ◌>>=◌, length}
use hyprv.Prelude.{drop, drop-append}
use hyprv.Ipc.Codec.{
  size_of, Fits, put_fields, get_fields, length-put_fields, get_fields-put_fields,
}
use hyprv.Ipc.Header.{Layout}

module _ {ℓ} {A : Type ℓ} ⦃l : Layout A⦄ where
  -- The bytes at `&s`.
  unfoldable pub encode : A → List ℕ
  encode s = put_fields l.widths (l.fields s)

  -- `memcpy(&s, bytes, sizeof(s))`; `none` where the buffer is shorter than the struct.
  unfoldable pub decode : List ℕ → Option A
  decode bs = do (vs, _) ← get_fields l.widths bs; some (l.of_fields vs)

  -- Every field's value is in the range of its type.
  abbrev pub InRange : A → Type 0
  InRange s = Fits l.widths (l.fields s)

  pub length-encode : (s : A) → length (encode s) ≡ size_of l.widths
  unfolding encode
  length-encode s = length-put_fields l.widths (l.fields s)

  -- A struct copied out of a buffer that begins with its bytes is the struct that was written, if
  -- each field's value is in the range of its type.
  pub decode-encode : (s : A) (rest : List ℕ) → InRange s → decode (encode s ++ rest) ≡ some s
  unfolding encode decode
  decode-encode s rest h =
      rw (get_fields-put_fields l.widths (l.fields s) rest h) (ap some (l.of_fields-fields s))

  -- What follows the struct in the buffer.
  pub drop-encode :
      (n : ℕ) (s : A) (rest : List ℕ) → n ≡ size_of l.widths → drop n (encode s ++ rest) ≡ rest
  drop-encode n s rest h = rw (h, ← length-encode s) (drop-append (encode s) rest)
