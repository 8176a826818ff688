-- ===== src/Ipc/Codec.antt =====
-- The byte layout of a packed struct (`#pragma pack(push, 1)` in src/shared/RdpIpc.h): its fields
-- in order, each an unsigned little-endian number of some bytes. A layout is the list of the widths.
-- `put_fields` is the bytes that `&s` points at; `get_fields` is `memcpy(&s, bytes, sizeof(s))`.
use hyprv.Prelude.{
  ℕ, zero, suc, ◌+◌, ◌*◌, ◌/◌, ◌%◌, ◌^◌, ◌<◌, ◌≡◌, refl, ap, Option, none, some, List, [], ◌∷◌,
  ◌++◌, arith, ◌>>=◌, length, length-append,
}
use mathlib.Core.List.{append_assoc}
use native.Mathlib.Nat.{pow-suc}

unfoldable pub put_le : ℕ → ℕ → List ℕ
put_le zero n = []
put_le (suc w) n = n % 256 ∷ put_le w (n / 256)

unfoldable pub get_le : ℕ → List ℕ → Option (ℕ × List ℕ)
get_le zero bs = some (0, bs)
get_le (suc w) [] = none
get_le (suc w) (b ∷ bs) = do (n, rest) ← get_le w bs; some (b + 256 * n, rest)

unfoldable pub put_fields : List ℕ → List ℕ → List ℕ
unfolding put_le
put_fields [] vs = []
put_fields (w ∷ ws) [] = put_le w 0 ++ put_fields ws []
put_fields (w ∷ ws) (v ∷ vs) = put_le w v ++ put_fields ws vs

unfoldable pub get_fields : List ℕ → List ℕ → Option (List ℕ × List ℕ)
unfolding get_le
get_fields [] bs = some ([], bs)
get_fields (w ∷ ws) bs = do
  (v, bs') ← get_le w bs
  (vs, rest) ← get_fields ws bs'
  some (v ∷ vs, rest)

-- `sizeof`: a packed struct has no padding.
abbrev pub size_of : List ℕ → ℕ
size_of [] = 0
size_of (w ∷ ws) = w + size_of ws

-- Each value fits its field.
abbrev pub Fits : List ℕ → List ℕ → Type 0
Fits [] [] = Unit {0}
Fits [] (v ∷ vs) = ⊥
Fits (w ∷ ws) [] = ⊥
Fits (w ∷ ws) (v ∷ vs) = (v < 256 ^ w) × Fits ws vs

get_le-put_le :
    (w n : ℕ) (rest : List ℕ) → n < 256 ^ w → get_le w (put_le w n ++ rest) ≡ some (n, rest)
unfolding get_le put_le
get_le-put_le zero n rest h = ap (λ k. some (k, rest)) (omega arith)
get_le-put_le (suc w) n rest h =
    rw (get_le-put_le w (n / 256) rest (omega (arith, pow-suc 256 w)))
      (ap (λ k. some (k, rest)) (omega arith))

length-put_le : (w n : ℕ) → length (put_le w n) ≡ w
unfolding put_le
length-put_le zero n = refl
length-put_le (suc w) n = omega (arith, length-put_le w (n / 256))

pub length-put_fields : (ws vs : List ℕ) → length (put_fields ws vs) ≡ size_of ws
unfolding put_fields
length-put_fields [] vs = refl
length-put_fields (w ∷ ws) [] = omega (
  arith,
  length-append {0} (put_le w 0) (put_fields ws []),
  length-put_le w 0,
  length-put_fields ws [],
)
length-put_fields (w ∷ ws) (v ∷ vs) = omega (
  arith,
  length-append {0} (put_le w v) (put_fields ws vs),
  length-put_le w v,
  length-put_fields ws vs,
)

-- A struct that is copied out of a longer buffer is the one that was written there.
pub get_fields-put_fields :
    (ws vs rest : List ℕ) → Fits ws vs → get_fields ws (put_fields ws vs ++ rest) ≡ some (vs, rest)
unfolding put_fields get_fields
get_fields-put_fields [] [] rest h = refl
get_fields-put_fields [] (v ∷ vs) rest h = absurd h
get_fields-put_fields (w ∷ ws) [] rest h = absurd h
get_fields-put_fields (w ∷ ws) (v ∷ vs) rest h =
    rw (append_assoc, get_le-put_le w v (put_fields ws vs ++ rest) h.0)
      (rw (get_fields-put_fields ws vs rest h.1))
