-- ===== src/Vm/Interval/RoundTrip.antt =====
-- A number of seconds comes back from the interval that it is written as.
use hyprv.Prelude.{
  ℕ, zero, suc, ◌+◌, ◌*◌, ◌/◌, ◌%◌, ◌^◌, ◌≤◌, ◌<◌, ◌≡◌, refl, sym, ap, ◌∙◌, [], ◌∷◌, ◌++◌, ltb,
  length, length-append, take_prefix, drop_prefix, false, arith,
}
use native.Mathlib.Nat.{pow-suc, mul_assoc}
use mathlib.Core.List.{append_assoc}
use hyprv.Prelude.Text.{Text, codes}
use hyprv.Vm.Interval.{padded, seconds_to_cim_interval, num, field_at, cim_interval_to_seconds}

below_pow : (w n : ℕ) → n < 10 ^ suc w → n / 10 < 10 ^ w
below_pow w n h = let e = pow-suc 10 w in omega arith

padded-append : (w n : ℕ) (xs ys : Text) → n < 10 ^ w → padded w n (xs ++ ys) ≡ padded w n xs ++ ys
unfolding padded
padded-append zero zero xs ys h = refl
padded-append zero (suc n) xs ys h = absurd (omega arith)
padded-append (suc w) n xs ys h = padded-append w (n / 10) ((48 + n % 10) ∷ xs) ys (below_pow w n h)

-- A number of at most `w` digits takes `w` places.
length-padded : (w n : ℕ) (rest : Text) → n < 10 ^ w → length (padded w n rest) ≡ w + length rest
unfolding padded
length-padded zero zero rest h = omega arith
length-padded zero (suc n) rest h = absurd (omega arith)
length-padded (suc w) n rest h =
    length-padded w (n / 10) ((48 + n % 10) ∷ rest) (below_pow w n h) ∙ (omega arith)

num_digit : (v d : ℕ) (rest : Text) → d < 10 → num v ((48 + d) ∷ rest) ≡ num (v * 10 + d) rest
unfolding num
num_digit v d rest h = ground arith

num-padded :
    (w n v : ℕ) (rest : Text) → n < 10 ^ w → num v (padded w n rest) ≡ num (v * 10 ^ w + n) rest
unfolding padded
num-padded zero zero v rest h = ap (λ k. num k rest) (omega arith)
num-padded zero (suc n) v rest h = absurd (omega arith)
num-padded (suc w) n v rest h =
    num-padded w (n / 10) v ((48 + n % 10) ∷ rest) (below_pow w n h)
    ∙ num_digit (v * 10 ^ w + n / 10) (n % 10) rest (omega arith)
    ∙ ap (λ k. num k rest)
        (let e = pow-suc 10 w in let f = mul_assoc v (10 ^ w) 10 in rw e (omega arith))

num-padded_end : (w n : ℕ) → n < 10 ^ w → num 0 (padded w n []) ≡ n
unfolding num
num-padded_end w n h = num-padded w n 0 [] h ∙ (omega arith)

module _ (w n off : ℕ) (text before rest : Text) (h : n < 10 ^ w) (e : length before ≡ off)
    (p : text ≡ before ++ padded w n rest) where
  -- The field that starts behind `before`.
  field-padded : field_at text off w ≡ n
  field-padded =
      let length_eq : length (padded w n []) ≡ w = length-padded w n [] h ∙ (omega arith) in
      rw (drop_prefix before (padded w n rest) e p) (
        rw (take_prefix (padded w n []) rest length_eq (padded-append w n [] rest h))
          (num-padded_end w n h))

  -- What is behind the field.
  past_field : text ≡ (before ++ padded w n []) ++ rest
  past_field =
      p
      ∙ ap (◌++◌ before) (padded-append w n [] rest h)
      ∙ sym (append_assoc before (padded w n []) rest)

  length_past : length (before ++ padded w n []) ≡ off + w
  length_past = omega (arith, length-append before (padded w n []), length-padded w n [] h)

not_short : (n : ℕ) → 14 ≤ n → ltb n 14 ≡ false
not_short n h = ground arith

-- The four fields of a text, read back.
read_of :
    (d h m s : ℕ) (tail : Text) (total : ℕ)
    → d < 10 ^ 8
    → h < 10 ^ 2
    → m < 10 ^ 2
    → s < 10 ^ 2
    → total ≡ d * 86400 + h * 3600 + m * 60 + s
    → total < 2 ^ 32
    → cim_interval_to_seconds (padded 8 d (padded 2 h (padded 2 m (padded 2 s tail)))) ≡ total
unfolding cim_interval_to_seconds
read_of d h m s tail total dl hl ml sl e small =
    let r3 = padded 2 s tail in
    let r2 = padded 2 m r3 in
    let r1 = padded 2 h r2 in
    let text = padded 8 d r1 in
    let p0 : text ≡ [] ++ padded 8 d r1 = refl in
    let p1 = past_field 8 d 0 text [] r1 dl refl p0 in
    let l1 = length_past 8 d 0 text [] r1 dl refl p0 in
    let p2 = past_field 2 h 8 text (padded 8 d []) r2 hl l1 p1 in
    let l2 = length_past 2 h 8 text (padded 8 d []) r2 hl l1 p1 in
    let p3 = past_field 2 m 10 text (padded 8 d [] ++ padded 2 h []) r3 ml l2 p2 in
    let l3 = length_past 2 m 10 text (padded 8 d [] ++ padded 2 h []) r3 ml l2 p2 in
    let b3 : Text = (padded 8 d [] ++ padded 2 h []) ++ padded 2 m [] in
    let f0 = field-padded 8 d 0 text [] r1 dl refl p0 in
    let f1 = field-padded 2 h 8 text (padded 8 d []) r2 hl l1 p1 in
    let f2 = field-padded 2 m 10 text (padded 8 d [] ++ padded 2 h []) r3 ml l2 p2 in
    let f3 = field-padded 2 s 12 text b3 tail sl l3 p3 in
    let p4 = past_field 2 s 12 text b3 tail sl l3 p3 in
    let l4 = length_past 2 s 12 text b3 tail sl l3 p3 in
    let long : length text ≡ 14 + length tail =
      ap length p4 ∙ length-append (b3 ++ padded 2 s []) tail ∙ (omega arith) in
    let wide : ltb (length text) 14 ≡ false = not_short (length text) (omega arith) in
    rw (wide, f0, f1, f2, f3) (omega arith)

-- Every number of seconds of an `uint32_t` comes back from the interval that it is written as.
pub cim_interval_to_seconds-seconds_to_cim_interval :
    (total : ℕ) → total < 2 ^ 32 → cim_interval_to_seconds (seconds_to_cim_interval total) ≡ total
unfolding cim_interval_to_seconds seconds_to_cim_interval
cim_interval_to_seconds-seconds_to_cim_interval total small =
    let dd : ℕ = total / 86400 in
    let hh : ℕ = total % 86400 / 3600 in
    let mm : ℕ = total % 86400 % 3600 / 60 in
    let ss : ℕ = total % 86400 % 3600 % 60 in
    read_of dd hh mm ss (codes ".000000:000") total (omega arith) (omega arith) (omega arith)
      (omega arith) (omega arith) small
