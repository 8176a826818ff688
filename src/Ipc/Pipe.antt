-- ===== src/Ipc/Pipe.antt =====
-- Reading from the pipe: `ReadExact`, the same loop in src/rdphost/IpcClient.cpp and in
-- src/app/rdp/RdpHostClient.cpp. The pipe is the operating system's, a parameter: `pending` is the
-- bytes that the other end has put in and this end has not taken, and `read p n` is `OverlappedRead`
-- of at most `n` bytes, `none` where it returns false.
use hyprv.Prelude.{
  ℕ, zero, suc, ◌-◌, ◌<◌, ◌≤◌, ◌≡◌, refl, sym, ap, ◌∙◌, inl, inr, true, false, Option, none, some,
  List, [], ◌∷◌, ◌++◌, arith, length, length-append, take, drop, is_empty, take-append_le,
  drop-append_le, Option-cases,
}
use mathlib.Core.List.{append_assoc, append-nil}

-- A byte-mode pipe may hand over any part of what is there, in order. It hands over something
-- while bytes are pending.
pub record PipeReader : Type 1 where
  pub Pipe : Type 0
  pub pending : Pipe → List ℕ
  pub read : Pipe → ℕ → Option (List ℕ × Pipe)
  pub read_splits :
      (p : Pipe) (n : ℕ) (bs : List ℕ) (p' : Pipe)
      → read p n ≡ some (bs, p')
      → (pending p ≡ bs ++ pending p') × (length bs ≤ n)
  pub read_progress :
      (p : Pipe) (n : ℕ)
      → 0 < n
      → 0 < length (pending p)
      → (bs : List ℕ) × (p' : Pipe) × (read p n ≡ some (bs, p')) × (0 < length bs)

is_empty-false : (xs : List ℕ) → 0 < length xs → is_empty xs ≡ false
is_empty-false [] h = absurd (omega arith)
is_empty-false (x ∷ xs) h = refl

module _ (io : PipeReader) where
  open io use {Pipe, pending, read, read_splits, read_progress}

  -- The `while (remaining > 0)` loop. A round that does not return takes a byte at least, so
  -- `remaining` rounds are enough.
  read_loop : ℕ → ℕ → List ℕ → Pipe → Option (List ℕ × Pipe)
  read_loop fuel zero buf p = some (buf, p)
  read_loop zero (suc n) buf p = none
  read_loop (suc fuel) (suc n) buf p = elim (read p (suc n)) [
    | none ↦ none
    | some (got, p') ↦ elim (is_empty got) [
      | true ↦ none
      | false ↦ read_loop fuel (suc n - length got) (buf ++ got) p'
    ]
  ]

  unfoldable pub read_exact : ℕ → Pipe → Option (List ℕ × Pipe)
  unfolding read_loop
  read_exact n p = read_loop n n [] p

  read_loop_step :
      (fuel n : ℕ) (buf got : List ℕ) (p p' : Pipe)
      → read p (suc n) ≡ some (got, p')
      → is_empty got ≡ false
      → read_loop (suc fuel) (suc n) buf p ≡ read_loop fuel (suc n - length got) (buf ++ got) p'
  unfolding read_loop
  read_loop_step fuel n buf got p p' e f = rw (e, read_loop) (rw f)

  -- What a successful read of `n` bytes is.
  abbrev pub Reads : ℕ → Pipe → Option (List ℕ × Pipe) → Type 0
  Reads n p r =
      (p' : Pipe) × (r ≡ some (take n (pending p), p')) × (pending p' ≡ drop n (pending p))

  abbrev Full : ℕ → ℕ → List ℕ → Pipe → Type 0
  Full fuel n buf p =
      (p' : Pipe) × (read_loop fuel n buf p ≡ some (buf ++ take n (pending p), p'))
      × (pending p' ≡ drop n (pending p))

  Full-step :
      (fuel n : ℕ) (buf got : List ℕ) (p p' : Pipe)
      → read p (suc n) ≡ some (got, p')
      → 0 < length got
      → (pending p ≡ got ++ pending p') × (length got ≤ suc n)
      → Full fuel (suc n - length got) (buf ++ got) p'
      → Full (suc fuel) (suc n) buf p
  Full-step fuel n buf got p p' e pos (split, bounded) (p'', again, rest) = (
    p'',
    read_loop_step fuel n buf got p p' e (is_empty-false got pos)
        ∙ again
        ∙ ap (λ b. some (b, p''))
            (append_assoc buf got (take (suc n - length got) (pending p'))
              ∙ ap (◌++◌ buf) (
                  sym (ap (take (suc n)) split ∙ take-append_le (suc n) got (pending p') bounded))),
    rest ∙ sym (ap (drop (suc n)) split ∙ drop-append_le (suc n) got (pending p') bounded),
  )

  read_loop-Full :
      (fuel n : ℕ) (buf : List ℕ) (p : Pipe) → n ≤ fuel → n ≤ length (pending p) → Full fuel n buf p
  unfolding read_loop
  read_loop-Full fuel zero buf p f h = (p, ap (λ b. some (b, p)) (sym (append-nil buf)), refl)
  read_loop-Full zero (suc n) buf p f h = absurd (omega arith)
  read_loop-Full (suc fuel) (suc n) buf p f h =
      let (got, p', e, some_got) = read_progress p (suc n) (omega arith) (omega arith) in
      let (split, bounded) = read_splits p (suc n) got p' e in
      let total = ap length split ∙ length-append got (pending p') in
      Full-step fuel n buf got p p' e some_got (split, bounded)
        (read_loop-Full fuel (suc n - length got) (buf ++ got) p' (omega arith) (omega arith))

  read_loop_next_short :
      (fuel n : ℕ) (buf got : List ℕ) (p p' : Pipe)
      → read p (suc n) ≡ some (got, p')
      → read_loop fuel (suc n - length got) (buf ++ got) p' ≡ none
      → read_loop (suc fuel) (suc n) buf p ≡ none
  unfolding read_loop
  read_loop_next_short fuel n buf [] p p' e ih = rw (e, read_loop)
  read_loop_next_short fuel n buf (b ∷ got) p p' e ih = rw (e, read_loop) ih

  read_loop_short :
      (fuel n : ℕ) (buf : List ℕ) (p : Pipe)
      → length (pending p) < n
      → read_loop fuel n buf p ≡ none
  unfolding read_loop
  read_loop_short fuel zero buf p h = absurd (omega arith)
  read_loop_short zero (suc n) buf p h = refl
  read_loop_short (suc fuel) (suc n) buf p h = elim (Option-cases (read p (suc n))) [
    | inl e ↦ rw (e, read_loop)
    | inr ((got, p'), e) ↦
        let (split, bounded) = read_splits p (suc n) got p' e in
        let total = ap length split ∙ length-append got (pending p') in
        read_loop_next_short fuel n buf got p p' e
          (read_loop_short fuel (suc n - length got) (buf ++ got) p' (omega arith))
  ]

  -- However the pipe cuts the bytes up, a read of `n` bytes returns the next `n` pending bytes if
  -- there are so many, and leaves the others.
  pub read_exact_full : (n : ℕ) (p : Pipe) → n ≤ length (pending p) → Reads n p (read_exact n p)
  unfolding read_exact
  read_exact_full n p h = read_loop-Full n n [] p (omega arith) h

  -- A read of more bytes than are pending fails.
  pub read_exact_short : (n : ℕ) (p : Pipe) → length (pending p) < n → read_exact n p ≡ none
  unfolding read_exact
  read_exact_short n p h = read_loop_short n n [] p h
