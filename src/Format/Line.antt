-- ===== src/Format/Line.antt =====
-- `build_line` against a plain definition: write everything, then cut the line to fit.
use simple_logger.Base.{
  ℕ, ◌+◌, ◌-◌, ◌^◌, ◌≤◌, ◌<◌, ◌≡◌, refl, ap, sym, ◌∙◌, Bool, true, false, List, [], ◌∷◌, ◌++◌,
  append_assoc, append-nil, arith, Bytes, codes, ltb, if◌then◌else◌, take, length, length-append,
  length-take, take-append_left, take-append_right, take-take, inl, inr, lt→ltb, le→ltb, lt-cases,
}
use simple_logger.Format.{
  FormatSpec, Record, Token, TimeText, chunks, size_sub, Buffer, put, put_all, put_tokens, finish,
  build_line,
}

-- The texts one after another.
abbrev pub concat : List Bytes → Bytes
concat [] = []
concat (s ∷ ss) = s ++ concat ss

-- All that the tokens of a line stand for.
unfoldable pub render : TimeText → FormatSpec → Record → Bool → List Token → Bytes
render tt_ fs r colored [] = []
render tt_ fs r colored (t ∷ ts) = concat (chunks tt_ fs r colored t) ++ render tt_ fs r colored ts

-- A text and a newline in `cap` bytes: the whole text if it fits, and else its start and a marker.
abbrev pub fit : ℕ → Bytes → Bytes
fit cap full =
    if ltb (cap - 1) (length full) then take (cap - 4) full ++ codes "...\n" else full ++ b'\n' ∷ []

-- The buffer after `full` was put into an empty one.
abbrev filled : ℕ → Bytes → Buffer
filled cap full =
    if ltb (cap - 1) (length full)
    then record { out = take (cap - 1) full; trunc = true }
    else record { out = full; trunc = false }

module _ (cap : ℕ) (low : 4 ≤ cap) (high : cap < 2 ^ 64) where
  one_less : size_sub cap 1 ≡ cap - 1
  one_less = omega arith

  four_less : size_sub cap 4 ≡ cap - 4
  four_less = omega arith

  room : (n : ℕ) → n ≤ cap - 1 → size_sub (size_sub cap 1) n ≡ cap - 1 - n
  room n h = omega arith

  put_fits :
      (out s : Bytes)
      → length out + length s ≤ cap - 1
      → put cap s (record { out = out; trunc = false }) ≡ record { out = out ++ s; trunc = false }
  unfolding put
  put_fits out s h = rw (le→ltb (size_sub cap 1) (length out + length s) (rw one_less h))

  put_cuts :
      (out s : Bytes)
      → length out ≤ cap - 1
      → cap - 1 < length out + length s
      → put cap s (record { out = out; trunc = false })
        ≡ record { out = out ++ take (cap - 1 - length out) s; trunc = true }
  unfolding put
  put_cuts out s h k =
      rw (lt→ltb (size_sub cap 1) (length out + length s) (rw one_less k), room (length out) h)

  filled_over :
      (full : Bytes)
      → cap - 1 < length full
      → filled cap full ≡ record { out = take (cap - 1) full; trunc = true }
  filled_over full h = rw (lt→ltb _ _ h)

  filled_fits :
      (full : Bytes)
      → length full ≤ cap - 1
      → filled cap full ≡ record { out = full; trunc = false }
  filled_fits full h = rw (le→ltb _ _ h)

  put-filled : (full s : Bytes) → put cap s (filled cap full) ≡ filled cap (full ++ s)
  put-filled full s = elim (lt-cases (cap - 1) (length full)) [
    | inl over ↦
        rw
          (
            filled_over full over,
            filled_over (full ++ s) (omega (arith, length-append full s)),
            take-append_left (cap - 1) full s (omega arith),
          )
          (unfold put in refl)
    | inr fits ↦ elim (lt-cases (cap - 1) (length full + length s)) [
      | inl over ↦ rw (
        filled_fits full fits,
        put_cuts full s fits over,
        filled_over (full ++ s) (omega (arith, length-append full s)),
        take-append_right (cap - 1) full s fits,
      )
      | inr more ↦ rw (
        filled_fits full fits,
        put_fits full s more,
        filled_fits (full ++ s) (omega (arith, length-append full s)),
      )
    ]
  ]

  put_all-filled :
      (ss : List Bytes) (full : Bytes)
      → put_all cap ss (filled cap full) ≡ filled cap (full ++ concat ss)
  unfolding put_all
  put_all-filled [] full = rw append-nil
  put_all-filled (s ∷ ss) full =
      rw (put-filled full s) (put_all-filled ss (full ++ s) ∙ rw append_assoc)

  put_tokens-filled :
      (tt_ : TimeText) (fs : FormatSpec) (r : Record) (colored : Bool) (ts : List Token)
      (full : Bytes)
      → put_tokens tt_ cap fs r colored ts (filled cap full)
        ≡ filled cap (full ++ render tt_ fs r colored ts)
  unfolding put_tokens render
  put_tokens-filled tt_ fs r colored [] full = rw append-nil
  put_tokens-filled tt_ fs r colored (t ∷ ts) full =
      rw (put_all-filled (chunks tt_ fs r colored t) full)
        (put_tokens-filled tt_ fs r colored ts _ ∙ rw append_assoc)

  finish_fits : (full : Bytes) → length full ≤ cap - 1 → finish cap (filled cap full) ≡ fit cap full
  unfolding finish
  finish_fits full h = rw (filled_fits full h, le→ltb _ _ h)

  finish_cut :
      (out : Bytes)
      → length out ≡ cap - 1
      → finish cap (record { out = out; trunc = true }) ≡ take (cap - 4) out ++ codes "...\n"
  unfolding finish
  finish_cut out h =
      rw (lt→ltb (size_sub cap 4) (length out) (rw (four_less, h) (omega arith)), four_less)

  finish_over : (full : Bytes) → cap - 1 < length full → finish cap (filled cap full) ≡ fit cap full
  finish_over full h = rw (
    filled_over full h,
    finish_cut (take (cap - 1) full) (rw length-take (omega arith)),
    take-take (cap - 4) (cap - 1) full (omega arith),
    lt→ltb (cap - 1) (length full) h,
  )

  finish-filled : (full : Bytes) → finish cap (filled cap full) ≡ fit cap full
  finish-filled full = elim (lt-cases (cap - 1) (length full)) [
    | inl over ↦ finish_over full over
    | inr fits ↦ finish_fits full fits
  ]

  -- For a buffer of at least four bytes, the line is all of the text and a newline if that fits.
  -- If not, it is the first `cap - 4` bytes of the text, the marker "..." and a newline.
  pub build_line-eq-fit :
      (tt_ : TimeText) (fs : FormatSpec) (r : Record) (colored : Bool)
      → build_line tt_ fs r colored cap ≡ fit cap (render tt_ fs r colored fs.tokens)
  unfolding build_line
  build_line-eq-fit tt_ fs r colored =
      ap (λ b. finish cap (put_tokens tt_ cap fs r colored fs.tokens b))
        (sym (filled_fits [] (omega arith)))
      ∙ ap (finish cap) (put_tokens-filled tt_ fs r colored fs.tokens [])
      ∙ finish-filled (render tt_ fs r colored fs.tokens)

  fit-length : (full : Bytes) → length (fit cap full) ≤ cap
  fit-length full = elim (lt-cases (cap - 1) (length full)) [
    | inl over ↦ rw (lt→ltb (cap - 1) (length full) over) (
        omega
          (arith, length-append (take (cap - 4) full) (codes "...\n"), length-take (cap - 4) full))
    | inr fits ↦
        rw (le→ltb (cap - 1) (length full) fits) (omega (arith, length-append full (b'\n' ∷ [])))
  ]

  -- No line is longer than its buffer.
  pub length-build_line :
      (tt_ : TimeText) (fs : FormatSpec) (r : Record) (colored : Bool)
      → length (build_line tt_ fs r colored cap) ≤ cap
  length-build_line tt_ fs r colored =
      rw (build_line-eq-fit tt_ fs r colored) (fit-length (render tt_ fs r colored fs.tokens))
