-- ===== src/Format/Lines.antt =====
-- The newlines of a line that `build_line` of src/format.cpp writes.
use simple_logger.Base.{
  ℕ, suc, ◌-◌, ◌≤◌, ◌<◌, ◌^◌, ◌≡◌, Bool, true, false, List, [], ◌∷◌, ◌++◌, arith, Bytes, codes,
  c_str, All, All-append, All-take, Lacks, lt-cases, inl, inr, lt→ltb, le→ltb, replicate, take,
  length, if_both, append_assoc, zero,
}
use simple_logger.Base.Int.{ℤ, pos, negsuc, eqb_ℤ, quot, rem}
use simple_logger.Text.Decimal.{print_nat, to_string, print_padded}
use simple_logger.Text.Decimal.RoundTrip.{IsDigit, print_nat-IsDigit}
use simple_logger.Format.{
  Field, Token, FormatSpec, Record, TimeText, chunks, color_for, level_chunks, print_time,
  print_elapsed, build_line,
}
use simple_logger.Level.{Level, level_error, level_warning, level_info, level_debug}
use simple_logger.Format.Line.{concat, render, fit, build_line-eq-fit}

abbrev pub newline : ℕ
newline = b'\n'

-- A text with one newline, at its end.
pub record IsOneLine (s : Bytes) : Type 0 where
  pub body : Bytes
  pub whole : s ≡ body ++ newline ∷ []
  pub inside : Lacks newline body

-- The texts that the program hands to a line have no newline in them.
pub record IsClean (tt_ : TimeText) (fs : FormatSpec) (r : Record) : Type 0 where
  pub literals : All (λ (t : Token). Lacks newline t.text) fs.tokens
  pub name : Lacks newline r.level.name
  pub func : Lacks newline r.loc.func
  pub file : Lacks newline r.loc.file
  pub module_name : Lacks newline r.module_name
  pub msg : Lacks newline r.msg
  pub seconds : (n : ℤ) → Lacks newline (tt_.print_seconds n)

c_str-Lacks : (s : Bytes) → Lacks newline s → Lacks newline (c_str s)
unfolding c_str
c_str-Lacks [] h = tt
c_str-Lacks (c ∷ s) h = ground (arith, c_str-Lacks s h.1)

digits-Lacks : (s : Bytes) → All IsDigit s → Lacks newline s
digits-Lacks [] h = tt
digits-Lacks (c ∷ s) h = (ground arith, digits-Lacks s h.1)

to_string-Lacks : (z : ℤ) → Lacks newline (to_string z)
unfolding to_string
to_string-Lacks (pos n) = digits-Lacks (print_nat n) (print_nat-IsDigit n)
to_string-Lacks (negsuc n) =
    (omega arith, digits-Lacks (print_nat (suc n)) (print_nat-IsDigit (suc n)))

zeros-Lacks : (n : ℕ) → Lacks newline (replicate n b'0')
zeros-Lacks zero = tt
zeros-Lacks (suc n) = (omega arith, zeros-Lacks n)

print_padded-Lacks : (w : ℕ) (z : ℤ) → Lacks newline (print_padded w z)
unfolding print_padded
print_padded-Lacks w (pos n) =
    All-append _ (replicate (w - length (print_nat n)) b'0') (print_nat n) (zeros-Lacks _)
      (digits-Lacks (print_nat n) (print_nat-IsDigit n))
print_padded-Lacks w (negsuc n) = (
  omega arith,
  All-append _ (replicate (w - 1 - length (print_nat (suc n))) b'0') (print_nat (suc n))
      (zeros-Lacks _) (digits-Lacks (print_nat (suc n)) (print_nat-IsDigit (suc n))),
)

color_for-Lacks : (v : ℤ) → Lacks newline (color_for v)
unfolding color_for
color_for-Lacks v = if_both (Lacks newline) (eqb_ℤ v level_error) _ _ (omega arith) (
    if_both (Lacks newline) (eqb_ℤ v level_warning) _ _ (omega arith) (
      if_both (Lacks newline) (eqb_ℤ v level_info) _ _ (omega arith)
        (if_both (Lacks newline) (eqb_ℤ v level_debug) _ _ (omega arith) tt)))

concat-Lacks : (ss : List Bytes) → All (Lacks newline) ss → Lacks newline (concat ss)
concat-Lacks [] h = tt
concat-Lacks (s ∷ ss) h = All-append _ s (concat ss) h.0 (concat-Lacks ss h.1)

level_chunks-Lacks :
    (colored : Bool) (l : Level) (col : Bytes)
    → Lacks newline l.name
    → Lacks newline col
    → All (Lacks newline) (level_chunks colored l col)
level_chunks-Lacks colored l [] h k = (c_str-Lacks l.name h, tt)
level_chunks-Lacks true l (c ∷ col) h k = (k, (c_str-Lacks l.name h, (omega arith, tt)))
level_chunks-Lacks false l (c ∷ col) h k = (c_str-Lacks l.name h, tt)

print_time-Lacks : (tt_ : TimeText) (now : ℤ) → Lacks newline (print_time tt_ now)
unfolding print_time
print_time-Lacks tt_ now =
    let tm = tt_.localtime (quot now 1000000000) in
    let hour = print_padded 2 tm.hour in
    let minute = print_padded 2 tm.minute in
    let sec = print_padded 2 tm.sec in
    All-append _ hour _ (print_padded-Lacks 2 tm.hour) (
      omega arith,
      All-append _ minute _ (print_padded-Lacks 2 tm.minute) (
        omega arith,
        All-append _ sec _ (print_padded-Lacks 2 tm.sec)
            (omega arith, print_padded-Lacks 3 (quot (rem now 1000000000) 1000000)),
      ),
    )

print_elapsed-Lacks :
    (tt_ : TimeText) (now start : ℤ)
    → ((n : ℤ) → Lacks newline (tt_.print_seconds n))
    → Lacks newline (print_elapsed tt_ now start)
unfolding print_elapsed
print_elapsed-Lacks tt_ now start h = h _

module _ (tt_ : TimeText) (fs : FormatSpec) (r : Record) (colored : Bool)
    (clean : IsClean tt_ fs r) where
  chunks-Lacks :
      (f : Field) (text : Bytes)
      → Lacks newline text
      → All (Lacks newline) (chunks tt_ fs r colored (record { field = f; text = text }))
  unfolding chunks
  chunks-Lacks Field.literal text h = (h, tt)
  chunks-Lacks Field.level text h =
      level_chunks-Lacks colored r.level (color_for r.level.value) clean.name
        (color_for-Lacks r.level.value)
  chunks-Lacks Field.func text h = (c_str-Lacks r.loc.func clean.func, tt)
  chunks-Lacks Field.msg text h = (clean.msg, tt)
  chunks-Lacks Field.module_name text h = (c_str-Lacks r.module_name clean.module_name, tt)
  chunks-Lacks Field.time text h = (print_time-Lacks tt_ r.now_epoch_ns, tt)
  chunks-Lacks Field.elapsed text h =
      (print_elapsed-Lacks tt_ r.now_epoch_ns fs.start_epoch_ns clean.seconds, tt)
  chunks-Lacks Field.pid text h = (to_string-Lacks r.pid, tt)
  chunks-Lacks Field.tid text h = (to_string-Lacks r.tid, tt)
  chunks-Lacks Field.file text h = (c_str-Lacks r.loc.file clean.file, tt)
  chunks-Lacks Field.line text h = (to_string-Lacks r.loc.line, tt)

  render-Lacks :
      (ts : List Token)
      → All (λ (t : Token). Lacks newline t.text) ts
      → Lacks newline (render tt_ fs r colored ts)
  unfolding render
  render-Lacks [] h = tt
  render-Lacks (t ∷ ts) h =
      All-append _ (concat (chunks tt_ fs r colored t)) (render tt_ fs r colored ts)
        (concat-Lacks (chunks tt_ fs r colored t) (chunks-Lacks t.field t.text h.0))
        (render-Lacks ts h.1)

fit-IsOneLine : (cap : ℕ) (full : Bytes) → Lacks newline full → IsOneLine (fit cap full)
fit-IsOneLine cap full h = elim (lt-cases (cap - 1) (length full)) [
  | inl over ↦ record {
    body = take (cap - 4) full ++ codes "...";
    whole = rw (lt→ltb (cap - 1) (length full) over, append_assoc);
    inside =
        All-append _ (take (cap - 4) full) (codes "...") (All-take _ (cap - 4) full h)
          (omega arith);
  }
  | inr fits ↦ record { body = full; whole = rw (le→ltb (cap - 1) (length full) fits); inside = h }
]

-- If the message, the names and the pattern's literals have no newline in them, nor the printed
-- seconds, then the line has one newline, at its end, also when it was cut.
pub build_line-IsOneLine :
    (tt_ : TimeText) (fs : FormatSpec) (r : Record) (colored : Bool) (cap : ℕ)
    → 4 ≤ cap
    → cap < 2 ^ 64
    → IsClean tt_ fs r
    → IsOneLine (build_line tt_ fs r colored cap)
build_line-IsOneLine tt_ fs r colored cap low high clean =
    rw (build_line-eq-fit cap low high tt_ fs r colored) (
      fit-IsOneLine cap (render tt_ fs r colored fs.tokens)
        (render-Lacks tt_ fs r colored clean fs.tokens clean.literals))
