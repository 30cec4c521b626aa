-- ===== src/Format/Parse.antt =====
-- Patterns that are printed from tokens, for `parse_format` of src/format.cpp.
use simple_logger.Base.{
  ℕ, ◌≡◌, ◌≢◌, refl, sym, ap, ◌∙◌, Bool, true, false, ◌||◌, List, [], ◌∷◌, ◌++◌, append_assoc,
  append-nil, arith, Bytes, ◌==◌, if◌then◌else◌, Bool-cases, inl, inr,
}
use simple_logger.Base.Int.{ℤ}
use simple_logger.Format.{
  Field, Token, FormatSpec, is_literal, is_clock, flush_literal, push_field, parse_loop,
  with_toggles, parse_format,
}

-- The letter of a field; a literal has none.
abbrev pub letter : Field → ℕ
letter Field.literal = 0
letter Field.level = b'L'
letter Field.func = b'f'
letter Field.msg = b'm'
letter Field.module_name = b'M'
letter Field.time = b't'
letter Field.elapsed = b'e'
letter Field.pid = b'p'
letter Field.tid = b'T'
letter Field.file = b'F'
letter Field.line = b'#'

-- A literal with each '%' doubled.
pub escape : Bytes → Bytes
escape [] = []
escape (c ∷ s) = if c == b'%' then b'%' ∷ b'%' ∷ escape s else c ∷ escape s

pub print_tokens : List Token → Bytes
print_tokens [] = []
print_tokens (t ∷ ts) =
    if is_literal t.field
    then escape t.text ++ print_tokens ts
    else b'%' ∷ letter t.field ∷ print_tokens ts

abbrev pub StartsLiteral : List Token → Type 0
StartsLiteral [] = ⊥
StartsLiteral (t ∷ ts) = is_literal t.field ≡ true

-- What the parser can make: a literal has text and is followed by no other literal, and a field
-- has no text.
abbrev pub IsNormal : List Token → Type 0
IsNormal [] = Unit
IsNormal (t ∷ ts) =
    (is_literal t.field ≡ true → (t.text ≢ []) × (¬ StartsLiteral ts))
    × (is_literal t.field ≡ false → t.text ≡ [])
    × IsNormal ts

abbrev pub any_clock : List Token → Bool
any_clock [] = false
any_clock (t ∷ ts) = is_clock t.field || any_clock ts

pub parse_plain :
    (c : ℕ) (s lit : Bytes) (spec : FormatSpec)
    → c ≢ b'%'
    → parse_loop (c ∷ s) lit spec ≡ parse_loop s (lit ++ c ∷ []) spec
unfolding parse_loop
parse_plain c [] lit spec h = refl
parse_plain c (d ∷ s) lit spec h = ground arith

pub parse_percent :
    (s lit : Bytes) (spec : FormatSpec)
    → parse_loop (b'%' ∷ b'%' ∷ s) lit spec ≡ parse_loop s (lit ++ b'%' ∷ []) spec
unfolding parse_loop
parse_percent s lit spec = refl

pub parse_field :
    (f : Field) (s lit : Bytes) (spec : FormatSpec)
    → is_literal f ≡ false
    → parse_loop (b'%' ∷ letter f ∷ s) lit spec
      ≡ parse_loop s [] (push_field f (flush_literal lit spec))
unfolding parse_loop
parse_field Field.literal s lit spec h = cc
parse_field _ s lit spec h = refl

not_percent : (c : ℕ) → (c == b'%') ≡ false → c ≢ b'%'
not_percent c h = ground arith

parse_escape :
    (text rest lit : Bytes) (spec : FormatSpec)
    → parse_loop (escape text ++ rest) lit spec ≡ parse_loop rest (lit ++ text) spec
unfolding escape
parse_escape [] rest lit spec = rw append-nil
parse_escape (c ∷ text) rest lit spec = elim (Bool-cases (c == b'%')) [
  | inl e ↦
      let same : c ≡ b'%' = ground arith in
      rw same (
        parse_percent (escape text ++ rest) lit spec
        ∙ parse_escape text rest (lit ++ b'%' ∷ []) spec
        ∙ rw append_assoc)
  | inr e ↦ rw e (
      parse_plain c (escape text ++ rest) lit spec (not_percent c e)
      ∙ parse_escape text rest (lit ++ c ∷ []) spec
      ∙ rw append_assoc)
]

-- The specification with one more token, and with more tokens.
abbrev push_token : Token → FormatSpec → FormatSpec
push_token t spec = record {
  tokens = spec.tokens ++ t ∷ [];
  needs_time = if is_clock t.field then true else spec.needs_time;
  start_epoch_ns = spec.start_epoch_ns;
}

push_tokens : List Token → FormatSpec → FormatSpec
push_tokens [] spec = spec
push_tokens (t ∷ ts) spec = push_tokens ts (push_token t spec)

push_tokens_lem :
    (ts : List Token) (spec : FormatSpec)
    → push_tokens ts spec ≡ record {
      tokens = spec.tokens ++ ts;
      needs_time = any_clock ts || spec.needs_time;
      start_epoch_ns = spec.start_epoch_ns;
    }
unfolding push_tokens
push_tokens_lem [] spec = ground (arith, append-nil spec.tokens)
push_tokens_lem (t ∷ ts) spec =
    push_tokens_lem ts (push_token t spec) ∙ ground (arith, append_assoc spec.tokens (t ∷ []) ts)

nonliteral_after :
    (t u : Token) (ts : List Token)
    → IsNormal (t ∷ u ∷ ts)
    → is_literal t.field ≡ true
    → is_literal u.field ≡ false
nonliteral_after t u ts n e = elim (Bool-cases (is_literal u.field)) [
  | inl z ↦ absurd ((n.0 e).1 z)
  | inr z ↦ z
]

flush-push_token :
    (f : Field) (s : Bytes) (spec : FormatSpec)
    → is_literal f ≡ true
    → s ≢ []
    → flush_literal s spec ≡ push_token (record { field = f; text = s }) spec
flush-push_token Field.literal [] spec h k = absurd (k refl)
flush-push_token Field.literal (c ∷ s) spec h k = refl
flush-push_token _ s spec h k = cc

parse-literal :
    (t : Token) (ts : List Token) (spec : FormatSpec)
    → is_literal t.field ≡ true
    → parse_loop (print_tokens (t ∷ ts)) [] spec ≡ parse_loop (print_tokens ts) t.text spec
unfolding print_tokens
parse-literal t ts spec h = rw h (parse_escape t.text (print_tokens ts) [] spec)

parse-nonliteral :
    (t : Token) (ts : List Token) (lit : Bytes) (spec : FormatSpec)
    → is_literal t.field ≡ false
    → t.text ≡ []
    → parse_loop (print_tokens (t ∷ ts)) lit spec
      ≡ parse_loop (print_tokens ts) [] (push_token t (flush_literal lit spec))
unfolding print_tokens
parse-nonliteral t ts lit spec h e = rw h (
    parse_field t.field (print_tokens ts) lit spec h
    ∙ ap
        (λ s.
          parse_loop (print_tokens ts) []
            (push_token (record { field = t.field; text = s }) (flush_literal lit spec)))
        (sym e))

parse-print_tokens :
    (ts : List Token) (spec : FormatSpec)
    → IsNormal ts
    → parse_loop (print_tokens ts) [] spec ≡ push_tokens ts spec
unfolding push_tokens
parse-print_tokens [] spec n = unfold parse_loop print_tokens in refl
parse-print_tokens (t ∷ []) spec n = elim (Bool-cases (is_literal t.field)) [
  | inl e ↦
      parse-literal t [] spec e
      ∙ (unfold parse_loop print_tokens in flush-push_token t.field t.text spec e (n.0 e).0)
  | inr e ↦ parse-nonliteral t [] [] spec e (n.1 e) ∙ (unfold parse_loop print_tokens in refl)
]
parse-print_tokens (t ∷ u ∷ ts) spec n = elim (Bool-cases (is_literal t.field)) [
  | inl e ↦
      let field_next = nonliteral_after t u ts n e in
      parse-literal t (u ∷ ts) spec e
      ∙ parse-nonliteral u ts t.text spec field_next (n.2.1 field_next)
      ∙ ap (λ s. parse_loop (print_tokens ts) [] (push_token u s))
          (flush-push_token t.field t.text spec e (n.0 e).0)
      ∙ parse-print_tokens ts (push_token u (push_token t spec)) n.2.2
  | inr e ↦
      parse-nonliteral t (u ∷ ts) [] spec e (n.1 e)
      ∙ parse-print_tokens (u ∷ ts) (push_token t spec) n.2
]

-- A pattern printed from a normal token list parses into that list; the clock is needed exactly
-- when a token is a time or an elapsed time.
pub parse_format-print_tokens :
    (ts : List Token) (start : ℤ)
    → IsNormal ts
    → parse_format (print_tokens ts) false false start
      ≡ record { tokens = ts; needs_time = any_clock ts; start_epoch_ns = start }
unfolding parse_format with_toggles
parse_format-print_tokens ts start n =
    parse-print_tokens ts _ n ∙ push_tokens_lem ts _ ∙ ground arith
