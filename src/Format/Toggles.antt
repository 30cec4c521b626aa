-- ===== src/Format/Toggles.antt =====
-- `enable_time` and `enable_elapsed` in `parse_format` of src/format.cpp.
use simple_logger.Base.{
  ℕ, if_both, ◌≡◌, refl, ◌∙◌, Bool, true, false, not, ◌&&◌, ◌||◌, List, [], ◌∷◌, ◌++◌, append_assoc,
  append-nil, arith, Bytes, codes, ◌==◌, if◌then◌else◌, Lacks,
}
use simple_logger.Base.Int.{ℤ}
use simple_logger.Format.{
  Token, FormatSpec, Field, field_for, is_literal, flush_literal, push_field, parse_loop, has_token,
  with_toggles, parse_format,
}
use simple_logger.Format.Parse.{any_clock, parse_plain, parse_percent, parse_field}

any_clock-append : (ts us : List Token) → any_clock (ts ++ us) ≡ (any_clock ts || any_clock us)
any_clock-append [] us = refl
any_clock-append (t ∷ ts) us = ground (arith, any_clock-append ts us)

-- The clock is needed exactly when a token is a clock.
abbrev IsExact : FormatSpec → Type 0
IsExact spec = spec.needs_time ≡ any_clock spec.tokens

flush_literal-IsExact :
    (lit : Bytes) (spec : FormatSpec) → IsExact spec → IsExact (flush_literal lit spec)
flush_literal-IsExact [] spec h = h
flush_literal-IsExact (c ∷ s) spec h = rw any_clock-append (ground arith)

push_field-IsExact :
    (c : ℕ) (spec : FormatSpec) → IsExact spec → IsExact (push_field (field_for c) spec)
push_field-IsExact c spec h = rw any_clock-append (ground arith)

-- What `flush_literal` and the pushes of fields keep, the whole loop keeps.
module _ (P : FormatSpec → Type 0)
    (flush : (lit : Bytes) (spec : FormatSpec) → P spec → P (flush_literal lit spec))
    (push : (c : ℕ) (spec : FormatSpec) → P spec → P (push_field (field_for c) spec)) where
  parse_loop_keeps : (p lit : Bytes) (spec : FormatSpec) → P spec → P (parse_loop p lit spec)
  unfolding parse_loop
  parse_loop_keeps [] lit spec h = flush lit spec h
  parse_loop_keeps (c ∷ []) lit spec h = flush (lit ++ c ∷ []) spec h
  parse_loop_keeps (c ∷ d ∷ s) lit spec h =
      if_both P (not (c == b'%')) _ _ (parse_loop_keeps (d ∷ s) (lit ++ c ∷ []) spec h) (
        if_both P (d == b'%') _ _ (parse_loop_keeps s (lit ++ b'%' ∷ []) spec h) (
          if_both P (is_literal (field_for d)) _ _
            (parse_loop_keeps s (lit ++ b'%' ∷ d ∷ []) spec h)
            (parse_loop_keeps s [] (push_field (field_for d) (flush_literal lit spec))
              (push d (flush_literal lit spec) (flush lit spec h)))))

-- The clock stays needed.
abbrev NeedsTime : FormatSpec → Type 0
NeedsTime spec = spec.needs_time ≡ true

flush_literal-NeedsTime :
    (lit : Bytes) (spec : FormatSpec) → NeedsTime spec → NeedsTime (flush_literal lit spec)
flush_literal-NeedsTime [] spec h = h
flush_literal-NeedsTime (c ∷ s) spec h = h

push_field-NeedsTime :
    (c : ℕ) (spec : FormatSpec) → NeedsTime spec → NeedsTime (push_field (field_for c) spec)
push_field-NeedsTime c spec h = ground arith

time_in_front :
    (p : Bytes) (add_elapsed : Bool)
    → has_token b't' p ≡ false
    → with_toggles p true add_elapsed
      ≡ b'%'
        ∷ b't'
        ∷ b' '
        ∷ ((if add_elapsed && not (has_token b'e' p) then codes "%e " else []) ++ p)
unfolding with_toggles
time_in_front p add_elapsed h = rw h refl

-- For every pattern and toggles: the parsed format reads the clock exactly when one of its tokens
-- is a time or an elapsed time; and `enable_time`, on a pattern that does not have the text "%t",
-- makes it read the clock.
pub parse_format-needs_time :
    (p : Bytes) (add_time add_elapsed : Bool) (start : ℤ)
    → ((parse_format p add_time add_elapsed start).needs_time
        ≡ any_clock (parse_format p add_time add_elapsed start).tokens)
      × (has_token b't' p ≡ false → (parse_format p true add_elapsed start).needs_time ≡ true)
unfolding parse_format
parse_format-needs_time p add_time add_elapsed start = (
  parse_loop_keeps IsExact flush_literal-IsExact push_field-IsExact
      (with_toggles p add_time add_elapsed) []
      (record { tokens = []; needs_time = false; start_epoch_ns = start }) refl,
  λ h. rw (time_in_front p add_elapsed h) (
      rw
        (parse_field Field.time _ []
          (record { tokens = []; needs_time = false; start_epoch_ns = start }) refl)
        (parse_loop_keeps NeedsTime flush_literal-NeedsTime push_field-NeedsTime _ [] _ refl)),
)

parse_loop-Lacks :
    (s lit : Bytes) (spec : FormatSpec)
    → Lacks b'%' s
    → parse_loop s lit spec ≡ flush_literal (lit ++ s) spec
parse_loop-Lacks [] lit spec h = unfold parse_loop in rw append-nil
parse_loop-Lacks (c ∷ s) lit spec h =
    parse_plain c s lit spec h.0 ∙ parse_loop-Lacks s (lit ++ c ∷ []) spec h.1 ∙ rw append_assoc

has_escaped : (s : Bytes) → with_toggles (codes "%%t" ++ s) true false ≡ codes "%%t" ++ s
unfolding with_toggles has_token
has_escaped s = refl

-- The search for "%t" also finds it behind an escaped percent sign: on a pattern "%%t…" whose rest
-- has no percent sign, which prints the text "%t…" and no time, `enable_time` adds no time.
pub enable_time_escaped :
    (s : Bytes) (start : ℤ)
    → Lacks b'%' s
    → (parse_format (codes "%%t" ++ s) true false start).needs_time ≡ false
unfolding parse_format
enable_time_escaped s start h =
    rw (has_escaped s, parse_percent (b't' ∷ s) [] _)
      (rw (parse_loop-Lacks (b't' ∷ s) (b'%' ∷ []) _ (omega arith, h)) refl)
