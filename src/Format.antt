-- ===== src/Format.antt =====
-- src/format.cpp: the prefix pattern, parsed into tokens, and the line that a record is written as.
-- The tokens and the record are those of src/internal.h.
pub mod Parse
pub mod Toggles
pub mod Line
pub mod Lines
use simple_logger.Base.{
  ℕ, ◌+◌, ◌-◌, ◌%◌, ◌^◌, Bool, true, false, not, ◌&&◌, ◌||◌, List, [], ◌∷◌, ◌++◌, Bytes, codes,
  c_str, ltb, ◌==◌, if◌then◌else◌, take, length,
}
use simple_logger.Base.Int.{ℤ, pos, ◌-ℤ◌, ltb_ℤ, eqb_ℤ, quot, rem}
use simple_logger.Text.Decimal.{to_string, print_padded}
use simple_logger.Level.{Level, level_error, level_warning, level_info, level_debug}

pub data Field : Type 0 where
  literal level func msg module_name time elapsed pid tid file line : Field

pub record Token : Type 0 where
  pub field : Field
  pub text : Bytes

pub record FormatSpec : Type 0 where
  pub tokens : List Token
  pub needs_time : Bool
  pub start_epoch_ns : ℤ

unfoldable pub field_for : ℕ → Field
field_for c =
    if c == b'L'
    then Field.level
    else if c == b'f'
    then Field.func
    else if c == b'm'
    then Field.msg
    else if c == b'M'
    then Field.module_name
    else if c == b't'
    then Field.time
    else if c == b'e'
    then Field.elapsed
    else if c == b'p'
    then Field.pid
    else if c == b'T'
    then Field.tid
    else if c == b'F'
    then Field.file
    else if c == b'#'
    then Field.line
    else Field.literal

abbrev pub is_literal : Field → Bool
is_literal Field.literal = true
is_literal _ = false

abbrev pub is_clock : Field → Bool
is_clock Field.time = true
is_clock Field.elapsed = true
is_clock _ = false

-- `flush_literal`
abbrev pub flush_literal : Bytes → FormatSpec → FormatSpec
flush_literal [] spec = spec
flush_literal (c ∷ s) spec = record spec {
  tokens = spec.tokens ++ record { field = Field.literal; text = c ∷ s } ∷ [];
}

abbrev pub push_field : Field → FormatSpec → FormatSpec
push_field f spec = record spec {
  tokens = spec.tokens ++ record { field = f; text = [] } ∷ [];
  needs_time = if is_clock f then true else spec.needs_time;
}

-- The loop of `parse_format`, over what is left of the pattern and the literal so far.
unfoldable pub parse_loop : Bytes → Bytes → FormatSpec → FormatSpec
unfolding field_for
parse_loop [] lit spec = flush_literal lit spec
parse_loop (c ∷ []) lit spec = flush_literal (lit ++ c ∷ []) spec
parse_loop (c ∷ next ∷ s) lit spec =
    let plain = parse_loop (next ∷ s) (lit ++ c ∷ []) spec in
    let percent = parse_loop s (lit ++ b'%' ∷ []) spec in
    let unknown = parse_loop s (lit ++ b'%' ∷ next ∷ []) spec in
    let known = parse_loop s [] (push_field (field_for next) (flush_literal lit spec)) in
    if not (c == b'%')
    then plain
    else if next == b'%'
    then percent
    else if is_literal (field_for next)
    then unknown
    else known

-- `pattern.find("%x") != npos`
unfoldable pub has_token : ℕ → Bytes → Bool
has_token x [] = false
has_token x (c ∷ []) = false
has_token x (c ∷ d ∷ s) = (c == b'%' && d == x) || has_token x (d ∷ s)

-- The pattern with the toggles' tokens in front.
unfoldable pub with_toggles : Bytes → Bool → Bool → Bytes
with_toggles pattern_text add_time add_elapsed =
    (if add_time && not (has_token b't' pattern_text) then codes "%t " else [])
    ++ ((if add_elapsed && not (has_token b'e' pattern_text) then codes "%e " else [])
        ++ pattern_text)

unfoldable pub parse_format : Bytes → Bool → Bool → ℤ → FormatSpec
parse_format pattern_text add_time add_elapsed start =
    parse_loop (with_toggles pattern_text add_time add_elapsed) []
      (record { tokens = []; needs_time = false; start_epoch_ns = start })

-- `SourceLoc` and `Record`
pub record SourceLoc : Type 0 where
  pub file : Bytes
  pub line : ℤ
  pub func : Bytes

pub record Record : Type 0 where
  pub level : Level
  pub module_name : Bytes
  pub loc : SourceLoc
  pub msg : Bytes
  pub pid : ℤ
  pub tid : ℤ
  pub now_epoch_ns : ℤ

pub record Tm : Type 0 where
  pub year : ℤ
  pub mon : ℤ
  pub mday : ℤ
  pub hour : ℤ
  pub minute : ℤ
  pub sec : ℤ

-- What the C library does by the time zone and by floats: `localtime_r`, and `%.3f` of a number of
-- nanoseconds over 1e9.
pub record TimeText : Type 0 where
  pub localtime : ℤ → Tm
  pub print_seconds : ℤ → Bytes

unfoldable pub color_for : ℤ → Bytes
color_for v =
    if eqb_ℤ v level_error
    then 27 ∷ codes "[31m"
    else if eqb_ℤ v level_warning
    then 27 ∷ codes "[33m"
    else if eqb_ℤ v level_info
    then 27 ∷ codes "[32m"
    else if eqb_ℤ v level_debug
    then 27 ∷ codes "[36m"
    else []

abbrev pub k_reset : Bytes
k_reset = 27 ∷ codes "[0m"

-- The level's name, in its colour if it has one.
abbrev pub level_chunks : Bool → Level → Bytes → List Bytes
level_chunks colored l [] = c_str l.name ∷ []
level_chunks colored l (c ∷ col) =
    if colored then (c ∷ col) ∷ c_str l.name ∷ k_reset ∷ [] else c_str l.name ∷ []

unfoldable pub print_time : TimeText → ℤ → Bytes
unfolding print_padded
print_time tt_ now =
    let tm = tt_.localtime (quot now 1000000000) in
    let ms = quot (rem now 1000000000) 1000000 in
    print_padded 2 tm.hour
    ++ b':'
      ∷ (print_padded 2 tm.minute ++ b':' ∷ (print_padded 2 tm.sec ++ b'.' ∷ print_padded 3 ms))

unfoldable pub print_elapsed : TimeText → ℤ → ℤ → Bytes
print_elapsed tt_ now start =
    let el = now -ℤ start in tt_.print_seconds (if ltb_ℤ el (pos 0) then pos 0 else el)

-- What the case of a token gives to `put`, call by call. No text that `snprintf` makes here is
-- longer than its buffer of 64 bytes.
unfoldable pub chunks : TimeText → FormatSpec → Record → Bool → Token → List Bytes
unfolding color_for print_time print_elapsed
chunks tt_ fs r colored t = elim t.field [
  | Field.literal ↦ t.text ∷ []
  | Field.level ↦ level_chunks colored r.level (color_for r.level.value)
  | Field.func ↦ c_str r.loc.func ∷ []
  | Field.msg ↦ r.msg ∷ []
  | Field.module_name ↦ c_str r.module_name ∷ []
  | Field.time ↦ print_time tt_ r.now_epoch_ns ∷ []
  | Field.elapsed ↦ print_elapsed tt_ r.now_epoch_ns fs.start_epoch_ns ∷ []
  | Field.pid ↦ to_string r.pid ∷ []
  | Field.tid ↦ to_string r.tid ∷ []
  | Field.file ↦ c_str r.loc.file ∷ []
  | Field.line ↦ to_string r.loc.line ∷ []
]

-- `a - b` in `std::size_t`
abbrev pub size_sub : ℕ → ℕ → ℕ
size_sub a b = (a + 2 ^ 64 - b) % 2 ^ 64

-- The bytes of `out` up to `pos`, and `trunc`.
pub record Buffer : Type 0 where
  pub out : Bytes
  pub trunc : Bool

-- `put`. Sizes of texts in memory are far below 2^64, so `pos + n` does not wrap.
unfoldable pub put : ℕ → Bytes → Buffer → Buffer
put cap s b =
    let limit = size_sub cap 1 in
    if b.trunc
    then b
    else if ltb limit (length b.out + length s)
    then record { out = b.out ++ take (size_sub limit (length b.out)) s; trunc = true }
    else record { out = b.out ++ s; trunc = false }

unfoldable pub put_all : ℕ → List Bytes → Buffer → Buffer
unfolding put
put_all cap [] b = b
put_all cap (s ∷ ss) b = put_all cap ss (put cap s b)

-- The loop over the tokens.
unfoldable pub put_tokens : TimeText → ℕ → FormatSpec → Record → Bool → List Token → Buffer → Buffer
unfolding put_all chunks
put_tokens tt_ cap fs r colored [] b = b
put_tokens tt_ cap fs r colored (t ∷ ts) b =
    put_tokens tt_ cap fs r colored ts (put_all cap (chunks tt_ fs r colored t) b)

-- The marker of a cut line, and the newline.
unfoldable pub finish : ℕ → Buffer → Bytes
finish cap b =
    let edge = size_sub cap 4 in
    let marker = if ltb edge (length b.out) then edge else length b.out in
    if b.trunc then take marker b.out ++ codes "...\n" else b.out ++ b'\n' ∷ []

unfoldable pub build_line : TimeText → FormatSpec → Record → Bool → ℕ → Bytes
build_line tt_ fs r colored cap =
    finish cap (put_tokens tt_ cap fs r colored fs.tokens (record { out = []; trunc = false }))
