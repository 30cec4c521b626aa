-- ===== src/Text.antt =====
-- The text helpers of src/level.cpp, src/config.cpp and src/logger.cpp: `to_lower`, `trim`,
-- `strip_comment`, `split` and `join`, over the members of `std::string` that they call.
pub mod Decimal
pub mod Trim
use mathlib.Core.Option
use simple_logger.Base.{
  ℕ, suc, ◌+◌, ◌-◌, Bool, true, false, ◌&&◌, ◌||◌, Option, none, some, List, [], ◌∷◌, ◌++◌, map,
  Bytes, leb, ◌==◌, if◌then◌else◌, take, drop,
}

-- `std::tolower` in the "C" locale, which is the locale until a program calls `setlocale`
unfoldable pub tolower : ℕ → ℕ
tolower c = if leb b'A' c && leb c b'Z' then c + 32 else c

unfoldable pub to_lower : Bytes → Bytes
unfolding tolower
to_lower s = map tolower s

-- `find_first_not_of` and `find_last_not_of`, for a set of bytes given by its test
unfoldable pub find_first_not_of : (ℕ → Bool) → Bytes → Option ℕ
find_first_not_of p [] = none
find_first_not_of p (c ∷ s) =
    let rest = find_first_not_of p s in if p c then Option.map suc rest else some 0

unfoldable pub find_last_not_of : (ℕ → Bool) → Bytes → Option ℕ
find_last_not_of p [] = none
find_last_not_of p (c ∷ s) = elim (find_last_not_of p s) [
  | some i ↦ some (suc i)
  | none ↦ if p c then none else some 0
]

abbrev pub substr : Bytes → ℕ → ℕ → Bytes
substr s a n = take n (drop a s)

-- " \t"
abbrev pub is_blank : ℕ → Bool
is_blank c = c == b' ' || c == b'\t'

-- " \t\r\n"
abbrev pub is_white : ℕ → Bool
is_white c = c == b' ' || c == b'\t' || c == b'\r' || c == b'\n'

-- The text from one position to another. The callers' second position is the last byte outside
-- the set and the first one the first such byte, so `b - a` does not wrap.
abbrev pub between : Bytes → Option ℕ → Option ℕ → Option Bytes
between s none l = none
between s (some a) none = none
between s (some a) (some b) = some (substr s a (b - a + 1))

-- What both trims compute; none if every byte is in the set.
unfoldable pub trim? : (ℕ → Bool) → Bytes → Option Bytes
unfolding find_first_not_of find_last_not_of
trim? p s = between s (find_first_not_of p s) (find_last_not_of p s)

-- `trim` of src/config.cpp
unfoldable pub trim : Bytes → Bytes
unfolding trim?
trim s = elim (trim? is_white s) [ none ↦ [] | some t ↦ t ]

-- The loop of `strip_comment`; the flag says that a `#` here starts a comment.
unfoldable pub strip_from : Bool → Bytes → Bytes
strip_from starts [] = []
strip_from starts (c ∷ s) =
    let rest = strip_from (is_blank c) s in if c == b'#' && starts then [] else c ∷ rest

unfoldable pub strip_comment : Bytes → Bytes
unfolding strip_from
strip_comment line = strip_from true line

-- What `std::getline(in, cur, sep)` reads, call after call: a last piece that is empty is none.
unfoldable pub getline_all : ℕ → Bytes → Bytes → List Bytes
getline_all sep [] [] = []
getline_all sep [] (c ∷ cur) = (c ∷ cur) ∷ []
getline_all sep (c ∷ s) cur =
    let next = getline_all sep s [] in
    let more = getline_all sep s (cur ++ c ∷ []) in if c == sep then cur ∷ next else more

unfoldable pub trim_pieces : List Bytes → List Bytes
unfolding trim
trim_pieces [] = []
trim_pieces (cur ∷ pieces) =
    let rest = trim_pieces pieces in elim (trim cur) [ [] ↦ rest | c ∷ t ↦ (c ∷ t) ∷ rest ]

unfoldable pub split : Bytes → ℕ → List Bytes
unfolding getline_all trim_pieces
split s sep = trim_pieces (getline_all sep s [])

-- The rounds of `join` from the second on.
unfoldable pub join_rest : ℕ → List Bytes → Bytes → Bytes
join_rest sep [] out = out
join_rest sep (p ∷ ps) out = join_rest sep ps (out ++ sep ∷ p)

unfoldable pub join : List Bytes → ℕ → Bytes
unfolding join_rest
join [] sep = []
join (p ∷ ps) sep = join_rest sep ps p

-- `find` of one byte, and the text on both sides of it
unfoldable pub cut_at : ℕ → Bytes → Option (Bytes × Bytes)
cut_at b [] = none
cut_at b (c ∷ s) =
    let rest = cut_at b s in if c == b then some ([], s) else Option.map (λ (l, r). (c ∷ l, r)) rest
