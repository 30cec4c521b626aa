-- ===== src/Config/File/Lookup.antt =====
-- What a key reads as after a file, by the lines that `read_config_file` of src/config.cpp reads.
use simple_logger.Base.{
  ◌≡◌, ◌≢◌, refl, ap, ◌∙◌, Option, none, some, List, [], ◌∷◌, Bytes, beq, beq_iff, arith,
  if◌then◌else◌,
}
use simple_logger.Base.Dict.{lookup, lookup-insert, IsSorted, insert-IsSorted}
use simple_logger.Os.{Outcome, good, bad}
use simple_logger.Text.{strip_comment, cut_at, trim, getline_all}
use simple_logger.Errors.{ErrorState}
use simple_logger.Config.{Kv}
use simple_logger.Config.Layers.{or_else}
use simple_logger.Config.File.{assign, read_body, read_lines, read_opened, read_config_file}

-- The text that a line gives to the key `j`: what is behind its first '=', if what is before it is `j`.
abbrev pub given_by : Bytes → Option (Bytes × Bytes) → Option Bytes
given_by j none = none
given_by j (some (l, r)) = if beq (trim l) j then some (trim r) else none

-- The last text that the lines give to `j`.
unfoldable pub last_given : Bytes → List Bytes → Option Bytes
last_given j [] = none
last_given j (line ∷ rest) =
    or_else (last_given j rest) (given_by j (cut_at b'=' (strip_comment line)))

lookup-assign :
    (j key val : Bytes) (kv : Kv)
    → j ≢ []
    → lookup j (assign key val kv) ≡ or_else (if beq key j then some val else none) (lookup j kv)
lookup-assign j [] val kv h = ground (arith, beq_iff [] j)
lookup-assign j (c ∷ key) val kv h = ground (arith, lookup-insert (c ∷ key) j val kv)

lookup-read_body :
    (j body : Bytes) (cut : Option (Bytes × Bytes)) (kv : Kv) (e : ErrorState)
    → j ≢ []
    → lookup j (read_body body cut kv e).0 ≡ or_else (given_by j cut) (lookup j kv)
lookup-read_body j body none kv e h = refl
lookup-read_body j body (some (l, r)) kv e h = lookup-assign j (trim l) (trim r) kv h

or_else-none : (a : Option Bytes) → or_else a none ≡ a
or_else-none none = refl
or_else-none (some v) = refl

or_else_assoc : (a b c : Option Bytes) → or_else a (or_else b c) ≡ or_else (or_else a b) c
or_else_assoc none b c = refl
or_else_assoc (some v) b c = refl

lookup-read_lines :
    (j : Bytes) (ls : List Bytes) (kv : Kv) (e : ErrorState)
    → j ≢ []
    → lookup j (read_lines ls kv e).0 ≡ or_else (last_given j ls) (lookup j kv)
unfolding read_lines lookup last_given
lookup-read_lines j [] kv e h = refl
lookup-read_lines j (line ∷ rest) kv e h =
    let body = strip_comment line in
    let next = read_body body (cut_at b'=' body) kv e in
    lookup-read_lines j rest next.0 next.1 h
    ∙ ap (or_else (last_given j rest)) (lookup-read_body j body (cut_at b'=' body) kv e h)
    ∙ or_else_assoc (last_given j rest) (given_by j (cut_at b'=' body)) (lookup j kv)

assign-IsSorted : (key val : Bytes) (kv : Kv) → IsSorted kv → IsSorted (assign key val kv)
assign-IsSorted [] val kv h = h
assign-IsSorted (c ∷ key) val kv h = insert-IsSorted (c ∷ key) val kv h

read_body-IsSorted :
    (body : Bytes) (cut : Option (Bytes × Bytes)) (kv : Kv) (e : ErrorState)
    → IsSorted kv
    → IsSorted (read_body body cut kv e).0
read_body-IsSorted body none kv e h = h
read_body-IsSorted body (some (l, r)) kv e h = assign-IsSorted (trim l) (trim r) kv h

read_lines-IsSorted :
    (ls : List Bytes) (kv : Kv) (e : ErrorState) → IsSorted kv → IsSorted (read_lines ls kv e).0
unfolding read_lines
read_lines-IsSorted [] kv e h = h
read_lines-IsSorted (line ∷ rest) kv e h =
    let body = strip_comment line in
    let next = read_body body (cut_at b'=' body) kv e in
    read_lines-IsSorted rest next.0 next.1 (read_body-IsSorted body (cut_at b'=' body) kv e h)

read_opened-IsSorted :
    (path : Bytes) (o : Outcome Bytes) (e : ErrorState) → IsSorted (read_opened path o e).0
read_opened-IsSorted path (bad err) e = tt
read_opened-IsSorted path (good content) e =
    read_lines-IsSorted (getline_all b'\n' content []) [] e tt

-- Whatever a file holds, its map is sorted.
pub read_config_file-IsSorted :
    (opens : Bytes → Outcome Bytes) (path : Bytes) (e : ErrorState)
    → IsSorted (read_config_file opens path e).0
unfolding read_config_file
read_config_file-IsSorted opens [] e = tt
read_config_file-IsSorted opens (c ∷ path) e = read_opened-IsSorted (c ∷ path) (opens (c ∷ path)) e

-- A file that can be opened gives a sorted map, and in it each key that is not empty has the text of
-- the last line that assigns it; a line assigns what is behind its first '=', trimmed, without its
-- comment.
pub read_config_file-lookup :
    (opens : Bytes → Outcome Bytes) (path content j : Bytes) (e : ErrorState)
    → path ≢ []
    → opens path ≡ good content
    → j ≢ []
    → IsSorted (read_config_file opens path e).0
      × (lookup j (read_config_file opens path e).0 ≡ last_given j (getline_all b'\n' content []))
unfolding read_config_file lookup last_given
read_config_file-lookup opens [] content j e h opened k = absurd (h refl)
read_config_file-lookup opens (c ∷ path) content j e h opened k =
    let ls = getline_all b'\n' content [] in
    rw opened (
      read_lines-IsSorted ls [] e tt,
      lookup-read_lines j ls [] e k ∙ or_else-none (last_given j ls),
    )
