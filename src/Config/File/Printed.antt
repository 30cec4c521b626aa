-- ===== src/Config/File/Printed.antt =====
-- Config files for `read_config_file` of src/config.cpp that are printed from a map, a line each.

use mathlib.Core.Bool.{not, ◌&&◌}
use simple_logger.Base.{
  ◌≡◌, ◌≢◌, refl, sym, ap, ◌∙◌, Bool, true, false, Option, none, some, [], ◌∷◌, ◌++◌, Bytes, beq,
  beq_iff, arith, map, if◌then◌else◌, Lacks, append_assoc, append-nil, All, All-append, ◌==◌,
}
use simple_logger.Base.Dict.{lookup, lookup-Above, IsSorted}
use simple_logger.Os.{Outcome, good}
use simple_logger.Text.{strip_comment, strip_from, cut_at, trim, is_white, is_blank, getline_all}
use simple_logger.Text.Trim.{drop_front, drop_back, front, trim?-eq-front}
use simple_logger.Errors.{ErrorState}
use simple_logger.Config.{Kv}
use simple_logger.Config.Layers.{or_else}
use simple_logger.Config.File.{read_config_file}
use simple_logger.Config.File.Lookup.{last_given, given_by, read_config_file-lookup}

-- A key and its text as a line.
abbrev pub line_of : Bytes × Bytes → Bytes
line_of (k, v) = k ++ b'=' ∷ v

-- The file, each line ended.
unfoldable pub print_kv : Kv → Bytes
print_kv [] = []
print_kv (kv ∷ m) = line_of kv ++ b'\n' ∷ print_kv m

-- No white byte at either end.
abbrev pub IsTrimmed : Bytes → Type 0
IsTrimmed s = drop_back is_white (drop_front is_white s) ≡ s

-- No `#` behind a blank, nor in front if `starts`.
abbrev pub has_no_comment : Bool → Bytes → Bool
has_no_comment starts [] = true
has_no_comment starts (c ∷ s) = not (c == b'#' && starts) && has_no_comment (is_blank c) s

-- What a line can carry.
pub record IsWritable (kv : Bytes × Bytes) : Type 0 where
  pub key_named : kv.0 ≢ []
  pub key_trimmed : IsTrimmed kv.0
  pub key_line : Lacks b'\n' kv.0
  pub key_hash : Lacks b'#' kv.0
  pub key_equals : Lacks b'=' kv.0
  pub text_trimmed : IsTrimmed kv.1
  pub text_line : Lacks b'\n' kv.1
  pub text_hash : has_no_comment false kv.1 ≡ true

trim-IsTrimmed : (s : Bytes) → IsTrimmed s → trim s ≡ s
unfolding trim
trim-IsTrimmed s h = ap or_empty (trim?-eq-front is_white s ∙ ap (front is_white) h) ∙ kept s
  where
    or_empty : Option Bytes → Bytes
    or_empty none = []
    or_empty (some t) = t

    kept : (t : Bytes) → or_empty (front is_white t) ≡ t
    kept [] = refl
    kept (c ∷ t) = refl

strip_kept : (starts : Bool) (s : Bytes) → has_no_comment starts s ≡ true → strip_from starts s ≡ s
unfolding strip_from
strip_kept starts [] h = refl
strip_kept starts (c ∷ s) h = ground (arith, strip_kept (is_blank c) s)

strip_key :
    (starts : Bool) (k v : Bytes)
    → Lacks b'#' k
    → has_no_comment false v ≡ true
    → strip_from starts (line_of (k, v)) ≡ line_of (k, v)
unfolding strip_from
strip_key starts [] v h n = ground (arith, strip_kept false v)
strip_key starts (c ∷ k) v h n = ground (arith, strip_key (is_blank c) k v)

cut_key : (k v : Bytes) → Lacks b'=' k → cut_at b'=' (line_of (k, v)) ≡ some (k, v)
unfolding cut_at
cut_key [] v h = refl
cut_key (c ∷ k) v h = ground (arith, cut_key k v)

getline_one :
    (s rest cur : Bytes)
    → Lacks b'\n' s
    → getline_all b'\n' (s ++ b'\n' ∷ rest) cur ≡ (cur ++ s) ∷ getline_all b'\n' rest []
unfolding getline_all
getline_one [] rest cur h = ap (λ t. t ∷ getline_all b'\n' rest []) (sym (append-nil cur))
getline_one (c ∷ s) rest cur h =
    let inside : (c == b'\n') ≡ false = ground (arith, h.0) in
    rw inside (
      getline_one s rest (cur ++ c ∷ []) h.1
      ∙ ap (λ t. t ∷ getline_all b'\n' rest []) (append_assoc cur (c ∷ []) s))

getline_all-print_kv :
    (m : Kv) → All IsWritable m → getline_all b'\n' (print_kv m) [] ≡ map line_of m
unfolding print_kv
getline_all-print_kv [] h = unfold getline_all in refl
getline_all-print_kv ((k, v) ∷ m) h =
    getline_one (line_of (k, v)) (print_kv m) []
      (All-append (λ c. c ≢ b'\n') k (b'=' ∷ v) h.0.key_line ((omega arith), h.0.text_line))
    ∙ ap (λ ls. line_of (k, v) ∷ ls) (getline_all-print_kv m h.1)

line-given_by :
    (j k v : Bytes)
    → IsWritable (k, v)
    → given_by j (cut_at b'=' (strip_comment (line_of (k, v)))) ≡ (if beq k j then some v else none)
unfolding strip_comment
line-given_by j k v h =
    ap (λ b. given_by j (cut_at b'=' b)) (strip_key true k v h.key_hash h.text_hash)
    ∙ (ap (given_by j) (cut_key k v h.key_equals) ∙ (λ i.
        if beq (trim-IsTrimmed k h.key_trimmed i) j
        then some (trim-IsTrimmed v h.text_trimmed i)
        else none))

last_given-lines :
    (j : Bytes) (m : Kv) → All IsWritable m → IsSorted m → last_given j (map line_of m) ≡ lookup j m
unfolding last_given lookup
last_given-lines j [] h sorted = refl
last_given-lines j ((k, v) ∷ m) h sorted =
    (λ i. or_else (last_given-lines j m h.1 sorted.1 i) (line-given_by j k v h.0 i))
    ∙ ground (arith, beq_iff k j, lookup-Above k m sorted.0)

-- A map of keys and texts, in the order of its keys, that a file's lines can carry: printed as a file, it
-- is read back with the same text for every key.
pub read_config_file-print_kv :
    (opens : Bytes → Outcome Bytes) (path j : Bytes) (m : Kv) (e : ErrorState)
    → path ≢ []
    → opens path ≡ good (print_kv m)
    → All IsWritable m
    → IsSorted m
    → j ≢ []
    → IsSorted (read_config_file opens path e).0
      × (lookup j (read_config_file opens path e).0 ≡ lookup j m)
read_config_file-print_kv opens path j m e named opened writable sorted key =
    let (in_order, found) = read_config_file-lookup opens path (print_kv m) j e named opened key in
    (
      in_order,
      found
          ∙ (ap (last_given j) (getline_all-print_kv m writable)
              ∙ last_given-lines j m writable sorted),
    )
