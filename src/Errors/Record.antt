-- ===== src/Errors/Record.antt =====
-- What a run of failures leaves behind: the sticky error and the notes on stderr.
use simple_logger.Base.{
  ◌≡◌, refl, ◌∙◌, Bool, false, ◌||◌, List, [], ◌∷◌, arith, Bytes, ◌==◌, if◌then◌else◌, get_or,
  length,
}
use simple_logger.Base.Int.{ℤ}
use simple_logger.Errors.{
  Errc, ErrorInfo, ErrorState, note_slot, k_note_slots, info_of, record_error, last_error,
}

pub record Failure : Type 0 where
  pub code : Errc
  pub err : ℤ
  pub what : Bytes

-- `record`, failure after failure.
unfoldable pub record_all : List Failure → ErrorState → ErrorState
record_all [] e = e
record_all (f ∷ fs) e = record_all fs (record_error f.code f.err f.what e)

abbrev pub info : Failure → ErrorInfo
info f = info_of f.code f.err f.what

abbrev pub same_code : Errc → Errc → Bool
same_code a b = note_slot a == note_slot b

abbrev pub has_code : Errc → List Errc → Bool
has_code c [] = false
has_code c (d ∷ ds) = same_code d c || has_code c ds

-- The failures that are the first of their code, given the codes before them.
abbrev pub firsts : List Errc → List Failure → List Failure
firsts seen [] = []
firsts seen (f ∷ fs) =
    let again = firsts seen fs in
    let fresh = f ∷ firsts (f.code ∷ seen) fs in if has_code f.code seen then again else fresh

-- The last failure's report, or the old one if there is none.
abbrev pub last_info : ErrorInfo → List Failure → ErrorInfo
last_info old [] = old
last_info old (f ∷ fs) = last_info (info f) fs

-- The flags are up for exactly the codes that were seen.
record IsNoted (seen : List Errc) (e : ErrorState) : Type 0 where
  sized : length e.noted ≡ k_note_slots
  agree : (c : Errc) → get_or e.noted (note_slot c) false ≡ has_code c seen

pub record_error-sticky :
    (c : Errc) (err : ℤ) (what : Bytes) (e : ErrorState)
    → (record_error c err what e).sticky ≡ info_of c err what
unfolding record_error
record_error-sticky c err what e = ground arith

pub record_all-sticky :
    (fs : List Failure) (e : ErrorState)
    → last_error (record_all fs e) ≡ last_info (last_error e) fs
unfolding record_all
record_all-sticky [] e = refl
record_all-sticky (f ∷ fs) e =
    record_all-sticky fs (record_error f.code f.err f.what e)
    ∙ rw (record_error-sticky f.code f.err f.what e) refl
