-- ===== src/Errors/Category.antt =====
-- The error category of src/error.cpp: the code as a number for the standard library, and its message.
use simple_logger.Base.{
  ◌≡◌, refl, sym, ap, ◌∙◌, Option, none, some, List, [], ◌∷◌, Bytes, codes, ℕ, if◌then◌else◌,
}
use simple_logger.Base.Int.{ℤ, pos, eqb_ℤ}
use simple_logger.Errors.{Errc, number, message_for, ErrorState, drop_count}

-- `std::error_code`
pub record ErrorCode : Type 0 where
  pub value : ℤ
  pub category : Bytes

-- `Category::name`
abbrev pub category_name : Bytes
category_name = codes "slog"

unfoldable pub make_error_code : Errc → ErrorCode
make_error_code e = record { value = pos (number e); category = category_name }

abbrev pub all_codes : List Errc
all_codes =
    Errc.ok ∷ Errc.config_file_read ∷ Errc.config_bad_value ∷ Errc.config_unknown_key
    ∷ Errc.dir_create ∷ Errc.run_lock ∷ Errc.run_dir_open ∷ Errc.file_open ∷ Errc.file_write
    ∷ Errc.stdout_write ∷ Errc.out_of_memory ∷ Errc.message_truncated ∷ []

abbrev pub code_in : List Errc → ℤ → Option Errc
code_in [] v = none
code_in (c ∷ cs) v = if eqb_ℤ (pos (number c)) v then some c else code_in cs v

-- `static_cast<errc>(ev)`, none for a number without a name
unfoldable pub errc_of : ℤ → Option Errc
errc_of v = code_in all_codes v

-- `message_for`, whose switch falls through for a number without a name
abbrev pub message_or : Option Errc → Bytes
message_or none = codes "unknown error"
message_or (some c) = message_for c

-- `Category::message`
unfoldable pub category_message : ℤ → Bytes
category_message v = message_or (errc_of v)

-- `dropped`
abbrev pub dropped : ErrorState → ℕ
dropped e = drop_count e

errc_of-number : (c : Errc) → errc_of (pos (number c)) ≡ some c
unfolding errc_of
errc_of-number Errc.ok = refl
errc_of-number Errc.config_file_read = refl
errc_of-number Errc.config_bad_value = refl
errc_of-number Errc.config_unknown_key = refl
errc_of-number Errc.dir_create = refl
errc_of-number Errc.run_lock = refl
errc_of-number Errc.run_dir_open = refl
errc_of-number Errc.file_open = refl
errc_of-number Errc.file_write = refl
errc_of-number Errc.stdout_write = refl
errc_of-number Errc.out_of_memory = refl
errc_of-number Errc.message_truncated = refl

abbrev code_of : Option Errc → Errc
code_of none = Errc.ok
code_of (some c) = c

-- A failure's number says which one it is: no two have the same, and the category's message for it is the
-- failure's own.
pub category_message-make_error_code :
    ((c d : Errc) → (make_error_code c).value ≡ (make_error_code d).value → c ≡ d)
    × ((c : Errc) → category_message (make_error_code c).value ≡ message_for c)
unfolding make_error_code category_message
category_message-make_error_code = (
  λ c d e. ap code_of (sym (errc_of-number c) ∙ (ap errc_of e ∙ errc_of-number d)),
  λ c. ap message_or (errc_of-number c),
)
