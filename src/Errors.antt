-- ===== src/Errors.antt =====
-- src/error.cpp: the error codes, the sticky last error, the one-time notes on stderr, the user's
-- handler and the count of dropped lines. `err_mu()` makes each access whole, so the state is passed
-- from step to step; `t_in_handler` is that of the thread at hand.
pub mod Record
pub mod Report
pub mod Category
use simple_logger.Base.{
  ℕ, ◌+◌, ◌%◌, ◌^◌, Bool, true, false, not, ◌&&◌, Option, none, some, List, [], ◌∷◌, ◌++◌, Bytes,
  codes, c_str, ltb, leb, ◌==◌, if◌then◌else◌, take, get_or, set, replicate,
}
use simple_logger.Base.Int.{ℤ, pos, eqb_ℤ}
use simple_logger.Text.Decimal.{to_string}

-- `enum class errc`
pub data Errc : Type 0 where
  ok config_file_read config_bad_value config_unknown_key dir_create run_lock run_dir_open file_open
        file_write stdout_write out_of_memory message_truncated :
      Errc

-- The frozen numbers.
abbrev pub number : Errc → ℕ
number Errc.ok = 0
number Errc.config_file_read = 10
number Errc.config_bad_value = 11
number Errc.config_unknown_key = 12
number Errc.dir_create = 20
number Errc.run_lock = 21
number Errc.run_dir_open = 22
number Errc.file_open = 30
number Errc.file_write = 31
number Errc.stdout_write = 40
number Errc.out_of_memory = 50
number Errc.message_truncated = 51

abbrev pub note_slot : Errc → ℕ
note_slot Errc.ok = 0
note_slot Errc.config_file_read = 1
note_slot Errc.config_bad_value = 2
note_slot Errc.config_unknown_key = 3
note_slot Errc.dir_create = 4
note_slot Errc.run_lock = 5
note_slot Errc.run_dir_open = 6
note_slot Errc.file_open = 7
note_slot Errc.file_write = 8
note_slot Errc.stdout_write = 9
note_slot Errc.out_of_memory = 10
note_slot Errc.message_truncated = 11

abbrev pub k_note_slots : ℕ
k_note_slots = 16

unfoldable pub message_for : Errc → Bytes
message_for Errc.ok = codes "ok"
message_for Errc.config_file_read = codes "could not read the config file"
message_for Errc.config_bad_value = codes "a config value did not parse, kept the default"
message_for Errc.config_unknown_key = codes "unknown config key, skipped it"
message_for Errc.dir_create = codes "could not create the log directory"
message_for Errc.run_lock = codes "could not create or lock the run lock file"
message_for Errc.run_dir_open = codes "could not open the run directory"
message_for Errc.file_open = codes "could not open a log file"
message_for Errc.file_write = codes "a write to a log file failed, the line was dropped"
message_for Errc.stdout_write = codes "a write to stdout failed, the line was dropped"
message_for Errc.out_of_memory = codes "an allocation failed, the line was dropped"
message_for Errc.message_truncated = codes "a message was too long and was cut to fit"

-- `detail` is the text in its array of 200 bytes, up to the NUL.
pub record ErrorInfo : Type 0 where
  pub code : Errc
  pub sys_errno : ℤ
  pub message : Bytes
  pub detail : Bytes

abbrev pub no_error : ErrorInfo
no_error = record { code = Errc.ok; sys_errno = pos 0; message = []; detail = [] }

-- The file's statics. A function pointer and a user pointer are their addresses; `handler` is
-- `none` for the null pointer. `stderr` is what was printed there, a line each.
pub record ErrorState : Type 0 where
  pub sticky : ErrorInfo
  pub handler : Option ℕ
  pub user : ℕ
  pub in_handler : ℕ
  pub drops : ℕ
  pub noted : List Bool
  pub stderr : List Bytes

abbrev pub start_errors : ErrorState
start_errors = record {
  sticky = no_error;
  handler = none;
  user = 0;
  in_handler = 0;
  drops = 0;
  noted = replicate k_note_slots false;
  stderr = [];
}

unfoldable pub set_error_handler : Option ℕ → ℕ → ErrorState → ErrorState
set_error_handler handler user e = record e { handler = handler; user = user }

abbrev pub last_error : ErrorState → ErrorInfo
last_error e = e.sticky

unfoldable pub clear_error : ErrorState → ErrorState
clear_error e = record e { sticky = no_error }

-- `fetch_add(1)` on a 64-bit counter
unfoldable pub count_drop : ErrorState → ErrorState
count_drop e = record e { drops = (e.drops + 1) % 2 ^ 64 }

abbrev pub drop_count : ErrorState → ℕ
drop_count e = e.drops

unfoldable pub reset_errors : ErrorState → ErrorState
reset_errors e = record e { sticky = no_error; drops = 0; noted = replicate k_note_slots false }

-- What the loop of `record` copies: it stops at the NUL, or with one byte of 200 left.
abbrev pub detail_of : Bytes → Bytes
detail_of what = take 199 (c_str what)

abbrev pub info_of : Errc → ℤ → Bytes → ErrorInfo
info_of code err what = record {
  code = code;
  sys_errno = err;
  message = message_for code;
  detail = detail_of what;
}

abbrev is_empty : Bytes → Bool
is_empty [] = true
is_empty (c ∷ s) = false

-- The four forms of the note.
unfoldable pub note_line : ErrorInfo → Bytes
unfolding message_for
note_line i =
    if not (eqb_ℤ i.sys_errno (pos 0)) && not (is_empty i.detail)
    then codes "slog: "
      ++ (i.message ++ (codes " (" ++ (i.detail ++ (codes "): errno " ++ to_string i.sys_errno))))
    else if not (eqb_ℤ i.sys_errno (pos 0))
    then codes "slog: " ++ (i.message ++ (codes ": errno " ++ to_string i.sys_errno))
    else if not (is_empty i.detail)
    then codes "slog: " ++ (i.message ++ (codes ": " ++ i.detail))
    else codes "slog: " ++ i.message

-- `if (… && !g_noted[slot].exchange(true)) fprintf(stderr, …)`
unfoldable pub note_once : ErrorInfo → ErrorState → ErrorState
note_once i e =
    let slot = note_slot i.code in
    let noted = set e.noted slot true in
    if ltb slot k_note_slots && not (get_or e.noted slot false)
    then record e { noted = noted; stderr = e.stderr ++ note_line i ∷ [] }
    else record e { noted = noted }

-- `record`; a null `what` is the empty text.
unfoldable pub record_error : Errc → ℤ → Bytes → ErrorState → ErrorState
unfolding note_once
record_error code err what e =
    let info = info_of code err what in note_once info (record e { sticky = info })

-- The user's handler: code of the program that links the library. It is given the handler's and
-- the user's pointer and the failure, may do anything to the errors' state (it may log and fail
-- again) and to a state `W` of its own, and returns or throws.
pub data Ending : Type 0 where
  returned threw : Ending

abbrev pub Call : Type 0 → Type 0
Call W = ℕ → ℕ → ErrorInfo → ErrorState × W → Ending × (ErrorState × W)

module _ {W : Type 0} (call : Call W) where
  -- `try { h(info, u); } catch (...) {}` between the two writes of `t_in_handler`
  unfoldable pub guarded_call : ℕ → ErrorState × W → ErrorState × W
  guarded_call h (e, w) =
      let done = call h e.user (last_error e) (record e { in_handler = 1 }, w) in
      (record (done.1.0) { in_handler = 0 }, done.1.1)

  -- `if (h == nullptr || t_in_handler != 0) return;` and the call
  unfoldable pub run_handler : Option ℕ → ErrorState × W → ErrorState × W
  unfolding guarded_call
  run_handler none s = s
  run_handler (some h) (e, w) = if e.in_handler == 0 then guarded_call h (e, w) else (e, w)

  unfoldable pub report : Errc → ℤ → Bytes → ErrorState × W → ErrorState × W
  unfolding run_handler
  report code err what (e, w) =
      let e' = record_error code err what e in run_handler e'.handler (e', w)
