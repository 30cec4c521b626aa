-- ===== src/Tests/Delivery.antt =====
-- A log call over the small system, whose first writes are interrupted.
use simple_logger.Base.{
  zero, suc, ◌≤◌, ◌≡◌, ◌≢◌, refl, ap, ◌∙◌, true, Bool, false, some, [], ◌∷◌, Bytes, Option, codes,
  arith, leb, beq,
}
use simple_logger.Base.Dict
use simple_logger.Base.Int.{ℤ, pos, eqb_ℤ, eqb_ℤ_iff}
use simple_logger.Level.{Level, level_info}
use simple_logger.Errors.{start_errors, Call, threw}
use simple_logger.Format.{SourceLoc}
use simple_logger.RunDir.Calm.{Calm}
use simple_logger.Logger.{Logger, new_logger, new_module}
use simple_logger.Logger.Files.{World, ensure_file_open}
use simple_logger.Logger.Emit.{emit_to}
use simple_logger.Logger.Delivery.Ends.{Disk, IsGentle, emit_to-returns}
use simple_logger.Logger.Delivery.Appended.{NeverFails}
use mathlib.Core.Bool.{not, ◌&&◌}
use simple_logger.Level.{registry}
use simple_logger.Format.{FormatSpec, parse_format}
use simple_logger.Logger.Admit.{state_of}
use simple_logger.Logger.{Module, OpenErr, not_opened}
use simple_logger.Logger.Files.{add_fd, store_fd, register_crash_fd}
use simple_logger.Logger.Api.{construct}
use simple_logger.Logger.Reload.{
  resolve_module, reload_locked, install, publish_spec, compute_modules, compute_module,
}
use simple_logger.Logger.State.Ending.{resolve_module-IsWellFormed}
use simple_logger.Logger.State.Held.{add_fd-IsWellFormed, store_fd-IsWellFormed}
use simple_logger.Logger.Threads.Stored.{store_fd-IsStored, open_already}
use simple_logger.Tests.Threads.{small-OpensReal}
use simple_logger.Logger.State.{layers_of, IsWellFormed}
use simple_logger.Logger.Policy.{policy_of, settings_of, to_file}
use simple_logger.Logger.Delivery.Delivered.{after}
use simple_logger.Macros.Calls.{slog_emit}
use simple_logger.Macros.Calls.Site.{IsKnown, site}
use simple_logger.Macros.Calls.Delivered.{line_of, Gives, slog_emit-after}
use simple_logger.Tests.State.{built, built-IsWellFormed}
use simple_logger.Tests.World.{State, small_os, small_write, small_posix, two_signals, add_to}
use simple_logger.Tests.Format.{utc}
use simple_logger.Tests.RunDir.{as_listed}

small-Calm : (kept : State → Bool) → Calm small_os kept
small-Calm kept = record {
  close = λ fd s h. h;
  mkdir = λ p s h. h;
  rename = λ a b s h. h;
  unlink = λ p s h. h;
  open_create = λ p s h. h;
  open_dir = λ p s h. h;
  open_old = λ p s h. h;
  open_append = λ fd p s h. h;
  lock = λ fd s h. h;
  try_lock = λ fd s h. h;
  unlock = λ fd s h. h;
}

added_other : (fd f : ℤ) (s : Bytes) (files : ℤ → Bytes) → f ≢ fd → add_to fd s files f ≡ files f
added_other fd f s files other = ground (arith, (eqb_ℤ_iff f fd).0)

write_other : (fd f : ℤ) (buf : Bytes) (s : State) → f ≢ fd → (small_write fd buf s).1.1 f ≡ s.1 f
write_other fd f buf (suc n, files) h = refl
write_other fd f [] (zero, files) h = refl
write_other fd f (c ∷ []) (zero, files) h = added_other fd f (c ∷ []) files h
write_other fd f (c ∷ d ∷ s) (zero, files) h = added_other fd f (c ∷ d ∷ []) files h

write_pending : (fd : ℤ) (buf : Bytes) (s : State) → (small_write fd buf s).1.0 ≤ s.0
write_pending fd buf (suc n, files) = omega arith
write_pending fd [] (zero, files) = omega arith
write_pending fd (c ∷ []) (zero, files) = omega arith
write_pending fd (c ∷ d ∷ s) (zero, files) = omega arith

abbrev small_disk : Disk small_os
small_disk = record {
  posix = small_posix;
  write_other = write_other;
  write_pending = write_pending;
  sync = λ fd f s. refl;
  sync_pending = λ fd s. omega arith;
  quiet = λ n. small-Calm (λ s. leb s.0 n);
  still = λ f text. small-Calm (λ s. beq (s.1 f) text);
}

small-NeverFails : NeverFails small_os (pos 6)
small-NeverFails c buf (suc n, files) e h = cc
small-NeverFails c [] (zero, files) e h = cc
small-NeverFails c (d ∷ s) (zero, files) e h = cc

abbrev small_call : Call (Logger × small_os.State)
small_call h u i s = (threw, s)

small-IsGentle : IsGentle small_os small_disk small_call
small-IsGentle = record { quiet = λ h u i e lg s. omega arith; still = λ h u i e lg s f. refl }

abbrev net : Bytes
net = codes "net"

-- The file of the module "net" is open as 6.
abbrev opened : Logger
opened = record (new_logger (pos 1700000000000000000)) {
  modules =
      (
        net,
        record (new_module net net) {
          file_level = pos 30;
          collect_level = pos 30;
          file_fd = pos 6;
        },
      )
      ∷ [];
}

abbrev info : Level
info = record { value = level_info; name = codes "INFO" }

abbrev here : SourceLoc
here = record { file = codes "a.cpp"; line = pos 3; func = codes "main" }

abbrev plain_print : Bytes → Option Bytes
plain_print fmt = some fmt

emit_to-returns_example :
    (w : World small_os utc as_listed) × (emit_to small_os utc as_listed small_call plain_print 5000
        net info here
        (some (codes "hello"))
        (start_errors, (opened, two_signals))
      ≡ some w)
emit_to-returns_example =
    emit_to-returns small_os utc as_listed small_call small_disk small-IsGentle plain_print 5000 net
      info here (some (codes "hello")) start_errors opened two_signals (omega arith)

-- A module that the configuration of `built` gives the level "debug", and that has its file open as 6.
abbrev db : Bytes
db = codes "db"

abbrev db_module : Module
db_module = (resolve_module db built.1).0

abbrev db_found : Logger
db_found = (resolve_module db built.1).1

db_known :
    (Dict.lookup db (add_fd (pos 6) db_found).modules ≡ some db_module) × (db_module.name ≡ db)
unfolding resolve_module construct reload_locked install publish_spec compute_modules compute_module
    Dict.insert Dict.lookup beq register_crash_fd
db_known = (refl, refl)

abbrev db_opened : Logger
db_opened = store_fd db_module.name (pos 6) (add_fd (pos 6) db_found)

db_stored : (state_of db db_opened).file_fd ≡ pos 6
db_stored =
    (store_fd-IsStored small_os utc as_listed small-OpensReal db db_module db_known.1 (pos 6)
      (add_fd (pos 6) db_found) db_known.0 refl).1

db_opened-IsWellFormed : IsWellFormed registry (layers_of built.1) db_opened
db_opened-IsWellFormed =
    let found =
      resolve_module-IsWellFormed registry (layers_of built.1) db built.1 built-IsWellFormed in
    let (grown, held) = add_fd-IsWellFormed (pos 6) db_found found in
    store_fd-IsWellFormed db_module.name (pos 6) (add_fd (pos 6) db_found) grown held

db_opened-IsKnown : IsKnown db true db_opened
db_opened-IsKnown e = cc (db_stored, e)

abbrev format : FormatSpec
format =
    parse_format db_opened.settings.format db_opened.settings.enable_time
      db_opened.settings.enable_elapsed db_opened.start_epoch_ns

db_opens_6 :
    (w : World small_os utc as_listed)
    → (ensure_file_open small_os utc as_listed (state_of db db_opened) w).0.0 ≡ pos 6
db_opens_6 w =
    ap (λ (t : (ℤ × OpenErr) × World small_os utc as_listed). t.0.0)
      (open_already small_os utc as_listed (state_of db db_opened) w
        (ap (λ fd. eqb_ℤ fd not_opened) db_stored))
    ∙ db_stored

db_capture : db_opened.capture.on ≡ false
unfolding resolve_module construct reload_locked install publish_spec register_crash_fd Dict.lookup
    compute_modules
db_capture = refl

slog_emit-after_example :
    Gives small_os utc as_listed small_disk
      (pos 6)
      (slog_emit small_os utc as_listed small_call plain_print 5000 info here
        (λ w. (some (codes "hello"), w))
        (site db true)
        (built.0, (db_opened, two_signals)))
      (after
        (not (settings_of (policy_of registry (layers_of built.1))).disabled
          && to_file (policy_of registry (layers_of built.1)) db info.value)
        []
        (line_of small_os utc as_listed small_call plain_print info here
          (some (codes "hello"))
          db
          built.0
          db_opened
          two_signals
          format))
slog_emit-after_example =
    slog_emit-after small_os utc as_listed small_call plain_print info here (some (codes "hello"))
      db 5000 small_disk small-IsGentle (pos 6) (λ e. cc) small-NeverFails refl registry
      (layers_of built.1) true built.0 db_opened two_signals db_opened-IsWellFormed
      db_opened-IsKnown (omega arith) db_capture (db_opens_6 _)
