-- ===== src/Tests/Logger.antt =====
-- A logger over the small system.
use mathlib.Core.Bool.{◌||◌}
use simple_logger.Base.{ℕ, ◌≡◌, refl, true, false, some, [], ◌∷◌, Bytes, codes, arith, Lacks}
use simple_logger.Base.Int.{pos, ltb_ℤ}
use simple_logger.Level.{Level, level_info, k_off}
use simple_logger.Errors.{Errc, ErrorState, start_errors, Call, threw}
use simple_logger.Format.{FormatSpec, SourceLoc}
use simple_logger.Config.{default_settings}
use simple_logger.Os.{Os, bad}
use simple_logger.RunDir.{mkdir_once, mkdir_from, mkdir_p}
use simple_logger.RunDir.Open.{make_dirs, open_run}
use simple_logger.Logger.{Logger, new_logger, new_module, sanitize_tag, make_filename}
use simple_logger.Logger.Names.{IsTagName, sanitize_tag-IsTagName, slash, make_filename-Lacks}
use simple_logger.Logger.Reload.{publish_spec}
use simple_logger.Logger.Reload.Cache.{publish_spec_idem}
use simple_logger.Logger.Files.{ensure_run_open, open_now, take_run}
use simple_logger.Logger.Files.{add_fd}
use simple_logger.Logger.Admit.{CallSite, state_of, should_log, file_admits, stdout_admits}
use simple_logger.Logger.Emit.{dispatch_with, gather}
use simple_logger.Logger.Filter.{should_log-dispatch}
use simple_logger.Logger.Life.{do_shutdown}
use simple_logger.Logger.Closed.{do_shutdown-late_run}
use simple_logger.Logger.Api.{Setter, set, Config, thrown, init}
use simple_logger.Logger.Api.Setters.{AreMaps, set-IsSetBy}
use simple_logger.Logger.Api.Configure.{init-failed}
use simple_logger.Tests.Format.{utc}
use simple_logger.Tests.Level.{registry-IsWellNamed}
use simple_logger.Tests.Files.{table_os}
use simple_logger.Tests.RunDir.{as_listed}

abbrev pub idle : Call (Logger × table_os.State)
idle h u i s = (threw, s)

abbrev fresh : Logger
fresh = new_logger (pos 1700000000000000000)

sanitize_tag-IsTagName_example : IsTagName (codes "../up") (sanitize_tag (codes "../up"))
sanitize_tag-IsTagName_example = sanitize_tag-IsTagName (codes "../up") (λ e. cc)

make_filename-Lacks_example : Lacks slash (
    make_filename
      (record default_settings { file_per_module = true })
      (pos 42)
      (codes "20260101-000000")
      (codes "a/b"))
make_filename-Lacks_example =
    make_filename-Lacks (record default_settings { file_per_module = true }) (pos 42)
      (codes "20260101-000000") (codes "a/b") (omega arith) tt

publish_spec_idem_example : publish_spec (publish_spec fresh) ≡ publish_spec fresh
publish_spec_idem_example = publish_spec_idem fresh

-- A second file is being opened, and its slot is stored.
abbrev one_open : Logger
one_open = add_fd (pos 6) fresh

abbrev info : Level
info = record { value = level_info; name = codes "INFO" }

abbrev site : CallSite
site = record { module_name = codes "net"; state = false }

should_log-dispatch_example :
    let (said, (cs', lg')) = should_log site info.value fresh in
    let ms = state_of (codes "net") lg' in
    (said ≡ false
      → (fuel : ℕ) (loc : SourceLoc) (msg : Bytes) (fs : FormatSpec) (e : ErrorState)
        (s : table_os.State)
      → dispatch_with table_os utc as_listed idle fuel (codes "net") info loc msg fs (e, (lg', s))
        ≡ some (gather table_os utc as_listed idle (codes "net") info loc msg fs (e, (lg', s))).1)
    × (said ≡ true
        → ms.stdout_only ≡ false
        → ltb_ℤ k_off info.value ≡ true
        → (file_admits ms info.value || stdout_admits ms info.value) ≡ true)
should_log-dispatch_example =
    should_log-dispatch table_os utc as_listed idle site info fresh tt refl

fresh-AreMaps : AreMaps fresh
fresh-AreMaps = record { file = tt; env = tt; api = tt }

set-IsSetBy_example :
    (set false (Setter.set_verbosity (pos 30)) (start_errors, fresh)).1.settings.global_level
    ≡ pos 30
set-IsSetBy_example =
    set-IsSetBy false (Setter.set_verbosity (pos 30)) start_errors fresh fresh-AreMaps
      registry-IsWellNamed ((omega arith, omega arith), λ e. cc, λ e. cc)

abbrev plain : Config
plain = record {
  disabled = false;
  verbosity = pos 20;
  module_verbosity = [];
  log_dir = [];
  run_tag = [];
  file_enabled = true;
  file_verbosity = pos 20;
  file_per_module = false;
  file_name = [];
  out_enabled = true;
  out_verbosity = pos 20;
  out_only = false;
  out_modules = [];
  format = codes "%m";
  enable_time = false;
  enable_elapsed = false;
  color = codes "auto";
  flush_level = pos 20;
  retain_runs = pos 0;
  retain_days = pos 0;
}

-- An earlier call gave "net" the level "debug".
abbrev net_debug : Logger
net_debug = record fresh { api_kv = (codes "module.net", codes "DEBUG") ∷ [] }

-- A system where no directory can be made.
abbrev broken_os : Os
broken_os = record table_os { mkdir = λ p s. (bad (pos 13), s) }

abbrev broken_call : Call (Logger × broken_os.State)
broken_call h u i s = (threw, s)

not_opened_run :
    (ensure_run_open broken_os utc as_listed (start_errors, (fresh, 1 ∷ []))).0.0 ≡ false
unfolding ensure_run_open open_now take_run open_run make_dirs mkdir_p mkdir_from mkdir_once
not_opened_run = refl

init-failed_example :
    let (opened, w) = ensure_run_open broken_os utc as_listed (start_errors, (fresh, 1 ∷ [])) in
    init broken_os utc as_listed broken_call w ≡ (thrown Errc.ok [], w)
init-failed_example =
    init-failed broken_os utc as_listed broken_call start_errors fresh (1 ∷ []) not_opened_run

abbrev with_net : Logger
with_net = record fresh {
  modules = (codes "net", new_module (codes "net") (codes "net")) ∷ [];
  open_fds = pos 5 ∷ [];
}

do_shutdown-late_run_example :
    let done = do_shutdown table_os (fresh, []) in
    let late = ensure_run_open table_os utc as_listed (start_errors, done) in
    (late ≡ open_now table_os utc as_listed (start_errors, done))
    × (do_shutdown table_os late.1.1 ≡ late.1.1)
do_shutdown-late_run_example =
    do_shutdown-late_run table_os utc as_listed idle start_errors fresh [] refl refl
