-- ===== src/Tests/State.antt =====
-- A logger that is constructed, configured, used and shut down.
use simple_logger.Base.{
  ◌≡◌, refl, Bool, true, false, Option, none, [], ◌∷◌, ◌++◌, Bytes, codes, arith,
}
use simple_logger.Base.Dict.{lookup}
use simple_logger.Base.Int.{ℤ, pos}
use simple_logger.Level.{registry}
use simple_logger.Errors.{ErrorState, start_errors}
use simple_logger.Os.{Outcome, good}
use simple_logger.Config.{Kv, default_settings, apply_kv, module_prefix}
use simple_logger.Config.Apply.{or_set, module_of, lookup-apply_kv}
use simple_logger.Logger.{Logger, new_module}
use simple_logger.Logger.Reload.{resolve_module}
use simple_logger.Logger.Files.{ensure_file_open}
use simple_logger.Logger.Life.{do_shutdown}
use simple_logger.Logger.Api.{Setter, set, construct}
use simple_logger.Logger.State.{IsSound, IsWellFormed, layers_of}
use simple_logger.Logger.State.Ending.{resolve_module-IsWellFormed}
use simple_logger.Logger.State.Opening.{IsOpened, ensure_file_open-IsOpened}
use simple_logger.Logger.State.Steps.{
  Step, Reach, beside, construct-IsWellFormed, constructed-IsSound,
}
use simple_logger.Logger.Policy.{policy_of}
use simple_logger.Logger.Policy.Verdict.{Obeys}
use simple_logger.Logger.Policy.Refinement.{effects, Reach-Obeys}
use simple_logger.Tests.Format.{utc}
use simple_logger.Tests.Files.{table_os}
use simple_logger.Tests.RunDir.{as_listed}
use simple_logger.Tests.Logger.{idle}

abbrev one_file : Bytes → Outcome Bytes
one_file path = good (codes "verbosity = debug\nmodule.net = error\n")

abbrev no_env : Bytes → Option Bytes
no_env name = none

abbrev can_read : Bytes → Bool
can_read path = true

abbrev start_time : ℤ
start_time = pos 1700000000000000000

abbrev pub built : ErrorState × Logger
built = construct false start_time one_file no_env can_read start_errors

pub built-IsWellFormed : IsWellFormed registry (layers_of built.1) built.1
built-IsWellFormed =
    construct-IsWellFormed false start_time one_file no_env can_read start_errors
      (omega arith, omega arith)

abbrev quiet : ErrorState × Logger
quiet = set false (Setter.set_module_verbosity (codes "net") (pos 30)) built

-- A module's level is set, and the logger is shut down.
abbrev used :
    Reach table_os utc as_listed idle
      (beside table_os utc as_listed idle [] built)
      (quiet.0, do_shutdown table_os (quiet.1, []))
used =
    Reach.next
      (Reach.next Reach.here
        (Step.set_call (Setter.set_module_verbosity (codes "net") (pos 30)) built.0 built.1 []))
      (Step.shutdown_call quiet.0 quiet.1 [])

constructed-IsSound_example : IsSound (do_shutdown table_os (quiet.1, [])).0
constructed-IsSound_example =
    constructed-IsSound table_os utc as_listed idle (λ h u i e lg s k. k) false start_time one_file
      no_env can_read start_errors [] (quiet.0, do_shutdown table_os (quiet.1, []))
      (omega arith, omega arith) used

Reach-Obeys_example :
    Obeys
      (do_shutdown table_os (quiet.1, [])).0
      (effects table_os utc as_listed idle used (policy_of registry (layers_of built.1)))
Reach-Obeys_example =
    Reach-Obeys table_os utc as_listed idle (λ p h u i e lg s k. k) used
      (policy_of registry (layers_of built.1))
      (registry, layers_of built.1, refl, built-IsWellFormed)

abbrev used_net : Logger
used_net = (resolve_module (codes "net") built.1).1

used_net-IsWellFormed : IsWellFormed registry (layers_of built.1) used_net
used_net-IsWellFormed =
    resolve_module-IsWellFormed registry (layers_of built.1) (codes "net") built.1
      built-IsWellFormed

ensure_file_open-IsOpened_example : IsOpened table_os utc as_listed registry (layers_of built.1) (
    ensure_file_open table_os utc as_listed
      (new_module (codes "net") (codes "net"))
      (built.0, (used_net, [])))
ensure_file_open-IsOpened_example =
    ensure_file_open-IsOpened table_os utc as_listed registry (layers_of built.1)
      (new_module (codes "net") (codes "net")) built.0 used_net [] used_net-IsWellFormed refl

abbrev net_error : Kv
net_error = (codes "module.net", codes "error") ∷ []

lookup-apply_kv_example :
    lookup (codes "net") (apply_kv registry net_error default_settings start_errors).0.module_level
    ≡ or_set (module_of registry) (lookup (module_prefix ++ codes "net") net_error) none
unfolding lookup
lookup-apply_kv_example =
    lookup-apply_kv registry (codes "net") net_error default_settings start_errors (tt, tt)
