-- ===== src/Signals.antt =====
-- The signal handlers that src/logger.cpp installs. `sigaction` and `sigaltstack` are the system's; what
-- `crash_handler` does when it runs is in Logger/Life.
pub mod Installed
use simple_logger.Base.{Bool, true, false, Option, none, some, List, [], ◌∷◌, ℕ}

-- SIG_DFL, SIG_IGN, `crash_handler`, and a handler of the program's own, by its address.
pub data Action : Type 0 where
  by_default ignored crash : Action
  own : ℕ → Action

pub data Signal : Type 0 where
  sigpipe sigsegv sigabrt sigfpe sigill sigbus : Signal
  other : ℕ → Signal

-- `ask` is `sigaction` with no new action, none where it fails; `act` is `sigaction` with one, and
-- `reset` says whether the action falls back to the default when it runs, with `SA_RESETHAND`.
pub record SignalOs : Type 1 where
  pub State : Type 0
  pub ask : Signal → State → Option Action
  pub act : Signal → Action → Bool → State → State
  pub altstack : State → State

-- The signals of a crash.
abbrev pub crash_signals : List Signal
crash_signals = Signal.sigsegv ∷ Signal.sigabrt ∷ Signal.sigfpe ∷ Signal.sigill ∷ Signal.sigbus ∷ []

module _ (sys : SignalOs) where
  abbrev pub ignore_by : Option Action → sys.State → sys.State
  ignore_by none s = s
  ignore_by (some Action.by_default) s = sys.act Signal.sigpipe Action.ignored false s
  ignore_by (some Action.ignored) s = s
  ignore_by (some Action.crash) s = s
  ignore_by (some (Action.own f)) s = s

  unfoldable pub ignore_sigpipe_if_default : sys.State → sys.State
  ignore_sigpipe_if_default s = ignore_by (sys.ask Signal.sigpipe s) s

  abbrev pub act_all : List Signal → sys.State → sys.State
  act_all [] s = s
  act_all (sig ∷ sigs) s = act_all sigs (sys.act sig Action.crash true s)

  -- `installed` is the static flag; its exchange lets one call through.
  unfoldable pub install_crash_handler : Bool × sys.State → Bool × sys.State
  install_crash_handler (true, s) = (true, s)
  install_crash_handler (false, s) = (true, act_all crash_signals (sys.altstack s))
