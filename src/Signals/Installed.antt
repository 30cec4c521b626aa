-- ===== src/Signals/Installed.antt =====
-- What the installed handlers leave of the program's own.
use simple_logger.Base.{
  ◌≡◌, ◌≢◌, refl, ◌∙◌, Bool, true, false, Option, none, some, List, [], ◌∷◌, All,
}
use simple_logger.Signals.{
  Action, Signal, SignalOs, crash_signals, ignore_by, ignore_sigpipe_if_default, act_all,
  install_crash_handler,
}

-- What the system documents of `sigaction`: an action stays until the next for that signal.
pub record Actions (sys : SignalOs) : Type 0 where
  pub act_same :
      (sig : Signal) (a : Action) (reset : Bool) (s : sys.State)
      → sys.ask sig (sys.act sig a reset s) ≡ some a
  pub act_other :
      (sig o : Signal) (a : Action) (reset : Bool) (s : sys.State)
      → o ≢ sig
      → sys.ask o (sys.act sig a reset s) ≡ sys.ask o s
  pub altstack : (sig : Signal) (s : sys.State) → sys.ask sig (sys.altstack s) ≡ sys.ask sig s

-- The action of SIGPIPE behind the first use: a default one is ignored, any other stays.
abbrev pub piped : Option Action → Option Action
piped none = none
piped (some Action.by_default) = some Action.ignored
piped (some Action.ignored) = some Action.ignored
piped (some Action.crash) = some Action.crash
piped (some (Action.own f)) = some (Action.own f)

-- What each signal does behind both: the crash handler on the five signals of a crash, SIGPIPE ignored
-- if it was left at its default, and all else as it was.
abbrev pub handled : Signal → Option Action → Option Action
handled Signal.sigpipe a = piped a
handled Signal.sigsegv a = some Action.crash
handled Signal.sigabrt a = some Action.crash
handled Signal.sigfpe a = some Action.crash
handled Signal.sigill a = some Action.crash
handled Signal.sigbus a = some Action.crash
handled (Signal.other n) a = a

module _ (sys : SignalOs) where
  -- The state behind the first use and the first installation, and what each signal does there.
  abbrev pub both : sys.State → Bool × sys.State
  both s = install_crash_handler sys (false, ignore_sigpipe_if_default sys s)

module _ (sys : SignalOs) (acts : Actions sys) where
  behind :
      (o : Signal) (sigs : List Signal) (s : sys.State)
      → All (λ sig. o ≢ sig) sigs
      → sys.ask o (act_all sys sigs s) ≡ sys.ask o s
  behind o [] s h = refl
  behind o (sig ∷ sigs) s h =
      behind o sigs (sys.act sig Action.crash true s) h.1
      ∙ acts.act_other sig o Action.crash true s h.0

  -- A signal of a crash, and those whose action is set behind it.
  set-crash :
      (sig : Signal) (sigs : List Signal) (s : sys.State)
      → All (λ o. sig ≢ o) sigs
      → sys.ask sig (act_all sys (sig ∷ sigs) s) ≡ some Action.crash
  set-crash sig sigs s h =
      behind sig sigs (sys.act sig Action.crash true s) h ∙ acts.act_same sig Action.crash true s

  pipe-ask :
      (s : sys.State) (o : Option Action)
      → sys.ask Signal.sigpipe s ≡ o
      → sys.ask Signal.sigpipe (ignore_by sys o s) ≡ piped o
  pipe-ask s none e = e
  pipe-ask s (some Action.by_default) e = acts.act_same Signal.sigpipe Action.ignored false s
  pipe-ask s (some Action.ignored) e = e
  pipe-ask s (some Action.crash) e = e
  pipe-ask s (some (Action.own f)) e = e

  other-ask :
      (sig : Signal) (s : sys.State) (o : Option Action)
      → sig ≢ Signal.sigpipe
      → sys.ask sig (ignore_by sys o s) ≡ sys.ask sig s
  other-ask sig s none h = refl
  other-ask sig s (some Action.by_default) h =
      acts.act_other Signal.sigpipe sig Action.ignored false s h
  other-ask sig s (some Action.ignored) h = refl
  other-ask sig s (some Action.crash) h = refl
  other-ask sig s (some (Action.own f)) h = refl

  both-handled :
      (s : sys.State) (sig : Signal) → sys.ask sig (both sys s).1 ≡ handled sig (sys.ask sig s)
  unfolding install_crash_handler ignore_sigpipe_if_default
  both-handled s Signal.sigpipe =
      behind Signal.sigpipe crash_signals _
        ((λ e. cc), ((λ e. cc), ((λ e. cc), ((λ e. cc), ((λ e. cc), tt)))))
      ∙ (acts.altstack Signal.sigpipe _ ∙ pipe-ask s (sys.ask Signal.sigpipe s) refl)
  both-handled s Signal.sigsegv =
      set-crash Signal.sigsegv (Signal.sigabrt ∷ Signal.sigfpe ∷ Signal.sigill ∷ Signal.sigbus ∷ [])
        _ ((λ e. cc), ((λ e. cc), ((λ e. cc), ((λ e. cc), tt))))
  both-handled s Signal.sigabrt =
      set-crash Signal.sigabrt (Signal.sigfpe ∷ Signal.sigill ∷ Signal.sigbus ∷ []) _
        ((λ e. cc), ((λ e. cc), ((λ e. cc), tt)))
  both-handled s Signal.sigfpe =
      set-crash Signal.sigfpe (Signal.sigill ∷ Signal.sigbus ∷ []) _ ((λ e. cc), ((λ e. cc), tt))
  both-handled s Signal.sigill = set-crash Signal.sigill (Signal.sigbus ∷ []) _ ((λ e. cc), tt)
  both-handled s Signal.sigbus = set-crash Signal.sigbus [] _ tt
  both-handled s (Signal.other n) =
      behind (Signal.other n) crash_signals _
        ((λ e. cc), ((λ e. cc), ((λ e. cc), ((λ e. cc), ((λ e. cc), tt)))))
      ∙ (acts.altstack (Signal.other n) _
          ∙ other-ask (Signal.other n) s (sys.ask Signal.sigpipe s) (λ e. cc))

  -- For a `sigaction` as documented: behind the first use and an installation of the crash handler, the
  -- five signals of a crash have that handler, SIGPIPE is ignored if it was left at its default, every
  -- other action is the program's own as it was, and another installation changes nothing, so it takes
  -- nothing back that the program set since.
  pub install_crash_handler-handled :
      (s : sys.State)
      → ((sig : Signal) → sys.ask sig (both sys s).1 ≡ handled sig (sys.ask sig s))
        × ((later : sys.State)
            → install_crash_handler sys ((both sys s).0, later) ≡ ((both sys s).0, later))
  unfolding install_crash_handler
  install_crash_handler-handled s = (both-handled s, λ later. refl)
