-- ===== src/Tests/Signals.antt =====
-- A program with a handler for SIGFPE of its own.
use simple_logger.Base.{◌≡◌, refl, some, if◌then◌else◌, ◌==◌, ℕ, ◌+◌, ◌-◌, sym, ap, ◌∙◌, arith}
use simple_logger.Signals.{Action, Signal, SignalOs, install_crash_handler}
use simple_logger.Signals.Installed.{Actions, handled, both, install_crash_handler-handled}

abbrev number_of : Signal → ℕ
number_of Signal.sigpipe = 0
number_of Signal.sigsegv = 1
number_of Signal.sigabrt = 2
number_of Signal.sigfpe = 3
number_of Signal.sigill = 4
number_of Signal.sigbus = 5
number_of (Signal.other n) = 6 + n

abbrev signal_of : ℕ → Signal
signal_of n =
    if n == 0
    then Signal.sigpipe
    else if n == 1
    then Signal.sigsegv
    else if n == 2
    then Signal.sigabrt
    else if n == 3
    then Signal.sigfpe
    else if n == 4
    then Signal.sigill
    else if n == 5
    then Signal.sigbus
    else Signal.other (n - 6)

signal_of-number_of : (a : Signal) → signal_of (number_of a) ≡ a
signal_of-number_of Signal.sigpipe = refl
signal_of-number_of Signal.sigsegv = refl
signal_of-number_of Signal.sigabrt = refl
signal_of-number_of Signal.sigfpe = refl
signal_of-number_of Signal.sigill = refl
signal_of-number_of Signal.sigbus = refl
signal_of-number_of (Signal.other n) = ground arith

number_inj : (a b : Signal) → number_of a ≡ number_of b → a ≡ b
number_inj a b e = sym (signal_of-number_of a) ∙ (ap signal_of e ∙ signal_of-number_of b)

abbrev table_signals : SignalOs
table_signals = record {
  State = Signal → Action;
  ask = λ sig s. some (s sig);
  act = λ sig a reset s o. if number_of o == number_of sig then a else s o;
  altstack = λ s. s;
}

table-Actions : Actions table_signals
table-Actions = record {
  act_same = λ sig a reset s. ground arith;
  act_other = λ sig o a reset s h. ground (arith, number_inj o sig);
  altstack = λ sig s. refl;
}

abbrev started : table_signals.State
started o = if number_of o == 3 then Action.own 7 else Action.by_default

install_crash_handler-handled_example :
    ((sig : Signal)
      → table_signals.ask sig (both table_signals started).1
        ≡ handled sig (table_signals.ask sig started))
    × ((later : table_signals.State)
        → install_crash_handler table_signals ((both table_signals started).0, later)
          ≡ ((both table_signals started).0, later))
install_crash_handler-handled_example =
    install_crash_handler-handled table_signals table-Actions started
