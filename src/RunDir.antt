-- ===== src/RunDir.antt =====
-- src/run_dir.cpp: how a run opens its directory, moves older runs out of `latest` and deletes old ones.
-- The system's calls are those of `Os`; a path that is handed to one is the text up to its NUL, which
-- is the system's part of reading it.
pub mod Open
pub mod Descriptors
pub mod Leaks
pub mod Held
pub mod Unique
pub mod Reaped
pub mod Calm
pub mod CalmRun
use mathlib.Core.Bool.{not, ◌||◌, ◌&&◌}
use simple_logger.Base.{
  ℕ, zero, suc, ◌+◌, ◌-◌, ◌*◌, ◌^◌, Bool, true, false, Option, none, some, List, [], ◌∷◌, ◌++◌,
  Bytes, codes, beq, ltb, leb, ◌==◌, if◌then◌else◌, length, take, drop,
}
use simple_logger.Base.Int.{ℤ, pos, negsuc, pos_part, ltb_ℤ, eqb_ℤ, ◌-ℤ◌}
use simple_logger.Text.Decimal.{to_string}
use simple_logger.Errors.{Errc, ErrorState, record_error}
use simple_logger.Os.{Os, Outcome, good, bad}

abbrev pub k_run_lock_prefix : Bytes
k_run_lock_prefix = codes ".slog-run-"

abbrev pub k_run_lock_suffix : Bytes
k_run_lock_suffix = codes ".lock"

abbrev pub k_struct_lock : Bytes
k_struct_lock = codes "/.slog.lock"

-- EEXIST
abbrev pub eexist : ℤ
eexist = pos 17

-- `n.rfind(prefix, 0) == 0`
unfoldable pub starts_with : Bytes → Bytes → Bool
starts_with p n = beq (take (length p) n) p

-- `n.size() >= suffix.size() && n.compare(n.size() - suffix.size(), suffix.size(), suffix) == 0`
unfoldable pub ends_with : Bytes → Bytes → Bool
ends_with suffix n =
    leb (length suffix) (length n) && beq (drop (length n - length suffix) n) suffix

-- `note`
unfoldable pub note : Bytes → ErrorState → ErrorState
note msg e = record e { stderr = e.stderr ++ (codes "slog: " ++ msg) ∷ [] }

-- `Run`
pub record Run : Type 0 where
  pub stem : Bytes
  pub lock_path : Bytes
  pub mtime : ℤ
  pub dead : Bool

-- `RunDir`; `err` is written by `open_run` and read nowhere.
pub record RunDir : Type 0 where
  pub dir_fd : ℤ
  pub run_lock_fd : ℤ
  pub first_fd : ℤ
  pub dir_path : Bytes
  pub ok : Bool
  pub err : Bytes
  pub code : Errc
  pub sys_errno : ℤ

abbrev pub no_run : RunDir
no_run = record {
  dir_fd = negsuc 0;
  run_lock_fd = negsuc 0;
  first_fd = negsuc 0;
  dir_path = [];
  ok = false;
  err = [];
  code = Errc.ok;
  sys_errno = pos 0;
}

-- The names of a directory's entries other than "." and "..".
unfoldable pub entries : List Bytes → List Bytes
entries [] = []
entries (n ∷ names) =
    let rest = entries names in if beq n (codes ".") || beq n (codes "..") then rest else n ∷ rest

-- The stem between the prefix and the suffix of a run lock's name.
unfoldable pub stem_of : Bytes → Option Bytes
unfolding starts_with ends_with
stem_of n =
    if not (starts_with k_run_lock_prefix n)
    then none
    else if ltb (length n) (length k_run_lock_prefix + length k_run_lock_suffix)
    then none
    else if not (ends_with k_run_lock_suffix n)
    then none
    else some (
        take (length n - length k_run_lock_prefix - length k_run_lock_suffix)
          (drop (length k_run_lock_prefix) n))

-- Whether the run at place `i` of the list, newest first, is deleted.
unfoldable pub to_reap : ℤ → ℤ → ℤ → ℕ → Run → Bool
to_reap now retain_runs retain_days i r =
    r.dead
    && ((ltb_ℤ (pos 0) retain_runs && leb (pos_part retain_runs) i)
        || (ltb_ℤ (pos 0) retain_days
            && (ltb_ℤ (pos 0) r.mtime
                && ltb_ℤ (pos (pos_part retain_days * 86400)) (now -ℤ r.mtime))))

module _ (os : Os) where
  -- `::mkdir(…) != 0 && errno != EEXIST`: the error number, or none
  unfoldable pub mkdir_once : Bytes → os.State → Option ℤ × os.State
  mkdir_once p s =
      let (done, s') = os.mkdir p s in
      elim done [ good u ↦ (none, s') | bad e ↦ (if eqb_ℤ e eexist then none else some e, s') ]

  -- The last part of `mkdir_p`, for `p` behind the loop; the flag is `p.back() == '/'`.
  abbrev pub mkdir_last : Bytes → Bool → os.State → Option ℤ × os.State
  mkdir_last [] slash s = (none, s)
  mkdir_last (c ∷ p) true s = (none, s)
  mkdir_last (c ∷ p) false s = mkdir_once (c ∷ p) s

  -- The loop of `mkdir_p`, over `p` and what is left of the path. It is false with the error number
  -- of the call that failed.
  unfoldable pub mkdir_from : Bytes → Bool → Bytes → os.State → Option ℤ × os.State
  unfolding mkdir_once
  mkdir_from p slash [] s = mkdir_last p slash s
  mkdir_from p slash (c ∷ rest) s = elim (c == b'/' && ltb 0 (length p)) [
    | true ↦
        let (done, s') = mkdir_once p s in
        elim done [ some e ↦ (some e, s') | none ↦ mkdir_from (p ++ c ∷ []) (c == b'/') rest s' ]
    | false ↦ mkdir_from (p ++ c ∷ []) (c == b'/') rest s
  ]

  unfoldable pub mkdir_p : Bytes → os.State → Option ℤ × os.State
  unfolding mkdir_from
  mkdir_p path s = mkdir_from [] false path s

  abbrev pub candidate : Bytes → ℕ → Bytes
  candidate base i = base ++ b'-' ∷ to_string (pos i)

  -- The loop of `unique_dest` from `i` on, with the rounds left.
  unfoldable pub unique_from : ℕ → ℕ → Bytes → os.State → Bytes
  unique_from zero i base s = base ++ codes "-full"
  unique_from (suc rounds) i base s = elim (os.exists (candidate base i) s) [
    | true ↦ unique_from rounds (suc i) base s
    | false ↦ candidate base i
  ]

  -- The rounds of the loop: `i` from 1 below `1 << 20`.
  abbrev pub k_rounds : ℕ
  k_rounds = 2 ^ 20 - 1

  unfoldable pub unique_dest : Bytes → Bytes → os.State → Bytes
  unfolding unique_from
  unique_dest dir name s =
      let base = dir ++ b'/' ∷ name in
      elim (os.exists base s) [ false ↦ base | true ↦ unique_from k_rounds 1 base s ]

  -- One round of the last loop of `move_out`.
  unfoldable pub move_one : Bytes → Bytes → Bytes → ErrorState × os.State → ErrorState × os.State
  unfolding unique_dest note
  move_one latest log_dir n (e, s) =
      let src = latest ++ b'/' ∷ n in
      let dest = unique_dest log_dir n s in
      let (done, s') = os.rename src dest s in
      elim done [
        | good u ↦ (e, s')
        | bad err ↦
            (note (codes "could not move " ++ (src ++ (codes ": " ++ os.strerror err))) e, s')
      ]

  unfoldable pub move_all :
      Bytes → Bytes → List Bytes → ErrorState × os.State → ErrorState × os.State
  unfolding move_one
  move_all latest log_dir [] w = w
  move_all latest log_dir (n ∷ names) w =
      move_all latest log_dir names (move_one latest log_dir n w)

  -- From the opened directory on.
  abbrev pub move_listed :
      Bytes → Bytes → Option (List Bytes) → ErrorState × os.State → ErrorState × os.State
  move_listed latest log_dir none w = w
  move_listed latest log_dir (some names) w = move_all latest log_dir (entries names) w

  unfoldable pub move_out : Bytes → Bytes → ErrorState × os.State → ErrorState × os.State
  unfolding move_all entries
  move_out latest log_dir (e, s) = move_listed latest log_dir (os.list_dir latest s) (e, s)

  unfoldable pub mtime_of : Bytes → os.State → ℤ
  mtime_of path s = elim (os.mtime path s) [ none ↦ pos 0 | some t ↦ t ]

  -- The unlinks of `reap_run_files`.
  unfoldable pub reap_names : Bytes → Bytes → List Bytes → os.State → os.State
  reap_names log_dir stem [] s = s
  reap_names log_dir stem (n ∷ names) s = elim (starts_with stem n && ends_with (codes ".log") n) [
    | true ↦ reap_names log_dir stem names (os.unlink (log_dir ++ b'/' ∷ n) s)
    | false ↦ reap_names log_dir stem names s
  ]

  abbrev pub reap_listed : Bytes → Bytes → Option (List Bytes) → os.State → os.State
  reap_listed log_dir stem none s = s
  reap_listed log_dir stem (some names) s = reap_names log_dir stem names s

  unfoldable pub reap_run_files : Bytes → Bytes → os.State → os.State
  unfolding reap_names
  reap_run_files log_dir stem s = reap_listed log_dir stem (os.list_dir log_dir s) s

  abbrev pub probe_fd : ℤ → Bool → os.State → Bool × os.State
  probe_fd fd true s = (true, os.close fd (os.unlock fd s))
  probe_fd fd false s = (false, os.close fd s)

  abbrev pub probe_opened : Option ℤ → os.State → Bool × os.State
  probe_opened none s = (false, s)
  probe_opened (some fd) s = probe_fd fd (os.try_lock fd s).0 (os.try_lock fd s).1

  -- A run is dead if its lock can be taken without blocking.
  unfoldable pub probe_lock : Bytes → os.State → Bool × os.State
  probe_lock path s = let (opened, s') = os.open_old path s in probe_opened opened s'

  -- The loop of `retention` over the directory.
  unfoldable pub find_runs : Bytes → List Bytes → os.State → List Run × os.State
  unfolding stem_of probe_lock mtime_of
  find_runs log_dir [] s = ([], s)
  find_runs log_dir (n ∷ names) s = elim (stem_of n) [
    | none ↦ find_runs log_dir names s
    | some stem ↦
        let path = log_dir ++ b'/' ∷ n in
        let (dead, s') = probe_lock path s in
        let (runs, s'') = find_runs log_dir names s' in
        (
          record { stem = stem; lock_path = path; mtime = mtime_of path s'; dead = dead } ∷ runs,
          s'',
        )
  ]

  -- The loop of `retention` over the runs, from place `i` on.
  unfoldable pub reap_from : Bytes → ℤ → ℤ → ℤ → ℕ → List Run → os.State → os.State
  unfolding to_reap reap_run_files
  reap_from log_dir now retain_runs retain_days i [] s = s
  reap_from log_dir now retain_runs retain_days i (r ∷ runs) s =
      elim (to_reap now retain_runs retain_days i r) [
        | true ↦
            reap_from log_dir now retain_runs retain_days (suc i) runs
              (os.unlink r.lock_path (reap_run_files log_dir r.stem s))
        | false ↦ reap_from log_dir now retain_runs retain_days (suc i) runs s
      ]

  unfoldable pub open_log_file : ℤ → Bytes → os.State → Outcome ℤ × os.State
  open_log_file dir_fd name s = os.open_append dir_fd name s

  -- `std::sort` by falling time leaves open how runs of the same time are ordered.
  module _ (sort : List Run → List Run) where
    -- From the opened directory on.
    abbrev pub retain : Bytes → ℤ → ℤ → Option (List Bytes) → os.State → os.State
    retain log_dir retain_runs retain_days none s = s
    retain log_dir retain_runs retain_days (some names) s =
        let (runs, s') = find_runs log_dir names s in
        reap_from log_dir (os.time s') retain_runs retain_days 0 (sort runs) s'

    unfoldable pub retention : Bytes → ℤ → ℤ → os.State → os.State
    unfolding find_runs reap_from
    retention log_dir retain_runs retain_days s =
        if not (ltb_ℤ (pos 0) retain_runs) && not (ltb_ℤ (pos 0) retain_days)
        then s
        else retain log_dir retain_runs retain_days (os.list_dir log_dir s) s
