-- ===== src/Logger/Forked.antt =====
-- A forked child: what the fork handler and `restart_after_fork` of src/logger.cpp make of the logger that
-- it has from its parent.
use simple_logger.Base.{Bool, List, [], Bytes, codes, if◌then◌else◌}
use simple_logger.Base.Int.{ℤ}
use simple_logger.Errors.{ErrorState}
use simple_logger.Format.{TimeText}
use simple_logger.Os.{Os}
use simple_logger.RunDir.{Run}
use simple_logger.RunDir.Open.{open_run}
use simple_logger.Logger.{Logger, OpenErr, sanitize_tag, format_timestamp, make_filename}
use simple_logger.Logger.Files.{World, dir_of, take_run}
use simple_logger.Logger.Life.{do_restart_after_fork, atfork_child}

module _ (os : Os) (tt_ : TimeText) (sort : List Run → List Run) where
  -- The child's logger behind the fork handler and the restart.
  abbrev pub restarted : Logger → os.State → Logger × os.State
  restarted lg s = do_restart_after_fork os (atfork_child os (lg, s))

  -- The name of the single file, by a process's id, or none with files per module.
  abbrev pub own_file : Logger → ℤ → os.State → Bytes
  own_file lg pid s =
      if lg.settings.file_per_module
      then []
      else make_filename lg.settings pid (format_timestamp tt_ (os.wall_now s)) (codes "default")

  -- The opening of a run by the process's id `pid`.
  abbrev pub open_own : ErrorState → Logger → ℤ → os.State → (Bool × OpenErr) × World os tt_ sort
  open_own e lg pid s =
      let stamp = format_timestamp tt_ (os.wall_now s) in
      let dir = dir_of lg.settings.log_dir in
      let (rd, (e', s')) =
        open_run os sort dir (sanitize_tag lg.settings.run_tag) lg.settings.retain_runs
          lg.settings.retain_days pid stamp (own_file lg pid s) (e, s) in
      let (result, lg') =
        take_run os tt_ sort dir (own_file lg pid s) rd
          (record lg { timestamp = stamp; pid = pid }) in
      (result, (e', (lg', s')))
