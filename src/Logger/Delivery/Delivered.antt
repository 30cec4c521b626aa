-- ===== src/Logger/Delivery/Delivered.antt =====
-- What `dispatch` of src/logger.cpp gives the descriptor of a module's file, whether it admits the record
-- or not.
use simple_logger.Base.{
  ℕ, ◌+◌, ◌≤◌, ◌≡◌, ◌≢◌, refl, Bool, true, false, some, List, Bytes, ◌++◌, arith, Bool-cases, inl,
  inr, beq_iff, if◌then◌else◌,
}
use simple_logger.Base.Int.{ℤ, pos, leb_ℤ}
use simple_logger.Level.{Level}
use simple_logger.Errors.{ErrorState, Call}
use simple_logger.Format.{FormatSpec, SourceLoc, TimeText, build_line}
use simple_logger.Os.{Os}
use simple_logger.RunDir.{Run}
use simple_logger.Logger.{Logger}
use simple_logger.Logger.Files.{World, cached_pid, cached_tid, ensure_file_open}
use simple_logger.Logger.Admit.{state_of, file_admits}
use simple_logger.Logger.Emit.{gather, record_of, dispatch_with}
use simple_logger.Logger.Filter.{file_turn_silent}
use simple_logger.Logger.Message.{k_max_line}
use simple_logger.Logger.Delivery.Ends.{Disk, IsGentle, few, dispatch-EndsWith, returned}
use simple_logger.Logger.Delivery.Appended.{
  NeverFails, Leaves, stdout_turn-Leaves, given_back, dispatch_with-appends,
}

-- What the descriptor has been given behind the call of a record with the given line.
abbrev pub after : Bool → Bytes → Bytes → Bytes
after admits old line = if admits then old ++ line else old

module _ (os : Os) (tt_ : TimeText) (sort : List Run → List Run) (call : Call (Logger × os.State))
    (disk : Disk os) (gentle : IsGentle os disk call) (fd : ℤ) (other : fd ≢ pos 1)
    (never : NeverFails os fd) (real : leb_ℤ (pos 0) fd ≡ true) (fuel : ℕ) where
  dispatch_with-Leaves_alone :
      (key : Bytes) (level : Level) (loc : SourceLoc) (msg : Bytes) (fs : FormatSpec)
      (e : ErrorState) (lg : Logger) (s : os.State)
      → file_admits (state_of key lg) level.value ≡ false
      → Leaves os tt_ sort call disk gentle fd
          (disk.posix.contents s fd)
          (dispatch_with os tt_ sort call fuel key level loc msg fs (e, (lg, s)))
  unfolding dispatch_with gather cached_pid cached_tid record_of
  dispatch_with-Leaves_alone key level loc msg fs e lg s refused =
      let got = gather os tt_ sort call key level loc msg fs (e, (lg, s)) in
      rw (file_turn_silent os tt_ sort call fuel key fs got.0 got.1 refused) (
        stdout_turn-Leaves os tt_ sort call disk gentle fd other never real fuel
          (disk.posix.contents s fd) key fs got.0 got.1
          ((beq_iff (disk.posix.contents s fd) _).1 refl))

  -- The call returns, and the descriptor has been given the line exactly if the module's file admits the
  -- record.
  pub dispatch_with-after :
      (key : Bytes) (level : Level) (loc : SourceLoc) (msg : Bytes) (fs : FormatSpec)
      (e : ErrorState) (lg : Logger) (s : os.State)
      → let got = gather os tt_ sort call key level loc msg fs (e, (lg, s)) in
        let line = build_line tt_ fs got.0 false k_max_line in
        k_max_line + disk.posix.pending s ≤ fuel
        → lg.capture.on ≡ false
        → (ensure_file_open os tt_ sort (state_of key lg) got.1).0.0 ≡ fd
        → (w : World os tt_ sort) × (dispatch_with os tt_ sort call fuel key level loc msg fs
              (e, (lg, s))
            ≡ some w)
          × (disk.posix.contents w.1.1 fd
              ≡ after (file_admits (state_of key lg) level.value) (disk.posix.contents s fd) line)
  dispatch_with-after key level loc msg fs e lg s enough off opens =
      let n = disk.posix.pending s in
      let quiet : few os tt_ sort call disk gentle n s ≡ true = ground arith in
      elim (Bool-cases (file_admits (state_of key lg) level.value)) [
        | inl admits ↦
            let (w, is_w, given, one_line) =
              dispatch_with-appends os tt_ sort call disk gentle fd other never real fuel key level
                loc msg fs e lg s enough admits off opens in
            (w, is_w, rw admits given)
        | inr refused ↦
            let (w, is_w) = returned os tt_ sort call disk gentle n _ (
              dispatch-EndsWith os tt_ sort call disk gentle n fuel enough key level loc msg
                (some fs) (e, (lg, s)) quiet) in
            (
              w,
              is_w,
              rw refused (
                  given_back os tt_ sort call disk gentle fd other never real fuel
                    (disk.posix.contents s fd) _ w is_w
                    (dispatch_with-Leaves_alone key level loc msg fs e lg s refused)),
            )
      ]
