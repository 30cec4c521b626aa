-- ===== src/Logger/Files/Crash.antt =====
-- The crash handler's table of src/logger.cpp beside the list of the open files.
use simple_logger.Base.{
  ℕ, ◌+◌, ◌≤◌, ◌<◌, ◌≡◌, sym, ap, ◌∙◌, true, false, [], ◌∷◌, ◌++◌, arith, take, length, take_all,
  take-append_left, length-append, leb, lt-cases, inl, inr, min, if◌then◌else◌,
}
use simple_logger.Base.Int.{ℤ}
use simple_logger.Logger.{Logger}
use simple_logger.Logger.Files.{register_crash_fd, add_fd}

-- The counted entries are the first 64 open files.
pub record IsMirrored (lg : Logger) : Type 0 where
  pub counted : lg.crash_fd_count ≡ min (length lg.open_fds) 64
  pub same : take lg.crash_fd_count lg.crash_fds ≡ take 64 lg.open_fds

le→leb : (a b : ℕ) → a ≤ b → leb a b ≡ true
le→leb a b h = ground arith

lt→leb : (a b : ℕ) → b < a → leb a b ≡ false
lt→leb a b h = ground arith

abbrev grown : ℤ → Logger → Logger
grown fd lg = record lg {
  crash_fds = take lg.crash_fd_count lg.crash_fds ++ fd ∷ [];
  crash_fd_count = lg.crash_fd_count + 1;
}

register_full : (fd : ℤ) (lg : Logger) → 64 ≤ lg.crash_fd_count → register_crash_fd fd lg ≡ lg
unfolding register_crash_fd
register_full fd lg h = ap (λ b. if b then lg else grown fd lg) (le→leb 64 lg.crash_fd_count h)

register_room :
    (fd : ℤ) (lg : Logger) → lg.crash_fd_count < 64 → register_crash_fd fd lg ≡ grown fd lg
unfolding register_crash_fd
register_room fd lg h = ap (λ b. if b then lg else grown fd lg) (lt→leb 64 lg.crash_fd_count h)

-- Keeping a new descriptor keeps the table a mirror of the open files.
pub add_fd-IsMirrored : (fd : ℤ) (lg : Logger) → IsMirrored lg → IsMirrored (add_fd fd lg)
add_fd-IsMirrored fd lg h =
    let lg' = record lg { open_fds = lg.open_fds ++ fd ∷ [] } in
    let counted = h.counted in
    elim (lt-cases lg.crash_fd_count 64) [
      | inl room ↦
          let whole : take lg.crash_fd_count lg.crash_fds ≡ lg.open_fds =
            h.same ∙ take_all 64 lg.open_fds (omega arith) in
          rw (register_room fd lg' room) (record {
            counted = omega (arith, length-append lg.open_fds (fd ∷ []));
            same = rw whole (
                take_all (lg.crash_fd_count + 1) (lg.open_fds ++ fd ∷ [])
                  (omega (arith, length-append lg.open_fds (fd ∷ [])))
                ∙ sym (
                    take_all 64 (lg.open_fds ++ fd ∷ [])
                      (omega (arith, length-append lg.open_fds (fd ∷ [])))));
          })
      | inr full ↦ rw (register_full fd lg' full) (record {
        counted = omega (arith, length-append lg.open_fds (fd ∷ []));
        same = h.same ∙ sym (take-append_left 64 lg.open_fds (fd ∷ []) (omega arith));
      })
    ]
