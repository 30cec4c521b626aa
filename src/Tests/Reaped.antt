-- ===== src/Tests/Reaped.antt =====
-- A directory with a dead run and a live one, and free names beside it.
use mathlib.Core.Bool.{◌||◌}
use simple_logger.Base.{
  ℕ, ◌≡◌, refl, sym, subst, Bool, true, false, not, some, List, [], ◌∷◌, ◌++◌, Bytes, codes,
  if◌then◌else◌, arith, beq, beq_iff, Bool-cases, inl, inr, ◌⊎◌, ◌≤◌,
}
use simple_logger.Base.Int.{ℤ, pos, eqb_ℤ, eqb_ℤ_iff, ◌-ℤ◌}
use simple_logger.Os.{Os, wrote, good, bad}
use simple_logger.RunDir.{stem_of, starts_with, retention, unique_dest, candidate, k_rounds}
use simple_logger.RunDir.Reaped.{Spares, retention-kept}
use simple_logger.RunDir.Unique.{unique_dest-free_name}
use simple_logger.Tests.RunDir.{as_listed}

abbrev dead_lock : Bytes
dead_lock = codes ".slog-run-7-x.lock"

abbrev live_log : Bytes
live_log = codes "/l/8-y.1.log"

abbrev removed : Bytes → List Bytes → Bool
removed p [] = false
removed p (q ∷ s) = beq q p || removed p s

-- The state is the list of the paths that were unlinked.
abbrev trace_os : Os
trace_os = record {
  State = List Bytes;
  write = λ fd buf s. (wrote 1, s);
  fdatasync = λ fd s. s;
  close = λ fd s. s;
  mkdir = λ p s. (bad (pos 17), s);
  exists = λ p s. not (removed p s);
  list_dir = λ p s.
      some (dead_lock ∷ codes ".slog-run-8-y.lock" ∷ codes "7-x.1.log" ∷ codes "8-y.1.log" ∷ []);
  rename = λ a b s. (good tt, s);
  unlink = λ p s. p ∷ s;
  open_create = λ p s. (good (pos 9), s);
  open_dir = λ p s. (good (pos 9), s);
  open_old = λ p s. (some (if beq p (codes "/l/.slog-run-7-x.lock") then pos 7 else pos 8), s);
  open_append = λ fd p s. (bad (pos 28), s);
  lock = λ fd s. s;
  try_lock = λ fd s. (eqb_ℤ fd (pos 7), s);
  unlock = λ fd s. s;
  mtime = λ p s. some (pos 50);
  time = λ s. pos 1000000;
  wall_now = λ s. pos 1700000000000000000;
  getpid = λ s. pos 42;
  gettid = λ s. pos 43;
  isatty = λ s. false;
  strerror = λ e. codes "error";
}

abbrev live_kept : List Bytes → Bool
live_kept s = not (removed live_log s)

retention_unlinks :
    retention trace_os as_listed (codes "/l") (pos 0) (pos 1) []
    ≡ codes "/l/.slog-run-7-x.lock" ∷ codes "/l/7-x.1.log" ∷ []
unfolding retention beq ◌-ℤ◌
retention_unlinks = refl

probe_dead :
    (b : Bool) (fd : ℤ)
    → some (if b then pos 7 else pos 8) ≡ some fd
    → eqb_ℤ fd (pos 7) ≡ true
    → b ≡ true
probe_dead true fd e locked = refl
probe_dead false fd e locked = ground (arith, eqb_ℤ_iff fd (pos 7))

lock_kept :
    (n : Bytes) (s : List Bytes)
    → n ≡ dead_lock
    → live_kept s ≡ true
    → live_kept ((codes "/l/" ++ n) ∷ s) ≡ true
unfolding beq
lock_kept n s e h = subst (λ m. live_kept ((codes "/l/" ++ m) ∷ s) ≡ true) (sym e) h

not_live : (m : Bytes) → starts_with (codes "7-x") m ≡ true → beq m (codes "8-y.1.log") ≡ false
unfolding beq starts_with
not_live m starts = elim (Bool-cases (beq m (codes "8-y.1.log"))) [
  | inl e ↦
      let wrong : false ≡ true =
        subst (λ k. starts_with (codes "7-x") k ≡ true) ((beq_iff m (codes "8-y.1.log")).0 e)
          starts in
      ground arith
  | inr e ↦ e
]

log_kept :
    (n stem m : Bytes) (s : List Bytes)
    → n ≡ dead_lock
    → stem_of n ≡ some stem
    → starts_with stem m ≡ true
    → live_kept s ≡ true
    → live_kept ((codes "/l/" ++ m) ∷ s) ≡ true
unfolding beq stem_of
log_kept n stem m s at e starts h =
    let known : some (codes "7-x") ≡ some stem = subst (λ k. stem_of k ≡ some stem) at e in
    let same : stem ≡ codes "7-x" = cc in
    rw (not_live m (subst (λ k. starts_with k m ≡ true) same starts)) h

spares_live : Spares trace_os (codes "/l")
unfolding beq
spares_live = record {
  kept = live_kept;
  dead = λ n. beq n dead_lock;
  open_old = λ p s h. h;
  try_lock = λ fd s h. h;
  unlock = λ fd s h. h;
  close = λ fd s h. h;
  probe = λ n fd s h e locked. probe_dead (beq n dead_lock) fd e locked;
  unlink_lock = λ n stem s e d h. lock_kept n s ((beq_iff n dead_lock).0 d) h;
  unlink_log =
      λ n stem m s e d starts ends h. log_kept n stem m s ((beq_iff n dead_lock).0 d) e starts h;
}

retention-kept_example :
    live_kept (retention trace_os as_listed (codes "/l") (pos 0) (pos 1) []) ≡ true
unfolding spares_live
retention-kept_example =
    retention-kept trace_os (codes "/l") spares_live as_listed (λ P runs h. h) (pos 0) (pos 1) []
      refl

unique_dest-free_name_example :
    (trace_os.exists
        (unique_dest trace_os (codes "/l") (codes "old.log") (codes "/l/old.log-1" ∷ []))
        (codes "/l/old.log-1" ∷ [])
      ≡ false)
    ⊎ ((trace_os.exists (codes "/l/old.log") (codes "/l/old.log-1" ∷ []) ≡ true)
        × ((j : ℕ)
            → 1 ≤ j
            → j ≤ k_rounds trace_os
            → trace_os.exists
                (candidate trace_os (codes "/l/old.log") j)
                (codes "/l/old.log-1" ∷ [])
              ≡ true))
unique_dest-free_name_example =
    unique_dest-free_name trace_os (codes "/l") (codes "old.log") (codes "/l/old.log-1" ∷ [])
