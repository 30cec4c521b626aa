-- ===== src/Logger/State/Held.antt =====
-- The descriptors of src/logger.cpp's logger, when files are opened.
use mathlib.Core.Bool.{◌||◌}
use simple_logger.Base.{
  ◌≡◌, refl, sym, subst, true, some, List, [], ◌∷◌, ◌++◌, Bytes, arith, All, beq, less, Bool-cases,
  inl, inr, if_both, leb, Option-cases,
}
use simple_logger.Base.Dict
use simple_logger.Base.Dict.{Dict, lookup}
use simple_logger.Base.Int.{ℤ, eqb_ℤ, eqb_ℤ_iff}
use simple_logger.Level.{Registry}
use simple_logger.Logger.{Module, Logger}
use simple_logger.Logger.Reload.Thresholds.{IsCurrent, insert-AllCurrent, lookup-IsCurrent}
use simple_logger.Logger.Files.{register_crash_fd, add_fd, store_fd, set_fd}
use simple_logger.Logger.Files.Crash.{IsMirrored, add_fd-IsMirrored}
use simple_logger.Logger.State.{has_fd, is_held, IsHeldBy, IsWellFormed, Layers}
use simple_logger.Logger.State.Configured.{set_fd-IsCurrent}

has_fd-append : (f fd : ℤ) (fds : List ℤ) → has_fd f (fds ++ fd ∷ []) ≡ (has_fd f fds || eqb_ℤ f fd)
has_fd-append f fd [] = ground arith
has_fd-append f fd (x ∷ fds) = ground (arith, has_fd-append f fd fds)

-- Opening another file leaves held what was held.
is_held-append :
    (fds : List ℤ) (fd f : ℤ) → is_held fds f ≡ true → is_held (fds ++ fd ∷ []) f ≡ true
is_held-append fds fd f h = ground (arith, has_fd-append f fd fds)

pub is_held-new : (fds : List ℤ) (fd : ℤ) → is_held (fds ++ fd ∷ []) fd ≡ true
is_held-new fds fd = ground (arith, has_fd-append fd fd fds, eqb_ℤ_iff fd fd)

All-IsHeldBy-append :
    (fds : List ℤ) (fd : ℤ) (modules : Dict Module)
    → All (IsHeldBy fds) modules
    → All (IsHeldBy (fds ++ fd ∷ [])) modules
All-IsHeldBy-append fds fd [] h = tt
All-IsHeldBy-append fds fd ((k, ms) ∷ modules) h =
    (is_held-append fds fd ms.file_fd h.0, All-IsHeldBy-append fds fd modules h.1)

pub insert-IsHeldBy :
    (fds : List ℤ) (key : Bytes) (ms : Module) (modules : Dict Module)
    → is_held fds ms.file_fd ≡ true
    → All (IsHeldBy fds) modules
    → All (IsHeldBy fds) (Dict.insert key ms modules)
unfolding Dict.insert
insert-IsHeldBy fds key ms [] p h = (p, tt)
insert-IsHeldBy fds key ms ((k, v) ∷ modules) p h =
    if_both (All (IsHeldBy fds)) (beq k key) _ _ (p, h.1)
      (if_both (All (IsHeldBy fds)) (less key k) _ _ (p, h)
        (h.0, insert-IsHeldBy fds key ms modules p h.1))

pub lookup-IsHeldBy :
    (fds : List ℤ) (key : Bytes) (ms : Module) (modules : Dict Module)
    → All (IsHeldBy fds) modules
    → lookup key modules ≡ some ms
    → is_held fds ms.file_fd ≡ true
unfolding lookup
lookup-IsHeldBy fds key ms [] h e = cc
lookup-IsHeldBy fds key ms ((k, v) ∷ modules) h e =
    ground (arith, lookup-IsHeldBy fds key ms modules h.1)

-- Only the table changes.
register_only :
    (fd : ℤ) (lg : Logger)
    → register_crash_fd fd lg ≡ record lg {
      crash_fds = (register_crash_fd fd lg).crash_fds;
      crash_fd_count = (register_crash_fd fd lg).crash_fd_count;
    }
unfolding register_crash_fd
register_only fd lg = elim (Bool-cases (leb 64 lg.crash_fd_count)) [
  | inl e ↦ rw e refl
  | inr e ↦ rw e refl
]

module _ {r : Registry} {l : Layers} where
  -- Keeping a new descriptor, for a shared file that is then held.
  pub add_shared-IsWellFormed :
      (fd shared : ℤ) (lg : Logger)
      → IsWellFormed r l lg
      → is_held (lg.open_fds ++ fd ∷ []) shared ≡ true
      → let lg' = add_fd fd (record lg { shared_fd = shared }) in
        IsWellFormed r l lg' × (is_held lg'.open_fds fd ≡ true)
  add_shared-IsWellFormed fd shared lg (configured, holding, same) h =
      let opened = record lg { shared_fd = shared; open_fds = lg.open_fds ++ fd ∷ [] } in
      let mirror : IsMirrored (record lg { shared_fd = shared }) = record {
        counted = holding.counted;
        same = holding.mirrored;
      } in
      let grown =
        rw (register_only fd opened) at
          (add_fd-IsMirrored fd (record lg { shared_fd = shared }) mirror) in
      subst (λ x. IsWellFormed r l x × (is_held x.open_fds fd ≡ true))
        (sym (register_only fd opened))
        (
          (
            configured,
            record {
              shared = h;
              kept = All-IsHeldBy-append lg.open_fds fd lg.modules holding.kept;
              counted = grown.counted;
              mirrored = grown.same;
            },
            same,
          ),
          is_held-new lg.open_fds fd,
        )

  pub add_fd-IsWellFormed :
      (fd : ℤ) (lg : Logger)
      → IsWellFormed r l lg
      → IsWellFormed r l (add_fd fd lg) × (is_held (add_fd fd lg).open_fds fd ≡ true)
  add_fd-IsWellFormed fd lg h =
      add_shared-IsWellFormed fd lg.shared_fd lg h
        (is_held-append lg.open_fds fd lg.shared_fd h.1.shared)

  with_module :
      (key : Bytes) (ms : Module) (lg : Logger)
      → IsWellFormed r l lg
      → IsCurrent lg.settings (key, ms)
      → is_held lg.open_fds ms.file_fd ≡ true
      → IsWellFormed r l (record lg { modules = Dict.insert key ms lg.modules })
  with_module key ms lg (c, d, same) current held = (
    record {
      file = c.file;
      env = c.env;
      api = c.api;
      long = c.long;
      cached = c.cached;
      resolved = c.resolved;
      current = insert-AllCurrent lg.settings key ms lg.modules current c.current;
      published = c.published;
      obeyed = c.obeyed;
    },
    record {
      shared = d.shared;
      kept = insert-IsHeldBy lg.open_fds key ms lg.modules held d.kept;
      counted = d.counted;
      mirrored = d.mirrored;
    },
    same,
  )

  -- The store of a held descriptor to a module, which changes no other member.
  pub store_fd-IsWellFormed :
      (key : Bytes) (fd : ℤ) (lg : Logger)
      → IsWellFormed r l lg
      → is_held lg.open_fds fd ≡ true
      → IsWellFormed r l (store_fd key fd lg)
  store_fd-IsWellFormed key fd lg h held = elim (Option-cases (lookup key lg.modules)) [
    | inl missing ↦ rw (missing, store_fd) h
    | inr (ms, found) ↦
        rw (found, store_fd)
          (with_module key (set_fd fd ms) lg h
            (set_fd-IsCurrent lg.settings key fd ms
              (lookup-IsCurrent lg.settings key lg.modules ms h.0.current found))
            held)
  ]
