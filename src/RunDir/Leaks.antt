-- ===== src/RunDir/Leaks.antt =====
-- The descriptors that `open_run` of src/run_dir.cpp leaves open, beside those of its result.
use mathlib.Core.Bool.{◌||◌}
use simple_logger.Base.{
  ℕ, ◌≡◌, refl, sym, ◌∙◌, Bool, false, Option, none, some, List, [], ◌∷◌, Bytes, arith,
  if◌then◌else◌,
}
use simple_logger.Base.Int.{ℤ, pos, negsuc, eqb_ℤ, eqb_ℤ_iff}
use simple_logger.Os.{Os, Outcome, good, bad}
use simple_logger.RunDir.{RunDir, open_log_file}
use simple_logger.RunDir.Descriptors.{Opens, Table}
use simple_logger.RunDir.Open.{fd_or, close_if, give_up, first_opened, open_first}

abbrev pub memb : ℤ → List ℤ → Bool
memb f [] = false
memb f (g ∷ fds) = eqb_ℤ f g || memb f fds

-- The table `after` is `before` and the descriptors `fds`, which were not open before and differ.
abbrev pub Adds : List ℤ → (ℤ → Bool) → (ℤ → Bool) → Type 0
Adds [] before after = (f : ℤ) → after f ≡ before f
Adds (fd ∷ fds) before after =
    (memb fd fds ≡ false)
    × (before fd ≡ false)
    × ((f : ℤ) → after f ≡ (memb f (fd ∷ fds) || before f))
    × Adds fds before (λ f. memb f fds || before f)

pub Adds-table :
    (fds : List ℤ) (before after : ℤ → Bool)
    → Adds fds before after
    → (f : ℤ) → after f ≡ (memb f fds || before f)
Adds-table [] before after h f = h f
Adds-table (fd ∷ fds) before after h f = h.2 f

pub Adds-same :
    (fds : List ℤ) (before after later : ℤ → Bool)
    → Adds fds before after
    → ((f : ℤ) → later f ≡ after f)
    → Adds fds before later
Adds-same [] before after later h k = λ f. k f ∙ h f
Adds-same (fd ∷ fds) before after later (a, b, c, d) k = (a, b, λ f. k f ∙ c f, d)

-- One more descriptor is opened.
pub Adds-open :
    (fds : List ℤ) (before after later : ℤ → Bool) (n : ℕ)
    → Adds fds before after
    → Opens after (good (pos n)) later
    → Adds (pos n ∷ fds) before later
Adds-open fds before after later n h (fresh, grown) =
    let here = Adds-table fds before after h (pos n) in
    let whole = Adds-table fds before after h in
    (
      ground (arith, here, fresh),
      ground (arith, here, fresh),
      λ f. ground (arith, grown f, whole f),
      Adds-same fds before after _ h (λ f. sym (whole f)),
    )

-- The newest descriptor is closed.
pub Adds-close :
    (fds : List ℤ) (before after later : ℤ → Bool) (fd : ℤ)
    → Adds (fd ∷ fds) before after
    → ((f : ℤ) → later f ≡ (if eqb_ℤ f fd then false else after f))
    → Adds fds before later
Adds-close fds before after later fd (a, b, c, d) k =
    Adds-same fds before (λ f. memb f fds || before f) later d
      (λ f. ground (arith, k f, c f, eqb_ℤ_iff f fd, a, b))

pub Adds-swap :
    (x y : ℤ) (fds : List ℤ) (before after : ℤ → Bool)
    → Adds (x ∷ y ∷ fds) before after
    → Adds (y ∷ x ∷ fds) before after
Adds-swap x y fds before after (a, b, c, (a', b', c', d)) = (
  ground (arith, a, a', eqb_ℤ_iff x y, eqb_ℤ_iff y x),
  b',
  λ f. ground (arith, c f),
  (ground (arith, a), b, λ f. refl, d),
)

pub Adds-swap_second :
    (w x y : ℤ) (fds : List ℤ) (before after : ℤ → Bool)
    → Adds (w ∷ x ∷ y ∷ fds) before after
    → Adds (w ∷ y ∷ x ∷ fds) before after
Adds-swap_second w x y fds before after (a, b, c, d) = (
  ground (arith, a),
  b,
  λ f. ground (arith, c f),
  Adds-same (y ∷ x ∷ fds) before _ _ (Adds-swap x y fds before _ d) (λ f. ground arith),
)

-- The descriptors that a result holds.
abbrev pub keep_fd : ℤ → List ℤ → List ℤ
keep_fd (pos n) fds = pos n ∷ fds
keep_fd (negsuc n) fds = fds

abbrev pub held : RunDir → List ℤ
held rd = keep_fd rd.first_fd (keep_fd rd.dir_fd (keep_fd rd.run_lock_fd []))

-- A lock that may be there, and is not negative.
abbrev pub IsLock : Option ℤ → Type 0
IsLock none = Unit
IsLock (some (pos n)) = Unit
IsLock (some (negsuc n)) = ⊥

abbrev pub lock_list : Option ℤ → List ℤ
lock_list o = keep_fd (fd_or o) []

module _ (os : Os) (table : Table os) where
  open table use {opened}

  pub close_if-Adds :
      (o : Option ℤ) (before : ℤ → Bool) (s : os.State)
      → IsLock o
      → Adds (lock_list o) before (opened s)
      → Adds [] before (opened (close_if os o s))
  close_if-Adds none before s h a = a
  close_if-Adds (some (negsuc n)) before s h a = absurd h
  close_if-Adds (some (pos n)) before s h a =
      Adds-close [] before (opened s) _ (pos n) a (λ f. table.close (pos n) f s)

  -- The structure lock is unlocked and closed.
  pub struct_closed :
      (slfd : ℤ) (fds : List ℤ) (before : ℤ → Bool) (s : os.State)
      → Adds (slfd ∷ fds) before (opened s)
      → Adds fds before (opened (os.close slfd (os.unlock slfd s)))
  struct_closed slfd fds before s a =
      Adds-close fds before (opened (os.unlock slfd s)) _ slfd
        (Adds-same (slfd ∷ fds) before (opened s) _ a (λ f. table.unlock slfd f s))
        (λ f. table.close slfd f (os.unlock slfd s))

  pub give_up-Adds :
      (slfd : ℤ) (o : Option ℤ) (before : ℤ → Bool) (s : os.State)
      → IsLock o
      → Adds (slfd ∷ lock_list o) before (opened s)
      → Adds [] before (opened (give_up os slfd o s))
  give_up-Adds slfd o before s h a =
      close_if-Adds o before (os.close slfd (os.unlock slfd s)) h
        (struct_closed slfd (lock_list o) before s a)

  -- What a result says of the descriptors: those it holds were opened, and a failed one holds none.
  abbrev pub Honest : (ℤ → Bool) → RunDir → os.State → Type 0
  Honest before rd s = Adds (held rd) before (opened s) × (rd.ok ≡ false → held rd ≡ [])

  opened_first :
      (o : Outcome ℤ) (fds : List ℤ) (before middle after : ℤ → Bool) (rd : RunDir)
      → rd.first_fd ≡ negsuc 0
      → Adds fds before middle
      → Opens middle o after
      → Adds (keep_fd (first_opened os o rd).first_fd fds) before after
  opened_first (bad e) fds before middle after rd none_yet a h =
      rw none_yet (Adds-same fds before middle after a h)
  opened_first (good (negsuc n)) fds before middle after rd none_yet a h = absurd h
  opened_first (good (pos n)) fds before middle after rd none_yet a h =
      Adds-open fds before middle after n a h

  pub open_first-Adds :
      (dir_fd : ℤ) (first_file : Bytes) (fds : List ℤ) (before : ℤ → Bool) (rd : RunDir)
      (s : os.State)
      → rd.first_fd ≡ negsuc 0
      → Adds fds before (opened s)
      → Adds
          (keep_fd (open_first os dir_fd first_file rd s).0.first_fd fds)
          before
          (opened (open_first os dir_fd first_file rd s).1)
  unfolding open_first open_log_file
  open_first-Adds dir_fd [] fds before rd s none_yet a = rw none_yet a
  open_first-Adds dir_fd (c ∷ name) fds before rd s none_yet a =
      opened_first (os.open_append dir_fd (c ∷ name) s).0 fds before (opened s) _ rd none_yet a
        (table.open_append dir_fd (c ∷ name) s)
