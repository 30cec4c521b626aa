-- ===== src/Sink/WriteAll.antt =====
-- The loop of `write_all` of src/sink.cpp, and what the system documents of `write(2)`.
use simple_logger.Base.{
  ℕ, zero, suc, ◌+◌, ◌≤◌, ◌<◌, ◌≡◌, refl, ◌∙◌, [], ◌∷◌, ◌++◌, append_assoc, append-nil, sym,
  take-append-drop, take-take-drop, length-drop, arith, Bytes, length, take, drop,
}
use simple_logger.Base.Int.{ℤ}
use simple_logger.Os.{Os, Answer, interrupted, wrote, failed}
use simple_logger.Sink.{Written, all, error, looping, write_all}

-- What `write(2)` documents of a descriptor: `contents` is what has been written to it. A call
-- takes a first part of its buffer, which is not empty, or nothing. `pending` counts the signals
-- that can still interrupt a call.
pub record Posix (os : Os) : Type 0 where
  pub contents : os.State → ℤ → Bytes
  pub pending : os.State → ℕ
  pub write_interrupted :
      (fd : ℤ) (buf : Bytes) (s : os.State)
      → (os.write fd buf s).0 ≡ interrupted
      → (contents (os.write fd buf s).1 fd ≡ contents s fd)
        × (pending (os.write fd buf s).1 < pending s)
  pub write_wrote :
      (fd : ℤ) (buf : Bytes) (s : os.State) (n : ℕ)
      → (os.write fd buf s).0 ≡ wrote n
      → (0 < n)
        × (n ≤ length buf)
        × (contents (os.write fd buf s).1 fd ≡ contents s fd ++ take n buf)
        × (pending (os.write fd buf s).1 ≤ pending s)
  pub write_failed :
      (fd : ℤ) (buf : Bytes) (s : os.State) (e : ℤ)
      → (os.write fd buf s).0 ≡ failed e
      → contents (os.write fd buf s).1 fd ≡ contents s fd

-- All of the buffer was written, or an error came behind a first part of it.
abbrev pub WrittenWell : Bytes → Bytes → Written → Bytes → Type 0
WrittenWell old buf all new = new ≡ old ++ buf
WrittenWell old buf (error e) new = (n : ℕ) × (new ≡ old ++ take n buf)
WrittenWell old buf looping new = ⊥

module _ (os : Os) (posix : Posix os) where
  open posix use {contents, pending}

  after_part :
      (old buf : Bytes) (n : ℕ) (w : Written) (new : Bytes)
      → n ≤ length buf
      → WrittenWell (old ++ take n buf) (drop n buf) w new
      → WrittenWell old buf w new
  after_part old buf n all new h k = k ∙ rw (append_assoc, take-append-drop)
  after_part old buf n (error e) new h (m, k) = (n + m, k ∙ rw (append_assoc, take-take-drop))
  after_part old buf n looping new h k = k

  -- A round of the loop behind an answer of `write`.
  abbrev round : ℕ → ℤ → Bytes → os.State → Answer → Written × os.State
  round fuel fd buf s interrupted = write_all os fuel fd buf s
  round fuel fd buf s (failed e) = (error e, s)
  round fuel fd buf s (wrote n) = write_all os fuel fd (drop n buf) s

  -- With a round of fuel for each byte and for each signal that may come, the loop ends. Either the
  -- whole buffer was written behind what was there, or `write` failed and a first part of it was.
  pub write_all-WrittenWell :
      (fuel : ℕ) (fd : ℤ) (buf : Bytes) (s : os.State)
      → length buf + pending s ≤ fuel
      → WrittenWell
          (contents s fd)
          buf
          (write_all os fuel fd buf s).0
          (contents (write_all os fuel fd buf s).1 fd)
  unfolding write_all
  write_all-WrittenWell zero fd [] s h = sym (append-nil _)
  write_all-WrittenWell (suc fuel) fd [] s h = sym (append-nil _)
  write_all-WrittenWell zero fd (c ∷ left) s h = omega arith
  write_all-WrittenWell (suc fuel) fd (c ∷ left) s h =
      go (λ b. write_all-WrittenWell fuel fd b (os.write fd (c ∷ left) s).1) (os.write fd buf s).0
        refl
    where
      buf : Bytes
      buf = c ∷ left

      s' : os.State
      s' = (os.write fd buf s).1

      go :
          ((b : Bytes)
            → length b + pending s' ≤ fuel
            → WrittenWell
                (contents s' fd)
                b
                (write_all os fuel fd b s').0
                (contents (write_all os fuel fd b s').1 fd))
          → (a : Answer) → (os.write fd buf s).0 ≡ a
          → WrittenWell
              (contents s fd)
              buf
              (round fuel fd buf s' a).0
              (contents (round fuel fd buf s' a).1 fd)
      go ih interrupted e =
          let (same, fewer) = posix.write_interrupted fd buf s e in
          rw same at (ih buf (omega arith))
      go ih (failed e) h' = (0, posix.write_failed fd buf s e h' ∙ sym (append-nil _))
      go ih (wrote n) e =
          let (some_taken, fits, grown, fewer) = posix.write_wrote fd buf s n e in
          after_part (contents s fd) buf n _ _ fits
            (rw grown at (ih (drop n buf) (omega (arith, length-drop n buf))))
