-- ===== src/Sink.antt =====
-- src/sink.cpp: the loop that writes a line to a descriptor, and the memory capture of the tests.
pub mod WriteAll
use simple_logger.Base.{
  ℕ, zero, suc, ◌+◌, ◌-◌, Bool, true, false, List, [], ◌∷◌, ◌++◌, Bytes, ltb, ◌==◌, if◌then◌else◌,
  length, drop,
}
use simple_logger.Base.Int.{ℤ, pos}
use simple_logger.Os.{Os, Answer, interrupted, wrote, failed}

-- How `write_all` ends: all written, a real error, or still in its loop when the fuel is out.
pub data Written : Type 0 where
  all : Written
  error : ℤ → Written
  looping : Written

module _ (os : Os) where
  -- The loop over what is left of the buffer, a round for each call of `write`. `::write` says
  -- how much of it was taken; `done` moves by that much.
  unfoldable pub write_all : ℕ → ℤ → Bytes → os.State → Written × os.State
  write_all fuel fd [] s = (all, s)
  write_all zero fd (c ∷ left) s = (looping, s)
  write_all (suc fuel) fd (c ∷ left) s =
      let (answer, s') = os.write fd (c ∷ left) s in
      elim answer [
        | interrupted ↦ write_all fuel fd (c ∷ left) s'
        | failed e ↦ (error e, s')
        | wrote n ↦ write_all fuel fd (drop n (c ∷ left)) s'
      ]

-- The capture's statics.
pub record Capture : Type 0 where
  pub on : Bool
  pub buf : List Bytes

abbrev pub start_capture : Capture
start_capture = record { on = false; buf = [] }

abbrev pub mem_capture_active : Capture → Bool
mem_capture_active c = c.on

-- A line without its newline.
unfoldable pub chomp : Bytes → Bytes
chomp [] = []
chomp (c ∷ []) = if c == b'\n' then [] else c ∷ []
chomp (c ∷ d ∷ s) = c ∷ chomp (d ∷ s)

unfoldable pub mem_capture_add : Bytes → Capture → Capture
unfolding chomp
mem_capture_add line c = record c { buf = c.buf ++ chomp line ∷ [] }

unfoldable pub mem_capture_reset : Capture → Capture
mem_capture_reset c = record { on = false; buf = [] }

-- `MemoryCapture::lines`, `size` and `clear`; `capture_to_memory` and `stop_capture`
unfoldable pub lines : Capture → List Bytes
lines c = c.buf

unfoldable pub size : Capture → ℕ
size c = length c.buf

unfoldable pub clear : Capture → Capture
clear c = record c { buf = [] }

unfoldable pub capture_to_memory : Capture → Capture
capture_to_memory c = record c { on = true }

unfoldable pub stop_capture : Capture → Capture
stop_capture c = record c { on = false }
