-- ===== src/Logger/Message.antt =====
-- The message part of `format_and_dispatch` of src/logger.cpp. What `vsnprintf` would print in full,
-- by the format text, is a parameter; it is none for a negative answer.
use mathlib.Core.Bool.{◌||◌}
use simple_logger.Base.{
  ℕ, ◌-◌, Bool, true, false, Option, none, some, [], ◌∷◌, ◌++◌, Bytes, codes, ltb, ◌==◌,
  if◌then◌else◌, take, length, Lacks, arith,
}
use simple_logger.Format.Lines.{newline}

-- `kMaxLine` and `kMaxMsg`
abbrev pub k_max_line : ℕ
k_max_line = 4096

abbrev pub k_max_msg : ℕ
k_max_msg = 3072

-- `if (fmt == nullptr) fmt = "(null)";`
abbrev pub format_text : Option Bytes → Bytes
format_text none = codes "(null)"
format_text (some fmt) = fmt

-- The message in its buffer, and whether it was cut: the last three bytes are then dots.
unfoldable pub cut_message : Bytes → Bytes × Bool
cut_message full =
    if ltb (k_max_msg - 1) (length full)
    then (take (k_max_msg - 4) full ++ codes "...", true)
    else (full, false)

abbrev pub message_of : Option Bytes → Bytes × Bool
unfolding cut_message
message_of none = ([], false)
message_of (some full) = cut_message full

-- The loop over the message: newlines and returns become spaces.
unfoldable pub flatten : Bytes → Bytes
flatten [] = []
flatten (c ∷ s) = (if c == b'\n' || c == b'\r' then b' ' else c) ∷ flatten s

pub flatten-Lacks : (s : Bytes) → Lacks newline (flatten s)
unfolding flatten
flatten-Lacks [] = tt
flatten-Lacks (c ∷ s) = (ground arith, flatten-Lacks s)
