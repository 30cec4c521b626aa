-- ===== src/Base/Options.antt =====
-- Steps that may have no result, one after another.
use mathlib.Core.Option.{Option, none, some}

infixl 55 ◌>>=◌
abbrev pub ◌>>=◌ {ℓ κ} : {A : Type ℓ} {B : Type κ} → Option A → (A → Option B) → Option B
none >>= f = none
(some a) >>= f = f a
