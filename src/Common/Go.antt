-- ===== src/Common/Go.antt =====
-- How a call of a Go function ends: it returns, or it panics and the process is lost.
use Prim.Native.String.{String}

pub data Outcome {ℓ} (X : Type ℓ) : Type ℓ where
  returns : X → Outcome X
  panics : String → Outcome X

infixl 6 ◌>>=◌
-- The rest of the caller runs if the call returned.
abbrev pub ◌>>=◌ {ℓ κ} : {X : Type ℓ} → {Y : Type κ} → Outcome X → (X → Outcome Y) → Outcome Y
call >>= rest = elim call [ panics message ↦ panics message | returns x ↦ rest x ]
