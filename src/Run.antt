-- ===== src/Run.antt =====
-- The result of code that may stop the process: `bug` and `die` of utility.c, and the undefined
-- behaviour that a stray memory access would be.
use dragonsunited_minecraft.Base.{Bool, true, false}

pub data Stop : Type 0 where
  -- an access outside an allocated block
  overrun : Stop
  -- `bug` and `die` write a message and exit
  bug die : Stop
  -- a read of a variable that was never written
  undefined : Stop
  -- the fuel of the model ran out
  out_of_fuel : Stop

pub data Run {ℓ} (A : Type ℓ) : Type ℓ where
  stop : Stop → Run A
  ok : A → Run A

module _ {ℓ κ} {A : Type ℓ} {B : Type κ} where
  infixl 5 ◌>>=◌ ◌>>◌
  -- The rest of a function, unless the process has stopped.
  abbrev pub ◌>>=◌ : Run A → (A → Run B) → Run B
  stop why >>= rest = stop why
  ok value >>= rest = rest value

  abbrev pub ◌>>◌ : Run A → Run B → Run B
  first >> rest = first >>= λ ignored. rest

-- `if (b) bug(...)`
abbrev pub bug_if : Bool → Run (Unit {0})
bug_if true = stop bug
bug_if false = ok tt

-- `if (b) die(...)`
abbrev pub die_if : Bool → Run (Unit {0})
die_if true = stop die
die_if false = ok tt

-- An access that must lie inside its block.
abbrev pub access : Bool → Run (Unit {0})
access true = ok tt
access false = stop overrun
