-- ===== src/Prelude/Bind.antt =====
-- Chains of steps that can fail, for `do` blocks.
use samdisk_plus.Prelude.{Option, none, some}

infixl 5 ◌>>=◌
abbrev pub ◌>>=◌ {ℓ κ} : {A : Type ℓ} {B : Type κ} → Option A → (A → Option B) → Option B
none >>= f = none
some a >>= f = f a
