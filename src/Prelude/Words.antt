-- ===== src/Prelude/Words.antt =====
-- Casts to the fixed widths, shifts, and facts about the native operations on binary digits.
mod Digits
pub use Digits.*
use Prim.Native.Nat.{bit_xor}
use samdisk_plus.Prelude.{
  ℕ, zero, suc, ◌+◌, ◌*◌, ◌/◌, ◌%◌, ◌^◌, ◌<◌, ◌≡◌, refl, ap, ◌∙◌, ◌==◌, ==_iff, inl, inr, Bool,
  true, false, ◌&&◌, arith, Bool-cases,
}

abbrev pub u8 : ℕ → ℕ
u8 n = n % 2 ^ 8

abbrev pub u16 : ℕ → ℕ
u16 n = n % 2 ^ 16

abbrev pub u32 : ℕ → ℕ
u32 n = n % 2 ^ 32

infixl 72 ◌<<<◌ ◌>>>◌
abbrev pub ◌<<<◌ : ℕ → ℕ → ℕ
x <<< k = x * 2 ^ k

abbrev pub ◌>>>◌ : ℕ → ℕ → ℕ
x >>> k = x / 2 ^ k

-- A check of every value below a bound, by evaluation.
unfoldable pub all_below : ℕ → (ℕ → Bool) → Bool
all_below zero test = true
all_below (suc bound) test = test bound && all_below bound test

pub all_below_sound :
    (bound : ℕ) (test : ℕ → Bool) (value : ℕ)
    → all_below bound test ≡ true
    → value < bound
    → test value ≡ true
unfolding all_below
all_below_sound zero test value passed small = absurd (omega arith)
all_below_sound (suc bound) test value passed small = elim (Bool-cases (value == bound)) [
  | inl e ↦ ap test ((==_iff value bound).0 e) ∙ ground arith
  | inr e ↦ all_below_sound bound test value (ground arith) (ground arith)
]
