-- ===== src/BitBuffer/Tape.antt =====
-- What a bit buffer promises: a tape of bits with a head. Room, bytes and doubling are not seen.
use samdisk_plus.Prelude.{
  ℕ, zero, suc, ◌+◌, ◌-◌, min, ◌==◌, Bool, true, false, List, [], ◌∷◌, if◌then◌else◌, get_or,
  length, take,
}

pub record Tape : Type 0 where
  pub bits : List Bool
  pub head : ℕ
  pub ended : Bool

-- Write at an index: at the end the list grows, and beyond it nothing happens.
abbrev pub write : List Bool → ℕ → Bool → List Bool
write [] zero b = b ∷ []
write [] (suc i) b = []
write (x ∷ xs) zero b = b ∷ xs
write (x ∷ xs) (suc i) b = x ∷ write xs i b

abbrev pub add : Bool → Tape → Tape
add bit t = record t { bits = write t.bits t.head bit; head = t.head + 1 }

-- The tape is cut `n` bits before the head.
abbrev pub remove : ℕ → Tape → Tape
remove n t = record t { bits = take (t.head - n) t.bits; head = t.head - n }

abbrev pub seek : ℕ → Tape → Tape × Bool
seek offset t =
    let target = min offset (length t.bits) in
    (record t { head = target; ended = false }, target == offset)

-- The head goes round at the end.
abbrev pub read : Tape → Bool × Tape
read t = (
  get_or t.bits t.head false,
  if t.head + 1 == length t.bits
      then record t { head = 0; ended = true }
      else record t { head = t.head + 1 },
)
