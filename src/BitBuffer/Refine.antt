-- ===== src/BitBuffer/Refine.antt =====
-- A valid bit buffer behaves as the tape of its bits.
use samdisk_plus.Prelude.{
  ℕ, zero, suc, ◌+◌, ◌-◌, ◌≤◌, ◌<◌, min, max, ◌==◌, ltb, Bool, false, List, [], ◌∷◌, if◌then◌else◌,
  none, some, get_elem?, get_or, length, take, ◌≡◌, refl, sym, ap, ◌∙◌, arith,
}
use Prim.Native.Nat.add
use samdisk_plus.Prelude.Bytes.{get_elem?_ext}
use samdisk_plus.BitBuffer
use samdisk_plus.BitBuffer.{BitBuffer}
use samdisk_plus.BitBuffer.Inv.{IsValid, bit_at, of_bool, add-bit_at}
use samdisk_plus.BitBuffer.Tape
use samdisk_plus.BitBuffer.Tape.{Tape, write}

-- `n` bits from bit `i` on.
abbrev pub bits_from : List ℕ → ℕ → ℕ → List Bool
bits_from bytes i zero = []
bits_from bytes i (suc n) = bit_at bytes i ∷ bits_from bytes (suc i) n

abbrev pub contents : BitBuffer → List Bool
contents b = bits_from b.bytes 0 b.bitsize

abbrev pub view : BitBuffer → Tape
view b = record { bits = contents b; head = b.bitpos; ended = b.is_wrapped }

pub length-bits_from : (bytes : List ℕ) (i n : ℕ) → length (bits_from bytes i n) ≡ n
length-bits_from bytes i zero = refl
length-bits_from bytes i (suc n) = ap suc (length-bits_from bytes (suc i) n)

shift_bit : (bytes : List ℕ) {i j : ℕ} → i ≡ j → bit_at bytes i ≡ bit_at bytes j
shift_bit bytes e = ap (bit_at bytes) e

get_elem?-bits_from :
    (bytes : List ℕ) (i n j : ℕ)
    → get_elem? (bits_from bytes i n) j ≡ (if ltb j n then some (bit_at bytes (i + j)) else none)
get_elem?-bits_from bytes i zero j = ground arith
get_elem?-bits_from bytes i (suc n) zero =
    ground (arith, shift_bit bytes {i = i} {j = i + 0} (omega arith))
get_elem?-bits_from bytes i (suc n) (suc j) = ground (
  arith,
  get_elem?-bits_from bytes (suc i) n j,
  shift_bit bytes {i = suc i + j} {j = i + suc j} (omega arith),
)

get_elem?-write :
    (xs : List Bool) (i j : ℕ) (b : Bool)
    → i ≤ length xs
    → get_elem? (write xs i b) j ≡ (if j == i then some b else get_elem? xs j)
get_elem?-write [] zero zero b h = refl
get_elem?-write [] zero (suc j) b h = ground arith
get_elem?-write [] (suc i) j b h = absurd (omega arith)
get_elem?-write (x ∷ xs) zero zero b h = refl
get_elem?-write (x ∷ xs) zero (suc j) b h = ground arith
get_elem?-write (x ∷ xs) (suc i) zero b h = ground arith
get_elem?-write (x ∷ xs) (suc i) (suc j) b h = get_elem?-write xs i j b (omega arith) ∙ ground arith

take-bits_from :
    (bytes : List ℕ) (i n m : ℕ) → m ≤ n → take m (bits_from bytes i n) ≡ bits_from bytes i m
take-bits_from bytes i n zero h = refl
take-bits_from bytes i zero (suc m) h = absurd (omega arith)
take-bits_from bytes i (suc n) (suc m) h =
    ap (λ t. bit_at bytes i ∷ t) (take-bits_from bytes (suc i) n m (omega arith))

pub get_or-bits_from :
    (bytes : List ℕ) (i n j : ℕ)
    → j < n
    → get_or (bits_from bytes i n) j false ≡ bit_at bytes (i + j)
get_or-bits_from bytes i zero j h = absurd (omega arith)
get_or-bits_from bytes i (suc n) zero h = ap (bit_at bytes) (omega arith)
get_or-bits_from bytes i (suc n) (suc j) h =
    get_or-bits_from bytes (suc i) n j (omega arith) ∙ ap (bit_at bytes) (omega arith)

add-bitsize :
    (bit : Bool) (b : BitBuffer) → (BitBuffer.add bit b).bitsize ≡ max b.bitsize (b.bitpos + 1)
unfolding BitBuffer.add
add-bitsize bit b = refl

contents-add :
    (bit : Bool) (b : BitBuffer)
    → IsValid b
    → contents (BitBuffer.add bit b) ≡ write (contents b) b.bitpos bit
contents-add bit b v =
    get_elem?_ext (contents (BitBuffer.add bit b)) (write (contents b) b.bitpos bit) λ j. ground (
      arith,
      get_elem?-bits_from (BitBuffer.add bit b).bytes 0 (BitBuffer.add bit b).bitsize j,
      add-bitsize bit b,
      add-bit_at bit b v (0 + j),
      get_elem?-bits_from b.bytes 0 b.bitsize j,
      get_elem?-write (contents b) b.bitpos j bit,
      length-bits_from b.bytes 0 b.bitsize,
      v.within,
      add.zero j,
    )

-- Every operation of the tape, done on the buffer, gives the buffer of the new tape.
pub record Refines (b : BitBuffer) : Type 0 where
  pub adds : (bit : Bool) → view (BitBuffer.add bit b) ≡ Tape.add bit (view b)
  pub removes : (n : ℕ) → view (BitBuffer.remove n b) ≡ Tape.remove n (view b)
  pub seeks :
      (offset : ℕ)
      → (view (BitBuffer.seek offset b).0 ≡ (Tape.seek offset (view b)).0)
        × ((BitBuffer.seek offset b).1 ≡ (Tape.seek offset (view b)).1)

of_bool-test : (n : ℕ) → n < 2 → n ≡ of_bool (n == 1)
of_bool-test zero h = refl
of_bool-test (suc zero) h = refl
of_bool-test (suc (suc n)) h = absurd (omega arith)

-- A valid bit buffer is the tape of its bits: `add`, `remove` and `seek`, at any argument, return
-- what the tape returns and leave the buffer showing the tape's new state.
pub view-Refines : (b : BitBuffer) → IsValid b → Refines b
unfolding BitBuffer.add BitBuffer.remove BitBuffer.seek BitBuffer.set_next_index
view-Refines b v = record {
  adds = λ bit. ground (arith, contents-add bit b v);
  removes = λ n. removed n;
  seeks = λ offset. ground (arith, length-bits_from b.bytes 0 b.bitsize);
}
  where
    removed : (n : ℕ) → view (BitBuffer.remove n b) ≡ Tape.remove n (view b)
    removed n =
        let w = v.within in
        let e : b.bitpos - min n b.bitpos ≡ b.bitpos - n = omega arith in
        rw (e, take-bits_from b.bytes 0 b.bitsize (b.bitpos - n) (omega arith))

-- Before the end of a valid buffer `read1` returns the tape's bit and leaves the buffer showing the
-- tape's new state.
pub read1-Tape :
    (b : BitBuffer)
    → IsValid b
    → b.bitpos < b.bitsize
    → ((BitBuffer.read1 b).0 ≡ of_bool (Tape.read (view b)).0)
      × (view (BitBuffer.read1 b).1 ≡ (Tape.read (view b)).1)
unfolding BitBuffer.read1 BitBuffer.advance
read1-Tape b v h = (
  of_bool-test _ (omega arith)
      ∙ ap of_bool (
          shift_bit b.bytes (sym (add.zero b.bitpos))
          ∙ sym (get_or-bits_from b.bytes 0 b.bitsize b.bitpos h)),
  ground (arith, length-bits_from b.bytes 0 b.bitsize),
)
