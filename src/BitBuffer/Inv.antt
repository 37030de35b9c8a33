-- ===== src/BitBuffer/Inv.antt =====
-- The invariant of the bit buffer, its bits, and how `add` changes them.
use samdisk_plus.Prelude.{
  ℕ, ◌*◌, ◌/◌, ◌%◌, ◌≤◌, ◌<◌, ◌==◌, ==_iff, leb, ltb, Bool, true, false, List, if◌then◌else◌, set,
  get_or, length, replicate, ◌≡◌, refl, ap, ◌∙◌, arith, length-set, length-append, length-replicate,
  Bool-cases, inl, inr,
}
use samdisk_plus.Prelude.Words.{◌>>>◌, all_below, all_below_sound}
use samdisk_plus.Prelude.Bytes.{
  AreBytes, get_or-lt, AreBytes-set, AreBytes-append, AreBytes-replicate, get_or-set_self,
  get_or-set_ne, get_or-append_zeros,
}
use samdisk_plus.BitBuffer.{BitBuffer, put_bit, grow, add, remove, seek, read1}

-- There is room, the position lies within the bits written, and those fit the room.
pub record IsValid (b : BitBuffer) : Type 0 where
  pub are_bytes : AreBytes b.bytes
  pub room : 0 < length b.bytes
  pub fits : b.bitsize ≤ length b.bytes * 8
  pub within : b.bitpos ≤ b.bitsize

-- Bit `i` of the buffer.
abbrev pub bit_at : List ℕ → ℕ → Bool
bit_at bytes i = (get_or bytes (i / 8) 0 >>> (i % 8)) % 2 == 1

abbrev pub of_bool : Bool → ℕ
of_bool true = 1
of_bool false = 0

-- Every byte, bit number and value: the bit that is put is read back, and no other changes.
abbrev put_bit_ok : Bool → ℕ → ℕ → ℕ → Bool
put_bit_ok b x k j = (put_bit x k b >>> j) % 2 == (if k == j then of_bool b else (x >>> j) % 2)

abbrev put_bit_fits : Bool → ℕ → ℕ → Bool
put_bit_fits b x k = ltb (put_bit x k b) 256

put_bit_table :
    (all_below 256 (λ x. all_below 8 (λ k. all_below 8 (put_bit_ok true x k))) ≡ true)
    × (all_below 256 (λ x. all_below 8 (λ k. all_below 8 (put_bit_ok false x k))) ≡ true)
unfolding all_below put_bit
put_bit_table = (refl, refl)

put_bit_lem :
    (b : Bool) (x k j : ℕ)
    → x < 256
    → k < 8
    → j < 8
    → (put_bit x k b >>> j) % 2 ≡ (if k == j then of_bool b else (x >>> j) % 2)
put_bit_lem b x k j hx hk hj = (==_iff _ _).0 (
    all_below_sound 8 (put_bit_ok b x k) j
      (all_below_sound 8 (λ m. all_below 8 (put_bit_ok b x m)) k
        (all_below_sound 256 (λ y. all_below 8 (λ m. all_below 8 (put_bit_ok b y m))) x (table b)
          hx)
        hk)
      hj)
  where
    table :
        (c : Bool) → all_below 256 (λ y. all_below 8 (λ m. all_below 8 (put_bit_ok c y m))) ≡ true
    table true = put_bit_table.0
    table false = put_bit_table.1

put_bit-lt : (x k : ℕ) (b : Bool) → put_bit x k b < 256
unfolding put_bit
put_bit-lt x k true = omega arith
put_bit-lt x k false = omega arith

length-grow : (offset : ℕ) (bytes : List ℕ) → length bytes ≤ length (grow offset bytes)
unfolding grow
length-grow offset bytes = ground (arith, length-append bytes (replicate (length bytes) 0))

-- Doubling makes room for the next bit, if there was any room.
grow_room :
    (offset : ℕ) (bytes : List ℕ)
    → 0 < length bytes
    → offset ≤ length bytes
    → offset < length (grow offset bytes)
unfolding grow
grow_room offset bytes h k = ground (
  arith,
  length-append bytes (replicate (length bytes) 0),
  length-replicate {0} {A = ℕ} (length bytes) 0,
)

grow-get_or :
    (offset : ℕ) (bytes : List ℕ) (i : ℕ) → get_or (grow offset bytes) i 0 ≡ get_or bytes i 0
unfolding grow
grow-get_or offset bytes i = ground (arith, get_or-append_zeros bytes (length bytes) i)

grow-AreBytes : (offset : ℕ) (bytes : List ℕ) → AreBytes bytes → AreBytes (grow offset bytes)
unfolding grow
grow-AreBytes offset bytes h = elim (Bool-cases (leb (length bytes) offset)) [
  | inl more ↦ rw more (
      AreBytes-append bytes (replicate (length bytes) 0) h
        (AreBytes-replicate (length bytes) 0 (omega arith)))
  | inr enough ↦ rw enough h
]

module _ (bit : Bool) (b : BitBuffer) (v : IsValid b) where
  abbrev offset : ℕ
  offset = b.bitpos / 8

  abbrev old_byte : ℕ
  old_byte = get_or (grow offset b.bytes) offset 0

  offset-lt : offset < length (grow offset b.bytes)
  offset-lt =
      let r = v.room in
      let f = v.fits in let w = v.within in grow_room offset b.bytes r (omega arith)

  old_byte-lt : old_byte < 256
  old_byte-lt = get_or-lt (grow offset b.bytes) offset (grow-AreBytes offset b.bytes v.are_bytes)

  stored_bit :
      (i : ℕ)
      → (get_or (add bit b).bytes (i / 8) 0 >>> (i % 8)) % 2
        ≡ (if i == b.bitpos then of_bool bit else (get_or b.bytes (i / 8) 0 >>> (i % 8)) % 2)
  unfolding add
  stored_bit i = elim (Bool-cases (i / 8 == offset)) [
    | inl same ↦
        let e : i / 8 ≡ offset = (==_iff _ _).0 same in
        ground (
          arith,
          get_or-set_self (grow offset b.bytes) offset (put_bit old_byte (b.bitpos % 8) bit)
              offset-lt,
          put_bit_lem bit old_byte (b.bitpos % 8) (i % 8) old_byte-lt (omega arith) (omega arith),
          grow-get_or offset b.bytes offset,
        )
    | inr other ↦ ground (
      arith,
      get_or-set_ne (grow offset b.bytes) offset (i / 8) (put_bit old_byte (b.bitpos % 8) bit),
      grow-get_or offset b.bytes (i / 8),
    )
  ]

  -- What `add` does to the bits.
  pub add-bit_at :
      (i : ℕ) → bit_at (add bit b).bytes i ≡ (if i == b.bitpos then bit else bit_at b.bytes i)
  add-bit_at i = ap (λ t. t == 1) (stored_bit i) ∙ as_bool (i == b.bitpos) bit
    where
      as_bool :
          (same c : Bool)
          → ((if same then of_bool c else (get_or b.bytes (i / 8) 0 >>> (i % 8)) % 2) == 1)
            ≡ (if same then c else bit_at b.bytes i)
      as_bool true true = refl
      as_bool true false = refl
      as_bool false c = refl

  -- On a valid buffer `add` writes within the room and keeps the buffer valid, also where it
  -- doubles the room.
  pub add-IsValid : (offset < length (add bit b).bytes) × IsValid (add bit b)
  unfolding add
  add-IsValid = (
    rw size offset-lt,
    record {
      are_bytes =
          AreBytes-set (grow offset b.bytes) offset new_byte
            (put_bit-lt old_byte (b.bitpos % 8) bit) (grow-AreBytes offset b.bytes v.are_bytes);
      room = omega (arith, size, offset-lt);
      fits = let f = v.fits in omega (arith, size, offset-lt, length-grow offset b.bytes);
      within = omega arith;
    },
  )
    where
      new_byte : ℕ
      new_byte = put_bit old_byte (b.bitpos % 8) bit

      size : length (set (grow offset b.bytes) offset new_byte) ≡ length (grow offset b.bytes)
      size = length-set (grow offset b.bytes) offset new_byte

pub remove-IsValid : (n : ℕ) (b : BitBuffer) → IsValid b → IsValid (remove n b)
unfolding remove
remove-IsValid n b v = ground arith

pub seek-IsValid : (offset : ℕ) (b : BitBuffer) → IsValid b → IsValid (seek offset b).0
unfolding seek
seek-IsValid offset b v = ground arith

-- Before the end of a valid buffer `read1` reads within the room, and leaves the buffer valid with
-- its position before the end.
pub read1-IsValid :
    (b : BitBuffer)
    → IsValid b
    → b.bitpos < b.bitsize
    → (b.bitpos / 8 < length b.bytes) × ((read1 b).1.bitpos < b.bitsize) × IsValid (read1 b).1
unfolding read1
read1-IsValid b v h = ground arith

-- Reading from a position before the end never writes, and stays before the end.
pub read1_keeps :
    (b : BitBuffer)
    → ((read1 b).1.bytes ≡ b.bytes)
      × ((read1 b).1.bitsize ≡ b.bitsize)
      × ((read1 b).1.encoding ≡ b.encoding)
      × ((read1 b).1.indexes ≡ b.indexes)
unfolding read1
read1_keeps b = ground arith
