-- ===== src/Crc16/Serial.antt =====
-- The table-driven CRC against the serial definition: a 16-bit register that takes the message
-- one bit at a time, highest bit first, and is fed back through the polynomial.
use Prim.Native.Nat.{bit_xor}
use samdisk_plus.Prelude.{
  ℕ, ◌*◌, ◌/◌, ◌%◌, ◌^◌, ◌<◌, ◌≡◌, refl, sym, ap, ◌∙◌, ◌≡⟨◌⟩◌, ◌∎, ◌==◌, ==_iff, Bool, true, false,
  List, [], ◌∷◌, ◌++◌, if◌then◌else◌, get_or, length, arith,
}
use samdisk_plus.Prelude.Words.{
  u16, ◌<<<◌, ◌>>>◌, all_below, all_below_sound, bit_xor-zero, bit_xor_comm, bit_xor_assoc,
  bit_xor-lt, bit_xor-fields, bit_xor-shl,
}
use samdisk_plus.Prelude.Bytes.{AreBytes}
use samdisk_plus.Crc16.{
  polynomial, bit_set, table_step, table_steps, table_entry, s_crc_lookup, add_byte, add_bytes,
}
use samdisk_plus.Crc16.Linear.{
  differs, feedback, feedback-differs, lookup_entry, table_steps-bit_xor,
}

-- The register takes one bit.
abbrev pub feed_bit : ℕ → Bool → ℕ
feed_bit c b = bit_xor (u16 (c <<< 1)) (if differs (bit_set 15 c) b then polynomial else 0)

abbrev pub feed_bits : ℕ → List Bool → ℕ
feed_bits c [] = c
feed_bits c (b ∷ bs) = feed_bits (feed_bit c b) bs

-- The bits of a byte in the order in which they are sent.
abbrev pub byte_bits : ℕ → List Bool
byte_bits x =
    bit_set 7 x
    ∷ bit_set 6 x
    ∷ bit_set 5 x
    ∷ bit_set 4 x
    ∷ bit_set 3 x
    ∷ bit_set 2 x
    ∷ bit_set 1 x
    ∷ bit_set 0 x
    ∷ []

abbrev pub message_bits : List ℕ → List Bool
message_bits [] = []
message_bits (x ∷ xs) = byte_bits x ++ message_bits xs

feed_bit-eq : (c : ℕ) (b : Bool) → feed_bit c b ≡ bit_xor (table_step c) (feedback b)
unfolding table_step
feed_bit-eq c b =
    ap (bit_xor (u16 (c <<< 1))) (feedback-differs (bit_set 15 c) b)
    ∙ sym (bit_xor_assoc (u16 (c <<< 1)) (feedback (bit_set 15 c)) (feedback b))

feed_zero : (b : Bool) → feed_bit 0 b ≡ feedback b
feed_zero true = refl
feed_zero false = refl

-- The register and the message do not interact.
feed_bits-linear :
    (c : ℕ) (bs : List Bool) → feed_bits c bs ≡ bit_xor (table_steps (length bs) c) (feed_bits 0 bs)
unfolding table_steps
feed_bits-linear c [] = sym (bit_xor-zero c)
feed_bits-linear c (b ∷ bs) =
    feed_bits (feed_bit c b) bs
    ≡⟨ feed_bits-linear (feed_bit c b) bs ⟩ bit_xor (table_steps n (feed_bit c b)) (feed_bits 0 bs)
    ≡⟨ ap (λ t. bit_xor (table_steps n t) (feed_bits 0 bs)) (feed_bit-eq c b) ⟩
      bit_xor (table_steps n (bit_xor (table_step c) (feedback b))) (feed_bits 0 bs)
    ≡⟨ ap (λ t. bit_xor t (feed_bits 0 bs)) (table_steps-bit_xor n (table_step c) (feedback b)) ⟩
      bit_xor (bit_xor (table_steps n (table_step c)) (table_steps n (feedback b))) (feed_bits 0 bs)
    ≡⟨ bit_xor_assoc _ _ _ ⟩
      bit_xor (table_steps n (table_step c)) (bit_xor (table_steps n (feedback b)) (feed_bits 0 bs))
    ≡⟨ ap (bit_xor (table_steps n (table_step c))) (sym (feed_bits-linear (feedback b) bs)) ⟩
      bit_xor (table_steps n (table_step c)) (feed_bits (feedback b) bs)
    ≡⟨ ap (λ t. bit_xor (table_steps n (table_step c)) (feed_bits t bs)) (sym (feed_zero b)) ⟩
      bit_xor (table_steps n (table_step c)) (feed_bits (feed_bit 0 b) bs) ∎
  where
    n : ℕ
    n = length bs

low_byte_table : all_below 256 (λ x. table_steps 8 x == x * 2 ^ 8) ≡ true
unfolding all_below table_steps table_step
low_byte_table = refl

message_table : all_below 256 (λ x. table_steps 8 (x * 2 ^ 8) == feed_bits 0 (byte_bits x)) ≡ true
unfolding all_below table_steps table_step
message_table = refl

low_byte_steps : (x : ℕ) → x < 256 → table_steps 8 x ≡ x * 2 ^ 8
low_byte_steps x h =
    (==_iff _ _).0 (all_below_sound 256 (λ y. table_steps 8 y == y * 2 ^ 8) x low_byte_table h)

message_steps : (x : ℕ) → x < 256 → table_steps 8 (x * 2 ^ 8) ≡ feed_bits 0 (byte_bits x)
message_steps x h = (==_iff _ _).0 (
    all_below_sound 256 (λ y. table_steps 8 (y * 2 ^ 8) == feed_bits 0 (byte_bits y)) x
      message_table h)

module _ (crc byte : ℕ) (fits : crc < 2 ^ 16) (is_byte : byte < 256) where
  index-lt : bit_xor (crc >>> 8) byte < 256
  index-lt = bit_xor-lt 8 (crc >>> 8) byte (omega arith) is_byte

  -- What the table adds for the high byte of the register and the new byte.
  looked_up :
      get_or s_crc_lookup (bit_xor (crc >>> 8) byte % 256) 0
      ≡ bit_xor (table_steps 8 (crc / 2 ^ 8 * 2 ^ 8)) (table_steps 8 (byte * 2 ^ 8))
  unfolding table_entry
  looked_up =
      get_or s_crc_lookup (bit_xor (crc >>> 8) byte % 256) 0
      ≡⟨ ap (λ i. get_or s_crc_lookup i 0) (omega (arith, index-lt)) ⟩ get_or s_crc_lookup index 0
      ≡⟨ lookup_entry index index-lt ⟩ table_steps 8 (u16 (index <<< 8))
      ≡⟨ ap (table_steps 8) (omega (arith, index-lt)) ⟩ table_steps 8 (index * 2 ^ 8)
      ≡⟨ ap (table_steps 8) (sym (bit_xor-shl 8 (crc / 2 ^ 8) byte)) ⟩
        table_steps 8 (bit_xor (crc / 2 ^ 8 * 2 ^ 8) (byte * 2 ^ 8))
      ≡⟨ table_steps-bit_xor 8 (crc / 2 ^ 8 * 2 ^ 8) (byte * 2 ^ 8) ⟩
        bit_xor (table_steps 8 (crc / 2 ^ 8 * 2 ^ 8)) (table_steps 8 (byte * 2 ^ 8)) ∎
    where
      index : ℕ
      index = bit_xor (crc >>> 8) byte

  register_bytes :
      bit_xor (table_steps 8 (crc % 2 ^ 8)) (table_steps 8 (crc / 2 ^ 8 * 2 ^ 8))
      ≡ table_steps 8 crc
  register_bytes =
      sym (table_steps-bit_xor 8 (crc % 2 ^ 8) (crc / 2 ^ 8 * 2 ^ 8))
      ∙ ap (table_steps 8) (
          bit_xor_comm (crc % 2 ^ 8) (crc / 2 ^ 8 * 2 ^ 8)
          ∙ bit_xor-fields 8 (crc / 2 ^ 8) (crc % 2 ^ 8) (omega arith)
          ∙ omega arith)

  -- Adding a byte through the table feeds its eight bits to the register.
  pub add_byte-feed_bits : add_byte crc byte ≡ feed_bits crc (byte_bits byte)
  unfolding add_byte
  add_byte-feed_bits =
      rw
        (
          shifted,
          looked_up,
          ← bit_xor_assoc low high new,
          register_bytes,
          message_steps byte is_byte,
        )
        (sym (feed_bits-linear crc (byte_bits byte)))
    where
      low : ℕ
      low = table_steps 8 (crc % 2 ^ 8)

      high : ℕ
      high = table_steps 8 (crc / 2 ^ 8 * 2 ^ 8)

      new : ℕ
      new = table_steps 8 (byte * 2 ^ 8)

      shifted : u16 (crc <<< 8) ≡ table_steps 8 (crc % 2 ^ 8)
      shifted = omega (arith, low_byte_steps (crc % 2 ^ 8) (omega arith))

feed_bit-lt : (c : ℕ) (b : Bool) → feed_bit c b < 2 ^ 16
feed_bit-lt c b =
    bit_xor-lt 16 (u16 (c <<< 1)) (feedback (differs (bit_set 15 c) b)) (omega arith)
      (feedback-lt (differs (bit_set 15 c) b))
  where
    feedback-lt : (p : Bool) → feedback p < 2 ^ 16
    feedback-lt true = omega arith
    feedback-lt false = omega arith

pub feed_bits-lt : (c : ℕ) (bs : List Bool) → c < 2 ^ 16 → feed_bits c bs < 2 ^ 16
feed_bits-lt c [] h = h
feed_bits-lt c (b ∷ bs) h = feed_bits-lt (feed_bit c b) bs (feed_bit-lt c b)

pub add_byte-lt : (crc byte : ℕ) → crc < 2 ^ 16 → byte < 256 → add_byte crc byte < 2 ^ 16
add_byte-lt crc byte h k =
    rw (add_byte-feed_bits crc byte h k) (feed_bits-lt crc (byte_bits byte) h)

feed_bits-append :
    (c : ℕ) (xs ys : List Bool) → feed_bits c (xs ++ ys) ≡ feed_bits (feed_bits c xs) ys
feed_bits-append c [] ys = refl
feed_bits-append c (x ∷ xs) ys = feed_bits-append (feed_bit c x) xs ys

-- From a 16-bit register, `add` over a buffer of bytes computes the serial CRC of the buffer's
-- bits, each byte sent highest bit first.
pub add_bytes-feed_bits :
    (crc : ℕ) (bytes : List ℕ)
    → crc < 2 ^ 16
    → AreBytes bytes
    → add_bytes crc bytes ≡ feed_bits crc (message_bits bytes)
unfolding add_bytes
add_bytes-feed_bits crc [] h k = refl
add_bytes-feed_bits crc (x ∷ xs) h k =
    add_bytes-feed_bits (add_byte crc x) xs (add_byte-lt crc x h k.0) k.1
    ∙ ap (λ t. feed_bits t (message_bits xs)) (add_byte-feed_bits crc x h k.0)
    ∙ sym (feed_bits-append crc (byte_bits x) (message_bits xs))
