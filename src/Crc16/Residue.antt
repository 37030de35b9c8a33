-- ===== src/Crc16/Residue.antt =====
-- How a reader of the disk checks a CRC: the two stored bytes bring the register to 0, and no
-- others do.
use Prim.Native.Nat.{bit_xor}
use samdisk_plus.Prelude.{
  ℕ, ◌+◌, ◌*◌, ◌/◌, ◌%◌, ◌^◌, ◌<◌, ◌≡◌, ◌↔◌, refl, sym, ap, ap₂, ◌∙◌, ◌==◌, true, not, ◌||◌, [],
  ◌∷◌, get_or, arith,
}
use samdisk_plus.Prelude.Words.{
  u16, ◌<<<◌, all_below, all_below_sound, bit_xor-zero, zero-bit_xor, bit_xor_assoc, bit_xor-lt,
  bit_xor_self, bit_xor-split,
}
use samdisk_plus.Crc16.{
  table_step, table_steps, table_entry, s_crc_lookup, add_byte, add_bytes, msb, lsb,
}
use samdisk_plus.Crc16.Linear.{lookup_entry}
use samdisk_plus.Crc16.Serial.{add_byte-lt}

-- An exclusive or is 0 only between equals.
bit_xor_cancel : (a b : ℕ) → bit_xor a b ≡ 0 → a ≡ b
bit_xor_cancel a b h =
    sym (bit_xor-zero a)
    ∙ ap (bit_xor a) (sym (bit_xor_self b))
    ∙ sym (bit_xor_assoc a b b)
    ∙ ap (λ t. bit_xor t b) h
    ∙ zero-bit_xor b

-- Only the entry of 0 ends in a zero byte.
low_bytes_table : all_below 256 (λ i. (i == 0) || not (table_entry i % 256 == 0)) ≡ true
unfolding all_below table_entry table_steps table_step
low_bytes_table = refl

low_byte_zero : (i : ℕ) → i < 256 → table_entry i % 256 ≡ 0 → i ≡ 0
low_byte_zero i h e = ground (
  arith,
  all_below_sound 256 (λ j. (j == 0) || not (table_entry j % 256 == 0)) i low_bytes_table h,
)

entry_zero : table_entry 0 ≡ 0
unfolding table_entry table_steps table_step
entry_zero = refl

module _ (crc byte : ℕ) (fits : crc < 2 ^ 16) (is_byte : byte < 256) where
  abbrev index : ℕ
  index = bit_xor (crc / 256) byte

  index-lt : index < 256
  index-lt = bit_xor-lt 8 (crc / 256) byte (omega arith) is_byte

  -- The register after a byte, in its two halves.
  add_byte-eq :
      add_byte crc byte
      ≡ bit_xor (crc % 256) (table_entry index / 256) * 256 + table_entry index % 256
  unfolding add_byte
  add_byte-eq =
      ap₂ bit_xor shifted (
        ap (λ i. get_or s_crc_lookup i 0) in_table
        ∙ lookup_entry index index-lt
        ∙ halves (table_entry index))
      ∙ bit_xor-split 8 (crc % 256) (table_entry index / 256) 0 (table_entry index % 256)
          (omega arith) (omega arith)
      ∙ ap (λ t. bit_xor (crc % 256) (table_entry index / 256) * 256 + t)
          (zero-bit_xor (table_entry index % 256))
    where
      in_table : bit_xor (crc / 256) byte % 256 ≡ index
      in_table = omega (arith, index-lt)

      shifted : u16 (crc <<< 8) ≡ crc % 256 * 2 ^ 8 + 0
      shifted = omega arith

      halves : (x : ℕ) → x ≡ x / 256 * 2 ^ 8 + x % 256
      halves x = omega arith

  add_byte-match : byte ≡ crc / 256 → add_byte crc byte ≡ crc % 256 * 256
  add_byte-match e =
      let index_zero : index ≡ 0 = ap (bit_xor (crc / 256)) e ∙ bit_xor_self (crc / 256) in
      let entry : table_entry index ≡ 0 = ap table_entry index_zero ∙ entry_zero in
      add_byte-eq
      ∙ ap (λ t. bit_xor (crc % 256) (t / 256) * 256 + t % 256) entry
      ∙ omega (arith, bit_xor-zero (crc % 256))

  -- A low byte of 0 shows that the byte was the register's high byte.
  add_byte-low_zero : add_byte crc byte % 256 ≡ 0 → byte ≡ crc / 256
  add_byte-low_zero h =
      sym (
        bit_xor_cancel (crc / 256) byte (low_byte_zero index index-lt (omega (arith, add_byte-eq))))

-- After a 16-bit register, two bytes bring it to 0 exactly when they are its high byte and its low
-- byte, in that order.
pub add_bytes-residue_iff :
    (crc x y : ℕ)
    → crc < 2 ^ 16
    → x < 256
    → y < 256
    → (add_bytes crc (x ∷ y ∷ []) ≡ 0) ↔ ((x ≡ msb crc) × (y ≡ lsb crc))
unfolding add_bytes msb lsb
add_bytes-residue_iff crc x y h hx hy = (only_if, λ e. matched e.0 e.1)
  where
    next : ℕ
    next = add_byte crc x

    matched : x ≡ crc / 256 → y ≡ crc % 256 → add_byte next y ≡ 0
    matched p q =
        let e : next ≡ crc % 256 * 256 = add_byte-match crc x h hx p in
        add_byte-match next y (add_byte-lt crc x h hx) hy (omega arith) ∙ omega arith

    only_if : add_byte next y ≡ 0 → (x ≡ crc / 256) × (y ≡ crc % 256)
    only_if e =
        let second : y ≡ next / 256 =
          add_byte-low_zero next y (add_byte-lt crc x h hx) hy (omega arith) in
        let cleared : add_byte next y ≡ next % 256 * 256 =
          add_byte-match next y (add_byte-lt crc x h hx) hy second in
        let first : x ≡ crc / 256 = add_byte-low_zero crc x h hx (omega arith) in
        let e' : next ≡ crc % 256 * 256 = add_byte-match crc x h hx first in (first, omega arith)
