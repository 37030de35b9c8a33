-- ===== src/Header/Offsets.antt =====
-- Positions on a track: the conversions between bytes and bits, between data rates, and the test
-- that two positions are close (include/Header.h, src/Header.cpp).
use samdisk_plus.Prelude.{
  ℕ, ◌+◌, ◌-◌, ◌*◌, ◌/◌, ◌%◌, ◌≤◌, ◌<◌, ◌≡◌, ◌≢◌, ◌↔◌, ◌⊎◌, refl, true, arith, if◌then◌else◌, leb,
  leb→le, Bool-cases, inl, inr, ◌∙◌,
}
use native.Mathlib.Nat.{mod-eq_of_lt, mod-eq-sub-mod}
use samdisk_plus.Header.{
  DataRate, Encoding, bits_per_second, convert_offset_by_datarate, data_byte_position_as_bit_offset,
  bit_offset_as_data_byte_position, tolerated_offset_distance, are_offsets_tolerated_same,
}

-- The raw bits of a data byte.
abbrev pub byte_bits_of : Encoding → ℕ
byte_bits_of Encoding.fm = 32
byte_bits_of _ = 16

pub data_byte_position-eq :
    (n : ℕ) (e : Encoding) → data_byte_position_as_bit_offset n e ≡ n * byte_bits_of e
unfolding data_byte_position_as_bit_offset
data_byte_position-eq n Encoding.fm = omega arith
data_byte_position-eq n _ = omega arith

pub bit_offset-eq :
    (n : ℕ) (e : Encoding) → bit_offset_as_data_byte_position n e ≡ n / byte_bits_of e
unfolding bit_offset_as_data_byte_position
bit_offset-eq n Encoding.fm = omega arith
bit_offset-eq n _ = omega arith

-- In every encoding a byte position turned into a raw bit offset is had back from each of the raw
-- bit offsets of that byte, and from no other.
pub bit_offset-byte_position_iff :
    (n offset : ℕ) (e : Encoding)
    → (bit_offset_as_data_byte_position offset e ≡ n) ↔ (
        (data_byte_position_as_bit_offset n e ≤ offset)
        × (offset < data_byte_position_as_bit_offset (n + 1) e))
unfolding data_byte_position_as_bit_offset bit_offset_as_data_byte_position
bit_offset-byte_position_iff n offset Encoding.fm = (λ h. omega arith, λ h. omega arith)
bit_offset-byte_position_iff n offset _ = (λ h. omega arith, λ h. omega arith)

-- From a known data rate to any the converted offset is the exact quotient
-- `offset * target / source` rounded down to a multiple of 10000.
pub convert_offset-rounds :
    (offset : ℕ) (source target : DataRate)
    → source ≢ DataRate.unknown
    → let converted = convert_offset_by_datarate offset source target in
      (converted % 10000 ≡ 0)
      × (converted * bits_per_second source ≤ offset * bits_per_second target)
      × (offset * bits_per_second target < (converted + 10000) * bits_per_second source)
unfolding convert_offset_by_datarate
convert_offset-rounds offset DataRate.unknown target h = absurd (h refl)
convert_offset-rounds offset DataRate.rate_250k target h = ground arith
convert_offset-rounds offset DataRate.rate_300k target h = ground arith
convert_offset-rounds offset DataRate.rate_500k target h = ground arith
convert_offset-rounds offset DataRate.rate_1m target h = ground arith

-- Two offsets of one revolution are the same, on the ring of `track_len` raw bits, when one is
-- reached from the other by going forward no more than the tolerance.
abbrev pub RingClose : ℕ → ℕ → ℕ → ℕ → Type 0
RingClose track_len tolerance a b =
    ((a + track_len - b) % track_len ≤ tolerance) ⊎ ((b + track_len - a) % track_len ≤ tolerance)

ring_forward :
    (a b track_len : ℕ)
    → a < track_len
    → b < track_len
    → (a + track_len - b) % track_len ≡ (if leb b a then a - b else a + track_len - b)
ring_forward a b track_len ha hb = elim (Bool-cases (leb b a)) [
  | inl above ↦
      let le : b ≤ a = leb→le b a above in
      rw (above, mod-eq-sub-mod {n = a + track_len - b} {m = track_len} (omega arith))
        (mod-eq_of_lt {n = a + track_len - b - track_len} {m = track_len} (omega arith)
          ∙ omega arith)
  | inr below ↦
      let lt : a < b = ground arith in
      rw below (mod-eq_of_lt {n = a + track_len - b} {m = track_len} (omega arith))
]

-- For two offsets of one revolution, the wrapped test accepts exactly the ring-close offsets.
pub are_offsets_tolerated_same-RingClose :
    (a b : ℕ) (e : Encoding) (tolerance track_len : ℕ)
    → a < track_len
    → b < track_len
    → (are_offsets_tolerated_same a b e tolerance track_len true ≡ true)
      ↔ RingClose track_len (tolerated_offset_distance e tolerance) a b
unfolding are_offsets_tolerated_same
are_offsets_tolerated_same-RingClose a b e tolerance track_len ha hb =
    grind (arith, ring_forward a b track_len, ring_forward b a track_len)
