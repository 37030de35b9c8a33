-- ===== src/Tests/Bits.antt =====
-- The bit buffer, the CRC and the flux decoder at concrete inputs.
use samdisk_plus.Prelude.{
  ℕ, ◌/◌, ◌≤◌, ◌<◌, ◌≡◌, ◌↔◌, true, false, List, [], ◌∷◌, length, some, arith,
}
use samdisk_plus.Prelude.Bytes.{AreBytes}
use samdisk_plus.Prelude.Int.{ℤ, pos}
use samdisk_plus.Crc16
use samdisk_plus.Crc16.{msb, lsb, init_crc}
use samdisk_plus.Crc16.Serial.{feed_bits, message_bits, add_bytes-feed_bits}
use samdisk_plus.Crc16.Residue.{add_bytes-residue_iff}
use samdisk_plus.BitBuffer
use samdisk_plus.BitBuffer.{BitBuffer, empty_buffer}
use samdisk_plus.BitBuffer.Inv.{IsValid, of_bool, add-IsValid, read1-IsValid}
use samdisk_plus.BitBuffer.Tape
use samdisk_plus.BitBuffer.Refine.{Refines, view, view-Refines, read1-Tape}
use samdisk_plus.Flux.Decoder.{FluxDecoder, next_bit, total_length}
use samdisk_plus.Flux.Decoder.Lock.{Locked, flux_left, next_bit-Locked}

abbrev mark_bytes : List ℕ
mark_bytes = 0xa1 ∷ 0xfe ∷ []

mark_bytes-AreBytes : AreBytes mark_bytes
mark_bytes-AreBytes = (omega arith, (omega arith, tt))

add_bytes-feed_bits_example :
    Crc16.add_bytes 0xffff mark_bytes ≡ feed_bits 0xffff (message_bits mark_bytes)
add_bytes-feed_bits_example =
    add_bytes-feed_bits 0xffff mark_bytes (omega arith) mark_bytes-AreBytes

add_bytes-residue_iff_example :
    (Crc16.add_bytes 0xcdb4 (0xcd ∷ 0xb4 ∷ []) ≡ 0) ↔ ((0xcd ≡ msb 0xcdb4) × (0xb4 ≡ lsb 0xcdb4))
add_bytes-residue_iff_example =
    add_bytes-residue_iff 0xcdb4 0xcd 0xb4 (omega arith) (omega arith) (omega arith)

-- Nine bits in two bytes, with the position at the fourth.
abbrev nine_bits : BitBuffer
nine_bits = record empty_buffer { bytes = 0x5a ∷ 0x01 ∷ []; bitsize = 9; bitpos = 3 }

nine_bits-IsValid : IsValid nine_bits
nine_bits-IsValid = record {
  are_bytes = (omega arith, (omega arith, tt));
  room = omega arith;
  fits = omega arith;
  within = omega arith;
}

view-Refines_example : Refines nine_bits
view-Refines_example = view-Refines nine_bits nine_bits-IsValid

read1-Tape_example :
    ((BitBuffer.read1 nine_bits).0 ≡ of_bool (Tape.read (view nine_bits)).0)
    × (view (BitBuffer.read1 nine_bits).1 ≡ (Tape.read (view nine_bits)).1)
read1-Tape_example = read1-Tape nine_bits nine_bits-IsValid (omega arith)

add-IsValid_example :
    (3 / 8 < length (BitBuffer.add true nine_bits).bytes) × IsValid (BitBuffer.add true nine_bits)
add-IsValid_example = add-IsValid true nine_bits nine_bits-IsValid

read1-IsValid_example :
    (3 / 8 < 2) × ((BitBuffer.read1 nine_bits).1.bitpos < 9) × IsValid (BitBuffer.read1 nine_bits).1
read1-IsValid_example = read1-IsValid nine_bits nine_bits-IsValid (omega arith)

-- A decoder of cells of 2000 ns with four flux times in two revolutions.
abbrev decoder : FluxDecoder
decoder = record {
  flux_revs = (4000 ∷ 6100 ∷ []) ∷ (3900 ∷ 8000 ∷ []) ∷ [];
  rev_it = (4000 ∷ 6100 ∷ []) ∷ (3900 ∷ 8000 ∷ []) ∷ [];
  flux_it = 4000 ∷ 6100 ∷ [];
  clock = pos 2000;
  clock_centre = pos 2000;
  clock_min = pos 1920;
  clock_max = pos 2080;
  flux = pos 0;
  clocked_zeros = 0;
  flux_scale_percent = pos 100;
  pll_adjust = pos 4;
  goodbits = 0;
  index = false;
  sync_lost = false;
}

next_bit-Locked_example :
    (r : ℤ × FluxDecoder) × (next_bit 5 (pos 60) decoder ≡ some r)
    × Locked r.1
    × (flux_left r.1 ≤ flux_left decoder)
unfolding total_length
next_bit-Locked_example =
    next_bit-Locked 5 (pos 60) decoder (omega arith)
      (record { low = omega arith; high = omega arith })
