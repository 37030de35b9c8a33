-- ===== src/Stream.antt =====
-- include/BitstreamTrackBuilder.h and src/BitstreamTrackBuilder.cpp: the track builder that writes
-- into a bit buffer. Its own members are `Stream`, and `stream` gives its overrides of the virtual
-- methods of the track builder. Positions that the source computes as a difference, and that may be
-- negative there, are compared as they are there.
pub mod Adjust
pub mod Record
pub mod Cut
use samdisk_plus.Prelude.{
  ℕ, zero, suc, ◌+◌, ◌-◌, ◌*◌, ◌==◌, min, max, ltb, leb, Bool, true, false, not, ◌%◌, ◌&&◌,
  if◌then◌else◌, Option, none, some, ◌∷◌, [], List,
}
use samdisk_plus.Prelude.Bind.{◌>>=◌}
use samdisk_plus.Prelude.Int.{ℤ, pos, negsuc, ◌-ℤ◌, ltb_ℤ}
use samdisk_plus.Prelude.Words.{◌>>>◌}
use samdisk_plus.Header.{
  DataRate, Encoding, data_byte_position_as_bit_offset, bit_offset_as_data_byte_position,
}
use samdisk_plus.Ibm.{
  get_idam_overhead_sync_overhead, get_id_overhead_without_idam_overhead_sync_overhead,
  get_fm_or_mfm_sync_length,
}
use samdisk_plus.Crc16
use samdisk_plus.Crc16.{init_crc}
use samdisk_plus.BitBuffer
use samdisk_plus.BitBuffer.{BitBuffer, new_buffer}
use samdisk_plus.TrackBuilder.{Builder, Medium, add_bit, add_gap, add_byte}

pub record Stream : Type 0 where
  pub buffer : BitBuffer
  pub iam_offset : ℕ
  pub prev_sector_offset : ℕ
  pub after_last_important : ℕ

-- The constructor.
unfoldable pub new_stream : DataRate → Encoding → Builder Stream
unfolding new_buffer
new_stream datarate encoding = record {
  encoding = encoding;
  datarate = datarate;
  lastbit = false;
  crc = init_crc;
  medium = record {
    buffer = new_buffer datarate encoding 1;
    iam_offset = 0;
    prev_sector_offset = 0;
    after_last_important = 0;
  };
}

unfoldable pub add_raw_bit : Bool → Stream → Stream
add_raw_bit bit s = record s { buffer = BitBuffer.add bit s.buffer }

unfoldable pub gap_pre_idam_bits : Bool → Builder Stream → ℕ
gap_pre_idam_bits short_mfm_gap t =
    let encoding = t.medium.buffer.encoding in
    data_byte_position_as_bit_offset
      (get_fm_or_mfm_sync_length t.encoding short_mfm_gap
        + get_idam_overhead_sync_overhead encoding)
      encoding

-- The loop that adds bits, for at most `fuel` of them: `missing` is what is left after the loop.
unfoldable pub add_missing_bits : ℕ → ℕ → ℕ → ℤ → Builder Stream → Option (Builder Stream × ℤ)
unfolding add_raw_bit
add_missing_bits zero sector_bitpos gap3_bits missing t = none
add_missing_bits (suc fuel) sector_bitpos gap3_bits missing t =
    let t' = add_bit add_raw_bit true t in
    let rest =
      add_missing_bits fuel sector_bitpos gap3_bits
        (missing -ℤ (pos sector_bitpos -ℤ pos t'.medium.buffer.bitpos)) t' in
    if ltb_ℤ (pos gap3_bits) missing then rest else some (t, missing)

-- The third gap after the added bits.
unfoldable pub add_adjusting_gap : ℕ → Builder Stream × ℤ → Builder Stream
add_adjusting_gap gap3_bits (t, missing) =
    let encoding = t.medium.buffer.encoding in
    if not (ltb_ℤ missing (pos gap3_bits))
      && not (ltb_ℤ (pos gap3_bits) missing)
      && leb (data_byte_position_as_bit_offset 1 encoding) gap3_bits
    then add_gap add_raw_bit (bit_offset_as_data_byte_position gap3_bits encoding) none t
    else t

unfoldable pub map_first :
    (Builder Stream × ℤ → Builder Stream) → Option (Builder Stream × ℤ) → Option (Builder Stream)
map_first f none = none
map_first f (some x) = some (f x)

-- `none` is a loop that goes on for more than `fuel` bits.
unfoldable pub adjust_data_bits_before_offset :
    ℕ → ℕ → ℕ → Bool → Builder Stream → Option (Builder Stream)
unfolding add_missing_bits add_adjusting_gap map_first gap_pre_idam_bits
adjust_data_bits_before_offset fuel sector_offset gap3_bytes short_mfm_gap t =
    let s = t.medium in
    let encoding = s.buffer.encoding in
    let current = s.buffer.bitpos in
    let sector_bitpos = sector_offset - gap_pre_idam_bits short_mfm_gap t in
    let missing = sector_bitpos - current in
    let gap3_bits =
      data_byte_position_as_bit_offset
        (min (bit_offset_as_data_byte_position missing encoding) gap3_bytes) encoding in
    let protected =
      s.prev_sector_offset
      + data_byte_position_as_bit_offset
          (get_id_overhead_without_idam_overhead_sync_overhead encoding + gap3_bytes) encoding in
    let at_offset : Builder Stream → Builder Stream =
      λ k. record k { medium = record k.medium { prev_sector_offset = sector_offset } } in
    let padded =
      map_first (λ x. at_offset (add_adjusting_gap gap3_bits x))
        (add_missing_bits fuel sector_bitpos gap3_bits (pos missing) t) in
    let moved = record t {
      medium = record s { buffer = (BitBuffer.seek (max sector_bitpos protected) s.buffer).0 };
    } in
    if ltb s.prev_sector_offset sector_offset
    then (if ltb 0 missing then padded else some (at_offset moved))
    else some t

unfoldable pub just_added_important_bits : Stream → Stream
just_added_important_bits s = record s { after_last_important = s.buffer.bitpos }

unfoldable pub cut_excess_unimportant_data_bits_at_the_end : ℕ → Stream → Stream
cut_excess_unimportant_data_bits_at_the_end track_len s =
    let current = s.buffer.bitpos in
    let protected = s.after_last_important in
    let excess_bits = current - track_len - (protected - track_len) in
    if ltb track_len current && ltb protected current
    then record s { buffer = BitBuffer.remove excess_bits s.buffer }
    else s

-- `setEncoding` after that of the base class.
unfoldable pub set_stream_encoding : Encoding → Stream → Stream
set_stream_encoding encoding s = record s { buffer = record s.buffer { encoding = encoding } }

-- `addIAM` after that of the base class.
unfoldable pub after_iam : Stream → Stream
after_iam s = record s {
  iam_offset = s.buffer.bitpos - data_byte_position_as_bit_offset 1 s.buffer.encoding;
}

unfoldable pub get_iam_position : Stream → ℕ
get_iam_position s = if ltb 0 s.iam_offset then s.iam_offset else s.buffer.bitpos

-- The loop of `addCrc`; `none` if a byte cannot be read with `fuel`.
unfoldable pub crc_of_bytes : ℕ → ℕ → ℕ → BitBuffer → Option (ℕ × BitBuffer)
crc_of_bytes fuel zero crc b = some (crc, b)
crc_of_bytes fuel (suc size) crc b =
    BitBuffer.read_byte fuel b >>= (λ r. crc_of_bytes fuel size (Crc16.add_byte crc r.0) r.1)

-- The CRC of the last `size` bytes, which the source asserts to be there.
unfoldable pub add_crc : ℕ → ℕ → Builder Stream → Option (Builder Stream)
unfolding crc_of_bytes add_raw_bit
add_crc fuel size t =
    let s = t.medium in
    let old = s.buffer.bitpos in
    let start =
      (BitBuffer.seek (old - size * data_byte_position_as_bit_offset 1 s.buffer.encoding)
        s.buffer).0 in
    crc_of_bytes fuel size init_crc start >>= (λ r.
      let back = record t { medium = record s { buffer = (BitBuffer.seek old r.1).0 } } in
      some (add_byte add_raw_bit (r.0 % 256) (add_byte add_raw_bit (r.0 >>> 8) back)))

-- The overrides, for loops of at most `fuel` bits.
abbrev pub stream : ℕ → Medium Stream
stream fuel = record {
  add_raw_bit = add_raw_bit;
  set_encoding = set_stream_encoding;
  after_iam = after_iam;
  just_added_important_bits = just_added_important_bits;
  adjust_data_bits_before_offset = adjust_data_bits_before_offset fuel;
}
