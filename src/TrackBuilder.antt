-- ===== src/TrackBuilder.antt =====
-- include/TrackBuilder.h and src/TrackBuilder.cpp: a track is built from raw bits up to sectors.
-- The class is abstract: its virtual methods are the record `Medium`, over the state `S` of the
-- subclass, and a `Builder` is the state of both. A method returns the new state. `none` is the
-- exception for an encoding that cannot be built, or for a header field that is no byte. A `Data` argument is a list of bytes.
pub mod Amiga
pub mod Cells
pub mod Emits
pub mod Sectors
pub mod Whole
use Prim.Native.Nat.{bit_xor}
use samdisk_plus.Prelude.{
  ℕ, zero, suc, ◌+◌, ◌-◌, ◌*◌, ◌/◌, ◌%◌, ◌^◌, ◌==◌, ltb, leb, Bool, true, false, not, ◌&&◌, ◌||◌,
  List, [], ◌∷◌, if◌then◌else◌, Option, none, some, length, replicate,
}
use samdisk_plus.Prelude.Bind.{◌>>=◌}
use samdisk_plus.Prelude.Words.{◌<<<◌, ◌>>>◌}
use samdisk_plus.Header.{DataRate, Encoding, Header, is_fm, is_mfm}
use samdisk_plus.Sector.{Sector, size_code_to_length, first_copy, has_data, has_gapdata}
use samdisk_plus.Crc16
use samdisk_plus.Crc16.{bit_set, init_crc, crc_a1a1a1}
use samdisk_plus.Ibm.{
  ibm_dam, ibm_iam, ibm_idam, ibm_dam_rx02, get_fm_or_mfm_gap2_length, get_fm_or_mfm_sync_length,
}

pub record Builder (S : Type 0) : Type 0 where
  pub encoding : Encoding
  pub datarate : DataRate
  pub lastbit : Bool
  pub crc : ℕ
  pub medium : S

-- The virtual methods; `none` of the adjustment is a loop that does not end. `set_encoding` and
-- `after_iam` are what the overrides of `setEncoding` and `addIAM` do after the method of the base
-- class.
pub record Medium (S : Type 0) : Type 0 where
  pub add_raw_bit : Bool → S → S
  pub set_encoding : Encoding → S → S
  pub after_iam : S → S
  pub just_added_important_bits : S → S
  pub adjust_data_bits_before_offset : ℕ → ℕ → Bool → Builder S → Option (Builder S)

pub supported : Encoding → Bool
supported Encoding.mfm = true
supported Encoding.fm = true
supported Encoding.rx02 = true
supported Encoding.amiga = true
supported _ = false

module _ {S : Type 0} (add_raw_bit : Bool → S → S) where
  unfoldable pub add_bit : Bool → Builder S → Builder S
  add_bit bit t =
      let once = add_raw_bit bit t.medium in
      record t { medium = if is_fm t.encoding then add_raw_bit false once else once }

  -- FM has a reversal before every data bit, MFM between consecutive zeros.
  unfoldable pub add_data_bit : Bool → Builder S → Builder S
  unfolding add_bit
  add_data_bit bit t =
      record (add_bit bit
        (add_bit (if is_fm t.encoding then true else not t.lastbit && not bit) t)) { lastbit = bit }

  -- The loop of `addByte`.
  pub add_byte_bits : ℕ → ℕ → Builder S → Builder S
  unfolding add_data_bit
  add_byte_bits zero byte t = t
  add_byte_bits (suc left) byte t =
      add_byte_bits left (byte <<< 1) (add_data_bit (bit_set 7 byte) t)

  unfoldable pub add_byte : ℕ → Builder S → Builder S
  unfolding add_byte_bits
  add_byte byte t = add_byte_bits 8 byte t

  -- The body of the loop of `addBlockUpdateCrc`, for a byte.
  unfoldable pub add_crc_byte : ℕ → Builder S → Builder S
  unfolding add_byte
  add_crc_byte byte t = let t' = add_byte byte t in record t' { crc = Crc16.add_byte t'.crc byte }

  -- `none` is the exception of `lossless_static_cast` for a number that is no byte.
  unfoldable pub add_byte_update_crc : ℕ → Builder S → Option (Builder S)
  unfolding add_crc_byte
  add_byte_update_crc byte t = if ltb byte 256 then some (add_crc_byte byte t) else none

  -- The loop of `addByteWithClock`, and its last line.
  pub add_clocked_bits : ℕ → ℕ → ℕ → Builder S → Builder S
  unfolding add_bit
  add_clocked_bits zero byte clock t = record t { lastbit = bit_set 8 byte }
  add_clocked_bits (suc left) byte clock t =
      add_clocked_bits left (byte <<< 1) (clock <<< 1)
        (add_bit (bit_set 7 byte) (add_bit (bit_set 7 clock) t))

  unfoldable pub add_byte_with_clock : ℕ → ℕ → Builder S → Builder S
  unfolding add_clocked_bits
  add_byte_with_clock byte clock t = add_clocked_bits 8 byte clock t

  -- `addBlock(byte, count)`
  unfoldable pub add_fill : ℕ → ℕ → Builder S → Builder S
  unfolding add_byte
  add_fill byte zero t = t
  add_fill byte (suc count) t = add_fill byte count (add_byte byte t)

  -- `addBlock(data)`
  unfoldable pub add_block : List ℕ → Builder S → Builder S
  unfolding add_byte
  add_block [] t = t
  add_block (byte ∷ bytes) t = add_block bytes (add_byte byte t)

  -- `addBlockUpdateCrc(data)`
  unfoldable pub add_block_update_crc : List ℕ → Builder S → Builder S
  unfolding add_crc_byte
  add_block_update_crc [] t = t
  add_block_update_crc (byte ∷ bytes) t = add_block_update_crc bytes (add_crc_byte byte t)

  -- The fill byte `none` is the default, -1 in the source.
  unfoldable pub add_gap : ℕ → Option ℕ → Builder S → Builder S
  unfolding add_fill
  add_gap count none t = add_fill (if is_fm t.encoding then 0xff else 0x4e) count t
  add_gap count (some fill) t = add_fill fill count t

  unfoldable pub add_gap2 : Option ℕ → Builder S → Builder S
  unfolding add_gap
  add_gap2 fill t = add_gap (get_fm_or_mfm_gap2_length t.datarate t.encoding) fill t

  unfoldable pub add_sync : Bool → Builder S → Builder S
  unfolding add_fill
  add_sync short_mfm_gap t = add_fill 0x00 (get_fm_or_mfm_sync_length t.encoding short_mfm_gap) t

module _ {S : Type 0} (m : Medium S) where
  -- `setEncoding`, with the override.
  unfoldable pub set_encoding : Encoding → Builder S → Option (Builder S)
  unfolding supported
  set_encoding encoding t =
      if supported encoding
      then some (record t { encoding = encoding; medium = m.set_encoding encoding t.medium })
      else none

  unfoldable pub important : Builder S → Builder S
  important t = record t { medium = m.just_added_important_bits t.medium }

  -- The mark itself, after the sync. A type is a byte, which the casts leave as it is: a constant, or
  -- the data mark of a sector.
  unfoldable pub add_mark : ℕ → Builder S → Builder S
  add_mark type t =
      if is_fm t.encoding
      then (let t' = add_byte_with_clock m.add_raw_bit type 0xc7 t in
          record t' { crc = Crc16.add_byte init_crc type })
      else add_crc_byte m.add_raw_bit type
          (record (add_byte_with_clock m.add_raw_bit 0xa1 0x0a (
            add_byte_with_clock m.add_raw_bit 0xa1 0x0a
              (add_byte_with_clock m.add_raw_bit 0xa1 0x0a t))) { crc = crc_a1a1a1 })

  unfoldable pub add_am : ℕ → Bool → Bool → Builder S → Builder S
  unfolding add_mark important
  add_am type omit_sync short_mfm_gap t =
      important (add_mark type (if omit_sync then t else add_sync m.add_raw_bit short_mfm_gap t))

  -- `addIAM`, with the override.
  unfoldable pub add_iam : Builder S → Builder S
  unfolding important
  add_iam t =
      let synced = add_sync m.add_raw_bit false t in
      let marked =
        if is_fm t.encoding
        then add_byte_with_clock m.add_raw_bit ibm_iam 0xd7 synced
        else add_byte m.add_raw_bit ibm_iam (
            add_byte_with_clock m.add_raw_bit 0xc2 0x14 (
              add_byte_with_clock m.add_raw_bit 0xc2 0x14
                (add_byte_with_clock m.add_raw_bit 0xc2 0x14 synced))) in
      let done = important marked in record done { medium = m.after_iam done.medium }

  unfoldable pub add_crc_bytes : Bool → Builder S → Builder S
  unfolding important
  add_crc_bytes bad_crc t =
      let crc = bit_xor t.crc (if bad_crc then 0x5555 else 0) in
      important (add_byte m.add_raw_bit (crc % 256) (add_byte m.add_raw_bit (crc >>> 8) t))

  unfoldable pub add_sector_header : Header → Bool → Bool → Builder S → Option (Builder S)
  unfolding add_am add_crc_bytes add_byte_update_crc
  add_sector_header h crc_error short_mfm_gap t = do
    with_cyl ← add_byte_update_crc m.add_raw_bit h.cyl (add_am ibm_idam false short_mfm_gap t)
    with_head ← add_byte_update_crc m.add_raw_bit h.head with_cyl
    with_sector ← add_byte_update_crc m.add_raw_bit h.sector with_head
    with_size ← add_byte_update_crc m.add_raw_bit h.size with_sector
    some (add_crc_bytes crc_error with_size)

  -- Full data, data with a gap that holds the CRC, or short data that is padded.
  unfoldable pub add_sector_data : List ℕ → ℕ → ℕ → Bool → Builder S → Builder S
  unfolding add_am add_crc_bytes important size_code_to_length
  add_sector_data bytes size dam crc_error t =
      let marked = add_am dam false false t in
      let len_bytes = size_code_to_length size in
      let written = add_block_update_crc m.add_raw_bit bytes marked in
      if length bytes == len_bytes
      then add_crc_bytes crc_error written
      else if ltb len_bytes (length bytes)
      then important written
      else add_crc_bytes crc_error
          (add_block_update_crc m.add_raw_bit (replicate (len_bytes - length bytes) 0x00) written)

  -- The MFM and FM case of `addSector` behind the header.
  unfoldable pub add_ibm_rest : Sector → ℕ → Builder S → Builder S
  unfolding add_sector_data
  add_ibm_rest s gap3_bytes t =
      let id = add_gap2 m.add_raw_bit none t in
      let whole =
        if has_data s
        then add_sector_data (first_copy s.data_copies) s.header.size s.dam s.bad_data_crc id
        else id in
      if has_gapdata s then whole else add_gap m.add_raw_bit gap3_bytes none whole

  -- The MFM and FM case of `addSector` from the header on.
  unfoldable pub add_ibm_fields : Sector → ℕ → Bool → Builder S → Option (Builder S)
  unfolding add_sector_header add_ibm_rest
  add_ibm_fields s gap3_bytes short_mfm_gap t = do
    headed ← add_sector_header s.header false short_mfm_gap t
    some (add_ibm_rest s gap3_bytes headed)

  unfoldable pub add_ibm_sector : Sector → ℕ → Bool → Builder S → Option (Builder S)
  unfolding add_ibm_fields
  add_ibm_sector s gap3_bytes short_mfm_gap t = do
    ready ← m.adjust_data_bits_before_offset s.offset gap3_bytes short_mfm_gap t
    add_ibm_fields s gap3_bytes short_mfm_gap ready

  unfoldable pub add_sector_up_to_data : Header → ℕ → Builder S → Option (Builder S)
  unfolding add_sector_header add_am
  add_sector_up_to_data h dam t = do
    headed ← add_sector_header h false false t
    some (add_am dam false false (add_gap2 m.add_raw_bit none headed))
