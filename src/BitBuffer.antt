-- ===== src/BitBuffer.antt =====
-- include/BitBuffer.h and src/BitBuffer.cpp: the bits of a track, eight to a byte with the first in
-- the lowest bit, with a position at which bits are read and written. A method returns the new
-- buffer, with its result where it has one. A byte out of range, which C++ leaves undefined, is read
-- as 0 and is not written; on a valid buffer (`Inv`) no byte out of range is touched. Output for
-- debugging is not modelled. Positions are never negative, but `next_index` begins at -1.
pub mod Align
pub mod Inv
pub mod Tape
pub mod Refine
use Prim.Native.Nat.{bit_and, bit_or}
use mathlib.Core.List.{reverse}
use samdisk_plus.Prelude.{
  ℕ, zero, suc, ◌+◌, ◌-◌, ◌*◌, ◌/◌, ◌%◌, ◌^◌, min, max, ◌==◌, leb, ltb, Bool, true, false, not,
  ◌&&◌, ◌||◌, List, [], ◌∷◌, ◌++◌, if◌then◌else◌, Option, none, some, set, get_or, length,
  replicate, take,
}
use samdisk_plus.Prelude.Int.{ℤ, pos, negsuc, ltb_ℤ, ◌-ℤ◌}
use samdisk_plus.Prelude.Words.{u8, u16, u32, ◌<<<◌, ◌>>>◌}
use samdisk_plus.Header.{DataRate, Encoding, bits_per_second}

pub record BitBuffer : Type 0 where
  pub datarate : DataRate
  pub encoding : Encoding
  pub bytes : List ℕ
  pub indexes : List ℕ
  pub sync_losses : List ℕ
  pub bitsize : ℕ
  pub bitpos : ℕ
  pub splicepos : ℕ
  pub next_index : ℤ
  pub is_wrapped : Bool

-- The default constructor.
abbrev pub empty_buffer : BitBuffer
empty_buffer = record {
  datarate = DataRate.unknown;
  encoding = Encoding.mfm;
  bytes = [];
  indexes = [];
  sync_losses = [];
  bitsize = 0;
  bitpos = 0;
  splicepos = 0;
  next_index = negsuc 0;
  is_wrapped = false;
}

-- Room for the bits of `revs` revolutions at 300 rpm and double the data rate, plus 20%.
unfoldable pub new_buffer : DataRate → Encoding → ℕ → BitBuffer
new_buffer datarate encoding revs =
    let bitlen = bits_per_second datarate * revs * 60 / 300 * 2 * 120 / 100 in
    record empty_buffer {
      datarate = datarate;
      encoding = encoding;
      bytes = replicate ((bitlen + 7) / 8) 0;
    }

-- The constructor from packed bytes.
unfoldable pub buffer_of_bytes : DataRate → List ℕ → ℕ → BitBuffer
buffer_of_bytes datarate pb bitlen = record empty_buffer {
  datarate = datarate;
  bytes = take ((bitlen + 7) / 8) pb;
  bitsize = bitlen;
}

unfoldable pub wrapped : BitBuffer → Bool
wrapped b = b.is_wrapped || b.bitsize == 0

unfoldable pub remaining : BitBuffer → ℤ
remaining b = pos (b.bitsize + b.splicepos) -ℤ pos b.bitpos

-- The first index position past `bitpos`, or else `bitsize`.
pub first_index_after : ℕ → ℕ → List ℕ → ℕ
first_index_after bitpos bitsize [] = bitsize
first_index_after bitpos bitsize (i ∷ is) =
    if ltb bitpos i then i else first_index_after bitpos bitsize is

unfoldable pub set_next_index : BitBuffer → BitBuffer
unfolding first_index_after
set_next_index b = record b { next_index = pos (first_index_after b.bitpos b.bitsize b.indexes) }

unfoldable pub seek : ℕ → BitBuffer → BitBuffer × Bool
unfolding set_next_index
seek offset b =
    let target = min offset b.bitsize in
    (set_next_index (record b { is_wrapped = false; bitpos = target }), target == offset)

unfoldable pub set_splicepos : ℕ → BitBuffer → BitBuffer
set_splicepos p b = record b { splicepos = p }

unfoldable pub index : BitBuffer → BitBuffer × Bool
unfolding set_next_index
index b = if ltb_ℤ (pos b.bitpos) b.next_index then (b, false) else (set_next_index b, true)

unfoldable pub add_index : BitBuffer → BitBuffer
add_index b = record b { indexes = b.indexes ++ b.bitpos ∷ [] }

unfoldable pub add_sync_loss : BitBuffer → BitBuffer
add_sync_loss b = record b { sync_losses = b.sync_losses ++ b.bitpos ∷ [] }

unfoldable pub clear : BitBuffer → BitBuffer
clear b = empty_buffer

-- `byte |= 1 << k` or `byte &= ~(1 << k)`, with the complement taken in 32 bits.
pub put_bit : ℕ → ℕ → Bool → ℕ
put_bit byte k true = u8 (bit_or byte (1 <<< k))
put_bit byte k false = u8 (bit_and byte (2 ^ 32 - 1 - (1 <<< k)))

-- Double the size if we run out of space.
pub grow : ℕ → List ℕ → List ℕ
grow offset bytes = if leb (length bytes) offset then bytes ++ replicate (length bytes) 0 else bytes

unfoldable pub add : Bool → BitBuffer → BitBuffer
unfolding put_bit grow
add bit b =
    let offset = b.bitpos / 8 in
    let bytes = grow offset b.bytes in
    record b {
      bytes = set bytes offset (put_bit (get_or bytes offset 0) (b.bitpos % 8) bit);
      bitpos = b.bitpos + 1;
      bitsize = max b.bitsize (b.bitpos + 1);
    }

unfoldable pub remove : ℕ → BitBuffer → BitBuffer
remove num_bits b = let p = b.bitpos - min num_bits b.bitpos in record b { bitpos = p; bitsize = p }

-- `++m_bitpos`, with the wrap at the end.
pub advance : BitBuffer → BitBuffer
advance b =
    if b.bitpos + 1 == b.bitsize
    then record b { bitpos = 0; is_wrapped = true }
    else record b { bitpos = b.bitpos + 1 }

unfoldable pub read1 : BitBuffer → ℕ × BitBuffer
unfolding advance
read1 b = ((get_or b.bytes (b.bitpos / 8) 0 >>> (b.bitpos % 8)) % 2, advance b)

-- Read `n` bits into the low end of an accumulator that is `w` bits wide.
pub read_into : ℕ → ℕ → ℕ → BitBuffer → ℕ × BitBuffer
unfolding read1
read_into w zero acc b = (acc, b)
read_into w (suc n) acc b =
    let (bit, b') = read1 b in read_into w n (bit_or (acc <<< 1) bit % 2 ^ w) b'

-- The two reads of the source are not ordered by C++; here the left one is first.
unfoldable pub read2 : BitBuffer → ℕ × BitBuffer
unfolding read1
read2 b = let (x, b') = read1 b in let (y, b'') = read1 b' in (u8 (bit_or (x <<< 1) y), b'')

unfoldable pub read8_msb : BitBuffer → ℕ × BitBuffer
unfolding read_into
read8_msb b = read_into 8 8 0 b

-- The loop of `read8_lsb` at `i`, with `left` rounds to go.
pub read_lsb : ℕ → ℕ → ℕ → BitBuffer → ℕ × BitBuffer
unfolding read1
read_lsb zero i byte b = (byte, b)
read_lsb (suc left) i byte b =
    let (bit, b') = read1 b in read_lsb left (i + 1) (u8 (bit_or byte (bit <<< i))) b'

unfoldable pub read8_lsb : BitBuffer → ℕ × BitBuffer
unfolding read_lsb
read8_lsb b = read_lsb 8 0 0 b

unfoldable pub read16 : BitBuffer → ℕ × BitBuffer
unfolding read_into
read16 b = read_into 16 16 0 b

unfoldable pub read32 : BitBuffer → ℕ × BitBuffer
unfolding read_into
read32 b = read_into 32 32 0 b

abbrev pub gcr5char : List ℕ
gcr5char =
    0 ∷ 0 ∷ 0 ∷ 0 ∷ 0 ∷ 0 ∷ 0 ∷ 0 ∷ 0 ∷ 0x8 ∷ 0x0 ∷ 0x1 ∷ 0 ∷ 0xc ∷ 0x4 ∷ 0x5 ∷ 0 ∷ 0 ∷ 0x2 ∷ 0x3
    ∷ 0 ∷ 0xf ∷ 0x6 ∷ 0x7 ∷ 0 ∷ 0x9 ∷ 0xa ∷ 0xb ∷ 0 ∷ 0xd ∷ 0xe ∷ 0 ∷ []

unfoldable pub gcr_byte : ℕ → ℕ
gcr_byte gcr = u8 (bit_or (get_or gcr5char (gcr >>> 5) 0 <<< 4) (get_or gcr5char (gcr % 32) 0))

-- The FM case: of four raw bits the third is data.
pub read_fm : ℕ → ℕ → BitBuffer → ℕ × BitBuffer
unfolding read1
read_fm zero byte b = (byte, b)
read_fm (suc left) byte b =
    let (bit, b') = read1 (read1 (read1 b).1).1 in
    read_fm left (u8 (bit_or (byte <<< 1) bit)) (read1 b').1

-- The MFM case: of two raw bits the second is data.
pub read_mfm : ℕ → ℕ → BitBuffer → ℕ × BitBuffer
unfolding read1
read_mfm zero byte b = (byte, b)
read_mfm (suc left) byte b =
    let (bit, b') = read1 (read1 b).1 in read_mfm left (u8 (bit_or (byte <<< 1) bit)) b'

-- Disk ][ keeps reading until bit 7 is 1. `none` means that the fuel ran out.
pub read_until_high : ℕ → ℕ → BitBuffer → Option (ℕ × BitBuffer)
unfolding read1
read_until_high zero byte b = none
read_until_high (suc fuel) byte b =
    let (bit, b') = read1 b in
    let rest = read_until_high fuel (u8 (bit_or (byte <<< 1) bit)) b' in
    if (byte >>> 7) % 2 == 0 then rest else some (byte, b)

pub read_gcr : BitBuffer → ℕ × BitBuffer
unfolding read_into gcr_byte
read_gcr b = let (word, b') = read_into 16 10 0 b in (gcr_byte word, b')

pub read_apple : ℕ → BitBuffer → Option (ℕ × BitBuffer)
unfolding read_into read_until_high
read_apple fuel b = let (byte, b') = read_into 8 8 0 b in read_until_high fuel byte b'

-- The switch of `read_byte`.
pub read_byte_as : Encoding → ℕ → BitBuffer → Option (ℕ × BitBuffer)
unfolding read_fm read_mfm read_into read_apple read_gcr
read_byte_as Encoding.fm fuel b = some (read_fm 8 0 b)
read_byte_as Encoding.mfm fuel b = some (read_mfm 8 0 b)
read_byte_as Encoding.apple fuel b = read_apple fuel b
read_byte_as Encoding.gcr fuel b = some (read_gcr b)
read_byte_as Encoding.victor fuel b = some (read_gcr b)
read_byte_as _ fuel b = some (read_into 8 8 0 b)

-- `fuel` bounds the rounds of the Apple loop; no other encoding uses it.
unfoldable pub read_byte : ℕ → BitBuffer → Option (ℕ × BitBuffer)
unfolding read_byte_as
read_byte fuel b = read_byte_as b.encoding fuel b

pub first_index : List ℕ → ℕ → ℕ
first_index [] bitsize = bitsize
first_index (i ∷ is) bitsize = i

unfoldable pub track_bitsize : BitBuffer → ℕ
unfolding first_index
track_bitsize b = first_index b.indexes b.bitsize

-- The loop of `track_offset`, from the last index to the first.
pub offset_from_index : ℕ → List ℕ → ℕ
offset_from_index p [] = p
offset_from_index p (i ∷ is) = if leb i p then p - i else offset_from_index p is

unfoldable pub track_offset : ℕ → BitBuffer → ℕ
unfolding offset_from_index
track_offset p b = offset_from_index p (reverse b.indexes)

-- The bytes of the first revolution stand before the room that the constructor makes.
unfoldable pub track_bitstream : BitBuffer → BitBuffer
unfolding new_buffer track_bitsize
track_bitstream b =
    let newbuf = new_buffer b.datarate b.encoding 1 in
    let track_bits = track_bitsize b in
    record newbuf {
      bytes = take ((track_bits + 7) / 8) b.bytes ++ newbuf.bytes;
      bitsize = track_bits;
    }

unfoldable pub is_sync_lost : ℕ → ℕ → List ℕ → Bool
is_sync_lost first last [] = false
is_sync_lost first last (p ∷ ps) = (ltb first p && leb p last) || is_sync_lost first last ps

unfoldable pub sync_lost : ℕ → ℕ → BitBuffer → Bool
unfolding is_sync_lost
sync_lost first last b = is_sync_lost first last b.sync_losses
