-- ===== src/TrackBuilder/Amiga.antt =====
-- The Amiga part of src/TrackBuilder.cpp: a 32-bit word is written as its odd bits and then its even
-- bits. A buffer enters as its words, each the number that `frombe32` makes of four bytes.
use Prim.Native.Nat.{bit_or, bit_xor, bit_and}
use samdisk_plus.Prelude.{
  ℕ, zero, suc, ◌+◌, ◌-◌, ◌*◌, ◌^◌, Bool, true, false, List, [], ◌∷◌, ◌++◌, if◌then◌else◌,
  replicate,
}
use samdisk_plus.Prelude.Words.{u32, ◌<<<◌, ◌>>>◌}
use samdisk_plus.Crc16.{bit_set}
use samdisk_plus.Header.{CylHead, DataRate}
use samdisk_plus.TrackBuilder.{
  Builder, Medium, add_data_bit, add_byte, add_byte_with_clock, add_fill, important,
}

-- The loop over `k` of `splitAmigaBits`.
pub split_word : ℕ → ℕ → ℕ → ℕ → ℕ
split_word zero k word bits = bits
split_word (suc left) k word bits =
    split_word left (k + 1) (u32 (word <<< 2))
      (bit_or bits (bit_and word 0x80000000 >>> (1 + k * 2)))

pub record Split : Type 0 where
  pub words : List ℕ
  pub checksum : ℕ

-- The loop over the words, in pass `i`.
pub split_pass : ℕ → List ℕ → Split → Split
unfolding split_word
split_pass i [] s = s
split_pass i (word ∷ words) s =
    let bits = split_word 16 0 (u32 (word <<< i)) 0 in
    split_pass i words (record { words = s.words ++ bits ∷ []; checksum = bit_xor s.checksum bits })

unfoldable pub split_amiga_bits : List ℕ → ℕ → Split
unfolding split_pass
split_amiga_bits words checksum =
    split_pass 1 words (split_pass 0 words (record { words = []; checksum = checksum }))

-- `datarate == DataRate::_500K`
is_500k : DataRate → Bool
is_500k DataRate.rate_500k = true
is_500k _ = false

-- The word before the label: 0xff, the track, the sector and the sectors that remain.
unfoldable pub amiga_info : DataRate → CylHead → ℕ → ℕ
unfolding is_500k
amiga_info datarate at sector =
    let sectors : ℕ = if is_500k datarate then 22 else 11 in
    let remain = u32 (sectors + 2 ^ 32 - sector) in
    u32 (
      bit_or (bit_or (bit_or (0xff <<< 24) (bit_or (at.cyl <<< 1) at.head <<< 16)) (sector <<< 8))
        remain)

module _ {S : Type 0} (m : Medium S) where
  -- The loop over one word of `addAmigaBits`.
  pub add_amiga_word : ℕ → ℕ → Builder S → Builder S
  add_amiga_word zero word t = t
  add_amiga_word (suc left) word t =
      add_amiga_word left (u32 (word <<< 2)) (add_data_bit m.add_raw_bit (bit_set 30 word) t)

  unfoldable pub add_amiga_bits : List ℕ → Builder S → Builder S
  unfolding add_amiga_word
  add_amiga_bits [] t = t
  add_amiga_bits (word ∷ words) t = add_amiga_bits words (add_amiga_word 16 word t)

  -- The checksum after the word is the second result.
  unfoldable pub add_amiga_dword : ℕ → ℕ → Builder S → Builder S × ℕ
  unfolding split_amiga_bits add_amiga_bits
  add_amiga_dword word checksum t =
      let s = split_amiga_bits (word ∷ []) checksum in (add_amiga_bits s.words t, s.checksum)

  unfoldable pub add_amiga_track_start : Builder S → Builder S
  add_amiga_track_start t = add_fill m.add_raw_bit 0x00 60 t

  unfoldable pub add_amiga_sector : CylHead → ℕ → List ℕ → Builder S → Builder S
  unfolding add_amiga_dword amiga_info split_amiga_bits add_amiga_bits important
  add_amiga_sector at sector words t =
      let start =
        add_byte_with_clock m.add_raw_bit 0xa1 0x0a
          (add_byte_with_clock m.add_raw_bit 0xa1 0x0a (add_byte m.add_raw_bit 0x00 t)) in
      let (informed, sum1) = add_amiga_dword (amiga_info start.datarate at sector) 0 start in
      let label = split_amiga_bits (replicate 4 0) sum1 in
      let labelled = add_amiga_bits label.words informed in
      let (headed, sum2) = add_amiga_dword label.checksum label.checksum labelled in
      let body = split_amiga_bits words 0 in
      let (summed, sum3) = add_amiga_dword body.checksum body.checksum headed in
      add_byte m.add_raw_bit 0x00 (important m (add_amiga_bits body.words summed))
