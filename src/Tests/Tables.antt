-- ===== src/Tests/Tables.antt =====
-- Headers, offsets, ranges, formats and sector ids at concrete inputs.
use samdisk_plus.Prelude.{
  ℕ, ◌+◌, ◌*◌, ◌%◌, ◌≤◌, ◌<◌, ◌≡◌, ◌≢◌, ◌↔◌, refl, ap, Bool, true, false, ◌&&◌, List, [], ◌∷◌,
  length, none, some, Option, arith, leb, ltb, if◌then◌else◌,
}
use mathlib.Core.Bool.{true≢false}
use samdisk_plus.Prelude.Int.{pos, negsuc, ◌+ℤ◌, ◌*ℤ◌}
use samdisk_plus.Header.{
  DataRate, Encoding, CylHead, Header, bits_per_second, convert_offset_by_datarate,
  data_byte_position_as_bit_offset, bit_offset_as_data_byte_position, are_offsets_tolerated_same,
  tolerated_offset_distance, is_normal_and_originated_from_neighbor_cyl, has_id_sequence,
}
use samdisk_plus.Header.Offsets.{
  bit_offset-byte_position_iff, convert_offset-rounds, RingClose,
  are_offsets_tolerated_same-RingClose,
}
use samdisk_plus.Header.Order.{neighbor_cyl_iff}
use samdisk_plus.Header.Sequence.{Occurs, has_id_sequence_iff}
use samdisk_plus.Range.{new_range, contains, each}
use samdisk_plus.Range.Visits.{count_visit, each-contains}
use samdisk_plus.TrackIds.Complete.{
  find_complete_track_sector_ids_for, complete, max_id, known_length, try_sectors, try_interleaves,
  try_ids, get_track_sector_ids, match_sector_ids, index_of, rest_matches, extendable_to,
  rotate_right,
}
use samdisk_plus.TrackIds.Complete.Whole.{Completes, find_complete-Completes}
use samdisk_plus.TrackIds.{get_ids, place_ids, find_free, expected_index}
use samdisk_plus.Ibm.Cohere.{modulo}
use samdisk_plus.TrackIds.Once.{count, get_ids-once}
use samdisk_plus.Format.{new_format}
use samdisk_plus.Format.FromSize.{from_size}
use samdisk_plus.Format.Sizes.{Found, from_size-Found}

bit_offset-byte_position_iff_example :
    (bit_offset_as_data_byte_position 1620 Encoding.mfm ≡ 101) ↔ (
      (data_byte_position_as_bit_offset 101 Encoding.mfm ≤ 1620)
      × (1620 < data_byte_position_as_bit_offset (101 + 1) Encoding.mfm))
bit_offset-byte_position_iff_example = bit_offset-byte_position_iff 101 1620 Encoding.mfm

is_known : DataRate → Bool
is_known DataRate.unknown = false
is_known _ = true

rate_300k-known : DataRate.rate_300k ≢ DataRate.unknown
unfolding is_known
rate_300k-known p = true≢false (ap is_known p)

convert_offset-rounds_example :
    let converted = convert_offset_by_datarate 123456 DataRate.rate_300k DataRate.rate_250k in
    (converted % 10000 ≡ 0)
    × (converted * bits_per_second DataRate.rate_300k ≤ 123456 * bits_per_second DataRate.rate_250k)
    × (123456 * bits_per_second DataRate.rate_250k
        < (converted + 10000) * bits_per_second DataRate.rate_300k)
convert_offset-rounds_example =
    convert_offset-rounds 123456 DataRate.rate_300k DataRate.rate_250k rate_300k-known

are_offsets_tolerated_same-RingClose_example :
    (are_offsets_tolerated_same 5 99990 Encoding.mfm 2 100000 true ≡ true)
    ↔ RingClose 100000 (tolerated_offset_distance Encoding.mfm 2) 5 99990
are_offsets_tolerated_same-RingClose_example =
    are_offsets_tolerated_same-RingClose 5 99990 Encoding.mfm 2 100000 (omega arith) (omega arith)

abbrev third_sector : Header
third_sector = record { cyl = 10; head = 0; sector = 3; size = 2 }

abbrev next_cyl : CylHead
next_cyl = record { cyl = 11; head = 0 }

neighbor_cyl_iff_example :
    (is_normal_and_originated_from_neighbor_cyl third_sector next_cyl 80 ≡ true) ↔ (
      (0 < 2)
      × (10 < 80)
      × (10 ≤ 11 + 1)
      × (11 ≤ 10 + 1)
      × ((third_sector.cyl ≡ next_cyl.cyl) → (third_sector.head ≡ next_cyl.head) → ⊥))
neighbor_cyl_iff_example = neighbor_cyl_iff third_sector next_cyl 80 (omega arith)

has_id_sequence_iff_example :
    (has_id_sequence (third_sector ∷ []) 3 1 ≡ true)
    ↔ ((0 < 1) × ((i : ℕ) → i < 1 → Occurs (3 + i) (third_sector ∷ [])))
has_id_sequence_iff_example = has_id_sequence_iff (third_sector ∷ []) 3 1

each-contains_example :
    each (count_visit next_cyl) true (new_range 80 2) 0
    ≡ (if contains (new_range 80 2) next_cyl then 1 else 0)
each-contains_example = each-contains next_cyl true (new_range 80 2)

get_ids-once_example :
    (ids : List ℕ) × (get_ids next_cyl 9 2 (pos 1) (negsuc 3) 1 ≡ some ids)
    × (length ids ≡ 9)
    × ((v : ℕ) → count v ids ≡ (if leb 1 v && ltb v (1 + 9) then 1 else 0))
get_ids-once_example = get_ids-once next_cyl 9 2 (pos 1) (negsuc 3) 1 (omega arith)

from_size-Found_example : Found 737280 new_format (from_size 737280 new_format)
from_size-Found_example = from_size-Found 737280 new_format

-- Four sectors, of which the second is not known.
abbrev four : List (Option ℕ)
four = some 1 ∷ none ∷ some 2 ∷ some 4 ∷ []

find_complete-Completes_example : Completes four (find_complete_track_sector_ids_for four 0)
find_complete-Completes_example = find_complete-Completes four 0

complete_four : find_complete_track_sector_ids_for four 0 ≡ 1 ∷ 3 ∷ 2 ∷ 4 ∷ []
unfolding find_complete_track_sector_ids_for complete max_id known_length try_sectors
    try_interleaves try_ids get_track_sector_ids get_ids match_sector_ids index_of rest_matches
    extendable_to rotate_right modulo place_ids find_free expected_index ◌+ℤ◌ ◌*ℤ◌
complete_four = refl
