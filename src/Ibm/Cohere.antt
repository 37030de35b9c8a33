-- ===== src/Ibm/Cohere.antt =====
-- Whether a data field belongs to a sector id, by their distance (src/IBMPCBase.cpp).
use samdisk_plus.Prelude.{
  ℕ, ◌+◌, ◌-◌, ◌%◌, ◌/◌, ◌<◌, ◌≤◌, ◌≡◌, ◌↔◌, ltb, leb, false, ◌||◌, if◌then◌else◌, if_both, arith,
}
use native.Mathlib.Nat.{mod-eq_of_lt}
use samdisk_plus.Prelude.Int.{ℤ, pos, negsuc, sub_ℕ, neg_ℕ}
use samdisk_plus.Header.{
  DataRate, Encoding, data_byte_position_as_bit_offset, tolerated_offset_distance,
}
use samdisk_plus.Ibm.{
  get_fm_or_mfm_gap2_length, get_fm_or_mfm_idam_and_dam_distance,
  get_id_overhead_without_idam_overhead_sync_overhead,
}

pub record Distances : Type 0 where
  pub distance_min : ℕ
  pub distance_max : ℕ

-- The option `byte_tolerance_of_time` is an argument.
unfoldable pub get_sector_id_and_data_offset_distance_min_max : ℕ → DataRate → Encoding → Distances
unfolding get_fm_or_mfm_gap2_length get_fm_or_mfm_idam_and_dam_distance
    get_id_overhead_without_idam_overhead_sync_overhead data_byte_position_as_bit_offset
    tolerated_offset_distance
get_sector_id_and_data_offset_distance_min_max byte_tolerance_of_time datarate e = record {
  distance_min =
      data_byte_position_as_bit_offset
        (get_id_overhead_without_idam_overhead_sync_overhead e
          + get_fm_or_mfm_gap2_length datarate e)
        e
      - data_byte_position_as_bit_offset 2 e;
  distance_max =
      data_byte_position_as_bit_offset (get_fm_or_mfm_idam_and_dam_distance datarate e + 8) e
      + tolerated_offset_distance e byte_tolerance_of_time;
}

pub data CohereResult : Type 0 where
  data_too_early data_coheres data_too_late : CohereResult

-- `modulo` of include/Cpp_helpers.h: the remainder that is not negative, for `0 < m`.
unfoldable pub modulo : ℤ → ℕ → ℕ
modulo (pos n) m = n % m
modulo (negsuc n) m = (m - (n + 1) % m) % m

-- `modulodiv`: the quotient that goes with it.
unfoldable pub modulodiv : ℤ → ℕ → ℤ
modulodiv (pos n) m = pos (n / m)
modulodiv (negsuc n) m = neg_ℕ ((n + m) / m)

-- `sectorIdAndDataOffsetDistance` can be negative.
unfoldable pub do_sector_id_and_data_offsets_cohere :
    ℕ → ℕ → ℕ → DataRate → Encoding → ℕ → CohereResult
unfolding get_sector_id_and_data_offset_distance_min_max modulo
do_sector_id_and_data_offsets_cohere byte_tolerance_of_time id_offset data_offset datarate e
      track_len =
    let d = get_sector_id_and_data_offset_distance_min_max byte_tolerance_of_time datarate e in
    let wrapped = modulo (sub_ℕ data_offset id_offset) track_len in
    if ltb data_offset (id_offset + d.distance_max)
    then (if ltb wrapped d.distance_min || ltb d.distance_max wrapped
        then CohereResult.data_too_late
        else CohereResult.data_coheres)
    else (if ltb data_offset (id_offset + d.distance_min)
        then CohereResult.data_too_early
        else (if ltb (id_offset + d.distance_max) data_offset
            then CohereResult.data_too_late
            else CohereResult.data_coheres))

pub modulo_lt : (d : ℤ) (m : ℕ) → 0 < m → modulo d m < m
unfolding modulo
modulo_lt (pos n) m h = omega arith
modulo_lt (negsuc n) m h = omega arith

not_below : (a b : ℕ) → b ≤ a → leb b a ≡ false → ⊥
not_below a b h e = ground arith

modulo-on_track : (a b m : ℕ) → b ≤ a → a < m → modulo (sub_ℕ a b) m ≡ a - b
unfolding modulo
modulo-on_track a b m h k =
    if_both (λ z. modulo z m ≡ a - b) (leb b a) (pos (a - b)) (negsuc (b - a - 1))
      (λ _. mod-eq_of_lt (omega arith)) (λ e. absurd (not_below a b h e))

result_iff :
    (id at least most wrapped : ℕ)
    → (id ≤ at → wrapped ≡ at - id)
    → ((if ltb at (id + most)
          then (if ltb wrapped least || ltb most wrapped
              then CohereResult.data_too_late
              else CohereResult.data_coheres)
          else (if ltb at (id + least)
              then CohereResult.data_too_early
              else (if ltb (id + most) at
                  then CohereResult.data_too_late
                  else CohereResult.data_coheres)))
        ≡ CohereResult.data_coheres)
      ↔ ((least ≤ wrapped) × (wrapped ≤ most))
result_iff id at least most wrapped h = ground arith

-- For an id and data whose offsets are on the track, the data cohere exactly if the
-- distance around the track lies between the least and the greatest one.
pub cohere_iff :
    (byte_tolerance_of_time id_offset data_offset : ℕ) (datarate : DataRate) (e : Encoding)
    (track_len : ℕ)
    → id_offset < track_len
    → data_offset < track_len
    → (do_sector_id_and_data_offsets_cohere byte_tolerance_of_time id_offset data_offset datarate e
          track_len
        ≡ CohereResult.data_coheres)
      ↔ (((get_sector_id_and_data_offset_distance_min_max byte_tolerance_of_time datarate
              e).distance_min
            ≤ modulo (sub_ℕ data_offset id_offset) track_len)
          × (modulo (sub_ℕ data_offset id_offset) track_len
              ≤ (get_sector_id_and_data_offset_distance_min_max byte_tolerance_of_time datarate
                  e).distance_max))
unfolding do_sector_id_and_data_offsets_cohere
cohere_iff byte_tolerance_of_time id_offset data_offset datarate e track_len p q =
    result_iff id_offset data_offset _ _ (modulo (sub_ℕ data_offset id_offset) track_len)
      (λ h. modulo-on_track data_offset id_offset track_len h q)
