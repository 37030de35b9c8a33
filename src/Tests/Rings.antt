-- ===== src/Tests/Rings.antt =====
-- Rings, intervals and times at concrete inputs.
use samdisk_plus.Prelude.{ℕ, ◌<◌, ◌≤◌, ◌≡◌, ◌↔◌, true, false, arith}
use samdisk_plus.Prelude.Int.{pos, sub_ℕ}
use samdisk_plus.Header.{DataRate, Encoding, bits_per_second}
use samdisk_plus.Ibm.Times.{
  get_fm_or_mfm_bits_time_as_rounded, get_fm_or_mfm_time_bits_as_rounded, time_bits-bits_time,
}
use samdisk_plus.Ibm.Cohere.{
  CohereResult, modulo, get_sector_id_and_data_offset_distance_min_max,
  do_sector_id_and_data_offsets_cohere, cohere_iff,
}
use samdisk_plus.Interval.{
  Interval, is_ringed_within, is_within_ringed_interval, ringed_intervals_intersect,
}
use samdisk_plus.Interval.Ringed.{steps, is_ringed_within_iff, ringed_intervals_intersect_iff}
use samdisk_plus.RingedInt.{RingedInt, increment, decrement, plus}
use samdisk_plus.RingedInt.Ring.{OnRing, increment-plus, decrement-increment}

cohere_iff_example :
    (do_sector_id_and_data_offsets_cohere 64 99900 500 DataRate.rate_250k Encoding.mfm 100000
      ≡ CohereResult.data_coheres)
    ↔ (((get_sector_id_and_data_offset_distance_min_max 64 DataRate.rate_250k
            Encoding.mfm).distance_min
          ≤ modulo (sub_ℕ 500 99900) 100000)
        × (modulo (sub_ℕ 500 99900) 100000
            ≤ (get_sector_id_and_data_offset_distance_min_max 64 DataRate.rate_250k
                Encoding.mfm).distance_max))
cohere_iff_example =
    cohere_iff 64 99900 500 DataRate.rate_250k Encoding.mfm 100000 (omega arith) (omega arith)

time_bits-bits_time_example :
    get_fm_or_mfm_time_bits_as_rounded DataRate.rate_300k
      (get_fm_or_mfm_bits_time_as_rounded DataRate.rate_300k 1001)
    ≡ 1001
unfolding bits_per_second
time_bits-bits_time_example =
    time_bits-bits_time DataRate.rate_300k 1001 (omega arith) (omega arith)

is_ringed_within_iff_example : (is_ringed_within 8 2 9 ≡ true) ↔ (steps 10 8 9 ≤ steps 10 8 2)
is_ringed_within_iff_example =
    is_ringed_within_iff 10 8 2 9 (omega arith) (omega arith) (omega arith)

abbrev around : Interval
around = record { start = 8; end = 2; is_empty = false }

abbrev low : Interval
low = record { start = 1; end = 5; is_empty = false }

ringed_intervals_intersect_iff_example : (ringed_intervals_intersect around low ≡ true) ↔ (
    (x : ℕ) × (x < 10)
    × (is_within_ringed_interval around x ≡ true)
    × (is_within_ringed_interval low x ≡ true))
ringed_intervals_intersect_iff_example =
    ringed_intervals_intersect_iff 10 around low (omega arith) (omega arith)

-- The last number of a ring from 1 to 9.
abbrev last : RingedInt
last = record { value = 9; min = 1; sup = 10 }

last-OnRing : OnRing last
last-OnRing = record { lower = omega arith; upper = omega arith }

increment-plus_example : increment last ≡ plus (pos 1) last
increment-plus_example = increment-plus last last-OnRing

decrement-increment_example : decrement (increment last) ≡ last
decrement-increment_example = decrement-increment last last-OnRing
