-- ===== src/Ibm.antt =====
-- include/IBMPCBase.h and src/IBMPCBase.cpp: the sizes, in data bytes, of the parts of an IBM PC
-- format track. The options `byte_tolerance_of_time` is an argument.
pub mod Cohere
pub mod Times
use samdisk_plus.Prelude.{
  ℕ, ◌+◌, ◌-◌, ◌*◌, ◌/◌, ◌==◌, ltb, Bool, true, false, if◌then◌else◌, leb, ◌||◌,
}
use samdisk_plus.Header.{
  DataRate, Encoding, is_fm, is_mfm, bits_per_second, data_byte_position_as_bit_offset,
  tolerated_offset_distance,
}

abbrev pub ibm_dam_deleted : ℕ
ibm_dam_deleted = 0xf8

abbrev pub ibm_dam_deleted_alt : ℕ
ibm_dam_deleted_alt = 0xf9

abbrev pub ibm_dam_alt : ℕ
ibm_dam_alt = 0xfa

abbrev pub ibm_dam : ℕ
ibm_dam = 0xfb

abbrev pub ibm_iam : ℕ
ibm_iam = 0xfc

abbrev pub ibm_dam_rx02 : ℕ
ibm_dam_rx02 = 0xfd

abbrev pub ibm_idam : ℕ
ibm_idam = 0xfe

abbrev pub gap2_mfm_ed : ℕ
gap2_mfm_ed = 41

abbrev pub gap2_mfm_ddhd : ℕ
gap2_mfm_ddhd = 22

abbrev pub gap2_fm : ℕ
gap2_fm = 11

abbrev pub am_crc : ℕ
am_crc = 2

abbrev pub sync_overhead_mfm : ℕ
sync_overhead_mfm = 12

abbrev pub track_overhead_mfm : ℕ
track_overhead_mfm = 80 + sync_overhead_mfm + 4 + 50

abbrev pub idam_overhead_mfm : ℕ
idam_overhead_mfm = 4

abbrev pub dam_overhead_mfm : ℕ
dam_overhead_mfm = 4

abbrev pub id_overhead_mfm : ℕ
id_overhead_mfm = idam_overhead_mfm + 4 + am_crc

abbrev pub d_overhead_mfm : ℕ
d_overhead_mfm = dam_overhead_mfm + am_crc

abbrev pub sector_overhead_mfm : ℕ
sector_overhead_mfm =
    sync_overhead_mfm + id_overhead_mfm + gap2_mfm_ddhd + sync_overhead_mfm + d_overhead_mfm

abbrev pub sync_overhead_fm : ℕ
sync_overhead_fm = 6

abbrev pub track_overhead_fm : ℕ
track_overhead_fm = 40 + sync_overhead_fm + 1 + 26

abbrev pub idam_overhead_fm : ℕ
idam_overhead_fm = 1

abbrev pub dam_overhead_fm : ℕ
dam_overhead_fm = 1

abbrev pub id_overhead_fm : ℕ
id_overhead_fm = idam_overhead_fm + 4 + am_crc

abbrev pub d_overhead_fm : ℕ
d_overhead_fm = dam_overhead_fm + am_crc

abbrev pub sector_overhead_fm : ℕ
sector_overhead_fm = sync_overhead_fm + id_overhead_fm + gap2_fm + sync_overhead_fm + d_overhead_fm

-- The time of one revolution in microseconds.
abbrev pub rpm_time_300 : ℕ
rpm_time_300 = 60000000 / 300

abbrev pub rpm_time_360 : ℕ
rpm_time_360 = 60000000 / 360

abbrev pub min_gap3 : ℕ
min_gap3 = 1

unfoldable pub get_track_overhead : Encoding → ℕ
get_track_overhead e = if is_mfm e then track_overhead_mfm else track_overhead_fm

unfoldable pub get_sector_overhead : Encoding → ℕ
get_sector_overhead e = if is_mfm e then sector_overhead_mfm else sector_overhead_fm

unfoldable pub get_data_overhead : Encoding → ℕ
get_data_overhead e = if is_mfm e then dam_overhead_mfm else dam_overhead_fm

unfoldable pub get_sync_overhead : Encoding → ℕ
get_sync_overhead e = if is_mfm e then sync_overhead_mfm else sync_overhead_fm

-- `>>= 1` is the division by 2.
unfoldable pub get_raw_track_capacity : ℕ → DataRate → Encoding → ℕ
unfolding bits_per_second
get_raw_track_capacity revolution_time datarate encoding =
    let len_bytes = bits_per_second datarate / 1000 * revolution_time / 1000 / 8 in
    if is_fm encoding then len_bytes / 2 else len_bytes

unfoldable pub get_track_capacity : ℕ → DataRate → Encoding → ℕ
unfolding get_raw_track_capacity
get_track_capacity revolution_time datarate encoding =
    get_raw_track_capacity revolution_time datarate encoding * 1995 / 2000

unfoldable pub get_idam_overhead : Encoding → ℕ
get_idam_overhead e = if is_fm e then idam_overhead_fm else idam_overhead_mfm

unfoldable pub get_idam_overhead_sync_overhead : Encoding → ℕ
unfolding get_idam_overhead
get_idam_overhead_sync_overhead e = get_idam_overhead e - 1

unfoldable pub get_dam_overhead : Encoding → ℕ
get_dam_overhead e = if is_fm e then dam_overhead_fm else dam_overhead_mfm

unfoldable pub get_dam_overhead_sync_overhead : Encoding → ℕ
unfolding get_dam_overhead
get_dam_overhead_sync_overhead e = get_dam_overhead e - 1

unfoldable pub get_id_overhead : Encoding → ℕ
get_id_overhead e = if is_fm e then id_overhead_fm else id_overhead_mfm

unfoldable pub get_id_overhead_without_idam_overhead_sync_overhead : Encoding → ℕ
unfolding get_id_overhead get_idam_overhead_sync_overhead
get_id_overhead_without_idam_overhead_sync_overhead e =
    get_id_overhead e - get_idam_overhead_sync_overhead e

unfoldable pub get_d_overhead : Encoding → ℕ → ℕ
get_d_overhead e data_size = (if is_fm e then d_overhead_fm else d_overhead_mfm) + data_size

unfoldable pub get_fm_or_mfm_sync_length : Encoding → Bool → ℕ
get_fm_or_mfm_sync_length e short_mfm_gap =
    if is_fm e then sync_overhead_fm else if short_mfm_gap then 3 else sync_overhead_mfm

-- `datarate == DataRate::_1M`
abbrev pub is_1m : DataRate → Bool
is_1m DataRate.rate_1m = true
is_1m _ = false

unfoldable pub get_fm_or_mfm_gap2_length : DataRate → Encoding → ℕ
get_fm_or_mfm_gap2_length datarate e =
    if is_fm e then gap2_fm else if is_1m datarate then gap2_mfm_ed else gap2_mfm_ddhd

unfoldable pub get_fm_or_mfm_gap3_length : Bool → ℕ
get_fm_or_mfm_gap3_length short_mfm_gap = if short_mfm_gap then min_gap3 else 25

unfoldable pub get_fm_or_mfm_gap2_plus_sync_length : DataRate → Encoding → ℕ
unfolding get_fm_or_mfm_gap2_length get_fm_or_mfm_sync_length
get_fm_or_mfm_gap2_plus_sync_length datarate e =
    get_fm_or_mfm_gap2_length datarate e + get_fm_or_mfm_sync_length e false

unfoldable pub get_fm_or_mfm_sector_overhead_without_sync : DataRate → Encoding → ℕ → ℕ
unfolding get_id_overhead get_fm_or_mfm_gap2_plus_sync_length get_d_overhead
get_fm_or_mfm_sector_overhead_without_sync datarate e data_size =
    get_id_overhead e
    + get_fm_or_mfm_gap2_plus_sync_length datarate e
    + get_d_overhead e 0
    + data_size

unfoldable pub get_fm_or_mfm_idam_and_dam_distance : DataRate → Encoding → ℕ
unfolding get_id_overhead get_idam_overhead_sync_overhead get_fm_or_mfm_gap2_plus_sync_length
    get_dam_overhead_sync_overhead
get_fm_or_mfm_idam_and_dam_distance datarate e =
    get_id_overhead e
    - get_idam_overhead_sync_overhead e
    + get_fm_or_mfm_gap2_plus_sync_length datarate e
    + get_dam_overhead_sync_overhead e

unfoldable pub get_fm_or_mfm_sector_overhead : DataRate → Encoding → ℕ → Bool → ℕ
unfolding get_fm_or_mfm_sync_length get_fm_or_mfm_sector_overhead_without_sync
get_fm_or_mfm_sector_overhead datarate e data_size short_mfm_gap =
    get_fm_or_mfm_sync_length e short_mfm_gap
    + get_fm_or_mfm_sector_overhead_without_sync datarate e data_size

unfoldable pub get_fm_or_mfm_sector_overhead_with_gap3 : DataRate → Encoding → ℕ → Bool → ℕ
unfolding get_fm_or_mfm_sector_overhead get_fm_or_mfm_gap3_length
get_fm_or_mfm_sector_overhead_with_gap3 datarate e data_size short_mfm_gap =
    get_fm_or_mfm_sector_overhead datarate e data_size short_mfm_gap
    + get_fm_or_mfm_gap3_length short_mfm_gap
