-- ===== src/Sector/Match.antt =====
-- The methods of src/Sector.cpp that look at the data of a sector or compare it with another.
use samdisk_plus.Prelude.{
  ℕ, ◌+◌, ◌-◌, ◌==◌, ltb, Bool, true, false, not, ◌&&◌, ◌||◌, List, [], ◌∷◌, if◌then◌else◌, take,
}
use samdisk_plus.Header.{
  Header, CylHead, compare_chrn, are_offsets_tolerated_same, are_interchangeably_equal_datarates,
  convert_offset_by_datarate, data_byte_position_as_bit_offset,
  is_normal_and_originated_from_neighbor_cyl,
}
use samdisk_plus.Ibm.{get_fm_or_mfm_sector_overhead_with_gap3}
use samdisk_plus.Sector.{
  Options, Sector, size, copies, has_data, data_size, has_gapdata, has_good_normaldata,
  is_8k_sector, first_copy, same_datarate, same_encoding, is_stable, data_best_copy_read_stats,
}
use samdisk_plus.Sector.Checksum.{has_checksum}

-- `std::equal`, for lists of one length.
unfoldable pub equal_bytes : List ℕ → List ℕ → Bool
equal_bytes [] [] = true
equal_bytes (x ∷ xs) (y ∷ ys) = x == y && equal_bytes xs ys
equal_bytes _ _ = false

unfoldable pub is_checksummable_8k_sector : Sector → Bool
is_checksummable_8k_sector s =
    is_8k_sector s && (has_data s && has_checksum (first_copy s.data_copies))

unfoldable pub has_good_data : Bool → Bool → Sector → Bool
unfolding is_checksummable_8k_sector has_good_normaldata
has_good_data consider_checksummable_8k consider_normal_disk s =
    if consider_normal_disk
    then has_good_normaldata s
    else (consider_checksummable_8k && is_checksummable_8k_sector s)
      || (has_data s && (not s.bad_data_crc && not (has_gapdata s)))

-- Good data, which paranoia asks to have been read often enough.
unfoldable pub has_stable_data : Options → Bool → Sector → Bool
unfolding has_good_data data_best_copy_read_stats
has_stable_data o consider_checksummable_8k s =
    let result = has_good_data (consider_checksummable_8k && not o.normal_disk) o.normal_disk s in
    if not o.paranoia || not result then result else is_stable o (data_best_copy_read_stats s)

-- `operator ==`
unfoldable pub same_sector : Sector → Sector → Bool
unfolding equal_bytes size
same_sector s other =
    if not (compare_chrn other.header s.header)
    then false
    else (if copies other == 0 && copies s == 0
        then true
        else (if not (has_data other) || not (has_data s)
            then false
            else (if ltb (data_size other) (size other) || ltb (data_size s) (size s)
                then false
                else equal_bytes (take (size s) (first_copy s.data_copies))
                    (take (size s) (first_copy other.data_copies)))))

unfoldable pub is_sector_tolerated_same : Header → ℕ → ℕ → ℕ → Sector → Bool
is_sector_tolerated_same other_header other_offset byte_tolerance_of_time track_len s =
    are_offsets_tolerated_same s.offset other_offset s.encoding byte_tolerance_of_time track_len
      true
    && compare_chrn s.header other_header

unfoldable pub has_normal_header_and_misread_from_neighbor_cyl : CylHead → ℕ → Sector → Bool
has_normal_header_and_misread_from_neighbor_cyl at track_sup s =
    is_normal_and_originated_from_neighbor_cyl s.header at track_sup

-- `scale offset other this` is the floating-point `offset * other / this`, rounded.
unfoldable pub has_same_record_properties :
    Options → (ℕ → ℕ → ℕ → ℕ) → ℕ → Sector → ℕ → Bool → Sector → Bool
has_same_record_properties o scale this_track_len other other_track_len ignore_offsets s =
    let other_rate =
      not (same_datarate other.datarate s.datarate)
      && are_interchangeably_equal_datarates other.datarate s.datarate in
    let normalised =
      if other_rate
      then convert_offset_by_datarate s.offset s.datarate other.datarate
      else s.offset in
    if other.bad_id_crc || (s.bad_id_crc || not (compare_chrn other.header s.header))
    then false
    else (if not (same_encoding other.encoding s.encoding)
        then false
        else (if not (same_datarate other.datarate s.datarate) && not other_rate
            then false
            else (if this_track_len == 0 && other_track_len == 0
                then true
                else (if this_track_len == 0 || other_track_len == 0
                    then false
                    else (if ignore_offsets
                        then true
                        else are_offsets_tolerated_same
                            (scale normalised other_track_len this_track_len) other.offset
                            s.encoding o.byte_tolerance_of_time other_track_len true)))))

unfoldable pub next_sector_offset_distance_min : Sector → ℕ
unfolding size
next_sector_offset_distance_min s =
    data_byte_position_as_bit_offset
      (get_fm_or_mfm_sector_overhead_with_gap3 s.datarate s.encoding (size s) true) s.encoding

-- `diffModulo` of the two offsets, which lie on the track.
unfoldable pub offset_distance_from_this_to : Sector → ℕ → Sector → ℕ
offset_distance_from_this_to to_sector track_len s =
    if ltb to_sector.offset s.offset
    then to_sector.offset + track_len - s.offset
    else to_sector.offset - s.offset
