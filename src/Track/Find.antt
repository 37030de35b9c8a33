-- ===== src/Track/Find.antt =====
-- The searches of src/Track.cpp, which give the index of the sector that is found.
use samdisk_plus.Prelude.{
  ℕ, suc, ◌==◌, ltb, leb, Bool, ◌&&◌, ◌||◌, List, [], ◌∷◌, if◌then◌else◌, get_elem?, drop, Option,
  none, some,
}
use samdisk_plus.Prelude.Int.{sub_ℕ}
use samdisk_plus.Header.{
  DataRate, Encoding, Header, compare_chrn, compare_chr, data_byte_position_as_bit_offset,
  sizecode_unknown,
}
use samdisk_plus.Ibm.{get_fm_or_mfm_idam_and_dam_distance}
use samdisk_plus.Ibm.Cohere.{CohereResult, do_sector_id_and_data_offsets_cohere, modulo}
use samdisk_plus.Sector.{Options, Sector, same_datarate, same_encoding, data_size, size}
use samdisk_plus.Sector.Match.{is_sector_tolerated_same}
use samdisk_plus.Track.{Track, find_if, get_data_rate, get_encoding}

unfoldable pub find : Header → Track → Option ℕ
unfolding find_if
find header t = find_if (λ s. compare_chrn header s.header) 0 t.sectors

-- The search after `prev`, from the end when `prev` is the end.
unfoldable pub find_next : Header → Option ℕ → Track → Option ℕ
unfolding find_if
find_next header none t = none
find_next header (some prev) t =
    find_if (λ s. compare_chrn header s.header) (suc prev) (drop (suc prev) t.sectors)

unfoldable pub find_at : Header → ℕ → Track → Option ℕ
unfolding find_if
find_at header offset t =
    find_if (λ s. (offset == s.offset) && compare_chrn header s.header) 0 t.sectors

unfoldable pub find_tolerated_same : Options → Header → ℕ → ℕ → Track → Option ℕ
unfolding find_if
find_tolerated_same o header offset len t =
    find_if (is_sector_tolerated_same header offset o.byte_tolerance_of_time len) 0 t.sectors

unfoldable pub find_first_from_offset : ℕ → Track → Option ℕ
unfolding find_if
find_first_from_offset offset t = find_if (λ s. leb offset s.offset) 0 t.sectors

unfoldable pub find_ignoring_size : Header → Track → Option ℕ
unfolding find_if
find_ignoring_size header t = find_if (λ s. compare_chr header s.header) 0 t.sectors

unfoldable pub find_exact : Header → DataRate → Encoding → Track → Option ℕ
unfolding find_if
find_exact header datarate encoding t =
    find_if
      (λ s.
        compare_chrn header s.header
        && (same_datarate datarate s.datarate && same_encoding encoding s.encoding))
      0 t.sectors

-- The last sector that coheres before one that the data come too early for, or the first one.
unfoldable pub find_coherent :
    (Sector → CohereResult) → ℕ → Bool → ℕ → Option ℕ → List Sector → Option ℕ
find_coherent cohere size_code closest i found [] = found
find_coherent cohere size_code closest i found (s ∷ ss) =
    let skip = find_coherent cohere size_code closest (suc i) found ss in
    let take_it =
      if closest then find_coherent cohere size_code closest (suc i) (some i) ss else some i in
    elim (cohere s) [
      | CohereResult.data_too_early ↦ found
      | CohereResult.data_too_late ↦ skip
      | CohereResult.data_coheres ↦
          if (size_code == sizecode_unknown) || (s.header.size == size_code) then take_it else skip
    ]

unfoldable pub find_sector_for_data_fm_or_mfm : Options → ℕ → ℕ → Bool → Track → Option ℕ
unfolding find_coherent do_sector_id_and_data_offsets_cohere get_data_rate get_encoding
find_sector_for_data_fm_or_mfm o data_offset size_code closest t =
    let cohere : Sector → CohereResult = λ s.
      do_sector_id_and_data_offsets_cohere o.byte_tolerance_of_time s.offset data_offset
        (get_data_rate t) (get_encoding t) t.tracklen in
    find_coherent cohere size_code closest 0 none t.sectors

unfoldable pub find_reasonable_id_offset_for_data_fm_or_mfm : ℕ → Track → ℕ
unfolding get_fm_or_mfm_idam_and_dam_distance data_byte_position_as_bit_offset modulo get_data_rate
    get_encoding
find_reasonable_id_offset_for_data_fm_or_mfm data_offset t =
    let distance = get_fm_or_mfm_idam_and_dam_distance (get_data_rate t) (get_encoding t) in
    modulo (sub_ℕ data_offset (data_byte_position_as_bit_offset distance (get_encoding t)))
      t.tracklen

-- The exception of a sector that is not there or is too short is `none`.
unfoldable pub get_sector : Header → Track → Option Sector
unfolding find size
get_sector header t = at_index (find header t)
  where
    long_enough : Option Sector → Option Sector
    long_enough none = none
    long_enough (some s) = if ltb (data_size s) (size s) then none else some s

    at_index : Option ℕ → Option Sector
    at_index none = none
    at_index (some i) = long_enough (get_elem? t.sectors i)
