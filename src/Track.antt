-- ===== src/Track.antt =====
-- include/Track.h and src/Track.cpp: a track is its sectors in the order of their offsets, with its
-- length in raw bits and its time in microseconds. An iterator is an index, `none` for the end; the
-- source compares sectors by address where an index stands here. Lengths and offsets are never
-- negative. Messages are not modelled.
pub mod Find
pub mod Add
pub mod Positions
pub mod Order
pub mod Merging
pub mod Keeps
pub mod Reached
pub mod Offsets
pub mod Sync
pub mod Tune
pub mod Populate
use samdisk_plus.Prelude.{
  ℕ, zero, suc, ◌+◌, ◌-◌, ◌*◌, ◌==◌, ltb, leb, Bool, true, false, not, ◌&&◌, ◌||◌, List, [], ◌∷◌,
  ◌++◌, if◌then◌else◌, length, get_elem?, get_or, drop, take, map, Option, none, some,
}
use samdisk_plus.Prelude.Int.{ℤ, pos, negsuc, pos_part, sub_ℕ}
use samdisk_plus.Prelude.Words.{◌>>>◌}
use samdisk_plus.Header.{
  DataRate, Encoding, Header, is_fm, is_mfm, compare_chrn, is_orphan, has_unknown_size,
}
use samdisk_plus.Ibm.{
  get_track_capacity, get_fm_or_mfm_sector_overhead_without_sync, rpm_time_300, rpm_time_360,
  am_crc,
}
use samdisk_plus.Ibm.Times.{get_fm_or_mfm_bits_time_as_rounded, get_fm_or_mfm_time_bits_as_rounded}
use samdisk_plus.Sector.{
  Options, Sector, is_8k_sector, size, same_datarate, same_encoding,
  compare_header_datarate_encoding, data_size,
}
use samdisk_plus.Sector.Edit.{copy_without_data, make_offset_not0, erase}
use samdisk_plus.Sector.Match.{has_good_data, has_stable_data}

pub record Track : Type 0 where
  pub sectors : List Sector
  pub tracklen : ℕ
  pub tracktime : ℕ

abbrev pub empty_track : Track
empty_track = record { sectors = []; tracklen = 0; tracktime = 0 }

abbrev pub is_empty : Track → Bool
is_empty t = length t.sectors == 0

abbrev pub track_size : Track → ℕ
track_size t = length t.sectors

unfoldable pub copy_without_sector_data : Options → Track → Track
copy_without_sector_data o t = record t { sectors = map (copy_without_data o false) t.sectors }

-- `std::find_if` from the index `i`.
unfoldable pub find_if {ℓ} : {A : Type ℓ} → (A → Bool) → ℕ → List A → Option ℕ
find_if test i [] = none
find_if test i (x ∷ xs) = let rest = find_if test (suc i) xs in if test x then some i else rest

unfoldable pub any {ℓ} : {A : Type ℓ} → (A → Bool) → List A → Bool
any test [] = false
any test (x ∷ xs) = test x || any test xs

unfoldable pub filter {ℓ} : {A : Type ℓ} → (A → Bool) → List A → List A
filter test [] = []
filter test (x ∷ xs) = let rest = filter test xs in if test x then x ∷ rest else rest

-- The first sector that is no orphan.
unfoldable pub first_not_orphan : List Sector → Option Sector
first_not_orphan [] = none
first_not_orphan (s ∷ ss) =
    let rest = first_not_orphan ss in if is_orphan s.header then rest else some s

-- The bits from the given offset to a sector that there may be.
unfoldable pub gap_bits : ℕ → ℕ → Option Sector → Option ℤ
gap_bits wrap offset none = none
gap_bits wrap offset (some next) = some (sub_ℕ (wrap + next.offset) offset)

-- The bits between the sector at `i`, which is no orphan, and the next one that is none.
unfoldable pub data_extent_bits : ℕ → Sector → Track → Option ℤ
unfolding first_not_orphan gap_bits
data_extent_bits i s t =
    let revolution_time : ℕ =
      if same_datarate s.datarate DataRate.rate_300k then rpm_time_360 else rpm_time_300 in
    let len =
      if t.tracklen == 0
      then get_track_capacity revolution_time s.datarate s.encoding
      else t.tracklen in
    let wrapped = gap_bits len s.offset (first_not_orphan t.sectors) in
    elim (first_not_orphan (drop (suc i) t.sectors)) [
      | none ↦ wrapped
      | some next ↦ some (sub_ℕ next.offset s.offset)
    ]

-- A negative extent of bits has no bytes.
unfoldable pub data_extent_bytes : ℕ → Sector → Track → Option ℕ
unfolding data_extent_bits size get_fm_or_mfm_sector_overhead_without_sync
data_extent_bytes i s t =
    let shift : ℕ = if is_fm s.encoding then 5 else 4 in
    let overhead = get_fm_or_mfm_sector_overhead_without_sync s.datarate s.encoding 0 - am_crc in
    if not (is_mfm s.encoding) && not (is_fm s.encoding)
    then some (size s)
    else elim (data_extent_bits i s t) [
      | none ↦ none
      | some bits ↦ some ((pos_part bits >>> shift) - overhead)
    ]

-- There is a next sector that is no orphan, if only the sector itself.
unfoldable pub data_overlap : ℕ → Sector → Track → Bool
unfolding data_extent_bytes size
data_overlap i s t =
    not (s.offset == 0)
    && (not (has_unknown_size s.header)
        && elim (data_extent_bytes i s t) [ none ↦ false | some extent ↦ ltb extent (size s) ])

unfoldable pub is_mixed_encoding : Track → Bool
unfolding any
is_mixed_encoding t = mixed t.sectors
  where
    mixed : List Sector → Bool
    mixed [] = false
    mixed (s ∷ ss) = any (λ r. not (same_encoding r.encoding s.encoding)) ss

unfoldable pub is_8k_track : Track → Bool
is_8k_track t = single t.sectors
  where
    single : List Sector → Bool
    single (s ∷ []) = is_8k_sector s
    single _ = false

-- Whether a second match comes up, of which `count` are found.
unfoldable pub is_repeated : Sector → Track → Bool
unfolding filter
is_repeated sector t = leb 2 (length (filter (compare_header_datarate_encoding sector) t.sectors))

unfoldable pub has_all_good_data : Track → Bool
unfolding any
has_all_good_data t = not (any (λ s. not (has_good_data true false s)) t.sectors)

unfoldable pub has_any_good_data : Track → Bool
unfolding any
has_any_good_data t = any (has_good_data false false) t.sectors

unfoldable pub good_sectors : Options → Track → List Sector
unfolding filter
good_sectors o t =
    filter (λ s. not s.bad_id_crc && has_good_data (not o.normal_disk) o.normal_disk s) t.sectors

-- What is put into the set of stable sectors.
unfoldable pub stable_sectors : Options → Track → List Sector
unfolding filter
stable_sectors o t = filter (λ s. not s.bad_id_crc && has_stable_data o true s) t.sectors

unfoldable pub clear : Track → Track
clear t = record t { sectors = [] }

unfoldable pub remove : ℕ → Track → Track
remove i t = record t { sectors = erase i t.sectors }

-- The source asserts that the track has a sector.
unfoldable pub get_data_rate : Track → DataRate
get_data_rate t = first t.sectors
  where
    first : List Sector → DataRate
    first [] = DataRate.unknown
    first (s ∷ ss) = s.datarate

unfoldable pub get_encoding : Track → Encoding
get_encoding t = first t.sectors
  where
    first : List Sector → Encoding
    first [] = Encoding.unknown
    first (s ∷ ss) = s.encoding

unfoldable pub get_time_of_offset : ℕ → Track → ℕ
unfolding get_data_rate get_fm_or_mfm_bits_time_as_rounded
get_time_of_offset offset t = get_fm_or_mfm_bits_time_as_rounded (get_data_rate t) offset

unfoldable pub get_offset_of_time : ℕ → Track → ℕ
unfolding get_data_rate get_fm_or_mfm_time_bits_as_rounded
get_offset_of_time time t = get_fm_or_mfm_time_bits_as_rounded (get_data_rate t) time

unfoldable pub set_track_len : ℕ → Track → Track
unfolding get_time_of_offset
set_track_len len t =
    let t' = record t { tracklen = len } in
    if is_empty t then t' else record t' { tracktime = get_time_of_offset len t }

unfoldable pub set_track_time : ℕ → Track → Track
unfolding get_offset_of_time
set_track_time time t =
    let t' = record t { tracktime = time } in
    if is_empty t then t' else record t' { tracklen = get_offset_of_time time t }
