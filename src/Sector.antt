-- ===== src/Sector.antt =====
-- include/Sector.h and src/Sector.cpp: a sector with the copies of its data that were read, how
-- often each was read, and the state of its CRCs. `m_data` is `data_copies`; `m_data_read_stats`
-- holds one counter for each copy. Command-line options are the record `Options`. A revolution, a
-- gap, an offset and a count are never negative. Messages and printing are not modelled.
pub mod Checksum
pub mod Edit
pub mod Merge
pub mod Match
pub mod Inv
pub mod Stages
pub mod Kept
pub mod Copies
pub mod Keeps
pub mod Good
use samdisk_plus.Prelude.{
  ℕ, zero, suc, ◌+◌, ◌-◌, ◌*◌, ◌^◌, ◌==◌, min, max, ltb, leb, Bool, true, false, not, ◌&&◌, ◌||◌,
  List, [], ◌∷◌, if◌then◌else◌, length, get_or, Option, none, some,
}
use samdisk_plus.Prelude.Int.{ℤ}
use samdisk_plus.Prelude.Words.{◌<<<◌}
use samdisk_plus.Header.{
  DataRate, Encoding, Header, is_mfm, bits_per_second, compare_chrn, is_orphan, has_unknown_size,
}
use samdisk_plus.Ibm.{ibm_dam, ibm_dam_deleted, ibm_dam_deleted_alt, ibm_dam_alt, ibm_dam_rx02}

pub record Options : Type 0 where
  pub byte_tolerance_of_time : ℕ
  pub fill : ℤ
  pub maxcopies : ℕ
  pub normal_disk : Bool
  pub paranoia : Bool
  pub stability_level : ℕ

pub record Sector : Type 0 where
  pub header : Header
  pub datarate : DataRate
  pub encoding : Encoding
  pub offset : ℕ
  pub revolution : ℕ
  pub gap3 : ℕ
  pub dam : ℕ
  pub bad_id_crc : Bool
  pub bad_data_crc : Bool
  pub data_copies : List (List ℕ)
  pub data_read_stats : List ℕ
  pub read_attempts : ℕ
  pub constant_disk : Bool

-- The constructor.
unfoldable pub new_sector : DataRate → Encoding → Header → ℕ → Sector
new_sector datarate encoding header gap3 = record {
  header = header;
  datarate = datarate;
  encoding = encoding;
  offset = 0;
  revolution = 0;
  gap3 = gap3;
  dam = ibm_dam;
  bad_id_crc = false;
  bad_data_crc = false;
  data_copies = [];
  data_read_stats = [];
  read_attempts = 0;
  constant_disk = true;
}

-- Sizes above 7 are treated as 8.
unfoldable pub size_code_to_real_size_code : ℕ → ℕ
size_code_to_real_size_code size = if leb size 7 then size else 8

unfoldable pub size_code_to_length : ℕ → ℕ
unfolding size_code_to_real_size_code
size_code_to_length size = 128 <<< size_code_to_real_size_code size

unfoldable pub size : Sector → ℕ
unfolding size_code_to_length
size s = size_code_to_length s.header.size

-- The first copy; the source asserts that there is one.
abbrev pub first_copy : List (List ℕ) → List ℕ
first_copy [] = []
first_copy (d ∷ ds) = d

abbrev pub copies : Sector → ℕ
copies s = length s.data_copies

abbrev pub has_data : Sector → Bool
has_data s = not (length s.data_copies == 0)

abbrev pub data_size : Sector → ℕ
data_size s = length (first_copy s.data_copies)

-- A copy out of range is the last one.
unfoldable pub data_copy : ℕ → Sector → List ℕ
data_copy copy s = get_or s.data_copies (min copy (copies s - 1)) []

abbrev pub has_gapdata : Sector → Bool
has_gapdata s = ltb (size_code_to_length s.header.size) (length (first_copy s.data_copies))

unfoldable pub has_shortdata : Sector → Bool
unfolding size
has_shortdata s = ltb (data_size s) (size s)

unfoldable pub has_normaldata : Sector → Bool
unfolding size
has_normaldata s = data_size s == size s

unfoldable pub has_good_normaldata : Sector → Bool
unfolding has_normaldata
has_good_normaldata s = has_data s && (not s.bad_data_crc && has_normaldata s)

-- The index of the first greatest number, of which the first is given; `i` is the next index.
unfoldable pub max_index : ℕ → ℕ → ℕ → List ℕ → ℕ
max_index best at i [] = at
max_index best at i (n ∷ ns) =
    max_index (if ltb best n then n else best) (if ltb best n then i else at) (suc i) ns

unfoldable pub get_data_best_copy_index : Sector → ℕ
unfolding max_index
get_data_best_copy_index s = max_index (get_or s.data_read_stats 0 0) 0 0 s.data_read_stats

unfoldable pub data_best_copy : Sector → List ℕ
unfolding data_copy get_data_best_copy_index
data_best_copy s = data_copy (get_data_best_copy_index s) s

unfoldable pub data_best_copy_read_stats : Sector → ℕ
unfolding get_data_best_copy_index
data_best_copy_read_stats s = get_or s.data_read_stats (get_data_best_copy_index s) 0

-- `DataReadStats::IsStable`
abbrev pub is_stable : Options → ℕ → Bool
is_stable o read_count = leb o.stability_level read_count

unfoldable pub get_good_data_copy_stability_score : Options → ℕ → Sector → ℕ
get_good_data_copy_stability_score o instance_ s =
    if o.paranoia then min (get_or s.data_read_stats instance_ 0) o.stability_level else 1

unfoldable pub is_deleted : Sector → Bool
is_deleted s = s.dam == ibm_dam_deleted || s.dam == ibm_dam_deleted_alt

unfoldable pub is_altdam : Sector → Bool
is_altdam s = s.dam == ibm_dam_alt

unfoldable pub is_rx02dam : Sector → Bool
is_rx02dam s = s.dam == ibm_dam_rx02

-- A data rate is its number of bits per second.
abbrev pub same_datarate : DataRate → DataRate → Bool
same_datarate a b = bits_per_second a == bits_per_second b

-- The place of an encoding in the enumeration.
unfoldable pub encoding_number : Encoding → ℕ
encoding_number Encoding.unknown = 0
encoding_number Encoding.mfm = 1
encoding_number Encoding.fm = 2
encoding_number Encoding.rx02 = 3
encoding_number Encoding.amiga = 4
encoding_number Encoding.gcr = 5
encoding_number Encoding.ace = 6
encoding_number Encoding.mx = 7
encoding_number Encoding.agat = 8
encoding_number Encoding.apple = 9
encoding_number Encoding.victor = 10
encoding_number Encoding.vista = 11

abbrev pub same_encoding : Encoding → Encoding → Bool
same_encoding a b = encoding_number a == encoding_number b

unfoldable pub is_8k_sector : Sector → Bool
is_8k_sector s =
    same_datarate s.datarate DataRate.rate_250k
    && (is_mfm s.encoding && (s.header.size == 6 && has_data s))

unfoldable pub compare_header : Sector → Sector → Bool
compare_header s other = compare_chrn s.header other.header

unfoldable pub compare_header_datarate_encoding : Sector → Sector → Bool
unfolding compare_header
compare_header_datarate_encoding s other =
    same_datarate s.datarate other.datarate
    && (same_encoding s.encoding other.encoding && compare_header s other)
