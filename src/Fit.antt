-- ===== src/Fit.antt =====
-- src/IBMPC.cpp: the third gap of a format, and how the sectors of a track are fitted into a format of
-- units of one size. Messages are not modelled.
pub mod Cover
pub mod Room
pub mod Whole
use samdisk_plus.Prelude.{
  ℕ, zero, suc, ◌+◌, ◌-◌, ◌*◌, ◌/◌, ◌==◌, ltb, leb, min, max, Bool, true, false, not, ◌&&◌, ◌||◌,
  List, [], ◌∷◌, if◌then◌else◌, length, map, Option, none, some,
}
use samdisk_plus.Header.{DataRate, Encoding, is_fm, is_mfm}
use samdisk_plus.Ibm.{get_track_overhead, get_sector_overhead, get_track_capacity, rpm_time_300}
use samdisk_plus.Sector.{
  Sector, size_code_to_length, size_code_to_real_size_code, same_datarate, same_encoding,
}
use samdisk_plus.Sector.Match.{has_good_data}
use samdisk_plus.Track.{Track, is_empty, is_mixed_encoding, get_data_rate, get_encoding}

abbrev pub max_gap3 : ℕ
max_gap3 = 82

abbrev pub size_mask_765 : ℕ
size_mask_765 = 7

unfoldable pub get_format_length : Encoding → ℕ → ℕ → ℕ → ℕ
unfolding size_code_to_length get_sector_overhead
get_format_length encoding sectors size gap3 =
    (size_code_to_length size + get_sector_overhead encoding + gap3) * sectors

unfoldable pub get_unformat_size_code : DataRate → ℕ
get_unformat_size_code DataRate.rate_250k = 6
get_unformat_size_code DataRate.rate_300k = 6
get_unformat_size_code DataRate.rate_500k = 7
get_unformat_size_code DataRate.rate_1m = 8
get_unformat_size_code DataRate.unknown = 7

pub record FormatGap : Type 0 where
  pub drivespeed : ℕ
  pub datarate : DataRate
  pub encoding : Encoding
  pub sectors : ℕ
  pub size : ℕ
  pub gap3 : ℕ

-- The formats of DOS at 2.88M, 1.44M and 720K.
abbrev pub standard_gaps : List FormatGap
standard_gaps =
    record {
      drivespeed = rpm_time_300;
      datarate = DataRate.rate_1m;
      encoding = Encoding.mfm;
      sectors = 36;
      size = 2;
      gap3 = 0x53;
    }
    ∷ record {
      drivespeed = rpm_time_300;
      datarate = DataRate.rate_500k;
      encoding = Encoding.mfm;
      sectors = 18;
      size = 2;
      gap3 = 0x65;
    }
    ∷ record {
      drivespeed = rpm_time_300;
      datarate = DataRate.rate_250k;
      encoding = Encoding.mfm;
      sectors = 9;
      size = 2;
      gap3 = 0x50;
    }
    ∷ []

-- The first gap of the list whose format matches, or the given one.
unfoldable pub known_gap : List FormatGap → ℕ → DataRate → Encoding → ℕ → ℕ → ℕ → ℕ
known_gap [] revolution_time datarate encoding sectors size gap3 = gap3
known_gap (fg ∷ fgs) revolution_time datarate encoding sectors size gap3 =
    let rest = known_gap fgs revolution_time datarate encoding sectors size gap3 in
    if (fg.drivespeed == revolution_time)
      && (same_datarate fg.datarate datarate
          && (same_encoding fg.encoding encoding && ((fg.sectors == sectors) && (fg.size == size))))
    then fg.gap3
    else rest

-- An overhead above the capacity leaves no gap in the source either.
unfoldable pub calculated_gap : ℕ → DataRate → Encoding → ℕ → ℕ → ℕ
unfolding get_track_capacity get_track_overhead get_sector_overhead size_code_to_length
calculated_gap revolution_time datarate encoding sectors size =
    min
      ((get_track_capacity revolution_time datarate encoding - get_track_overhead encoding)
          / sectors
        - (size_code_to_length size + get_sector_overhead encoding))
      max_gap3

unfoldable pub get_format_gap : ℕ → DataRate → Encoding → ℕ → ℕ → ℕ
unfolding known_gap calculated_gap
get_format_gap revolution_time datarate encoding sectors size =
    if sectors == 0
    then 0
    else known_gap standard_gaps revolution_time datarate encoding sectors size
        (calculated_gap revolution_time datarate encoding sectors size)

pub record FitDetails : Type 0 where
  pub total_units : ℕ
  pub size_code : ℕ
  pub gap3 : ℕ
  pub sector_units : List ℕ
  pub real_errors : Bool

-- The true size of a sector; the source's -1, for a sector whose size is not trusted, is `none`.
unfoldable pub true_size : Bool → Sector → Option ℕ
unfolding has_good_data size_code_to_real_size_code
true_size real_errors s =
    if not real_errors && not (has_good_data false false s)
    then none
    else some (size_code_to_real_size_code s.header.size)

unfoldable pub min_size : List (Option ℕ) → ℕ
min_size [] = size_mask_765
min_size (none ∷ sizes) = min_size sizes
min_size (some n ∷ sizes) = min n (min_size sizes)

unfoldable pub max_size : List (Option ℕ) → ℕ
max_size [] = 0
max_size (none ∷ sizes) = max_size sizes
max_size (some n ∷ sizes) = max n (max_size sizes)

-- No sector has good data; those whose size is not trusted have none anyway.
unfoldable pub all_errors : List Sector → Bool
unfolding has_good_data
all_errors [] = true
all_errors (s ∷ ss) = not (has_good_data false false s) && all_errors ss

unfoldable pub total : List ℕ → ℕ
total [] = 0
total (n ∷ ns) = n + total ns

-- The units of a sector by simple multiples of the size.
unfoldable pub simple_units : ℕ → Option ℕ → ℕ
unfolding size_code_to_length
simple_units size_code none = 1
simple_units size_code (some n) =
    if ltb n size_code then 1 else size_code_to_length n / size_code_to_length size_code

-- Downwards from the size code below `codes`.
unfoldable pub fit_simple : ℕ → DataRate → Encoding → Bool → List (Option ℕ) → ℕ → Option FitDetails
unfolding simple_units total get_format_gap
fit_simple revolution_time datarate encoding real_errors sizes zero = none
fit_simple revolution_time datarate encoding real_errors sizes (suc size_code) =
    let units = map (simple_units size_code) sizes in
    let gap3 = get_format_gap revolution_time datarate encoding (total units) size_code in
    let rest = fit_simple revolution_time datarate encoding real_errors sizes size_code in
    if (total units == 0) || (gap3 == 0)
    then rest
    else some (record {
      total_units = total units;
      size_code = size_code;
      gap3 = gap3;
      sector_units = units;
      real_errors = real_errors;
    })

-- The units of a sector that are clipped by the next one, rounded up.
unfoldable pub clipped_units : Encoding → ℕ → ℕ → Option ℕ → ℕ
unfolding size_code_to_length get_sector_overhead
clipped_units encoding size_code gap3 size =
    let unit_length = get_sector_overhead encoding + size_code_to_length size_code + gap3 in
    let code : ℕ = elim size [ none ↦ size_code | some n ↦ n ] in
    (get_sector_overhead encoding + size_code_to_length code + unit_length - 1) / unit_length

-- Downwards from the gap to 1.
unfoldable pub fit_gaps : ℕ → Encoding → Bool → List (Option ℕ) → ℕ → ℕ → Option FitDetails
unfolding clipped_units total get_format_length
fit_gaps track_space encoding real_errors sizes size_code zero = none
fit_gaps track_space encoding real_errors sizes size_code (suc gap) =
    let units = map (clipped_units encoding size_code (suc gap)) sizes in
    let rest = fit_gaps track_space encoding real_errors sizes size_code gap in
    if ltb (get_format_length encoding (total units) size_code (suc gap)) track_space
    then some (record {
      total_units = total units;
      size_code = size_code;
      gap3 = suc gap;
      sector_units = units;
      real_errors = real_errors;
    })
    else rest

abbrev pub or_else {ℓ} : {A : Type ℓ} → Option A → Option A → Option A
or_else none other = other
or_else (some a) other = some a

unfoldable pub fit_clipped : ℕ → Encoding → Bool → List (Option ℕ) → ℕ → Option FitDetails
unfolding fit_gaps
fit_clipped track_space encoding real_errors sizes zero = none
fit_clipped track_space encoding real_errors sizes (suc size_code) =
    or_else (fit_gaps track_space encoding real_errors sizes size_code 255)
      (fit_clipped track_space encoding real_errors sizes size_code)

-- One round, with real or with dummy errors.
unfoldable pub fit_round : ℕ → DataRate → Encoding → Bool → List Sector → Option FitDetails
unfolding true_size min_size max_size all_errors fit_simple fit_clipped get_track_capacity
fit_round revolution_time datarate encoding real_errors ss =
    let sizes = map (true_size real_errors) ss in
    let largest = if all_errors ss then size_mask_765 else max_size sizes in
    or_else (fit_simple revolution_time datarate encoding real_errors sizes (suc largest)) (
      fit_clipped (get_track_capacity revolution_time datarate encoding) encoding real_errors sizes
        (suc (min_size sizes)))

unfoldable pub fit_track_ibm_pc : ℕ → Track → Option FitDetails
unfolding fit_round get_data_rate get_encoding is_mixed_encoding
fit_track_ibm_pc revolution_time t =
    let round : Bool → Option FitDetails = λ real_errors.
      fit_round revolution_time (get_data_rate t) (get_encoding t) real_errors t.sectors in
    if is_empty t || is_mixed_encoding t
    then none
    else (if not (is_mfm (get_encoding t)) && not (is_fm (get_encoding t))
        then none
        else or_else (round true) (round false))
