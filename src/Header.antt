-- ===== src/Header.antt =====
-- include/Header.h and src/Header.cpp: data rates, encodings, positions on a track, cylinder and
-- head numbers, and sector headers. The fields of a header are bytes read from or written to the
-- disk, or the orphan id 256, so they are natural numbers. Text output is not modelled.
pub mod Offsets
pub mod Order
pub mod Sequence
use samdisk_plus.Prelude.{
  ℕ, zero, suc, ◌+◌, ◌-◌, ◌*◌, ◌/◌, ◌^◌, min, max, ◌==◌, leb, ltb, Bool, true, false, not, ◌&&◌,
  ◌||◌, List, [], ◌∷◌, if◌then◌else◌, Option, none, some, set, length, replicate,
}
use samdisk_plus.Prelude.Words.{◌<<<◌, ◌>>>◌}

pub data DataRate : Type 0 where
  unknown rate_250k rate_300k rate_500k rate_1m : DataRate

pub data Encoding : Type 0 where
  unknown mfm fm rx02 amiga gcr ace mx agat apple victor vista : Encoding

-- `encoding == Encoding::FM`
abbrev pub is_fm : Encoding → Bool
is_fm Encoding.fm = true
is_fm _ = false

-- `encoding == Encoding::MFM`
abbrev pub is_mfm : Encoding → Bool
is_mfm Encoding.mfm = true
is_mfm _ = false

low_rate : DataRate → Bool
low_rate DataRate.rate_250k = true
low_rate DataRate.rate_300k = true
low_rate _ = false

unfoldable pub are_interchangeably_equal_datarates : DataRate → DataRate → Bool
unfolding low_rate
are_interchangeably_equal_datarates datarate1 datarate2 = low_rate datarate1 && low_rate datarate2

-- `none` is the exception for an unsupported data rate.
unfoldable pub bitcell_ns : DataRate → Option ℕ
bitcell_ns DataRate.unknown = none
bitcell_ns DataRate.rate_250k = some 2000
bitcell_ns DataRate.rate_300k = some 1667
bitcell_ns DataRate.rate_500k = some 1000
bitcell_ns DataRate.rate_1m = some 500

unfoldable pub bits_per_second : DataRate → ℕ
bits_per_second DataRate.unknown = 0
bits_per_second DataRate.rate_250k = 250000
bits_per_second DataRate.rate_300k = 300000
bits_per_second DataRate.rate_500k = 500000
bits_per_second DataRate.rate_1m = 1000000

-- The divisions are those of the source, in its order. A source rate of 0, on which C++ divides by
-- zero, gives 0.
unfoldable pub convert_offset_by_datarate : ℕ → DataRate → DataRate → ℕ
unfolding bits_per_second
convert_offset_by_datarate offset source target =
    bits_per_second target / 10000 * offset / bits_per_second source * 10000

unfoldable pub data_bit_position_as_bit_offset : ℕ → Encoding → ℕ
data_bit_position_as_bit_offset bit_position encoding =
    bit_position <<< (if is_fm encoding then 2 else 1)

unfoldable pub data_byte_position_as_bit_offset : ℕ → Encoding → ℕ
unfolding data_bit_position_as_bit_offset
data_byte_position_as_bit_offset byte_position encoding =
    data_bit_position_as_bit_offset byte_position encoding * 8

unfoldable pub bit_offset_as_data_bit_position : ℕ → Encoding → ℕ
bit_offset_as_data_bit_position offset encoding = offset >>> (if is_fm encoding then 2 else 1)

unfoldable pub bit_offset_as_data_byte_position : ℕ → Encoding → ℕ
unfolding bit_offset_as_data_bit_position
bit_offset_as_data_byte_position offset encoding =
    bit_offset_as_data_bit_position offset encoding / 8

unfoldable pub tolerated_offset_distance : Encoding → ℕ → ℕ
unfolding data_byte_position_as_bit_offset
tolerated_offset_distance encoding byte_tolerance_of_time =
    data_byte_position_as_bit_offset byte_tolerance_of_time encoding

-- `track_len + offset_min - offset_max` may be negative in the source; it is 0 here, and both are
-- within the tolerance.
unfoldable pub are_offsets_tolerated_same : ℕ → ℕ → Encoding → ℕ → ℕ → Bool → Bool
unfolding tolerated_offset_distance
are_offsets_tolerated_same offset1 offset2 encoding byte_tolerance_of_time track_len wrapped =
    let offset_min = min offset1 offset2 in
    let offset_max = max offset1 offset2 in
    let distance = offset_max - offset_min in
    leb (if wrapped then min distance (track_len + offset_min - offset_max) else distance)
      (tolerated_offset_distance encoding byte_tolerance_of_time)

pub record CylHead : Type 0 where
  pub cyl : ℕ
  pub head : ℕ

abbrev pub max_disk_heads : ℕ
max_disk_heads = 2

-- `operator int`
unfoldable pub cyl_head_index : CylHead → ℕ
cyl_head_index ch = ch.cyl * max_disk_heads + ch.head

-- `operator *`
unfoldable pub cyl_head_step : CylHead → ℕ → CylHead
cyl_head_step ch cyl_step = record ch { cyl = ch.cyl * cyl_step }

pub record Header : Type 0 where
  pub cyl : ℕ
  pub head : ℕ
  pub sector : ℕ
  pub size : ℕ

abbrev pub sizecode_unknown : ℕ
sizecode_unknown = 0xff

abbrev pub orphan_sector_id : ℕ
orphan_sector_id = 256

unfoldable pub compare_chrn : Header → Header → Bool
compare_chrn h rhs =
    h.cyl == rhs.cyl && h.head == rhs.head && h.sector == rhs.sector && h.size == rhs.size

-- Without the head, like the WD17xx.
unfoldable pub compare_crn : Header → Header → Bool
compare_crn h rhs = h.cyl == rhs.cyl && h.sector == rhs.sector && h.size == rhs.size

-- Without the size.
unfoldable pub compare_chr : Header → Header → Bool
compare_chr h rhs = h.cyl == rhs.cyl && h.head == rhs.head && h.sector == rhs.sector

unfoldable pub is_orphan : Header → Bool
is_orphan h = h.sector == orphan_sector_id

unfoldable pub has_unknown_size : Header → Bool
has_unknown_size h = h.size == sizecode_unknown

unfoldable pub is_normal : Header → ℕ → Bool
is_normal h track_sup = ltb h.head 2 && ltb h.cyl track_sup

-- `CylHead` is compared through its conversion to `int`.
unfoldable pub is_normal_and_originated_from_neighbor_cyl : Header → CylHead → ℕ → Bool
unfolding cyl_head_index is_normal
is_normal_and_originated_from_neighbor_cyl h ch track_sup =
    not (cyl_head_index (record { cyl = h.cyl; head = h.head }) == cyl_head_index ch)
    && is_normal h track_sup
    && leb (max h.cyl ch.cyl - min h.cyl ch.cyl) 1

-- `operator <`
unfoldable pub header_lt : Header → Header → Bool
header_lt l r =
    ltb l.cyl r.cyl
    || (l.cyl == r.cyl
        && (ltb l.head r.head
            || (l.head == r.head
                && (ltb l.sector r.sector || (l.sector == r.sector && ltb l.size r.size)))))

-- `operator <=`, from `>` and so from `<`.
unfoldable pub header_le : Header → Header → Bool
unfolding header_lt
header_le l r = not (header_lt r l)

-- `Headers::Contains`
unfoldable pub contains : List Header → Header → Bool
unfolding compare_chrn
contains [] h = false
contains (x ∷ xs) h = compare_chrn x h || contains xs h

-- The body of the loop in `Headers::HasIdSequence`: an id of the sequence sets its flag.
pub mark_id : ℕ → ℕ → Header → List Bool → List Bool
mark_id first_id len h flags =
    if ltb h.sector first_id || leb (first_id + len) h.sector
    then flags
    else set flags (h.sector - first_id) true

pub mark_ids : ℕ → ℕ → List Header → List Bool → List Bool
mark_ids first_id len [] flags = flags
mark_ids first_id len (h ∷ hs) flags = mark_ids first_id len hs (mark_id first_id len h flags)

-- `std::all_of` over the flags.
pub all_marked : List Bool → Bool
all_marked [] = true
all_marked (b ∷ bs) = b && all_marked bs

-- `Headers::HasIdSequence`
unfoldable pub has_id_sequence : List Header → ℕ → ℕ → Bool
unfolding mark_ids mark_id all_marked
has_id_sequence headers first_id len =
    if len == 0
    then false
    else if ltb (length headers) len
    then false
    else all_marked (mark_ids first_id len headers (replicate len false))
