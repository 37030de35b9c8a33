-- ===== src/Format.antt =====
-- include/Format.h and src/Format.cpp: the geometry of regular disk formats. `Override`, which reads
-- the command line, and the printing are not modelled.
pub mod Regular
pub mod FromSize
pub mod Sizes
use samdisk_plus.Prelude.{
  ℕ, ◌*◌, ◌==◌, leb, ltb, Bool, true, false, ◌&&◌, ◌||◌, List, [], ◌∷◌, if◌then◌else◌, Option,
}
use samdisk_plus.Prelude.Int.{pos}
use samdisk_plus.Header.{DataRate, Encoding, CylHead}
use samdisk_plus.Range.{Range, new_range}
use samdisk_plus.TrackIds.{get_ids}
use samdisk_plus.Sector.{size_code_to_length}

pub data FdcType : Type 0 where
  none pc wd amiga apple : FdcType

pub data RegularFormat : Type 0 where
  no_format unspecified mgt pro_dos trdos qdos opd d80 pc320 pc360 pc640 pc720 pc1200 pc1232 pc1440
        pc2880 to_640k_mfm to_320k_mfm to_160k_mfm to_160k_fm to_80k_fm amiga_dos amiga_dos_hd
        mbd820 mbd1804 d2m d4m two_d d81 lif atari_st apple_do :
      RegularFormat

pub record Format : Type 0 where
  pub cyls : ℕ
  pub heads : ℕ
  pub fdc : FdcType
  pub datarate : DataRate
  pub encoding : Encoding
  pub sectors : ℕ
  pub size : ℕ
  pub base : ℕ
  pub offset : ℕ
  pub interleave : ℕ
  pub skew : ℕ
  pub head0 : ℕ
  pub head1 : ℕ
  pub gap3 : ℕ
  pub fill : ℕ
  pub cyls_first : Bool
  pub regular_format : RegularFormat

-- The members' initial values.
abbrev pub new_format : Format
new_format = record {
  cyls = 80;
  heads = 2;
  fdc = FdcType.pc;
  datarate = DataRate.unknown;
  encoding = Encoding.unknown;
  sectors = 0;
  size = 2;
  base = 1;
  offset = 0;
  interleave = 1;
  skew = 0;
  head0 = 0;
  head1 = 1;
  gap3 = 0;
  fill = 0x00;
  cyls_first = false;
  regular_format = RegularFormat.no_format;
}

unfoldable pub sector_size : Format → ℕ
unfolding size_code_to_length
sector_size f = size_code_to_length f.size

unfoldable pub track_size : Format → ℕ
unfolding sector_size
track_size f = sector_size f * f.sectors

unfoldable pub cyl_size : Format → ℕ
unfolding track_size
cyl_size f = track_size f * f.heads

unfoldable pub side_size : Format → ℕ
unfolding track_size
side_size f = track_size f * f.cyls

unfoldable pub disk_size : Format → ℕ
unfolding side_size
disk_size f = side_size f * f.heads

unfoldable pub total_sectors : Format → ℕ
total_sectors f = f.cyls * f.heads * f.sectors

unfoldable pub range : Format → Range
unfolding new_range
range f = new_range f.cyls f.heads

unfoldable pub get_format_ids : CylHead → Format → Option (List ℕ)
unfolding get_ids
get_format_ids at f = get_ids at f.sectors f.interleave (pos f.skew) (pos f.offset) f.base

-- The limits of include/DiskUtil.h.
abbrev pub max_tracks : ℕ
max_tracks = 128

abbrev pub max_sides : ℕ
max_sides = 2

abbrev pub max_sectors : ℕ
max_sectors = 144

unfoldable pub try_validate_geometry : ℕ → ℕ → ℕ → ℕ → ℕ → Bool
try_validate_geometry cyls heads sectors sector_size max_sector_size =
    (ltb 0 cyls && leb cyls max_tracks)
    && ((ltb 0 heads && leb heads max_sides)
        && ((ltb 0 sectors && leb sectors max_sectors)
            && (max_sector_size == 0 || leb sector_size max_sector_size)))

unfoldable pub try_validate : Format → Bool
unfolding try_validate_geometry sector_size
try_validate f = try_validate_geometry f.cyls f.heads f.sectors (sector_size f) 0
