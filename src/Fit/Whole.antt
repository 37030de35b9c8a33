-- ===== src/Fit/Whole.antt =====
-- A fit that src/IBMPC.cpp finds for a track fits on it.
use samdisk_plus.Prelude.{ℕ, ◌≤◌, ◌<◌, ◌≡◌, List, map, Option, none, some}
use samdisk_plus.Header.{DataRate, Encoding}
use samdisk_plus.Ibm.{get_track_capacity}
use samdisk_plus.Sector.{Sector}
use samdisk_plus.Track.{Track}
use samdisk_plus.Fit.{FitDetails, get_format_length, total, true_size}
use samdisk_plus.Fit.Cover.{AllCover}

-- What a fit promises: its units fit on the track with a gap, and those of each sector hold it.
pub record FitsTrack (revolution_time : ℕ) (datarate : DataRate) (encoding : Encoding)
    (sectors : List Sector) (d : FitDetails) : Type 0 where
  pub room :
      get_format_length encoding d.total_units d.size_code d.gap3
      ≤ get_track_capacity revolution_time datarate encoding
  pub gap : 0 < d.gap3
  pub units : d.total_units ≡ total d.sector_units
  pub each :
      AllCover encoding d.size_code d.gap3 (map (true_size d.real_errors) sectors) d.sector_units

-- A fit that there may be.
abbrev pub FitsIfAny : ℕ → DataRate → Encoding → List Sector → Option FitDetails → Type 0
FitsIfAny revolution_time datarate encoding sectors none = Unit
FitsIfAny revolution_time datarate encoding sectors (some d) =
    FitsTrack revolution_time datarate encoding sectors d
