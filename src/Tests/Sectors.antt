-- ===== src/Tests/Sectors.antt =====
-- Sectors and tracks at concrete inputs.
use samdisk_plus.Prelude.{
  ℕ, ◌+◌, ◌<◌, ◌≡◌, refl, true, false, [], ◌∷◌, ◌++◌, length, drop, set, some, List, replicate,
  arith,
}
use samdisk_plus.Prelude.Int.{pos}
use samdisk_plus.Header.{DataRate, Encoding, bits_per_second}
use samdisk_plus.Sector.{
  Options, Sector, new_sector, size, size_code_to_length, size_code_to_real_size_code,
}
use samdisk_plus.Sector.Inv.{IsValid}
use samdisk_plus.Sector.Merge.{merge}
use samdisk_plus.Sector.Copies.{merge-IsValid}
use samdisk_plus.Track.{Track}
use samdisk_plus.Track.Add.{AddedSector, add_sector, add_track}
use samdisk_plus.Track.Order.{Held, IsTrack}
use samdisk_plus.Track.Keeps.{add_sector-IsTrack}
use samdisk_plus.Track.Reached.{Joined, add_track-Joined}
use samdisk_plus.Track.Sync.{
  SyncMode, adjusted_sync, demultied, sync_and_demulti_this_track_to_offset,
}
use samdisk_plus.Track.Sync.Single.{sync-IsTrack}
use samdisk_plus.Track.Offsets.{set_sector_offset_at, ensure_not_almost_0_offset}
use samdisk_plus.Track.Offsets.Away.{AllFrom, ensure_not_almost_0_offset-AllFrom}
use samdisk_plus.Track.Tune.Moved.{IsMoved, set_sector_offset_at-IsMoved}
use samdisk_plus.Track.Populate.{populate, content, sectors_of}
use samdisk_plus.Track.Populate.Order.{content_at}
use samdisk_plus.Track.Populate.Whole.{IsOrder, populate-content}

abbrev options : Options
options = record {
  byte_tolerance_of_time = 64;
  fill = pos 0;
  maxcopies = 3;
  normal_disk = true;
  paranoia = false;
  stability_level = 1;
}

-- Read counts of images, added up.
abbrev sums : ℕ → ℕ → ℕ → ℕ → ℕ
sums a attempts b others = a + b

-- A sector of 128 bytes at an offset, with bad or good data.
abbrev bad_sector : ℕ → ℕ → Sector
bad_sector id offset =
    record (new_sector DataRate.rate_250k Encoding.mfm
      (record { cyl = 0; head = 0; sector = id; size = 0 }) 0) {
        offset = offset;
        bad_data_crc = true;
        data_copies = replicate 128 0 ∷ [];
        data_read_stats = 1 ∷ [];
        read_attempts = 1;
      }

abbrev good_sector : ℕ → ℕ → Sector
good_sector id offset = record (bad_sector id offset) {
  bad_data_crc = false;
  data_copies = replicate 128 0xe5 ∷ [];
}

bad-IsValid : (id offset : ℕ) → IsValid options (bad_sector id offset)
unfolding new_sector
bad-IsValid id offset = record {
  stats = refl;
  few = omega arith;
  even = (128, (refl, tt));
  single = refl;
  headless = refl;
}

merge-IsValid_example :
    IsValid options (merge options sums (good_sector 1 100) (bad_sector 1 100)).0
merge-IsValid_example =
    merge-IsValid options sums (good_sector 1 100) (bad_sector 1 100) (bad-IsValid 1 100)

bad-Held :
    (id offset : ℕ)
    → 0 < offset
    → offset < 100000
    → Held options 250000 100000 (bad_sector id offset)
unfolding new_sector bits_per_second
bad-Held id offset p q = record {
  valid = bad-IsValid id offset;
  positioned = p;
  below = q;
  same_rate = refl;
}

-- Two sectors on a track of 100000 bits.
abbrev track : Track
track = record {
  sectors = bad_sector 1 100 ∷ bad_sector 2 4000 ∷ [];
  tracklen = 100000;
  tracktime = 200000;
}

track-IsTrack : IsTrack options 250000 100000 track
unfolding new_sector
track-IsTrack = (
  omega arith,
  bad-Held 1 100 (omega arith) (omega arith),
  (omega arith, bad-Held 2 4000 (omega arith) (omega arith), tt),
)

add_sector-IsTrack_example :
    (a : AddedSector) × (add_sector options sums (bad_sector 3 2000) track ≡ some a)
    × IsTrack options 250000 100000 a.track
    × (a.track.tracklen ≡ 100000)
add_sector-IsTrack_example =
    add_sector-IsTrack options sums 250000 100000 (bad_sector 3 2000) track
      (bad-Held 3 2000 (omega arith) (omega arith)) track-IsTrack

-- A longer track, of which one sector is near one of the other track.
abbrev longer_track : Track
longer_track = record {
  sectors = bad_sector 1 130 ∷ bad_sector 3 7000 ∷ [];
  tracklen = 100001;
  tracktime = 200000;
}

longer_track-IsTrack : IsTrack options 250000 100000 longer_track
unfolding new_sector
longer_track-IsTrack = (
  omega arith,
  bad-Held 1 130 (omega arith) (omega arith),
  (omega arith, bad-Held 3 7000 (omega arith) (omega arith), tt),
)

add_track-Joined_example :
    (u : Track) × (add_track options sums longer_track track ≡ some u)
    × Joined options sums 250000 100000 longer_track.sectors (record track { tracklen = 100001 }) u
add_track-Joined_example =
    add_track-Joined options sums 250000 100000 longer_track track longer_track-IsTrack
      track-IsTrack

adjusted : adjusted_sync (pos 100) SyncMode.unlimited 100000 track.sectors ≡ some (pos 100)
unfolding adjusted_sync
adjusted = refl

sync-IsTrack_example :
    (t' : Track) × (sync_and_demulti_this_track_to_offset options sums
        (pos 100)
        false
        SyncMode.unlimited
        0
        track
      ≡ some t')
    × IsTrack options 250000 100000 t'
unfolding demultied
sync-IsTrack_example =
    sync-IsTrack options sums 250000 100000 0 (pos 100) (pos 100) false SyncMode.unlimited track
      (omega arith) adjusted track-IsTrack

set_sector_offset_at-IsMoved_example :
    IsMoved
      (set track.sectors 0 (bad_sector 1 5000))
      (bad_sector 1 5000)
      (set_sector_offset_at 0 5000 track.sectors)
set_sector_offset_at-IsMoved_example =
    set_sector_offset_at-IsMoved 0 5000 (bad_sector 1 100) track.sectors refl
      (omega arith, (omega arith, tt))

abbrev close_track : Track
close_track = record track { sectors = bad_sector 1 3 ∷ bad_sector 2 4000 ∷ [] }

ensure_not_almost_0_offset-AllFrom_example :
    AllFrom 16 (ensure_not_almost_0_offset close_track).sectors
ensure_not_almost_0_offset-AllFrom_example =
    ensure_not_almost_0_offset-AllFrom close_track (omega arith, (omega arith, tt))

abbrev zeros : List ℕ
zeros = replicate 128 0

-- More than a sector, and less than two.
abbrev input : List ℕ
input = replicate 200 7

full : (id offset : ℕ) → length zeros ≡ size (bad_sector id offset)
unfolding size size_code_to_length size_code_to_real_size_code new_sector
full id offset = refl

-- Its numbers descend.
abbrev reversed_track : Track
reversed_track = record {
  sectors = bad_sector 2 100 ∷ bad_sector 1 4000 ∷ [];
  tracklen = 100000;
  tracktime = 200000;
}

populate-content_example :
    (order : List (ℕ × Sector)) × IsOrder reversed_track order
    × (length (populate options false reversed_track input).0.sectors ≡ 2)
    × (content_at order (populate options false reversed_track input).0.sectors
          ++ (populate options false reversed_track input).1
        ≡ input ++ drop (length input) (content (sectors_of order)))
unfolding new_sector
populate-content_example =
    populate-content options reversed_track input
      ((replicate 128 0, refl, full 2 100), ((replicate 128 0, refl, full 1 4000), tt))
