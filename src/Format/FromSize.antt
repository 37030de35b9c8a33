-- ===== src/Format/FromSize.antt =====
-- Formats by the size of their image: `FromSize` in src/Format.cpp.
use samdisk_plus.Prelude.{ℕ, ◌==◌, Bool, true, false, List, [], ◌∷◌, if◌then◌else◌}
use samdisk_plus.Format.{RegularFormat, Format}
use samdisk_plus.Format.Regular.{get_format}

-- The cases of the switch of `FromSize`.
unfoldable pub known_sizes : List (ℕ × Format)
unfolding get_format
known_sizes =
    (143360, get_format RegularFormat.apple_do)
    ∷ (163840, record (get_format RegularFormat.pc320) { heads = 1 })
    ∷ (184320, record (get_format RegularFormat.pc360) { heads = 1 })
    ∷ (327680, get_format RegularFormat.pc320)
    ∷ (368640, get_format RegularFormat.pc360)
    ∷ (655360, get_format RegularFormat.pc640)
    ∷ (737280, get_format RegularFormat.pc720)
    ∷ (819200, get_format RegularFormat.mgt)
    ∷ (1228800, get_format RegularFormat.pc1200)
    ∷ (1261568, get_format RegularFormat.pc1232)
    ∷ (1474560, get_format RegularFormat.pc1440)
    ∷ (1638400, record (get_format RegularFormat.pc1440) { sectors = 20; gap3 = 0 })
    ∷ (1720320, record (get_format RegularFormat.pc1440) { sectors = 21; gap3 = 0 })
    ∷ (1763328, record (get_format RegularFormat.pc1440) { cyls = 82; sectors = 21; gap3 = 0 })
    ∷ (1784832, record (get_format RegularFormat.pc1440) { cyls = 83; sectors = 21; gap3 = 0 })
    ∷ (1802240, record (get_format RegularFormat.pc1440) { sectors = 22; gap3 = 0 })
    ∷ (1884160, record (get_format RegularFormat.pc1440) { sectors = 23; gap3 = 0 })
    ∷ (1966080, record (get_format RegularFormat.pc1440) { sectors = 24; gap3 = 0 })
    ∷ (2949120, get_format RegularFormat.pc2880)
    ∷ []

unfoldable pub from_cases : List (ℕ × Format) → ℕ → Format → Format × Bool
from_cases [] size fmt = (fmt, false)
from_cases ((known, f) ∷ cases) size fmt =
    if size == known then (f, true) else from_cases cases size fmt

-- `FromSize`: the format, which stays `fmt` if the size is not known, and whether it is.
unfoldable pub from_size : ℕ → Format → Format × Bool
unfolding known_sizes from_cases
from_size size fmt = from_cases known_sizes size fmt
