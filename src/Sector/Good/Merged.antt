-- ===== src/Sector/Good/Merged.antt =====
-- `Sector::merge` and data of a good CRC: whether the merged sector has them.
use samdisk_plus.Sector.{Sector}
use samdisk_plus.Sector.Merge.{Merge}
