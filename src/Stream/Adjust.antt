-- ===== src/Stream/Adjust.antt =====
-- The padding loop of `BitstreamTrackBuilder::adjustDataBitsBeforeOffset`.
use samdisk_plus.BitBuffer
use samdisk_plus.Stream.{Stream}
