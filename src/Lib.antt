-- ===== src/Lib.antt =====
-- The core of SAMdisk: how the bits of a floppy track are written and read. A track builder turns
-- sectors into raw bits with their marks, gaps and CRCs; it is abstract, and one subclass writes the
-- bits into a bit buffer while another turns them into times between flux reversals. A flux decoder
-- turns such times back into bits. Headers, offsets and the lengths of gaps are shared by all of
-- them, and regular formats say which sectors a disk has and in which order.
-- What was read of a track is kept as a track of sectors: reading it again adds copies of the data to a
-- sector that is already there, and sectors and tracks are merged with one another.
--
-- The files, and the code that each one models:
--   Prelude        numbers, lists, bytes, machine words and signed integers that the others share
--   Crc16          src/CRC16.cpp, include/CRC16.h: the CRC of marks, headers and data
--   Header         src/Header.cpp, include/Header.h: data rates, encodings, headers, offsets
--   Ibm            src/IBMPCBase.cpp, include/IBMPCBase.h: the lengths of the parts of a track
--   BitBuffer      src/BitBuffer.cpp, include/BitBuffer.h: the bits of a track with a position
--   Sector         src/Sector.cpp, include/Sector.h: a sector, the copies of its data, and merging
--   Interval       include/Interval.h: intervals, also on a ring
--   RingedInt      include/RingedInt.h: numbers on a ring
--   Track          src/Track.cpp, include/Track.h: the sectors of a track in the order of their offsets
--   Fit            src/IBMPC.cpp: the gaps of formats, and fitting a track into a format
--   TrackBuilder   src/TrackBuilder.cpp, include/TrackBuilder.h: IBM, RX02 and Amiga tracks
--   Stream         src/BitstreamTrackBuilder.cpp: the builder that writes into a bit buffer
--   Flux           src/FluxTrackBuilder.cpp and src/FluxDecoder.cpp: times between reversals
--   Range          src/Range.cpp: ranges of cylinders and heads
--   TrackIds       src/TrackSectorIds.cpp: the order of the sectors of a track, and (TrackIds.Complete) the
--                  search for an order that agrees with the sectors that are known; its cache, which
--                  does not show, is left out
--   Format         src/Format.cpp: the regular formats and the sizes of their images
--   Tests          the theorems at concrete inputs
--
-- An object is a record of its members, and a method is a function with the object as its last
-- argument, under the name of the source in small letters with underscores. A method that changes the
-- object returns the new one, with its result where it has one. An exception is `none`, also that of a
-- cast that a header field above 255 does not survive; the type of a mark is a byte. The virtual
-- methods of the track builder are the record TrackBuilder.Medium over the state of the subclass:
-- Stream and Flux.Builder are its two values, and the theorems on sectors hold for every medium that
-- appends its bits (TrackBuilder.Emits.Recorder) and whose other methods leave them as they are
-- (TrackBuilder.Sectors.Steady). TrackBuilder.Cells says, apart from the builder, which raw bits a
-- byte or a mark is, and BitBuffer.Tape is the tape that a bit buffer stands for.
--
-- Numbers: positions, lengths and counts that the source keeps non-negative are natural numbers; a
-- difference that may be negative is an integer or is compared as in the source. Bytes, 16-bit and
-- 32-bit unsigned numbers keep their wrap. Overflow of signed numbers, which is undefined in the
-- source, is not modelled.
--
-- Loops that are not bounded by their input take fuel. `next_bit` needs more fuel than there are flux
-- times left. The search for a free slot takes as much fuel as there are slots. The Apple loop of
-- `read_byte` and the padding loop of `adjust_data_bits_before_offset` take it as an argument, since
-- they need not end. The search for an order tries as many interleaves and sector counts as the
-- source's loops do.
--
-- Options of the command line are the record Sector.Options. The combination of two read rates and the
-- scaling of an offset are floating-point computations that no theorem depends on, and are arguments
-- of `process_merge_result` and `has_same_record_properties`. `std::sort` is an insertion sort; where
-- it leaves the order of equal keys open, theirs is the one that the sort here gives.
--
-- Not modelled: disks, the sector scheme of a track and its repeated sectors, orphan data, the decoding of
-- bitstreams into sectors, image formats, file systems, commands, devices, and all printing.
pub mod Prelude
pub mod Crc16
pub mod Header
pub mod BitBuffer
pub mod Ibm
pub mod Sector
pub mod Interval
pub mod RingedInt
pub mod Track
pub mod Fit
pub mod TrackBuilder
pub mod Stream
pub mod Range
pub mod TrackIds
pub mod Format
pub mod Flux
pub mod Tests
