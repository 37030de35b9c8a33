-- ===== src/Tests/Builders.antt =====
-- The track builders at concrete inputs.
use samdisk_plus.Prelude.{
  take, ◌+◌, ◌*◌, ◌%◌, ◌^◌, ◌≡◌, refl, true, false, [], ◌∷◌, ◌++◌, length, none, some, arith,
  replicate,
}
use samdisk_plus.Prelude.Bytes.{AreBytes-replicate}
use samdisk_plus.Header.{DataRate, Encoding}
use samdisk_plus.Header.Offsets.{byte_bits_of}
use samdisk_plus.Ibm.{get_fm_or_mfm_sector_overhead}
use samdisk_plus.BitBuffer.{empty_buffer}
use samdisk_plus.BitBuffer.Refine.{contents}
use samdisk_plus.TrackBuilder.{
  Builder, add_sector_header, add_sector_data, add_ibm_sector, add_sector_up_to_data,
}
use samdisk_plus.TrackBuilder.Whole.{add_rx02_sector}
use samdisk_plus.TrackBuilder.Sectors.Thrown.{over_255-none}
use samdisk_plus.Sector.{Sector, size_code_to_length}
use samdisk_plus.TrackBuilder.Cells.{encode}
use samdisk_plus.TrackBuilder.Emits.{Emits}
use samdisk_plus.TrackBuilder.Sectors.{id_cells, add_sector_header-Emits}
use samdisk_plus.TrackBuilder.Sectors.Field.{data_cells, add_sector_data-Emits}
use samdisk_plus.TrackBuilder.Sectors.Length.{add_ibm_sector-room}
use samdisk_plus.TrackBuilder.Sectors.Layout.{sector_cells}
use samdisk_plus.Stream.{
  Stream, stream, cut_excess_unimportant_data_bits_at_the_end, add_raw_bit,
  adjust_data_bits_before_offset,
}
use samdisk_plus.Stream.Record.{AtEnd, recorder, steady, add_ibm_sector-stream}
use samdisk_plus.Stream.Cut.{cut_length, cut_excess-take}
use samdisk_plus.Flux.Builder.{Flux}
use samdisk_plus.Flux.Builder.Time.{add_raw_bits, elapsed, add_raw_bits-elapsed}

-- An MFM track with room for 32 bits and none written.
abbrev track : Builder Stream
track = record {
  encoding = Encoding.mfm;
  datarate = DataRate.rate_250k;
  lastbit = false;
  crc = 0xffff;
  medium = record {
    buffer = record empty_buffer { bytes = replicate 4 0 };
    iam_offset = 0;
    prev_sector_offset = 0;
    after_last_important = 0;
  };
}

track-AtEnd : AtEnd track.medium
track-AtEnd = record {
  valid = record {
    are_bytes = AreBytes-replicate 4 0 (omega arith);
    room = omega arith;
    fits = omega arith;
    within = omega arith;
  };
  at_end = refl;
}

-- A sector of 128 bytes.
abbrev sector : Sector
sector = record {
  datarate = DataRate.rate_250k;
  encoding = Encoding.mfm;
  header = record { cyl = 0; head = 0; sector = 1; size = 0 };
  offset = 0;
  data_copies = replicate 128 0xe5 ∷ [];
  dam = 0xfb;
  bad_data_crc = false;
  revolution = 0;
  gap3 = 0;
  bad_id_crc = false;
  data_read_stats = 1 ∷ [];
  read_attempts = 1;
  constant_disk = true;
}

adjusted : adjust_data_bits_before_offset 0 0 25 false track ≡ some track
unfolding adjust_data_bits_before_offset
adjusted = refl

add_ibm_sector-stream_example :
    (t' : Builder Stream) × (add_ibm_sector (stream 0) sector 25 false track ≡ some t')
    × (contents t'.medium.buffer
        ≡ contents track.medium.buffer
          ++ encode track.encoding track.lastbit
              (sector_cells track.datarate track.encoding sector 25 false))
    × AtEnd t'.medium
add_ibm_sector-stream_example =
    add_ibm_sector-stream 0 sector 25 false track track adjusted track-AtEnd refl

add_ibm_sector-room_example :
    (t' : Builder Stream) × (add_ibm_sector (stream 0) sector 25 false track ≡ some t')
    × (length (contents t'.medium.buffer)
        ≡ length (contents track.medium.buffer)
          + (get_fm_or_mfm_sector_overhead DataRate.rate_250k Encoding.mfm
                (size_code_to_length 0)
                false
              + 25)
            * byte_bits_of Encoding.mfm)
unfolding size_code_to_length
add_ibm_sector-room_example =
    add_ibm_sector-room (stream 0) recorder (steady 0) sector 25 false track track adjusted
      track-AtEnd refl refl refl (omega arith)

add_sector_header-Emits_example :
    (t' : Builder Stream) × (add_sector_header (stream 0) sector.header false false track ≡ some t')
    × Emits add_raw_bit recorder track t' (id_cells Encoding.mfm sector.header false false)
add_sector_header-Emits_example =
    add_sector_header-Emits (stream 0) recorder (steady 0) sector.header false false track refl
      track-AtEnd

-- A sector of orphan data, whose number is no byte.
abbrev orphan : Sector
orphan = record sector { header = record { cyl = 0; head = 0; sector = 256; size = 0 } }

over_255-none_example :
    (add_sector_header (stream 0) orphan.header false false track ≡ none)
    × (add_sector_up_to_data (stream 0) orphan.header 0xfb track ≡ none)
    × (add_ibm_sector (stream 0) orphan 25 false track ≡ none)
    × (add_rx02_sector (stream 0) orphan.header (0xe5 ∷ []) 25 track ≡ none)
over_255-none_example = over_255-none (stream 0) orphan 25 false (0xe5 ∷ []) 0xfb track refl

add_sector_data-Emits_example :
    Emits add_raw_bit recorder track
      (add_sector_data (stream 0) (0xe5 ∷ 0x00 ∷ []) 0 0xfb true track)
      (data_cells Encoding.mfm (0xe5 ∷ 0x00 ∷ []) 0 0xfb true)
add_sector_data-Emits_example =
    add_sector_data-Emits (stream 0) recorder (steady 0) (0xe5 ∷ 0x00 ∷ []) 0 0xfb true track
      track-AtEnd

abbrev high_cyl : Flux
high_cyl = record {
  cylhead = record { cyl = 60; head = 0 };
  flux_times = [];
  bitcell = 2000;
  flux_time = 4294965296;
  last_bit = false;
  curr_bit = false;
}

add_raw_bits-elapsed_example :
    elapsed (add_raw_bits (true ∷ true ∷ false ∷ []) high_cyl)
    ≡ (elapsed high_cyl + 3 * 2000) % 2 ^ 32
add_raw_bits-elapsed_example = add_raw_bits-elapsed (true ∷ true ∷ false ∷ []) high_cyl

-- Nine bits, of which the first two are important, on a track of four.
abbrev long_track : Stream
long_track = record {
  buffer = record empty_buffer { bytes = 0x5a ∷ 0x01 ∷ []; bitsize = 9; bitpos = 9 };
  iam_offset = 0;
  prev_sector_offset = 0;
  after_last_important = 2;
}

long_track-AtEnd : AtEnd long_track
long_track-AtEnd = record {
  valid = record {
    are_bytes = (omega arith, (omega arith, tt));
    room = omega arith;
    fits = omega arith;
    within = omega arith;
  };
  at_end = refl;
}

cut_excess-take_example :
    let s' = cut_excess_unimportant_data_bits_at_the_end 4 long_track in
    (contents s'.buffer ≡ take (cut_length 4 long_track) (contents long_track.buffer))
    × (s'.buffer.bitpos ≡ cut_length 4 long_track)
    × AtEnd s'
cut_excess-take_example = cut_excess-take 4 long_track long_track-AtEnd
