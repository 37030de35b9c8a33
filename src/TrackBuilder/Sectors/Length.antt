-- ===== src/TrackBuilder/Sectors/Length.antt =====
-- The room of a whole IBM sector, as include/IBMPCBase.h reckons with it.
use samdisk_plus.Prelude.{
  ℕ, ◌+◌, ◌-◌, ◌*◌, ◌≤◌, ◌≡◌, refl, ap, ap₂, ◌∙◌, Bool, true, false, List, [], ◌++◌, if◌then◌else◌,
  length, ltb, replicate, map, arith, length-append, length-replicate, length-map, some,
}
use samdisk_plus.Prelude.Bind.{◌>>=◌}
use samdisk_plus.Header.{Encoding, DataRate, Header, is_fm}
use samdisk_plus.Header.Offsets.{byte_bits_of}
use samdisk_plus.Ibm.{
  ibm_idam, get_fm_or_mfm_gap2_length, get_fm_or_mfm_sync_length, get_fm_or_mfm_sector_overhead,
  get_id_overhead, get_d_overhead, get_fm_or_mfm_gap2_plus_sync_length,
  get_fm_or_mfm_sector_overhead_without_sync,
}
use samdisk_plus.TrackBuilder.{Builder, Medium, add_ibm_fields, add_ibm_sector}
use samdisk_plus.Sector.{Sector, first_copy, has_data, has_gapdata, size_code_to_length}
use samdisk_plus.TrackBuilder.Cells.{Cell, byte, encode, length-encode}
use samdisk_plus.TrackBuilder.Emits.{Recorder}
use samdisk_plus.TrackBuilder.Sectors.{
  Steady, sync_cells, mark_cells, id_cells, id_bytes, crc_cells, field_crc, has_byte_fields,
}
use samdisk_plus.TrackBuilder.Sectors.Field.{padded, data_cells}
use samdisk_plus.TrackBuilder.Sectors.Layout.{gap_cells, sector_cells, add_ibm_fields-Emits}

length-id_cells :
    (e : Encoding) (h : Header) (bad short : Bool)
    → length (id_cells e h bad short)
      ≡ get_fm_or_mfm_sync_length e short + (if is_fm e then 7 else 10)
length-id_cells e h bad short =
    length-append (sync_cells e short) (
      mark_cells e ibm_idam
      ++ (map byte (id_bytes h) ++ crc_cells (field_crc e ibm_idam (id_bytes h)) bad))
    ∙ ap₂ ◌+◌ (length-replicate (get_fm_or_mfm_sync_length e short) (byte 0x00)) (tail e)
  where
    tail :
        (k : Encoding)
        → length (
            mark_cells k ibm_idam
            ++ (map byte (id_bytes h) ++ crc_cells (field_crc e ibm_idam (id_bytes h)) bad))
          ≡ (if is_fm k then 7 else 10)
    tail Encoding.fm = refl
    tail _ = refl

length-mark_cells :
    (e : Encoding) (type : ℕ) → length (mark_cells e type) ≡ (if is_fm e then 1 else 4)
length-mark_cells Encoding.fm type = refl
length-mark_cells _ type = refl

-- A data field of the sector's own size or less.
length-data_cells :
    (e : Encoding) (bytes : List ℕ) (size dam : ℕ) (bad : Bool)
    → length bytes ≤ size_code_to_length size
    → length (data_cells e bytes size dam bad)
      ≡ get_fm_or_mfm_sync_length e false + (if is_fm e then 3 else 6) + size_code_to_length size
length-data_cells e bytes size dam bad h =
    let size_bytes = size_code_to_length size in
    let zeros : List ℕ = replicate (size_bytes - length bytes) 0x00 in
    ap
      (λ c. length (
        (sync_cells e false ++ mark_cells e dam)
        ++ (if c
            then map byte bytes
            else map byte (padded bytes size)
              ++ crc_cells (field_crc e dam (padded bytes size)) bad)))
      (fits)
    ∙ omega (
      arith,
      length-append (sync_cells e false ++ mark_cells e dam)
          (map byte (padded bytes size) ++ crc_cells (field_crc e dam (padded bytes size)) bad),
      length-append (sync_cells e false) (mark_cells e dam),
      length-replicate (get_fm_or_mfm_sync_length e false) (byte 0x00),
      length-append (map byte (padded bytes size))
          (crc_cells (field_crc e dam (padded bytes size)) bad),
      length-map (padded bytes size) byte,
      length-append bytes zeros,
      length-replicate {0} {A = ℕ} (size_bytes - length bytes) 0x00,
      length-mark_cells e dam,
      overhead (is_fm e),
    )
  where
    fits : ltb (size_code_to_length size) (length bytes) ≡ false
    fits = ground arith

    overhead : (c : Bool) → (if c then 3 else 6) ≡ (if c then 1 else 4) + 2
    overhead true = refl
    overhead false = refl

-- The room of a sector, in data bytes.
length-sector_cells :
    (datarate : DataRate) (e : Encoding) (s : Sector) (gap3 : ℕ) (short : Bool)
    → has_data s ≡ true
    → has_gapdata s ≡ false
    → length (first_copy s.data_copies) ≤ size_code_to_length s.header.size
    → length (sector_cells datarate e s gap3 short)
      ≡ get_fm_or_mfm_sector_overhead datarate e (size_code_to_length s.header.size) short + gap3
unfolding get_fm_or_mfm_sector_overhead get_id_overhead get_d_overhead
    get_fm_or_mfm_gap2_plus_sync_length get_fm_or_mfm_sector_overhead_without_sync
length-sector_cells datarate e s gap3 short d g h =
    ap₂ (λ c k. length (id ++ (gap2 ++ ((if c then field else []) ++ (if k then [] else last))))) d
      g
    ∙ length-append id (gap2 ++ (field ++ last))
    ∙ ap₂ ◌+◌ (length-id_cells e s.header false short) (
        length-append gap2 (field ++ last)
        ∙ ap₂ ◌+◌ (gap_cells-length e (get_fm_or_mfm_gap2_length datarate e)) (
            length-append field last
            ∙ ap₂ ◌+◌
                (length-data_cells e (first_copy s.data_copies) s.header.size s.dam s.bad_data_crc
                  h)
                (gap_cells-length e gap3)))
    ∙ room (is_fm e)
  where
    id : List Cell
    id = id_cells e s.header false short

    gap2 : List Cell
    gap2 = gap_cells e (get_fm_or_mfm_gap2_length datarate e)

    field : List Cell
    field = data_cells e (first_copy s.data_copies) s.header.size s.dam s.bad_data_crc

    last : List Cell
    last = gap_cells e gap3

    room :
        (c : Bool)
        → get_fm_or_mfm_sync_length e short
            + (if c then 7 else 10)
            + (get_fm_or_mfm_gap2_length datarate e
                + (get_fm_or_mfm_sync_length e false
                    + (if c then 3 else 6)
                    + size_code_to_length s.header.size
                    + gap3))
          ≡ get_fm_or_mfm_sync_length e short
            + ((if c then 7 else 10)
                + (get_fm_or_mfm_gap2_length datarate e + get_fm_or_mfm_sync_length e false)
                + ((if c then 3 else 6) + 0)
                + size_code_to_length s.header.size)
            + gap3
    room true = omega arith
    room false = omega arith

    gap_cells-length : (k : Encoding) (n : ℕ) → length (gap_cells k n) ≡ n
    gap_cells-length k n = length-replicate n (byte (if is_fm k then 0xff else 0x4e))

-- On a medium that appends its bits and whose other methods leave them as they are, once the
-- position is adjusted and the medium is good, a sector whose header fields are bytes and that holds
-- data, of its own size or less, and no gap data is written without an exception. It takes, from the
-- adjusted position on, the room that `GetFmOrMfmSectorOverhead` reckons with and that of its third
-- gap.
pub add_ibm_sector-room :
    {S : Type 0} (m : Medium S) (r : Recorder m.add_raw_bit)
    → Steady m r
    → (s : Sector) (gap3 : ℕ) (short : Bool) (t ready : Builder S)
    → m.adjust_data_bits_before_offset s.offset gap3 short t ≡ some ready
    → r.Good ready.medium
    → has_byte_fields s.header ≡ true
    → has_data s ≡ true
    → has_gapdata s ≡ false
    → length (first_copy s.data_copies) ≤ size_code_to_length s.header.size
    → (t' : Builder S) × (add_ibm_sector m s gap3 short t ≡ some t')
      × (length (r.view t'.medium)
          ≡ length (r.view ready.medium)
            + (get_fm_or_mfm_sector_overhead ready.datarate ready.encoding
                  (size_code_to_length s.header.size)
                  short
                + gap3)
              * byte_bits_of ready.encoding)
unfolding add_ibm_sector
add_ibm_sector-room m r steady s gap3 short t ready adjusted good fits d g h =
    let cells = sector_cells ready.datarate ready.encoding s gap3 short in
    let (t', done, emits) = add_ibm_fields-Emits m r steady s gap3 short ready fits good in
    (
      t',
      ap (λ o. o >>= add_ibm_fields m s gap3 short) adjusted ∙ done,
      ap length emits.written
          ∙ length-append (r.view ready.medium) (encode ready.encoding ready.lastbit cells)
          ∙ ap (λ n. length (r.view ready.medium) + n)
              (length-encode ready.encoding ready.lastbit cells
                ∙ ap (λ n. n * byte_bits_of ready.encoding)
                    (length-sector_cells ready.datarate ready.encoding s gap3 short d g h)),
    )
