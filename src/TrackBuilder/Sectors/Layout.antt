-- ===== src/TrackBuilder/Sectors/Layout.antt =====
-- The cells of a whole IBM sector (`addSector` in src/TrackBuilder.cpp).
use samdisk_plus.Prelude.{
  ℕ, some, ◌≡◌, ap, ap₂, ◌∙◌, Bool, true, false, List, [], ◌++◌, if◌then◌else◌, replicate, none,
}
use samdisk_plus.Prelude.Bind.{◌>>=◌}
use samdisk_plus.Header.{Encoding, DataRate, is_fm}
use samdisk_plus.Ibm.{get_fm_or_mfm_gap2_length}
use samdisk_plus.TrackBuilder.{
  Builder, Medium, add_gap, add_gap2, add_sector_header, add_sector_data, add_ibm_fields,
  add_ibm_rest,
}
use samdisk_plus.Sector.{Sector, first_copy, has_data, has_gapdata}
use samdisk_plus.TrackBuilder.Cells.{Cell, byte}
use samdisk_plus.TrackBuilder.Emits.{Recorder, Emits, Emits-refl, Emits-trans}
use samdisk_plus.TrackBuilder.Emits.Blocks.{add_fill-Emits}
use samdisk_plus.TrackBuilder.Sectors.{Steady, id_cells, has_byte_fields, add_sector_header-Emits}
use samdisk_plus.TrackBuilder.Sectors.Field.{data_cells, add_sector_data-Emits, Emits-cells}

abbrev pub gap_cells : Encoding → ℕ → List Cell
gap_cells e n = replicate n (byte (if is_fm e then 0xff else 0x4e))

abbrev pub sector_cells : DataRate → Encoding → Sector → ℕ → Bool → List Cell
sector_cells datarate e s gap3 short =
    id_cells e s.header false short
    ++ (gap_cells e (get_fm_or_mfm_gap2_length datarate e)
        ++ ((if has_data s
              then data_cells e (first_copy s.data_copies) s.header.size s.dam s.bad_data_crc
              else [])
            ++ (if has_gapdata s then [] else gap_cells e gap3)))

module _ {S : Type 0} (m : Medium S) (r : Recorder m.add_raw_bit) (steady : Steady m r) where
  open r use {Good, view}

  pub add_gap-Emits :
      (n : ℕ) (t : Builder S)
      → Good t.medium
      → Emits m.add_raw_bit r t (add_gap m.add_raw_bit n none t) (gap_cells t.encoding n)
  unfolding add_gap
  add_gap-Emits n t g =
      add_fill-Emits m.add_raw_bit r (if is_fm t.encoding then 0xff else 0x4e) n t g

  Emits-if :
      (c : Bool) (t a b : Builder S) (xs ys : List Cell)
      → Emits m.add_raw_bit r t a xs
      → Emits m.add_raw_bit r t b ys
      → Emits m.add_raw_bit r t (if c then a else b) (if c then xs else ys)
  Emits-if true t a b xs ys p q = p
  Emits-if false t a b xs ys p q = q

  -- Once the position is adjusted, `addSector` for a header of bytes appends the id field, the second
  -- gap, the data field if the sector has data, and the third gap unless the data hold it.
  pub add_ibm_fields-Emits :
      (s : Sector) (gap3 : ℕ) (short : Bool) (t : Builder S)
      → has_byte_fields s.header ≡ true
      → Good t.medium
      → (t' : Builder S) × (add_ibm_fields m s gap3 short t ≡ some t')
        × Emits m.add_raw_bit r t t' (sector_cells t.datarate t.encoding s gap3 short)
  unfolding add_ibm_fields add_ibm_rest add_gap2
  add_ibm_fields-Emits s gap3 short ready fits g = (
    all,
    ap (λ o. o >>= (λ k. some (add_ibm_rest m s gap3 k))) head_done.1,
    Emits-trans raw r ready headed all (id_cells ready.encoding s.header false short)
        (gap2 ++ (field ++ rest)) p1
        (Emits-trans raw r headed id all gap2 (field ++ rest) p2
          (Emits-trans raw r id whole all field rest p3 p4)),
  )
    where
      raw : Bool → S → S
      raw = m.add_raw_bit

      head_done :
          (t' : Builder S) × (add_sector_header m s.header false short ready ≡ some t')
          × Emits raw r ready t' (id_cells ready.encoding s.header false short)
      head_done = add_sector_header-Emits m r steady s.header false short ready fits g

      headed : Builder S
      headed = head_done.0

      p1 : Emits raw r ready headed (id_cells ready.encoding s.header false short)
      p1 = head_done.2

      id : Builder S
      id = add_gap2 raw none headed

      gap2 : List Cell
      gap2 = gap_cells ready.encoding (get_fm_or_mfm_gap2_length ready.datarate ready.encoding)

      p2 : Emits raw r headed id gap2
      p2 =
          Emits-cells m r steady headed id _ gap2
            (ap₂ (λ d e. gap_cells e (get_fm_or_mfm_gap2_length d e)) p1.same_datarate
              p1.same_encoding)
            (add_gap-Emits (get_fm_or_mfm_gap2_length headed.datarate headed.encoding) headed
              p1.good)

      id_encoding : id.encoding ≡ ready.encoding
      id_encoding = p2.same_encoding ∙ p1.same_encoding

      cells_of : Encoding → List Cell
      cells_of e = data_cells e (first_copy s.data_copies) s.header.size s.dam s.bad_data_crc

      field : List Cell
      field = if has_data s then cells_of ready.encoding else []

      filled : Builder S
      filled = add_sector_data m (first_copy s.data_copies) s.header.size s.dam s.bad_data_crc id

      whole : Builder S
      whole = if has_data s then filled else id

      p3 : Emits raw r id whole field
      p3 =
          Emits-if (has_data s) id filled id (cells_of ready.encoding) []
            (Emits-cells m r steady id filled _ (cells_of ready.encoding) (ap cells_of id_encoding)
              (add_sector_data-Emits m r steady (first_copy s.data_copies) s.header.size s.dam
                s.bad_data_crc id p2.good))
            (Emits-refl raw r id p2.good)

      whole_encoding : whole.encoding ≡ ready.encoding
      whole_encoding = p3.same_encoding ∙ id_encoding

      rest : List Cell
      rest = if has_gapdata s then [] else gap_cells ready.encoding gap3

      all : Builder S
      all = add_ibm_rest m s gap3 headed

      p4 : Emits raw r whole all rest
      p4 =
          Emits-if (has_gapdata s) whole whole (add_gap raw gap3 none whole) []
            (gap_cells ready.encoding gap3) (Emits-refl raw r whole p3.good)
            (Emits-cells m r steady whole _ _ (gap_cells ready.encoding gap3)
              (ap (λ e. gap_cells e gap3) whole_encoding) (add_gap-Emits gap3 whole p3.good))
