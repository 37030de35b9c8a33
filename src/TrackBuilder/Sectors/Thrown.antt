-- ===== src/TrackBuilder/Sectors/Thrown.antt =====
-- The exception of src/TrackBuilder.cpp for a header field that is no byte.
use samdisk_plus.Prelude.{
  ℕ, ◌≡◌, refl, ap, ◌∙◌, Bool, false, List, if◌then◌else◌, Option, none, some,
}
use samdisk_plus.Prelude.Bind.{◌>>=◌}
use samdisk_plus.Header.{Encoding, Header}
use samdisk_plus.Ibm.{ibm_dam_rx02}
use samdisk_plus.TrackBuilder.{
  Builder, Medium, add_gap2, add_am, add_sector_header, add_ibm_fields, add_ibm_sector,
  add_sector_up_to_data, add_gap, add_crc_bytes, add_block_update_crc, set_encoding,
}
use samdisk_plus.TrackBuilder.Whole.{add_rx02_sector}
use samdisk_plus.Sector.{Sector}
use samdisk_plus.TrackBuilder.Sectors.{has_byte_fields, header_written, add_sector_header-if}

bind_none :
    {A B : Type 0} (o : Option A) (f : A → Option B) → ((a : A) → f a ≡ none) → (o >>= f) ≡ none
bind_none none f h = refl
bind_none (some a) f h = h a

bind_of_none : {A B : Type 0} (o : Option A) (f : A → Option B) → o ≡ none → (o >>= f) ≡ none
bind_of_none o f e = ap (λ p. p >>= f) e

module _ {S : Type 0} (m : Medium S) where
  add_sector_header-none :
      (h : Header) (bad short : Bool) (t : Builder S)
      → has_byte_fields h ≡ false
      → add_sector_header m h bad short t ≡ none
  add_sector_header-none h bad short t e =
      add_sector_header-if m h bad short t
      ∙ ap (λ c. if c then some (header_written m h bad short t) else none) e

  -- On every medium, a sector of which some header field is above 255 is not written: the header
  -- alone, the header up to the data, the MFM or FM sector and the RX02 sector all end in an exception
  -- (the MFM or FM sector perhaps without an end, in the adjustment before it).
  pub over_255-none :
      (s : Sector) (gap3 : ℕ) (short : Bool) (bytes : List ℕ) (dam : ℕ) (t : Builder S)
      → has_byte_fields s.header ≡ false
      → (add_sector_header m s.header false short t ≡ none)
        × (add_sector_up_to_data m s.header dam t ≡ none)
        × (add_ibm_sector m s gap3 short t ≡ none)
        × (add_rx02_sector m s.header bytes gap3 t ≡ none)
  unfolding add_sector_up_to_data add_ibm_sector add_ibm_fields add_rx02_sector set_encoding
  over_255-none s gap3 short bytes dam t e = (
    add_sector_header-none s.header false short t e,
    bind_of_none _ _ (add_sector_header-none s.header false false t e),
    bind_none (m.adjust_data_bits_before_offset s.offset gap3 short t) _
        (λ ready. bind_of_none _ _ (add_sector_header-none s.header false short ready e)),
    bind_none (set_encoding m Encoding.fm t) _ (λ in_fm.
        bind_of_none _
          (λ headed.
            set_encoding m Encoding.mfm
              (add_am m ibm_dam_rx02 false false (add_gap2 m.add_raw_bit none headed))
            >>= λ in_mfm. some (
                add_gap m.add_raw_bit gap3 none
                  (add_crc_bytes m false (add_block_update_crc m.add_raw_bit bytes in_mfm))))
          (add_sector_header-none s.header false false in_fm e)),
  )
