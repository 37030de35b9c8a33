-- ===== src/TrackBuilder/Whole.antt =====
-- The entry points of src/TrackBuilder.cpp that switch on the encoding.
use samdisk_plus.Prelude.{
  ℕ, ◌&&◌, Bool, false, List, [], ◌∷◌, if◌then◌else◌, Option, none, some, take, ◌+◌, ◌*◌,
}
use samdisk_plus.Prelude.Bind.{◌>>=◌}
use samdisk_plus.Header.{Encoding, Header, is_fm, is_mfm}
use samdisk_plus.Ibm.{ibm_dam_rx02}
use samdisk_plus.TrackBuilder.{
  Builder, Medium, add_gap, add_iam, set_encoding, add_sector_header, add_gap2, add_am,
  add_block_update_crc, add_crc_bytes, add_ibm_sector,
}
use samdisk_plus.Sector.{Sector, first_copy}
use samdisk_plus.TrackBuilder.Amiga.{add_amiga_track_start, add_amiga_sector}

-- The bytes of a buffer as big-endian words; bytes that fill no word are left out.
pub be_words : List ℕ → List ℕ
be_words (a ∷ b ∷ c ∷ d ∷ rest) = (((a * 256 + b) * 256 + c) * 256 + d) ∷ be_words rest
be_words _ = []

module _ {S : Type 0} (m : Medium S) where
  unfoldable pub add_ibm_track_start : Bool → Builder S → Builder S
  add_ibm_track_start short_mfm_gap t =
      if is_mfm t.encoding && short_mfm_gap
      then add_gap m.add_raw_bit 20 none t
      else add_gap m.add_raw_bit (if is_fm t.encoding then 26 else 50) none
          (add_iam m (add_gap m.add_raw_bit (if is_fm t.encoding then 40 else 80) none t))

  rx02_track_start : Builder S → Option (Builder S)
  rx02_track_start t = do
    t' ← set_encoding m Encoding.fm t
    set_encoding m Encoding.rx02
        (add_gap m.add_raw_bit 27 none (add_iam m (add_gap m.add_raw_bit 32 none t')))

  -- `none` is the exception for an unsupported track start.
  track_start_as : Encoding → Bool → Builder S → Option (Builder S)
  unfolding add_ibm_track_start rx02_track_start
  track_start_as Encoding.mfm short_mfm_gap t = some (add_ibm_track_start short_mfm_gap t)
  track_start_as Encoding.fm short_mfm_gap t = some (add_ibm_track_start short_mfm_gap t)
  track_start_as Encoding.amiga short_mfm_gap t = some (add_amiga_track_start m t)
  track_start_as Encoding.rx02 short_mfm_gap t = rx02_track_start t
  track_start_as _ short_mfm_gap t = none

  unfoldable pub add_track_start : Bool → Builder S → Option (Builder S)
  unfolding track_start_as
  add_track_start short_mfm_gap t = track_start_as t.encoding short_mfm_gap t

  -- The id in FM, the data in MFM.
  unfoldable pub add_rx02_sector : Header → List ℕ → ℕ → Builder S → Option (Builder S)
  add_rx02_sector h bytes gap3_bytes t = do
    in_fm ← set_encoding m Encoding.fm t
    headed ← add_sector_header m h false false in_fm
    in_mfm ←
        set_encoding m Encoding.mfm
          (add_am m ibm_dam_rx02 false false (add_gap2 m.add_raw_bit none headed))
    some (
        add_gap m.add_raw_bit gap3_bytes none
          (add_crc_bytes m false (add_block_update_crc m.add_raw_bit bytes in_mfm)))

  sector_as : Encoding → Sector → ℕ → Bool → Builder S → Option (Builder S)
  unfolding add_rx02_sector be_words
  sector_as Encoding.mfm s gap3_bytes short_mfm_gap t =
      add_ibm_sector m s gap3_bytes short_mfm_gap t
  sector_as Encoding.fm s gap3_bytes short_mfm_gap t = add_ibm_sector m s gap3_bytes short_mfm_gap t
  sector_as Encoding.amiga s gap3_bytes short_mfm_gap t = some (
      add_amiga_sector m (record { cyl = s.header.cyl; head = s.header.head }) s.header.sector
        (be_words (take 512 (first_copy s.data_copies))) t)
  sector_as Encoding.rx02 s gap3_bytes short_mfm_gap t = do
    t' ← add_rx02_sector s.header (first_copy s.data_copies) gap3_bytes t
    set_encoding m s.encoding t'
  sector_as _ s gap3_bytes short_mfm_gap t = none

  -- `addSector`; `none` is the exception for an unsupported encoding.
  unfoldable pub add_sector : Sector → ℕ → Bool → Builder S → Option (Builder S)
  unfolding sector_as
  add_sector s gap3_bytes short_mfm_gap t = do
    t' ← set_encoding m s.encoding t
    sector_as t'.encoding s gap3_bytes short_mfm_gap t'
