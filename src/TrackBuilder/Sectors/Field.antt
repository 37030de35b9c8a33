-- ===== src/TrackBuilder/Sectors/Field.antt =====
-- The data field of a sector (`addSectorData` in src/TrackBuilder.cpp).
use mathlib.Core.Path.{subst}
use samdisk_plus.Prelude.{
  ℕ, ◌-◌, ◌≡◌, refl, ap, sym, ◌∙◌, Bool, true, false, List, [], ◌∷◌, ◌++◌, ◌==◌, if◌then◌else◌,
  length, ltb, replicate, map, arith, append_assoc, append-nil,
}
use samdisk_plus.Crc16
use samdisk_plus.Header.{Encoding}
use samdisk_plus.TrackBuilder.{
  Builder, Medium, add_block_update_crc, important, add_am, add_crc_bytes, add_sector_data,
}
use samdisk_plus.Sector.{size_code_to_length}
use samdisk_plus.TrackBuilder.Cells.{Cell, byte}
use samdisk_plus.TrackBuilder.Emits.{Recorder, Emits}
use samdisk_plus.TrackBuilder.Sectors.{
  Steady, Fields, Fields-bytes, Fields-crc, important-Emits, add_am-Fields, sync_cells, mark_cells,
  field_crc, crc_cells,
}

-- The data field: full data, data with a gap behind it and no CRC of its own, or short data
-- padded with zeros.
abbrev pub padded : List ℕ → ℕ → List ℕ
padded bytes size = bytes ++ replicate (size_code_to_length size - length bytes) 0x00

abbrev pub data_cells : Encoding → List ℕ → ℕ → ℕ → Bool → List Cell
data_cells e bytes size dam bad =
    (sync_cells e false ++ mark_cells e dam)
    ++ (if ltb (size_code_to_length size) (length bytes)
        then map byte bytes
        else map byte (padded bytes size) ++ crc_cells (field_crc e dam (padded bytes size)) bad)

add_block_update_crc-append :
    {S : Type 0} (raw : Bool → S → S) (xs ys : List ℕ) (t : Builder S)
    → add_block_update_crc raw (xs ++ ys) t
      ≡ add_block_update_crc raw ys (add_block_update_crc raw xs t)
unfolding add_block_update_crc
add_block_update_crc-append raw [] ys t = refl
add_block_update_crc-append raw (x ∷ xs) ys t = add_block_update_crc-append raw xs ys _

data_cells-long :
    (e : Encoding) (bytes : List ℕ) (size dam : ℕ) (bad : Bool)
    → ltb (size_code_to_length size) (length bytes) ≡ true
    → (sync_cells e false ++ mark_cells e dam) ++ map byte bytes ≡ data_cells e bytes size dam bad
data_cells-long e bytes size dam bad h =
    ap
      (λ c.
        (sync_cells e false ++ mark_cells e dam)
        ++ (if c
            then map byte bytes
            else map byte (padded bytes size)
              ++ crc_cells (field_crc e dam (padded bytes size)) bad))
      (sym h)

data_cells-fits :
    (e : Encoding) (bytes : List ℕ) (size dam : ℕ) (bad : Bool)
    → ltb (size_code_to_length size) (length bytes) ≡ false
    → ((sync_cells e false ++ mark_cells e dam) ++ map byte (padded bytes size))
        ++ crc_cells (field_crc e dam (padded bytes size)) bad
      ≡ data_cells e bytes size dam bad
data_cells-fits e bytes size dam bad h =
    append_assoc (sync_cells e false ++ mark_cells e dam) (map byte (padded bytes size))
      (crc_cells (field_crc e dam (padded bytes size)) bad)
    ∙ ap
        (λ c.
          (sync_cells e false ++ mark_cells e dam)
          ++ (if c
              then map byte bytes
              else map byte (padded bytes size)
                ++ crc_cells (field_crc e dam (padded bytes size)) bad))
        (sym h)

padded-full :
    (bytes : List ℕ) (size : ℕ)
    → length bytes ≡ size_code_to_length size
    → padded bytes size ≡ bytes
padded-full bytes size e = ap (λ n. bytes ++ replicate n 0x00) (none_missing e) ∙ append-nil bytes
  where
    none_missing :
        length bytes ≡ size_code_to_length size → size_code_to_length size - length bytes ≡ 0
    none_missing p = omega arith

module _ {S : Type 0} (m : Medium S) (r : Recorder m.add_raw_bit) (steady : Steady m r) where
  open r use {Good}

  pub Emits-pick :
      (c : Bool) (t a b : Builder S) (cells : List Cell)
      → (c ≡ true → Emits m.add_raw_bit r t a cells)
      → (c ≡ false → Emits m.add_raw_bit r t b cells)
      → Emits m.add_raw_bit r t (if c then a else b) cells
  Emits-pick true t a b cells p q = p refl
  Emits-pick false t a b cells p q = q refl

  pub Emits-cells :
      (t t' : Builder S) (xs ys : List Cell)
      → xs ≡ ys
      → Emits m.add_raw_bit r t t' xs
      → Emits m.add_raw_bit r t t' ys
  Emits-cells t t' xs ys e p = subst (λ c. Emits m.add_raw_bit r t t' c) e p

  -- On a good medium that appends its bits and whose other methods leave them as they are,
  -- `addSectorData` appends the sync, the data mark and then: data longer than the sector as it is,
  -- with no CRC; any other data padded with zeros to the size of the sector, and the CRC of the mark
  -- and the padded data.
  pub add_sector_data-Emits :
      (bytes : List ℕ) (size dam : ℕ) (bad : Bool) (t : Builder S)
      → Good t.medium
      → Emits m.add_raw_bit r t
          (add_sector_data m bytes size dam bad t)
          (data_cells t.encoding bytes size dam bad)
  unfolding add_sector_data Crc16.add_bytes
  add_sector_data-Emits bytes size dam bad t g =
      Emits-pick (length bytes == size_code_to_length size) t _ _ cells (λ e. full (ground arith))
        (λ ne.
          Emits-pick (ltb (size_code_to_length size) (length bytes)) t _ _ cells
            (λ h.
              Emits-cells t (important m written) _ cells
                (data_cells-long t.encoding bytes size dam bad h)
                (important-Emits m r steady t written _ (fields bytes).emits))
            (λ h.
              rw
                (← add_block_update_crc-append m.add_raw_bit bytes
                  (replicate (size_code_to_length size - length bytes) 0x00) marked)
                (closed h)))
    where
      cells : List Cell
      cells = data_cells t.encoding bytes size dam bad

      marked : Builder S
      marked = add_am m dam false false t

      written : Builder S
      written = add_block_update_crc m.add_raw_bit bytes marked

      head : List Cell
      head = sync_cells t.encoding false ++ mark_cells t.encoding dam

      fields :
          (xs : List ℕ)
          → Fields m r steady t
              (add_block_update_crc m.add_raw_bit xs marked)
              (head ++ map byte xs)
              (field_crc t.encoding dam xs)
      fields xs =
          Fields-bytes m r steady t marked head (field_crc t.encoding dam []) xs
            (add_am-Fields m r steady dam false t g)

      closed :
          ltb (size_code_to_length size) (length bytes) ≡ false
          → Emits m.add_raw_bit r t
              (add_crc_bytes m bad (add_block_update_crc m.add_raw_bit (padded bytes size) marked))
              cells
      closed h = Emits-cells t _ _ cells (data_cells-fits t.encoding bytes size dam bad h) (
          Fields-crc m r steady t _ (head ++ map byte (padded bytes size))
            (field_crc t.encoding dam (padded bytes size)) bad (fields (padded bytes size)))

      full :
          length bytes ≡ size_code_to_length size
          → Emits m.add_raw_bit r t (add_crc_bytes m bad written) cells
      full e =
          subst
            (λ xs.
              Emits m.add_raw_bit r t
                (add_crc_bytes m bad (add_block_update_crc m.add_raw_bit xs marked)) cells)
            (padded-full bytes size e) (closed (ground arith))
