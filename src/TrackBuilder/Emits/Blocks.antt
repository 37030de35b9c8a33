-- ===== src/TrackBuilder/Emits/Blocks.antt =====
-- Bytes with their CRC, and blocks of bytes, as cells.
use samdisk_plus.Prelude.{ℕ, zero, suc, ◌≡◌, refl, ap, ◌∙◌, Bool, List, [], ◌∷◌, replicate, map}
use samdisk_plus.Crc16
use samdisk_plus.Crc16.{bit_set}
use samdisk_plus.TrackBuilder.{
  Builder, add_byte, add_crc_byte, add_fill, add_block, add_block_update_crc,
}
use samdisk_plus.TrackBuilder.Cells.{byte}
use samdisk_plus.TrackBuilder.Emits.{
  Recorder, Emits, Emits-refl, Emits-trans, add_byte-Emits, add_byte-crc,
}

module _ {S : Type 0} (raw : Bool → S → S) (r : Recorder raw) where
  open r use {Good, view}

  -- The cell of the byte is appended, and the byte is taken into the CRC.
  pub add_crc_byte-Emits :
      (x : ℕ) (t : Builder S)
      → Good t.medium
      → Emits raw r t (add_crc_byte raw x t) (byte x ∷ [])
        × ((add_crc_byte raw x t).crc ≡ Crc16.add_byte t.crc x)
  unfolding add_crc_byte
  add_crc_byte-Emits x t g =
      let p = add_byte-Emits raw r x t g in
      (
        record {
          good = p.good;
          written = p.written;
          last_bit = p.last_bit;
          same_encoding = p.same_encoding;
          same_datarate = p.same_datarate;
        },
        ap (λ c. Crc16.add_byte c x) (add_byte-crc raw r x t),
      )

  pub add_fill-Emits :
      (x n : ℕ) (t : Builder S)
      → Good t.medium
      → Emits raw r t (add_fill raw x n t) (replicate n (byte x))
  unfolding add_fill
  add_fill-Emits x zero t g = Emits-refl raw r t g
  add_fill-Emits x (suc n) t g =
      let p = add_byte-Emits raw r x t g in
      Emits-trans raw r t (add_byte raw x t) (add_fill raw x n (add_byte raw x t)) (byte x ∷ [])
        (replicate n (byte x)) p (add_fill-Emits x n (add_byte raw x t) p.good)

  pub add_block-Emits :
      (xs : List ℕ) (t : Builder S)
      → Good t.medium
      → Emits raw r t (add_block raw xs t) (map byte xs)
  unfolding add_block
  add_block-Emits [] t g = Emits-refl raw r t g
  add_block-Emits (x ∷ xs) t g =
      let p = add_byte-Emits raw r x t g in
      Emits-trans raw r t (add_byte raw x t) (add_block raw xs (add_byte raw x t)) (byte x ∷ [])
        (map byte xs) p (add_block-Emits xs (add_byte raw x t) p.good)

  pub add_block_update_crc-Emits :
      (xs : List ℕ) (t : Builder S)
      → Good t.medium
      → Emits raw r t (add_block_update_crc raw xs t) (map byte xs)
        × ((add_block_update_crc raw xs t).crc ≡ Crc16.add_bytes t.crc xs)
  unfolding add_block_update_crc Crc16.add_bytes
  add_block_update_crc-Emits [] t g = (Emits-refl raw r t g, refl)
  add_block_update_crc-Emits (x ∷ xs) t g =
      let t' = add_crc_byte raw x t in
      let (p, c) = add_crc_byte-Emits x t g in
      let (q, d) = add_block_update_crc-Emits xs t' p.good in
      (
        Emits-trans raw r t t' (add_block_update_crc raw xs t') (byte x ∷ []) (map byte xs) p q,
        d ∙ ap (λ k. Crc16.add_bytes k xs) c,
      )
