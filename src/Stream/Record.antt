-- ===== src/Stream/Record.antt =====
-- The bit buffer of src/BitstreamTrackBuilder.cpp as a medium: what is written at its end is
-- appended to its bits.
use samdisk_plus.Prelude.{
  ℕ, true, ◌≡◌, refl, ap, sym, ◌∙◌, Bool, List, [], ◌∷◌, ◌++◌, some, arith, length,
}
use samdisk_plus.Prelude.Bind.{◌>>=◌}
use samdisk_plus.BitBuffer
use samdisk_plus.BitBuffer.{BitBuffer}
use samdisk_plus.BitBuffer.Inv.{IsValid, add-IsValid}
use samdisk_plus.BitBuffer.Refine.{contents, view-Refines, length-bits_from}
use samdisk_plus.BitBuffer.Tape.{write}
use samdisk_plus.TrackBuilder.{Builder, add_ibm_sector, add_ibm_fields}
use samdisk_plus.Sector.{Sector}
use samdisk_plus.TrackBuilder.Cells.{encode}
use samdisk_plus.TrackBuilder.Emits.{Recorder}
use samdisk_plus.TrackBuilder.Sectors.{Steady, has_byte_fields}
use samdisk_plus.TrackBuilder.Sectors.Layout.{sector_cells, add_ibm_fields-Emits}
use samdisk_plus.Stream.{Stream, stream, add_raw_bit, just_added_important_bits, after_iam}

-- The buffer is valid, and the next bit goes to the end of its bits.
pub record AtEnd (s : Stream) : Type 0 where
  pub valid : IsValid s.buffer
  pub at_end : s.buffer.bitpos ≡ s.buffer.bitsize

write-end : (xs : List Bool) (b : Bool) → write xs (length xs) b ≡ xs ++ b ∷ []
write-end [] b = refl
write-end (x ∷ xs) b = ap (λ t. x ∷ t) (write-end xs b)

pub add_raw_bit-AtEnd : (b : Bool) (s : Stream) → AtEnd s → AtEnd (add_raw_bit b s)
unfolding add_raw_bit BitBuffer.add
add_raw_bit-AtEnd b s g = record {
  valid = (add-IsValid b s.buffer g.valid).1;
  at_end = let e = g.at_end in omega arith;
}

pub add_raw_bit-contents :
    (b : Bool) (s : Stream)
    → AtEnd s
    → contents (add_raw_bit b s).buffer ≡ contents s.buffer ++ b ∷ []
unfolding add_raw_bit
add_raw_bit-contents b s g =
    ap (λ t. t.bits) ((view-Refines s.buffer g.valid).adds b)
    ∙ ap (λ n. write (contents s.buffer) n b)
        (g.at_end ∙ sym (length-bits_from s.buffer.bytes 0 s.buffer.bitsize))
    ∙ write-end (contents s.buffer) b

abbrev pub recorder : Recorder add_raw_bit
recorder = record {
  Good = AtEnd;
  view = λ s. contents s.buffer;
  keeps = add_raw_bit-AtEnd;
  appends = add_raw_bit-contents;
}

pub steady : (fuel : ℕ) → Steady (stream fuel) recorder
unfolding just_added_important_bits after_iam
steady fuel = record {
  important_good = λ s g. record { valid = g.valid; at_end = g.at_end };
  important_view = λ s. refl;
  iam_good = λ s g. record { valid = g.valid; at_end = g.at_end };
  iam_view = λ s. refl;
}

-- `addSector` for MFM and FM on a bitstream, for a header whose fields are bytes, where the adjustment
-- of the position ends and leaves it at the end of a valid buffer: no exception is thrown, the bits of the buffer are those it had and then, as the encoding writes them, the id
-- field, the second gap, the data field if there are data, and the third gap unless the data hold
-- it; the buffer stays valid, and the position is again its end.
pub add_ibm_sector-stream :
    (fuel : ℕ) (s : Sector) (gap3 : ℕ) (short : Bool) (t ready : Builder Stream)
    → (stream fuel).adjust_data_bits_before_offset s.offset gap3 short t ≡ some ready
    → AtEnd ready.medium
    → has_byte_fields s.header ≡ true
    → (t' : Builder Stream) × (add_ibm_sector (stream fuel) s gap3 short t ≡ some t')
      × (contents t'.medium.buffer
          ≡ contents ready.medium.buffer
            ++ encode ready.encoding ready.lastbit
                (sector_cells ready.datarate ready.encoding s gap3 short))
      × AtEnd t'.medium
unfolding add_ibm_sector
add_ibm_sector-stream fuel s gap3 short t ready adjusted good fits =
    let (t', done, e) =
      add_ibm_fields-Emits (stream fuel) recorder (steady fuel) s gap3 short ready fits good in
    (
      t',
      ap (λ o. o >>= add_ibm_fields (stream fuel) s gap3 short) adjusted ∙ done,
      e.written,
      e.good,
    )
