-- ===== src/Stream/Cut.antt =====
-- How `BitstreamTrackBuilder::cutExcessUnimportantDataBitsAtTheEnd` shortens a track.
use samdisk_plus.Prelude.{
  ℕ, zero, suc, ◌-◌, ◌≡◌, ◌≤◌, refl, ap, sym, ◌∙◌, Bool, true, false, ◌&&◌, List, [], ◌∷◌, arith,
  min, max, length, take, ltb, if◌then◌else◌,
}
use samdisk_plus.BitBuffer
use samdisk_plus.BitBuffer.{BitBuffer}
use samdisk_plus.BitBuffer.Inv.{remove-IsValid}
use samdisk_plus.BitBuffer.Refine.{contents, view-Refines, length-bits_from}
use samdisk_plus.Stream.{Stream, cut_excess_unimportant_data_bits_at_the_end}
use samdisk_plus.Stream.Record.{AtEnd}

take-all : (n : ℕ) (xs : List Bool) → length xs ≤ n → take n xs ≡ xs
take-all zero [] h = refl
take-all zero (x ∷ xs) h = absurd (omega arith)
take-all (suc n) [] h = refl
take-all (suc n) (x ∷ xs) h = ap (λ t. x ∷ t) (take-all n xs (omega arith))

-- The length of the track after the cut.
abbrev pub cut_length : ℕ → Stream → ℕ
cut_length track_len s = min s.buffer.bitpos (max track_len s.after_last_important)

-- At the end of a valid buffer, what is beyond the length of the track and beyond the last important
-- bit is cut, and nothing else: the bits that are left are the first ones, up to the greater of the
-- two positions or else all of them, and the position is again the end of a valid buffer.
pub cut_excess-take :
    (track_len : ℕ) (s : Stream)
    → AtEnd s
    → let s' = cut_excess_unimportant_data_bits_at_the_end track_len s in
      (contents s'.buffer ≡ take (cut_length track_len s) (contents s.buffer))
      × (s'.buffer.bitpos ≡ cut_length track_len s)
      × AtEnd s'
unfolding cut_excess_unimportant_data_bits_at_the_end BitBuffer.remove
cut_excess-take track_len s g =
    pick (ltb track_len s.buffer.bitpos && ltb s.after_last_important s.buffer.bitpos) refl
  where
    excess : ℕ
    excess = s.buffer.bitpos - track_len - (s.after_last_important - track_len)

    cut : Stream
    cut = record s { buffer = BitBuffer.remove excess s.buffer }

    pick :
        (c : Bool)
        → (ltb track_len s.buffer.bitpos && ltb s.after_last_important s.buffer.bitpos) ≡ c
        → (contents (if c then cut else s).buffer
            ≡ take (cut_length track_len s) (contents s.buffer))
          × ((if c then cut else s).buffer.bitpos ≡ cut_length track_len s)
          × AtEnd (if c then cut else s)
    pick true e = (
      ap (λ t. t.bits) ((view-Refines s.buffer g.valid).removes excess)
          ∙ ap (λ n. take n (contents s.buffer)) (ground (arith, e)),
      ground (arith, e),
      record { valid = remove-IsValid excess s.buffer g.valid; at_end = refl },
    )
    pick false e = (
      sym (
          take-all (cut_length track_len s) (contents s.buffer)
            (ground (arith, e, g.at_end, length-bits_from s.buffer.bytes 0 s.buffer.bitsize))),
      ground (arith, e),
      g,
    )
