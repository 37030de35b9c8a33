-- ===== src/TrackBuilder/Cells.antt =====
-- What a track holds, as cells, and the raw bits of each: an independent description of the FM and
-- MFM encodings. FM has a clock bit before each data bit, and each bit is followed by a 0, so that
-- its cells are as long as those of MFM. MFM has a clock bit only between two zeros.
use samdisk_plus.Prelude.{
  ℕ, ◌*◌, ◌≡◌, refl, ap, ◌∙◌, Bool, true, false, not, ◌&&◌, List, [], ◌∷◌, ◌++◌, if◌then◌else◌,
  length, length-append, arith, append_assoc, sym,
}
use samdisk_plus.Crc16.{bit_set}
use samdisk_plus.Header.{Encoding, is_fm}
use samdisk_plus.Header.Offsets.{byte_bits_of}

-- A data byte, or a mark: a byte written with clock bits of its own.
pub data Cell : Type 0 where
  byte : ℕ → Cell
  mark : ℕ → ℕ → Cell

-- The eight bits of a byte, highest first.
abbrev pub high_first : ℕ → List Bool
high_first x =
    bit_set 7 x
    ∷ bit_set 6 x
    ∷ bit_set 5 x
    ∷ bit_set 4 x
    ∷ bit_set 3 x
    ∷ bit_set 2 x
    ∷ bit_set 1 x
    ∷ bit_set 0 x
    ∷ []

abbrev pub raw_bit : Encoding → Bool → List Bool
raw_bit e b = if is_fm e then b ∷ false ∷ [] else b ∷ []

abbrev pub clock_bit : Encoding → Bool → Bool → Bool
clock_bit e last b = if is_fm e then true else not last && not b

-- The data bits, the bit before them known.
abbrev pub data_bits : Encoding → Bool → List Bool → List Bool
data_bits e last [] = []
data_bits e last (b ∷ bs) = raw_bit e (clock_bit e last b) ++ (raw_bit e b ++ data_bits e b bs)

abbrev pub mark_bits : Encoding → List Bool → List Bool → List Bool
mark_bits e [] clocks = []
mark_bits e (b ∷ bs) [] = []
mark_bits e (b ∷ bs) (c ∷ clocks) = raw_bit e c ++ (raw_bit e b ++ mark_bits e bs clocks)

abbrev pub cell_bits : Encoding → Bool → Cell → List Bool
cell_bits e last (byte x) = data_bits e last (high_first x)
cell_bits e last (mark x c) = mark_bits e (high_first x) (high_first c)

-- The last data bit of a cell.
abbrev pub cell_last : Cell → Bool
cell_last (byte x) = bit_set 0 x
cell_last (mark x c) = bit_set 0 x

unfoldable pub encode : Encoding → Bool → List Cell → List Bool
encode e last [] = []
encode e last (c ∷ cs) = cell_bits e last c ++ encode e (cell_last c) cs

unfoldable pub last_of : Bool → List Cell → Bool
last_of last [] = last
last_of last (c ∷ cs) = last_of (cell_last c) cs

pub encode-append :
    (e : Encoding) (last : Bool) (xs ys : List Cell)
    → encode e last (xs ++ ys) ≡ encode e last xs ++ encode e (last_of last xs) ys
unfolding encode last_of
encode-append e last [] ys = refl
encode-append e last (x ∷ xs) ys =
    ap (λ t. cell_bits e last x ++ t) (encode-append e (cell_last x) xs ys)
    ∙ sym (
        append_assoc (cell_bits e last x) (encode e (cell_last x) xs)
          (encode e (last_of (cell_last x) xs) ys))

pub last_of-append :
    (last : Bool) (xs ys : List Cell) → last_of last (xs ++ ys) ≡ last_of (last_of last xs) ys
unfolding last_of
last_of-append last [] ys = refl
last_of-append last (x ∷ xs) ys = last_of-append (cell_last x) xs ys

length-cell_bits :
    (e : Encoding) (last : Bool) (c : Cell) → length (cell_bits e last c) ≡ byte_bits_of e
length-cell_bits Encoding.fm last (byte x) = refl
length-cell_bits Encoding.fm last (mark x c) = refl
length-cell_bits _ last (byte x) = refl
length-cell_bits _ last (mark x c) = refl

-- Every cell is as long as a data byte.
pub length-encode :
    (e : Encoding) (last : Bool) (cs : List Cell)
    → length (encode e last cs) ≡ length cs * byte_bits_of e
unfolding encode
length-encode e last [] = omega arith
length-encode e last (c ∷ cs) =
    length-append (cell_bits e last c) (encode e (cell_last c) cs)
    ∙ omega (arith, length-cell_bits e last c, length-encode e (cell_last c) cs)
