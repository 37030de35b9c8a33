-- ===== src/Track/Populate.antt =====
-- `Track::populate` of src/Track.cpp: bytes are written to the sectors in the order of their numbers.
pub mod Order
pub mod Whole
pub mod Written
use samdisk_plus.Prelude.{
  ℕ, zero, suc, ◌+◌, ◌-◌, ◌*◌, ◌==◌, min, ltb, leb, ◌≤◌, ◌<◌, ◌≡◌, refl, ap, ap₂, sym, ◌∙◌, Bool,
  true, false, not, ◌&&◌, List, [], ◌∷◌, ◌++◌, if◌then◌else◌, length, take, drop, set, arith,
  Option, none, some, if_both, length-append, length-take, length-drop, append-nil, append_assoc,
  take-append-drop,
}
use samdisk_plus.Sector.{Options, Sector, size, first_copy}
use samdisk_plus.Sector.Edit.{remove_data, set_baddatacrc}
use samdisk_plus.Track.{Track, find_if}
use samdisk_plus.Track.Add.{insert_at, end_index}

-- Writes over the start of the first copy.
unfoldable pub write_first : List ℕ → List (List ℕ) → List (List ℕ)
write_first bytes [] = []
write_first bytes (d ∷ ds) = (bytes ++ drop (length bytes) d) ∷ ds

-- One sector, and the bytes that are left.
unfoldable pub populate_sector : Options → Bool → Sector → List ℕ → Sector × List ℕ
unfolding write_first size
populate_sector o sign s input =
    let bytes = min (size s) (length input) in
    let written : Sector = record s {
      data_copies = write_first (take bytes input) s.data_copies;
    } in
    if ltb 0 (length input)
    then (
      if sign && ltb (length input) (size s) then set_baddatacrc o true written else written,
      drop bytes input,
    )
    else (if sign then remove_data s else s, input)

unfoldable pub populate_sectors : Options → Bool → List Sector → List ℕ → List Sector × List ℕ
unfolding populate_sector
populate_sectors o sign [] input = ([], input)
populate_sectors o sign (s ∷ ss) input =
    let (s', rest) = populate_sector o sign s input in
    let (ss', left) = populate_sectors o sign ss rest in (s' ∷ ss', left)

-- The pointers to the sectors, with the indices, sorted by number; for equal numbers the source
-- leaves the order open, and it is that of the track here.
unfoldable pub indexed : ℕ → List Sector → List (ℕ × Sector)
indexed i [] = []
indexed i (s ∷ ss) = (i, s) ∷ indexed (suc i) ss

unfoldable pub sort_by_number : List (ℕ × Sector) → List (ℕ × Sector)
unfolding find_if
sort_by_number [] = []
sort_by_number (p ∷ ps) =
    let sorted = sort_by_number ps in
    insert_at (end_index sorted (find_if (λ r. leb p.1.header.sector r.1.header.sector) 0 sorted)) p
      sorted

unfoldable pub write_back : List (ℕ × Sector) → List Sector → List Sector → List Sector
write_back [] new ss = ss
write_back (p ∷ ps) [] ss = ss
write_back (p ∷ ps) (s ∷ new) ss = write_back ps new (set ss p.0 s)

abbrev pub sectors_of : List (ℕ × Sector) → List Sector
sectors_of [] = []
sectors_of (p ∷ ps) = p.1 ∷ sectors_of ps

unfoldable pub populate : Options → Bool → Track → List ℕ → Track × List ℕ
unfolding populate_sectors sort_by_number indexed write_back
populate o sign t input =
    let order = sort_by_number (indexed 0 t.sectors) in
    let (new, left) = populate_sectors o sign (sectors_of order) input in
    (record t { sectors = write_back order new t.sectors }, left)

-- The data of the sectors one after the other.
abbrev pub content : List Sector → List ℕ
content [] = []
content (s ∷ ss) = first_copy s.data_copies ++ content ss

-- Sectors with one copy of their full size.
abbrev pub AllFull : List Sector → Type 0
AllFull [] = Unit
AllFull (s ∷ ss) = ((d : List ℕ) × (s.data_copies ≡ d ∷ []) × (length d ≡ size s)) × AllFull ss
