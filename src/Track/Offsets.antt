-- ===== src/Track/Offsets.antt =====
-- The offsets of a track's sectors in src/Track.cpp: moving one, and keeping all away from 0.
pub mod Away
use samdisk_plus.Prelude.{
  ℕ, zero, suc, ◌+◌, ◌-◌, ◌==◌, ltb, leb, Bool, true, false, not, ◌&&◌, ◌||◌, List, [], ◌∷◌, ◌++◌,
  if◌then◌else◌, length, get_elem?, take, drop, map, Option, none, some,
}
use samdisk_plus.Sector.{Options, Sector}
use samdisk_plus.Sector.Edit.{make_offset_not0}
use samdisk_plus.Track.{Track}
use samdisk_plus.Track.Add.{insert_at}

abbrev pub offset_almost_0 : ℕ
offset_almost_0 = 16

-- The sectors up to the first one that is not below the limit move by `shift`.
unfoldable pub shift_almost_0 : ℕ → List Sector → List Sector
shift_almost_0 shift [] = []
shift_almost_0 shift (s ∷ ss) =
    let rest = shift_almost_0 shift ss in
    if ltb s.offset offset_almost_0 then record s { offset = s.offset + shift } ∷ rest else s ∷ ss

unfoldable pub ensure_not_almost_0_offset : Track → Track
unfolding shift_almost_0
ensure_not_almost_0_offset t = record t { sectors = shifted t.sectors }
  where
    shifted : List Sector → List Sector
    shifted [] = []
    shifted (s ∷ ss) = shift_almost_0 (offset_almost_0 - s.offset) (s ∷ ss)

unfoldable pub make_offsets_not0 : List Sector → List Sector × Bool
unfolding make_offset_not0
make_offsets_not0 [] = ([], false)
make_offsets_not0 (s ∷ ss) =
    let (s', was0) = make_offset_not0 s in
    let (ss', were0) = make_offsets_not0 ss in (s' ∷ ss', was0 || were0)

-- One more than the index of the last sector whose offset is not greater.
unfoldable pub position_down : ℕ → List Sector → ℕ
position_down offset [] = 0
position_down offset (s ∷ ss) =
    let rest = position_down offset ss in if (rest == 0) && ltb offset s.offset then 0 else suc rest

-- How many sectors at the front have a smaller offset.
unfoldable pub position_up : ℕ → List Sector → ℕ
position_up offset [] = 0
position_up offset (s ∷ ss) =
    let rest = position_up offset ss in if ltb s.offset offset then suc rest else 0

-- The sector at the index moves over its neighbours to its new place, which is the second result.
unfoldable pub move_sector : ℕ → ℕ → Sector → List Sector → List Sector × ℕ
unfolding position_down position_up
move_sector index offset s ss =
    let moved : Sector = record s { offset = offset } in
    let before = take index ss in
    let after = drop (suc index) ss in
    if offset == s.offset
    then (ss, index)
    else (if ltb offset s.offset
        then (
          insert_at (position_down offset before) moved before ++ after,
          position_down offset before,
        )
        else (
          before ++ insert_at (position_up offset after) moved after,
          index + position_up offset after,
        ))

-- `Track::SetSectorOffsetAt`; an index out of range, which the source asserts not to be, is ignored.
unfoldable pub set_sector_offset_at : ℕ → ℕ → List Sector → List Sector × ℕ
unfolding move_sector
set_sector_offset_at index offset ss = elim (get_elem? ss index) [
  | none ↦ (ss, index)
  | some s ↦ move_sector index offset s ss
]
