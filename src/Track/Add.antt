-- ===== src/Track/Add.antt =====
-- How src/Track.cpp adds sectors to a track and merges them. The exception for mixed data rates is
-- `none`.
use samdisk_plus.Prelude.{
  ℕ, zero, suc, ◌==◌, ltb, max, Bool, true, false, not, ◌&&◌, List, [], ◌∷◌, ◌++◌, if◌then◌else◌,
  length, get_elem?, set, replicate, Option, none, some,
}
use samdisk_plus.Prelude.Bind.{◌>>=◌}
use samdisk_plus.Header.{Header, CylHead}
use samdisk_plus.Ibm.{ibm_dam}
use samdisk_plus.Sector.{Options, Sector, new_sector, same_datarate}
use samdisk_plus.Sector.Edit.{limit_copies}
use samdisk_plus.Sector.Match.{
  is_sector_tolerated_same, has_normal_header_and_misread_from_neighbor_cyl,
}
use samdisk_plus.Sector.Merge.{Merge, merge, add}
use samdisk_plus.Format.{Format, get_format_ids, sector_size}
use samdisk_plus.Track.{
  Track, find_if, filter, get_data_rate, is_empty, clear, is_8k_track, data_overlap,
}

pub data AddResult : Type 0 where
  unchanged append insert merged : AddResult

-- The result of adding: the track, what happened, and the index of the sector.
pub record AddedSector : Type 0 where
  pub track : Track
  pub result : AddResult
  pub affected_sector_index : ℕ

-- `insert` of a list, at the end from its length on.
abbrev pub insert_at {ℓ} : {A : Type ℓ} → ℕ → A → List A → List A
insert_at zero x ys = x ∷ ys
insert_at (suc i) x [] = x ∷ []
insert_at (suc i) x (y ∷ ys) = y ∷ insert_at i x ys

abbrev pub end_index {ℓ} : {A : Type ℓ} → List A → Option ℕ → ℕ
end_index xs none = length xs
end_index xs (some i) = i

-- `Track::insert`
unfoldable pub insert_sector : ℕ → Sector → Track → Option Track
unfolding get_data_rate
insert_sector i sector t =
    if not (is_empty t) && not (same_datarate (get_data_rate t) sector.datarate)
    then none
    else some (record t { sectors = insert_at i sector t.sectors })

-- Where a sector is added: at the end without a position, into the sector that it is, or in order.
pub data Place : Type 0 where
  at_end : Place
  before into : ℕ → Place

unfoldable pub place : Options → Sector → Track → Place
unfolding find_if
place o sector t =
    let ordered =
      Place.before (end_index t.sectors (find_if (λ s. ltb sector.offset s.offset) 0 t.sectors)) in
    let same =
      find_if
        (λ s. is_sector_tolerated_same s.header s.offset o.byte_tolerance_of_time t.tracklen sector)
        0 t.sectors in
    let found : Place = elim same [ none ↦ ordered | some i ↦ Place.into i ] in
    if sector.offset == 0 then Place.at_end else found

unfoldable pub is_unchanged : Merge → Bool
is_unchanged Merge.unchanged = true
is_unchanged Merge.matched = true
is_unchanged Merge.new_data_over_limit = true
is_unchanged _ = false

module _ (o : Options) (combined : ℕ → ℕ → ℕ → ℕ → ℕ) where
  -- The merged sector, whose copies are limited when it overlaps the next sector.
  unfoldable pub merge_at : ℕ → Sector → Sector → Track → AddedSector
  unfolding merge is_unchanged data_overlap is_8k_track limit_copies
  merge_at i sector old t =
      let (s, r) = merge o combined sector old in
      let t' = record t { sectors = set t.sectors i s } in
      let limited = record t { sectors = set t.sectors i (limit_copies 1 s) } in
      if is_unchanged r
      then record { track = t'; result = AddResult.unchanged; affected_sector_index = i }
      else record {
        track = if data_overlap i s t' && not (is_8k_track t') then limited else t';
        result = AddResult.merged;
        affected_sector_index = i;
      }

  -- `Track::merge`; an index out of range changes nothing.
  unfoldable pub merge_sector : ℕ → Sector → Track → Option AddedSector
  unfolding merge_at get_data_rate
  merge_sector i sector t =
      if not (same_datarate (get_data_rate t) sector.datarate)
      then none
      else (get_elem? t.sectors i >>= λ old. some (merge_at i sector old t))

  unfoldable pub add_at : Sector → Track → Place → Option AddedSector
  unfolding merge_sector
  add_at sector t Place.at_end = some (record {
    track = record t { sectors = t.sectors ++ sector ∷ [] };
    result = AddResult.append;
    affected_sector_index = length t.sectors;
  })
  add_at sector t (Place.before i) = some (record {
    track = record t { sectors = insert_at i sector t.sectors };
    result = AddResult.insert;
    affected_sector_index = i;
  })
  add_at sector t (Place.into i) = merge_sector i sector t

  -- `Track::add` of a sector. With `dryrun` the track is not changed.
  unfoldable pub add_sector : Sector → Track → Option AddedSector
  unfolding add_at place get_data_rate
  add_sector sector t =
      if not (is_empty t) && not (same_datarate (get_data_rate t) sector.datarate)
      then none
      else add_at sector t (place o sector t)

  unfoldable pub add_sector_dryrun : Sector → Track → Option (AddResult × ℕ)
  unfolding place get_data_rate
  add_sector_dryrun sector t =
      let outcome : Place → AddResult × ℕ = λ p. elim p [
        | Place.at_end ↦ (AddResult.append, length t.sectors)
        | Place.before i ↦ (AddResult.insert, i)
        | Place.into i ↦ (AddResult.merged, i)
      ] in
      if not (is_empty t) && not (same_datarate (get_data_rate t) sector.datarate)
      then none
      else some (outcome (place o sector t))

  -- `Track::add` of sectors with a filter.
  unfoldable pub add_sectors : (Sector → Bool) → List Sector → Track → Option Track
  unfolding add_sector
  add_sectors keep [] t = some t
  add_sectors keep (s ∷ ss) t =
      (if keep s then (add_sector s t >>= λ a. some a.track) else some t) >>= add_sectors keep ss

  -- `Track::add` of a track: the longest length and time are kept.
  unfoldable pub add_track : Track → Track → Option Track
  unfolding add_sectors
  add_track other t =
      add_sectors (λ _. true) other.sectors
        (record t {
          tracklen = max t.tracklen other.tracklen;
          tracktime = max t.tracktime other.tracktime;
        })

  -- A sector of `Track::format`, filled.
  unfoldable pub format_sector : CylHead → Format → ℕ → Sector
  unfolding add new_sector sector_size
  format_sector at fmt id =
      let header : Header = record {
        cyl = at.cyl;
        head = if at.head == 0 then fmt.head0 else fmt.head1;
        sector = id;
        size = fmt.size;
      } in
      (add o combined (replicate (sector_size fmt) fmt.fill) false ibm_dam 1 1 true true
        (new_sector fmt.datarate fmt.encoding header fmt.gap3)).0

  unfoldable pub format_ids : CylHead → Format → List ℕ → Track → Option Track
  unfolding format_sector add_sector
  format_ids at fmt [] t = some t
  format_ids at fmt (id ∷ ids) t =
      (add_sector (format_sector at fmt id) t >>= λ a. some a.track) >>= format_ids at fmt ids

  -- `Track::format`; `none` also when the ids do not come up (see `get_ids`).
  unfoldable pub format : CylHead → Format → Track → Option Track
  unfolding format_ids get_format_ids clear
  format at fmt t = get_format_ids at fmt >>= λ ids. format_ids at fmt ids (clear t)

unfoldable pub drop_sectors_from_neighbor_cyls : Options → CylHead → ℕ → Track → Track
unfolding filter
drop_sectors_from_neighbor_cyls o at track_sup t =
    if o.normal_disk
    then record t {
      sectors =
          filter (λ s. not (has_normal_header_and_misread_from_neighbor_cyl at track_sup s))
            t.sectors;
    }
    else t
