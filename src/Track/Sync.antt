-- ===== src/Track/Sync.antt =====
-- `Track::syncAndDemultiThisTrackToOffset` of src/Track.cpp: the offsets are moved by a sync offset
-- around the track, and those of several revolutions are brought into one.
pub mod Single
use samdisk_plus.Prelude.{
  ℕ, zero, suc, ◌+◌, ◌-◌, ◌*◌, ◌/◌, ◌==◌, ltb, leb, Bool, true, false, not, ◌&&◌, ◌||◌, List, [],
  ◌∷◌, ◌++◌, if◌then◌else◌, length, get_or, Option, none, some,
}
use samdisk_plus.Prelude.Bind.{◌>>=◌}
use samdisk_plus.Prelude.Int.{ℤ, pos, negsuc, ◌-ℤ◌, ltb_ℤ, neg_ℕ, sub_ℕ}
use samdisk_plus.Ibm.Cohere.{modulo, modulodiv}
use samdisk_plus.Sector.{Options, Sector}
use samdisk_plus.Sector.Edit.{make_offset_not0}
use samdisk_plus.Track.{Track, find_if}
use samdisk_plus.Track.Add.{insert_at, end_index, add_sector}
use samdisk_plus.Track.Offsets.{offset_almost_0}

-- `no_sync` is `None`, which limits as little as `unlimited`.
pub data SyncMode : Type 0 where
  no_sync revolution_limited unlimited : SyncMode

-- The offset of the first and of the last sector; 0 without sectors.
abbrev first_offset : List Sector → ℕ
first_offset [] = 0
first_offset (s ∷ ss) = s.offset

abbrev last_offset : List Sector → ℕ
last_offset [] = 0
last_offset (s ∷ []) = s.offset
last_offset (s ∷ r ∷ ss) = last_offset (r ∷ ss)

-- The limited sync offset keeps the first and the last sector in their revolutions; `none` is the
-- exception for a track that has no room at either end.
unfoldable limit_sync : ℤ → ℕ → ℕ → ℕ → Option ℤ
unfolding modulodiv
limit_sync sync len first last =
    let first_leaves = ltb_ℤ (modulodiv (pos first -ℤ sync) len) (modulodiv (pos first) len) in
    let adjusted = if first_leaves then sub_ℕ first offset_almost_0 else sync in
    let last_leaves = ltb_ℤ (modulodiv (pos last) len) (modulodiv (pos last -ℤ sync) len) in
    if last_leaves
    then (if ltb_ℤ (pos 0) adjusted then none else some (pos 0 -ℤ (pos len -ℤ pos 1 -ℤ pos last)))
    else some adjusted

abbrev is_zero : ℤ → Bool
is_zero (pos n) = n == 0
is_zero (negsuc n) = false

unfoldable pub adjusted_sync : ℤ → SyncMode → ℕ → List Sector → Option ℤ
unfolding limit_sync
adjusted_sync sync SyncMode.revolution_limited len ss =
    if is_zero sync then some sync else limit_sync sync len (first_offset ss) (last_offset ss)
adjusted_sync sync _ len ss = some sync

-- A sector on its new place, of which 0 is none.
unfoldable pub synced : ℤ → Bool → ℕ → Sector → Sector
unfolding modulo make_offset_not0
synced adjusted demulti len s =
    (make_offset_not0 (record s {
      revolution = if demulti then s.offset / len else s.revolution;
      offset = modulo (pos s.offset -ℤ adjusted) len;
    })).0

-- `std::sort` by the offset.
unfoldable pub sort_by_offset : List Sector → List Sector
unfolding find_if
sort_by_offset [] = []
sort_by_offset (s ∷ ss) =
    let sorted = sort_by_offset ss in
    insert_at (end_index sorted (find_if (λ r. ltb s.offset r.offset) 0 sorted)) s sorted

-- With `demulti` the track gets the length of one revolution, and the same share of its time.
unfoldable pub demultied : Bool → ℕ → Track → Track
demultied demulti len t =
    if demulti
    then record t {
      tracklen = len;
      tracktime = (2 * t.tracktime * len + t.tracklen) / (2 * t.tracklen);
    }
    else t

module _ (o : Options) (combined : ℕ → ℕ → ℕ → ℕ → ℕ) where
  unfoldable pub add_synced : ℤ → Bool → List Sector → Track → Option Track
  unfolding add_sector synced
  add_synced adjusted demulti [] t = some t
  add_synced adjusted demulti (s ∷ ss) t =
      add_sector o combined (synced adjusted demulti t.tracklen s) t >>= λ a.
      add_synced adjusted demulti ss a.track

  unfoldable pub sync_and_demulti_this_track_to_offset :
      ℤ → Bool → SyncMode → ℕ → Track → Option Track
  unfolding add_synced demultied adjusted_sync sort_by_offset
  sync_and_demulti_this_track_to_offset sync demulti mode len_single t =
      let single = demultied demulti len_single t in
      adjusted_sync sync mode single.tracklen t.sectors >>= λ adjusted.
      add_synced adjusted demulti t.sectors (record single { sectors = [] }) >>= λ added.
      some (record added { sectors = sort_by_offset added.sectors })
