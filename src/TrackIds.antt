-- ===== src/TrackIds.antt =====
-- include/TrackSectorIds.h and src/TrackSectorIds.cpp: the order of the sector ids of a track, by
-- `GetIds`; the search for an order is in TrackIds.Complete.
pub mod Search
pub mod Once
pub mod Complete
use samdisk_plus.Prelude.{
  ℕ, zero, suc, ◌+◌, ◌*◌, ◌%◌, ◌==◌, Bool, true, false, if◌then◌else◌, List, [], ◌∷◌, set, get_or,
  replicate, Option, none, some,
}
use samdisk_plus.Prelude.Bind.{◌>>=◌}
use samdisk_plus.Prelude.Int.{ℤ, pos, ◌+ℤ◌, ◌*ℤ◌}
use samdisk_plus.Ibm.Cohere.{modulo}
use samdisk_plus.Header.{CylHead}

-- The loop to a free slot, for at most `fuel` slots that are used.
unfoldable pub find_free : ℕ → List Bool → ℕ → ℕ → Option ℕ
find_free zero used sectors index = none
find_free (suc fuel) used sectors index =
    let rest = find_free fuel used sectors ((index + 1) % sectors) in
    if get_or used index true then rest else some index

pub record Slots : Type 0 where
  pub ids : List ℕ
  pub used : List Bool

-- The index at which sector `s` is expected.
unfoldable pub expected_index : CylHead → ℕ → ℕ → ℤ → ℤ → ℕ → ℕ
expected_index at sectors interleave skew offset s =
    modulo (offset +ℤ pos (s * interleave) +ℤ skew *ℤ pos at.cyl) sectors

-- The loop over the sectors, with `left` of them to go from `s` on.
unfoldable pub place_ids : (ℕ → ℕ) → ℕ → ℕ → ℕ → ℕ → Slots → Option Slots
unfolding find_free
place_ids expected sectors base zero s slots = some slots
place_ids expected sectors base (suc left) s slots =
    find_free sectors slots.used sectors (expected s) >>= (λ index.
      place_ids expected sectors base left (suc s)
        (record { ids = set slots.ids index (base + s); used = set slots.used index true }))

-- `none` is a search for a free slot that finds none.
unfoldable pub get_ids : CylHead → ℕ → ℕ → ℤ → ℤ → ℕ → Option (List ℕ)
unfolding place_ids expected_index
get_ids at sectors interleave skew offset base =
    place_ids (expected_index at sectors interleave skew offset) sectors base sectors 0
      (record { ids = replicate sectors 0; used = replicate sectors false })
    >>= (λ slots. some slots.ids)
