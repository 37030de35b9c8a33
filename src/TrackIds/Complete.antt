-- ===== src/TrackIds/Complete.antt =====
-- The rest of src/TrackSectorIds.cpp: an order of sectors of which some are known is completed to one
-- that GetIds gives. An unknown id, which is negative in the source, is `none`. The cache of orders
-- does not show.
pub mod Agrees
pub mod Rotate
pub mod Whole
use samdisk_plus.Prelude.{
  ℕ, zero, suc, ◌+◌, ◌-◌, ◌==◌, ltb, leb, max, Bool, true, false, not, ◌&&◌, ◌||◌, List, [], ◌∷◌,
  ◌++◌, if◌then◌else◌, length, get_or, take, drop, map, Option, none, some,
}
use samdisk_plus.Prelude.Bind.{◌>>=◌}
use samdisk_plus.Prelude.Int.{pos, sub_ℕ}
use samdisk_plus.Header.{CylHead}
use samdisk_plus.Ibm.Cohere.{modulo}
use samdisk_plus.Interval.{Interval, ConstructMode, new_interval, ringed_intervals_intersect}
use samdisk_plus.TrackIds.{get_ids}

-- `GetTrackSectorIds`
unfoldable pub get_track_sector_ids : ℕ → ℕ → List ℕ
unfolding get_ids
get_track_sector_ids sectors interleave =
    elim (get_ids (record { cyl = 0; head = 0 }) sectors interleave (pos 0) (pos 0) 1) [
      | none ↦ []
      | some ids ↦ ids
    ]

abbrev next_index : Option ℕ → Option ℕ
next_index none = none
next_index (some i) = some (suc i)

-- Where an id is.
unfoldable pub index_of : ℕ → List ℕ → Option ℕ
index_of id [] = none
index_of id (x ∷ xs) = let rest = index_of id xs in if x == id then some 0 else next_index rest

-- The other known ids, from the index on, are where the offset puts them.
unfoldable pub rest_matches : List ℕ → ℕ → ℕ → List (Option ℕ) → Bool
unfolding modulo
rest_matches ids offset i [] = true
rest_matches ids offset i (none ∷ known) = rest_matches ids offset (suc i) known
rest_matches ids offset i (some id ∷ known) =
    (id == get_or ids (modulo (sub_ℕ i offset) (length ids)) 0)
    && rest_matches ids offset (suc i) known

abbrev matched : ℕ → Bool → Option ℕ
matched offset ok = if ok then some offset else none

-- The offset by which the known ids, from the index on, are shifted; `none` is the source's -1.
unfoldable pub match_sector_ids : List ℕ → ℕ → List (Option ℕ) → Option ℕ
unfolding index_of rest_matches modulo
match_sector_ids ids i [] = none
match_sector_ids ids i (none ∷ known) = match_sector_ids ids (suc i) known
match_sector_ids ids i (some id ∷ known) = index_of id ids >>= λ j.
    matched (modulo (sub_ℕ i j) (length ids))
      (rest_matches ids (modulo (sub_ℕ i j) (length ids)) (suc i) known)

unfoldable pub extendable_to : List ℕ → List ℕ → Bool
extendable_to [] ys = true
extendable_to (x ∷ xs) [] = false
extendable_to (x ∷ xs) (y ∷ ys) = (x == y) && extendable_to xs ys

-- `std::rotate` from the end.
unfoldable pub rotate_right : ℕ → List ℕ → List ℕ
rotate_right offset ids = drop (length ids - offset) ids ++ take (length ids - offset) ids

-- One order is tried; `none` is an ambiguous result.
unfoldable pub try_ids : List (Option ℕ) → List ℕ → List ℕ → Option (List ℕ)
unfolding match_sector_ids extendable_to rotate_right
try_ids incomplete ids result = elim (match_sector_ids ids 0 incomplete) [
  | none ↦ some result
  | some offset ↦
      if not (length result == 0) && not (extendable_to result ids)
      then none
      else some (rotate_right offset ids)
]

unfoldable pub try_interleaves : List (Option ℕ) → ℕ → ℕ → ℕ → List ℕ → Option (List ℕ)
unfolding try_ids get_track_sector_ids
try_interleaves incomplete sectors zero interleave result = some result
try_interleaves incomplete sectors (suc left) interleave result =
    try_ids incomplete (get_track_sector_ids sectors interleave) result
    >>= try_interleaves incomplete sectors left (suc interleave)

unfoldable pub try_sectors : List (Option ℕ) → ℕ → ℕ → List ℕ → Option (List ℕ)
unfolding try_interleaves
try_sectors incomplete zero sectors result = some result
try_sectors incomplete (suc left) sectors result =
    try_interleaves incomplete sectors (sectors - 1) 1 result
    >>= try_sectors incomplete left (suc sectors)

-- The greatest known id, and one more than the last known index.
unfoldable pub max_id : List (Option ℕ) → Option ℕ
max_id [] = none
max_id (none ∷ known) = max_id known
max_id (some id ∷ known) = elim (max_id known) [ none ↦ some id | some m ↦ some (max id m) ]

unfoldable pub known_length : ℕ → List (Option ℕ) → ℕ
known_length i [] = 0
known_length i (none ∷ known) = known_length (suc i) known
known_length i (some id ∷ known) = max (suc i) (known_length (suc i) known)

-- An empty list is the result where there is none.
abbrev pub or_nothing : Option (List ℕ) → List ℕ
or_nothing none = []
or_nothing (some ids) = ids

unfoldable pub complete : List (Option ℕ) → ℕ → Option ℕ → List ℕ
unfolding try_sectors known_length
complete incomplete sectors_min none = []
complete incomplete sectors_min (some m) =
    let least = if sectors_min == 0 then max (known_length 0 incomplete) m else sectors_min in
    or_nothing (try_sectors incomplete (length incomplete + 1 - least) least [])

unfoldable pub find_complete_track_sector_ids_for : List (Option ℕ) → ℕ → List ℕ
unfolding complete max_id
find_complete_track_sector_ids_for incomplete sectors_min =
    complete incomplete sectors_min (max_id incomplete)

pub record IdAndOffset : Type 0 where
  pub id : Option ℕ
  pub offset_interval : Interval

unfoldable pub get_sector_ids : List IdAndOffset → List (Option ℕ)
get_sector_ids pairs = map (λ p. p.id) pairs

-- A pair without an id takes it from the order, from the index on, or is dropped behind its end.
unfoldable pub replace_missing_sector_ids_from : List ℕ → List IdAndOffset → List IdAndOffset
replace_missing_sector_ids_from ids [] = []
replace_missing_sector_ids_from ids (p ∷ ps) =
    let rest = replace_missing_sector_ids_from (drop 1 ids) ps in
    elim p.id [
      | some id ↦ p ∷ rest
      | none ↦ if length ids == 0 then rest else record p { id = some (get_or ids 0 0) } ∷ rest
    ]

unfoldable pub replace_missing_ids_by_finding_track_sector_ids :
    ℕ → List IdAndOffset → List IdAndOffset × Bool
unfolding find_complete_track_sector_ids_for get_sector_ids replace_missing_sector_ids_from
replace_missing_ids_by_finding_track_sector_ids sectors_min pairs =
    let ids = find_complete_track_sector_ids_for (get_sector_ids pairs) sectors_min in
    if length ids == 0 then (pairs, false) else (replace_missing_sector_ids_from ids pairs, true)

-- The only pair whose interval holds the offset.
unfoldable pub find_sector_id_by_offset : ℕ → Option ℕ → ℕ → List IdAndOffset → Option ℕ
unfolding new_interval ringed_intervals_intersect
find_sector_id_by_offset offset found i [] = found
find_sector_id_by_offset offset found i (p ∷ ps) =
    let again = find_sector_id_by_offset offset found (suc i) ps in
    let first = find_sector_id_by_offset offset (some i) (suc i) ps in
    if ringed_intervals_intersect (new_interval offset 0 ConstructMode.start_and_length)
      p.offset_interval
    then elim found [ none ↦ first | some j ↦ none ]
    else again
