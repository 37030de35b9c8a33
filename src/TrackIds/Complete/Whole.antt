-- ===== src/TrackIds/Complete/Whole.antt =====
-- The search of src/TrackSectorIds.cpp for a complete order of sectors.
use samdisk_plus.Prelude.{
  ℕ, zero, suc, ◌+◌, ◌-◌, ◌==◌, ◌≡◌, refl, not, ◌&&◌, List, [], if◌then◌else◌, length, max, Option,
  none, some, if_both, inl, inr, ◌⊎◌,
}
use samdisk_plus.Prelude.Bind.{◌>>=◌}
use samdisk_plus.TrackIds.Complete.{
  match_sector_ids, extendable_to, rotate_right, get_track_sector_ids, try_ids, try_interleaves,
  try_sectors, max_id, known_length, or_nothing, complete, find_complete_track_sector_ids_for,
}
use samdisk_plus.TrackIds.Complete.Agrees.{Agrees, AgreesIfAny, match-AgreesIfAny}
use samdisk_plus.TrackIds.Complete.Rotate.{rotate_right-Agrees}

-- No result, or one that has every known id in its place around the track.
abbrev pub Completes : List (Option ℕ) → List ℕ → Type 0
Completes incomplete ids = (ids ≡ []) ⊎ Agrees ids 0 0 incomplete

abbrev CompletesIfAny : List (Option ℕ) → Option (List ℕ) → Type 0
CompletesIfAny incomplete none = Unit
CompletesIfAny incomplete (some ids) = Completes incomplete ids

module _ (incomplete : List (Option ℕ)) where
  try_ids-Completes :
      (ids result : List ℕ)
      → Completes incomplete result
      → CompletesIfAny incomplete (try_ids incomplete ids result)
  unfolding try_ids
  try_ids-Completes ids result h =
      found (match_sector_ids ids 0 incomplete) (match-AgreesIfAny ids 0 incomplete)
    where
      found :
          (r : Option ℕ)
          → AgreesIfAny ids 0 incomplete r
          → CompletesIfAny incomplete (elim r [
            | none ↦ some result
            | some offset ↦
                if not (length result == 0) && not (extendable_to result ids)
                then none
                else some (rotate_right offset ids)
          ])
      found none a = h
      found (some o) a =
          if_both (CompletesIfAny incomplete)
            (not (length result == 0) && not (extendable_to result ids)) none _ (λ _. tt)
            (λ _. inr (rotate_right-Agrees ids o 0 incomplete a.0 a.1))

  -- A step after which the search goes on.
  then-Completes :
      (r : Option (List ℕ)) (next : List ℕ → Option (List ℕ))
      → CompletesIfAny incomplete r
      → ((ids : List ℕ) → Completes incomplete ids → CompletesIfAny incomplete (next ids))
      → CompletesIfAny incomplete (r >>= next)
  then-Completes none next h f = tt
  then-Completes (some ids) next h f = f ids h

  try_interleaves-Completes :
      (sectors left interleave : ℕ) (result : List ℕ)
      → Completes incomplete result
      → CompletesIfAny incomplete (try_interleaves incomplete sectors left interleave result)
  unfolding try_interleaves
  try_interleaves-Completes sectors zero interleave result h = h
  try_interleaves-Completes sectors (suc left) interleave result h =
      then-Completes _ _ (try_ids-Completes (get_track_sector_ids sectors interleave) result h)
        (λ ids. try_interleaves-Completes sectors left (suc interleave) ids)

  try_sectors-Completes :
      (left sectors : ℕ) (result : List ℕ)
      → Completes incomplete result
      → CompletesIfAny incomplete (try_sectors incomplete left sectors result)
  unfolding try_sectors
  try_sectors-Completes zero sectors result h = h
  try_sectors-Completes (suc left) sectors result h =
      then-Completes _ _ (try_interleaves-Completes sectors (sectors - 1) 1 result h)
        (λ ids. try_sectors-Completes left (suc sectors) ids)

or_nothing-Completes :
    (incomplete : List (Option ℕ)) (r : Option (List ℕ))
    → CompletesIfAny incomplete r
    → Completes incomplete (or_nothing r)
or_nothing-Completes incomplete none h = inl refl
or_nothing-Completes incomplete (some ids) h = h

complete-Completes :
    (incomplete : List (Option ℕ)) (sectors_min : ℕ) (m : Option ℕ)
    → Completes incomplete (complete incomplete sectors_min m)
unfolding complete
complete-Completes incomplete sectors_min none = inl refl
complete-Completes incomplete sectors_min (some m) =
    let least : ℕ = if sectors_min == 0 then max (known_length 0 incomplete) m else sectors_min in
    let left = length incomplete + 1 - least in
    or_nothing-Completes incomplete (try_sectors incomplete left least [])
      (try_sectors-Completes incomplete left least [] (inl refl))

-- The order that is found for known ids is empty, or has every known id at its index, counted around
-- the track.
pub find_complete-Completes :
    (incomplete : List (Option ℕ)) (sectors_min : ℕ)
    → Completes incomplete (find_complete_track_sector_ids_for incomplete sectors_min)
unfolding find_complete_track_sector_ids_for
find_complete-Completes incomplete sectors_min =
    complete-Completes incomplete sectors_min (max_id incomplete)
