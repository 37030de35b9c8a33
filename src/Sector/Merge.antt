-- ===== src/Sector/Merge.antt =====
-- How src/Sector.cpp adds a copy of the data to a sector, and merges one sector into another.
use samdisk_plus.Prelude.{
  ℕ, suc, ◌+◌, ◌==◌, ltb, leb, min, Bool, false, not, ◌&&◌, ◌||◌, List, [], ◌∷◌, ◌++◌,
  if◌then◌else◌, length, get_or, set, take, drop, map, Option, none, some,
}
use samdisk_plus.Ibm.{ibm_dam, ibm_dam_deleted}
use samdisk_plus.Sector.{Options, Sector, copies, has_data, is_8k_sector, first_copy}
use samdisk_plus.Sector.Checksum.{has_checksum}
use samdisk_plus.Sector.Edit.{resize, remove_data, erase_data, are_copies_full, limit_copies}
use samdisk_plus.Sector.Match.{equal_bytes, has_good_data}

pub data Merge : Type 0 where
  unchanged matched improved new_data new_data_over_limit : Merge

-- What `add_original` leaves: the sector, its result, the index of a matched copy (the source's -1
-- is 0 here, and is not read) and the read stats of a copy that is replaced.
pub record Added : Type 0 where
  pub sector : Sector
  pub result : Merge
  pub affected_data_index : ℕ
  pub improved_data_read_stats : ℕ

abbrev pub added : Sector → Merge → Added
added s result = record {
  sector = s;
  result = result;
  affected_data_index = 0;
  improved_data_read_stats = 0;
}

-- Good data replace bad ones.
unfoldable pub drop_bad : Bool → Sector → Sector
unfolding remove_data
drop_bad bad_crc s = if not bad_crc && s.bad_data_crc then remove_data s else s

-- An 8K sector with a known checksum replaces what there is; `none`: what there is has one.
unfoldable pub settle_8k : List ℕ → Sector → Option Sector
unfolding remove_data
settle_8k bytes s =
    if is_8k_sector s
    then (if has_checksum bytes
        then some (remove_data s)
        else (if copies s == 1 && has_checksum (first_copy s.data_copies) then none else some s))
    else some s

-- The outcome of the loop over the copies.
pub data Comparison : Type 0 where
  differs : Comparison
  same_as replaces : ℕ → Comparison

-- Copies of equal content: the shorter or the longer one is kept.
unfoldable pub keep_one : ℕ → ℕ → ℕ → ℕ → Comparison
keep_one i old_size new_size complete_size =
    if old_size == new_size
    then same_as i
    else (if ltb new_size old_size
        then (if ltb new_size complete_size then same_as i else replaces i)
        else (if leb complete_size old_size then same_as i else replaces i))

unfoldable pub compare_copies : ℕ → List ℕ → ℕ → List (List ℕ) → Comparison
unfolding keep_one
compare_copies complete_size bytes i [] = differs
compare_copies complete_size bytes i (d ∷ ds) =
    let common_size = min (min (length d) (length bytes)) complete_size in
    let rest = compare_copies complete_size bytes (suc i) ds in
    if equal_bytes (take common_size d) (take common_size bytes)
    then keep_one i (length d) (length bytes) complete_size
    else rest

-- Another copy is refused for a less favoured mark, or as a second good one.
unfoldable pub refuses_copy : Options → ℕ → Sector → Bool
refuses_copy o new_dam s =
    has_data s
    && ((not (s.dam == new_dam)
          && (s.dam == ibm_dam || (s.dam == ibm_dam_deleted && not (new_dam == ibm_dam))))
        || (not s.bad_data_crc && not o.paranoia))

-- All copies are cut to the shorter of the new one and the first.
unfoldable pub insert_copy : Options → List ℕ → Sector → Merge → Sector × Merge
unfolding limit_copies
insert_copy o bytes s result =
    let new_size =
      if has_data s then min (length bytes) (length (first_copy s.data_copies)) else length bytes in
    let cut = record s { data_copies = map (λ d. resize 0 new_size d) s.data_copies } in
    if are_copies_full o.maxcopies cut
    then (limit_copies o.maxcopies cut, new_data_over_limit)
    else (record cut { data_copies = cut.data_copies ++ resize 0 new_size bytes ∷ [] }, result)

-- The end of `add_original`.
unfoldable pub add_copy : Options → List ℕ → Bool → ℕ → ℕ → Sector → Merge → Added
unfolding refuses_copy insert_copy
add_copy o bytes bad_crc new_dam improved_stats s result =
    let (s', result') = insert_copy o bytes s result in
    let done =
      if refuses_copy o new_dam s
      then added s unchanged
      else added (record s' { bad_data_crc = bad_crc; dam = new_dam }) result' in
    record done { improved_data_read_stats = improved_stats }

unfoldable pub add_compared : Options → List ℕ → Bool → ℕ → Sector → Comparison → Added
unfolding add_copy erase_data
add_compared o bytes bad_crc new_dam s differs = add_copy o bytes bad_crc new_dam 0 s new_data
add_compared o bytes bad_crc new_dam s (same_as i) = record (added s matched) {
  affected_data_index = i;
}
add_compared o bytes bad_crc new_dam s (replaces i) =
    add_copy o bytes bad_crc new_dam (get_or s.data_read_stats i 0) (erase_data i s) improved

unfoldable pub add_settled : Options → List ℕ → Bool → ℕ → Sector → Option Sector → Added
unfolding compare_copies add_compared
add_settled o bytes bad_crc new_dam s none = added s unchanged
add_settled o bytes bad_crc new_dam s (some s') =
    add_compared o bytes bad_crc new_dam s'
      (compare_copies (if is_8k_sector s' then 0x1800 else length bytes) bytes 0 s'.data_copies)

unfoldable pub add_original : Options → List ℕ → Bool → ℕ → Sector → Added
unfolding add_settled settle_8k drop_bad
add_original o bytes bad_crc new_dam s =
    if s.bad_id_crc || (bad_crc && has_good_data false false s)
    then added s unchanged
    else add_settled o bytes bad_crc new_dam (drop_bad bad_crc s)
        (settle_8k bytes (drop_bad bad_crc s))

module _ (o : Options) (combined : ℕ → ℕ → ℕ → ℕ → ℕ) where
  -- The read count of a copy that is read again: the sum, or for images `combined`, which is the
  -- combination of the two read rates in floating point. It takes each count with its attempts.
  unfoldable pub combine_stats : Bool → ℕ → ℕ → ℕ → ℕ → ℕ
  combine_stats counter_mode old_count attempts new_count new_attempts =
      if counter_mode
      then old_count + new_count
      else combined old_count attempts new_count new_attempts

  unfoldable pub process_merge_result : Merge → ℕ → ℕ → Bool → ℕ → ℕ → Sector → Sector
  unfolding combine_stats
  process_merge_result unchanged attempts stats counter_mode i improved_stats s = s
  process_merge_result new_data_over_limit attempts stats counter_mode i improved_stats s = s
  process_merge_result new_data attempts stats counter_mode i improved_stats s = record s {
    data_read_stats = s.data_read_stats ++ stats ∷ [];
  }
  process_merge_result matched attempts stats counter_mode i improved_stats s = record s {
    data_read_stats =
        set s.data_read_stats i (
          combine_stats counter_mode (get_or s.data_read_stats i 0) s.read_attempts stats attempts);
  }
  process_merge_result improved attempts stats counter_mode i improved_stats s = record s {
    data_read_stats =
        s.data_read_stats
        ++ combine_stats counter_mode improved_stats s.read_attempts stats attempts ∷ [];
  }

  unfoldable pub add : List ℕ → Bool → ℕ → ℕ → ℕ → Bool → Bool → Sector → Sector × Merge
  unfolding add_original process_merge_result
  add bytes bad_crc new_dam attempts stats counter_mode update_attempts s =
      let a = add_original o bytes bad_crc new_dam s in
      let s' =
        process_merge_result a.result attempts stats counter_mode a.affected_data_index
          a.improved_data_read_stats a.sector in
      (
        if update_attempts then record s' { read_attempts = s'.read_attempts + attempts } else s',
        a.result,
      )

  -- The most important result of the two.
  unfoldable pub stronger : Merge → Merge → Merge
  stronger unchanged new = new
  stronger matched unchanged = matched
  stronger matched new = new
  stronger improved new_data = new_data
  stronger improved new_data_over_limit = new_data_over_limit
  stronger result new = result

  -- The loop over the copies of the other sector, with their read stats.
  unfoldable pub merge_copies : Sector → List (List ℕ) → List ℕ → Sector → Merge → Sector × Merge
  unfolding add stronger
  merge_copies other [] stats s result = (s, result)
  merge_copies other (d ∷ ds) stats s result =
      let (s', r) =
        add d other.bad_data_crc other.dam other.read_attempts (get_or stats 0 0)
          (not other.constant_disk) false s in
      merge_copies other ds (drop 1 stats) s' (stronger result r)

  -- The two sectors have one header, data rate and encoding, as the source asserts.
  unfoldable pub merge : Sector → Sector → Sector × Merge
  unfolding merge_copies
  merge other s =
      let start =
        if s.bad_id_crc then record s { header = other.header; bad_id_crc = false } else s in
      let result = if s.bad_id_crc then improved else unchanged in
      let (s', r) = merge_copies other other.data_copies other.data_read_stats start result in
      if other.bad_id_crc
      then (s, unchanged)
      else (if has_data start && (not start.bad_data_crc && other.bad_data_crc)
          then (record start { read_attempts = start.read_attempts + other.read_attempts }, result)
          else (record s' { read_attempts = s'.read_attempts + other.read_attempts }, r))
