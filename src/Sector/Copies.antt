-- ===== src/Sector/Copies.antt =====
-- `Sector::add` and `Sector::merge` keep the invariant of a sector.
use samdisk_plus.Prelude.{
  ℕ, refl, Bool, false, not, ◌&&◌, List, [], ◌∷◌, if◌then◌else◌, drop, get_or, arith, length-append,
  length-set, if_both,
}
use samdisk_plus.Sector.{Options, Sector, has_data}
use samdisk_plus.Sector.Merge.{
  Merge, add_original, combine_stats, process_merge_result, add, merge_copies, merge,
}
use samdisk_plus.Sector.Inv.{Balanced, IsValid}
use samdisk_plus.Sector.Kept.{pending, Kept, add_original-Kept}

with_attempts-IsValid :
    (o : Options) (n : ℕ) (s : Sector) → IsValid o s → IsValid o (record s { read_attempts = n })
with_attempts-IsValid o n s b = record {
  stats = b.stats;
  few = b.few;
  even = b.even;
  single = b.single;
  headless = b.headless;
}

module _ (o : Options) (combined : ℕ → ℕ → ℕ → ℕ → ℕ) where
  -- The read stats of what was added follow.
  process_merge_result-IsValid :
      (result : Merge) (attempts stats : ℕ) (counter_mode : Bool) (i improved_stats : ℕ)
      (s : Sector)
      → Balanced o (pending result) s
      → IsValid o
          (process_merge_result o combined result attempts stats counter_mode i improved_stats s)
  unfolding process_merge_result pending
  process_merge_result-IsValid Merge.unchanged attempts stats counter_mode i n s b = b
  process_merge_result-IsValid Merge.new_data_over_limit attempts stats counter_mode i n s b = b
  process_merge_result-IsValid Merge.new_data attempts stats counter_mode i n s b =
      let count = b.stats in
      let grown = length-append s.data_read_stats (stats ∷ []) in
      record {
        stats = omega arith;
        few = b.few;
        even = b.even;
        single = b.single;
        headless = b.headless;
      }
  process_merge_result-IsValid Merge.improved attempts stats counter_mode i n s b =
      let count = b.stats in
      let new_stats : ℕ = combine_stats o combined counter_mode n s.read_attempts stats attempts in
      let grown = length-append s.data_read_stats (new_stats ∷ []) in
      record {
        stats = omega arith;
        few = b.few;
        even = b.even;
        single = b.single;
        headless = b.headless;
      }
  process_merge_result-IsValid Merge.matched attempts stats counter_mode i n s b =
      let count = b.stats in
      let kept = length-set s.data_read_stats i (
        combine_stats o combined counter_mode (get_or s.data_read_stats i 0) s.read_attempts stats
          attempts) in
      record {
        stats = omega arith;
        few = b.few;
        even = b.even;
        single = b.single;
        headless = b.headless;
      }

  pub add-IsValid :
      (bytes : List ℕ) (bad_crc : Bool) (new_dam attempts stats : ℕ)
      (counter_mode update_attempts : Bool) (s : Sector)
      → IsValid o s
      → IsValid o
          (add o combined bytes bad_crc new_dam attempts stats counter_mode update_attempts s).0
  unfolding add Kept
  add-IsValid bytes bad_crc new_dam attempts stats counter_mode update_attempts s v =
      let a = add_original o bytes bad_crc new_dam s in
      let b =
        process_merge_result-IsValid a.result attempts stats counter_mode a.affected_data_index
          a.improved_data_read_stats a.sector (add_original-Kept o bytes bad_crc new_dam s v) in
      if_both (IsValid o) update_attempts _ _ (λ _. with_attempts-IsValid o _ _ b) (λ _. b)

  merge_copies-IsValid :
      (other : Sector) (ds : List (List ℕ)) (stats : List ℕ) (s : Sector) (result : Merge)
      → IsValid o s
      → IsValid o (merge_copies o combined other ds stats s result).0
  unfolding merge_copies
  merge_copies-IsValid other [] stats s result v = v
  merge_copies-IsValid other (d ∷ ds) stats s result v =
      merge_copies-IsValid other ds (drop 1 stats) _ _ (
        add-IsValid d other.bad_data_crc other.dam other.read_attempts (get_or stats 0 0)
          (not other.constant_disk) false s v)

  -- Merging any sector, valid or not, into a valid one gives a valid one: one counter for each
  -- copy, no more copies than the limit, all of one size, a single copy of good data without
  -- paranoia, and no data under a bad id.
  pub merge-IsValid : (other s : Sector) → IsValid o s → IsValid o (merge o combined other s).0
  unfolding merge
  merge-IsValid other s v =
      let start : Sector =
        if s.bad_id_crc then record s { header = other.header; bad_id_crc = false } else s in
      let started : IsValid o start =
        if_both (IsValid o) s.bad_id_crc (record s { header = other.header; bad_id_crc = false }) s
          (λ _. record {
            stats = v.stats;
            few = v.few;
            even = v.even;
            single = v.single;
            headless = refl;
          })
          (λ _. v) in
      let P : Sector × Merge → Type 0 = λ p. IsValid o p.0 in
      if_both P other.bad_id_crc _ _ (λ _. v)
        (λ _.
          if_both P (has_data start && (not start.bad_data_crc && other.bad_data_crc)) _ _
            (λ _. with_attempts-IsValid o _ start started)
            (λ _.
              with_attempts-IsValid o _ _ (
                merge_copies-IsValid other other.data_copies other.data_read_stats start _
                  started)))
