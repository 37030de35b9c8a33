-- ===== src/Sector/Keeps.antt =====
-- What adding data to a sector leaves as it is: all but the copies, their read stats, the mark and
-- the state of the data, and for a merge also the id and the read attempts.
use samdisk_plus.Prelude.{
  ℕ, ◌==◌, ltb, min, ◌≡◌, refl, ◌∙◌, Bool, false, not, ◌&&◌, ◌||◌, List, [], ◌∷◌, ◌++◌,
  if◌then◌else◌, length, map, drop, get_or, Option, none, some, if_both,
}
use samdisk_plus.Header.{Header}
use samdisk_plus.Sector.{Options, Sector, first_copy, has_data, is_8k_sector, copies}
use samdisk_plus.Sector.Checksum.{has_checksum}
use samdisk_plus.Sector.Edit.{
  resize, remove_data, erase_data, limit_copies, are_copies_full, resize_data,
}
use samdisk_plus.Sector.Match.{has_good_data}
use samdisk_plus.Sector.Merge.{
  Merge, Added, drop_bad, settle_8k, Comparison, refuses_copy, insert_copy, add_copy, add_compared,
  add_settled, add_original, process_merge_result, add, merge_copies, merge,
}

-- A part of a sector that does not depend on its data.
abbrev pub IgnoresData {ℓ} : {A : Type ℓ} → (Sector → A) → Type ℓ
IgnoresData f =
    (s : Sector) (copies : List (List ℕ)) (stats : List ℕ) (bad : Bool) (dam : ℕ)
    → f (record s { data_copies = copies; data_read_stats = stats; bad_data_crc = bad; dam = dam })
      ≡ f s

module _ {ℓ} {A : Type ℓ} (f : Sector → A) (ignores : IgnoresData f) where
  pub limit_copies-keeps : (n : ℕ) (s : Sector) → f (limit_copies n s) ≡ f s
  unfolding limit_copies resize_data
  limit_copies-keeps n s =
      if_both (λ (t : Sector). f t ≡ f s) (ltb n (copies s)) _ s (λ _. ignores s _ _ _ _)
        (λ _. refl)

  insert_copy-keeps :
      (o : Options) (bytes : List ℕ) (s : Sector) (result : Merge)
      → f (insert_copy o bytes s result).0 ≡ f s
  unfolding insert_copy
  insert_copy-keeps o bytes s result =
      let new_size : ℕ =
        if has_data s
        then min (length bytes) (length (first_copy s.data_copies))
        else length bytes in
      let cut : Sector = record s { data_copies = map (λ d. resize 0 new_size d) s.data_copies } in
      let P : Sector × Merge → Type ℓ = λ p. f p.0 ≡ f s in
      if_both P (are_copies_full o.maxcopies cut) _ _
        (λ _. limit_copies-keeps o.maxcopies cut ∙ ignores s cut.data_copies _ _ _)
        (λ _. ignores s (cut.data_copies ++ resize 0 new_size bytes ∷ []) _ _ _)

  add_copy-keeps :
      (o : Options) (bytes : List ℕ) (bad_crc : Bool) (new_dam n : ℕ) (s : Sector) (result : Merge)
      → f (add_copy o bytes bad_crc new_dam n s result).sector ≡ f s
  unfolding add_copy
  add_copy-keeps o bytes bad_crc new_dam n s result =
      let P : Added → Type ℓ = λ a. f a.sector ≡ f s in
      if_both P (refuses_copy o new_dam s) _ _ (λ _. refl)
        (λ _. ignores (insert_copy o bytes s result).0 _ _ _ _ ∙ insert_copy-keeps o bytes s result)

  add_compared-keeps :
      (o : Options) (bytes : List ℕ) (bad_crc : Bool) (new_dam : ℕ) (s : Sector) (c : Comparison)
      → f (add_compared o bytes bad_crc new_dam s c).sector ≡ f s
  unfolding add_compared erase_data
  add_compared-keeps o bytes bad_crc new_dam s Comparison.differs =
      add_copy-keeps o bytes bad_crc new_dam 0 s Merge.new_data
  add_compared-keeps o bytes bad_crc new_dam s (Comparison.same_as i) = refl
  add_compared-keeps o bytes bad_crc new_dam s (Comparison.replaces i) =
      add_copy-keeps o bytes bad_crc new_dam (get_or s.data_read_stats i 0) (erase_data i s)
        Merge.improved
      ∙ ignores s _ _ _ _

  add_settled-keeps :
      (o : Options) (bytes : List ℕ) (bad_crc : Bool) (new_dam : ℕ) (s : Sector)
      → f (add_settled o bytes bad_crc new_dam s (settle_8k bytes s)).sector ≡ f s
  unfolding add_settled settle_8k remove_data
  add_settled-keeps o bytes bad_crc new_dam s =
      let P : Option Sector → Type ℓ =
        λ t. f (add_settled o bytes bad_crc new_dam s t).sector ≡ f s in
      let kept = λ (t : Comparison). add_compared-keeps o bytes bad_crc new_dam s t in
      if_both P (is_8k_sector s) _ (some s)
        (λ _.
          if_both P (has_checksum bytes) (some (remove_data s)) _
            (λ _.
              add_compared-keeps o bytes bad_crc new_dam (remove_data s) Comparison.differs
              ∙ ignores s _ _ _ _)
            (λ _.
              if_both P (copies s == 1 && has_checksum (first_copy s.data_copies)) none (some s)
                (λ _. refl) (λ _. kept _)))
        (λ _. kept _)

  add_original-keeps :
      (o : Options) (bytes : List ℕ) (bad_crc : Bool) (new_dam : ℕ) (s : Sector)
      → f (add_original o bytes bad_crc new_dam s).sector ≡ f s
  unfolding add_original drop_bad remove_data
  add_original-keeps o bytes bad_crc new_dam s =
      let dropped : f (drop_bad bad_crc s) ≡ f s =
        if_both (λ (t : Sector). f t ≡ f s) (not bad_crc && s.bad_data_crc) (remove_data s) s
          (λ _. ignores s _ _ _ _) (λ _. refl) in
      if_both (λ (a : Added). f a.sector ≡ f s)
        (s.bad_id_crc || (bad_crc && has_good_data false false s)) _ _ (λ _. refl)
        (λ _. add_settled-keeps o bytes bad_crc new_dam (drop_bad bad_crc s) ∙ dropped)

  module _ (o : Options) (combined : ℕ → ℕ → ℕ → ℕ → ℕ) where
    process_merge_result-keeps :
        (result : Merge) (attempts stats : ℕ) (counter_mode : Bool) (i improved_stats : ℕ)
        (s : Sector)
        → f (process_merge_result o combined result attempts stats counter_mode i improved_stats s)
          ≡ f s
    unfolding process_merge_result
    process_merge_result-keeps Merge.unchanged attempts stats counter_mode i n s = refl
    process_merge_result-keeps Merge.new_data_over_limit attempts stats counter_mode i n s = refl
    process_merge_result-keeps Merge.new_data attempts stats counter_mode i n s = ignores s _ _ _ _
    process_merge_result-keeps Merge.improved attempts stats counter_mode i n s = ignores s _ _ _ _
    process_merge_result-keeps Merge.matched attempts stats counter_mode i n s = ignores s _ _ _ _

    pub add-keeps :
        (bytes : List ℕ) (bad_crc : Bool) (new_dam attempts stats : ℕ) (counter_mode : Bool)
        (s : Sector)
        → f (add o combined bytes bad_crc new_dam attempts stats counter_mode false s).0 ≡ f s
    unfolding add
    add-keeps bytes bad_crc new_dam attempts stats counter_mode s =
        let a = add_original o bytes bad_crc new_dam s in
        process_merge_result-keeps a.result attempts stats counter_mode a.affected_data_index
          a.improved_data_read_stats a.sector
        ∙ add_original-keeps o bytes bad_crc new_dam s

    pub merge_copies-keeps :
        (other : Sector) (ds : List (List ℕ)) (stats : List ℕ) (s : Sector) (result : Merge)
        → f (merge_copies o combined other ds stats s result).0 ≡ f s
    unfolding merge_copies
    merge_copies-keeps other [] stats s result = refl
    merge_copies-keeps other (d ∷ ds) stats s result =
        merge_copies-keeps other ds (drop 1 stats) _ _
        ∙ add-keeps d other.bad_data_crc other.dam other.read_attempts (get_or stats 0 0)
            (not other.constant_disk) s

    -- For a part that depends on neither the data, the id nor the read attempts.
    pub merge-keeps :
        ((s : Sector) (h : Header) (bad : Bool)
          → f (record s { header = h; bad_id_crc = bad }) ≡ f s)
        → ((s : Sector) (n : ℕ) → f (record s { read_attempts = n }) ≡ f s)
        → (other s : Sector) → f (merge o combined other s).0 ≡ f s
    unfolding merge
    merge-keeps any_id any_attempts other s =
        let start : Sector =
          if s.bad_id_crc then record s { header = other.header; bad_id_crc = false } else s in
        let started : f start ≡ f s =
          if_both (λ (t : Sector). f t ≡ f s) s.bad_id_crc
            (record s { header = other.header; bad_id_crc = false }) s (λ _. any_id s _ _)
            (λ _. refl) in
        let P : Sector × Merge → Type ℓ = λ p. f p.0 ≡ f s in
        if_both P other.bad_id_crc _ _ (λ _. refl)
          (λ _.
            if_both P (has_data start && (not start.bad_data_crc && other.bad_data_crc)) _ _
              (λ _. any_attempts start _ ∙ started)
              (λ _.
                any_attempts _ _
                ∙ (merge_copies-keeps other other.data_copies other.data_read_stats start _
                    ∙ started)))
