-- ===== src/Sector/Good.antt =====
-- `Sector::add_original` and data of a good CRC: whether the sector has them afterwards.
pub mod Merged
use samdisk_plus.Prelude.{
  ℕ, zero, suc, ◌+◌, ◌-◌, ◌==◌, ltb, leb, min, ◌≤◌, ◌<◌, ◌≡◌, refl, ap, sym, ◌∙◌, Bool, true, false,
  not, ◌&&◌, ◌||◌, List, [], ◌∷◌, ◌++◌, if◌then◌else◌, length, take, map, drop, get_or, set, arith,
  length-append, length-map, length-set, Option, none, some, Bool-cases, inl, inr, if_both,
}
use mathlib.Core.Path.{subst}
use samdisk_plus.Sector.{Options, Sector, first_copy, has_data, is_8k_sector, copies}
use samdisk_plus.Sector.Checksum.{has_checksum}
use samdisk_plus.Sector.Edit.{
  resize, erase, remove_data, erase_data, limit_copies, are_copies_full, resize_data,
}
use samdisk_plus.Sector.Match.{has_good_data}
use samdisk_plus.Sector.Merge.{
  Merge, Added, added, drop_bad, settle_8k, Comparison, compare_copies, refuses_copy, insert_copy,
  add_copy, add_compared, add_settled, add_original, combine_stats, process_merge_result, add,
  merge_copies, merge, stronger,
}
use samdisk_plus.Sector.Inv.{Balanced, IsValid, length-resize, length-erase}
use samdisk_plus.Sector.Stages.{
  Ready, remove_data-Ready, drop_bad-Ready, ReadyOption, settle_8k-Ready, Names,
  compare_copies-Names, limit_copies_few, erase_data-Ready,
}
use samdisk_plus.Sector.Copies.{add-IsValid}

-- There are data, and their CRC is good; `has_good_data` also asks for no gap data.
unfoldable pub has_good_crc_data : Sector → Bool
has_good_crc_data s = has_data s && not s.bad_data_crc

-- What adding data with or without a bad CRC makes of it.
unfoldable pub Combines : Sector → Bool → Sector → Type 0
Combines s bad_crc t = has_good_crc_data t ≡ has_good_crc_data s || not bad_crc

-- Bad data come only to a sector without good data.
unfoldable pub Fits : Bool → Sector → Type 0
Fits bad_crc s = not bad_crc || not (has_good_crc_data s) ≡ true

insert_copy-Combines :
    (o : Options) (bytes : List ℕ) (bad_crc : Bool) (new_dam : ℕ) (s : Sector) (result : Merge)
    → 0 < o.maxcopies
    → Ready o bad_crc s
    → Fits bad_crc s
    → Combines s bad_crc
        (record (insert_copy o bytes s result).0 { bad_data_crc = bad_crc; dam = new_dam })
unfolding insert_copy Combines Fits has_good_crc_data
insert_copy-Combines o bytes bad_crc new_dam s result some_room r fits =
    let new_size : ℕ =
      if has_data s then min (length bytes) (length (first_copy s.data_copies)) else length bytes in
    let cut_copies = map (λ d. resize 0 new_size d) s.data_copies in
    let cut : Sector = record s { data_copies = cut_copies } in
    let same_count = length-map s.data_copies (λ d. resize 0 new_size d) in
    let few = r.valid.few in
    let grown = length-append cut_copies (resize 0 new_size bytes ∷ []) in
    let P : Sector × Merge → Type 0 =
      λ p. Combines s bad_crc (record p.0 { bad_data_crc = bad_crc; dam = new_dam }) in
    if_both P (are_copies_full o.maxcopies cut) _ _
      (λ full.
        subst (λ k. P (k, Merge.new_data_over_limit))
          (sym (limit_copies_few o.maxcopies cut (omega arith))) (ground arith))
      (λ room. ground arith)

add_copy-Combines :
    (o : Options) (bytes : List ℕ) (bad_crc : Bool) (new_dam n : ℕ) (s : Sector) (result : Merge)
    → 0 < o.maxcopies
    → Ready o bad_crc s
    → Fits bad_crc s
    → Combines s bad_crc (add_copy o bytes bad_crc new_dam n s result).sector
unfolding add_copy Combines Fits has_good_crc_data refuses_copy
add_copy-Combines o bytes bad_crc new_dam n s result some_room r fits =
    let settled = r.settled in
    if_both (λ (a : Added). Combines s bad_crc a.sector) (refuses_copy o new_dam s) _ _
      (λ refused. ground arith)
      (λ _. insert_copy-Combines o bytes bad_crc new_dam s result some_room r fits)

add_compared-Combines :
    (o : Options) (bytes : List ℕ) (bad_crc : Bool) (new_dam : ℕ) (s : Sector) (c : Comparison)
    → 0 < o.maxcopies
    → Ready o bad_crc s
    → Fits bad_crc s
    → Names 0 (length s.data_copies) c
    → Combines s bad_crc (add_compared o bytes bad_crc new_dam s c).sector
unfolding add_compared Combines Fits has_good_crc_data erase_data
add_compared-Combines o bytes bad_crc new_dam s Comparison.differs some_room r fits h =
    add_copy-Combines o bytes bad_crc new_dam 0 s Merge.new_data some_room r fits
add_compared-Combines o bytes bad_crc new_dam s (Comparison.same_as i) some_room r fits h =
    let settled = r.settled in let here = h.1 in ground arith
add_compared-Combines o bytes bad_crc new_dam s (Comparison.replaces i) some_room r fits h =
    let one = length-erase i s.data_copies h.1 in
    let here = h.1 in
    let rest =
      add_copy-Combines o bytes bad_crc new_dam (get_or s.data_read_stats i 0) (erase_data i s)
        Merge.improved some_room (erase_data-Ready o bad_crc i s r h.1) (ground arith) in
    rest ∙ ground arith

add_settled-Combines :
    (o : Options) (bytes : List ℕ) (bad_crc : Bool) (new_dam : ℕ) (s : Sector)
    → 0 < o.maxcopies
    → Ready o bad_crc s
    → Fits bad_crc s
    → Combines s bad_crc (add_settled o bytes bad_crc new_dam s (settle_8k bytes s)).sector
unfolding add_settled settle_8k Combines Fits has_good_crc_data remove_data
add_settled-Combines o bytes bad_crc new_dam s some_room r fits =
    let P : Option Sector → Type 0 =
      λ t. Combines s bad_crc (add_settled o bytes bad_crc new_dam s t).sector in
    let settled = r.settled in
    let go : (t : Sector)
        → Ready o bad_crc t
        → Fits bad_crc t
        → Combines t bad_crc (add_settled o bytes bad_crc new_dam s (some t)).sector =
      λ t rt ft.
        let complete_size : ℕ = if is_8k_sector t then 0x1800 else length bytes in
        add_compared-Combines o bytes bad_crc new_dam t _ some_room rt ft (
          subst (λ n. Names 0 n (compare_copies complete_size bytes 0 t.data_copies)) (omega arith)
            (compare_copies-Names complete_size bytes 0 t.data_copies)) in
    if_both P (is_8k_sector s) _ (some s)
      (λ _.
        if_both P (has_checksum bytes) (some (remove_data s)) _
          (λ _.
            go (remove_data s) (remove_data-Ready o bad_crc s r.good_id) (ground arith)
            ∙ ground arith)
          (λ _.
            if_both P (copies s == 1 && has_checksum (first_copy s.data_copies)) none (some s)
              (λ one. ground arith) (λ _. go s r fits)))
      (λ _. go s r fits)

drop_bad-has_good_crc_data :
    (bad_crc : Bool) (s : Sector)
    → has_good_crc_data (drop_bad bad_crc s) || not bad_crc ≡ has_good_crc_data s || not bad_crc
unfolding drop_bad
drop_bad-has_good_crc_data true s = refl
drop_bad-has_good_crc_data false s = ground arith

drop_bad-Fits : (bad_crc : Bool) (s : Sector) → Fits bad_crc s → Fits bad_crc (drop_bad bad_crc s)
unfolding drop_bad Fits
drop_bad-Fits true s h = h
drop_bad-Fits false s h = refl

has_good_data-has_good_crc_data :
    (s : Sector) → has_good_data false false s ≡ true → has_good_crc_data s ≡ true
unfolding has_good_data has_good_crc_data
has_good_data-has_good_crc_data s h = ground arith

pub add_original-Combines :
    (o : Options) (bytes : List ℕ) (bad_crc : Bool) (new_dam : ℕ) (s : Sector)
    → 0 < o.maxcopies
    → IsValid o s
    → s.bad_id_crc ≡ false
    → Fits bad_crc s
    → Combines s bad_crc (add_original o bytes bad_crc new_dam s).sector
unfolding add_original Combines Fits
add_original-Combines o bytes bad_crc new_dam s some_room v good_id fits =
    if_both (λ (a : Added). Combines s bad_crc a.sector)
      (s.bad_id_crc || (bad_crc && has_good_data false false s)) _ _
      (λ e. let good = has_good_data-has_good_crc_data s in ground arith)
      (λ _.
        add_settled-Combines o bytes bad_crc new_dam (drop_bad bad_crc s) some_room
          (drop_bad-Ready o bad_crc s v good_id) (drop_bad-Fits bad_crc s fits)
        ∙ drop_bad-has_good_crc_data bad_crc s)
