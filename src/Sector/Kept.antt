-- ===== src/Sector/Kept.antt =====
-- `Sector::add_original` keeps the invariant of a sector, but for the read stats of a new copy.
use samdisk_plus.Prelude.{
  ℕ, suc, leb, min, ◌≤◌, ◌≡◌, refl, sym, Bool, true, false, ◌&&◌, ◌||◌, List, [], ◌∷◌,
  if◌then◌else◌, length, map, get_or, arith, length-append, length-map, Option, none, some, if_both,
}
use mathlib.Core.Path.{subst}
use samdisk_plus.Sector.{Options, Sector, first_copy, has_data, is_8k_sector}
use samdisk_plus.Sector.Edit.{resize, erase_data, are_copies_full}
use samdisk_plus.Sector.Match.{has_good_data}
use samdisk_plus.Sector.Merge.{
  Merge, Added, drop_bad, Comparison, compare_copies, refuses_copy, insert_copy, add_copy,
  add_compared, add_settled, add_original,
}
use samdisk_plus.Sector.Inv.{Balanced, IsValid, length-resize, resize-AllSize, append-AllSize}
use samdisk_plus.Sector.Stages.{
  Ready, drop_bad-Ready, ReadyOption, settle_8k-Ready, Names, compare_copies-Names,
  limit_copies_few, erase_data-Ready,
}

-- The copies that a result leaves without read stats.
unfoldable pub pending : Merge → ℕ
pending Merge.new_data = 1
pending Merge.improved = 1
pending _ = 0

unfoldable pub Kept : Options → Added → Type 0
Kept o a = Balanced o (pending a.result) a.sector

-- The sector and result of `insert_copy`, with the marks that `add_copy` sets.
unfoldable pub Inserted : Options → Bool → ℕ → Sector × Merge → Type 0
Inserted o bad_crc new_dam p =
    Balanced o (pending p.1) (record p.0 { bad_data_crc = bad_crc; dam = new_dam })

-- With good data and without paranoia, a copy is added to none.
single_after :
    (o : Options) (bad_crc : Bool) (new_dam : ℕ) (s : Sector) (n : ℕ)
    → Ready o bad_crc s
    → refuses_copy o new_dam s ≡ false
    → n ≤ suc (length s.data_copies)
    → bad_crc || (o.paranoia || leb n 1) ≡ true
unfolding refuses_copy
single_after o bad_crc new_dam s n r accepted h = let settled = r.settled in ground arith

insert_copy-Inserted :
    (o : Options) (bytes : List ℕ) (bad_crc : Bool) (new_dam : ℕ) (s : Sector) (result : Merge)
    → Ready o bad_crc s
    → pending result ≡ 1
    → refuses_copy o new_dam s ≡ false
    → Inserted o bad_crc new_dam (insert_copy o bytes s result)
unfolding insert_copy Inserted pending
insert_copy-Inserted o bytes bad_crc new_dam s result r one accepted =
    let new_size : ℕ =
      if has_data s then min (length bytes) (length (first_copy s.data_copies)) else length bytes in
    let cut_copies = map (λ d. resize 0 new_size d) s.data_copies in
    let cut : Sector = record s { data_copies = cut_copies } in
    let same_count = length-map s.data_copies (λ d. resize 0 new_size d) in
    let stats = r.valid.stats in
    let few = r.valid.few in
    let id = r.good_id in
    let grown = length-append cut_copies (resize 0 new_size bytes ∷ []) in
    if_both (Inserted o bad_crc new_dam) (are_copies_full o.maxcopies cut) _ _
      (λ _.
        subst (λ k. Inserted o bad_crc new_dam (k, Merge.new_data_over_limit))
          (sym (limit_copies_few o.maxcopies cut (omega arith)))
          (record {
            stats = omega arith;
            few = omega arith;
            even = (new_size, resize-AllSize new_size s.data_copies);
            single = single_after o bad_crc new_dam s _ r accepted (omega arith);
            headless = ground arith;
          }))
      (λ room. record {
        stats = omega arith;
        few = ground arith;
        even = (
          new_size,
          append-AllSize new_size _ _ (resize-AllSize new_size s.data_copies)
              (length-resize 0 new_size bytes),
        );
        single = single_after o bad_crc new_dam s _ r accepted (omega arith);
        headless = ground arith;
      })

add_copy-Kept :
    (o : Options) (bytes : List ℕ) (bad_crc : Bool) (new_dam n : ℕ) (s : Sector) (result : Merge)
    → Ready o bad_crc s
    → pending result ≡ 1
    → Kept o (add_copy o bytes bad_crc new_dam n s result)
unfolding add_copy Kept pending Inserted
add_copy-Kept o bytes bad_crc new_dam n s result r one =
    if_both (Kept o) (refuses_copy o new_dam s) _ _ (λ _. r.valid)
      (λ accepted. insert_copy-Inserted o bytes bad_crc new_dam s result r one accepted)

add_compared-Kept :
    (o : Options) (bytes : List ℕ) (bad_crc : Bool) (new_dam : ℕ) (s : Sector) (c : Comparison)
    → Ready o bad_crc s
    → Names 0 (length s.data_copies) c
    → Kept o (add_compared o bytes bad_crc new_dam s c)
unfolding add_compared Kept pending
add_compared-Kept o bytes bad_crc new_dam s Comparison.differs r h =
    add_copy-Kept o bytes bad_crc new_dam 0 s Merge.new_data r refl
add_compared-Kept o bytes bad_crc new_dam s (Comparison.same_as i) r h = r.valid
add_compared-Kept o bytes bad_crc new_dam s (Comparison.replaces i) r h =
    add_copy-Kept o bytes bad_crc new_dam (get_or s.data_read_stats i 0) (erase_data i s)
      Merge.improved (erase_data-Ready o bad_crc i s r h.1) refl

add_settled-Kept :
    (o : Options) (bytes : List ℕ) (bad_crc : Bool) (new_dam : ℕ) (s : Sector) (t : Option Sector)
    → IsValid o s
    → ReadyOption o bad_crc t
    → Kept o (add_settled o bytes bad_crc new_dam s t)
unfolding add_settled Kept pending
add_settled-Kept o bytes bad_crc new_dam s none v r = v
add_settled-Kept o bytes bad_crc new_dam s (some t) v r =
    let complete_size : ℕ = if is_8k_sector t then 0x1800 else length bytes in
    add_compared-Kept o bytes bad_crc new_dam t _ r (
      subst (λ n. Names 0 n (compare_copies complete_size bytes 0 t.data_copies)) (omega arith)
        (compare_copies-Names complete_size bytes 0 t.data_copies))

pub add_original-Kept :
    (o : Options) (bytes : List ℕ) (bad_crc : Bool) (new_dam : ℕ) (s : Sector)
    → IsValid o s
    → Kept o (add_original o bytes bad_crc new_dam s)
unfolding add_original Kept pending
add_original-Kept o bytes bad_crc new_dam s v =
    if_both (Kept o) (s.bad_id_crc || (bad_crc && has_good_data false false s)) _ _ (λ _. v)
      (λ e.
        let r = drop_bad-Ready o bad_crc s v (ground arith) in
        add_settled-Kept o bytes bad_crc new_dam (drop_bad bad_crc s) _ r.valid
          (settle_8k-Ready o bad_crc bytes (drop_bad bad_crc s) r))
