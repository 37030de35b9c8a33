-- ===== src/Track/Merging.antt =====
-- Merging into a sector of a track keeps the invariant of the track.
use samdisk_plus.Prelude.{
  ℕ, zero, suc, ◌-◌, ltb, ◌<◌, ◌≡◌, refl, ap, sym, ◌∙◌, not, ◌&&◌, List, [], ◌∷◌, ◌++◌, length,
  get_elem?, set, take, replicate, arith, some, if_both,
}
use mathlib.Core.Path.{subst}
use samdisk_plus.Header.{bits_per_second}
use samdisk_plus.Sector.{Options, Sector, copies}
use samdisk_plus.Sector.Edit.{limit_copies, resize_data}
use samdisk_plus.Sector.Merge.{merge}
use samdisk_plus.Sector.Inv.{IsValid, AllSize, length-resize}
use samdisk_plus.Sector.Copies.{merge-IsValid}
use samdisk_plus.Sector.Keeps.{merge-keeps, limit_copies-keeps}
use samdisk_plus.Track.{Track, is_8k_track, data_overlap}
use samdisk_plus.Track.Add.{AddedSector, merge_at, is_unchanged}
use samdisk_plus.Track.Order.{Held, IsTrack, set-Ascends, Held-at}

take-AllSize : (n k : ℕ) (ds : List (List ℕ)) → AllSize n ds → AllSize n (take k ds ++ [])
take-AllSize n zero ds h = tt
take-AllSize n (suc k) [] h = tt
take-AllSize n (suc k) (d ∷ ds) h = (h.0, take-AllSize n k ds h.1)

pub limit_copies-IsValid :
    (o : Options) (k : ℕ) (s : Sector) → IsValid o s → IsValid o (limit_copies k s)
unfolding limit_copies resize_data
limit_copies-IsValid o k s v =
    let stats = v.stats in
    let few = v.few in
    let single = v.single in
    let headless = v.headless in
    if_both (IsValid o) (ltb k (copies s)) _ s
      (λ e.
        let size_data = length-resize [] k s.data_copies in
        let size_stats = length-resize 0 k s.data_read_stats in
        let none_left : k - length s.data_copies ≡ 0 = ground arith in
        record {
          stats = omega arith;
          few = ground arith;
          even = (
            v.even.0,
            subst (λ n. AllSize v.even.0 (take k s.data_copies ++ replicate n [])) (sym none_left)
                (take-AllSize v.even.0 k s.data_copies v.even.1),
          );
          single = ground arith;
          headless = ground arith;
        })
      (λ _. v)

module _ (o : Options) (combined : ℕ → ℕ → ℕ → ℕ → ℕ) (rate lim : ℕ) where
  merge-Held : (other s : Sector) → Held o rate lim s → Held o rate lim (merge o combined other s).0
  merge-Held other s h =
      let same_offset =
        merge-keeps (λ t. t.offset) (λ _ _ _ _ _. refl) o combined (λ _ _ _. refl) (λ _ _. refl)
          other s in
      let same_datarate =
        merge-keeps (λ t. t.datarate) (λ _ _ _ _ _. refl) o combined (λ _ _ _. refl) (λ _ _. refl)
          other s in
      record {
        valid = merge-IsValid o combined other s h.valid;
        positioned = subst (λ n. 0 < n) (sym same_offset) h.positioned;
        below = subst (λ n. n < lim) (sym same_offset) h.below;
        same_rate = ap bits_per_second same_datarate ∙ h.same_rate;
      }

  limited_offset : (k : ℕ) (s : Sector) → (limit_copies k s).offset ≡ s.offset
  limited_offset k s = limit_copies-keeps (λ t. t.offset) (λ _ _ _ _ _. refl) k s

  limit_copies-Held : (k : ℕ) (s : Sector) → Held o rate lim s → Held o rate lim (limit_copies k s)
  limit_copies-Held k s h = record {
    valid = limit_copies-IsValid o k s h.valid;
    positioned = subst (λ n. 0 < n) (sym (limited_offset k s)) h.positioned;
    below = subst (λ n. n < lim) (sym (limited_offset k s)) h.below;
    same_rate =
        ap bits_per_second (limit_copies-keeps (λ t. t.datarate) (λ _ _ _ _ _. refl) k s)
        ∙ h.same_rate;
  }

  pub merge_at-IsTrack :
      (i : ℕ) (sector old : Sector) (t : Track)
      → get_elem? t.sectors i ≡ some old
      → IsTrack o rate lim t
      → IsTrack o rate lim (merge_at o combined i sector old t).track
  unfolding merge_at
  merge_at-IsTrack i sector old t g h =
      let s = (merge o combined sector old).0 in
      let held : Held o rate lim s =
        merge-Held sector old (Held-at o rate lim 0 i old t.sectors g h) in
      let same_offset =
        merge-keeps (λ r. r.offset) (λ _ _ _ _ _. refl) o combined (λ _ _ _. refl) (λ _ _. refl)
          sector old in
      let plain = set-Ascends o rate lim 0 i s old t.sectors g same_offset held h in
      let limited =
        set-Ascends o rate lim 0 i (limit_copies 1 s) old t.sectors g
          (limited_offset 1 s ∙ same_offset) (limit_copies-Held 1 s held) h in
      if_both (λ (a : AddedSector). IsTrack o rate lim a.track)
        (is_unchanged (merge o combined sector old).1) _ _ (λ _. plain)
        (λ _.
          if_both (IsTrack o rate lim)
            (data_overlap i s (record t { sectors = set t.sectors i s })
              && not (is_8k_track (record t { sectors = set t.sectors i s })))
            _ _ (λ _. limited) (λ _. plain))
