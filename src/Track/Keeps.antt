-- ===== src/Track/Keeps.antt =====
-- Adding to a track in src/Track.cpp keeps its invariant.
use samdisk_plus.Prelude.{
  ℕ, suc, ◌==◌, ltb, ◌<◌, ◌≡◌, refl, ap, sym, ◌∙◌, Bool, true, false, not, ◌&&◌, List, [], ◌∷◌,
  if◌then◌else◌, length, get_elem?, set, arith, Option, none, some, if_both,
}
use samdisk_plus.Prelude.Bind.{◌>>=◌}
use mathlib.Core.Path.{subst}
use samdisk_plus.Header.{bits_per_second}
use samdisk_plus.Sector.{Options, Sector, same_datarate}
use samdisk_plus.Sector.Edit.{limit_copies}
use samdisk_plus.Sector.Match.{is_sector_tolerated_same}
use samdisk_plus.Sector.Merge.{merge}
use samdisk_plus.Track.{Track, find_if, is_empty, get_data_rate}
use samdisk_plus.Track.Add.{
  AddedSector, insert_at, end_index, Place, place, merge_at, merge_sector, add_at, add_sector,
  is_unchanged,
}
use samdisk_plus.Track.Positions.{IsBelow, find_if-IsBelow, get_elem?-exists}
use samdisk_plus.Track.Order.{Held, Ascends, IsTrack, insert-Ascends}
use samdisk_plus.Track.Merging.{merge_at-IsTrack}

same_bits : (a b n : ℕ) → a ≡ b → not (n == 0) && not (a == b) ≡ false
same_bits a b n h = ground arith

positioned_ne : (n : ℕ) → 0 < n → (n == 0) ≡ true → ⊥
positioned_ne n h e = ground arith

not_empty : (n : ℕ) (b : Bool) → 0 < n → not (n == 0) && b ≡ false → b ≡ false
not_empty n b h e = ground arith

module _ (o : Options) (combined : ℕ → ℕ → ℕ → ℕ → ℕ) (rate lim : ℕ) where
  -- A track with one more sector, or a sector with more data.
  Grown : Track → Option AddedSector → Type 0
  Grown t r =
      (a : AddedSector) × (r ≡ some a)
      × IsTrack o rate lim a.track
      × (a.track.tracklen ≡ t.tracklen)

  -- The data rates of a track and a sector of the rate are not mixed.
  same_rates :
      (s : Sector) (t : Track)
      → Held o rate lim s
      → IsTrack o rate lim t
      → not (is_empty t) && not (same_datarate (get_data_rate t) s.datarate) ≡ false
  unfolding get_data_rate
  same_rates s t h v = go t.sectors v
    where
      go :
          (ss : List Sector)
          → Ascends o rate lim 0 ss
          → not (length ss == 0)
              && not (same_datarate (get_data_rate (record t { sectors = ss })) s.datarate)
            ≡ false
      go [] a = refl
      go (r ∷ ss) a =
          same_bits (bits_per_second r.datarate) (bits_per_second s.datarate) (suc (length ss))
            (a.1.same_rate ∙ sym h.same_rate)

  merge_at-tracklen :
      (i : ℕ) (sector old : Sector) (t : Track)
      → (merge_at o combined i sector old t).track.tracklen ≡ t.tracklen
  unfolding merge_at
  merge_at-tracklen i sector old t =
      let P : Track → Type 0 = λ u. u.tracklen ≡ t.tracklen in
      if_both (λ (a : AddedSector). P a.track) (is_unchanged (merge o combined sector old).1) _ _
        (λ _. refl)
        (λ _.
          if_both P _
            (record t {
              sectors = set t.sectors i (limit_copies 1 (merge o combined sector old).0);
            })
            (record t { sectors = set t.sectors i (merge o combined sector old).0 }) (λ _. refl)
            (λ _. refl))

  merge_sector-Grown :
      (i : ℕ) (s : Sector) (t : Track)
      → Held o rate lim s
      → IsTrack o rate lim t
      → i < length t.sectors
      → Grown t (merge_sector o combined i s t)
  unfolding merge_sector Grown
  merge_sector-Grown i s t h v below =
      let (old, g) = get_elem?-exists t.sectors i below in
      let merged = merge_at o combined i s old t in
      let here : not (same_datarate (get_data_rate t) s.datarate) ≡ false =
        not_empty (length t.sectors) _ (omega arith) (same_rates s t h v) in
      let P : Bool → Type 0 = λ c.
        (if c
          then none
          else (get_elem? t.sectors i >>= λ old. some (merge_at o combined i s old t)))
        ≡ some merged in
      (
        merged,
        subst P (sym here) (ap (λ r. r >>= λ old. some (merge_at o combined i s old t)) g),
        merge_at-IsTrack o combined rate lim i s old t g v,
        merge_at-tracklen i s old t,
      )

  -- A place that there is, in the order of the track.
  IsPlace : Sector → Track → Place → Type 0
  IsPlace s t Place.at_end = ⊥
  IsPlace s t (Place.before i) = Ascends o rate lim 0 (insert_at i s t.sectors)
  IsPlace s t (Place.into i) = i < length t.sectors

  place-IsPlace :
      (s : Sector) (t : Track)
      → Held o rate lim s
      → IsTrack o rate lim t
      → IsPlace s t (place o s t)
  unfolding place IsPlace
  place-IsPlace s t h v =
      let before = insert-Ascends o rate lim 0 s t.sectors (omega arith) h v in
      let test : Sector → Bool =
        λ r. is_sector_tolerated_same r.header r.offset o.byte_tolerance_of_time t.tracklen s in
      let positioned = h.positioned in
      if_both (IsPlace s t) (s.offset == 0) Place.at_end _
        (λ e. absurd (positioned_ne s.offset positioned e))
        (λ _. found (find_if test 0 t.sectors) (find_if-IsBelow test t.sectors) before)
    where
      found :
          (r : Option ℕ)
          → IsBelow (length t.sectors) r
          → Ascends o rate lim 0 (
              insert_at
                (end_index t.sectors (find_if (λ r. ltb s.offset r.offset) 0 t.sectors))
                s
                t.sectors)
          → IsPlace s t (elim r [
            | none ↦
                Place.before
                  (end_index t.sectors (find_if (λ r. ltb s.offset r.offset) 0 t.sectors))
            | some i ↦ Place.into i
          ])
      found none b before = before
      found (some i) b before = b

  add_at-Grown :
      (s : Sector) (t : Track) (p : Place)
      → Held o rate lim s
      → IsTrack o rate lim t
      → IsPlace s t p
      → Grown t (add_at o combined s t p)
  unfolding add_at IsPlace Grown
  add_at-Grown s t Place.at_end h v ok = absurd ok
  add_at-Grown s t (Place.before i) h v ok = (_, refl, ok, refl)
  add_at-Grown s t (Place.into i) h v ok = merge_sector-Grown i s t h v ok

  -- A valid sector with a position is always added to a track of its data rate, and the track
  -- remains one: its offsets ascend and stay below the limit, its sectors are valid, and its length
  -- is what it was.
  pub add_sector-IsTrack :
      (s : Sector) (t : Track)
      → Held o rate lim s
      → IsTrack o rate lim t
      → (a : AddedSector) × (add_sector o combined s t ≡ some a)
        × IsTrack o rate lim a.track
        × (a.track.tracklen ≡ t.tracklen)
  unfolding add_sector Grown
  add_sector-IsTrack s t h v =
      subst (λ c. Grown t (if c then none else add_at o combined s t (place o s t)))
        (sym (same_rates s t h v)) (add_at-Grown s t (place o s t) h v (place-IsPlace s t h v))
