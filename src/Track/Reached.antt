-- ===== src/Track/Reached.antt =====
-- Adding a track to a track in src/Track.cpp: where the sectors of both are afterwards.
use samdisk_plus.Prelude.{
  ℕ, zero, suc, max, ltb, ◌==◌, ◌≡◌, refl, ap, sym, ◌∙◌, Bool, true, not, ◌&&◌, List, [], ◌∷◌, ◌++◌,
  get_elem?, set, arith, Option, none, some, if_both, inl, inr, ◌⊎◌,
}
use samdisk_plus.Prelude.Bind.{◌>>=◌}
use mathlib.Core.Path.{subst}
use mathlib.Core.Option.{some-injective, none-ne-some}
use samdisk_plus.Header.{are_offsets_tolerated_same}
use samdisk_plus.Sector.{Options, Sector, same_datarate}
use samdisk_plus.Sector.Edit.{limit_copies}
use samdisk_plus.Sector.Match.{is_sector_tolerated_same}
use samdisk_plus.Sector.Merge.{merge}
use samdisk_plus.Sector.Keeps.{merge-keeps, limit_copies-keeps}
use samdisk_plus.Track.{Track, find_if, is_empty, get_data_rate}
use samdisk_plus.Track.Add.{
  AddedSector, insert_at, end_index, Place, place, merge_at, merge_sector, add_at, add_sector,
  add_sectors, add_track, is_unchanged,
}
use samdisk_plus.Track.Positions.{Holds, find_if-Holds}
use samdisk_plus.Track.Order.{Held, Ascends, IsTrack}
use samdisk_plus.Track.Keeps.{add_sector-IsTrack}

-- A sector of the list has the offset.
abbrev pub HasOffset : ℕ → List Sector → Type 0
HasOffset offset [] = ⊥
HasOffset offset (s ∷ ss) = (s.offset ≡ offset) ⊎ HasOffset offset ss

insert-HasOffset :
    (i offset : ℕ) (s : Sector) (ss : List Sector)
    → HasOffset offset ss
    → HasOffset offset (insert_at i s ss)
insert-HasOffset i offset s [] h = absurd h
insert-HasOffset zero offset s (r ∷ ss) h = inr h
insert-HasOffset (suc i) offset s (r ∷ ss) (inl e) = inl e
insert-HasOffset (suc i) offset s (r ∷ ss) (inr h) = inr (insert-HasOffset i offset s ss h)

insert_new : (i : ℕ) (s : Sector) (ss : List Sector) → HasOffset s.offset (insert_at i s ss)
insert_new zero s ss = inl refl
insert_new (suc i) s [] = inl refl
insert_new (suc i) s (r ∷ ss) = inr (insert_new i s ss)

append-HasOffset :
    (offset : ℕ) (ss rs : List Sector) → HasOffset offset ss → HasOffset offset (ss ++ rs)
append-HasOffset offset [] rs h = absurd h
append-HasOffset offset (r ∷ ss) rs (inl e) = inl e
append-HasOffset offset (r ∷ ss) rs (inr h) = inr (append-HasOffset offset ss rs h)

append_new : (s : Sector) (ss : List Sector) → HasOffset s.offset (ss ++ s ∷ [])
append_new s [] = inl refl
append_new s (r ∷ ss) = inr (append_new s ss)

set-HasOffset :
    (i offset : ℕ) (new old : Sector) (ss : List Sector)
    → get_elem? ss i ≡ some old
    → new.offset ≡ old.offset
    → HasOffset offset ss
    → HasOffset offset (set ss i new)
set-HasOffset i offset new old [] g e h = absurd h
set-HasOffset zero offset new old (r ∷ ss) g e (inl at) =
    inl (e ∙ ap (λ t. t.offset) (sym (some-injective _ _ g)) ∙ at)
set-HasOffset zero offset new old (r ∷ ss) g e (inr h) = inr h
set-HasOffset (suc i) offset new old (r ∷ ss) g e (inl at) = inl at
set-HasOffset (suc i) offset new old (r ∷ ss) g e (inr h) =
    inr (set-HasOffset i offset new old ss g e h)

get_elem?-HasOffset :
    (i : ℕ) (r : Sector) (ss : List Sector) → get_elem? ss i ≡ some r → HasOffset r.offset ss
get_elem?-HasOffset i r [] g = absurd (none-ne-some _ g)
get_elem?-HasOffset zero r (s ∷ ss) g = inl (ap (λ t. t.offset) (some-injective _ _ g))
get_elem?-HasOffset (suc i) r (s ∷ ss) g = inr (get_elem?-HasOffset i r ss g)

module _ (o : Options) (combined : ℕ → ℕ → ℕ → ℕ → ℕ) where
  -- The offset is that of the sector, or one that is tolerated as the same.
  abbrev pub Near : ℕ → Sector → ℕ → Type 0
  Near tracklen s offset =
      (offset ≡ s.offset)
      ⊎ (are_offsets_tolerated_same s.offset offset s.encoding o.byte_tolerance_of_time tracklen
            true
          ≡ true)

  -- From `t` to `u` a sector was added.
  record Added (s : Sector) (t u : Track) : Type 0 where
    pub tracklen_is : u.tracklen ≡ t.tracklen
    pub tracktime_is : u.tracktime ≡ t.tracktime
    pub stays : (offset : ℕ) → HasOffset offset t.sectors → HasOffset offset u.sectors
    pub reached : (offset : ℕ) × HasOffset offset u.sectors × Near t.tracklen s offset

  abbrev AddedIfAny : Sector → Track → Option AddedSector → Type 0
  AddedIfAny s t none = Unit
  AddedIfAny s t (some a) = Added s t a.track

  merge_at-Added :
      (i : ℕ) (s old : Sector) (t : Track)
      → get_elem? t.sectors i ≡ some old
      → Near t.tracklen s old.offset
      → Added s t (merge_at o combined i s old t).track
  unfolding merge_at
  merge_at-Added i s old t g near =
      let new = (merge o combined s old).0 in
      let same =
        merge-keeps (λ r. r.offset) (λ _ _ _ _ _. refl) o combined (λ _ _ _. refl) (λ _ _. refl) s
          old in
      let put : (r : Sector)
          → r.offset ≡ old.offset
          → Added s t (record t { sectors = set t.sectors i r }) =
        λ r e. record {
          tracklen_is = refl;
          tracktime_is = refl;
          stays = λ offset. set-HasOffset i offset r old t.sectors g e;
          reached = (
            old.offset,
            set-HasOffset i old.offset r old t.sectors g e (get_elem?-HasOffset i old t.sectors g),
            near,
          );
        } in
      if_both (λ (a : AddedSector). Added s t a.track) (is_unchanged (merge o combined s old).1) _ _
        (λ _. put new same)
        (λ _.
          if_both (Added s t) _ (record t { sectors = set t.sectors i (limit_copies 1 new) })
            (record t { sectors = set t.sectors i new })
            (λ _.
              put (limit_copies 1 new)
                (limit_copies-keeps (λ r. r.offset) (λ _ _ _ _ _. refl) 1 new ∙ same))
            (λ _. put new same))

  -- A place into a sector is one of a tolerated offset.
  IsNear : Sector → Track → Place → Type 0
  IsNear s t Place.at_end = Unit
  IsNear s t (Place.before i) = Unit
  IsNear s t (Place.into i) =
      (r : Sector) × (get_elem? t.sectors i ≡ some r) × Near t.tracklen s r.offset

  place-IsNear : (s : Sector) (t : Track) → IsNear s t (place o s t)
  unfolding place IsNear is_sector_tolerated_same
  place-IsNear s t =
      let test : Sector → Bool =
        λ r. is_sector_tolerated_same r.header r.offset o.byte_tolerance_of_time t.tracklen s in
      if_both (IsNear s t) (s.offset == 0) Place.at_end _ (λ _. tt)
        (λ _. found (find_if test 0 t.sectors) (find_if-Holds test t.sectors))
    where
      before_it : Place
      before_it =
          Place.before (end_index t.sectors (find_if (λ r. ltb s.offset r.offset) 0 t.sectors))

      found :
          (r : Option ℕ)
          → Holds
              (λ r.
                is_sector_tolerated_same r.header r.offset o.byte_tolerance_of_time t.tracklen s)
              t.sectors
              r
          → IsNear s t (elim r [ none ↦ before_it | some i ↦ Place.into i ])
      found none h = tt
      found (some i) (r, g, e) = (r, g, inr (ground arith))

  add_at-AddedIfAny :
      (s : Sector) (t : Track) (p : Place) → IsNear s t p → AddedIfAny s t (add_at o combined s t p)
  unfolding add_at IsNear merge_sector
  add_at-AddedIfAny s t Place.at_end h = record {
    tracklen_is = refl;
    tracktime_is = refl;
    stays = λ offset. append-HasOffset offset t.sectors (s ∷ []);
    reached = (s.offset, append_new s t.sectors, inl refl);
  }
  add_at-AddedIfAny s t (Place.before i) h = record {
    tracklen_is = refl;
    tracktime_is = refl;
    stays = λ offset. insert-HasOffset i offset s t.sectors;
    reached = (s.offset, insert_new i s t.sectors, inl refl);
  }
  add_at-AddedIfAny s t (Place.into i) (old, g, near) =
      if_both (AddedIfAny s t) (not (same_datarate (get_data_rate t) s.datarate)) none _ (λ _. tt)
        (λ _.
          subst (λ r. AddedIfAny s t (r >>= λ old. some (merge_at o combined i s old t))) (sym g)
            (merge_at-Added i s old t g near))

  add_sector-Added :
      (s : Sector) (t : Track) (a : AddedSector)
      → add_sector o combined s t ≡ some a
      → Added s t a.track
  unfolding add_sector
  add_sector-Added s t a e = subst (AddedIfAny s t) e (
      if_both (AddedIfAny s t)
        (not (is_empty t) && not (same_datarate (get_data_rate t) s.datarate)) none _ (λ _. tt)
        (λ _. add_at-AddedIfAny s t (place o s t) (place-IsNear s t)))

  -- Each sector of the list has its place among the others: a sector of its offset, or of one that is
  -- tolerated as the same.
  abbrev pub AllReached : ℕ → List Sector → List Sector → Type 0
  AllReached tracklen [] us = Unit
  AllReached tracklen (s ∷ ss) us =
      ((offset : ℕ) × HasOffset offset us × Near tracklen s offset) × AllReached tracklen ss us

  module _ (rate lim : ℕ) where
    -- What is promised of the track to which sectors were added.
    pub record Joined (ss : List Sector) (t u : Track) : Type 0 where
      pub is_track : IsTrack o rate lim u
      pub tracklen_is : u.tracklen ≡ t.tracklen
      pub tracktime_is : u.tracktime ≡ t.tracktime
      pub stays : (offset : ℕ) → HasOffset offset t.sectors → HasOffset offset u.sectors
      pub reached : AllReached t.tracklen ss u.sectors

    abbrev AllHeld : List Sector → Type 0
    AllHeld [] = Unit
    AllHeld (s ∷ ss) = Held o rate lim s × AllHeld ss

    Ascends-AllHeld : (m : ℕ) (ss : List Sector) → Ascends o rate lim m ss → AllHeld ss
    Ascends-AllHeld m [] a = tt
    Ascends-AllHeld m (s ∷ ss) a = (a.1, Ascends-AllHeld s.offset ss a.2)

    add_sectors-Joined :
        (ss : List Sector) (t : Track)
        → AllHeld ss
        → IsTrack o rate lim t
        → (u : Track) × (add_sectors o combined (λ _. true) ss t ≡ some u) × Joined ss t u
    unfolding add_sectors
    add_sectors-Joined [] t h v = (
      t,
      refl,
      record {
        is_track = v;
        tracklen_is = refl;
        tracktime_is = refl;
        stays = λ _ at. at;
        reached = tt;
      },
    )
    add_sectors-Joined (s ∷ ss) t h v =
        let (a, e, w, _) = add_sector-IsTrack o combined rate lim s t h.0 v in
        let one = add_sector-Added s t a e in
        let (u, e', all) = add_sectors-Joined ss a.track h.1 w in
        let (offset, at, near) = one.reached in
        (
          u,
          ap (λ r. (r >>= λ a. some a.track) >>= add_sectors o combined (λ _. true) ss) e ∙ e',
          record {
            is_track = all.is_track;
            tracklen_is = all.tracklen_is ∙ one.tracklen_is;
            tracktime_is = all.tracktime_is ∙ one.tracktime_is;
            stays = λ n there. all.stays n (one.stays n there);
            reached = (
              (offset, all.stays offset at, near),
              subst (λ n. AllReached n ss u.sectors) one.tracklen_is all.reached,
            );
          },
        )

    -- One track is always added to another of its data rate. The sum is a track: its offsets ascend
    -- and its sectors are valid. It has the greater length and the greater time of the two, a sector at
    -- each offset of the one that was added to, and for each sector of the other a sector at its offset
    -- or at one that is tolerated as the same.
    pub add_track-Joined :
        (other t : Track)
        → IsTrack o rate lim other
        → IsTrack o rate lim t
        → (u : Track) × (add_track o combined other t ≡ some u)
          × Joined other.sectors
              (record t {
                tracklen = max t.tracklen other.tracklen;
                tracktime = max t.tracktime other.tracktime;
              })
              u
    unfolding add_track
    add_track-Joined other t h v =
        add_sectors-Joined other.sectors (record t { tracklen = _; tracktime = _ })
          (Ascends-AllHeld 0 other.sectors h) v
