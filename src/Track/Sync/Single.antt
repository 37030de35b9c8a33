-- ===== src/Track/Sync/Single.antt =====
-- A synced track is a track of one revolution.
use samdisk_plus.Prelude.{
  ℕ, ◌==◌, ◌<◌, ◌≡◌, refl, ap, sym, ◌∙◌, Bool, List, [], ◌∷◌, arith, Option, some, if_both,
}
use samdisk_plus.Prelude.Bind.{◌>>=◌}
use samdisk_plus.Prelude.Int.{ℤ, pos, ◌-ℤ◌}
use mathlib.Core.Path.{subst}
use samdisk_plus.Ibm.Cohere.{modulo, modulo_lt}
use samdisk_plus.Sector.{Options, Sector}
use samdisk_plus.Sector.Inv.{IsValid}
use samdisk_plus.Sector.Edit.{make_offset_not0}
use samdisk_plus.Track.{Track}
use samdisk_plus.Track.Order.{Held, Ascends, IsTrack, insert-Ascends}
use samdisk_plus.Track.Keeps.{add_sector-IsTrack}
use samdisk_plus.Track.Sync.{
  SyncMode, adjusted_sync, synced, sort_by_offset, add_synced, demultied,
  sync_and_demulti_this_track_to_offset,
}

module _ (o : Options) (combined : ℕ → ℕ → ℕ → ℕ → ℕ) (rate : ℕ) where
  synced-Held :
      (lim len : ℕ) (adjusted : ℤ) (demulti : Bool) (s : Sector)
      → 1 < len
      → Held o rate lim s
      → Held o rate len (synced adjusted demulti len s)
  unfolding synced make_offset_not0
  synced-Held lim len adjusted demulti s h held =
      let v = held.valid in
      let place = modulo (pos s.offset -ℤ adjusted) len in
      let below = modulo_lt (pos s.offset -ℤ adjusted) len (omega arith) in
      let v' : (n r : ℕ) → IsValid o (record s { offset = n; revolution = r }) = λ n r. record {
        stats = v.stats;
        few = v.few;
        even = v.even;
        single = v.single;
        headless = v.headless;
      } in
      if_both (λ (p : Sector × Bool). Held o rate len p.0) (place == 0) _ _
        (λ e. record {
          valid = v' _ _;
          positioned = omega arith;
          below = ground arith;
          same_rate = held.same_rate;
        })
        (λ e. record {
          valid = v' _ _;
          positioned = ground arith;
          below = below;
          same_rate = held.same_rate;
        })

  -- Each synced sector is added.
  add_synced-IsTrack :
      (lim : ℕ) (adjusted : ℤ) (demulti : Bool) (m : ℕ) (ss : List Sector) (t : Track)
      → 1 < t.tracklen
      → Ascends o rate lim m ss
      → IsTrack o rate t.tracklen t
      → (t' : Track) × (add_synced o combined adjusted demulti ss t ≡ some t')
        × IsTrack o rate t.tracklen t'
  unfolding add_synced
  add_synced-IsTrack lim adjusted demulti m [] t h asc v = (t, refl, v)
  add_synced-IsTrack lim adjusted demulti m (s ∷ ss) t h asc v =
      let held = synced-Held lim t.tracklen adjusted demulti s h asc.1 in
      let (a, e, w, len) =
        add_sector-IsTrack o combined rate t.tracklen (synced adjusted demulti t.tracklen s) t held
          v in
      let w' = subst (λ n. IsTrack o rate n a.track) (sym len) w in
      let (t', e', v') =
        add_synced-IsTrack lim adjusted demulti s.offset ss a.track (subst (λ n. 1 < n) (sym len) h)
          asc.2 w' in
      (
        t',
        ap (λ r. r >>= λ a. add_synced o combined adjusted demulti ss a.track) e ∙ e',
        subst (λ n. IsTrack o rate n t') len v',
      )

  sort_by_offset-Ascends :
      (lim m : ℕ) (ss : List Sector)
      → Ascends o rate lim m ss
      → Ascends o rate lim 0 (sort_by_offset ss)
  unfolding sort_by_offset
  sort_by_offset-Ascends lim m [] a = tt
  sort_by_offset-Ascends lim m (s ∷ ss) a =
      insert-Ascends o rate lim 0 s (sort_by_offset ss) (omega arith) a.1
        (sort_by_offset-Ascends lim s.offset ss a.2)

  -- Where the sync offset can be adjusted to the track, syncing succeeds and gives a track of one
  -- revolution of more than one bit: its sectors are valid, and their offsets ascend, are not 0 and
  -- lie below the length of the revolution.
  pub sync-IsTrack :
      (lim len_single : ℕ) (sync adjusted : ℤ) (demulti : Bool) (mode : SyncMode) (t : Track)
      → 1 < (demultied demulti len_single t).tracklen
      → adjusted_sync sync mode (demultied demulti len_single t).tracklen t.sectors ≡ some adjusted
      → IsTrack o rate lim t
      → (t' : Track) × (sync_and_demulti_this_track_to_offset o combined sync demulti mode
            len_single t
          ≡ some t')
        × IsTrack o rate (demultied demulti len_single t).tracklen t'
  unfolding sync_and_demulti_this_track_to_offset
  sync-IsTrack lim len_single sync adjusted demulti mode t h e v =
      let single = demultied demulti len_single t in
      let finish : Track → Option Track =
        λ added. some (record added { sectors = sort_by_offset added.sectors }) in
      let (added, e', w) =
        add_synced-IsTrack lim adjusted demulti 0 t.sectors (record single { sectors = [] }) h v
          tt in
      (
        record added { sectors = sort_by_offset added.sectors },
        ap
              (λ r. r >>= λ adjusted.
                add_synced o combined adjusted demulti t.sectors (record single { sectors = [] })
                >>= finish)
              e
            ∙ ap (λ r. r >>= finish) e',
        sort_by_offset-Ascends single.tracklen 0 added.sectors w,
      )
