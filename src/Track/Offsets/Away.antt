-- ===== src/Track/Offsets/Away.antt =====
-- `Track::EnsureNotAlmost0Offset` and `MakeOffsetsNot0` reach what they are for.
use samdisk_plus.Prelude.{
  ℕ, ◌+◌, ◌-◌, ◌==◌, ltb, ◌≤◌, ◌≡◌, Bool, false, ◌||◌, List, [], ◌∷◌, arith, if_both,
}
use mathlib.Core.Bool.{true≢false}
use samdisk_plus.Sector.{Sector}
use samdisk_plus.Sector.Edit.{make_offset_not0}
use samdisk_plus.Track.{Track}
use samdisk_plus.Track.Offsets.{
  offset_almost_0, shift_almost_0, ensure_not_almost_0_offset, make_offsets_not0,
}
use samdisk_plus.Track.Tune.{Sorted}

-- No offset is below `n`.
abbrev pub AllFrom : ℕ → List Sector → Type 0
AllFrom n [] = Unit
AllFrom n (s ∷ ss) = (n ≤ s.offset) × AllFrom n ss

Sorted-AllFrom : (m n : ℕ) (ss : List Sector) → n ≤ m → Sorted m ss → AllFrom n ss
Sorted-AllFrom m n [] h a = tt
Sorted-AllFrom m n (s ∷ ss) h a =
    let here = a.0 in (omega arith, Sorted-AllFrom s.offset n ss (omega arith) a.1)

shift_almost_0-AllFrom :
    (shift m : ℕ) (ss : List Sector)
    → offset_almost_0 ≤ m + shift
    → Sorted m ss
    → AllFrom offset_almost_0 (shift_almost_0 shift ss)
unfolding shift_almost_0
shift_almost_0-AllFrom shift m [] h a = tt
shift_almost_0-AllFrom shift m (s ∷ ss) h a =
    let here = a.0 in
    if_both (AllFrom offset_almost_0) (ltb s.offset offset_almost_0) _ (s ∷ ss)
      (λ _. (omega arith, shift_almost_0-AllFrom shift s.offset ss (omega arith) a.1))
      (λ e.
        let far : offset_almost_0 ≤ s.offset = ground arith in
        (far, Sorted-AllFrom s.offset offset_almost_0 ss far a.1))

-- On a track whose offsets ascend, no offset is below 16 afterwards.
pub ensure_not_almost_0_offset-AllFrom :
    (t : Track)
    → Sorted 0 t.sectors
    → AllFrom offset_almost_0 (ensure_not_almost_0_offset t).sectors
unfolding ensure_not_almost_0_offset
ensure_not_almost_0_offset-AllFrom t a = go t.sectors a
  where
    go :
        (ss : List Sector)
        → Sorted 0 ss
        → AllFrom offset_almost_0 (ensure_not_almost_0_offset (record t { sectors = ss })).sectors
    go [] a = tt
    go (s ∷ ss) a =
        shift_almost_0-AllFrom (offset_almost_0 - s.offset) s.offset (s ∷ ss) (omega arith)
          (omega arith, a.1)

-- Afterwards no offset is 0, and the result is whether one was.
pub make_offsets_not0-AllFrom :
    (ss : List Sector)
    → AllFrom 1 (make_offsets_not0 ss).0 × ((make_offsets_not0 ss).1 ≡ false → AllFrom 1 ss)
unfolding make_offsets_not0 make_offset_not0
make_offsets_not0-AllFrom [] = (tt, λ _. tt)
make_offsets_not0-AllFrom (s ∷ ss) =
    let (rest, unchanged) = make_offsets_not0-AllFrom ss in
    if_both
      (λ (p : Sector × Bool).
        ((1 ≤ p.0.offset) × AllFrom 1 (make_offsets_not0 ss).0)
        × (p.1 || (make_offsets_not0 ss).1 ≡ false → (1 ≤ s.offset) × AllFrom 1 ss))
      (s.offset == 0) _ _ (λ e. ((omega arith, rest), λ f. absurd (true≢false f)))
      (λ e. let here : 1 ≤ s.offset = ground arith in ((here, rest), λ f. (here, unchanged f)))
