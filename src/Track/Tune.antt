-- ===== src/Track/Tune.antt =====
-- Moving the offset of a sector in src/Track.cpp keeps the order of the track.
pub mod Moved
use samdisk_plus.Prelude.{
  ℕ, zero, suc, ◌+◌, ◌-◌, ◌==◌, ltb, leb, ◌≤◌, ◌<◌, ◌≡◌, refl, ap, sym, ◌∙◌, Bool, true, false, not,
  ◌&&◌, ◌||◌, List, [], ◌∷◌, ◌++◌, if◌then◌else◌, length, get_elem?, set, take, drop, replicate,
  arith, Option, none, some, Bool-cases, inl, inr, if_both, length-append,
}
use mathlib.Core.Path.{subst}
use samdisk_plus.Sector.{Sector}
use samdisk_plus.Track.Add.{insert_at}
use samdisk_plus.Track.Offsets.{position_down, position_up, move_sector, set_sector_offset_at}

-- Offsets that ascend from `m`.
abbrev pub Sorted : ℕ → List Sector → Type 0
Sorted m [] = Unit
Sorted m (s ∷ ss) = (m ≤ s.offset) × Sorted s.offset ss

pub Sorted-weaken : (m n : ℕ) (ss : List Sector) → m ≤ n → Sorted n ss → Sorted m ss
Sorted-weaken m n [] h a = tt
Sorted-weaken m n (s ∷ ss) h a = (omega arith, a.1)

pub insert_up-Sorted :
    (m offset : ℕ) (s : Sector) (ss : List Sector)
    → s.offset ≡ offset
    → m ≤ offset
    → Sorted m ss
    → Sorted m (insert_at (position_up offset ss) s ss)
unfolding position_up
insert_up-Sorted m offset s [] e h a = (omega arith, tt)
insert_up-Sorted m offset s (r ∷ ss) e h a =
    let P : ℕ → Type 0 = λ i. Sorted m (insert_at i s (r ∷ ss)) in
    let here = a.0 in
    if_both P (ltb r.offset offset) (suc (position_up offset ss)) 0
      (λ lt. (here, insert_up-Sorted r.offset offset s ss e (ground arith) a.1))
      (λ ge. (omega arith, (ground arith, a.1)))

-- A sector that is not passed has no greater offset, nor does one before it.
position_down_le :
    (m offset : ℕ) (before after : List Sector)
    → Sorted m (before ++ after)
    → (position_down offset before == 0) ≡ false
    → m ≤ offset
unfolding position_down
position_down_le m offset [] after a h = ground arith
position_down_le m offset (r ∷ ss) after a h =
    let here = a.0 in
    elim (Bool-cases (position_down offset ss == 0)) [
      | inl e ↦ ground arith
      | inr e ↦ let rest = position_down_le r.offset offset ss after a.1 e in omega arith
    ]

pub insert_down-Sorted :
    (m offset : ℕ) (s : Sector) (before after : List Sector)
    → s.offset ≡ offset
    → m ≤ offset
    → Sorted offset after
    → Sorted m (before ++ after)
    → Sorted m (insert_at (position_down offset before) s before ++ after)
unfolding position_down
insert_down-Sorted m offset s [] after e h b a =
    (omega arith, subst (λ k. Sorted k after) (sym e) b)
insert_down-Sorted m offset s (r ∷ ss) after e h b a =
    let P : ℕ → Type 0 = λ i. Sorted m (insert_at i s (r ∷ ss) ++ after) in
    let here = a.0 in
    if_both P ((position_down offset ss == 0) && ltb offset r.offset) 0
      (suc (position_down offset ss)) (λ gt. (omega arith, (ground arith, a.1)))
      (λ le. (
        here,
        insert_down-Sorted r.offset offset s ss after e
            (elim (Bool-cases (position_down offset ss == 0)) [
              | inl z ↦ ground arith
              | inr z ↦ position_down_le r.offset offset ss after a.1 z
            ])
            b a.1,
      ))
