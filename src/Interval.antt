-- ===== src/Interval.antt =====
-- include/Interval.h: intervals of numbers, also on a ring, where an interval may start after its
-- end. The numbers are the offsets, ids and times of the program, which are not negative, and the
-- exceptions of an empty interval are `none`.
pub mod Ringed
use samdisk_plus.Prelude.{
  ℕ, ◌+◌, ◌-◌, ◌==◌, min, max, ltb, leb, Bool, true, false, not, ◌&&◌, ◌||◌, if◌then◌else◌, Option,
  none, some,
}
use samdisk_plus.Prelude.Int.{ℤ, sub_ℕ, pos, ltb_ℤ, ◌+ℤ◌, ◌-ℤ◌}

unfoldable pub is_intersecting_left_right : ℕ → ℕ → ℕ → ℕ → Bool
is_intersecting_left_right left1 right1 left2 right2 = leb left1 right2 && leb left2 right1

unfoldable pub is_intersecting : ℕ → ℕ → ℕ → ℕ → Bool
unfolding is_intersecting_left_right
is_intersecting s1 e1 s2 e2 =
    is_intersecting_left_right (min s1 e1) (max s1 e1) (min s2 e2) (max s2 e2)

unfoldable pub is_ringed_within : ℕ → ℕ → ℕ → Bool
is_ringed_within s1 e1 x = if leb s1 e1 then leb s1 x && leb x e1 else leb s1 x || leb x e1

-- The last test of the source is left out, being true.
unfoldable pub is_ringed_intersecting : ℕ → ℕ → ℕ → ℕ → Bool
is_ringed_intersecting s1 e1 s2 e2 =
    if leb s1 e1 && leb s2 e2
    then leb s1 e2 && leb s2 e1
    else (if (ltb e1 s1 && leb s2 e2) || (leb s1 e1 && ltb e2 s2)
        then leb s1 e2 || leb s2 e1
        else ltb e1 s1 && ltb e2 s2)

pub data Location : Type 0 where
  less within greater : Location

pub record Interval : Type 0 where
  pub start : ℕ
  pub end : ℕ
  pub is_empty : Bool

abbrev pub empty_interval : Interval
empty_interval = record { start = 0; end = 0; is_empty = true }

pub data ConstructMode : Type 0 where
  start_and_end start_and_length start_and_size : ConstructMode

unfoldable pub new_interval : ℕ → ℕ → ConstructMode → Interval
new_interval start other ConstructMode.start_and_end = record {
  start = start;
  end = other;
  is_empty = false;
}
new_interval start other ConstructMode.start_and_length = record {
  start = start;
  end = start + other;
  is_empty = false;
}
new_interval start other ConstructMode.start_and_size = record {
  start = start;
  end = if ltb 0 other then start + other - 1 else start + other + 1;
  is_empty = other == 0;
}

unfoldable pub where_is : ℕ → Interval → Option Location
where_is x i =
    if i.is_empty
    then none
    else (if ltb (max i.start i.end) x
        then some Location.greater
        else (if ltb x (min i.start i.end) then some Location.less else some Location.within))

unfoldable pub interval_length : Interval → Option ℤ
interval_length i = if i.is_empty then none else some (sub_ℕ i.end i.start)

-- `AbsLength`
unfoldable pub abs_length : Interval → Option ℕ
abs_length i = if i.is_empty then none else some ((i.end - i.start) + (i.start - i.end))

-- `Size`
unfoldable pub interval_size : Interval → Option ℤ
unfolding interval_length
interval_size i = elim (interval_length i) [
  | none ↦ none
  | some l ↦ some (if ltb_ℤ l (pos 0) then l -ℤ pos 1 else l +ℤ pos 1)
]

unfoldable pub intervals_intersect : Interval → Interval → Bool
unfolding is_intersecting
intervals_intersect l r =
    not (l.is_empty || r.is_empty) && is_intersecting l.start l.end r.start r.end

unfoldable pub is_within_ringed_interval : Interval → ℕ → Bool
unfolding is_ringed_within
is_within_ringed_interval l x = not l.is_empty && is_ringed_within l.start l.end x

unfoldable pub ringed_intervals_intersect : Interval → Interval → Bool
unfolding is_ringed_intersecting
ringed_intervals_intersect l r =
    not (l.is_empty || r.is_empty) && is_ringed_intersecting l.start l.end r.start r.end
