-- ===== src/Interval/Ringed.antt =====
-- What the intervals on a ring mean.
use samdisk_plus.Prelude.{ℕ, ◌+◌, ◌-◌, max, leb, ◌≤◌, ◌<◌, ◌≡◌, ◌↔◌, true, if◌then◌else◌, arith}
use samdisk_plus.Interval.{
  Interval, is_ringed_within, is_ringed_intersecting, is_within_ringed_interval,
  ringed_intervals_intersect,
}

-- The steps from one place to another on a ring of `m` places.
unfoldable pub steps : ℕ → ℕ → ℕ → ℕ
steps m a b = if leb a b then b - a else b + m - a

-- On a ring a place is within an interval exactly if it comes no later than the end on the way from
-- the start.
pub is_ringed_within_iff :
    (m s e x : ℕ)
    → s < m
    → e < m
    → x < m
    → (is_ringed_within s e x ≡ true) ↔ (steps m s x ≤ steps m s e)
unfolding is_ringed_within steps
is_ringed_within_iff m s e x p q r = ground arith

-- A place that two ringed intervals share, if they do.
common : ℕ → ℕ → ℕ → ℕ → ℕ
common s1 e1 s2 e2 =
    if is_ringed_within s1 e1 s2 then s2 else (if is_ringed_within s2 e2 s1 then s1 else max s1 s2)

intersecting-common :
    (m s1 e1 s2 e2 : ℕ)
    → s1 < m
    → s2 < m
    → is_ringed_intersecting s1 e1 s2 e2 ≡ true
    → (common s1 e1 s2 e2 < m)
      × (is_ringed_within s1 e1 (common s1 e1 s2 e2) ≡ true)
      × (is_ringed_within s2 e2 (common s1 e1 s2 e2) ≡ true)
unfolding common is_ringed_within is_ringed_intersecting
intersecting-common m s1 e1 s2 e2 p q h = ground arith

within-intersecting :
    (s1 e1 s2 e2 x : ℕ)
    → is_ringed_within s1 e1 x ≡ true
    → is_ringed_within s2 e2 x ≡ true
    → is_ringed_intersecting s1 e1 s2 e2 ≡ true
unfolding is_ringed_within is_ringed_intersecting
within-intersecting s1 e1 s2 e2 x p q = ground arith

-- Two intervals on a ring intersect exactly if they have a place of the ring in common.
pub ringed_intervals_intersect_iff :
    (m : ℕ) (l r : Interval)
    → l.start < m
    → r.start < m
    → (ringed_intervals_intersect l r ≡ true) ↔ (
        (x : ℕ) × (x < m)
        × (is_within_ringed_interval l x ≡ true)
        × (is_within_ringed_interval r x ≡ true))
unfolding ringed_intervals_intersect is_within_ringed_interval
ringed_intervals_intersect_iff m l r p q = (
  λ h.
      let c = intersecting-common m l.start l.end r.start r.end p q (ground arith) in
      (common l.start l.end r.start r.end, c.0, (ground arith), (ground arith)),
  λ w.
      let both =
        within-intersecting l.start l.end r.start r.end w.0 (ground arith) (ground arith) in
      ground arith,
)
