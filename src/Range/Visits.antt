-- ===== src/Range/Visits.antt =====
-- The tracks that `Range::each` visits.
use samdisk_plus.Prelude.{
  ℕ, zero, suc, ◌+◌, ◌==◌, ltb, leb, Bool, true, false, ◌&&◌, if◌then◌else◌, ◌≡◌, ◌∙◌, arith,
}
use samdisk_plus.Header.{CylHead}
use samdisk_plus.Range.{Range, cyls, heads, contains, for_each, each}

-- Count the visits of one track.
abbrev pub count_visit : CylHead → CylHead → ℕ → ℕ
count_visit at x n = if (x.cyl == at.cyl) && (x.head == at.head) then suc n else n

-- A loop over steps that add one at `y` alone adds one if it passes `y`.
for_each-counts :
    (begin count y : ℕ) (c : Bool) (f : ℕ → ℕ → ℕ) (n : ℕ)
    → ((x k : ℕ) → f x k ≡ k + (if (x == y) && c then 1 else 0))
    → for_each begin count f n ≡ n + (if leb begin y && ltb y (begin + count) && c then 1 else 0)
unfolding for_each
for_each-counts begin zero y c f n h = ground arith
for_each-counts begin (suc count) y c f n h =
    for_each-counts (suc begin) count y c f (f begin n) h ∙ ground (arith, h begin n)

-- `each`, in either order, calls the function once for every track of the range and for no other:
-- counted over the calls, a track occurs once if `contains` accepts it and not at all otherwise.
pub each-contains :
    (at : CylHead) (cyls_first : Bool) (r : Range)
    → each (count_visit at) cyls_first r 0 ≡ (if contains r at then 1 else 0)
unfolding each contains cyls heads
each-contains at cyls_first r = pick (cyls_first && ltb 1 (heads r))
  where
    by_heads : ℕ
    by_heads =
        for_each r.head_begin (heads r)
          (λ head.
            for_each r.cyl_begin (cyls r)
              (λ cyl. count_visit at (record { cyl = cyl; head = head })))
          0

    by_cyls : ℕ
    by_cyls =
        for_each r.cyl_begin (cyls r)
          (λ cyl.
            for_each r.head_begin (heads r)
              (λ head. count_visit at (record { cyl = cyl; head = head })))
          0

    in_cyls : Bool
    in_cyls = leb r.cyl_begin at.cyl && ltb at.cyl (r.cyl_begin + cyls r)

    in_heads : Bool
    in_heads = leb r.head_begin at.head && ltb at.head (r.head_begin + heads r)

    first : by_heads ≡ (if contains r at then 1 else 0)
    first =
        for_each-counts r.head_begin (heads r) at.head in_cyls _ 0 (λ head k.
          for_each-counts r.cyl_begin (cyls r) at.cyl (head == at.head) _ k (λ x n. ground arith)
          ∙ ground arith)
        ∙ ground arith

    second : by_cyls ≡ (if contains r at then 1 else 0)
    second =
        for_each-counts r.cyl_begin (cyls r) at.cyl in_heads _ 0 (λ cyl k.
          for_each-counts r.head_begin (heads r) at.head (cyl == at.cyl) _ k (λ x n. ground arith)
          ∙ ground arith)
        ∙ ground arith

    pick : (c : Bool) → (if c then by_heads else by_cyls) ≡ (if contains r at then 1 else 0)
    pick true = first
    pick false = second
