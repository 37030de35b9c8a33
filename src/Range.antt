-- ===== src/Range.antt =====
-- include/Range.h and src/Range.cpp: ranges of cylinders and heads. `each` calls a function on every
-- track of the range: the function is a step on a state, since it is called for its effect. The
-- printing is not modelled.
pub mod Visits
use samdisk_plus.Prelude.{ℕ, zero, suc, ◌+◌, ◌-◌, ltb, leb, Bool, ◌&&◌, ◌||◌, if◌then◌else◌}
use samdisk_plus.Header.{CylHead}

-- Both ends are those of the source: the first is within, the last is not.
pub record Range : Type 0 where
  pub cyl_begin : ℕ
  pub cyl_end : ℕ
  pub head_begin : ℕ
  pub head_end : ℕ

-- `Range(num_cyls, num_heads)`
unfoldable pub new_range : ℕ → ℕ → Range
new_range num_cyls num_heads = record {
  cyl_begin = 0;
  cyl_end = num_cyls;
  head_begin = 0;
  head_end = num_heads;
}

unfoldable pub cyls : Range → ℕ
cyls r = r.cyl_end - r.cyl_begin

unfoldable pub heads : Range → ℕ
heads r = r.head_end - r.head_begin

-- Below 0 there is nothing either.
unfoldable pub empty : Range → Bool
unfolding cyls heads
empty r = leb (cyls r) 0 || leb (heads r) 0

unfoldable pub contains : Range → CylHead → Bool
contains r at =
    (leb r.cyl_begin at.cyl && ltb at.cyl r.cyl_end)
    && (leb r.head_begin at.head && ltb at.head r.head_end)

-- `for (auto i = begin; i < end; ++i)`, for `count` values.
pub for_each {ℓ} : {S : Type ℓ} → ℕ → ℕ → (ℕ → S → S) → S → S
for_each begin zero func s = s
for_each begin (suc count) func s = for_each (suc begin) count func (func begin s)

unfoldable pub each {ℓ} : {S : Type ℓ} → (CylHead → S → S) → Bool → Range → S → S
unfolding cyls heads for_each
each func cyls_first r s =
    if cyls_first && ltb 1 (heads r)
    then for_each r.head_begin (heads r)
        (λ head. for_each r.cyl_begin (cyls r) (λ cyl. func (record { cyl = cyl; head = head }))) s
    else for_each r.cyl_begin (cyls r)
        (λ cyl. for_each r.head_begin (heads r) (λ head. func (record { cyl = cyl; head = head })))
        s
