-- ===== src/RingedInt.antt =====
-- include/RingedInt.h: a number on a ring from `min` up to, but without, `sup`. The bounds and the
-- number itself are not negative; what is assigned, added or subtracted may be.
pub mod Ring
use samdisk_plus.Prelude.{
  ℕ, ◌+◌, ◌-◌, ◌==◌, ltb, leb, Bool, true, false, not, ◌&&◌, ◌||◌, if◌then◌else◌,
}
use samdisk_plus.Prelude.Int.{ℤ, pos, ◌+ℤ◌, ◌-ℤ◌}
use samdisk_plus.Ibm.Cohere.{modulo}

pub record RingedInt : Type 0 where
  pub value : ℕ
  pub min : ℕ
  pub sup : ℕ

-- `Max`
abbrev pub ring_max : RingedInt → ℕ
ring_max r = r.sup - 1

abbrev pub is_empty : RingedInt → Bool
is_empty r = r.sup == r.min

unfoldable pub value_to_ringed_int : ℤ → RingedInt → ℕ
unfolding modulo
value_to_ringed_int value r =
    if is_empty r then r.min else modulo (value -ℤ pos r.min) (r.sup - r.min) + r.min

-- `operator=`
unfoldable pub assign : ℤ → RingedInt → RingedInt
unfolding value_to_ringed_int
assign value r = record r { value = value_to_ringed_int value r }

unfoldable pub new_ringed_int : ℤ → ℕ → ℕ → RingedInt
unfolding assign
new_ringed_int value sup min = assign value (record { value = min; min = min; sup = sup })

unfoldable pub set_sup : ℕ → RingedInt → RingedInt
set_sup sup r = record r { sup = sup }

-- `operator+=`, which is also `operator+`.
unfoldable pub plus : ℤ → RingedInt → RingedInt
unfolding assign
plus value r = assign (pos (value_to_ringed_int (pos r.value +ℤ value) r)) r

-- `operator-=`, which is also `operator-`.
unfoldable pub minus : ℤ → RingedInt → RingedInt
unfolding assign
minus value r = assign (pos (value_to_ringed_int (pos r.value -ℤ value) r)) r

-- `operator++`
unfoldable pub increment : RingedInt → RingedInt
increment r =
    let next = if is_empty r || (r.value + 1 == r.sup) then r.min else r.value + 1 in
    record r { value = next }

-- `operator--`
unfoldable pub decrement : RingedInt → RingedInt
decrement r =
    let last = if r.value == r.min then r.sup - 1 else r.value - 1 in
    record r { value = if is_empty r then r.min else last }

-- `PreIncUnwrapped`
unfoldable pub increment_unwrapped : RingedInt → RingedInt
increment_unwrapped r = record r { value = if is_empty r then r.min else r.value + 1 }

unfoldable pub same_ringed_int : RingedInt → RingedInt → Bool
same_ringed_int l r = (l.value == r.value) && ((l.min == r.min) && (l.sup == r.sup))
