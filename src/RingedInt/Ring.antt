-- ===== src/RingedInt/Ring.antt =====
-- The laws of numbers on a ring.
use samdisk_plus.Prelude.{
  ℕ, ◌+◌, ◌-◌, ◌%◌, ◌==◌, ◌≤◌, ◌<◌, ◌≡◌, refl, ap, sym, ◌∙◌, arith, if_both, Bool-cases, inl, inr,
}
use samdisk_plus.Prelude.Int.{ℤ, pos, ◌+ℤ◌, ◌-ℤ◌, eq_of_parts, +ℤ_parts, -ℤ_parts}
use native.Mathlib.Nat.{mod-eq_of_lt, mod_self}
use samdisk_plus.Ibm.Cohere.{modulo, modulo_lt}
use samdisk_plus.RingedInt.{
  RingedInt, is_empty, value_to_ringed_int, assign, plus, increment, decrement,
}

-- A ring that is not empty, with a number on it.
pub record OnRing (r : RingedInt) : Type 0 where
  pub lower : r.min ≤ r.value
  pub upper : r.value < r.sup

same_value : (r : RingedInt) (a b : ℕ) → a ≡ b → record r { value = a } ≡ record r { value = b }
same_value r a b e = ap (λ n. record r { value = n }) e

-- Every value is brought onto a ring that is not empty.
pub assign-OnRing : (value : ℤ) (r : RingedInt) → r.min < r.sup → OnRing (assign value r)
unfolding assign value_to_ringed_int
assign-OnRing value r h =
    if_both (λ n. OnRing (record r { value = n })) (is_empty r) r.min _
      (λ e. record { lower = omega arith; upper = h })
      (λ e.
        let below = modulo_lt (value -ℤ pos r.min) (r.sup - r.min) (omega arith) in
        record { lower = omega arith; upper = omega arith })

-- An incremented number is a decremented one before, and the other way round.
pub decrement-increment : (r : RingedInt) → OnRing r → decrement (increment r) ≡ r
unfolding decrement increment
decrement-increment r h =
    let l = h.lower in let u = h.upper in same_value r _ r.value (ground arith)

pub increment-decrement : (r : RingedInt) → OnRing r → increment (decrement r) ≡ r
unfolding decrement increment
increment-decrement r h =
    let l = h.lower in let u = h.upper in same_value r _ r.value (ground arith)

pos_difference : (a b : ℕ) → b ≤ a → pos a -ℤ pos b ≡ pos (a - b)
pos_difference a b h = eq_of_parts _ _ (let p = -ℤ_parts (pos a) (pos b) in omega arith)

pos_sum : (a b : ℕ) → pos a +ℤ pos b ≡ pos (a + b)
pos_sum a b = eq_of_parts _ _ (let p = +ℤ_parts (pos a) (pos b) in omega arith)

-- A number on the ring keeps its value.
on_ring_value : (n : ℕ) (r : RingedInt) → r.min ≤ n → n < r.sup → value_to_ringed_int (pos n) r ≡ n
unfolding value_to_ringed_int modulo
on_ring_value n r l u =
    if_both (λ v. v ≡ n) (is_empty r) r.min _ (λ e. ground arith)
      (λ _.
        ap (λ d. modulo d (r.sup - r.min) + r.min) (pos_difference n r.min l)
        ∙ ap (λ d. d + r.min) (mod-eq_of_lt (omega arith))
        ∙ omega arith)

-- The end of the ring is its start.
end_value :
    (n : ℕ) (r : RingedInt) → r.min < r.sup → n ≡ r.sup → value_to_ringed_int (pos n) r ≡ r.min
unfolding value_to_ringed_int modulo
end_value n r h e =
    if_both (λ v. v ≡ r.min) (is_empty r) r.min _ (λ _. refl)
      (λ _.
        ap (λ d. modulo d (r.sup - r.min) + r.min) (pos_difference n r.min (omega arith))
        ∙ ap (λ d. d % (r.sup - r.min) + r.min) (ap (λ k. k - r.min) e)
        ∙ ap (λ d. d + r.min) (mod_self (r.sup - r.min))
        ∙ omega arith)

-- What an addition gives is on the ring, where assigning it again changes nothing.
plus-on_ring :
    (r : RingedInt) (n k : ℕ)
    → r.min ≤ k
    → k < r.sup
    → value_to_ringed_int (pos (r.value + n)) r ≡ k
    → plus (pos n) r ≡ record r { value = k }
unfolding plus assign
plus-on_ring r n k l u e =
    ap (λ v. assign (pos (value_to_ringed_int v r)) r) (pos_sum r.value n)
    ∙ ap (λ v. assign (pos v) r) e
    ∙ same_value r _ k (on_ring_value k r l u)

-- On a ring the increment is the addition of one.
pub increment-plus : (r : RingedInt) → OnRing r → increment r ≡ plus (pos 1) r
unfolding increment
increment-plus r h =
    let l = h.lower in
    let u = h.upper in
    elim (Bool-cases (r.value + 1 == r.sup)) [
      | inl e ↦
          same_value r _ r.min (ground arith)
          ∙ sym (
              plus-on_ring r 1 r.min (omega arith) (omega arith)
                (end_value (r.value + 1) r (omega arith) (ground arith)))
      | inr e ↦
          let inside : r.value + 1 < r.sup = ground arith in
          same_value r _ (r.value + 1) (ground arith)
          ∙ sym (
              plus-on_ring r 1 (r.value + 1) (omega arith) inside
                (on_ring_value (r.value + 1) r (omega arith) inside))
    ]
