-- ===== src/Flux/Builder/Time.antt =====
-- The time that the flux track builder writes.
use samdisk_plus.Prelude.{
  ℕ, ◌+◌, ◌*◌, ◌^◌, ◌%◌, ltb, ◌≡◌, Bool, true, false, if◌then◌else◌, List, [], ◌∷◌, ◌++◌, length,
  arith, refl, ◌⊎◌, inl, inr, ap₂, ◌∙◌,
}
use samdisk_plus.Prelude.Words.{u32}
use samdisk_plus.Flux.Builder.{Flux, add_raw_bit, pre_comp}

abbrev pub sum : List ℕ → ℕ
sum [] = 0
sum (x ∷ xs) = x + sum xs

sum-append : (xs : List ℕ) (x : ℕ) → sum (xs ++ x ∷ []) ≡ sum xs + x
sum-append [] x = omega arith
sum-append (y ∷ xs) x = omega (arith, sum-append xs x)

abbrev pub add_raw_bits : List Bool → Flux → Flux
add_raw_bits [] s = s
add_raw_bits (b ∷ bs) s = add_raw_bits bs (add_raw_bit b s)

-- The time written and the time that is due, in 32 bits.
abbrev pub elapsed : Flux → ℕ
elapsed s = (sum s.flux_times + s.flux_time) % 2 ^ 32

pre_comp-cancels :
    (last next : Bool)
    → ((pre_comp last next).0 + (pre_comp last next).1 ≡ 0)
      ⊎ ((pre_comp last next).0 + (pre_comp last next).1 ≡ 2 ^ 32)
unfolding pre_comp
pre_comp-cancels true true = inl refl
pre_comp-cancels true false = inr refl
pre_comp-cancels false true = inr refl
pre_comp-cancels false false = inl refl

add_raw_bit-elapsed :
    (b : Bool) (s : Flux) → elapsed (add_raw_bit b s) ≡ (elapsed s + s.bitcell) % 2 ^ 32
unfolding add_raw_bit
add_raw_bit-elapsed b s = split s.curr_bit (ltb s.cylhead.cyl 40)
  where
    time : ℕ
    time = u32 (s.flux_time + s.bitcell)

    split :
        (curr low : Bool)
        → (let (pre', back') : ℕ × ℕ = if low then (0, 0) else pre_comp s.last_bit b in
            elapsed (
              if curr
              then record s {
                last_bit = s.curr_bit;
                curr_bit = b;
                flux_times = s.flux_times ++ u32 (time + pre') ∷ [];
                flux_time = back';
              }
              else record s { last_bit = s.curr_bit; curr_bit = b; flux_time = time }))
          ≡ (elapsed s + s.bitcell) % 2 ^ 32
    split false low = omega arith
    split true true = omega (arith, sum-append s.flux_times (u32 (time + 0)))
    split true false = elim (pre_comp-cancels s.last_bit b) [
      | inl e ↦ omega (arith, e, sum-append s.flux_times (u32 (time + (pre_comp s.last_bit b).0)))
      | inr e ↦ omega (arith, e, sum-append s.flux_times (u32 (time + (pre_comp s.last_bit b).0)))
    ]

same_bitcell : (b : Bool) (s : Flux) → (add_raw_bit b s).bitcell ≡ s.bitcell
unfolding add_raw_bit
same_bitcell b s = same s.curr_bit _ _ refl refl
  where
    same :
        (c : Bool) (x y : Flux)
        → x.bitcell ≡ s.bitcell
        → y.bitcell ≡ s.bitcell
        → (if c then x else y).bitcell ≡ s.bitcell
    same true x y p q = p
    same false x y p q = q

-- Writing raw bits, on any cylinder, moves the time that is written or still due on by one cell for
-- each bit, up to the wrap of 32 bits: the precompensation shifts single reversals and never the
-- track.
pub add_raw_bits-elapsed :
    (bits : List Bool) (s : Flux)
    → elapsed (add_raw_bits bits s) ≡ (elapsed s + length bits * s.bitcell) % 2 ^ 32
add_raw_bits-elapsed [] s = omega arith
add_raw_bits-elapsed (b ∷ bs) s =
    add_raw_bits-elapsed bs (add_raw_bit b s)
    ∙ ap₂ (λ e c. (e + length bs * c) % 2 ^ 32) (add_raw_bit-elapsed b s) (same_bitcell b s)
    ∙ omega arith
