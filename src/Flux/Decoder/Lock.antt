-- ===== src/Flux/Decoder/Lock.antt =====
-- The phase-locked loop of src/FluxDecoder.cpp: it always comes to a bit or to the end, and its clock
-- stays within its bounds.
use mathlib.Core.Bool.{true≢false}
use mathlib.Core.Path.{subst}
use samdisk_plus.Prelude.{
  ℕ, zero, suc, ◌+◌, ◌<◌, ◌≤◌, ◌≡◌, refl, ap, sym, ◌∙◌, leb, Bool, true, false, if◌then◌else◌, List,
  [], ◌∷◌, length, Option, some, arith, Bool-cases, inl, inr, ◌⊎◌,
}
use samdisk_plus.Prelude.Bind.{◌>>=◌}
use samdisk_plus.Prelude.Int.{ℤ, ◌-ℤ◌, ◌≤ℤ◌, ltb_ℤ, tdiv, min_ℤ, max_ℤ}
use samdisk_plus.Flux.Decoder.{
  FluxDecoder, total_length, next_flux, take_flux, next_rev, next_flux_from, add_flux, await_flux,
  adjust_clock, clamp_clock, clock_bit, bit_or_end, next_bit, is_end,
}

-- The flux times that are left.
abbrev pub revs_after : List (List ℕ) → List (List ℕ)
revs_after [] = []
revs_after (r ∷ rs) = rs

abbrev pub flux_left : FluxDecoder → ℕ
flux_left d = length d.flux_it + total_length (revs_after d.rev_it)

-- The bounds are in order, and the clock is between them.
pub record Locked (d : FluxDecoder) : Type 0 where
  pub low : d.clock_min ≤ℤ d.clock
  pub high : d.clock ≤ℤ d.clock_max

-- A step that leaves the clock and its bounds alone, with no more flux times left than `n`.
record Keeps (d d' : FluxDecoder) (n : ℕ) : Type 0 where
  clock_is : d'.clock ≡ d.clock
  min_is : d'.clock_min ≡ d.clock_min
  max_is : d'.clock_max ≡ d.clock_max
  left : flux_left d' ≤ n

Keeps-Locked : (d d' : FluxDecoder) (n : ℕ) → Keeps d d' n → Locked d → Locked d'
Keeps-Locked d d' n s k =
    let a = s.clock_is in
    let b = s.min_is in
    let c = s.max_is in
    let l = k.low in
    let h = k.high in
    record {
      low = subst (λ x. x ≤ℤ d'.clock) (sym b) (subst (λ x. d.clock_min ≤ℤ x) (sym a) l);
      high = subst (λ x. d'.clock ≤ℤ x) (sym c) (subst (λ x. x ≤ℤ d.clock_max) (sym a) h);
    }

-- Either there is no more, or a flux time is taken.
abbrev Taken : FluxDecoder → ℕ → ℤ × FluxDecoder → Type 0
Taken d n r = Keeps d r.1 n × ((is_end r.0 ≡ true) ⊎ (flux_left r.1 < n))

next_rev-Taken :
    (revs : List (List ℕ)) (d : FluxDecoder)
    → Taken d (length d.flux_it + total_length (revs_after revs)) (next_rev revs d)
unfolding next_rev take_flux total_length
next_rev-Taken [] d =
    (record { clock_is = refl; min_is = refl; max_is = refl; left = omega arith }, inl refl)
next_rev-Taken (r ∷ []) d =
    (record { clock_is = refl; min_is = refl; max_is = refl; left = omega arith }, inl refl)
next_rev-Taken (r ∷ [] ∷ rest) d =
    (record { clock_is = refl; min_is = refl; max_is = refl; left = omega arith }, inl refl)
next_rev-Taken (r ∷ (t ∷ ts) ∷ rest) d = (
  record { clock_is = refl; min_is = refl; max_is = refl; left = omega arith },
  inr (omega arith),
)

next_flux_from-Taken :
    (it : List ℕ) (d : FluxDecoder)
    → length it ≡ length d.flux_it
    → Taken d (flux_left d) (next_flux_from it d)
unfolding next_flux_from take_flux
next_flux_from-Taken [] d e = next_rev-Taken d.rev_it d
next_flux_from-Taken (t ∷ ts) d e = (
  record { clock_is = refl; min_is = refl; max_is = refl; left = omega arith },
  inr (omega arith),
)

-- What waiting for a flux time comes to.
abbrev Awaited : FluxDecoder → Option (Bool × FluxDecoder) → Type 0
Awaited d o = (r : Bool × FluxDecoder) × (o ≡ some r) × Keeps d r.1 (flux_left d)

await_flux-Awaited :
    (fuel : ℕ) (d : FluxDecoder) → flux_left d < fuel → Awaited d (await_flux fuel d)
unfolding await_flux next_flux add_flux
await_flux-Awaited zero d h = absurd (omega arith)
await_flux-Awaited (suc fuel) d h = elim (Bool-cases (ltb_ℤ d.flux (tdiv d.clock 2))) [
  | inl e ↦
      subst
        (λ c.
          Awaited d
            (if c then (if is_end new_flux then some (true, d') else rest) else some (false, d)))
        (sym e)
        (elim (Bool-cases (is_end new_flux)) [
          | inl x ↦
              subst (λ c. Awaited d (if c then some (true, d') else rest)) (sym x)
                ((true, d'), refl, k)
          | inr x ↦
              subst (λ c. Awaited d (if c then some (true, d') else rest)) (sym x)
                (further x taken.1 (λ lt. await_flux-Awaited fuel (add_flux new_flux d') lt))
        ])
  | inr e ↦
      subst
        (λ c.
          Awaited d
            (if c then (if is_end new_flux then some (true, d') else rest) else some (false, d)))
        (sym e)
        (
          (false, d),
          refl,
          record { clock_is = refl; min_is = refl; max_is = refl; left = omega arith },
        )
]
  where
    new_flux : ℤ
    new_flux = (next_flux d).0

    d' : FluxDecoder
    d' = (next_flux d).1

    rest : Option (Bool × FluxDecoder)
    rest = await_flux fuel (add_flux new_flux d')

    taken : Taken d (flux_left d) (next_flux d)
    taken = next_flux_from-Taken d.flux_it d refl

    k : Keeps d d' (flux_left d)
    k = taken.0

    further :
        is_end new_flux ≡ false
        → (is_end new_flux ≡ true) ⊎ (flux_left d' < flux_left d)
        → (flux_left d' < fuel → Awaited (add_flux new_flux d') rest)
        → Awaited d rest
    further x (inl y) ih = absurd (true≢false (sym y ∙ x))
    further x (inr lt) ih =
        let (r, e, q) = ih (omega arith) in
        let b : flux_left r.1 ≤ flux_left d' = q.left in
        (
          r,
          e,
          record {
            clock_is = q.clock_is ∙ k.clock_is;
            min_is = q.min_is ∙ k.min_is;
            max_is = q.max_is ∙ k.max_is;
            left = omega arith;
          },
        )

≤ℤ_trans : (a b c : ℤ) → a ≤ℤ b → b ≤ℤ c → a ≤ℤ c
≤ℤ_trans a b c p q = omega arith

clamp-bounds :
    (lo x hi : ℤ) → lo ≤ℤ hi → (lo ≤ℤ min_ℤ (max_ℤ lo x) hi) × (min_ℤ (max_ℤ lo x) hi ≤ℤ hi)
clamp-bounds lo x hi h = (ground arith, ground arith)

-- A step that may move the clock, but not its bounds.
record SameBounds (d d' : FluxDecoder) : Type 0 where
  min_is : d'.clock_min ≡ d.clock_min
  max_is : d'.clock_max ≡ d.clock_max
  left_is : flux_left d' ≡ flux_left d

SameBounds-if :
    (c : Bool) (d x y : FluxDecoder)
    → SameBounds d x
    → SameBounds d y
    → SameBounds d (if c then x else y)
SameBounds-if true d x y p q = p
SameBounds-if false d x y p q = q

adjust_clock-SameBounds : (d : FluxDecoder) → SameBounds d (adjust_clock d)
unfolding adjust_clock
adjust_clock-SameBounds d =
    SameBounds-if (leb d.clocked_zeros 3) d _ _
      (record { min_is = refl; max_is = refl; left_is = refl })
      (record { min_is = refl; max_is = refl; left_is = refl })

clamp_clock-Locked : (d : FluxDecoder) → d.clock_min ≤ℤ d.clock_max → Locked (clamp_clock d)
unfolding clamp_clock
clamp_clock-Locked d h =
    let (l, u) = clamp-bounds d.clock_min d.clock d.clock_max h in record { low = l; high = u }

-- The clock and the flux times that `clock_bit` leaves.
abbrev Ticked : FluxDecoder → ℤ × FluxDecoder → Type 0
Ticked d r = Locked r.1 × (flux_left r.1 ≡ flux_left d)

Ticked-if :
    (c : Bool) (d : FluxDecoder) (x y : ℤ × FluxDecoder)
    → Ticked d x
    → Ticked d y
    → Ticked d (if c then x else y)
Ticked-if true d x y p q = p
Ticked-if false d x y p q = q

clock_bit-Ticked : (pllphase : ℤ) (d : FluxDecoder) → Locked d → Ticked d (clock_bit pllphase d)
unfolding clock_bit
clock_bit-Ticked pllphase d k =
    Ticked-if (ltb_ℤ d1.flux (tdiv d1.clock 2)) d _ _
      ((record { low = locked.low; high = locked.high }, b.left_is))
      (record { low = k.low; high = k.high }, refl)
  where
    d1 : FluxDecoder
    d1 = record d { flux = d.flux -ℤ d.clock }

    b : SameBounds d1 (adjust_clock d1)
    b = adjust_clock-SameBounds d1

    locked : Locked (clamp_clock (adjust_clock d1))
    locked = clamp_clock-Locked (adjust_clock d1) (
        subst (λ x. x ≤ℤ (adjust_clock d1).clock_max) (sym b.min_is)
          (subst (λ x. d.clock_min ≤ℤ x) (sym b.max_is)
            (≤ℤ_trans d.clock_min d.clock d.clock_max k.low k.high)))

-- With more fuel than flux times left, and the clock within its bounds, `next_bit` comes to a bit or
-- to the end of the data, at any phase setting; the clock stays within the bounds, and no more flux
-- times are left than before, so that the same fuel is enough for every later call.
pub next_bit-Locked :
    (fuel : ℕ) (pllphase : ℤ) (d : FluxDecoder)
    → flux_left d < fuel
    → Locked d
    → (r : ℤ × FluxDecoder) × (next_bit fuel pllphase d ≡ some r)
      × Locked r.1
      × (flux_left r.1 ≤ flux_left d)
unfolding next_bit
next_bit-Locked fuel pllphase d h k =
    let (r, e, q) = await_flux-Awaited fuel d h in
    let (l, m) = finish r q (Keeps-Locked d r.1 (flux_left d) q k) in
    (bit_or_end pllphase r, ap (λ o. o >>= (λ x. some (bit_or_end pllphase x))) e, l, m)
  where
    finish :
        (r : Bool × FluxDecoder)
        → Keeps d r.1 (flux_left d)
        → Locked r.1
        → Locked (bit_or_end pllphase r).1 × (flux_left (bit_or_end pllphase r).1 ≤ flux_left d)
    finish (true, d') q l = (l, q.left)
    finish (false, d') q l =
        let (l', e) = clock_bit-Ticked pllphase d' l in
        let b : flux_left d' ≤ flux_left d = q.left in (l', omega arith)
