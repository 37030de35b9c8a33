-- ===== src/Fit/Cover.antt =====
-- The units that src/IBMPC.cpp counts for a sector hold the sector.
use samdisk_plus.Prelude.{
  ℕ, zero, suc, ◌+◌, ◌-◌, ◌*◌, ◌/◌, ◌^◌, ltb, ◌≤◌, ◌<◌, ◌≡◌, ap, ap₂, sym, ◌∙◌, List, [], ◌∷◌, map,
  arith, Option, none, some, if_both,
}
use native.Mathlib.Nat.{
  pow-le-pow_right, two-pow-succ, add-mul, mul-div_cancel, div-add-mod', mod-lt, one-le-pow,
}
use mathlib.Core.Path.{subst}
use samdisk_plus.Header.{Encoding}
use samdisk_plus.Ibm.{get_sector_overhead}
use samdisk_plus.Sector.{size_code_to_length, size_code_to_real_size_code}
use samdisk_plus.Fit.{simple_units, clipped_units}

-- The units have room for the sector with its overhead; a sector whose size is not trusted counts as
-- one of the size of a unit.
abbrev pub Covers : Encoding → ℕ → ℕ → Option ℕ → ℕ → Type 0
Covers encoding size_code gap3 size units =
    get_sector_overhead encoding + size_code_to_length (elim size [ none ↦ size_code | some n ↦ n ])
    ≤ units * (get_sector_overhead encoding + size_code_to_length size_code + gap3)

-- As many unit counts as sizes, and each covers its sector.
abbrev pub AllCover : Encoding → ℕ → ℕ → List (Option ℕ) → List ℕ → Type 0
AllCover encoding size_code gap3 [] [] = Unit
AllCover encoding size_code gap3 (size ∷ sizes) (units ∷ rest) =
    Covers encoding size_code gap3 size units × AllCover encoding size_code gap3 sizes rest
AllCover encoding size_code gap3 _ _ = ⊥

pub AllCover-map :
    (encoding : Encoding) (size_code gap3 : ℕ) (f : Option ℕ → ℕ) (sizes : List (Option ℕ))
    → ((size : Option ℕ) → Covers encoding size_code gap3 size (f size))
    → AllCover encoding size_code gap3 sizes (map f sizes)
AllCover-map encoding size_code gap3 f [] h = tt
AllCover-map encoding size_code gap3 f (size ∷ sizes) h =
    (h size, AllCover-map encoding size_code gap3 f sizes h)

real_size_code_mono :
    (m n : ℕ) → m ≤ n → size_code_to_real_size_code m ≤ size_code_to_real_size_code n
unfolding size_code_to_real_size_code
real_size_code_mono m n h = ground arith

length_mono : (m n : ℕ) → m ≤ n → size_code_to_length m ≤ size_code_to_length n
unfolding size_code_to_length
length_mono m n h =
    let p : 2 ^ size_code_to_real_size_code m ≤ 2 ^ size_code_to_real_size_code n =
      pow-le-pow_right (omega arith) (real_size_code_mono m n h) in
    omega arith

length_positive : (n : ℕ) → 0 < size_code_to_length n
unfolding size_code_to_length
length_positive n =
    let p = one-le-pow (size_code_to_real_size_code n) 2 (omega arith) in omega arith

one_times : (p : ℕ) → p ≡ 1 * p
one_times p = omega arith

pow_sum : (d a : ℕ) → 2 ^ (d + a) ≡ 2 ^ d * 2 ^ a
pow_sum zero a = ap (λ k. 2 ^ k) (omega arith) ∙ one_times (2 ^ a)
pow_sum (suc d) a =
    ap (λ k. 2 ^ k) (omega arith)
    ∙ two-pow-succ (d + a)
    ∙ ap₂ ◌+◌ (pow_sum d a) (pow_sum d a)
    ∙ sym (add-mul (2 ^ d) (2 ^ d) (2 ^ a))
    ∙ ap (λ p. p * 2 ^ a) (sym (two-pow-succ d))

-- A length is a multiple of a smaller one.
length_multiple :
    (m n : ℕ) → m ≤ n → (k : ℕ) × (0 < k) × (size_code_to_length n ≡ k * size_code_to_length m)
unfolding size_code_to_length
length_multiple m n h =
    let a = size_code_to_real_size_code m in
    let b = size_code_to_real_size_code n in
    let le : a ≤ b = real_size_code_mono m n h in
    let e : 2 ^ b ≡ 2 ^ (b - a) * 2 ^ a = ap (λ k. 2 ^ k) (omega arith) ∙ pow_sum (b - a) a in
    (2 ^ (b - a), one-le-pow (b - a) 2 (omega arith), omega (arith, e))

-- Some units hold as many overheads and lengths.
cover_units : (u o k g : ℕ) → 0 < u → o + u * k ≤ u * (o + k + g)
cover_units zero o k g h = absurd (omega arith)
cover_units (suc zero) o k g h = omega arith
cover_units (suc (suc u)) o k g h =
    let r = cover_units (suc u) o k g (omega arith) in
    omega (arith, add-mul 1 (suc u) k, add-mul 1 (suc u) (o + k + g))

rounded_up : (n u : ℕ) → 0 < u → n ≤ (n + u - 1) / u * u
rounded_up n u h = let e = div-add-mod' (n + u - 1) u in let l = mod-lt (n + u - 1) h in omega arith

module _ (encoding : Encoding) where
  Covers-whole :
      (n size_code gap3 units : ℕ)
      → 0 < units
      → size_code_to_length n ≤ units * size_code_to_length size_code
      → Covers encoding size_code gap3 (some n) units
  Covers-whole n size_code gap3 units p h =
      let all =
        cover_units units (get_sector_overhead encoding) (size_code_to_length size_code) gap3 p in
      omega arith

  -- By simple multiples of the size.
  pub simple_units-Covers :
      (size_code gap3 : ℕ) (size : Option ℕ)
      → Covers encoding size_code gap3 size (simple_units size_code size)
  unfolding simple_units
  simple_units-Covers size_code gap3 none =
      Covers-whole size_code size_code gap3 1 (omega arith) (omega arith)
  simple_units-Covers size_code gap3 (some n) =
      if_both (Covers encoding size_code gap3 (some n)) (ltb n size_code) 1 _
        (λ e.
          let below = length_mono n size_code (ground arith) in
          Covers-whole n size_code gap3 1 (omega arith) (omega arith))
        (λ e.
          let (k, p, whole) = length_multiple size_code n (ground arith) in
          let same : size_code_to_length n / size_code_to_length size_code ≡ k =
            ap (λ l. l / size_code_to_length size_code) whole
            ∙ mul-div_cancel k (length_positive size_code) in
          Covers-whole n size_code gap3 _ (omega (arith, same)) (
            subst (λ u. size_code_to_length n ≤ u * size_code_to_length size_code) (sym same)
              (omega (arith, whole))))

  -- By clipped units, rounded up.
  pub clipped_units-Covers :
      (size_code gap3 : ℕ) (size : Option ℕ)
      → Covers encoding size_code gap3 size (clipped_units encoding size_code gap3 size)
  unfolding clipped_units
  clipped_units-Covers size_code gap3 size =
      let some_length = length_positive size_code in
      rounded_up _ (get_sector_overhead encoding + size_code_to_length size_code + gap3)
        (omega arith)
