-- ===== src/Prelude/Bytes.antt =====
-- Lists of bytes, and equality of lists index by index.
use samdisk_plus.Prelude.{
  ℕ, zero, suc, ◌<◌, ◌≡◌, refl, ap₂, List, [], ◌∷◌, ◌++◌, set, get_or, get_elem?, length, replicate,
  take, arith,
}

abbrev pub AreBytes : List ℕ → Type 0
AreBytes [] = Unit
AreBytes (x ∷ xs) = (x < 256) × AreBytes xs

pub get_or-lt : (xs : List ℕ) (i : ℕ) → AreBytes xs → get_or xs i 0 < 256
get_or-lt [] i h = omega arith
get_or-lt (x ∷ xs) zero h = h.0
get_or-lt (x ∷ xs) (suc i) h = get_or-lt xs i h.1

pub AreBytes-set : (xs : List ℕ) (i v : ℕ) → v < 256 → AreBytes xs → AreBytes (set xs i v)
AreBytes-set [] i v p h = tt
AreBytes-set (x ∷ xs) zero v p h = (p, h.1)
AreBytes-set (x ∷ xs) (suc i) v p h = (h.0, AreBytes-set xs i v p h.1)

pub AreBytes-append : (xs ys : List ℕ) → AreBytes xs → AreBytes ys → AreBytes (xs ++ ys)
AreBytes-append [] ys h k = k
AreBytes-append (x ∷ xs) ys h k = (h.0, AreBytes-append xs ys h.1 k)

pub AreBytes-replicate : (n v : ℕ) → v < 256 → AreBytes (replicate n v)
AreBytes-replicate zero v h = tt
AreBytes-replicate (suc n) v h = (h, AreBytes-replicate n v h)

pub AreBytes-take : (n : ℕ) (xs : List ℕ) → AreBytes xs → AreBytes (take n xs)
AreBytes-take zero xs h = tt
AreBytes-take (suc n) [] h = tt
AreBytes-take (suc n) (x ∷ xs) h = (h.0, AreBytes-take n xs h.1)

pub get_or-set_self : (xs : List ℕ) (i v : ℕ) → i < length xs → get_or (set xs i v) i 0 ≡ v
get_or-set_self [] i v h = absurd (omega arith)
get_or-set_self (x ∷ xs) zero v h = refl
get_or-set_self (x ∷ xs) (suc i) v h = get_or-set_self xs i v (omega arith)

pub get_or-set_ne :
    (xs : List ℕ) (i j v : ℕ) → (i ≡ j → ⊥) → get_or (set xs i v) j 0 ≡ get_or xs j 0
get_or-set_ne [] i j v h = refl
get_or-set_ne (x ∷ xs) zero zero v h = absurd (h refl)
get_or-set_ne (x ∷ xs) zero (suc j) v h = refl
get_or-set_ne (x ∷ xs) (suc i) zero v h = refl
get_or-set_ne (x ∷ xs) (suc i) (suc j) v h = get_or-set_ne xs i j v (λ e. h (omega arith))

zeros_get_or : (n i : ℕ) → get_or (replicate {A = ℕ} n 0) i 0 ≡ 0
zeros_get_or zero i = refl
zeros_get_or (suc n) zero = refl
zeros_get_or (suc n) (suc i) = zeros_get_or n i

-- Zeros added at the end are what a read out of range gives.
pub get_or-append_zeros : (xs : List ℕ) (n i : ℕ) → get_or (xs ++ replicate n 0) i 0 ≡ get_or xs i 0
get_or-append_zeros [] n i = zeros_get_or n i
get_or-append_zeros (x ∷ xs) n zero = refl
get_or-append_zeros (x ∷ xs) n (suc i) = get_or-append_zeros xs n i

pub get_elem?_ext {ℓ} :
    {A : Type ℓ} (xs ys : List A) → ((i : ℕ) → get_elem? xs i ≡ get_elem? ys i) → xs ≡ ys
get_elem?_ext [] [] h = refl
get_elem?_ext [] (y ∷ ys) h = absurd (let e = h 0 in cc)
get_elem?_ext (x ∷ xs) [] h = absurd (let e = h 0 in cc)
get_elem?_ext (x ∷ xs) (y ∷ ys) h =
    let e = h 0 in ap₂ ◌∷◌ (cc) (get_elem?_ext xs ys (λ i. h (suc i)))
