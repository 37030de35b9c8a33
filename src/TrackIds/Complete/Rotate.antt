-- ===== src/TrackIds/Complete/Rotate.antt =====
-- The rotation that src/TrackSectorIds.cpp applies to a matched order of sectors.
use samdisk_plus.Prelude.{
  ℕ, zero, suc, ◌+◌, ◌-◌, ◌*◌, ◌/◌, ◌%◌, ◌<◌, ◌≡◌, refl, ap, sym, ◌∙◌, List, [], ◌∷◌, ◌++◌, length,
  get_or, take, drop, arith, Option, none, some, inl, inr, ◌⊎◌, length-append, length-take,
  length-drop,
}
use samdisk_plus.Prelude.Int.{sub_ℕ}
use native.Mathlib.Nat.{mod-eq_of_lt, add-mul-mod_self_right, div-add-mod'}
use samdisk_plus.Ibm.Cohere.{modulo, modulo_lt}
use samdisk_plus.TrackIds.Complete.{rotate_right}
use samdisk_plus.TrackIds.Complete.Agrees.{Agrees, modulo-up, modulo-down, le_cases}

get_or-append_left :
    (xs ys : List ℕ) (k : ℕ) → k < length xs → get_or (xs ++ ys) k 0 ≡ get_or xs k 0
get_or-append_left [] ys k h = absurd (omega arith)
get_or-append_left (x ∷ xs) ys zero h = refl
get_or-append_left (x ∷ xs) ys (suc k) h = get_or-append_left xs ys k (omega arith)

get_or-append_right :
    (xs ys : List ℕ) (k j : ℕ) → k ≡ length xs + j → get_or (xs ++ ys) k 0 ≡ get_or ys j 0
get_or-append_right [] ys k j h = ap (λ n. get_or ys n 0) (omega arith)
get_or-append_right (x ∷ xs) ys zero j h = absurd (omega arith)
get_or-append_right (x ∷ xs) ys (suc k) j h = get_or-append_right xs ys k j (omega arith)

get_or-take : (m k : ℕ) (xs : List ℕ) → k < m → get_or (take m xs) k 0 ≡ get_or xs k 0
get_or-take zero k xs h = absurd (omega arith)
get_or-take (suc m) k [] h = refl
get_or-take (suc m) zero (x ∷ xs) h = refl
get_or-take (suc m) (suc k) (x ∷ xs) h = get_or-take m k xs (omega arith)

get_or-drop : (m k : ℕ) (xs : List ℕ) → get_or (drop m xs) k 0 ≡ get_or xs (m + k) 0
get_or-drop zero k xs = ap (λ n. get_or xs n 0) (omega arith)
get_or-drop (suc m) k [] = refl
get_or-drop (suc m) k (x ∷ xs) =
    let assoc : suc m + k ≡ suc (m + k) = omega arith in
    get_or-drop m k xs ∙ ap (λ n. get_or (x ∷ xs) n 0) (sym assoc)

length-rotate_right : (o : ℕ) (ids : List ℕ) → length (rotate_right o ids) ≡ length ids
unfolding rotate_right
length-rotate_right o ids =
    let whole = length-append (drop (length ids - o) ids) (take (length ids - o) ids) in
    let back = length-take (length ids - o) ids in
    let front = length-drop (length ids - o) ids in omega arith

-- Where the place `p` goes.
rotate_right-moves :
    (o p k : ℕ) (ids : List ℕ)
    → o < length ids
    → p < length ids
    → (p + o ≡ k) ⊎ (p + o ≡ k + length ids)
    → k < length ids
    → get_or (rotate_right o ids) k 0 ≡ get_or ids p 0
unfolding rotate_right
rotate_right-moves o p k ids h hp (inl e) hk =
    let front = length-drop (length ids - o) ids in
    get_or-append_right (drop (length ids - o) ids) _ k p (omega arith)
    ∙ get_or-take (length ids - o) p ids (omega arith)
rotate_right-moves o p k ids h hp (inr e) hk =
    let front = length-drop (length ids - o) ids in
    get_or-append_left (drop (length ids - o) ids) _ k (omega arith)
    ∙ get_or-drop (length ids - o) k ids
    ∙ ap (λ n. get_or ids n 0) (omega arith)

-- An index of the ring is its shifted index and the offset.
shifted_index : (i o n : ℕ) → o < n → (modulo (sub_ℕ i o) n + o) % n ≡ i % n
shifted_index i o n h = elim (le_cases o i) [
  | inl p ↦
      let parts = div-add-mod' (i - o) n in
      let turns : i ≡ (i - o) % n + o + (i - o) / n * n = omega arith in
      ap (λ m. (m + o) % n) (modulo-up i o n p)
      ∙ sym (ap (λ m. m % n) turns ∙ add-mul-mod_self_right ((i - o) % n + o) ((i - o) / n) n)
  | inr p ↦
      let turn : n - (o - i) + o ≡ i + 1 * n = omega arith in
      ap (λ m. (m + o) % n) (modulo-down i o n p (omega arith))
      ∙ ap (λ m. m % n) turn
      ∙ add-mul-mod_self_right i 1 n
]

once_around : (m n : ℕ) → m < n + n → (m ≡ m % n) ⊎ (m ≡ m % n + n)
once_around m n h = elim (le_cases n m) [
  | inl p ↦
      let turn : m ≡ m - n + 1 * n = omega arith in
      let rest =
        ap (λ k. k % n) turn ∙ add-mul-mod_self_right (m - n) 1 n ∙ mod-eq_of_lt (omega arith) in
      inr (omega arith)
  | inr p ↦ inl (sym (mod-eq_of_lt p))
]

pub rotate_right-Agrees :
    (ids : List ℕ) (o i : ℕ) (known : List (Option ℕ))
    → o < length ids
    → Agrees ids o i known
    → Agrees (rotate_right o ids) 0 i known
rotate_right-Agrees ids o i [] h a = tt
rotate_right-Agrees ids o i (none ∷ known) h a = rotate_right-Agrees ids o (suc i) known h a
rotate_right-Agrees ids o i (some id ∷ known) h a =
    let n : ℕ = length ids in
    let p = modulo (sub_ℕ i o) n in
    let below = modulo_lt (sub_ℕ i o) n (omega arith) in
    let k = (p + o) % n in
    let zero_offset : modulo (sub_ℕ i 0) (length (rotate_right o ids)) ≡ k =
      ap (modulo (sub_ℕ i 0)) (length-rotate_right o ids)
      ∙ modulo-up i 0 n (omega arith)
      ∙ ap (λ m. m % n) (omega arith)
      ∙ sym (shifted_index i o n h) in
    (
      ap (λ m. get_or (rotate_right o ids) m 0) zero_offset
          ∙ rotate_right-moves o p k ids h below (once_around (p + o) n (omega arith)) (omega arith)
          ∙ a.0,
      rotate_right-Agrees ids o (suc i) known h a.1,
    )
