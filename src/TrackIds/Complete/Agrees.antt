-- ===== src/TrackIds/Complete/Agrees.antt =====
-- A completed order of sectors agrees with the known ids.
use samdisk_plus.Prelude.{
  ℕ, suc, ◌+◌, ◌-◌, ◌*◌, ◌/◌, ◌%◌, ◌==◌, leb, ◌≤◌, ◌<◌, ◌≡◌, refl, ap, ◌∙◌, true, false, List, [],
  ◌∷◌, length, get_or, arith, Option, none, some, if_both, inl, inr, ◌⊎◌,
}
use samdisk_plus.Prelude.Bind.{◌>>=◌}
use samdisk_plus.Prelude.Int.{pos, negsuc, sub_ℕ}
use native.Mathlib.Nat.{mod-eq_of_lt, add-mul-mod_self_right, div-add-mod'}
use samdisk_plus.Ibm.Cohere.{modulo, modulo_lt}
use samdisk_plus.TrackIds.Complete.{index_of, rest_matches, matched, match_sector_ids, next_index}

-- Every known id, from the index on, is where the offset puts it.
abbrev pub Agrees : List ℕ → ℕ → ℕ → List (Option ℕ) → Type 0
Agrees ids offset i [] = Unit
Agrees ids offset i (none ∷ known) = Agrees ids offset (suc i) known
Agrees ids offset i (some id ∷ known) =
    (get_or ids (modulo (sub_ℕ i offset) (length ids)) 0 ≡ id) × Agrees ids offset (suc i) known

-- What the searches find.
abbrev IsAt : ℕ → List ℕ → Option ℕ → Type 0
IsAt id ids none = Unit
IsAt id ids (some j) = (j < length ids) × (get_or ids j 0 ≡ id)

IsAt-next : (id x : ℕ) (xs : List ℕ) (r : Option ℕ) → IsAt id xs r → IsAt id (x ∷ xs) (next_index r)
IsAt-next id x xs none h = tt
IsAt-next id x xs (some j) h = (let below = h.0 in omega arith, h.1)

index_of-IsAt : (id : ℕ) (xs : List ℕ) → IsAt id xs (index_of id xs)
unfolding index_of
index_of-IsAt id [] = tt
index_of-IsAt id (x ∷ xs) =
    if_both (IsAt id (x ∷ xs)) (x == id) (some 0) (next_index (index_of id xs))
      (λ e. (omega arith, ground arith))
      (λ _. IsAt-next id x xs (index_of id xs) (index_of-IsAt id xs))

pub modulo-up : (i j n : ℕ) → j ≤ i → modulo (sub_ℕ i j) n ≡ (i - j) % n
unfolding modulo
modulo-up i j n h =
    if_both (λ z. modulo z n ≡ (i - j) % n) (leb j i) (pos (i - j)) (negsuc (j - i - 1)) (λ _. refl)
      (λ e. absurd (not_below i j h e))
  where
    not_below : (i j : ℕ) → j ≤ i → leb j i ≡ false → ⊥
    not_below i j h e = ground arith

pub modulo-down : (i j n : ℕ) → i < j → j - i < n → modulo (sub_ℕ i j) n ≡ n - (j - i)
unfolding modulo
modulo-down i j n h k =
    if_both (λ z. modulo z n ≡ n - (j - i)) (leb j i) (pos (i - j)) (negsuc (j - i - 1))
      (λ e. absurd (not_above i j h e))
      (λ _.
        ap (λ m. (n - m) % n) (ap (λ m. m % n) (back i j h) ∙ mod-eq_of_lt k)
        ∙ mod-eq_of_lt (omega arith))
  where
    not_above : (i j : ℕ) → i < j → leb j i ≡ true → ⊥
    not_above i j h e = ground arith

    back : (i j : ℕ) → i < j → j - i - 1 + 1 ≡ j - i
    back i j h = omega arith

pub le_cases : (m n : ℕ) → (m ≤ n) ⊎ (n < m)
le_cases m n = ground arith

-- The offset brings the index back to where the id is.
ring_inverse : (i j n : ℕ) → j < n → modulo (sub_ℕ i (modulo (sub_ℕ i j) n)) n ≡ j
ring_inverse i j n h = elim (le_cases j i) [
  | inl p ↦
      let parts = div-add-mod' (i - j) n in
      let turns : i - (i - j) % n ≡ j + (i - j) / n * n = omega arith in
      ap (λ k. modulo (sub_ℕ i k) n) (modulo-up i j n p)
      ∙ modulo-up i ((i - j) % n) n (omega arith)
      ∙ ap (λ k. k % n) turns
      ∙ add-mul-mod_self_right j ((i - j) / n) n
      ∙ mod-eq_of_lt h
  | inr p ↦
      ap (λ k. modulo (sub_ℕ i k) n) (modulo-down i j n p (omega arith))
      ∙ modulo-down i (n - (j - i)) n (omega arith) (omega arith)
      ∙ omega arith
]

rest_matches-Agrees :
    (ids : List ℕ) (offset i : ℕ) (known : List (Option ℕ))
    → rest_matches ids offset i known ≡ true
    → Agrees ids offset i known
unfolding rest_matches
rest_matches-Agrees ids offset i [] h = tt
rest_matches-Agrees ids offset i (none ∷ known) h = rest_matches-Agrees ids offset (suc i) known h
rest_matches-Agrees ids offset i (some id ∷ known) h =
    (ground arith, rest_matches-Agrees ids offset (suc i) known (ground arith))

-- A match that there may be.
abbrev pub AgreesIfAny : List ℕ → ℕ → List (Option ℕ) → Option ℕ → Type 0
AgreesIfAny ids i known none = Unit
AgreesIfAny ids i known (some offset) = (offset < length ids) × Agrees ids offset i known

pub match-AgreesIfAny :
    (ids : List ℕ) (i : ℕ) (known : List (Option ℕ))
    → AgreesIfAny ids i known (match_sector_ids ids i known)
unfolding match_sector_ids
match-AgreesIfAny ids i [] = tt
match-AgreesIfAny ids i (none ∷ known) =
    later (match_sector_ids ids (suc i) known) (match-AgreesIfAny ids (suc i) known)
  where
    later : (r : Option ℕ) → AgreesIfAny ids (suc i) known r → AgreesIfAny ids i (none ∷ known) r
    later none h = tt
    later (some o) h = h
match-AgreesIfAny ids i (some id ∷ known) = found (index_of id ids) (index_of-IsAt id ids)
  where
    found :
        (r : Option ℕ)
        → IsAt id ids r
        → AgreesIfAny ids i (some id ∷ known) (
            r >>= λ j.
            matched
              (modulo (sub_ℕ i j) (length ids))
              (rest_matches ids (modulo (sub_ℕ i j) (length ids)) (suc i) known))
    found none h = tt
    found (some j) h =
        let offset = modulo (sub_ℕ i j) (length ids) in
        if_both (AgreesIfAny ids i (some id ∷ known)) (rest_matches ids offset (suc i) known)
          (some offset) none
          (λ e. (
            modulo_lt (sub_ℕ i j) (length ids) (let below = h.0 in omega arith),
            (
              ap (λ k. get_or ids k 0) (ring_inverse i j (length ids) h.0) ∙ h.1,
              rest_matches-Agrees ids offset (suc i) known e,
            ),
          ))
          (λ _. tt)
