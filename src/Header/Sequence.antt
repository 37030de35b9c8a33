-- ===== src/Header/Sequence.antt =====
-- `Headers::HasIdSequence` (src/Header.cpp) finds exactly the runs of sector ids that are there.
use samdisk_plus.Prelude.{
  ℕ, zero, suc, ◌+◌, ◌-◌, ◌≤◌, ◌<◌, ◌≡◌, ◌↔◌, ◌⊎◌, inl, inr, refl, ap, ◌∙◌, Bool, true, false, List,
  [], ◌∷◌, arith, set, length, replicate, length-set, length-replicate, get_elem?,
  get_elem?-set_self, get_elem?-set_ne, some, ◌==◌, Bool-cases,
}
use samdisk_plus.Header.{Header, mark_id, mark_ids, all_marked, has_id_sequence}

-- A sector id occurs among the headers.
pub data Occurs (id : ℕ) : List Header → Type 0 where
  here : {h : Header} {hs : List Header} → h.sector ≡ id → Occurs id (h ∷ hs)
  there : {h : Header} {hs : List Header} → Occurs id hs → Occurs id (h ∷ hs)

-- The number of flags that are set.
abbrev marked : List Bool → ℕ
marked [] = 0
marked (true ∷ bs) = suc (marked bs)
marked (false ∷ bs) = marked bs

marked-set : (bs : List Bool) (i : ℕ) → marked (set bs i true) ≤ suc (marked bs)
marked-set [] i = omega arith
marked-set (true ∷ bs) zero = omega arith
marked-set (false ∷ bs) zero = omega arith
marked-set (true ∷ bs) (suc i) = omega (arith, marked-set bs i)
marked-set (false ∷ bs) (suc i) = omega (arith, marked-set bs i)

marked-replicate : (n : ℕ) → marked (replicate n false) ≡ 0
marked-replicate zero = refl
marked-replicate (suc n) = marked-replicate n

all_marked-count : (bs : List Bool) → all_marked bs ≡ true → marked bs ≡ length bs
unfolding all_marked
all_marked-count [] h = refl
all_marked-count (true ∷ bs) h = ap suc (all_marked-count bs h)
all_marked-count (false ∷ bs) h = ground arith

all_marked_iff :
    (bs : List Bool)
    → (all_marked bs ≡ true) ↔ ((i : ℕ) → i < length bs → get_elem? bs i ≡ some true)
unfolding all_marked
all_marked_iff bs = (to bs, from bs)
  where
    to :
        (xs : List Bool)
        → all_marked xs ≡ true
        → (i : ℕ) → i < length xs
        → get_elem? xs i ≡ some true
    to [] h i p = absurd (omega arith)
    to (true ∷ xs) h zero p = refl
    to (true ∷ xs) h (suc i) p = to xs h i (omega arith)
    to (false ∷ xs) h i p = ground arith

    from :
        (xs : List Bool)
        → ((i : ℕ) → i < length xs → get_elem? xs i ≡ some true)
        → all_marked xs ≡ true
    from [] h = refl
    from (true ∷ xs) h = from xs (λ i p. h (suc i) (omega arith))
    from (false ∷ xs) h = ground (arith, h 0 (omega arith))

length-mark_id :
    (first len : ℕ) (h : Header) (flags : List Bool)
    → length (mark_id first len h flags) ≡ length flags
unfolding mark_id
length-mark_id first len h flags = ground (arith, length-set flags (h.sector - first) true)

length-mark_ids :
    (first len : ℕ) (hs : List Header) (flags : List Bool)
    → length (mark_ids first len hs flags) ≡ length flags
unfolding mark_ids
length-mark_ids first len [] flags = refl
length-mark_ids first len (h ∷ hs) flags =
    length-mark_ids first len hs (mark_id first len h flags) ∙ length-mark_id first len h flags

marked-mark_id :
    (first len : ℕ) (h : Header) (flags : List Bool)
    → marked (mark_id first len h flags) ≤ suc (marked flags)
unfolding mark_id
marked-mark_id first len h flags = ground (arith, marked-set flags (h.sector - first))

-- Each header sets one flag at most.
marked-mark_ids :
    (first len : ℕ) (hs : List Header) (flags : List Bool)
    → marked (mark_ids first len hs flags) ≤ marked flags + length hs
unfolding mark_ids
marked-mark_ids first len [] flags = omega arith
marked-mark_ids first len (h ∷ hs) flags = omega (
  arith,
  marked-mark_ids first len hs (mark_id first len h flags),
  marked-mark_id first len h flags,
)

mark_id_iff :
    (first len i : ℕ) (h : Header) (flags : List Bool)
    → length flags ≡ len
    → i < len
    → (get_elem? (mark_id first len h flags) i ≡ some true)
      ↔ ((get_elem? flags i ≡ some true) ⊎ (h.sector ≡ first + i))
unfolding mark_id
mark_id_iff first len i h flags e p = elim (Bool-cases (h.sector == first + i)) [
  | inl same ↦ ground (arith, get_elem?-set_self flags i true)
  | inr other ↦ ground (arith, get_elem?-set_ne flags {i = h.sector - first} {j = i} true)
]

-- After the loop a flag is set when it was set before or its id occurs.
mark_ids_iff :
    (first len i : ℕ) (hs : List Header) (flags : List Bool)
    → length flags ≡ len
    → i < len
    → (get_elem? (mark_ids first len hs flags) i ≡ some true)
      ↔ ((get_elem? flags i ≡ some true) ⊎ Occurs (first + i) hs)
unfolding mark_ids
mark_ids_iff first len i [] flags e p = (λ h. inl h, λ h. none_left h)
  where
    none_left :
        (get_elem? flags i ≡ some true) ⊎ Occurs (first + i) [] → get_elem? flags i ≡ some true
    none_left (inl h) = h
    none_left (inr o) = elim o [ ]
mark_ids_iff first len i (h ∷ hs) flags e p =
    let rest = mark_ids_iff first len i hs flags' (length-mark_id first len h flags ∙ e) p in
    (λ g. to (rest.0 g), λ o. rest.1 (from o))
  where
    flags' : List Bool
    flags' = mark_id first len h flags

    step :
        (get_elem? flags' i ≡ some true)
        ↔ ((get_elem? flags i ≡ some true) ⊎ (h.sector ≡ first + i))
    step = mark_id_iff first len i h flags e p

    found :
        (get_elem? flags i ≡ some true) ⊎ (h.sector ≡ first + i)
        → (get_elem? flags i ≡ some true) ⊎ Occurs (first + i) (h ∷ hs)
    found (inl g) = inl g
    found (inr q) = inr (here q)

    to :
        (get_elem? flags' i ≡ some true) ⊎ Occurs (first + i) hs
        → (get_elem? flags i ≡ some true) ⊎ Occurs (first + i) (h ∷ hs)
    to (inl g) = found (step.0 g)
    to (inr o) = inr (there o)

    from :
        (get_elem? flags i ≡ some true) ⊎ Occurs (first + i) (h ∷ hs)
        → (get_elem? flags' i ≡ some true) ⊎ Occurs (first + i) hs
    from (inl g) = inl (step.1 (inl g))
    from (inr (here q)) = inl (step.1 (inr q))
    from (inr (there o)) = inr o

get_elem?-replicate : (n i : ℕ) → get_elem? (replicate n false) i ≡ some true → ⊥
get_elem?-replicate zero i h = cc
get_elem?-replicate (suc n) zero h = cc
get_elem?-replicate (suc n) (suc i) h = get_elem?-replicate n i h

-- The test accepts exactly the non-empty runs of ids `first_id`, `first_id + 1`, … of which each
-- occurs among the headers, in any order and any number of times.
pub has_id_sequence_iff :
    (headers : List Header) (first_id len : ℕ)
    → (has_id_sequence headers first_id len ≡ true)
      ↔ ((0 < len) × ((i : ℕ) → i < len → Occurs (first_id + i) headers))
unfolding has_id_sequence
has_id_sequence_iff headers first_id len = (to, from)
  where
    flags : List Bool
    flags = mark_ids first_id len headers (replicate len false)

    size : length flags ≡ len
    size = length-mark_ids first_id len headers (replicate len false) ∙ length-replicate len false

    flag_iff :
        (i : ℕ)
        → i < len
        → (get_elem? flags i ≡ some true)
          ↔ ((get_elem? (replicate len false) i ≡ some true) ⊎ Occurs (first_id + i) headers)
    flag_iff i p =
        mark_ids_iff first_id len i headers (replicate len false) (length-replicate len false) p

    unset :
        (i : ℕ)
        → (get_elem? (replicate len false) i ≡ some true) ⊎ Occurs (first_id + i) headers
        → Occurs (first_id + i) headers
    unset i (inl g) = absurd (get_elem?-replicate len i g)
    unset i (inr o) = o

    every : all_marked flags ≡ true → (i : ℕ) → i < len → Occurs (first_id + i) headers
    every m i p = unset i ((flag_iff i p).0 ((all_marked_iff flags).0 m i (rw size p)))

    to :
        has_id_sequence headers first_id len ≡ true
        → (0 < len) × ((i : ℕ) → i < len → Occurs (first_id + i) headers)
    to h = (ground arith, every (ground arith))

    from :
        (0 < len) × ((i : ℕ) → i < len → Occurs (first_id + i) headers)
        → has_id_sequence headers first_id len ≡ true
    from (pos, all) =
        let m : all_marked flags ≡ true =
          (all_marked_iff flags).1
            (λ i p. let q : i < len = rw (← size) p in (flag_iff i q).1 (inr (all i q))) in
        ground (
          arith,
          all_marked-count flags m,
          size,
          marked-mark_ids first_id len headers (replicate len false),
          marked-replicate len,
        )
