-- ===== src/TrackIds/Once.antt =====
-- The ids that `TrackSectorIds::GetIds` gives a track.
use native.Mathlib.Nat.{mod-lt}
use mathlib.Core.Bool.{true≢false}
use mathlib.Core.Option.{some-injective}
use mathlib.Core.Path.{subst}
use samdisk_plus.Prelude.{
  ℕ, zero, suc, ◌+◌, ◌-◌, ◌%◌, ◌==◌, ltb, leb, ◌<◌, ◌≤◌, Bool, true, false, ◌&&◌, if◌then◌else◌,
  List, [], ◌∷◌, set, get_or, replicate, length, some, ◌≡◌, refl, ap, sym, ◌∙◌, arith, length-set,
  length-replicate,
}
use samdisk_plus.Prelude.Bind.{◌>>=◌}
use samdisk_plus.Prelude.Int.{ℤ, pos, negsuc}
use samdisk_plus.Ibm.Cohere.{modulo}
use samdisk_plus.Header.{CylHead}
use samdisk_plus.TrackIds.{Slots, expected_index, place_ids, get_ids}
use samdisk_plus.TrackIds.Search.{count_used, steps_to, free_slot, find_free-reach}

-- How often a value stands in a list.
abbrev pub count : ℕ → List ℕ → ℕ
count v [] = 0
count v (x ∷ xs) = (if x == v then 1 else 0) + count v xs

-- How often a value stands in the used slots.
count_in : ℕ → List Bool → List ℕ → ℕ
count_in v (u ∷ us) (x ∷ xs) = (if u && (x == v) then 1 else 0) + count_in v us xs
count_in v _ _ = 0

count_used-set :
    (us : List Bool) (k : ℕ)
    → k < length us
    → get_or us k true ≡ false
    → count_used (set us k true) ≡ suc (count_used us)
unfolding count_used
count_used-set [] k h e = absurd (omega arith)
count_used-set (false ∷ us) zero h e = refl
count_used-set (true ∷ us) zero h e = absurd (true≢false e)
count_used-set (true ∷ us) (suc k) h e = ap suc (count_used-set us k (omega arith) e)
count_used-set (false ∷ us) (suc k) h e = count_used-set us k (omega arith) e

count_in-set :
    (v x : ℕ) (us : List Bool) (xs : List ℕ) (k : ℕ)
    → length us ≡ length xs
    → k < length us
    → get_or us k true ≡ false
    → count_in v (set us k true) (set xs k x) ≡ (if x == v then 1 else 0) + count_in v us xs
unfolding count_in
count_in-set v x [] xs k l h e = absurd (omega arith)
count_in-set v x (u ∷ us) [] k l h e = absurd (omega arith)
count_in-set v x (u ∷ us) (y ∷ xs) zero l h e = ground (arith, e)
count_in-set v x (u ∷ us) (y ∷ xs) (suc k) l h e =
    ap (λ n. (if u && (y == v) then 1 else 0) + n)
      (count_in-set v x us xs k (omega arith) (omega arith) e)
    ∙ omega arith

all_used :
    (v : ℕ) (us : List Bool) (xs : List ℕ)
    → length us ≡ length xs
    → length us ≤ count_used us
    → count_in v us xs ≡ count v xs
unfolding count_in count_used
all_used v [] [] l h = refl
all_used v [] (x ∷ xs) l h = absurd (omega arith)
all_used v (u ∷ us) [] l h = absurd (omega arith)
all_used v (true ∷ us) (x ∷ xs) l h =
    ap (λ n. (if x == v then 1 else 0) + n) (all_used v us xs (omega arith) (omega arith))
all_used v (false ∷ us) (x ∷ xs) l h = absurd (let b = used_le us in omega arith)
  where
    used_le : (ws : List Bool) → count_used ws ≤ length ws
    used_le [] = omega arith
    used_le (true ∷ ws) = let b = used_le ws in omega arith
    used_le (false ∷ ws) = let b = used_le ws in omega arith

modulo-lt : (n : ℤ) (m : ℕ) → 0 < m → modulo n m < m
unfolding modulo
modulo-lt (pos n) m h = mod-lt n h
modulo-lt (negsuc n) m h = mod-lt (m - (n + 1) % m) h

in_range : ℕ → ℕ → ℕ → ℕ
in_range v base n = if leb base v && ltb v (base + n) then 1 else 0

-- The slots after `s` sectors.
record Placed (v base sectors s : ℕ) (slots : Slots) : Type 0 where
  ids_length : length slots.ids ≡ sectors
  used_length : length slots.used ≡ sectors
  used_count : count_used slots.used ≡ s
  once : count_in v slots.used slots.ids ≡ in_range v base s

place_ids-Placed :
    (v base sectors : ℕ) (expected : ℕ → ℕ)
    → ((s : ℕ) → expected s < sectors)
    → (left s : ℕ) (slots : Slots) → s + left ≡ sectors
    → Placed v base sectors s slots
    → (slots' : Slots) × (place_ids expected sectors base left s slots ≡ some slots')
      × Placed v base sectors sectors slots'
unfolding place_ids in_range
place_ids-Placed v base sectors expected h zero s slots e p =
    (slots, refl, subst (λ n. Placed v base sectors n slots) (omega arith) p)
place_ids-Placed v base sectors expected h (suc left) s slots e p =
    let (j, lj, fj) = free_slot slots.used (free_left p.used_count p.used_length) in
    let (k, found, lk, fk) =
      find_free-reach sectors slots.used sectors (expected s) j (h s) (in_slots j lj p.used_length)
        fj (near (expected s) j (h s) (in_slots j lj p.used_length)) in
    let (slots', placed, p') =
      place_ids-Placed v base sectors expected h left (suc s) (put k) (omega arith)
        (put-Placed k lk fk) in
    (
      slots',
      ap (λ o. o >>= (λ index. place_ids expected sectors base left (suc s) (put index))) found
          ∙ placed,
      p',
    )
  where
    put : ℕ → Slots
    put k = record { ids = set slots.ids k (base + s); used = set slots.used k true }

    free_left :
        count_used slots.used ≡ s
        → length slots.used ≡ sectors
        → count_used slots.used < length slots.used
    free_left a b = omega arith

    in_slots : (j : ℕ) → j < length slots.used → length slots.used ≡ sectors → j < sectors
    in_slots j a b = omega arith

    near : (i j : ℕ) → i < sectors → j < sectors → steps_to sectors i j < sectors
    near i j a b = ground arith

    put-Placed :
        (k : ℕ)
        → k < sectors
        → get_or slots.used k true ≡ false
        → Placed v base sectors (suc s) (put k)
    put-Placed k lk fk =
        let lk' : k < length slots.used = let b = p.used_length in omega arith in
        record {
          ids_length = length-set slots.ids k (base + s) ∙ p.ids_length;
          used_length = length-set slots.used k true ∙ p.used_length;
          used_count = count_used-set slots.used k lk' fk ∙ ap suc p.used_count;
          once =
              count_in-set v (base + s) slots.used slots.ids k (p.used_length ∙ sym p.ids_length)
                lk' fk
              ∙ ap (λ n. (if base + s == v then 1 else 0) + n) p.once
              ∙ ground arith;
        }

all_used_at_end :
    (v base sectors : ℕ) (slots : Slots)
    → Placed v base sectors sectors slots
    → count v slots.ids ≡ in_range v base sectors
all_used_at_end v base sectors slots p =
    sym (
      all_used v slots.used slots.ids (p.used_length ∙ sym p.ids_length)
        (let a = p.used_length in let b = p.used_count in omega arith))
    ∙ p.once

nothing_used : (v n : ℕ) → count_in v (replicate n false) (replicate n 0) ≡ 0
unfolding count_in
nothing_used v zero = refl
nothing_used v (suc n) = omega (arith, nothing_used v n)

none_counted : (n : ℕ) → count_used (replicate n false) ≡ 0
unfolding count_used
none_counted zero = refl
none_counted (suc n) = none_counted n

-- `GetIds` of at least one sector ends with the ids of a track, as many as there are sectors, and
-- each number from the base on, for as many numbers as there are sectors, stands there once and any
-- other not at all: whatever the interleave, the skew and the offset, the search for a free slot
-- finds one.
pub get_ids-once :
    (at : CylHead) (sectors interleave : ℕ) (skew offset : ℤ) (base : ℕ)
    → 0 < sectors
    → (ids : List ℕ) × (get_ids at sectors interleave skew offset base ≡ some ids)
      × (length ids ≡ sectors)
      × ((v : ℕ) → count v ids ≡ (if leb base v && ltb v (base + sectors) then 1 else 0))
unfolding get_ids expected_index in_range
get_ids-once at sectors interleave skew offset base h =
    let (slots, placed, p) = run 0 in
    (
      slots.ids,
      ap (λ o. o >>= (λ t. some t.ids)) placed,
      p.ids_length,
      λ v. counted v slots placed (run v),
    )
  where
    expected : ℕ → ℕ
    expected = expected_index at sectors interleave skew offset

    start : Slots
    start = record { ids = replicate sectors 0; used = replicate sectors false }

    run :
        (v : ℕ)
        → (slots : Slots) × (place_ids expected sectors base sectors 0 start ≡ some slots)
          × Placed v base sectors sectors slots
    run v =
        place_ids-Placed v base sectors expected (λ s. modulo-lt _ sectors h) sectors 0 start
          (omega arith)
          (record {
            ids_length = length-replicate {0} {A = ℕ} sectors 0;
            used_length = length-replicate sectors false;
            used_count = none_counted sectors;
            once = nothing_used v sectors ∙ ground arith;
          })

    counted :
        (v : ℕ) (slots : Slots)
        → place_ids expected sectors base sectors 0 start ≡ some slots
        → (other : Slots) × (place_ids expected sectors base sectors 0 start ≡ some other)
          × Placed v base sectors sectors other
        → count v slots.ids ≡ in_range v base sectors
    counted v slots placed (other, placed', p) =
        ap (λ t. count v t.ids) (some-injective _ _ (sym placed ∙ placed'))
        ∙ all_used_at_end v base sectors other p
