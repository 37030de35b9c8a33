-- ===== src/TrackIds/Search.antt =====
-- The search for a free slot in `TrackSectorIds::GetIds`.
use native.Mathlib.Nat.{mod-eq_of_lt, mod_self}
use mathlib.Core.Bool.{true≢false}
use samdisk_plus.Prelude.{
  ℕ, zero, suc, ◌+◌, ◌-◌, ◌%◌, ◌==◌, leb, ◌<◌, Bool, true, false, if◌then◌else◌, List, [], ◌∷◌,
  get_or, length, some, ◌≡◌, ◌≢◌, refl, ap, sym, ◌∙◌, arith, Bool-cases, inl, inr,
}
use samdisk_plus.TrackIds.{find_free}

unfoldable pub count_used : List Bool → ℕ
count_used [] = 0
count_used (true ∷ us) = suc (count_used us)
count_used (false ∷ us) = count_used us

-- The slots from `i` on, up to `j`, going round.
abbrev pub steps_to : ℕ → ℕ → ℕ → ℕ
steps_to sectors i j = if leb i j then j - i else j + sectors - i

abbrev round : ℕ → ℕ → ℕ
round sectors i = if i + 1 == sectors then 0 else i + 1

next_slot : (sectors i : ℕ) → i < sectors → (i + 1) % sectors ≡ round sectors i
next_slot sectors i h = elim (Bool-cases (i + 1 == sectors)) [
  | inl e ↦
      ap (λ n. n % sectors) (ground arith)
      ∙ mod_self sectors
      ∙ ap (λ c. if c then 0 else i + 1) (sym e)
  | inr e ↦ mod-eq_of_lt (ground arith) ∙ ap (λ c. if c then 0 else i + 1) (sym e)
]

pub free_slot :
    (us : List Bool)
    → count_used us < length us
    → (j : ℕ) × (j < length us) × (get_or us j true ≡ false)
unfolding count_used
free_slot [] h = absurd (omega arith)
free_slot (false ∷ us) h = (0, omega arith, refl)
free_slot (true ∷ us) h = let (j, l, e) = free_slot us (omega arith) in (suc j, omega arith, e)

-- The search ends at a free slot if there is one within reach.
pub find_free-reach :
    (fuel : ℕ) (used : List Bool) (sectors i j : ℕ)
    → i < sectors
    → j < sectors
    → get_or used j true ≡ false
    → steps_to sectors i j < fuel
    → (k : ℕ) × (find_free fuel used sectors i ≡ some k)
      × (k < sectors)
      × (get_or used k true ≡ false)
unfolding find_free
find_free-reach zero used sectors i j hi hj free h = absurd (omega arith)
find_free-reach (suc fuel) used sectors i j hi hj free h = elim (Bool-cases (get_or used i true)) [
  | inl e ↦ further e (
      find_free-reach fuel used sectors (round sectors i) j (ground arith) hj free
        (let n = not_here e in ground arith))
  | inr e ↦
      (i, ap (λ c. if c then find_free fuel used sectors ((i + 1) % sectors) else some i) e, hi, e)
]
  where
    not_here : get_or used i true ≡ true → i ≢ j
    not_here e p = true≢false (sym e ∙ ap (λ n. get_or used n true) p ∙ free)

    further :
        get_or used i true ≡ true
        → (k : ℕ) × (find_free fuel used sectors (round sectors i) ≡ some k)
          × (k < sectors)
          × (get_or used k true ≡ false)
        → (k : ℕ) × (find_free (suc fuel) used sectors i ≡ some k)
          × (k < sectors)
          × (get_or used k true ≡ false)
    further e (k, found, lt, u) = (
      k,
      ap (λ c. if c then find_free fuel used sectors ((i + 1) % sectors) else some i) e
          ∙ ap (find_free fuel used sectors) (next_slot sectors i hi)
          ∙ found,
      lt,
      u,
    )
