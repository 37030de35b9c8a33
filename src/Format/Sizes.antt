-- ===== src/Format/Sizes.antt =====
-- The tables of src/Format.cpp: the formats are valid and have the sizes by which they are found.
use mathlib.Core.Path.{subst}
use samdisk_plus.Prelude.{
  ℕ, ◌==◌, ==_iff, Bool, true, false, ◌&&◌, List, [], ◌∷◌, if◌then◌else◌, ◌≡◌, refl, sym, ◌∙◌,
  arith, Bool-cases, inl, inr, ◌⊎◌,
}
use samdisk_plus.Format.{Format, disk_size, try_validate}
use samdisk_plus.Format.FromSize.{from_size, from_cases, known_sizes}

fits_size : ℕ → Format → Bool
fits_size size f = (disk_size f == size) && try_validate f

all_fit : List (ℕ × Format) → Bool
all_fit [] = true
all_fit ((size, f) ∷ cases) = fits_size size f && all_fit cases

known_sizes-fit : all_fit known_sizes ≡ true
unfolding all_fit fits_size known_sizes disk_size try_validate
known_sizes-fit = refl

-- What `FromSize` promises: a valid format of that size, or no change.
abbrev pub Found : ℕ → Format → Format × Bool → Type 0
Found size fmt (f, found) =
    ((found ≡ true) × (disk_size f ≡ size) × (try_validate f ≡ true))
    ⊎ ((found ≡ false) × (f ≡ fmt))

from_cases-Found :
    (cases : List (ℕ × Format)) (size : ℕ) (fmt : Format)
    → all_fit cases ≡ true
    → Found size fmt (from_cases cases size fmt)
unfolding from_cases all_fit fits_size
from_cases-Found [] size fmt h = inr (refl, refl)
from_cases-Found ((known, f) ∷ cases) size fmt h = elim (Bool-cases (size == known)) [
  | inl e ↦
      subst (λ c. Found size fmt (if c then (f, true) else from_cases cases size fmt)) (sym e)
        (inl (
          refl,
          (==_iff (disk_size f) known).0 (ground arith) ∙ sym ((==_iff size known).0 e),
          ground arith,
        ))
  | inr e ↦
      subst (λ c. Found size fmt (if c then (f, true) else from_cases cases size fmt)) (sym e)
        (from_cases-Found cases size fmt (ground arith))
]

-- `FromSize` of any size either finds a format that is valid and whose disk has that size, or
-- reports that there is none and leaves the format as it was.
pub from_size-Found : (size : ℕ) (fmt : Format) → Found size fmt (from_size size fmt)
unfolding from_size
from_size-Found size fmt = from_cases-Found known_sizes size fmt known_sizes-fit
