-- ===== src/Sector/Inv.antt =====
-- The invariant of a sector, and the list operations that it goes through.
use samdisk_plus.Prelude.{
  ℕ, zero, suc, ◌+◌, ◌-◌, ◌==◌, leb, ◌≤◌, ◌<◌, ◌≡◌, true, not, ◌||◌, List, [], ◌∷◌, ◌++◌, length,
  take, map, replicate, arith, length-append, length-take, length-replicate,
}
use samdisk_plus.Sector.{Options, Sector}
use samdisk_plus.Sector.Edit.{resize, erase}

-- All copies have one size.
abbrev pub AllSize : ℕ → List (List ℕ) → Type 0
AllSize n [] = Unit
AllSize n (d ∷ ds) = (length d ≡ n) × AllSize n ds

-- `pending` copies have no read stats yet, and every other has them; there are no more copies than
-- the limit, all of one size; good data without paranoia are a single copy; and a sector with a
-- bad id has no data.
pub record Balanced (o : Options) (pending : ℕ) (s : Sector) : Type 0 where
  pub stats : length s.data_copies ≡ pending + length s.data_read_stats
  pub few : length s.data_copies ≤ o.maxcopies
  pub even : (n : ℕ) × AllSize n s.data_copies
  pub single : s.bad_data_crc || (o.paranoia || leb (length s.data_copies) 1) ≡ true
  pub headless : not s.bad_id_crc || length s.data_copies == 0 ≡ true

abbrev pub IsValid : Options → Sector → Type 0
IsValid o s = Balanced o 0 s

pub length-resize {ℓ} :
    {A : Type ℓ} (fill : A) (n : ℕ) (xs : List A) → length (resize fill n xs) ≡ n
length-resize fill n xs = omega (
  arith,
  length-append (take n xs) (replicate (n - length xs) fill),
  length-take n xs,
  length-replicate (n - length xs) fill,
)

pub length-erase {ℓ} :
    {A : Type ℓ} (i : ℕ) (xs : List A) → i < length xs → length (erase i xs) + 1 ≡ length xs
length-erase i [] h = absurd (omega arith)
length-erase zero (x ∷ xs) h = omega arith
length-erase (suc i) (x ∷ xs) h = omega (arith, length-erase i xs (omega arith))

pub erase-AllSize : (n i : ℕ) (ds : List (List ℕ)) → AllSize n ds → AllSize n (erase i ds)
erase-AllSize n i [] h = tt
erase-AllSize n zero (d ∷ ds) h = h.1
erase-AllSize n (suc i) (d ∷ ds) h = (h.0, erase-AllSize n i ds h.1)

pub resize-AllSize : (n : ℕ) (ds : List (List ℕ)) → AllSize n (map (λ d. resize 0 n d) ds)
resize-AllSize n [] = tt
resize-AllSize n (d ∷ ds) = (length-resize 0 n d, resize-AllSize n ds)

pub append-AllSize :
    (n : ℕ) (ds : List (List ℕ)) (d : List ℕ)
    → AllSize n ds
    → length d ≡ n
    → AllSize n (ds ++ d ∷ [])
append-AllSize n [] d h e = (e, tt)
append-AllSize n (x ∷ ds) d h e = (h.0, append-AllSize n ds d h.1 e)
