-- ===== src/Track/Populate/Whole.antt =====
-- `Track::populate` of src/Track.cpp as a whole.
use samdisk_plus.Prelude.{
  ℕ, suc, ◌+◌, ◌≤◌, ◌<◌, ◌≡◌, refl, ap, ◌∙◌, false, List, [], ◌∷◌, ◌++◌, length, drop, get_elem?,
  arith, some,
}
use samdisk_plus.Sector.{Options, Sector, size}
use samdisk_plus.Track.{Track}
use samdisk_plus.Track.Populate.{
  populate, populate_sectors, indexed, sort_by_number, sectors_of, content, AllFull,
}
use samdisk_plus.Track.Populate.Written.{populate_sectors-content}
use samdisk_plus.Track.Populate.Order.{
  All, All-sort, Distinct, Distinct-sort, Distinct-indexed, Numbered, Numbered-sort, content_at,
  length-sort, length-indexed, length-write_back, content_at-write_back,
}

-- The sectors of `t` in the order of their numbers, each once and with its index.
pub record IsOrder (t : Track) (order : List (ℕ × Sector)) : Type 0 where
  pub ascending : Numbered 0 order
  pub once : Distinct order
  pub every : length order ≡ length t.sectors
  pub own : All (λ p. get_elem? t.sectors p.0 ≡ some p.1) order

abbrev Full : Sector → Type 0
Full s = (d : List ℕ) × (s.data_copies ≡ d ∷ []) × (length d ≡ size s)

indexed-own :
    (all ss : List Sector) (i : ℕ)
    → ((k : ℕ) → get_elem? all (i + k) ≡ get_elem? ss k)
    → All (λ p. get_elem? all p.0 ≡ some p.1) (indexed i ss)
unfolding indexed
indexed-own all [] i h = tt
indexed-own all (s ∷ ss) i h = (
  ap (get_elem? all) (omega arith) ∙ h 0,
  indexed-own all ss (suc i) (λ k. ap (get_elem? all) (omega arith) ∙ h (suc k)),
)

indexed-below : (n i : ℕ) (ss : List Sector) → i + length ss ≤ n → All (λ p. p.0 < n) (indexed i ss)
unfolding indexed
indexed-below n i [] h = tt
indexed-below n i (s ∷ ss) h = (omega arith, indexed-below n (suc i) ss (omega arith))

indexed-Full : (i : ℕ) (ss : List Sector) → AllFull ss → All (λ p. Full p.1) (indexed i ss)
unfolding indexed
indexed-Full i [] h = tt
indexed-Full i (s ∷ ss) h = (h.0, indexed-Full (suc i) ss h.1)

All-AllFull : (ps : List (ℕ × Sector)) → All (λ p. Full p.1) ps → AllFull (sectors_of ps)
All-AllFull [] h = tt
All-AllFull (p ∷ ps) h = (h.0, All-AllFull ps h.1)

length-sectors_of : (ps : List (ℕ × Sector)) → length (sectors_of ps) ≡ length ps
length-sectors_of [] = refl
length-sectors_of (p ∷ ps) = ap suc (length-sectors_of ps)

length-populate_sectors :
    (o : Options) (ss : List Sector) (input : List ℕ)
    → length (populate_sectors o false ss input).0 ≡ length ss
unfolding populate_sectors
length-populate_sectors o [] input = refl
length-populate_sectors o (s ∷ ss) input = ap suc (length-populate_sectors o ss _)

-- On a track whose sectors each have one copy of their size, `populate`, with incomplete data not
-- signed, keeps the number of sectors, and there is an order of all of them by their numbers such
-- that, read in this order, they hold the input afterwards, what it does not reach stays as it was,
-- and what does not fit is left over.
pub populate-content :
    (o : Options) (t : Track) (input : List ℕ)
    → AllFull t.sectors
    → (order : List (ℕ × Sector)) × IsOrder t order
      × (length (populate o false t input).0.sectors ≡ length t.sectors)
      × (content_at order (populate o false t input).0.sectors ++ (populate o false t input).1
          ≡ input ++ drop (length input) (content (sectors_of order)))
unfolding populate
populate-content o t input full =
    let listed = indexed 0 t.sectors in
    let order = sort_by_number listed in
    let new = (populate_sectors o false (sectors_of order) input).0 in
    let left = (populate_sectors o false (sectors_of order) input).1 in
    let distinct = Distinct-sort listed (Distinct-indexed 0 t.sectors) in
    let below =
      All-sort (λ p. p.0 < length t.sectors) listed
        (indexed-below (length t.sectors) 0 t.sectors (omega arith)) in
    let many = length-populate_sectors o (sectors_of order) input ∙ length-sectors_of order in
    let full_order =
      All-AllFull order (All-sort (λ p. Full p.1) listed (indexed-Full 0 t.sectors full)) in
    (
      order,
      record {
        ascending = Numbered-sort listed;
        once = distinct;
        every = length-sort listed ∙ length-indexed 0 t.sectors;
        own =
            All-sort (λ p. get_elem? t.sectors p.0 ≡ some p.1) listed
              (indexed-own t.sectors t.sectors 0 (λ k. ap (get_elem? t.sectors) (omega arith)));
      },
      length-write_back order new t.sectors,
      ap (λ c. c ++ left) (content_at-write_back order new t.sectors distinct below many)
          ∙ populate_sectors-content o (sectors_of order) input full_order,
    )
