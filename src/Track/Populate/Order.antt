-- ===== src/Track/Populate/Order.antt =====
-- The order in which `Track::populate` of src/Track.cpp writes the sectors, and where it writes them.
use samdisk_plus.Prelude.{
  ℕ, zero, suc, leb, ◌≤◌, ◌<◌, ◌≡◌, ◌≢◌, refl, ap, ap₂, sym, ◌∙◌, Bool, true, List, [], ◌∷◌, ◌++◌,
  length, set, get_elem?, get_elem?-set_self, get_elem?-set_ne, length-set, arith, Option, none,
  some, if_both,
}
use mathlib.Core.Path.{subst}
use samdisk_plus.Sector.{Sector, first_copy}
use samdisk_plus.Track.{find_if}
use samdisk_plus.Track.Add.{insert_at, end_index}
use samdisk_plus.Track.Positions.{end_index-find_if}
use samdisk_plus.Track.Populate.{indexed, sort_by_number, write_back, content}

abbrev Indexed : Type 0
Indexed = ℕ × Sector

abbrev pub All : (Indexed → Type 0) → List Indexed → Type 0
All P [] = Unit
All P (p ∷ ps) = P p × All P ps

-- No index stands twice.
abbrev pub Distinct : List Indexed → Type 0
Distinct [] = Unit
Distinct (p ∷ ps) = All (λ q. p.0 ≢ q.0) ps × Distinct ps

-- The numbers ascend from `m`.
abbrev pub Numbered : ℕ → List Indexed → Type 0
Numbered m [] = Unit
Numbered m (p ∷ ps) = (m ≤ p.1.header.sector) × Numbered p.1.header.sector ps

-- The data at the indices, in the order of the list.
abbrev pub data_at : Option Sector → List ℕ
data_at none = []
data_at (some s) = first_copy s.data_copies

abbrev pub content_at : List Indexed → List Sector → List ℕ
content_at [] ss = []
content_at (p ∷ ps) ss = data_at (get_elem? ss p.0) ++ content_at ps ss

All-insert :
    (P : Indexed → Type 0) (i : ℕ) (p : Indexed) (ps : List Indexed)
    → P p
    → All P ps
    → All P (insert_at i p ps)
All-insert P zero p ps h hs = (h, hs)
All-insert P (suc i) p [] h hs = (h, tt)
All-insert P (suc i) p (q ∷ ps) h hs = (hs.0, All-insert P i p ps h hs.1)

pub All-sort : (P : Indexed → Type 0) (ps : List Indexed) → All P ps → All P (sort_by_number ps)
unfolding sort_by_number
All-sort P [] hs = tt
All-sort P (p ∷ ps) hs = All-insert P _ p (sort_by_number ps) hs.0 (All-sort P ps hs.1)

Distinct-insert :
    (i : ℕ) (p : Indexed) (ps : List Indexed)
    → All (λ q. p.0 ≢ q.0) ps
    → Distinct ps
    → Distinct (insert_at i p ps)
Distinct-insert zero p ps h d = (h, d)
Distinct-insert (suc i) p [] h d = (tt, tt)
Distinct-insert (suc i) p (q ∷ ps) h d =
    (All-insert (λ r. q.0 ≢ r.0) i p ps (λ e. h.0 (sym e)) d.0, Distinct-insert i p ps h.1 d.1)

pub Distinct-sort : (ps : List Indexed) → Distinct ps → Distinct (sort_by_number ps)
unfolding sort_by_number
Distinct-sort [] d = tt
Distinct-sort (p ∷ ps) d =
    Distinct-insert _ p (sort_by_number ps) (All-sort (λ q. p.0 ≢ q.0) ps d.0)
      (Distinct-sort ps d.1)

leb_le : (a b : ℕ) → leb a b ≡ true → a ≤ b
leb_le a b h = ground arith

Numbered-insert :
    (m : ℕ) (p : Indexed) (ps : List Indexed)
    → m ≤ p.1.header.sector
    → Numbered m ps
    → Numbered m (
        insert_at (end_index ps (find_if (λ r. leb p.1.header.sector r.1.header.sector) 0 ps)) p ps)
unfolding find_if
Numbered-insert m p [] h n = (h, tt)
Numbered-insert m p (q ∷ ps) h n =
    let test : Indexed → Bool = λ r. leb p.1.header.sector r.1.header.sector in
    let P : ℕ → Type 0 = λ i. Numbered m (insert_at i p (q ∷ ps)) in
    let rest = n.1 in
    let first = n.0 in
    subst P (sym (end_index-find_if test q ps)) (
      if_both P (test q) 0 (suc (end_index ps (find_if test 0 ps)))
        (λ e. (h, (leb_le p.1.header.sector q.1.header.sector e, rest)))
        (λ e. (first, Numbered-insert q.1.header.sector p ps (ground arith) rest)))

pub Numbered-sort : (ps : List Indexed) → Numbered 0 (sort_by_number ps)
unfolding sort_by_number
Numbered-sort [] = tt
Numbered-sort (p ∷ ps) = Numbered-insert 0 p (sort_by_number ps) (omega arith) (Numbered-sort ps)

length-insert :
    (i : ℕ) (p : Indexed) (ps : List Indexed) → length (insert_at i p ps) ≡ suc (length ps)
length-insert zero p ps = refl
length-insert (suc i) p [] = refl
length-insert (suc i) p (q ∷ ps) = ap suc (length-insert i p ps)

pub length-sort : (ps : List Indexed) → length (sort_by_number ps) ≡ length ps
unfolding sort_by_number
length-sort [] = refl
length-sort (p ∷ ps) = length-insert _ p (sort_by_number ps) ∙ ap suc (length-sort ps)

pub length-indexed : (i : ℕ) (ss : List Sector) → length (indexed i ss) ≡ length ss
unfolding indexed
length-indexed i [] = refl
length-indexed i (s ∷ ss) = ap suc (length-indexed (suc i) ss)

indexed-above : (i j : ℕ) (ss : List Sector) → i < j → All (λ q. i ≢ q.0) (indexed j ss)
unfolding indexed
indexed-above i j [] h = tt
indexed-above i j (s ∷ ss) h = ((λ e. omega arith), indexed-above i (suc j) ss (omega arith))

pub Distinct-indexed : (i : ℕ) (ss : List Sector) → Distinct (indexed i ss)
unfolding indexed
Distinct-indexed i [] = tt
Distinct-indexed i (s ∷ ss) =
    (indexed-above i (suc i) ss (omega arith), Distinct-indexed (suc i) ss)

-- A write leaves the other places as they are.
get_elem?-write_back :
    (i : ℕ) (ps : List Indexed) (new ss : List Sector)
    → All (λ q. i ≢ q.0) ps
    → get_elem? (write_back ps new ss) i ≡ get_elem? ss i
unfolding write_back
get_elem?-write_back i [] new ss h = refl
get_elem?-write_back i (p ∷ ps) [] ss h = refl
get_elem?-write_back i (p ∷ ps) (s ∷ new) ss h =
    get_elem?-write_back i ps new (set ss p.0 s) h.1 ∙ get_elem?-set_ne ss s (λ e. h.0 (sym e))

pub length-write_back :
    (ps : List Indexed) (new ss : List Sector) → length (write_back ps new ss) ≡ length ss
unfolding write_back
length-write_back [] new ss = refl
length-write_back (p ∷ ps) [] ss = refl
length-write_back (p ∷ ps) (s ∷ new) ss =
    length-write_back ps new (set ss p.0 s) ∙ length-set ss p.0 s

-- What is written back is found at the indices.
pub content_at-write_back :
    (ps : List Indexed) (new ss : List Sector)
    → Distinct ps
    → All (λ p. p.0 < length ss) ps
    → length new ≡ length ps
    → content_at ps (write_back ps new ss) ≡ content new
unfolding write_back
content_at-write_back [] [] ss d b n = refl
content_at-write_back [] (s ∷ new) ss d b n = absurd (omega arith)
content_at-write_back (p ∷ ps) [] ss d b n = absurd (omega arith)
content_at-write_back (p ∷ ps) (s ∷ new) ss d b n =
    ap₂ ◌++◌
      (ap data_at
        (get_elem?-write_back p.0 ps new (set ss p.0 s) d.0 ∙ get_elem?-set_self ss p.0 s b.0))
      (content_at-write_back ps new (set ss p.0 s) d.1
        (subst (λ k. All (λ q. q.0 < k) ps) (sym (length-set ss p.0 s)) b.1) (omega arith))
