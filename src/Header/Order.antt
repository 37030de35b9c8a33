-- ===== src/Header/Order.antt =====
-- Comparison of sector headers (include/Header.h): a strict total order whose equality is
-- `compare_chrn`.
use samdisk_plus.Prelude.{ℕ, ◌+◌, ◌≤◌, ◌<◌, ◌≡◌, ◌↔◌, ◌⊎◌, Bool, true, false, arith}
use samdisk_plus.Header.{
  Header, CylHead, compare_chrn, compare_crn, compare_chr, header_lt, header_le,
  is_normal_and_originated_from_neighbor_cyl,
}

pub compare_chrn_iff : (l r : Header) → (compare_chrn l r ≡ true) ↔ (l ≡ r)
unfolding compare_chrn
compare_chrn_iff l r = ground arith

-- What a comparison must satisfy to order a container.
pub record IsStrictOrder (lt : Header → Header → Bool) : Type 0 where
  pub irrefl : (a : Header) → lt a a ≡ false
  pub trans : (a b c : Header) → lt a b ≡ true → lt b c ≡ true → lt a c ≡ true
  pub total : (a b : Header) → (lt a b ≡ true) ⊎ (a ≡ b) ⊎ (lt b a ≡ true)

-- `operator <` on headers is irreflexive, transitive and total.
pub header_lt-IsStrictOrder : IsStrictOrder header_lt
unfolding header_lt
header_lt-IsStrictOrder = record {
  irrefl = λ a. ground arith;
  trans = λ a b c p q. ground arith;
  total = λ a b. ground arith;
}

-- `operator <=` holds exactly of a smaller or an equal header.
pub header_le_iff :
    (l r : Header) → (header_le l r ≡ true) ↔ ((header_lt l r ≡ true) ⊎ (compare_chrn l r ≡ true))
unfolding header_le compare_chrn
header_le_iff l r = ground arith

-- The full comparison holds exactly when both comparisons that leave a field out do.
pub compare_chrn-split :
    (l r : Header)
    → (compare_chrn l r ≡ true) ↔ ((compare_crn l r ≡ true) × (compare_chr l r ≡ true))
unfolding compare_chrn compare_crn compare_chr
compare_chrn-split l r = ground arith

-- A header from a neighbour: for a drive position with a physical head, the test accepts exactly
-- the headers of a physical head and a cylinder below the limit that differ from the position and
-- lie at most one cylinder away.
pub neighbor_cyl_iff :
    (h : Header) (at : CylHead) (track_sup : ℕ)
    → at.head < 2
    → (is_normal_and_originated_from_neighbor_cyl h at track_sup ≡ true) ↔ (
        (h.head < 2)
        × (h.cyl < track_sup)
        × (h.cyl ≤ at.cyl + 1)
        × (at.cyl ≤ h.cyl + 1)
        × ((h.cyl ≡ at.cyl) → (h.head ≡ at.head) → ⊥))
unfolding is_normal_and_originated_from_neighbor_cyl
neighbor_cyl_iff h at track_sup p = ground arith
