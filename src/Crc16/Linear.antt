-- ===== src/Crc16/Linear.antt =====
-- The table of src/CRC16.cpp: each entry is reached, and a round is linear over exclusive or.
use Prim.Native.Nat.{bit_xor}
use samdisk_plus.Prelude.{
  ℕ, zero, suc, ◌+◌, ◌*◌, ◌/◌, ◌%◌, ◌^◌, ◌≤◌, ◌<◌, ◌≡◌, refl, ap, ap₂, ◌∙◌, inl, inr, ◌≢◌, ◌==◌,
  Bool, true, false, List, [], ◌∷◌, if◌then◌else◌, set, get_elem?, get_or, length, length-set,
  replicate, get_elem?-set_self, get_elem?-set_ne, not, some, arith, Bool-cases,
}
use samdisk_plus.Prelude.Words.{
  u16, ◌<<<◌, ◌>>>◌, bit_xor-lt, bit_xor-split, bit_xor_exchange, bit_xor-double, bit_xor-parity,
}
use samdisk_plus.Crc16.{
  polynomial, bit_set, table_step, table_steps, table_entry, fill_table, init_crc_table,
  s_crc_lookup, add_bytes, add_byte, init_crc, crc_a1a1a1,
}

get_or-some : (xs : List ℕ) (i v : ℕ) → get_elem? xs i ≡ some v → get_or xs i 0 ≡ v
get_or-some [] i v h = ground arith
get_or-some (x ∷ xs) zero v h = ground arith
get_or-some (x ∷ xs) (suc i) v h = get_or-some xs i v h

-- The filling loop leaves the entries below its index alone.
fill_table_below :
    (left i j : ℕ) (table : List ℕ)
    → j < i
    → get_elem? (fill_table left i table) j ≡ get_elem? table j
unfolding fill_table
fill_table_below zero i j table h = refl
fill_table_below (suc left) i j table h =
    fill_table_below left (i + 1) j (set table i (table_entry i)) (omega arith)
    ∙ get_elem?-set_ne table (table_entry i) (λ e. omega arith)

fill_table_lem :
    (left i j : ℕ) (table : List ℕ)
    → i ≤ j
    → j < i + left
    → i + left ≤ length table
    → get_elem? (fill_table left i table) j ≡ some (table_entry j)
unfolding fill_table
fill_table_lem zero i j table h k fits = absurd (omega arith)
fill_table_lem (suc left) i j table h k fits = elim (Bool-cases (i == j)) [
  | inl same ↦
      let e : i ≡ j = ground arith in
      rw (← e) (
        fill_table_below left (i + 1) i (set table i (table_entry i)) (omega arith)
        ∙ get_elem?-set_self table i (table_entry i) (omega arith))
  | inr other ↦
      let ne : i ≢ j = ground arith in
      fill_table_lem left (i + 1) j (set table i (table_entry i)) (omega arith) (omega arith)
        (omega (arith, length-set table i (table_entry i)))
]

-- The table holds the entry of each index.
pub lookup_entry : (i : ℕ) → i < 256 → get_or s_crc_lookup i 0 ≡ table_entry i
unfolding s_crc_lookup init_crc_table
lookup_entry i h =
    get_or-some (fill_table 256 0 (replicate 256 0)) i (table_entry i)
      (fill_table_lem 256 0 i (replicate 256 0) (omega arith) (omega arith) (omega arith))

abbrev pub feedback : Bool → ℕ
feedback b = if b then polynomial else 0

-- The exclusive or of two truth values.
abbrev pub differs : Bool → Bool → Bool
differs true b = not b
differs false b = b

pub feedback-differs : (p q : Bool) → feedback (differs p q) ≡ bit_xor (feedback p) (feedback q)
feedback-differs true true = refl
feedback-differs true false = refl
feedback-differs false true = refl
feedback-differs false false = refl

parity_differs : (m n : ℕ) → ((m + n) % 2 == 1) ≡ differs (m % 2 == 1) (n % 2 == 1)
parity_differs m n = ground arith

-- An exclusive or, split at bit 15.
at_bit_15 :
    (a b : ℕ)
    → bit_xor a b ≡ bit_xor (a / 2 ^ 15) (b / 2 ^ 15) * 2 ^ 15 + bit_xor (a % 2 ^ 15) (b % 2 ^ 15)
at_bit_15 a b =
    ap₂ bit_xor (parts a) (parts b)
    ∙ bit_xor-split 15 (a / 2 ^ 15) (b / 2 ^ 15) (a % 2 ^ 15) (b % 2 ^ 15) (omega arith)
        (omega arith)
  where
    parts : (x : ℕ) → x ≡ x / 2 ^ 15 * 2 ^ 15 + x % 2 ^ 15
    parts x = omega arith

low_fits : (a b : ℕ) → bit_xor (a % 2 ^ 15) (b % 2 ^ 15) < 2 ^ 15
low_fits a b = bit_xor-lt 15 (a % 2 ^ 15) (b % 2 ^ 15) (omega arith) (omega arith)

high_bit : (a b : ℕ) → (bit_xor a b >>> 15) % 2 ≡ ((a >>> 15) + (b >>> 15)) % 2
high_bit a b = omega (arith, at_bit_15 a b, low_fits a b, bit_xor-parity (a / 2 ^ 15) (b / 2 ^ 15))

-- The highest bit of an exclusive or.
pub bit_set-bit_xor : (a b : ℕ) → bit_set 15 (bit_xor a b) ≡ differs (bit_set 15 a) (bit_set 15 b)
bit_set-bit_xor a b = ap (λ t. t == 1) (high_bit a b) ∙ parity_differs (a >>> 15) (b >>> 15)

u16_double : (a b : ℕ) → u16 (bit_xor a b <<< 1) ≡ bit_xor (u16 (a <<< 1)) (u16 (b <<< 1))
u16_double a b = omega (
  arith,
  at_bit_15 a b,
  low_fits a b,
  bit_xor-double (a % 2 ^ 15) (b % 2 ^ 15),
  ap₂ bit_xor (cut a) (cut b),
)
  where
    cut : (x : ℕ) → u16 (x <<< 1) ≡ x % 2 ^ 15 * 2
    cut x = omega arith

-- A round is linear: of an exclusive or it makes the exclusive or of the results.
pub table_step-bit_xor :
    (a b : ℕ) → table_step (bit_xor a b) ≡ bit_xor (table_step a) (table_step b)
unfolding table_step
table_step-bit_xor a b =
    rw (bit_set-bit_xor a b, feedback-differs (bit_set 15 a) (bit_set 15 b), u16_double a b)
      (bit_xor_exchange (u16 (a <<< 1)) (u16 (b <<< 1)) (feedback (bit_set 15 a))
        (feedback (bit_set 15 b)))

pub table_step-lt : (c : ℕ) → table_step c < 2 ^ 16
unfolding table_step
table_step-lt c =
    bit_xor-lt 16 (u16 (c <<< 1)) (feedback (bit_set 15 c)) (omega arith) (ground arith)

pub table_steps-lt : (n c : ℕ) → c < 2 ^ 16 → table_steps n c < 2 ^ 16
unfolding table_steps
table_steps-lt zero c h = h
table_steps-lt (suc n) c h = table_steps-lt n (table_step c) (table_step-lt c)

pub table_steps-bit_xor :
    (n a b : ℕ) → table_steps n (bit_xor a b) ≡ bit_xor (table_steps n a) (table_steps n b)
unfolding table_steps
table_steps-bit_xor zero a b = refl
table_steps-bit_xor (suc n) a b =
    rw (table_step-bit_xor a b) (table_steps-bit_xor n (table_step a) (table_step b))

-- The constant for the three marks 0xa1 is the CRC of those bytes.
pub crc_a1a1a1_lem : add_bytes init_crc (0xa1 ∷ 0xa1 ∷ 0xa1 ∷ []) ≡ crc_a1a1a1
unfolding add_bytes add_byte table_entry table_steps table_step fill_table init_crc_table
crc_a1a1a1_lem = refl
