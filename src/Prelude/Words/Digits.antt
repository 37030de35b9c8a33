-- ===== src/Prelude/Words/Digits.antt =====
-- The exclusive or, from the recursion on digits that the native operation stands for.
use Prim.Native.Nat.{digits, differ, bit_xor, bit_xor-bitwise}
use native.Mathlib.Nat.{pow-suc}
use samdisk_plus.Prelude.{
  ℕ, zero, suc, ◌+◌, ◌*◌, ◌/◌, ◌%◌, ◌^◌, ◌≤◌, ◌<◌, ◌≡◌, refl, sym, ap, ◌∙◌, ◌-◌, ◌≡⟨◌⟩◌, ◌∎, arith,
}

-- The recursion of the exclusive or with a bound on its depth.
abbrev to_depth : ℕ → ℕ → ℕ → ℕ
to_depth depth a b = digits (λ left. left) differ depth a b

deeper : (a depth b : ℕ) → a ≤ depth → to_depth (suc depth) a b ≡ to_depth depth a b
deeper zero zero b small = refl
deeper zero (suc depth) b small = refl
deeper (suc a) zero b small = absurd (omega arith)
deeper (suc a) (suc depth) b small = omega (arith, deeper (suc a / 2) depth (b / 2) (omega arith))

-- Any depth from the number itself on gives the same.
own_depth : (extra a b : ℕ) → to_depth (extra + a) a b ≡ to_depth a a b
own_depth zero a b = ap (λ d. to_depth d a b) (omega arith)
own_depth (suc extra) a b =
    ap (λ d. to_depth d a b) {y = suc (extra + a)} (omega arith)
    ∙ deeper a (extra + a) b (omega arith)
    ∙ own_depth extra a b

half_depth : (a b : ℕ) → to_depth a (suc a / 2) b ≡ to_depth (suc a / 2) (suc a / 2) b
half_depth a b =
    ap (λ d. to_depth d (suc a / 2) b) (omega arith) ∙ own_depth (a - suc a / 2) (suc a / 2) b

pub zero-bit_xor : (b : ℕ) → bit_xor 0 b ≡ b
zero-bit_xor b = bit_xor-bitwise 0 b

-- The exclusive or of the lowest digits.
abbrev pub xor_digit : ℕ → ℕ → ℕ
xor_digit a b = (a + b) % 2

differ_digits : (x y : ℕ) → x < 2 → y < 2 → differ x y ≡ (x + y) % 2
differ_digits zero zero p q = refl
differ_digits zero (suc zero) p q = refl
differ_digits (suc zero) zero p q = refl
differ_digits (suc zero) (suc zero) p q = refl
differ_digits zero (suc (suc y)) p q = absurd (omega arith)
differ_digits (suc zero) (suc (suc y)) p q = absurd (omega arith)
differ_digits (suc (suc x)) y p q = absurd (omega arith)

differ-eq : (a b : ℕ) → differ (a % 2) (b % 2) ≡ xor_digit a b
differ-eq a b = omega (arith, differ_digits (a % 2) (b % 2) (omega arith) (omega arith))

pub bit_xor_step : (a b : ℕ) → bit_xor a b ≡ bit_xor (a / 2) (b / 2) * 2 + xor_digit a b
bit_xor_step zero b = omega (arith, zero-bit_xor b, zero-bit_xor (b / 2))
bit_xor_step (suc a) b = omega (
  arith,
  bit_xor-bitwise (suc a) b,
  bit_xor-bitwise (suc a / 2) (b / 2),
  differ-eq (suc a) b,
  half_depth a (b / 2),
)

-- Half of an exclusive or, and its lowest digit.
pub bit_xor-half : (a b : ℕ) → bit_xor a b / 2 ≡ bit_xor (a / 2) (b / 2)
bit_xor-half a b = omega (arith, bit_xor_step a b)

pub bit_xor-parity : (a b : ℕ) → bit_xor a b % 2 ≡ xor_digit a b
bit_xor-parity a b = omega (arith, bit_xor_step a b)

-- `n` bounds the numbers, so that halving them lowers it.
comm_below : (n a b : ℕ) → a ≤ n → b ≤ n → bit_xor a b ≡ bit_xor b a
comm_below zero zero zero p q = refl
comm_below zero zero (suc b) p q = absurd (omega arith)
comm_below zero (suc a) b p q = absurd (omega arith)
comm_below (suc n) a b p q = omega (
  arith,
  bit_xor_step a b,
  bit_xor_step b a,
  comm_below n (a / 2) (b / 2) (omega arith) (omega arith),
)

pub bit_xor_comm : (a b : ℕ) → bit_xor a b ≡ bit_xor b a
bit_xor_comm a b = comm_below (a + b) a b (omega arith) (omega arith)

assoc_below :
    (n a b c : ℕ) → a ≤ n → b ≤ n → c ≤ n → bit_xor (bit_xor a b) c ≡ bit_xor a (bit_xor b c)
assoc_below zero zero zero zero p q r = refl
assoc_below zero zero zero (suc c) p q r = absurd (omega arith)
assoc_below zero zero (suc b) c p q r = absurd (omega arith)
assoc_below zero (suc a) b c p q r = absurd (omega arith)
assoc_below (suc n) a b c p q r =
    rw
      (
        bit_xor_step (bit_xor a b) c,
        bit_xor_step a (bit_xor b c),
        bit_xor-half a b,
        bit_xor-half b c,
      )
      (omega (
        arith,
        bit_xor-parity a b,
        bit_xor-parity b c,
        assoc_below n (a / 2) (b / 2) (c / 2) (omega arith) (omega arith) (omega arith),
      ))

pub bit_xor_assoc : (a b c : ℕ) → bit_xor (bit_xor a b) c ≡ bit_xor a (bit_xor b c)
bit_xor_assoc a b c = assoc_below (a + b + c) a b c (omega arith) (omega arith) (omega arith)

self_below : (n a : ℕ) → a ≤ n → bit_xor a a ≡ 0
self_below zero zero p = refl
self_below zero (suc a) p = absurd (omega arith)
self_below (suc n) a p = omega (arith, bit_xor_step a a, self_below n (a / 2) (omega arith))

pub bit_xor_self : (a : ℕ) → bit_xor a a ≡ 0
bit_xor_self a = self_below a a (omega arith)

pub bit_xor-zero : (a : ℕ) → bit_xor a 0 ≡ a
bit_xor-zero a = omega (arith, bit_xor_comm a 0, zero-bit_xor a)

-- Shifts distribute over the exclusive or.
pub bit_xor-double : (a b : ℕ) → bit_xor (a * 2) (b * 2) ≡ bit_xor a b * 2
bit_xor-double a b = rw (bit_xor_step (a * 2) (b * 2), half a, half b) (omega arith)
  where
    half : (x : ℕ) → x * 2 / 2 ≡ x
    half x = omega arith

pub bit_xor-shl : (k a b : ℕ) → bit_xor (a * 2 ^ k) (b * 2 ^ k) ≡ bit_xor a b * 2 ^ k
bit_xor-shl zero a b = rw (one a, one b, one (bit_xor a b))
  where
    one : (x : ℕ) → x * 2 ^ 0 ≡ x
    one x = omega arith
bit_xor-shl (suc k) a b =
    rw (twice a, twice b, twice (bit_xor a b), bit_xor-double (a * 2 ^ k) (b * 2 ^ k))
      (ap (λ t. t * 2) (bit_xor-shl k a b))
  where
    twice : (x : ℕ) → x * 2 ^ suc k ≡ x * 2 ^ k * 2
    twice x = omega (arith, ap (λ (t : ℕ). x * t) (pow-suc 2 k))

-- Disjoint fields: the exclusive or is the sum.
pub bit_xor-fields : (k q r : ℕ) → r < 2 ^ k → bit_xor (q * 2 ^ k) r ≡ q * 2 ^ k + r
bit_xor-fields zero q r fits = ground (arith, bit_xor-zero q)
bit_xor-fields (suc k) q r fits = ground (
  arith,
  bit_xor_step (q * 2 ^ suc k) r,
  ap (λ (t : ℕ). q * t) (pow-suc 2 k),
  pow-suc 2 k,
  bit_xor-fields k q (r / 2) (omega (arith, pow-suc 2 k)),
)

-- The exclusive or fits the width of its arguments.
pub bit_xor-lt : (k a b : ℕ) → a < 2 ^ k → b < 2 ^ k → bit_xor a b < 2 ^ k
bit_xor-lt zero a b p q = ground (arith, bit_xor-zero a)
bit_xor-lt (suc k) a b p q = omega (
  arith,
  pow-suc 2 k,
  bit_xor_step a b,
  bit_xor-lt k (a / 2) (b / 2) (omega (arith, pow-suc 2 k)) (omega (arith, pow-suc 2 k)),
)

-- Two exclusive ors exchange their middle terms.
pub bit_xor_exchange :
    (a b c d : ℕ) → bit_xor (bit_xor a b) (bit_xor c d) ≡ bit_xor (bit_xor a c) (bit_xor b d)
bit_xor_exchange a b c d =
    bit_xor (bit_xor a b) (bit_xor c d)
    ≡⟨ bit_xor_assoc a b (bit_xor c d) ⟩ bit_xor a (bit_xor b (bit_xor c d))
    ≡⟨ ap (bit_xor a) (sym (bit_xor_assoc b c d)) ⟩ bit_xor a (bit_xor (bit_xor b c) d)
    ≡⟨ ap (λ t. bit_xor a (bit_xor t d)) (bit_xor_comm b c) ⟩ bit_xor a (bit_xor (bit_xor c b) d)
    ≡⟨ ap (bit_xor a) (bit_xor_assoc c b d) ⟩ bit_xor a (bit_xor c (bit_xor b d))
    ≡⟨ sym (bit_xor_assoc a c (bit_xor b d)) ⟩ bit_xor (bit_xor a c) (bit_xor b d) ∎

-- Field by field: the exclusive or of two numbers split at bit `k`.
pub bit_xor-split :
    (k p q r s : ℕ)
    → r < 2 ^ k
    → s < 2 ^ k
    → bit_xor (p * 2 ^ k + r) (q * 2 ^ k + s) ≡ bit_xor p q * 2 ^ k + bit_xor r s
bit_xor-split k p q r s hr hs =
    rw
      (
        ← bit_xor-fields k p r hr,
        ← bit_xor-fields k q s hs,
        bit_xor_exchange (p * 2 ^ k) r (q * 2 ^ k) s,
        bit_xor-shl k p q,
      )
      (bit_xor-fields k (bit_xor p q) (bit_xor r s) (bit_xor-lt k r s hr hs))
