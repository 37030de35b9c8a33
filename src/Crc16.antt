-- ===== src/Crc16.antt =====
-- include/CRC16.h and src/CRC16.cpp: the CRC-16-CCITT of the address marks, sector headers and
-- sector data. The object's only state, `m_crc`, is the number that the functions take and return.
-- `x & (1 << k)` used as a test is `bit_set k x`, and `& 0xff` is the remainder by 256.
pub mod Linear
pub mod Serial
pub mod Residue
use Prim.Native.Nat.{bit_xor}
use samdisk_plus.Prelude.{
  ℕ, zero, suc, ◌+◌, ◌*◌, ◌/◌, ◌%◌, ◌^◌, ◌==◌, Bool, List, [], ◌∷◌, if◌then◌else◌, set, get_or,
  replicate,
}
use samdisk_plus.Prelude.Words.{u16, ◌<<<◌, ◌>>>◌}

abbrev pub polynomial : ℕ
polynomial = 0x1021

abbrev pub init_crc : ℕ
init_crc = 0xffff

abbrev pub crc_a1a1a1 : ℕ
crc_a1a1a1 = 0xcdb4

abbrev pub bit_set : ℕ → ℕ → Bool
bit_set k x = (x >>> k) % 2 == 1

-- One round of the inner loop of `init_crc_table`.
pub table_step : ℕ → ℕ
table_step crc = bit_xor (u16 (crc <<< 1)) (if bit_set 15 crc then polynomial else 0)

-- The inner loop, with `left` rounds to go.
pub table_steps : ℕ → ℕ → ℕ
table_steps zero crc = crc
table_steps (suc left) crc = table_steps left (table_step crc)

pub table_entry : ℕ → ℕ
table_entry i = table_steps 8 (u16 (i <<< 8))

-- The outer loop at index `i`, with `left` rounds to go.
pub fill_table : ℕ → ℕ → List ℕ → List ℕ
fill_table zero i table = table
fill_table (suc left) i table = fill_table left (i + 1) (set table i (table_entry i))

-- The table is filled only while its first entry is 0.
pub init_crc_table : List ℕ → List ℕ
unfolding fill_table
init_crc_table table = if get_or table 0 0 == 0 then fill_table 256 0 table else table

-- The static array is zero before the first constructor runs `init_crc_table`.
pub s_crc_lookup : List ℕ
unfolding init_crc_table
s_crc_lookup = init_crc_table (replicate 256 0)

unfoldable pub add_byte : ℕ → ℕ → ℕ
unfolding s_crc_lookup
add_byte crc byte =
    bit_xor (u16 (crc <<< 8)) (get_or s_crc_lookup (bit_xor (crc >>> 8) byte % 256) 0)

-- `add(byte, len)`
pub add_repeated : ℕ → ℕ → ℕ → ℕ
add_repeated crc byte zero = crc
add_repeated crc byte (suc len) = add_repeated (add_byte crc byte) byte len

-- `add(buf, len)` and `add(data)`
unfoldable pub add_bytes : ℕ → List ℕ → ℕ
add_bytes crc [] = crc
add_bytes crc (byte ∷ bytes) = add_bytes (add_byte crc byte) bytes

unfoldable pub msb : ℕ → ℕ
msb crc = crc >>> 8

unfoldable pub lsb : ℕ → ℕ
lsb crc = crc % 256
