-- ===== src/Sector/Checksum.antt =====
-- `ChecksumMethods` of src/DiskUtil.cpp: which checksums an 8K sector of 6K of data ends with.
use Prim.Native.Nat.{bit_xor}
use samdisk_plus.Prelude.{
  ℕ, ◌+◌, ◌==◌, leb, Bool, true, not, ◌&&◌, List, [], ◌∷◌, ◌++◌, if◌then◌else◌, length, get_or,
  take, drop,
}
use samdisk_plus.Prelude.Words.{u8}
use samdisk_plus.Crc16

-- The enumeration's `None` is `no_checksum`.
pub data ChecksumType : Type 0 where
  no_checksum constant_8c15 sum_1800 xor_1800 xor_18a0 crc_d2f6_1800 crc_d2f6_1802 : ChecksumType

-- `std::accumulate`
unfoldable pub sum_bytes : ℕ → List ℕ → ℕ
sum_bytes acc [] = acc
sum_bytes acc (x ∷ xs) = sum_bytes (acc + x) xs

unfoldable pub xor_bytes : ℕ → List ℕ → ℕ
xor_bytes acc [] = acc
xor_bytes acc (x ∷ xs) = xor_bytes (bit_xor acc x) xs

abbrev pub method_if : Bool → ChecksumType → List ChecksumType
method_if found method = if found then method ∷ [] else []

-- `memcmp(buf, buf + 1, n)` finds no difference.
unfoldable pub all_same : ℕ → List ℕ → Bool
all_same first [] = true
all_same first (x ∷ xs) = first == x && all_same first xs

unfoldable pub two_byte_methods : List ℕ → List ChecksumType
two_byte_methods buf =
    method_if
      (leb 0x1803 (length buf) && (get_or buf 0x1800 0 == 0x8c && get_or buf 0x1801 0 == 0x15))
      constant_8c15
    ++ (method_if (leb 0x1802 (length buf) && Crc16.add_bytes 0xd2f6 (take 0x1802 buf) == 0)
          crc_d2f6_1800
        ++ method_if (leb 0x1804 (length buf) && Crc16.add_bytes 0xd2f6 (take 0x1804 buf) == 0)
            crc_d2f6_1802)

-- A buffer of 0x18a0 bytes has no byte 0x18a0, which the source reads all the same; it is 0 here.
unfoldable pub one_byte_methods : List ℕ → List ChecksumType
unfolding sum_bytes xor_bytes
one_byte_methods buf =
    let xor = u8 (xor_bytes 0 (take 0x1800 buf)) in
    method_if (get_or buf 0x1800 0 == u8 (sum_bytes 0 (take 0x1800 buf))) sum_1800
    ++ (method_if (get_or buf 0x1800 0 == xor) xor_1800
        ++ method_if
            (leb 0x18a0 (length buf)
              && get_or buf 0x18a0 0 == xor_bytes xor (drop 0x1800 (take 0x18a0 buf)))
            xor_18a0)

-- The filler of unused tracks counts only where no other method does.
unfoldable pub or_filler : List ℕ → List ChecksumType → List ChecksumType
unfolding all_same
or_filler buf [] = method_if (all_same (get_or buf 0 0) (take 0x1800 buf)) no_checksum
or_filler buf (m ∷ ms) = m ∷ ms

-- The methods in the order in which they are found.
unfoldable pub checksum_methods : List ℕ → List ChecksumType
unfolding two_byte_methods one_byte_methods or_filler
checksum_methods buf =
    if leb (length buf) 0x1800
    then []
    else or_filler buf (two_byte_methods buf ++ one_byte_methods buf)

-- `!ChecksumMethods(...).empty()`
unfoldable pub has_checksum : List ℕ → Bool
has_checksum buf = not (length (checksum_methods buf) == 0)

-- The length of the checksum in bytes.
unfoldable pub checksum_length : ChecksumType → ℕ
checksum_length no_checksum = 0
checksum_length sum_1800 = 1
checksum_length xor_1800 = 1
checksum_length xor_18a0 = 1
checksum_length constant_8c15 = 2
checksum_length crc_d2f6_1800 = 2
checksum_length crc_d2f6_1802 = 2
