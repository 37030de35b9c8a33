-- ===== src/BitBuffer/Align.antt =====
-- `BitBuffer::align`: the bits are copied in units of one data byte, and a unit that a sync mark
-- ends early is taken back and written again, so that the mark is aligned.
use Prim.Native.Nat.{bit_or, bit_and}
use samdisk_plus.Prelude.{
  ℕ, zero, suc, ◌+◌, ◌-◌, ◌%◌, ◌==◌, leb, Bool, true, false, ◌&&◌, ◌||◌, if◌then◌else◌, Option,
  none, some, map,
}
use samdisk_plus.Prelude.Words.{u32, ◌<<<◌, ◌>>>◌}
use samdisk_plus.Header.{Encoding, is_fm, is_mfm}
use samdisk_plus.BitBuffer.{BitBuffer, new_buffer, seek, wrapped, read1, add, remove}

-- The FM address marks with the clocks of each.
fm_marks : ℕ → Bool
fm_marks dword =
    dword == 0xaa222888
    || dword == 0xaa22288a
    || dword == 0xaa2228a8
    || dword == 0xaa2228aa
    || dword == 0xaa2a2a88
    || dword == 0xaa222a8a
    || dword == 0xaa222aa8

-- `a1sync` is the option of that name.
is_mark : Bool → Encoding → ℕ → Bool
unfolding fm_marks
is_mark a1sync encoding dword =
    (is_mfm encoding && bit_and dword (if a1sync then 0xffdf else 0xffff) == 0x4489)
    || (is_fm encoding && fm_marks dword)

-- What the inner loop leaves behind: the bits read, the last 32 of them, and the buffer.
pub record Scan : Type 0 where
  pub count : ℕ
  pub dword : ℕ
  pub source : BitBuffer

-- The inner loop at `i`, with `left` rounds to go.
pub scan_unit : Bool → ℕ → ℕ → ℕ → BitBuffer → Scan
unfolding is_mark read1
scan_unit a1sync zero i dword b = record { count = i; dword = dword; source = b }
scan_unit a1sync (suc left) i dword b =
    let (bit, b') = read1 b in
    let next = u32 (bit_or (dword <<< 1) bit) in
    let rest = scan_unit a1sync left (i + 1) next b' in
    if is_mark a1sync b.encoding next
    then record { count = i + 1; dword = next; source = b' }
    else rest

-- `while (--i >= 0) newbuf.add((dword >> i) & 1)`
pub add_low_bits : ℕ → ℕ → BitBuffer → BitBuffer
unfolding add
add_low_bits zero dword b = b
add_low_bits (suc i) dword b = add_low_bits i dword (add ((dword >>> i) % 2 == 1) b)

-- `*this`, `newbuf`, `dword` and `modified`.
pub record Aligning : Type 0 where
  pub source : BitBuffer
  pub target : BitBuffer
  pub dword : ℕ
  pub modified : Bool

-- The body of the outer loop. The index positions that are adjusted are those of the source.
pub align_unit : Bool → Aligning → Aligning
unfolding scan_unit add_low_bits remove
align_unit a1sync s =
    let unit : ℕ = if is_fm s.source.encoding then 32 else 16 in
    let found = scan_unit a1sync unit 0 s.dword s.source in
    let b = found.source in
    if found.count == unit
    then record {
      source = b;
      target = add_low_bits unit found.dword s.target;
      dword = found.dword;
      modified = s.modified;
    }
    else record {
      source = record b { indexes = map (λ p. if leb b.bitpos p then p - unit else p) b.indexes };
      target = add_low_bits unit found.dword (remove unit s.target);
      dword = found.dword;
      modified = true;
    }

-- `none` means that the fuel ran out.
pub align_loop : Bool → ℕ → Aligning → Option Aligning
unfolding align_unit wrapped
align_loop a1sync zero s = none
align_loop a1sync (suc fuel) s =
    let rest = align_loop a1sync fuel (align_unit a1sync s) in
    if wrapped s.source then some s else rest

-- `newbuf` at the start: no bits, and a copy of the index positions.
abbrev align_start : BitBuffer → Aligning
align_start b = record {
  source = (seek 0 b).0;
  target = record (new_buffer b.datarate b.encoding 1) { indexes = b.indexes };
  dword = 0;
  modified = false;
}

-- The two buffers are exchanged if anything was changed.
align_result : Option Aligning → Option (BitBuffer × Bool)
align_result none = none
align_result (some s) = some (if s.modified then s.target else s.source, s.modified)

unfoldable pub align : Bool → ℕ → BitBuffer → Option (BitBuffer × Bool)
unfolding align_loop align_result seek new_buffer
align a1sync fuel b = align_result (align_loop a1sync fuel (align_start b))
