-- ===== src/TrackBuilder/Sectors.antt =====
-- What src/TrackBuilder.cpp writes for address marks, sector headers and sector data, in cells.
pub mod Field
pub mod Layout
pub mod Length
pub mod Thrown
use Prim.Native.Nat.{bit_xor}
use mathlib.Core.Path.{subst}
use samdisk_plus.Prelude.{
  ℕ, zero, suc, ◌+◌, ◌-◌, ◌*◌, ◌/◌, ◌%◌, ◌^◌, ◌<◌, ◌≡◌, refl, ap, ap₂, sym, ◌∙◌, Bool, true, false,
  not, ◌&&◌, List, [], ◌∷◌, ◌++◌, ◌==◌, if◌then◌else◌, length, ltb, replicate, map, arith,
  append_assoc, append-nil, Option, none, some,
}
use samdisk_plus.Prelude.Bind.{◌>>=◌}
use samdisk_plus.Prelude.Words.{◌<<<◌, ◌>>>◌}
use samdisk_plus.Crc16
use samdisk_plus.Crc16.{init_crc, crc_a1a1a1}
use samdisk_plus.Crc16.Linear.{crc_a1a1a1_lem}
use samdisk_plus.Header.{Encoding, DataRate, Header, is_fm}
use samdisk_plus.Ibm.{ibm_idam, ibm_iam, get_fm_or_mfm_gap2_length, get_fm_or_mfm_sync_length}
use samdisk_plus.TrackBuilder.{
  Builder, Medium, add_byte, add_crc_byte, add_byte_update_crc, add_byte_with_clock, add_fill,
  add_block_update_crc, add_gap, add_gap2, add_sync, important, add_mark, add_am, add_iam,
  add_crc_bytes, add_sector_header, add_sector_data,
}
use samdisk_plus.Sector.{Sector, size_code_to_length}
use samdisk_plus.TrackBuilder.Cells.{Cell, byte, mark, encode, last_of}
use samdisk_plus.TrackBuilder.Emits.{
  Recorder, Wrote, Emits, Emits-refl, Emits-trans, add_byte-Emits, add_byte-crc,
  add_byte_with_clock-Emits,
}
use samdisk_plus.TrackBuilder.Emits.Blocks.{
  add_crc_byte-Emits, add_fill-Emits, add_block_update_crc-Emits,
}

-- The cells of the parts of a sector.
abbrev pub sync_cells : Encoding → Bool → List Cell
sync_cells e short = replicate (get_fm_or_mfm_sync_length e short) (byte 0x00)

abbrev pub a1_marks : List Cell
a1_marks = mark 0xa1 0x0a ∷ mark 0xa1 0x0a ∷ mark 0xa1 0x0a ∷ []

abbrev pub mark_cells : Encoding → ℕ → List Cell
mark_cells e type = if is_fm e then mark type 0xc7 ∷ [] else a1_marks ++ byte type ∷ []

-- The bytes of a mark as the CRC takes them.
abbrev pub marked_bytes : Encoding → ℕ → List ℕ
marked_bytes e type = if is_fm e then type ∷ [] else 0xa1 ∷ 0xa1 ∷ 0xa1 ∷ type ∷ []

-- The CRC of a field: its mark and then its bytes, from the initial value.
abbrev pub field_crc : Encoding → ℕ → List ℕ → ℕ
field_crc e type bytes = Crc16.add_bytes (Crc16.add_bytes init_crc (marked_bytes e type)) bytes

abbrev pub crc_cells : ℕ → Bool → List Cell
crc_cells crc bad =
    byte (bit_xor crc (if bad then 0x5555 else 0) >>> 8)
    ∷ byte (bit_xor crc (if bad then 0x5555 else 0) % 256)
    ∷ []

abbrev pub id_bytes : Header → List ℕ
id_bytes h = h.cyl ∷ h.head ∷ h.sector ∷ h.size ∷ []

abbrev pub id_cells : Encoding → Header → Bool → Bool → List Cell
id_cells e h bad short =
    sync_cells e short
    ++ (mark_cells e ibm_idam
        ++ (map byte (id_bytes h) ++ crc_cells (field_crc e ibm_idam (id_bytes h)) bad))

-- Each field of the header is a byte.
abbrev pub has_byte_fields : Header → Bool
has_byte_fields h = ltb h.cyl 256 && (ltb h.head 256 && (ltb h.sector 256 && ltb h.size 256))

-- Four steps of which each may throw.
four_steps :
    {A : Type 0} (c0 c1 c2 c3 : Bool) (f0 f1 f2 f3 last : A → A) (a : A)
    → ((if c0 then some (f0 a) else none) >>= λ a0. (if c1 then some (f1 a0) else none) >>= λ a1.
        (if c2 then some (f2 a1) else none) >>= λ a2.
        (if c3 then some (f3 a2) else none) >>= λ a3. some (last a3))
      ≡ (if c0 && (c1 && (c2 && c3)) then some (last (f3 (f2 (f1 (f0 a))))) else none)
four_steps false c1 c2 c3 f0 f1 f2 f3 last a = refl
four_steps true false c2 c3 f0 f1 f2 f3 last a = refl
four_steps true true false c3 f0 f1 f2 f3 last a = refl
four_steps true true true false f0 f1 f2 f3 last a = refl
four_steps true true true true f0 f1 f2 f3 last a = refl

-- The builder after the header, where no exception is thrown.
abbrev pub header_written : {S : Type 0} → Medium S → Header → Bool → Bool → Builder S → Builder S
header_written m h bad short t =
    add_crc_bytes m bad
      (add_block_update_crc m.add_raw_bit (id_bytes h) (add_am m ibm_idam false short t))

pub add_sector_header-if :
    {S : Type 0} (m : Medium S) (h : Header) (bad short : Bool) (t : Builder S)
    → add_sector_header m h bad short t
      ≡ (if has_byte_fields h then some (header_written m h bad short t) else none)
unfolding add_sector_header add_byte_update_crc add_block_update_crc
add_sector_header-if m h bad short t =
    four_steps (ltb h.cyl 256) (ltb h.head 256) (ltb h.sector 256) (ltb h.size 256)
      (add_crc_byte m.add_raw_bit h.cyl) (add_crc_byte m.add_raw_bit h.head)
      (add_crc_byte m.add_raw_bit h.sector) (add_crc_byte m.add_raw_bit h.size)
      (add_crc_bytes m bad) (add_am m ibm_idam false short t)

-- A medium whose other virtual methods leave the bits as they are.
pub record Steady {S : Type 0} (m : Medium S) (r : Recorder m.add_raw_bit) : Type 0 where
  pub important_good : (s : S) → r.Good s → r.Good (m.just_added_important_bits s)
  pub important_view : (s : S) → r.view (m.just_added_important_bits s) ≡ r.view s
  pub iam_good : (s : S) → r.Good s → r.Good (m.after_iam s)
  pub iam_view : (s : S) → r.view (m.after_iam s) ≡ r.view s

module _ {S : Type 0} (m : Medium S) (r : Recorder m.add_raw_bit) (steady : Steady m r) where
  open r use {Good, view}

  -- Cells are appended, and the CRC is then `crc`.
  pub record Fields (t t' : Builder S) (cells : List Cell) (crc : ℕ) : Type 0 where
    pub emits : Emits m.add_raw_bit r t t' cells
    pub crc_is : t'.crc ≡ crc

  Fields-if :
      (c : Bool) (t a b : Builder S) (xs ys : List Cell) (k l : ℕ)
      → Fields t a xs k
      → Fields t b ys l
      → Fields t (if c then a else b) (if c then xs else ys) (if c then k else l)
  Fields-if true t a b xs ys k l p q = p
  Fields-if false t a b xs ys k l p q = q

  pub important-Emits :
      (t t' : Builder S) (cells : List Cell)
      → Emits m.add_raw_bit r t t' cells
      → Emits m.add_raw_bit r t (important m t') cells
  unfolding important
  important-Emits t t' cells p = record {
    good = steady.important_good t'.medium p.good;
    written = steady.important_view t'.medium ∙ p.written;
    last_bit = p.last_bit;
    same_encoding = p.same_encoding;
    same_datarate = p.same_datarate;
  }

  a1_marks-Emits :
      (t : Builder S)
      → Good t.medium
      → Emits m.add_raw_bit r t
          (add_byte_with_clock m.add_raw_bit 0xa1 0x0a (
            add_byte_with_clock m.add_raw_bit 0xa1 0x0a
              (add_byte_with_clock m.add_raw_bit 0xa1 0x0a t)))
          a1_marks
  a1_marks-Emits t g =
      let raw = m.add_raw_bit in
      let t1 = add_byte_with_clock raw 0xa1 0x0a t in
      let t2 = add_byte_with_clock raw 0xa1 0x0a t1 in
      let t3 = add_byte_with_clock raw 0xa1 0x0a t2 in
      let p = add_byte_with_clock-Emits raw r 0xa1 0x0a t g in
      let q = add_byte_with_clock-Emits raw r 0xa1 0x0a t1 p.good in
      let w = add_byte_with_clock-Emits raw r 0xa1 0x0a t2 q.good in
      Emits-trans raw r t t1 t3 (mark 0xa1 0x0a ∷ []) (mark 0xa1 0x0a ∷ mark 0xa1 0x0a ∷ []) p
        (Emits-trans raw r t1 t2 t3 (mark 0xa1 0x0a ∷ []) (mark 0xa1 0x0a ∷ []) q w)

  with_crc-Emits :
      (t t' : Builder S) (cells : List Cell) (k : ℕ)
      → Emits m.add_raw_bit r t t' cells
      → Emits m.add_raw_bit r t (record t' { crc = k }) cells
  with_crc-Emits t t' cells k p = record {
    good = p.good;
    written = p.written;
    last_bit = p.last_bit;
    same_encoding = p.same_encoding;
    same_datarate = p.same_datarate;
  }

  abbrev mark_crc : Encoding → ℕ → ℕ
  mark_crc e type = if is_fm e then Crc16.add_byte init_crc type else Crc16.add_byte crc_a1a1a1 type

  mark_crc-eq : (e : Encoding) (type : ℕ) → mark_crc e type ≡ field_crc e type []
  unfolding Crc16.add_bytes
  mark_crc-eq Encoding.fm type = refl
  mark_crc-eq _ type = ap (λ c. Crc16.add_byte c type) (sym crc_a1a1a1_lem)

  add_mark-Fields :
      (type : ℕ) (t : Builder S)
      → Good t.medium
      → Fields t (add_mark m type t) (mark_cells t.encoding type) (field_crc t.encoding type [])
  unfolding add_mark
  add_mark-Fields type t g =
      let raw = m.add_raw_bit in
      let marked =
        record (add_byte_with_clock raw 0xa1 0x0a
          (add_byte_with_clock raw 0xa1 0x0a (add_byte_with_clock raw 0xa1 0x0a t))) {
            crc = crc_a1a1a1;
          } in
      let p = with_crc-Emits t _ a1_marks crc_a1a1a1 (a1_marks-Emits t g) in
      let (q, c) = add_crc_byte-Emits raw r type marked p.good in
      let fm =
        with_crc-Emits t _ (mark type 0xc7 ∷ []) (Crc16.add_byte init_crc type)
          (add_byte_with_clock-Emits raw r type 0xc7 t g) in
      rw (← mark_crc-eq t.encoding type) (
        Fields-if (is_fm t.encoding) t _ _ (mark type 0xc7 ∷ []) (a1_marks ++ byte type ∷ [])
          (Crc16.add_byte init_crc type) (Crc16.add_byte crc_a1a1a1 type)
          (record { emits = fm; crc_is = refl })
          (record {
            emits = Emits-trans raw r t marked _ a1_marks (byte type ∷ []) p q;
            crc_is = c;
          }))

  add_sync-Emits :
      (short : Bool) (t : Builder S)
      → Good t.medium
      → Emits m.add_raw_bit r t (add_sync m.add_raw_bit short t) (sync_cells t.encoding short)
  unfolding add_sync
  add_sync-Emits short t g =
      add_fill-Emits m.add_raw_bit r 0x00 (get_fm_or_mfm_sync_length t.encoding short) t g

  -- `addAM` with its sync.
  pub add_am-Fields :
      (type : ℕ) (short : Bool) (t : Builder S)
      → Good t.medium
      → Fields t
          (add_am m type false short t)
          (sync_cells t.encoding short ++ mark_cells t.encoding type)
          (field_crc t.encoding type [])
  unfolding add_am important
  add_am-Fields type short t g =
      let raw = m.add_raw_bit in
      let synced = add_sync raw short t in
      let p = add_sync-Emits short t g in
      let f = add_mark-Fields type synced p.good in
      let e = p.same_encoding in
      record {
        emits =
            important-Emits t (add_mark m type synced)
              (sync_cells t.encoding short ++ mark_cells t.encoding type)
              (Emits-trans raw r t synced (add_mark m type synced) (sync_cells t.encoding short)
                (mark_cells t.encoding type) p
                (subst (λ k. Emits raw r synced (add_mark m type synced) (mark_cells k type)) e
                  f.emits));
        crc_is = f.crc_is ∙ ap (λ k. field_crc k type []) e;
      }

  -- `addCrcBytes` writes the CRC, or one that is wrong on purpose, high byte first.
  pub add_crc_bytes-Emits :
      (bad : Bool) (t : Builder S)
      → Good t.medium
      → Emits m.add_raw_bit r t (add_crc_bytes m bad t) (crc_cells t.crc bad)
  unfolding add_crc_bytes important
  add_crc_bytes-Emits bad t g =
      let raw = m.add_raw_bit in
      let crc = bit_xor t.crc (if bad then 0x5555 else 0) in
      let t' = add_byte raw (crc >>> 8) t in
      let p = add_byte-Emits raw r (crc >>> 8) t g in
      let q = add_byte-Emits raw r (crc % 256) t' p.good in
      important-Emits t (add_byte raw (crc % 256) t') (crc_cells t.crc bad) (
        Emits-trans raw r t t' (add_byte raw (crc % 256) t') (byte (crc >>> 8) ∷ [])
          (byte (crc % 256) ∷ []) p q)

  -- A field: cells that leave a CRC, and then bytes that are taken into it.
  pub Fields-bytes :
      (t t' : Builder S) (cells : List Cell) (crc : ℕ) (bytes : List ℕ)
      → Fields t t' cells crc
      → Fields t
          (add_block_update_crc m.add_raw_bit bytes t')
          (cells ++ map byte bytes)
          (Crc16.add_bytes crc bytes)
  Fields-bytes t t' cells crc bytes f =
      let p = f.emits in
      let (q, c) = add_block_update_crc-Emits m.add_raw_bit r bytes t' p.good in
      record {
        emits =
            Emits-trans m.add_raw_bit r t t' (add_block_update_crc m.add_raw_bit bytes t') cells
              (map byte bytes) p q;
        crc_is = c ∙ ap (λ k. Crc16.add_bytes k bytes) f.crc_is;
      }

  -- The field ends with its CRC.
  pub Fields-crc :
      (t t' : Builder S) (cells : List Cell) (crc : ℕ) (bad : Bool)
      → Fields t t' cells crc
      → Emits m.add_raw_bit r t (add_crc_bytes m bad t') (cells ++ crc_cells crc bad)
  Fields-crc t t' cells crc bad f =
      Emits-trans m.add_raw_bit r t t' (add_crc_bytes m bad t') cells (crc_cells crc bad) f.emits (
        subst (λ k. Emits m.add_raw_bit r t' (add_crc_bytes m bad t') (crc_cells k bad)) f.crc_is
          (add_crc_bytes-Emits bad t' f.emits.good))

  -- What `addSectorHeader` writes where no exception is thrown.
  header_written-Emits :
      (h : Header) (bad short : Bool) (t : Builder S)
      → Good t.medium
      → Emits m.add_raw_bit r t (header_written m h bad short t) (id_cells t.encoding h bad short)
  unfolding Crc16.add_bytes add_block_update_crc
  header_written-Emits h bad short t g =
      let am = sync_cells t.encoding short ++ mark_cells t.encoding ibm_idam in
      let f =
        Fields-bytes t (add_am m ibm_idam false short t) am (field_crc t.encoding ibm_idam [])
          (id_bytes h) (add_am-Fields ibm_idam short t g) in
      let crc = field_crc t.encoding ibm_idam (id_bytes h) in
      let e =
        append_assoc am (map byte (id_bytes h)) (crc_cells crc bad)
        ∙ append_assoc (sync_cells t.encoding short) (mark_cells t.encoding ibm_idam)
            (map byte (id_bytes h) ++ crc_cells crc bad) in
      rw (← e) (Fields-crc t _ (am ++ map byte (id_bytes h)) crc bad f)

  -- If each field of the header is a byte, then on a good medium that appends its bits and whose
  -- other methods leave them as they are `addSectorHeader` throws nothing, and appends the sync, the
  -- id mark, the four bytes of the header and the CRC of the mark and those bytes.
  pub add_sector_header-Emits :
      (h : Header) (bad short : Bool) (t : Builder S)
      → has_byte_fields h ≡ true
      → Good t.medium
      → (t' : Builder S) × (add_sector_header m h bad short t ≡ some t')
        × Emits m.add_raw_bit r t t' (id_cells t.encoding h bad short)
  add_sector_header-Emits h bad short t fits g = (
    header_written m h bad short t,
    add_sector_header-if m h bad short t
        ∙ ap (λ c. if c then some (header_written m h bad short t) else none) fits,
    header_written-Emits h bad short t g,
  )
