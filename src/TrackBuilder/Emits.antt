-- ===== src/TrackBuilder/Emits.antt =====
-- What the operations of src/TrackBuilder.cpp append to the medium, as cells.
pub mod Blocks
use samdisk_plus.Prelude.{
  ℕ, zero, suc, ◌%◌, ◌≡◌, refl, ap, ap₂, sym, ◌∙◌, Bool, true, false, ◌==◌, List, [], ◌∷◌, ◌++◌,
  if◌then◌else◌, replicate, map, arith, append_assoc, append-nil,
}
use samdisk_plus.Prelude.Words.{◌<<<◌, ◌>>>◌}
use samdisk_plus.Crc16
use samdisk_plus.Crc16.{bit_set}
use samdisk_plus.Header.{is_fm}
use samdisk_plus.TrackBuilder.{
  Builder, add_bit, add_data_bit, add_byte_bits, add_byte, add_crc_byte, add_clocked_bits,
  add_byte_with_clock, add_fill, add_block, add_block_update_crc,
}
use samdisk_plus.TrackBuilder.Cells.{
  Cell, byte, mark, high_first, raw_bit, clock_bit, data_bits, mark_bits, encode, last_of,
  encode-append, last_of-append,
}

-- A medium of which the bits written so far can be seen, and that takes each new bit at their end
-- as long as it is good.
pub record Recorder {S : Type 0} (add_raw_bit : Bool → S → S) : Type 1 where
  pub Good : S → Type 0
  pub view : S → List Bool
  pub keeps : (b : Bool) (s : S) → Good s → Good (add_raw_bit b s)
  pub appends : (b : Bool) (s : S) → Good s → view (add_raw_bit b s) ≡ view s ++ b ∷ []

-- The last of some bits.
abbrev last_data : Bool → List Bool → Bool
last_data last [] = last
last_data last (b ∷ bs) = last_data b bs

-- The highest bits of a byte that is shifted left as they are taken.
abbrev shifted_bits : ℕ → ℕ → List Bool
shifted_bits zero x = []
shifted_bits (suc n) x = bit_set 7 x ∷ shifted_bits n (x <<< 1)

abbrev doubled : ℕ → ℕ → ℕ
doubled zero x = x
doubled (suc n) x = doubled n (x <<< 1)

bit_shifted : (j : ℕ) (x y : ℕ) → (y >>> 7) % 2 ≡ (x >>> j) % 2 → bit_set 7 y ≡ bit_set j x
bit_shifted j x y e = ap (λ t. t == 1) e

shifted-eq : (x : ℕ) → shifted_bits 8 x ≡ high_first x
shifted-eq x =
    ap (λ t. bit_set 7 x ∷ t)
      (ap₂ ◌∷◌ (bit_shifted 6 x _ (omega arith)) (
        ap₂ ◌∷◌ (bit_shifted 5 x _ (omega arith)) (
          ap₂ ◌∷◌ (bit_shifted 4 x _ (omega arith)) (
            ap₂ ◌∷◌ (bit_shifted 3 x _ (omega arith)) (
              ap₂ ◌∷◌ (bit_shifted 2 x _ (omega arith)) (
                ap₂ ◌∷◌ (bit_shifted 1 x _ (omega arith))
                  (ap₂ ◌∷◌ (bit_shifted 0 x _ (omega arith)) refl)))))))

last_shifted : (x : ℕ) → bit_set 8 (doubled 8 x) ≡ bit_set 0 x
last_shifted x = let e : (doubled 8 x >>> 8) % 2 ≡ (x >>> 0) % 2 = omega arith in ap (λ t. t == 1) e

module _ {S : Type 0} (raw : Bool → S → S) (r : Recorder raw) where
  open r use {Good, view, keeps, appends}

  -- From `t` to `t'` the raw bits `bits` were appended, and `last` is the last data bit.
  pub record Wrote (t t' : Builder S) (bits : List Bool) (last : Bool) : Type 0 where
    pub good : Good t'.medium
    pub written : view t'.medium ≡ view t.medium ++ bits
    pub last_bit : t'.lastbit ≡ last
    pub same_encoding : t'.encoding ≡ t.encoding
    pub same_datarate : t'.datarate ≡ t.datarate

  -- From `t` to `t'` the cells were appended.
  abbrev pub Emits : Builder S → Builder S → List Cell → Type 0
  Emits t t' cells = Wrote t t' (encode t.encoding t.lastbit cells) (last_of t.lastbit cells)

  Wrote-cast :
      (t t' : Builder S) (xs ys : List Bool) (k l : Bool)
      → xs ≡ ys
      → k ≡ l
      → Wrote t t' xs k
      → Wrote t t' ys l
  Wrote-cast t t' xs ys k l e e' p = record {
    good = p.good;
    written = p.written ∙ ap (λ v. view t.medium ++ v) e;
    last_bit = p.last_bit ∙ e';
    same_encoding = p.same_encoding;
    same_datarate = p.same_datarate;
  }

  Wrote-trans :
      (t t' t'' : Builder S) (xs ys : List Bool) (k l : Bool)
      → Wrote t t' xs k
      → Wrote t' t'' ys l
      → Wrote t t'' (xs ++ ys) l
  Wrote-trans t t' t'' xs ys k l p q = record {
    good = q.good;
    written = q.written ∙ ap (λ v. v ++ ys) p.written ∙ append_assoc (view t.medium) xs ys;
    last_bit = q.last_bit;
    same_encoding = q.same_encoding ∙ p.same_encoding;
    same_datarate = q.same_datarate ∙ p.same_datarate;
  }

  pub Emits-trans :
      (t t' t'' : Builder S) (xs ys : List Cell)
      → Emits t t' xs
      → Emits t' t'' ys
      → Emits t t'' (xs ++ ys)
  Emits-trans t t' t'' xs ys p q =
      rw (encode-append t.encoding t.lastbit xs ys, last_of-append t.lastbit xs ys)
        (rw (p.same_encoding, p.last_bit) at
          (Wrote-trans t t' t'' (encode t.encoding t.lastbit xs) (encode t'.encoding t'.lastbit ys)
            (last_of t.lastbit xs) (last_of t'.lastbit ys) p q))

  pub Emits-refl : (t : Builder S) → Good t.medium → Emits t t []
  unfolding encode last_of
  Emits-refl t g = record {
    good = g;
    written = sym (append-nil (view t.medium));
    last_bit = refl;
    same_encoding = refl;
    same_datarate = refl;
  }

  bit_good : (fm b : Bool) (s : S) → Good s → Good (if fm then raw false (raw b s) else raw b s)
  bit_good true b s g = keeps false (raw b s) (keeps b s g)
  bit_good false b s g = keeps b s g

  bit_written :
      (fm b : Bool) (s : S)
      → Good s
      → view (if fm then raw false (raw b s) else raw b s)
        ≡ view s ++ (if fm then b ∷ false ∷ [] else b ∷ [])
  bit_written true b s g =
      appends false (raw b s) (keeps b s g)
      ∙ ap (λ v. v ++ false ∷ []) (appends b s g)
      ∙ append_assoc (view s) (b ∷ []) (false ∷ [])
  bit_written false b s g = appends b s g

  add_bit-Wrote :
      (b : Bool) (t : Builder S)
      → Good t.medium
      → Wrote t (add_bit raw b t) (raw_bit t.encoding b) t.lastbit
  unfolding add_bit
  add_bit-Wrote b t g = record {
    good = bit_good (is_fm t.encoding) b t.medium g;
    written = bit_written (is_fm t.encoding) b t.medium g;
    last_bit = refl;
    same_encoding = refl;
    same_datarate = refl;
  }

  add_data_bit-Wrote :
      (b : Bool) (t : Builder S)
      → Good t.medium
      → Wrote t
          (add_data_bit raw b t)
          (raw_bit t.encoding (clock_bit t.encoding t.lastbit b) ++ raw_bit t.encoding b)
          b
  unfolding add_data_bit
  add_data_bit-Wrote b t g =
      let clock : Bool = clock_bit t.encoding t.lastbit b in
      let first = add_bit-Wrote clock t g in
      let second = add_bit-Wrote b (add_bit raw clock t) first.good in
      let both =
        Wrote-trans t (add_bit raw clock t) (add_bit raw b (add_bit raw clock t))
          (raw_bit t.encoding clock) (raw_bit t.encoding b) t.lastbit t.lastbit first
          (unfold add_bit in second) in
      record {
        good = both.good;
        written = both.written;
        last_bit = refl;
        same_encoding = refl;
        same_datarate = refl;
      }

  add_byte_bits-Wrote :
      (n x : ℕ) (t : Builder S)
      → Good t.medium
      → Wrote t
          (add_byte_bits raw n x t)
          (data_bits t.encoding t.lastbit (shifted_bits n x))
          (last_data t.lastbit (shifted_bits n x))
  unfolding add_byte_bits
  add_byte_bits-Wrote zero x t g = record {
    good = g;
    written = sym (append-nil (view t.medium));
    last_bit = refl;
    same_encoding = refl;
    same_datarate = refl;
  }
  add_byte_bits-Wrote (suc n) x t g =
      let b = bit_set 7 x in
      let t' = add_data_bit raw b t in
      let p = add_data_bit-Wrote b t g in
      let q = add_byte_bits-Wrote n (x <<< 1) t' p.good in
      let rest = data_bits t.encoding b (shifted_bits n (x <<< 1)) in
      let first = raw_bit t.encoding (clock_bit t.encoding t.lastbit b) in
      rw (← append_assoc first (raw_bit t.encoding b) rest) (
        Wrote-trans t t' (add_byte_bits raw n (x <<< 1) t') (first ++ raw_bit t.encoding b) rest b
          (last_data b (shifted_bits n (x <<< 1))) p q)

  add_clocked_bits-Wrote :
      (n x c : ℕ) (t : Builder S)
      → Good t.medium
      → Wrote t
          (add_clocked_bits raw n x c t)
          (mark_bits t.encoding (shifted_bits n x) (shifted_bits n c))
          (bit_set 8 (doubled n x))
  unfolding add_clocked_bits
  add_clocked_bits-Wrote zero x c t g = record {
    good = g;
    written = sym (append-nil (view t.medium));
    last_bit = refl;
    same_encoding = refl;
    same_datarate = refl;
  }
  add_clocked_bits-Wrote (suc n) x c t g =
      let b = bit_set 7 x in
      let k = bit_set 7 c in
      let t' = add_bit raw k t in
      let t'' = add_bit raw b t' in
      let p = add_bit-Wrote k t g in
      let q = add_bit-Wrote b t' p.good in
      let rest = mark_bits t.encoding (shifted_bits n (x <<< 1)) (shifted_bits n (c <<< 1)) in
      let both =
        Wrote-trans t t' t'' (raw_bit t.encoding k) (raw_bit t.encoding b) t.lastbit t.lastbit p
          q in
      let last = bit_set 8 (doubled n (x <<< 1)) in
      let all =
        Wrote-trans t t'' (add_clocked_bits raw n (x <<< 1) (c <<< 1) t'')
          (raw_bit t.encoding k ++ raw_bit t.encoding b) rest t.lastbit last both
          (add_clocked_bits-Wrote n (x <<< 1) (c <<< 1) t'' q.good) in
      rw (← append_assoc (raw_bit t.encoding k) (raw_bit t.encoding b) rest) all

  add_byte_bits-crc : (n x : ℕ) (t : Builder S) → (add_byte_bits raw n x t).crc ≡ t.crc
  unfolding add_byte_bits
  add_byte_bits-crc zero x t = refl
  add_byte_bits-crc (suc n) x t = add_byte_bits-crc n (x <<< 1) (add_data_bit raw (bit_set 7 x) t)

  pub add_byte-crc : (x : ℕ) (t : Builder S) → (add_byte raw x t).crc ≡ t.crc
  unfolding add_byte
  add_byte-crc x t = add_byte_bits-crc 8 x t

  -- `addByte` appends the cell of its byte.
  pub add_byte-Emits :
      (x : ℕ) (t : Builder S) → Good t.medium → Emits t (add_byte raw x t) (byte x ∷ [])
  unfolding add_byte encode last_of
  add_byte-Emits x t g =
      Wrote-cast t (add_byte raw x t) (data_bits t.encoding t.lastbit (shifted_bits 8 x))
        (encode t.encoding t.lastbit (byte x ∷ [])) (last_data t.lastbit (shifted_bits 8 x))
        (bit_set 0 x)
        (ap (data_bits t.encoding t.lastbit) (shifted-eq x)
          ∙ sym (append-nil (data_bits t.encoding t.lastbit (high_first x))))
        (ap (last_data t.lastbit) (shifted-eq x)) (add_byte_bits-Wrote 8 x t g)

  pub add_byte_with_clock-Emits :
      (x c : ℕ) (t : Builder S)
      → Good t.medium
      → Emits t (add_byte_with_clock raw x c t) (mark x c ∷ [])
  unfolding add_byte_with_clock encode last_of
  add_byte_with_clock-Emits x c t g =
      Wrote-cast t (add_byte_with_clock raw x c t)
        (mark_bits t.encoding (shifted_bits 8 x) (shifted_bits 8 c))
        (encode t.encoding t.lastbit (mark x c ∷ [])) (bit_set 8 (doubled 8 x)) (bit_set 0 x)
        (ap₂ (mark_bits t.encoding) (shifted-eq x) (shifted-eq c)
          ∙ sym (append-nil (mark_bits t.encoding (high_first x) (high_first c))))
        (last_shifted x) (add_clocked_bits-Wrote 8 x c t g)
