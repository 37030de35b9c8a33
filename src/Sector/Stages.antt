-- ===== src/Sector/Stages.antt =====
-- The stages of `Sector::add_original`, each with what it keeps of the invariant.
use samdisk_plus.Prelude.{
  ℕ, suc, ◌+◌, ◌==◌, ltb, leb, min, ◌≤◌, ◌<◌, ◌≡◌, refl, Bool, true, false, not, ◌&&◌, ◌||◌, List,
  [], ◌∷◌, if◌then◌else◌, length, take, arith, Option, none, some,
}
use mathlib.Core.Path.{subst}
use samdisk_plus.Sector.{Options, Sector, first_copy, is_8k_sector, copies}
use samdisk_plus.Sector.Checksum.{has_checksum}
use samdisk_plus.Sector.Edit.{remove_data, erase_data, limit_copies}
use samdisk_plus.Sector.Match.{equal_bytes}
use samdisk_plus.Sector.Merge.{drop_bad, settle_8k, Comparison, keep_one, compare_copies}
use samdisk_plus.Sector.Inv.{IsValid, length-erase, erase-AllSize}

-- Before a copy is added: the sector is valid, has a good id, and holds bad data only if the new
-- data are bad.
pub record Ready (o : Options) (bad_crc : Bool) (s : Sector) : Type 0 where
  pub valid : IsValid o s
  pub good_id : s.bad_id_crc ≡ false
  pub settled : bad_crc || not s.bad_data_crc ≡ true

pub remove_data-Ready :
    (o : Options) (bad_crc : Bool) (s : Sector)
    → s.bad_id_crc ≡ false
    → Ready o bad_crc (remove_data s)
unfolding remove_data
remove_data-Ready o bad_crc s h = record {
  valid = record {
    stats = refl;
    few = omega arith;
    even = (0, tt);
    single = ground arith;
    headless = ground arith;
  };
  good_id = h;
  settled = ground arith;
}

Ready-if :
    (o : Options) (bad_crc c : Bool) (s t : Sector)
    → (c ≡ true → Ready o bad_crc s)
    → (c ≡ false → Ready o bad_crc t)
    → Ready o bad_crc (if c then s else t)
Ready-if o bad_crc true s t p q = p refl
Ready-if o bad_crc false s t p q = q refl

pub drop_bad-Ready :
    (o : Options) (bad_crc : Bool) (s : Sector)
    → IsValid o s
    → s.bad_id_crc ≡ false
    → Ready o bad_crc (drop_bad bad_crc s)
unfolding drop_bad
drop_bad-Ready o bad_crc s v h =
    Ready-if o bad_crc (not bad_crc && s.bad_data_crc) (remove_data s) s
      (λ _. remove_data-Ready o bad_crc s h)
      (λ e. record { valid = v; good_id = h; settled = ground arith })

-- A sector that there may be.
abbrev pub ReadyOption : Options → Bool → Option Sector → Type 0
ReadyOption o bad_crc none = Unit
ReadyOption o bad_crc (some s) = Ready o bad_crc s

ReadyOption-if :
    (o : Options) (bad_crc c : Bool) (s t : Option Sector)
    → ReadyOption o bad_crc s
    → ReadyOption o bad_crc t
    → ReadyOption o bad_crc (if c then s else t)
ReadyOption-if o bad_crc true s t p q = p
ReadyOption-if o bad_crc false s t p q = q

pub settle_8k-Ready :
    (o : Options) (bad_crc : Bool) (bytes : List ℕ) (s : Sector)
    → Ready o bad_crc s
    → ReadyOption o bad_crc (settle_8k bytes s)
unfolding settle_8k
settle_8k-Ready o bad_crc bytes s r =
    ReadyOption-if o bad_crc (is_8k_sector s) _ (some s)
      (ReadyOption-if o bad_crc (has_checksum bytes) (some (remove_data s)) _
        (remove_data-Ready o bad_crc s r.good_id)
        (ReadyOption-if o bad_crc (copies s == 1 && has_checksum (first_copy s.data_copies)) none
          (some s) tt r))
      r

-- The copy that a comparison names is one of those from `i` on.
abbrev pub Names : ℕ → ℕ → Comparison → Type 0
Names i n Comparison.differs = Unit
Names i n (Comparison.same_as j) = (i ≤ j) × (j < n)
Names i n (Comparison.replaces j) = (i ≤ j) × (j < n)

Names-if :
    (c : Bool) (i n : ℕ) (x y : Comparison)
    → Names i n x
    → Names i n y
    → Names i n (if c then x else y)
Names-if true i n x y p q = p
Names-if false i n x y p q = q

Names-later : (i n : ℕ) (x : Comparison) → Names (suc i) n x → Names i n x
Names-later i n Comparison.differs h = tt
Names-later i n (Comparison.same_as j) h = (omega arith, h.1)
Names-later i n (Comparison.replaces j) h = (omega arith, h.1)

pub compare_copies-Names :
    (complete_size : ℕ) (bytes : List ℕ) (i : ℕ) (ds : List (List ℕ))
    → Names i (i + length ds) (compare_copies complete_size bytes i ds)
unfolding compare_copies keep_one
compare_copies-Names complete_size bytes i [] = tt
compare_copies-Names complete_size bytes i (d ∷ ds) =
    let here : (i ≤ i) × (i < i + suc (length ds)) = (omega arith, omega arith) in
    let rest = compare_copies-Names complete_size bytes (suc i) ds in
    Names-if
      (equal_bytes (take (min (min (length d) (length bytes)) complete_size) d)
        (take (min (min (length d) (length bytes)) complete_size) bytes))
      i (i + suc (length ds)) _ _
      (Names-if (length d == length bytes) i (i + suc (length ds)) _ _ here (
        Names-if (ltb (length bytes) (length d)) i (i + suc (length ds)) _ _
          (Names-if (ltb (length bytes) complete_size) i (i + suc (length ds)) _ _ here here)
          (Names-if (leb complete_size (length d)) i (i + suc (length ds)) _ _ here here)))
      (Names-later i (i + suc (length ds)) _ (
        subst (λ n. Names (suc i) n (compare_copies complete_size bytes (suc i) ds)) (omega arith)
          rest))

pub limit_copies_few : (m : ℕ) (s : Sector) → copies s ≤ m → limit_copies m s ≡ s
unfolding limit_copies
limit_copies_few m s h = ground arith

-- A copy goes with its read stats.
pub erase_data-Ready :
    (o : Options) (bad_crc : Bool) (i : ℕ) (s : Sector)
    → Ready o bad_crc s
    → i < length s.data_copies
    → Ready o bad_crc (erase_data i s)
unfolding erase_data
erase_data-Ready o bad_crc i s r h =
    let stats = r.valid.stats in
    let few = r.valid.few in
    let single = r.valid.single in
    let id = r.good_id in
    let one = length-erase i s.data_copies h in
    let other = length-erase i s.data_read_stats (omega arith) in
    record {
      valid = record {
        stats = omega arith;
        few = omega arith;
        even = (r.valid.even.0, erase-AllSize r.valid.even.0 i s.data_copies r.valid.even.1);
        single = ground arith;
        headless = ground arith;
      };
      good_id = r.good_id;
      settled = r.settled;
    }
