-- ===== src/Fit/Room.antt =====
-- The third gap that src/IBMPC.cpp finds for a format leaves it on the track.
use samdisk_plus.Prelude.{
  ℕ, ◌+◌, ◌-◌, ◌*◌, ◌/◌, ◌==◌, ltb, min, ◌≤◌, ◌<◌, ◌≡◌, refl, ap, sym, ◌∙◌, true, ◌&&◌, List, [],
  ◌∷◌, if◌then◌else◌, get_or, arith, if_both,
}
use native.Mathlib.Nat.{mul-le-mul_right, div-mul-le_self}
use mathlib.Core.Path.{subst}
use samdisk_plus.Header.{DataRate, Encoding, is_fm, bits_per_second}
use samdisk_plus.Ibm.{
  get_track_overhead, get_sector_overhead, get_track_capacity, get_raw_track_capacity,
}
use samdisk_plus.Sector.{
  size_code_to_length, size_code_to_real_size_code, same_datarate, same_encoding, encoding_number,
}
use samdisk_plus.Fit.{
  FormatGap, standard_gaps, known_gap, calculated_gap, get_format_gap, get_format_length, max_gap3,
}

encoding_of : ℕ → Encoding
encoding_of n =
    get_or
      (Encoding.unknown ∷ Encoding.mfm ∷ Encoding.fm ∷ Encoding.rx02 ∷ Encoding.amiga ∷ Encoding.gcr
        ∷ Encoding.ace ∷ Encoding.mx ∷ Encoding.agat ∷ Encoding.apple ∷ Encoding.victor
        ∷ Encoding.vista ∷ [])
      n Encoding.unknown

encoding_of-number : (e : Encoding) → encoding_of (encoding_number e) ≡ e
unfolding encoding_of encoding_number
encoding_of-number Encoding.unknown = refl
encoding_of-number Encoding.mfm = refl
encoding_of-number Encoding.fm = refl
encoding_of-number Encoding.rx02 = refl
encoding_of-number Encoding.amiga = refl
encoding_of-number Encoding.gcr = refl
encoding_of-number Encoding.ace = refl
encoding_of-number Encoding.mx = refl
encoding_of-number Encoding.agat = refl
encoding_of-number Encoding.apple = refl
encoding_of-number Encoding.victor = refl
encoding_of-number Encoding.vista = refl

encoding_number-injective : (a b : Encoding) → encoding_number a ≡ encoding_number b → a ≡ b
encoding_number-injective a b e =
    sym (encoding_of-number a) ∙ ap encoding_of e ∙ encoding_of-number b

-- Formats that fit with their gap.
Fits : ℕ → DataRate → Encoding → ℕ → ℕ → ℕ → Type 0
Fits revolution_time datarate encoding sectors size gap3 =
    get_format_length encoding sectors size gap3
    ≤ get_track_capacity revolution_time datarate encoding

abbrev AllFit : List FormatGap → Type 0
AllFit [] = Unit
AllFit (fg ∷ fgs) =
    Fits fg.drivespeed fg.datarate fg.encoding fg.sectors fg.size fg.gap3 × AllFit fgs

standard_gaps-AllFit : AllFit standard_gaps
unfolding Fits get_format_length get_track_capacity get_raw_track_capacity bits_per_second
    size_code_to_length size_code_to_real_size_code get_sector_overhead
standard_gaps-AllFit = (omega arith, (omega arith, (omega arith, tt)))

-- A format that matches one of the list.
record Same (fg : FormatGap) (revolution_time : ℕ) (datarate : DataRate) (encoding : Encoding)
    (sectors size : ℕ) : Type 0 where
  pub same_speed : fg.drivespeed ≡ revolution_time
  pub same_rate : bits_per_second fg.datarate ≡ bits_per_second datarate
  pub same_code : encoding_number fg.encoding ≡ encoding_number encoding
  pub same_sectors : fg.sectors ≡ sectors
  pub same_size : fg.size ≡ size

Same-Fits :
    (fg : FormatGap) (revolution_time : ℕ) (datarate : DataRate) (encoding : Encoding)
    (sectors size : ℕ)
    → Same fg revolution_time datarate encoding sectors size
    → Fits fg.drivespeed fg.datarate fg.encoding fg.sectors fg.size fg.gap3
    → Fits revolution_time datarate encoding sectors size fg.gap3
unfolding Fits get_track_capacity get_raw_track_capacity
Same-Fits fg revolution_time datarate encoding sectors size s h =
    let C : ℕ → ℕ → Encoding → ℕ = λ t bits e.
      (if is_fm e then bits / 1000 * t / 1000 / 8 / 2 else bits / 1000 * t / 1000 / 8)
      * 1995
      / 2000 in
    let same_encoding = encoding_number-injective fg.encoding encoding s.same_code in
    let a =
      subst
        (λ e.
          get_format_length e fg.sectors fg.size fg.gap3
          ≤ C fg.drivespeed (bits_per_second fg.datarate) e)
        same_encoding h in
    let b =
      subst
        (λ n.
          get_format_length encoding n fg.size fg.gap3
          ≤ C fg.drivespeed (bits_per_second fg.datarate) encoding)
        s.same_sectors a in
    let c =
      subst
        (λ n.
          get_format_length encoding sectors n fg.gap3
          ≤ C fg.drivespeed (bits_per_second fg.datarate) encoding)
        s.same_size b in
    let d =
      subst
        (λ n.
          get_format_length encoding sectors size fg.gap3
          ≤ C n (bits_per_second fg.datarate) encoding)
        s.same_speed c in
    subst (λ n. get_format_length encoding sectors size fg.gap3 ≤ C revolution_time n encoding)
      s.same_rate d

known_gap-Fits :
    (fgs : List FormatGap) (revolution_time : ℕ) (datarate : DataRate) (encoding : Encoding)
    (sectors size gap3 : ℕ)
    → AllFit fgs
    → (0 < gap3 → Fits revolution_time datarate encoding sectors size gap3)
    → 0 < known_gap fgs revolution_time datarate encoding sectors size gap3
    → Fits revolution_time datarate encoding sectors size
        (known_gap fgs revolution_time datarate encoding sectors size gap3)
unfolding known_gap
known_gap-Fits [] revolution_time datarate encoding sectors size gap3 all h = h
known_gap-Fits (fg ∷ fgs) revolution_time datarate encoding sectors size gap3 all h =
    if_both (λ g. 0 < g → Fits revolution_time datarate encoding sectors size g)
      ((fg.drivespeed == revolution_time)
        && (same_datarate fg.datarate datarate
            && (same_encoding fg.encoding encoding
                && ((fg.sectors == sectors) && (fg.size == size)))))
      fg.gap3 _
      (λ e _.
        Same-Fits fg revolution_time datarate encoding sectors size
          (record {
            same_speed = ground arith;
            same_rate = ground arith;
            same_code = ground arith;
            same_sectors = ground arith;
            same_size = ground arith;
          })
          all.0)
      (λ _. known_gap-Fits fgs revolution_time datarate encoding sectors size gap3 all.1 h)

calculated_gap-Fits :
    (revolution_time : ℕ) (datarate : DataRate) (encoding : Encoding) (sectors size : ℕ)
    → 0 < calculated_gap revolution_time datarate encoding sectors size
    → Fits revolution_time datarate encoding sectors size
        (calculated_gap revolution_time datarate encoding sectors size)
unfolding Fits calculated_gap get_format_length
calculated_gap-Fits revolution_time datarate encoding sectors size p =
    let space : ℕ =
      get_track_capacity revolution_time datarate encoding - get_track_overhead encoding in
    let unit : ℕ = size_code_to_length size + get_sector_overhead encoding in
    let gap : ℕ = min (space / sectors - unit) max_gap3 in
    let below : unit + gap ≤ space / sectors = omega arith in
    let many : (unit + gap) * sectors ≤ space / sectors * sectors =
      mul-le-mul_right sectors below in
    let all : space / sectors * sectors ≤ space = div-mul-le_self space sectors in omega arith

pub ltb_le : (a b : ℕ) → ltb a b ≡ true → a ≤ b
ltb_le a b h = ground arith

-- A gap that GetFormatGap gives leaves the format on the track.
pub get_format_gap-fits :
    (revolution_time : ℕ) (datarate : DataRate) (encoding : Encoding) (sectors size : ℕ)
    → 0 < get_format_gap revolution_time datarate encoding sectors size
    → get_format_length encoding sectors size
        (get_format_gap revolution_time datarate encoding sectors size)
      ≤ get_track_capacity revolution_time datarate encoding
unfolding get_format_gap Fits
get_format_gap-fits revolution_time datarate encoding sectors size =
    if_both (λ g. 0 < g → Fits revolution_time datarate encoding sectors size g) (sectors == 0) 0 _
      (λ _ p. absurd (omega arith))
      (λ _.
        known_gap-Fits standard_gaps revolution_time datarate encoding sectors size _
          standard_gaps-AllFit (calculated_gap-Fits revolution_time datarate encoding sectors size))
