-- ===== src/Flux/Builder.antt =====
-- include/FluxTrackBuilder.h and src/FluxTrackBuilder.cpp: the track builder that makes flux times.
-- Times are unsigned numbers of 32 bits, which wrap.
pub mod Time
use samdisk_plus.Prelude.{
  ℕ, zero, suc, ◌+◌, ◌-◌, ◌*◌, ◌/◌, ◌^◌, ◌%◌, ltb, ◌==◌, Bool, true, false, if◌then◌else◌, List, [],
  ◌∷◌, ◌++◌, replicate, Option, some,
}
use samdisk_plus.Prelude.Bind.{◌>>=◌}
use samdisk_plus.Prelude.Words.{u32}
use samdisk_plus.Header.{DataRate, Encoding, CylHead, bitcell_ns}
use samdisk_plus.Crc16.{init_crc}
use samdisk_plus.TrackBuilder
use samdisk_plus.TrackBuilder.{Medium}

pub record Flux : Type 0 where
  pub cylhead : CylHead
  pub flux_times : List ℕ
  pub bitcell : ℕ
  pub flux_time : ℕ
  pub last_bit : Bool
  pub curr_bit : Bool

abbrev pub precomp_ns : ℕ
precomp_ns = 240

-- The constructor; `none` is the exception for a data rate without a cell time.
unfoldable pub new_flux : CylHead → DataRate → Encoding → Option (TrackBuilder.Builder Flux)
new_flux cylhead datarate encoding = do
  ns ← bitcell_ns datarate
  some (record {
    encoding = encoding;
    datarate = datarate;
    lastbit = false;
    crc = init_crc;
    medium = record {
      cylhead = cylhead;
      flux_times = [];
      bitcell = u32 ns;
      flux_time = u32 (2 ^ 32 - u32 ns);
      last_bit = false;
      curr_bit = false;
    };
  })

abbrev pub same_bit : Bool → Bool → Bool
same_bit true b = b
same_bit false b = if b then false else true

-- The precompensation, and its opposite, as numbers of 32 bits.
unfoldable pub pre_comp : Bool → Bool → ℕ × ℕ
pre_comp last_bit next_bit =
    if same_bit last_bit next_bit
    then (0, 0)
    else (if last_bit then (precomp_ns, 2 ^ 32 - precomp_ns) else (2 ^ 32 - precomp_ns, precomp_ns))

unfoldable pub add_raw_bit : Bool → Flux → Flux
unfolding pre_comp
add_raw_bit next_bit s =
    let time = u32 (s.flux_time + s.bitcell) in
    let (pre, back) = pre_comp s.last_bit next_bit in
    let (pre', back') : ℕ × ℕ = if ltb s.cylhead.cyl 40 then (0, 0) else (pre, back) in
    let shifted = record s { last_bit = s.curr_bit; curr_bit = next_bit } in
    if s.curr_bit
    then record shifted { flux_times = s.flux_times ++ u32 (time + pre') ∷ []; flux_time = back' }
    else record shifted { flux_time = time }

-- The length is taken to be small enough for `length * 21` to fit an `int`.
unfoldable pub add_weak_block : ℕ → Flux → Flux
unfolding add_raw_bit
add_weak_block length s =
    let flushed = add_raw_bit true (add_raw_bit true s) in
    record flushed {
      flux_times =
          flushed.flux_times ++ replicate (length * 21 / 2) (u32 (flushed.bitcell * 3) / 2);
    }

-- `buffer()`: the times, after any time that is left.
unfoldable pub flush : Flux → Flux
flush s =
    if s.flux_time == 0
    then s
    else record s { flux_times = s.flux_times ++ s.flux_time ∷ []; flux_time = 0 }

-- The overrides; `setEncoding` and `addIAM` are those of the base class.
abbrev pub flux : Medium Flux
flux = record {
  add_raw_bit = add_raw_bit;
  set_encoding = λ e s. s;
  after_iam = λ s. s;
  just_added_important_bits = λ s. s;
  adjust_data_bits_before_offset = λ o g m t. some t;
}
