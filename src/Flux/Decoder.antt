-- ===== src/Flux/Decoder.antt =====
-- include/FluxDecoder.h and src/FluxDecoder.cpp: bits from flux times, with a phase-locked loop.
-- The integers of the source have 32 bits, and an overflow of them is undefined: here they are not
-- bounded. A time of 2^31 or more is a negative one, as its cast to `int` makes it.
pub mod Lock
use samdisk_plus.Prelude.{
  ℕ, zero, suc, ◌+◌, ◌-◌, ◌*◌, ◌/◌, ◌^◌, ltb, leb, Bool, true, false, not, ◌||◌, if◌then◌else◌,
  List, [], ◌∷◌, length, Option, none, some,
}
use samdisk_plus.Prelude.Bind.{◌>>=◌}
use samdisk_plus.Prelude.Int.{ℤ, pos, negsuc, ◌+ℤ◌, ◌-ℤ◌, ◌*ℤ◌, ltb_ℤ, neg_ℕ, tdiv, min_ℤ, max_ℤ}

-- `rev_it` is the current revolution and those after it, `flux_it` what is left of the current one.
pub record FluxDecoder : Type 0 where
  pub flux_revs : List (List ℕ)
  pub rev_it : List (List ℕ)
  pub flux_it : List ℕ
  pub clock : ℤ
  pub clock_centre : ℤ
  pub clock_min : ℤ
  pub clock_max : ℤ
  pub flux : ℤ
  pub clocked_zeros : ℕ
  pub flux_scale_percent : ℤ
  pub pll_adjust : ℤ
  pub goodbits : ℕ
  pub index : Bool
  pub sync_lost : Bool

abbrev pub first_rev : List (List ℕ) → List ℕ
first_rev [] = []
first_rev (r ∷ rs) = r

-- The constructor, which asserts that there is a revolution.
unfoldable pub new_decoder : List (List ℕ) → ℤ → ℤ → ℤ → FluxDecoder
new_decoder flux_revs bitcell_ns flux_scale_percent pll_adjust = record {
  flux_revs = flux_revs;
  rev_it = flux_revs;
  flux_it = first_rev flux_revs;
  clock = bitcell_ns;
  clock_centre = bitcell_ns;
  clock_min = tdiv (bitcell_ns *ℤ (pos 100 -ℤ pll_adjust)) 100;
  clock_max = tdiv (bitcell_ns *ℤ (pos 100 +ℤ pll_adjust)) 100;
  flux = pos 0;
  clocked_zeros = 0;
  flux_scale_percent = flux_scale_percent;
  pll_adjust = pll_adjust;
  goodbits = 0;
  index = false;
  sync_lost = false;
}

unfoldable pub total_length : List (List ℕ) → ℕ
total_length [] = 0
total_length (r ∷ rs) = length r + total_length rs

unfoldable pub flux_count : FluxDecoder → ℕ
unfolding total_length
flux_count d = total_length d.flux_revs

-- `index()` and `sync_lost()`: the flag is reset as it is read.
unfoldable pub take_index : FluxDecoder → Bool × FluxDecoder
take_index d = (d.index, record d { index = false })

unfoldable pub take_sync_lost : FluxDecoder → Bool × FluxDecoder
take_sync_lost d = (d.sync_lost, record d { sync_lost = false })

-- `static_cast<int>`
abbrev pub int_of_u32 : ℕ → ℤ
int_of_u32 n = if ltb n (2 ^ 31) then pos n else neg_ℕ (2 ^ 32 - n)

-- The last two lines of `next_flux`, or -1 at the end of the revolution.
unfoldable pub take_flux : List ℕ → FluxDecoder → ℤ × FluxDecoder
take_flux [] d = (negsuc 0, d)
take_flux (time_ns ∷ rest) d = (int_of_u32 time_ns, record d { flux_it = rest })

-- The next revolution. A call after the end of the last one reads behind the revolutions in the source;
-- here it reports the end again.
unfoldable pub next_rev : List (List ℕ) → FluxDecoder → ℤ × FluxDecoder
unfolding take_flux
next_rev (r ∷ next ∷ rest) d =
    take_flux next (record d { rev_it = next ∷ rest; index = true; flux_it = next })
next_rev _ d = (negsuc 0, record d { rev_it = [] })

unfoldable pub next_flux_from : List ℕ → FluxDecoder → ℤ × FluxDecoder
unfolding next_rev take_flux
next_flux_from [] d = next_rev d.rev_it d
next_flux_from (time_ns ∷ rest) d = take_flux (time_ns ∷ rest) d

unfoldable pub next_flux : FluxDecoder → ℤ × FluxDecoder
unfolding next_flux_from
next_flux d = next_flux_from d.flux_it d

abbrev pub is_end : ℤ → Bool
is_end (pos n) = false
is_end (negsuc zero) = true
is_end (negsuc (suc n)) = false

-- A flux time, scaled, is added; the scale of 100, which the source leaves out, changes nothing.
unfoldable pub add_flux : ℤ → FluxDecoder → FluxDecoder
add_flux new_flux d = record d {
  flux = d.flux +ℤ tdiv (new_flux *ℤ d.flux_scale_percent) 100;
  clocked_zeros = 0;
}

-- The loop of `next_bit`, for at most `fuel` flux times: whether there was an end to the data.
unfoldable pub await_flux : ℕ → FluxDecoder → Option (Bool × FluxDecoder)
unfolding next_flux add_flux
await_flux zero d = none
await_flux (suc fuel) d =
    let (new_flux, d') = next_flux d in
    let rest = await_flux fuel (add_flux new_flux d') in
    if ltb_ℤ d.flux (tdiv d.clock 2)
    then (if is_end new_flux then some (true, d') else rest)
    else some (false, d)

-- The clock is adjusted by the phase in sync and towards the centre out of sync.
unfoldable pub adjust_clock : FluxDecoder → FluxDecoder
adjust_clock d =
    if leb d.clocked_zeros 3
    then record d { clock = d.clock +ℤ tdiv (d.flux *ℤ d.pll_adjust) 100 }
    else record d {
      clock = d.clock +ℤ tdiv ((d.clock_centre -ℤ d.clock) *ℤ d.pll_adjust) 100;
      sync_lost = leb 256 d.goodbits || d.sync_lost;
      goodbits = 0;
    }

unfoldable pub clamp_clock : FluxDecoder → FluxDecoder
clamp_clock d = record d { clock = min_ℤ (max_ℤ d.clock_min d.clock) d.clock_max }

-- The rest of `next_bit`; the option `pllphase` is an argument.
unfoldable pub clock_bit : ℤ → FluxDecoder → ℤ × FluxDecoder
unfolding adjust_clock clamp_clock
clock_bit pllphase d =
    let d1 = record d { flux = d.flux -ℤ d.clock } in
    let d2 = clamp_clock (adjust_clock d1) in
    if ltb_ℤ d1.flux (tdiv d1.clock 2)
    then (
      pos 1,
      record d2 { flux = tdiv (d2.flux *ℤ (pos 100 -ℤ pllphase)) 100; goodbits = d2.goodbits + 1 },
    )
    else (pos 0, record d1 { clocked_zeros = d1.clocked_zeros + 1; goodbits = d1.goodbits + 1 })

-- -1 at the end of the data.
abbrev pub bit_or_end : ℤ → Bool × FluxDecoder → ℤ × FluxDecoder
bit_or_end pllphase (true, d) = (negsuc 0, d)
bit_or_end pllphase (false, d) = clock_bit pllphase d

unfoldable pub next_bit : ℕ → ℤ → FluxDecoder → Option (ℤ × FluxDecoder)
unfolding await_flux
next_bit fuel pllphase d = await_flux fuel d >>= (λ r. some (bit_or_end pllphase r))
