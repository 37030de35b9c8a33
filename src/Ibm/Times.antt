-- ===== src/Ibm/Times.antt =====
-- The times of raw bits in include/IBMPCBase.h, whose rounded floating-point quotients are rounded
-- quotients of numbers here: n / d rounded is (2 * n + d) / (2 * d).
use samdisk_plus.Prelude.{ℕ, ◌+◌, ◌*◌, ◌/◌, ◌<◌, ◌≤◌, ◌≡◌, arith}
use samdisk_plus.Header.{DataRate, bits_per_second}

-- A raw bit takes 1000000 / rate / 2 microseconds.
unfoldable pub get_fm_or_mfm_bits_time_as_rounded : DataRate → ℕ → ℕ
unfolding bits_per_second
get_fm_or_mfm_bits_time_as_rounded datarate len =
    (1000000 * len + bits_per_second datarate) / (2 * bits_per_second datarate)

unfoldable pub get_fm_or_mfm_time_bits_as_rounded : DataRate → ℕ → ℕ
unfolding bits_per_second
get_fm_or_mfm_time_bits_as_rounded datarate time =
    (4 * time * bits_per_second datarate + 1000000) / 2000000

-- At a known rate of at most 500 kbit/s a number of raw bits is got back from its rounded time in
-- microseconds.
pub time_bits-bits_time :
    (datarate : DataRate) (len : ℕ)
    → 0 < bits_per_second datarate
    → bits_per_second datarate ≤ 500000
    → get_fm_or_mfm_time_bits_as_rounded datarate (get_fm_or_mfm_bits_time_as_rounded datarate len)
      ≡ len
unfolding get_fm_or_mfm_time_bits_as_rounded get_fm_or_mfm_bits_time_as_rounded bits_per_second
time_bits-bits_time DataRate.unknown len p q = absurd (omega arith)
time_bits-bits_time DataRate.rate_250k len p q = omega arith
time_bits-bits_time DataRate.rate_300k len p q = omega arith
time_bits-bits_time DataRate.rate_500k len p q = omega arith
time_bits-bits_time DataRate.rate_1m len p q = absurd (omega arith)
