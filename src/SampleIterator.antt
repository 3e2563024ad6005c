-- ===== src/SampleIterator.antt =====
-- libs/scroom/inc/scroom/bitmap-helpers.hh, the class SampleIterator over bytes: it stands at one
-- of the samples within a byte, which are counted from the last one. A position is not negative.
-- The bytes are a function from positions to numbers below 256, and a shift is a product with a
-- power of two or a quotient by one.
use scroom.Common.{ℕ, suc, ◌+◌, ◌-◌, ◌*◌, ◌/◌, ◌%◌, ◌^◌, Bool, ◌&&◌, ◌==◌, if◌then◌else◌}
use Prim.Native.Nat.{bit_and, bit_or}
pub mod Moves
pub mod Bits
mod Examples

abbrev pub bits_per_base : ℕ
bits_per_base = 8

pub record SampleIterator : Type 0 where
  pub bps : ℕ
  pub samples_per_base : ℕ
  pub current_base : ℕ
  pub current_offset : ℕ

-- SampleIterator(base, offset, bps)
unfoldable pub create : ℕ → ℕ → ℕ → SampleIterator
create base offset bps =
    let samples_per_base = bits_per_base / bps in
    record {
      bps = bps;
      samples_per_base = samples_per_base;
      current_base = base + offset / samples_per_base;
      current_offset = samples_per_base - 1 - offset % samples_per_base;
    }

-- operator++
unfoldable pub next_sample : SampleIterator → SampleIterator
next_sample it =
    if it.current_offset == 0
    then record it { current_offset = it.samples_per_base - 1; current_base = suc it.current_base }
    else record it { current_offset = it.current_offset - 1 }

-- operator+=
unfoldable pub move_by : ℕ → SampleIterator → SampleIterator
move_by x it =
    let offset = it.samples_per_base - 1 - it.current_offset + x in
    record it {
      current_base = it.current_base + offset / it.samples_per_base;
      current_offset = it.samples_per_base - 1 - offset % it.samples_per_base;
    }

-- operator==
pub equals : SampleIterator → SampleIterator → Bool
equals it other =
    (it.current_base == other.current_base)
    && ((it.current_offset == other.current_offset) && (it.bps == other.bps))

-- `(((1 << (bps - 1)) - 1) << 1) | 1`
unfoldable pub mask : ℕ → ℕ
mask bps = bit_or ((2 ^ (bps - 1) - 1) * 2) 1

-- `byte & ~bits`
pub bit_clear : ℕ → ℕ → ℕ
bit_clear byte bits = byte - bit_and byte bits

-- The expressions of get and set, of the byte that the iterator stands at.
unfoldable pub sample_of : ℕ → ℕ → ℕ → ℕ
sample_of bps offset byte = bit_and (byte / 2 ^ (offset * bps)) (mask bps)

pub with_sample : ℕ → ℕ → ℕ → ℕ → ℕ
with_sample bps offset value byte =
    bit_or (bit_clear byte (mask bps * 2 ^ (offset * bps))) (value * 2 ^ (offset * bps)) % 256

unfoldable pub get : SampleIterator → (ℕ → ℕ) → ℕ
get it bytes = sample_of it.bps it.current_offset (bytes it.current_base)

pub set : ℕ → SampleIterator → (ℕ → ℕ) → ℕ → ℕ
set value it bytes base =
    if it.current_base == base
    then with_sample it.bps it.current_offset value (bytes base)
    else bytes base
