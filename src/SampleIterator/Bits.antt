-- ===== src/SampleIterator/Bits.antt =====
-- Reading back the samples of a byte after one of them is written: all bytes, samples and values
-- are tried.
use scroom.Common.{
  ℕ, zero, suc, ◌/◌, ◌^◌, ◌<◌, ◌≡◌, refl, ap, arith, ◌⊎◌, inl, inr, Bool, true, ◌&&◌, ◌==◌, ==_iff,
  Bool-cases, if◌then◌else◌,
}
use scroom.SampleIterator.{
  SampleIterator, equals, mask, bit_clear, sample_of, with_sample, get, set, bits_per_base,
}

unfoldable pub all_below : ℕ → (ℕ → Bool) → Bool
all_below zero p = true
all_below (suc n) p = p n && all_below n p

pub all_below→each : (n : ℕ) (p : ℕ → Bool) → all_below n p ≡ true → (k : ℕ) → k < n → p k ≡ true
unfolding all_below
all_below→each zero p h k l = absurd (omega arith)
all_below→each (suc n) p h k l = elim (Bool-cases (k == n)) [
  | inl e ↦ let same = (==_iff k n).0 e in ground (arith, h, ap p same)
  | inr e ↦ all_below→each n p (ground (arith, h)) k (ground (arith, e))
]

-- What is read at sample q after a write at sample o.
abbrev is_reread : ℕ → ℕ → ℕ → ℕ → ℕ → Bool
is_reread bps o q byte value =
    sample_of bps q (with_sample bps o value byte)
    == (if o == q then value else sample_of bps q byte)

all_reread : ℕ → Bool
all_reread bps = all_below (bits_per_base / bps) (λ o.
    all_below (bits_per_base / bps)
      (λ q. all_below 256 (λ byte. all_below (2 ^ bps) (λ value. is_reread bps o q byte value))))

all_reread-each :
    (bps o q byte value : ℕ)
    → all_reread bps ≡ true
    → o < bits_per_base / bps
    → q < bits_per_base / bps
    → byte < 256
    → value < 2 ^ bps
    → is_reread bps o q byte value ≡ true
unfolding all_reread
all_reread-each bps o q byte value h ho hq hb hv =
    all_below→each _ _
      (all_below→each _ _ (all_below→each _ _ (all_below→each _ _ h o ho) q hq) byte hb) value hv

-- The divisors of 8.
abbrev pub IsSampleSize : ℕ → Type 0
IsSampleSize bps = (bps ≡ 1) ⊎ (bps ≡ 2) ⊎ (bps ≡ 4) ⊎ (bps ≡ 8)

all_reread-sizes : (bps : ℕ) → IsSampleSize bps → all_reread bps ≡ true
unfolding all_reread all_below sample_of with_sample mask bit_clear
all_reread-sizes bps (inl e) = rw e refl
all_reread-sizes bps (inr (inl e)) = rw e refl
all_reread-sizes bps (inr (inr (inl e))) = rw e refl
all_reread-sizes bps (inr (inr (inr e))) = rw e refl

reread :
    (bps o q byte value : ℕ)
    → IsSampleSize bps
    → o < bits_per_base / bps
    → q < bits_per_base / bps
    → byte < 256
    → value < 2 ^ bps
    → sample_of bps q (with_sample bps o value byte)
      ≡ (if o == q then value else sample_of bps q byte)
reread bps o q byte value size ho hq hb hv =
    (==_iff _ _).0 (all_reread-each bps o q byte value (all_reread-sizes bps size) ho hq hb hv)

-- With samples of 1, 2, 4 or 8 bits and a value that fits: after a write, an iterator of the same
-- sample size reads the value if it is equal to the one that wrote, and what it read before if not.
pub get-set :
    (it other : SampleIterator) (bytes : ℕ → ℕ) (value : ℕ)
    → IsSampleSize it.bps
    → it.bps ≡ other.bps
    → it.current_offset < bits_per_base / it.bps
    → other.current_offset < bits_per_base / it.bps
    → bytes it.current_base < 256
    → value < 2 ^ it.bps
    → get other (set value it bytes) ≡ (if equals other it then value else get other bytes)
unfolding get set equals
get-set it other bytes value size same ho hq hb hv = ground (
  arith,
  same,
  reread it.bps it.current_offset other.current_offset (bytes it.current_base) value size ho hq hb
      hv,
)
