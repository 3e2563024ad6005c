-- ===== src/LayerOperations/Samples.antt =====
-- The expressions that the averaging classes write for the samples of eight pixels of a line read
-- the same samples as an iterator does.
use scroom.Common.{
  ℕ, zero, suc, ◌+◌, ◌*◌, ◌/◌, ◌%◌, ◌<◌, ◌-◌, ◌≡◌, refl, arith, ◌∙◌, sym, Bool, ◌==◌, ==_iff, true,
}
use Prim.Native.Nat.{bit_and}
use scroom.SampleIterator.{create, get, sample_of, mask}
use scroom.SampleIterator.Bits.{all_below, all_below→each}
use scroom.LayerOperations.{Bytes}
use scroom.LayerOperations.Reduce.{count_bits, lookup, sample_cmyk16, sample_cmyk8, sample_cmyk4}
use scroom.LayerOperations.Averages.{sum_below}

-- To prove an equation between expressions of one byte by trying all of them.
pub by_trial :
    (f g : ℕ → ℕ) → all_below 256 (λ b. f b == g b) ≡ true → (b : ℕ) → b < 256 → f b ≡ g b
by_trial f g h b l = (==_iff (f b) (g b)).0 (all_below→each 256 (λ b. f b == g b) h b l)

whole_byte : (b : ℕ) → b < 256 → sample_of 8 0 b ≡ b
unfolding sample_of mask all_below
whole_byte = by_trial (sample_of 8 0) (λ b. b) refl

pub lookup-samples : (b : ℕ) → b < 256 → lookup b ≡ sum_below 8 (λ l. sample_of 1 (7 - l) b)
unfolding sample_of mask all_below lookup count_bits
lookup-samples = by_trial lookup (λ b. sum_below 8 (λ l. sample_of 1 (7 - l) b)) refl

high_half : (b : ℕ) → b < 256 → sample_of 4 1 b ≡ b / 16
unfolding sample_of mask all_below
high_half = by_trial (sample_of 4 1) (λ b. b / 16) refl

low_half : (b : ℕ) → b < 256 → sample_of 4 0 b ≡ bit_and b 15
unfolding sample_of mask all_below
low_half = by_trial (sample_of 4 0) (λ b. bit_and b 15) refl

all_below_both : (n : ℕ) (p : ℕ → ℕ → Bool) → Bool
all_below_both n p = all_below n (λ c. all_below 256 (p c))

by_trial_both :
    (n : ℕ) (f g : ℕ → ℕ → ℕ)
    → all_below_both n (λ c b. f c b == g c b) ≡ true
    → (c b : ℕ) → c < n
    → b < 256
    → f c b ≡ g c b
unfolding all_below_both
by_trial_both n f g h c b l =
    by_trial (f c) (g c) (all_below→each n (λ c. all_below 256 (λ b. f c b == g c b)) h c l) b

quarter : (c b : ℕ) → c < 4 → b < 256 → sample_cmyk8 (λ p. b) c 0 ≡ sample_of 2 (3 - c) b
unfolding sample_of mask all_below all_below_both sample_cmyk8
quarter = by_trial_both 4 (λ c b. sample_cmyk8 (λ p. b) c 0) (λ c b. sample_of 2 (3 - c) b) refl

eighth :
    (c b : ℕ)
    → c < 4
    → b < 256
    → sample_cmyk4 (λ p. b) c 0 ≡ sample_of 1 (8 - 1 - c) b + sample_of 1 (8 - 1 - (c + 4)) b
unfolding sample_of mask all_below all_below_both sample_cmyk4
eighth =
    by_trial_both 4 (λ c b. sample_cmyk4 (λ p. b) c 0)
      (λ c b. sample_of 1 (8 - 1 - c) b + sample_of 1 (8 - 1 - (c + 4)) b) refl

quotient : (q r s : ℕ) → r < s → (s * q + r) / s ≡ q
quotient q r s h = grind arith

remainder : (q r s : ℕ) → r < s → (s * q + r) % s ≡ r
remainder q r s h = grind arith

-- An iterator that starts at the beginning of the data, at sample r of byte q.
pub get-create :
    (bps s off q r : ℕ) (bytes : Bytes)
    → s ≡ 8 / bps
    → r < s
    → off ≡ s * q + r
    → get (create 0 off bps) bytes ≡ sample_of bps (s - 1 - r) (bytes q)
unfolding get create
get-create bps s off q r bytes hs hr ho =
    let e = quotient q r s hr in let d = remainder q r s hr in ground (arith, hs, ho, e, d)

module _ (bytes : Bytes) (all_bytes : (p : ℕ) → bytes p < 256) where
  pub whole_sample : (off : ℕ) → get (create 0 off 8) bytes ≡ bytes off
  whole_sample off =
      get-create 8 1 off off 0 bytes refl (omega arith) (omega arith)
      ∙ whole_byte (bytes off) (all_bytes off)

  sample-high : (off q : ℕ) → off ≡ 2 * q → get (create 0 off 4) bytes ≡ bytes q / 16
  sample-high off q h =
      get-create 4 2 off q 0 bytes refl (omega arith) (omega (arith, h))
      ∙ high_half (bytes q) (all_bytes q)

  sample-low : (off q : ℕ) → off ≡ 2 * q + 1 → get (create 0 off 4) bytes ≡ bit_and (bytes q) 15
  sample-low off q h =
      get-create 4 2 off q 1 bytes refl (omega arith) h ∙ low_half (bytes q) (all_bytes q)

  pub sample_cmyk16-samples :
      (off c q : ℕ) → c < 4 → off ≡ 2 * q + c → sample_cmyk16 bytes c q ≡ get (create 0 off 4) bytes
  unfolding sample_cmyk16
  sample_cmyk16-samples off zero q h e = sym (sample-high off q (omega (arith, e)))
  sample_cmyk16-samples off (suc zero) q h e = sym (sample-low off q (omega (arith, e)))
  sample_cmyk16-samples off (suc (suc zero)) q h e =
      sym (sample-high off (q + 1) (omega (arith, e)))
  sample_cmyk16-samples off (suc (suc (suc zero))) q h e =
      sym (sample-low off (q + 1) (omega (arith, e)))
  sample_cmyk16-samples off (suc (suc (suc (suc c)))) q h e = absurd (omega arith)

  sample_cmyk8-at : (c q : ℕ) → sample_cmyk8 bytes c q ≡ sample_cmyk8 (λ p. bytes q) c 0
  unfolding sample_cmyk8
  sample_cmyk8-at zero q = refl
  sample_cmyk8-at (suc zero) q = refl
  sample_cmyk8-at (suc (suc zero)) q = refl
  sample_cmyk8-at (suc (suc (suc c))) q = refl

  pub sample_cmyk8-samples :
      (off c q : ℕ) → c < 4 → off ≡ 4 * q + c → sample_cmyk8 bytes c q ≡ get (create 0 off 2) bytes
  sample_cmyk8-samples off c q h e =
      sample_cmyk8-at c q
      ∙ quarter c (bytes q) h (all_bytes q)
      ∙ sym (get-create 2 4 off q c bytes refl h e)

  sample_cmyk4-at : (c q : ℕ) → sample_cmyk4 bytes c q ≡ sample_cmyk4 (λ p. bytes q) c 0
  unfolding sample_cmyk4
  sample_cmyk4-at zero q = refl
  sample_cmyk4-at (suc zero) q = refl
  sample_cmyk4-at (suc (suc zero)) q = refl
  sample_cmyk4-at (suc (suc (suc c))) q = refl

  pub sample_cmyk4-samples :
      (off c q : ℕ)
      → c < 4
      → off ≡ 8 * q + c
      → sample_cmyk4 bytes c q ≡ get (create 0 off 1) bytes + get (create 0 (off + 4) 1) bytes
  sample_cmyk4-samples off c q h e =
      let upper = get-create 1 8 off q c bytes refl (omega arith) e in
      let lower = get-create 1 8 (off + 4) q (c + 4) bytes refl (omega arith) (omega (arith, e)) in
      omega (arith, upper, lower, sample_cmyk4-at c q, eighth c (bytes q) h (all_bytes q))
