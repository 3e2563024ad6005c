-- ===== src/SampleIterator/Moves.antt =====
-- Moving by a number of samples, and sample by sample.
use scroom.Common.{ℕ, zero, suc, ◌+◌, ◌-◌, ◌*◌, ◌/◌, ◌%◌, ◌<◌, ◌≡◌, ◌∙◌, ap, arith, ◌⊎◌, inl, inr}
use scroom.SampleIterator.{SampleIterator, next_sample, move_by}

-- The iterator stands at one of the samples of its byte.
abbrev pub IsValid : SampleIterator → Type 0
IsValid it = it.current_offset < it.samples_per_base

-- The number of the sample, from sample 0 of byte 0.
abbrev pub index : SampleIterator → ℕ
index it = it.current_base * it.samples_per_base + (it.samples_per_base - 1 - it.current_offset)

abbrev pub steps : ℕ → SampleIterator → SampleIterator
steps zero it = it
steps (suc x) it = next_sample (steps x it)

div-within : (n s : ℕ) → suc (n % s) < s → (suc n / s ≡ n / s) × (suc n % s ≡ suc (n % s))
div-within n s h = (grind arith, grind arith)

div-across : (n s : ℕ) → 0 < s → suc (n % s) ≡ s → (suc n / s ≡ suc (n / s)) × (suc n % s ≡ 0)
div-across n s p h = (grind arith, grind arith)

div-small : (n s : ℕ) → n < s → (n / s ≡ 0) × (n % s ≡ n)
div-small n s h = (grind arith, grind arith)

mod-lt : (n s : ℕ) → 0 < s → n % s < s
mod-lt n s p = grind arith

within_or_across : (n s : ℕ) → 0 < s → (suc (n % s) < s) ⊎ (suc (n % s) ≡ s)
within_or_across n s p = ground (arith, mod-lt n s p)

move_by-zero : (it : SampleIterator) → IsValid it → move_by 0 it ≡ it
unfolding move_by
move_by-zero it v =
    let n = it.samples_per_base - 1 - it.current_offset + 0 in
    ground (arith, div-small n it.samples_per_base)

move_by-suc :
    (x : ℕ) (it : SampleIterator) → IsValid it → move_by (suc x) it ≡ next_sample (move_by x it)
unfolding move_by next_sample
move_by-suc x it v =
    let s = it.samples_per_base in
    let n = s - 1 - it.current_offset + x in
    elim (within_or_across n s (omega arith)) [
      | inl h ↦ let d = div-within n s h in ground (arith, d, h)
      | inr h ↦ let d = div-across n s (omega arith) h in ground (arith, d, h)
    ]

move_by-steps : (x : ℕ) (it : SampleIterator) → IsValid it → move_by x it ≡ steps x it
move_by-steps zero it v = move_by-zero it v
move_by-steps (suc x) it v = move_by-suc x it v ∙ ap next_sample (move_by-steps x it v)

next_sample-IsValid : (it : SampleIterator) → IsValid it → IsValid (next_sample it)
unfolding next_sample
next_sample-IsValid it v = ground arith

next_base : (b s : ℕ) → suc b * s ≡ b * s + s
next_base b s = grind arith

next_sample-index : (it : SampleIterator) → IsValid it → index (next_sample it) ≡ suc (index it)
unfolding next_sample
next_sample-index it v = ground (arith, next_base it.current_base it.samples_per_base)

steps-lem :
    (x : ℕ) (it : SampleIterator)
    → IsValid it
    → IsValid (steps x it) × (index (steps x it) ≡ index it + x)
steps-lem zero it v = (v, omega arith)
steps-lem (suc x) it v =
    let (w, e) = steps-lem x it v in
    (next_sample-IsValid (steps x it) w, omega (arith, next_sample-index (steps x it) w, e))

-- Moving by x samples at once is the same as moving x times to the next one: it goes on by x
-- samples, over the ends of bytes, and stands again at a sample of its byte.
pub move_by-lem :
    (x : ℕ) (it : SampleIterator)
    → IsValid it
    → (move_by x it ≡ steps x it) × (index (move_by x it) ≡ index it + x) × IsValid (move_by x it)
move_by-lem x it v =
    let e = move_by-steps x it v in let (w, i) = steps-lem x it v in (e, ap index e ∙ i, rw e w)
