-- ===== src/LayerOperations/Indexed/Frequent.antt =====
-- The values that Operations::reduce and OperationsColormapped::reduce write.
use scroom.Common.{
  ℕ, ◌+◌, ◌*◌, ◌/◌, ◌%◌, ◌^◌, ◌-◌, ◌≤◌, ◌<◌, ◌≡◌, ◌≢◌, ◌⊎◌, inl, inr, refl, arith, ◌==◌, Bool, true,
  sym, ◌&&◌,
}
use Prim.Native.Nat.{bit_or}
use scroom.SampleIterator.Bits.{all_below, all_below→each}
use scroom.LayerOperations.{TileData}
use scroom.LayerOperations.Indexed.{
  Counts, pixel_mask, pick_two, both_indices, value_indexed, value_colormapped,
}
use scroom.LayerOperations.Indexed.TopTwo.{pick_two-lem}
use scroom.LayerOperations.Indexed.Histogram.{
  frequency, counts-frequency, frequency_16, counts-frequency_16,
}

-- The sizes of an index that occur: its two copies fit in a byte.
abbrev pub IsIndexSize : ℕ → Type 0
IsIndexSize bpp = (bpp ≡ 1) ⊎ (bpp ≡ 2) ⊎ (bpp ≡ 4)

all_decoded : ℕ → Bool
all_decoded bpp = all_below (2 ^ bpp) (λ a.
    all_below (2 ^ bpp)
      (λ b. (bit_or (a * 2 ^ bpp) b / 2 ^ bpp == a) && (bit_or (a * 2 ^ bpp) b % 2 ^ bpp == b)))

all_decoded-sizes : (bpp : ℕ) → IsIndexSize bpp → all_decoded bpp ≡ true
unfolding all_decoded all_below
all_decoded-sizes bpp (inl e) = rw e refl
all_decoded-sizes bpp (inr (inl e)) = rw e refl
all_decoded-sizes bpp (inr (inr e)) = rw e refl

decoded :
    (bpp a b : ℕ)
    → IsIndexSize bpp
    → a < 2 ^ bpp
    → b < 2 ^ bpp
    → (bit_or (a * 2 ^ bpp) b / 2 ^ bpp ≡ a) × (bit_or (a * 2 ^ bpp) b % 2 ^ bpp ≡ b)
unfolding all_decoded
decoded bpp a b s ha hb =
    let both =
      all_below→each (2 ^ bpp) _ (all_below→each (2 ^ bpp) _ (all_decoded-sizes bpp s) a ha) b hb in
    ground (arith, both)

two_indices : (bpp : ℕ) → IsIndexSize bpp → (2 ≤ 2 ^ bpp - 1 + 1) × (2 ^ bpp - 1 + 1 ≡ 2 ^ bpp)
two_indices bpp (inl e) = rw e (omega arith, refl)
two_indices bpp (inr (inl e)) = rw e (omega arith, refl)
two_indices bpp (inr (inr e)) = rw e (omega arith, refl)

module _ (bpp c : ℕ) (size : IsIndexSize bpp) (l : c < 2 ^ bpp) where
  pick_two-both :
      (counts often : Counts)
      → ((d : ℕ) → counts d ≡ often d)
      → let value = both_indices bpp (pick_two counts (pixel_mask bpp + 1)) in
        let first = value / 2 ^ bpp in
        let second = value % 2 ^ bpp in
        (often c ≤ often first)
        × ((c ≡ first) ⊎ (often c ≤ often second))
        × ((first ≢ second) ⊎ (c ≡ first) ⊎ (often c ≡ 0))
  unfolding both_indices pixel_mask
  pick_two-both counts often counted =
      let (two, same) = two_indices bpp size in
      let (in_first, in_second, most, next, apart) =
        pick_two-lem counts (2 ^ bpp - 1 + 1) c two (omega (arith, same)) in
      let pick = pick_two counts (2 ^ bpp - 1 + 1) in
      let (upper, lower) =
        decoded bpp pick.first pick.second size (omega (arith, in_first, same))
          (omega (arith, in_second, same)) in
      rw (upper, lower, sym (counted c), sym (counted pick.first), sym (counted pick.second))
        (most, next, apart)

-- For indices of 1, 2 or 4 bits, the value that Operations::reduce writes for a square of eight by
-- eight pixels holds two indices. No index is more frequent in the square than the upper one, and
-- none but that one is more frequent than the lower; they are equal only when every other index
-- does not occur.
pub value_indexed-frequent :
    (bpp : ℕ) (source : TileData) (source_ptr c : ℕ)
    → IsIndexSize bpp
    → c < 2 ^ bpp
    → let first = value_indexed bpp source source_ptr / 2 ^ bpp in
      let second = value_indexed bpp source source_ptr % 2 ^ bpp in
      let often = frequency bpp source source_ptr in
      (often c ≤ often first)
      × ((c ≡ first) ⊎ (often c ≤ often second))
      × ((first ≢ second) ⊎ (c ≡ first) ⊎ (often c ≡ 0))
unfolding value_indexed
value_indexed-frequent bpp source source_ptr c size l =
    pick_two-both bpp c size l _ (frequency bpp source source_ptr)
      (counts-frequency bpp source source_ptr)

-- The same holds of OperationsColormapped::reduce, where each of the 64 samples of the square is
-- two indices, which are counted both: of the two indices that it writes, none is more frequent
-- than the upper one, none but that one more frequent than the lower, and they are equal only when
-- every other index does not occur.
pub value_colormapped-frequent :
    (bpp : ℕ) (source : TileData) (source_ptr c : ℕ)
    → IsIndexSize bpp
    → c < 2 ^ bpp
    → let first = value_colormapped bpp source source_ptr / 2 ^ bpp in
      let second = value_colormapped bpp source source_ptr % 2 ^ bpp in
      let often = frequency_16 bpp source source_ptr in
      (often c ≤ often first)
      × ((c ≡ first) ⊎ (often c ≤ often second))
      × ((first ≢ second) ⊎ (c ≡ first) ⊎ (often c ≡ 0))
unfolding value_colormapped
value_colormapped-frequent bpp source source_ptr c size l =
    pick_two-both bpp c size l _ (frequency_16 bpp source source_ptr)
      (counts-frequency_16 bpp source source_ptr)
