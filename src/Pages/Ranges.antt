-- ===== src/Pages/Ranges.antt =====
-- Where the pages of a block lie in its bytes.
use scroom.Common.{ℕ, ◌+◌, ◌*◌, ◌≤◌, ◌<◌, ◌≡◌, ◌≢◌, ◌⊎◌, none, some, arith}
use scroom.Pages.{Block, get}

mul_bound : (i n m : ℕ) → i < n → i * m + m ≤ n * m
mul_bound i n m h = grind arith

-- Every page that `get` finds lies within the bytes of its block, and two pages of different
-- numbers share none of them; a number that is no page's is refused.
pub get_ranges :
    (b : Block) (i j x y : ℕ)
    → get b i ≡ some x
    → get b j ≡ some y
    → i ≢ j
    → (x + b.size ≤ b.count * b.size)
      × ((x + b.size ≤ y) ⊎ (y + b.size ≤ x))
      × (get b b.count ≡ none)
unfolding get
get_ranges b i j x y h k ne = (
  ground (arith, mul_bound i b.count b.size),
  ground (arith, mul_bound i j b.size, mul_bound j i b.size),
  ground arith,
)
