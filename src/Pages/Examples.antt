-- ===== src/Pages/Examples.antt =====
-- A provider with blocks of two pages of 16 bytes.
use scroom.Common.{ℕ, ◌+◌, ◌≤◌, ◌≡◌, refl, [], ◌∷◌}
use scroom.Pages.{
  Block, Page, Provider, get_pages, create, new_block, get_free_page, count, Reach, created, next,
  gets,
}
use scroom.Pages.Lending.{lent_once}

abbrev page : ℕ → Page
page i = record { block = 0; id = i }

abbrev small : Block
small = record { name = 0; count = 3; size = 16 }

get_pages_test : get_pages small ≡ page 0 ∷ page 1 ∷ page 2 ∷ []
unfolding get_pages
get_pages_test = refl

abbrev one_lent : Provider
one_lent = record {
  block_count = 2;
  block_size = 16;
  all_pages = page 0 ∷ page 1 ∷ [];
  free_pages = page 1 ∷ [];
  next_block = 1;
  lent = page 0 ∷ [];
}

one_lent-Reach : Reach 2 16 one_lent
unfolding create get_free_page get_pages new_block
one_lent-Reach = next (created refl) (gets (page 0) refl)

lent_once_example :
    (count (page 1) (page 1 ∷ []) + count (page 1) (page 0 ∷ [])
      ≡ count (page 1) (page 0 ∷ page 1 ∷ []))
    × (count (page 1) (page 0 ∷ []) ≤ 1)
lent_once_example = lent_once (page 1) one_lent-Reach
