-- ===== src/Pages.antt =====
-- libs/memory-manager: the block allocator (src/swapbasedblockallocator.cc), whose blocks are cut
-- into pages, and the page provider (src/memoryblobs.cc), which lends pages and takes them back.
-- A block is a number, new for each; its `data` is an array of count * size bytes, and a raw
-- pointer into it an offset. A freed Page::Ptr runs MarkPageFree.
use scroom.Common.{
  ℕ, zero, suc, ◌+◌, ◌*◌, ◌≡◌, Bool, ◌&&◌, ltb, leb, ◌==◌, if◌then◌else◌, Option, none, some, List,
  [], ◌∷◌, ◌++◌,
}
pub mod Ranges
pub mod Lending
mod Examples

pub record Block : Type 0 where
  pub name : ℕ
  pub count : ℕ
  pub size : ℕ

pub record Page : Type 0 where
  pub block : ℕ
  pub id : ℕ

-- SwapBasedBlockAllocator::get. `none` is the exception std::out_of_range.
pub get : Block → ℕ → Option ℕ
get b id = if leb b.count id then none else some (id * b.size)

-- The loop of `getPages` from page i, with `left` rounds to go.
pub pages_from : ℕ → ℕ → ℕ → List Page
pages_from name i zero = []
pages_from name i (suc left) = record { block = name; id = i } ∷ pages_from name (suc i) left

pub get_pages : Block → List Page
unfolding pages_from
get_pages b = pages_from b.name 0 b.count

-- A page provider, and the pages that are lent at the moment.
pub record Provider : Type 0 where
  pub block_count : ℕ
  pub block_size : ℕ
  pub all_pages : List Page
  pub free_pages : List Page
  pub next_block : ℕ
  pub lent : List Page

pub create : ℕ → ℕ → Provider
create block_count block_size = record {
  block_count = block_count;
  block_size = block_size;
  all_pages = [];
  free_pages = [];
  next_block = 0;
  lent = [];
}

-- SwapBasedBlockAllocatorFactory::create
pub new_block : Provider → Block
new_block s = record { name = s.next_block; count = s.block_count; size = s.block_size }

-- The first part of `getFreePage`.
pub refill : Provider → Provider
refill s = elim s.free_pages [
  | [] ↦
      let pages = get_pages (new_block s) in
      record s {
        free_pages = pages;
        all_pages = s.all_pages ++ pages;
        next_block = suc s.next_block;
      }
  | p ∷ rest ↦ s
]

-- The front of an empty list is undefined: `none`.
pub take_front : Provider → Option (Provider × Page)
take_front s = elim s.free_pages [
  | [] ↦ none
  | p ∷ rest ↦ some (record s { free_pages = rest; lent = p ∷ s.lent }, p)
]

pub get_free_page : Provider → Option (Provider × Page)
unfolding refill take_front
get_free_page s = take_front (refill s)

pub get_page_size : Provider → ℕ
get_page_size s = s.block_size

pub same_page : Page → Page → Bool
same_page p q = (p.block == q.block) && (p.id == q.id)

-- One lent page goes out of the list.
pub remove : Page → List Page → List Page
remove p [] = []
remove p (q ∷ qs) = if same_page p q then qs else q ∷ remove p qs

pub mark_page_free : Page → Provider → Provider
mark_page_free p s = record s { free_pages = p ∷ s.free_pages; lent = remove p s.lent }

pub count : Page → List Page → ℕ
count p [] = 0
count p (q ∷ qs) = (if same_page p q then 1 else 0) + count p qs

-- A holder lets a page go that he was lent.
pub data Step : Provider → Provider → Type 0 where
  gets : {s t : Provider} (p : Page) → get_free_page s ≡ some (t, p) → Step s t
  frees : {s t : Provider} (p : Page) → count p s.lent ≡ 1 → mark_page_free p s ≡ t → Step s t

pub data Reach (block_count block_size : ℕ) : Provider → Type 0 where
  created : {s : Provider} → create block_count block_size ≡ s → Reach block_count block_size s
  next :
      {s t : Provider} → Reach block_count block_size s → Step s t → Reach block_count block_size t
