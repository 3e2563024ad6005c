-- ===== src/Pages/Lending.antt =====
-- Every page is lent to one holder at most, and none is lost.
use scroom.Common.{
  ℕ, zero, suc, ◌+◌, ◌-◌, ◌≤◌, ◌<◌, ◌≡◌, ap, subst, ◌&&◌, ltb, leb, ◌==◌, if◌then◌else◌, some,
  List-cases, inl, inr, List, [], ◌∷◌, ◌++◌, arith,
}
use scroom.Pages.{
  Page, pages_from, get_pages, Provider, create, new_block, refill, take_front, get_free_page,
  same_page, remove, mark_page_free, count, Step, gets, frees, Reach, created, next,
}

-- One for the pages of the blocks below `end`, of n pages each.
pub owned : ℕ → ℕ → Page → ℕ
owned end n p = if ltb p.block end && ltb p.id n then 1 else 0

count-append : (p : Page) (xs ys : List Page) → count p (xs ++ ys) ≡ count p xs + count p ys
unfolding count
count-append p [] ys = omega arith
count-append p (x ∷ xs) ys = omega (arith, count-append p xs ys)

count-pages_from :
    (p : Page) (name i left : ℕ)
    → count p (pages_from name i left)
      ≡ (if (p.block == name) && (leb i p.id && ltb p.id (i + left)) then 1 else 0)
unfolding count pages_from same_page
count-pages_from p name i zero = ground arith
count-pages_from p name i (suc left) = ground (arith, count-pages_from p name (suc i) left)

count-remove :
    (p q : Page) (xs : List Page)
    → count q xs ≡ 1
    → count p (remove q xs) + (if same_page p q then 1 else 0) ≡ count p xs
unfolding count remove same_page
count-remove p q [] h = cc
count-remove p q (x ∷ xs) h = ground (arith, count-remove p q xs)

-- Every page of the blocks made so far is free once or lent once, and never both.
pub record IsAccounted (s : Provider) : Type 0 where
  pub once : (p : Page) → count p s.free_pages + count p s.lent ≡ owned s.next_block s.block_count p
  pub listed : (p : Page) → count p s.all_pages ≡ owned s.next_block s.block_count p

owned-suc :
    (p : Page) (end n : ℕ)
    → owned (suc end) n p
      ≡ owned end n p + (if (p.block == end) && (leb 0 p.id && ltb p.id (0 + n)) then 1 else 0)
unfolding owned
owned-suc p end n = ground arith

count-get_pages :
    (p : Page) (s : Provider)
    → count p (get_pages (new_block s))
      ≡ (if (p.block == s.next_block) && (leb 0 p.id && ltb p.id (0 + s.block_count)) then 1 else 0)
unfolding get_pages new_block
count-get_pages p s = count-pages_from p s.next_block 0 s.block_count

refill-IsAccounted : (s : Provider) → IsAccounted s → IsAccounted (refill s)
unfolding refill count
refill-IsAccounted s v = record {
  once = λ p. ground (arith, v.once p, count-get_pages p s, owned-suc p s.next_block s.block_count);
  listed = λ p. ground (
    arith,
    v.listed p,
    count-get_pages p s,
    owned-suc p s.next_block s.block_count,
    count-append p s.all_pages (get_pages (new_block s)),
  );
}

take_front-IsAccounted :
    (s t : Provider) (p : Page) → IsAccounted s → take_front s ≡ some (t, p) → IsAccounted t
unfolding take_front
take_front-IsAccounted s t p v e = record {
  once = λ q. unfold count in ground (arith, v.once q);
  listed = λ q. ground (arith, v.listed q);
}

mark_page_free-IsAccounted :
    (s : Provider) (p : Page)
    → IsAccounted s
    → count p s.lent ≡ 1
    → IsAccounted (mark_page_free p s)
unfolding mark_page_free
mark_page_free-IsAccounted s p v e = record {
  once = λ q. unfold count in ground (arith, v.once q, count-remove q p s.lent e);
  listed = v.listed;
}

Step-IsAccounted : {s t : Provider} → Step s t → IsAccounted s → IsAccounted t
Step-IsAccounted {s} {t} (gets p e) v =
    take_front-IsAccounted (refill s) t p (refill-IsAccounted s v) (unfold get_free_page in e)
Step-IsAccounted {s} (frees p one e) v = subst IsAccounted e (mark_page_free-IsAccounted s p v one)

Reach-IsAccounted : {n m : ℕ} {s : Provider} → Reach n m s → IsAccounted s
Reach-IsAccounted {n} {m} (created e) =
    subst IsAccounted e
      (unfold create count owned in record { once = λ p. ground arith; listed = λ p. ground arith })
Reach-IsAccounted (next r s) = Step-IsAccounted s (Reach-IsAccounted r)

-- In every reachable state the pages that are free and those that are lent are together, each as
-- often, the pages of the blocks made so far, and no page is lent twice.
pub lent_once :
    {n m : ℕ} {s : Provider} (p : Page)
    → Reach n m s
    → count p s.free_pages + count p s.lent ≡ count p s.all_pages × (count p s.lent ≤ 1)
unfolding owned
lent_once p r = let v = Reach-IsAccounted r in ground (arith, v.once p, v.listed p)

pages_from-pos :
    (name i k : ℕ)
    → 0 < k
    → pages_from name i k ≡ record { block = name; id = i } ∷ pages_from name (suc i) (k - 1)
unfolding pages_from
pages_from-pos name i zero h = absurd (omega arith)
pages_from-pos name i (suc k) h =
    ap (λ (n : ℕ). record { block = name; id = i } ∷ pages_from name (suc i) n) (omega arith)

refill-nonempty :
    (s : Provider)
    → 0 < s.block_count
    → (p : Page) × (rest : List Page) × ((refill s).free_pages ≡ p ∷ rest)
      × ((refill s).lent ≡ s.lent)
unfolding refill
refill-nonempty s h = elim (List-cases s.free_pages) [
  | inl e ↦ (
    record { block = s.next_block; id = 0 },
    pages_from s.next_block 1 (s.block_count - 1),
    rw (e, refill) (unfold get_pages new_block in pages_from-pos s.next_block 0 s.block_count h),
    rw (e, refill),
  )
  | inr (p, rest, e) ↦ (p, rest, rw (e, refill) e, rw (e, refill))
]

-- With pages in a block `getFreePage` always finds a page, which was not lent before and is the
-- only one that is lent in addition.
pub get_free_page_lem :
    {n m : ℕ} {s : Provider}
    → Reach n m s
    → 0 < s.block_count
    → (t : Provider) × (p : Page) × (get_free_page s ≡ some (t, p))
      × (count p s.lent ≡ 0)
      × (t.lent ≡ p ∷ s.lent)
unfolding get_free_page take_front
get_free_page_lem {s = s} r h =
    let (p, rest, e, l) = refill-nonempty s h in
    let once = (refill-IsAccounted s (Reach-IsAccounted r)).once p in
    (
      record (refill s) { free_pages = rest; lent = p ∷ (refill s).lent },
      p,
      rw (e, take_front),
      unfold count owned same_page in ground (arith, once),
      ap (◌∷◌ p) l,
    )
