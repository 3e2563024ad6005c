-- ===== src/LayerOperations/Indexed/TopTwo.antt =====
-- Which two indices are kept.
use scroom.Common.{ℕ, zero, suc, ◌+◌, ◌-◌, ◌≤◌, ◌<◌, ◌≡◌, ◌≢◌, ◌⊎◌, inl, inr, arith, subst}
use scroom.LayerOperations.Indexed.{Counts, Pick, pick_start, consider, pick_loop, pick_two}

-- What the loop knows of an index that it has seen.
Ranked : Counts → Pick → ℕ → Type 0
Ranked counts pick c =
    (counts c ≤ counts pick.first) × ((c ≡ pick.first) ⊎ (counts c ≤ counts pick.second))

abbrev Places : Pick → ℕ → Type 0
Places pick n = (pick.first < n) × (pick.second < n) × (pick.first ≢ pick.second)

consider-Ranked :
    (counts : Counts) (c n : ℕ) (pick : Pick)
    → Ranked counts pick c
    → Ranked counts (consider counts n pick) c
unfolding Ranked consider
consider-Ranked counts c n pick h = ground (arith, h)

consider-new : (counts : Counts) (n : ℕ) (pick : Pick) → Ranked counts (consider counts n pick) n
unfolding Ranked consider
consider-new counts n pick = ground arith

consider-Places :
    (counts : Counts) (n : ℕ) (pick : Pick)
    → Places pick n
    → Places (consider counts n pick) (suc n)
unfolding consider
consider-Places counts n pick h = ground (arith, h)

pick_start-lem :
    (counts : Counts) (c : ℕ)
    → c < 2
    → Ranked counts (pick_start counts) c × Places (pick_start counts) 2
unfolding pick_start Ranked
pick_start-lem counts zero h = ground arith
pick_start-lem counts (suc zero) h = ground arith
pick_start-lem counts (suc (suc c)) h = absurd (omega arith)

first_or_later : (n c : ℕ) → n ≤ c → (n ≡ c) ⊎ (suc n ≤ c)
first_or_later n c h = ground arith

seen_or_later :
    (counts : Counts) (c size : ℕ)
    → c < size
    → (Ranked counts (pick_start counts) c) ⊎ ((2 ≤ c) × (c < 2 + (size - 2)))
seen_or_later counts zero size h = inl (pick_start-lem counts 0 (omega arith)).0
seen_or_later counts (suc zero) size h = inl (pick_start-lem counts 1 (omega arith)).0
seen_or_later counts (suc (suc c)) size h = inr (omega arith)

pick_loop-Ranked :
    (counts : Counts) (left n : ℕ) (pick : Pick) (c : ℕ)
    → (Ranked counts pick c) ⊎ ((n ≤ c) × (c < n + left))
    → Ranked counts (pick_loop counts left n pick) c
unfolding pick_loop
pick_loop-Ranked counts zero n pick c (inl h) = h
pick_loop-Ranked counts zero n pick c (inr h) = absurd (omega (arith, h))
pick_loop-Ranked counts (suc left) n pick c (inl h) =
    pick_loop-Ranked counts left (suc n) (consider counts n pick) c
      (inl (consider-Ranked counts c n pick h))
pick_loop-Ranked counts (suc left) n pick c (inr (l, u)) = elim (first_or_later n c l) [
  | inl e ↦
      pick_loop-Ranked counts left (suc n) (consider counts n pick) c
        (inl (subst (λ k. Ranked counts (consider counts n pick) k) e (consider-new counts n pick)))
  | inr k ↦
      pick_loop-Ranked counts left (suc n) (consider counts n pick) c (inr (k, omega (arith, u)))
]

pick_loop-Places :
    (counts : Counts) (left n : ℕ) (pick : Pick)
    → Places pick n
    → Places (pick_loop counts left n pick) (n + left)
unfolding pick_loop
pick_loop-Places counts zero n pick h = omega (arith, h)
pick_loop-Places counts (suc left) n pick h =
    let rest =
      pick_loop-Places counts left (suc n) (consider counts n pick)
        (consider-Places counts n pick h) in
    ground (arith, rest)

-- With at least two entries: `first` is an index whose count no other exceeds, and `second` one
-- whose count no other but `first` exceeds; they are the same index only when all counts but that
-- of `first` are 0.
pub pick_two-lem :
    (counts : Counts) (size c : ℕ)
    → 2 ≤ size
    → c < size
    → let pick = pick_two counts size in
      (pick.first < size)
      × (pick.second < size)
      × (counts c ≤ counts pick.first)
      × ((c ≡ pick.first) ⊎ (counts c ≤ counts pick.second))
      × ((pick.first ≢ pick.second) ⊎ (c ≡ pick.first) ⊎ (counts c ≡ 0))
unfolding pick_two Ranked
pick_two-lem counts size c h l =
    let start = pick_start counts in
    let places =
      pick_loop-Places counts (size - 2) 2 start (pick_start-lem counts 0 (omega arith)).1 in
    let ranked = pick_loop-Ranked counts (size - 2) 2 start c (seen_or_later counts c size l) in
    ground (arith, places, ranked)
