-- ===== src/Pyramid/Reduction.antt =====
-- When a coordinator reports its target to be finished.
use scroom.Common.{ℕ, suc, ◌+◌, ◌≡◌, refl, ◌∙◌, arith, List, [], ◌∷◌, length}
use scroom.Pyramid.{Coordinator, create_coordinator, add_source_tile, reduce_source_tile}

abbrev pub add_all : List ℕ → Coordinator → Coordinator
add_all [] c = c
add_all (t ∷ ts) c = add_all ts (add_source_tile t c)

abbrev pub reduce_all : List ℕ → Coordinator → Coordinator
reduce_all [] c = c
reduce_all (t ∷ ts) c = reduce_all ts (reduce_source_tile t c)

-- The list ts read backwards, in front of the list us.
abbrev pub onto : List ℕ → List ℕ → List ℕ
onto [] us = us
onto (t ∷ ts) us = onto ts (t ∷ us)

add_all-unfinished :
    (ts : List ℕ) (c : Coordinator)
    → (add_all ts c).unfinished_source_tiles ≡ length ts + c.unfinished_source_tiles
unfolding add_source_tile
add_all-unfinished [] c = omega arith
add_all-unfinished (t ∷ ts) c = omega (arith, add_all-unfinished ts (add_source_tile t c))

add_all-kept :
    (ts : List ℕ) (c : Coordinator)
    → ((add_all ts c).reduced ≡ c.reduced) × ((add_all ts c).reports ≡ c.reports)
unfolding add_source_tile
add_all-kept [] c = (refl, refl)
add_all-kept (t ∷ ts) c = add_all-kept ts (add_source_tile t c)

reduce_all-reports :
    (t : ℕ) (ts : List ℕ) (c : Coordinator)
    → c.unfinished_source_tiles ≡ suc (length ts)
    → (reduce_all (t ∷ ts) c).reports ≡ onto (t ∷ ts) c.reduced ∷ c.reports
unfolding reduce_source_tile
reduce_all-reports t [] c e = ground (arith, e)
reduce_all-reports t (u ∷ us) c e =
    reduce_all-reports u us (reduce_source_tile t c) (ground (arith, e)) ∙ ground (arith, e)

-- When all source tiles are added first, and then as many are reduced in any order, the target is
-- reported to be finished exactly once, and by then every one of them is reduced into it.
pub reduce_all-once :
    (ts : List ℕ) (u : ℕ) (us : List ℕ)
    → length ts ≡ suc (length us)
    → (reduce_all (u ∷ us) (add_all ts create_coordinator)).reports ≡ onto (u ∷ us) [] ∷ []
unfolding create_coordinator
reduce_all-once ts u us e =
    let added = add_all ts create_coordinator in
    let (no_reduced, no_reports) = add_all-kept ts create_coordinator in
    reduce_all-reports u us added (omega (arith, add_all-unfinished ts create_coordinator, e))
    ∙ rw (no_reduced, no_reports) refl
