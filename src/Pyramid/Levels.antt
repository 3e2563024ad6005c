-- ===== src/Pyramid/Levels.antt =====
-- The sizes of the layers, and that there are finitely many.
use scroom.Common.{
  ℕ, zero, suc, ◌/◌, ◌≤◌, ◌<◌, max, ◌≡◌, refl, arith, inl, inr, ltb, ltb→lt, Bool-cases, some, List,
  [], ◌∷◌,
}
use scroom.Layer.{Layer, tilesize, create}
use scroom.Pyramid.{shrink, layers_above, initialize}

-- The layers l is followed by: each has the sizes of the one before shrunk, and is larger than a
-- quarter of a tile; after the last, shrinking would not leave more than that.
abbrev pub IsPyramid : Layer → List Layer → Type 0
IsPyramid l [] = max (shrink l.width) (shrink l.height) ≤ tilesize / 4
IsPyramid l (m ∷ ms) =
    (m ≡ create (suc l.depth) (shrink l.width) (shrink l.height))
    × (tilesize / 4 < max m.width m.height)
    × IsPyramid m ms

shrink-lt : (a b : ℕ) → tilesize / 4 < max a b → max (shrink a) (shrink b) < max a b
unfolding shrink
shrink-lt a b h = omega arith

layers_above-more :
    (fuel i w h : ℕ) (ls : List Layer)
    → tilesize / 4 < max w h
    → layers_above fuel (suc i) (shrink w) (shrink h) ≡ some ls
    → layers_above (suc fuel) i w h ≡ some (create i w h ∷ ls)
unfolding layers_above
layers_above-more fuel i w h ls m e = ground (arith, e)

layers_above-last :
    (fuel i w h : ℕ) → max w h ≤ tilesize / 4 → layers_above (suc fuel) i w h ≡ some []
unfolding layers_above
layers_above-last fuel i w h m = ground arith

layers_above-IsPyramid :
    (fuel : ℕ) (l : Layer)
    → max (shrink l.width) (shrink l.height) < fuel
    → (ls : List Layer) × (layers_above fuel (suc l.depth) (shrink l.width) (shrink l.height)
        ≡ some ls)
      × IsPyramid l ls
unfolding create
layers_above-IsPyramid zero l f = absurd (omega arith)
layers_above-IsPyramid (suc fuel) l f =
    let w = shrink l.width in
    let h = shrink l.height in
    elim (Bool-cases (ltb (tilesize / 4) (max w h))) [
      | inl e ↦
          let more = ltb→lt (tilesize / 4) (max w h) e in
          let m = create (suc l.depth) w h in
          let (ls, run, p) = layers_above-IsPyramid fuel m (omega (arith, shrink-lt w h more)) in
          (m ∷ ls, layers_above-more fuel (suc l.depth) w h ls more run, (refl, more, p))
      | inr e ↦
          let last : max w h ≤ tilesize / 4 = ground (arith, e) in
          ([], layers_above-last fuel (suc l.depth) w h last, last)
    ]

initialize-some :
    (fuel width height : ℕ) (ls : List Layer)
    → layers_above fuel 1 (shrink width) (shrink height) ≡ some ls
    → initialize fuel width height ≡ some (create 0 width height ∷ ls)
unfolding initialize
initialize-some fuel width height ls e = ground (arith, e)

shrink-max : (a b : ℕ) → max (shrink a) (shrink b) < suc (max a b)
unfolding shrink
shrink-max a b = omega arith

-- The loop that makes the layers ends, after no more rounds than the larger size of the bitmap: each
-- layer has an eighth of the sizes below it, rounded up; every layer that is added is larger than a
-- quarter of a tile, in one of its sizes; and the layer that would come next is not.
pub initialize-IsPyramid :
    (width height : ℕ)
    → (ls : List Layer) × (initialize (suc (max width height)) width height
        ≡ some (create 0 width height ∷ ls))
      × IsPyramid (create 0 width height) ls
unfolding create
initialize-IsPyramid width height =
    let (ls, run, p) =
      layers_above-IsPyramid (suc (max width height)) (create 0 width height)
        (shrink-max width height) in
    (ls, initialize-some (suc (max width height)) width height ls run, p)
