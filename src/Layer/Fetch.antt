-- ===== src/Layer/Fetch.antt =====
-- The lines that a DataFetcher asks for, and what becomes of its successor.
use scroom.Common.{
  ℕ, zero, suc, ◌+◌, ◌-◌, ◌*◌, ◌≤◌, ◌<◌, min, ◌≡◌, refl, arith, ltb, some, List, [], ◌∷◌, ◌++◌,
  Bool-cases, ltb→lt, subst, sym, ◌⊎◌, inl, inr,
}
use scroom.Layer.{
  Layer, tilesize, tile_count, create, Fill, fill_row, next_row, fetch_data, hand_over,
}
use scroom.QueueJumper.{Jumper, set_work, take_turn}
use scroom.QueueJumper

-- The calls of fillTiles ask for the lines from a up to b, in order and without gaps, for at most
-- one row of tiles at a time.
abbrev pub Covers : ℕ → ℕ → List Fill → Type 0
Covers a b [] = a ≡ b
Covers a b (f ∷ fs) =
    (f.start_line ≡ a) × (f.line_count ≤ tilesize) × Covers (a + f.line_count) b fs

le_or_lt : (a b : ℕ) → (a ≤ b) ⊎ (b < a)
le_or_lt a b = elim (Bool-cases (ltb b a)) [
  | inl e ↦ inr (ltb→lt b a e)
  | inr e ↦ inl (ground (arith, e))
]

full_row :
    (height row : ℕ)
    → suc row < tile_count height
    → row * tilesize + min tilesize (height - row * tilesize) ≡ suc row * tilesize
unfolding tile_count
full_row height row h = omega arith

last_row :
    (height row : ℕ)
    → tile_count height ≤ suc row
    → row ≤ tile_count height
    → row * tilesize ≤ height
    → row * tilesize + min tilesize (height - row * tilesize) ≡ height
unfolding tile_count
last_row height row h k m = omega arith

row_starts : (height row : ℕ) → suc row < tile_count height → suc row * tilesize ≤ height
unfolding tile_count
row_starts height row h = omega arith

fetch_data-more :
    (fuel : ℕ) (l : Layer) (row : ℕ) (fills : List Fill)
    → suc row < l.ver_tile_count
    → fetch_data fuel l (suc row) ≡ some fills
    → fetch_data (suc fuel) l row ≡ some (fill_row l row ∷ fills)
unfolding fetch_data next_row
fetch_data-more fuel l row fills h e = ground (arith, e)

fetch_data-last :
    (fuel : ℕ) (l : Layer) (row : ℕ)
    → l.ver_tile_count ≤ suc row
    → fetch_data (suc fuel) l row ≡ some (fill_row l row ∷ [])
unfolding fetch_data next_row
fetch_data-last fuel l row h = ground arith

fetch-Covers :
    (fuel depth width height row : ℕ)
    → tile_count height < row + fuel
    → row ≤ tile_count height
    → row * tilesize ≤ height
    → (fills : List Fill) × (fetch_data fuel (create depth width height) row ≡ some fills)
      × Covers (row * tilesize) height fills
unfolding fill_row create
fetch-Covers zero depth width height row f h s = absurd (omega arith)
fetch-Covers (suc fuel) depth width height row f h s =
    let l = create depth width height in
    elim (le_or_lt (tile_count height) (suc row)) [
      | inr more ↦
          let (fills, run, covers) =
            fetch-Covers fuel depth width height (suc row) (omega arith) (omega arith)
              (row_starts height row more) in
          (
            fill_row l row ∷ fills,
            fetch_data-more fuel l row fills more run,
            (
              refl,
              omega arith,
              subst (λ a. Covers a height fills) (sym (full_row height row more)) covers,
            ),
          )
      | inl last ↦ (
        fill_row l row ∷ [],
        fetch_data-last fuel l row last,
        (refl, omega arith, last_row height row last h s),
      )
    ]

-- Fetching a layer comes to an end, with no more calls than it has rows of tiles and one, and asks
-- for every line of the layer exactly once, from the first to the last.
pub fetch_data-Covers :
    (depth width height : ℕ)
    → (fills : List Fill) × (fetch_data (suc (tile_count height)) (create depth width height) 0
        ≡ some fills)
      × Covers 0 height fills
fetch_data-Covers depth width height =
    fetch-Covers (suc (tile_count height)) depth width height 0 (omega arith) (omega arith)
      (omega arith)

-- Whether the turn of its QueueJumper comes before a DataFetcher hands over its successor or
-- afterwards, the successor runs once: from the jumper, or as a job of its own.
pub hand_over-once :
    (successor : ℕ)
    → ((late : Jumper) × (take_turn QueueJumper.create ≡ some late)
        × (let (j, scheduled) = hand_over successor late [] in j.ran ++ scheduled ≡ successor ∷ []))
      × (let (early, scheduled) = hand_over successor QueueJumper.create [] in
          (j : Jumper) × (take_turn early ≡ some j) × (j.ran ++ scheduled ≡ successor ∷ []))
unfolding hand_over set_work take_turn scroom.QueueJumper.create
hand_over-once successor = ((_, refl, refl), (_, refl, refl))
