-- ===== src/LayerOperations/Loops.antt =====
-- Which bytes the two loops of the reduce functions write, and with what.
use scroom.Common.{
  ℕ, zero, suc, ◌+◌, ◌*◌, ◌%◌, ◌≤◌, ◌<◌, ◌≡◌, ◌⊎◌, inl, refl, ◌∙◌, arith, List, [], ◌∷◌, length,
  get_or,
}
use scroom.LayerOperations.{Bytes, store, reduce_row, reduce_rows}

pub store-inside :
    (vs : List ℕ) (ptr k : ℕ) (bytes : Bytes)
    → k < length vs
    → store vs ptr bytes (ptr + k) ≡ get_or vs k 0 % 256
unfolding store
store-inside [] ptr k bytes h = absurd (omega arith)
store-inside (v ∷ vs) ptr zero bytes h = ground arith
store-inside (v ∷ vs) ptr (suc k) bytes h =
    ground (arith, store-inside vs (suc ptr) k bytes (omega arith))

pub store-outside :
    (vs : List ℕ) (ptr p : ℕ) (bytes : Bytes)
    → (p < ptr) ⊎ (ptr + length vs ≤ p)
    → store vs ptr bytes p ≡ bytes p
unfolding store
store-outside [] ptr p bytes h = refl
store-outside (v ∷ vs) ptr p bytes h =
    ground (arith, store-outside vs (suc ptr) p bytes (ground arith))

next_step : (k c : ℕ) → suc k * c ≡ c + k * c
next_step k c = grind arith

within_steps : (i n c : ℕ) → i < n → i * c + c ≤ n * c
within_steps i n c h = grind arith

module _ (values : ℕ → List ℕ) (c : ℕ) (size : (p : ℕ) → length (values p) ≡ c) where
  pub reduce_row-outside :
      (ds n s t p : ℕ) (bytes : Bytes)
      → (p < t) ⊎ (t + n * c ≤ p)
      → reduce_row values ds c n s t bytes p ≡ bytes p
  unfolding reduce_row
  reduce_row-outside ds zero s t p bytes h = refl
  reduce_row-outside ds (suc n) s t p bytes h =
      let e = next_step n c in
      reduce_row-outside ds n (s + ds) (t + c) p (store (values s) t bytes) (ground (arith, e))
      ∙ store-outside (values s) t p bytes (ground (arith, e, size s))

  pub reduce_row-inside :
      (ds n s t i k : ℕ) (bytes : Bytes)
      → i < n
      → k < c
      → reduce_row values ds c n s t bytes (t + i * c + k) ≡ get_or (values (s + i * ds)) k 0 % 256
  unfolding reduce_row
  reduce_row-inside ds zero s t i k bytes h l = absurd (omega arith)
  reduce_row-inside ds (suc n) s t zero k bytes h l =
      let first =
        reduce_row-outside ds n (s + ds) (t + c) (t + k) (store (values s) t bytes)
          (inl (omega arith))
        ∙ store-inside (values s) t k bytes (omega (arith, size s)) in
      ground (arith, first)
  reduce_row-inside ds (suc n) s t (suc i) k bytes h l =
      let rest =
        reduce_row-inside ds n (s + ds) (t + c) i k (store (values s) t bytes) (omega arith) l in
      ground (arith, rest, next_step i c, next_step i ds)

  module _ (ds n ss ts : ℕ) (fits : n * c ≤ ts) where
    pub reduce_rows-outside :
        (left s t p : ℕ) (bytes : Bytes)
        → ((j : ℕ) → j < left → (p < t + j * ts) ⊎ (t + j * ts + n * c ≤ p))
        → reduce_rows (reduce_row values ds c n) ss ts left s t bytes p ≡ bytes p
    unfolding reduce_rows
    reduce_rows-outside zero s t p bytes h = refl
    reduce_rows-outside (suc left) s t p bytes h =
        reduce_rows-outside left (s + ss * 8) (t + ts) p (reduce_row values ds c n s t bytes)
          (λ j l. ground (arith, h (suc j) (omega arith), next_step j ts))
        ∙ reduce_row-outside ds n s t p bytes (ground (arith, h 0 (omega arith)))

    pub reduce_rows-inside :
        (left s t i j k : ℕ) (bytes : Bytes)
        → j < left
        → i < n
        → k < c
        → reduce_rows (reduce_row values ds c n) ss ts left s t bytes (t + j * ts + i * c + k)
          ≡ get_or (values (s + j * (ss * 8) + i * ds)) k 0 % 256
    unfolding reduce_rows
    reduce_rows-inside zero s t i j k bytes h hi hk = absurd (omega arith)
    reduce_rows-inside (suc left) s t i zero k bytes h hi hk =
        let row = reduce_row values ds c n s t bytes in
        let first =
          reduce_rows-outside left (s + ss * 8) (t + ts) (t + i * c + k) row
            (λ j l. inl (omega (arith, within_steps i n c hi)))
          ∙ reduce_row-inside ds n s t i k bytes hi hk in
        ground (arith, first)
    reduce_rows-inside (suc left) s t i (suc j) k bytes h hi hk =
        let rest =
          reduce_rows-inside left (s + ss * 8) (t + ts) i j k (reduce_row values ds c n s t bytes)
            (omega arith) hi hk in
        ground (arith, rest, next_step j ts, next_step j (ss * 8))
