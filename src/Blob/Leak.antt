-- ===== src/Blob/Leak.antt =====
-- The window between the end of a handed-out pointer and its deleter: `load` allocates again.
use scroom.Common.{ℕ, ◌≡◌, ◌≢◌, none, some, arith}
use scroom.Blob.{Bytes, Blob, clean, malloc, hand_out, prepare, load, unload}

module _ {Pages : Type 0} (compress_blob : Bytes → Pages) (decompress_blob : Pages → Bytes)
    (found : ℕ → Bytes) where
  -- A clean blob whose pointer has expired, but whose deleter has not run, still has its buffer.
  -- `load` then forgets that buffer for a new one without freeing it, and the deleters of both
  -- pointers free the new one only: the old one stays allocated and nothing refers to it.
  pub load_leaks :
      (b : Blob Pages) (p : ℕ) (bytes : Bytes)
      → b.state ≡ clean
      → b.weak_data ≡ none
      → b.refcount ≡ 1
      → b.buffer ≡ some p
      → b.heap p ≡ some bytes
      → p ≢ b.next_buffer
      → let c = (load compress_blob decompress_blob found b).0 in
        (c.buffer ≢ some p)
        × (c.heap p ≡ some bytes)
        × ((unload (unload c)).buffer ≡ none)
        × ((unload (unload c)).heap b.next_buffer ≡ none)
        × ((unload (unload c)).heap p ≡ some bytes)
  unfolding load prepare malloc hand_out unload
  load_leaks b p bytes s w r d h n = ground arith
