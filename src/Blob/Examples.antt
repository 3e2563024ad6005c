-- ===== src/Blob/Examples.antt =====
-- A blob of two bytes that is written, compressed and read again. Pages are the bytes themselves.
use scroom.Common.{ℕ, ◌≡◌, ◌≢◌, refl, none, some, [], ◌∷◌, arith}
use scroom.Blob.{
  Bytes, Blob, clean, dirty, uninitialized, create, malloc, hand_out, prepare, load, get_const,
  initialize, write, release, unload, compress, update, at, Reach, created, next, initializes,
}
use scroom.Blob.Invariant.{no_faults}
use scroom.Blob.Content.{get_const-write, Quiet, here, then_releases, then_unloads, then_compresses}
use scroom.Blob.Leak.{load_leaks}

abbrev as_is : Bytes → Bytes
as_is bytes = bytes

abbrev zeros : ℕ → Bytes
zeros p = 0 ∷ 0 ∷ []

abbrev fresh : Blob Bytes
fresh = record {
  size = 2;
  buffer = none;
  state = uninitialized;
  weak_data = none;
  pages = [];
  refcount = 0;
  expiring = 0;
  jobs = 0;
  heap = λ p. none;
  next_buffer = 0;
}

abbrev held : Blob Bytes
held = record fresh {
  buffer = some 0;
  state = dirty;
  weak_data = some 0;
  refcount = 1;
  heap = update (update fresh.heap 0 (some (zeros 0))) 0 (some (9 ∷ 9 ∷ []));
  next_buffer = 1;
}

held-Reach : Reach as_is as_is zeros [] 2 held
unfolding create initialize load prepare malloc hand_out
held-Reach = next (created refl) (initializes 9 0 refl)

no_faults_example :
    ((c : Blob Bytes) × (compress as_is as_is zeros held ≡ some c))
    × ((r : Blob Bytes × ℕ) × (initialize as_is as_is zeros 5 held ≡ some r))
no_faults_example = no_faults as_is as_is zeros 5 held-Reach

abbrev after_write : Blob Bytes
after_write = record held { heap = update held.heap 0 (some (1 ∷ 2 ∷ [])) }

abbrev packed : Blob Bytes
packed = record after_write {
  state = clean;
  weak_data = none;
  refcount = 0;
  buffer = none;
  pages = 1 ∷ 2 ∷ [];
  heap = update after_write.heap 0 none;
}

packed-Quiet : Quiet as_is as_is zeros (write (1 ∷ 2 ∷ []) held) packed
unfolding write release unload compress
packed-Quiet = then_compresses 0 (then_unloads 0 (then_releases here refl) refl refl) refl refl

get_const-write_example :
    let (d, q) = get_const as_is as_is zeros packed in at d.heap q ≡ some (1 ∷ 2 ∷ [])
get_const-write_example =
    get_const-write as_is as_is zeros (λ bytes. refl) (1 ∷ 2 ∷ []) 0 held-Reach refl refl
      packed-Quiet

-- Clean bytes that were handed out and let go, before the deleter has run.
abbrev let_go : Blob Bytes
let_go = record packed {
  refcount = 1;
  expiring = 1;
  buffer = some 1;
  heap = update packed.heap 1 (some (1 ∷ 2 ∷ []));
  next_buffer = 2;
}

load_leaks_example :
    let c = (load as_is as_is zeros let_go).0 in
    (c.buffer ≢ some 1)
    × (c.heap 1 ≡ some (1 ∷ 2 ∷ []))
    × ((unload (unload c)).buffer ≡ none)
    × ((unload (unload c)).heap 2 ≡ none)
    × ((unload (unload c)).heap 1 ≡ some (1 ∷ 2 ∷ []))
load_leaks_example =
    load_leaks as_is as_is zeros let_go 1 (1 ∷ 2 ∷ []) refl refl refl refl refl
      (λ e. omega (arith, e))
