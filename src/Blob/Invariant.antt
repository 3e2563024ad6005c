-- ===== src/Blob/Invariant.antt =====
-- The invariant of a blob under every order of calls, deleters and compressions.
use scroom.Common.{
  ℕ, suc, ◌+◌, ◌<◌, ◌≡◌, refl, subst, ◌⊎◌, inl, inr, Bool, true, false, Option, none, some,
  Option-cases, arith,
}
use scroom.Blob.{
  State, uninitialized, clean, dirty, compressing, Bytes, Blob, at, create, malloc, unload, release,
  write, hand_out, prepare, load, get, get_const, initialize, compress, Step, gets, gets_const,
  initializes, writes, releases, unloads, compresses, Reach, created, next,
}

abbrev pub one_if_some : Option ℕ → ℕ
one_if_some none = 0
one_if_some (some p) = 1

abbrev pub is_some : Option Bytes → Bool
is_some none = false
is_some (some bytes) = true

-- The bytes live in the buffer while they are dirty, which they are only while they are handed
-- out, and until they have been compressed; and in any other state while they are handed out.
abbrev pub Shape : State → ℕ → Bool → Type 0
Shape uninitialized n has_bytes = (n ≡ 0) ⊎ (has_bytes ≡ true)
Shape clean n has_bytes = (n ≡ 0) ⊎ (has_bytes ≡ true)
Shape dirty n has_bytes = (0 < n) × (has_bytes ≡ true)
Shape compressing n has_bytes = (n ≡ 0) × (has_bytes ≡ true)

module _ {Pages : Type 0} where
  pub record IsValid (b : Blob Pages) : Type 0 where
    pub counted : b.refcount ≡ one_if_some b.weak_data + b.expiring
    pub current : (b.weak_data ≡ none) ⊎ (b.weak_data ≡ b.buffer)
    pub shape : Shape b.state b.refcount (is_some (at b.heap b.buffer))

  create-IsValid : (p : Pages) (n : ℕ) → IsValid (create p n)
  unfolding create
  create-IsValid p n = record { counted = refl; current = inl refl; shape = inl refl }

  release-IsValid : (b : Blob Pages) → IsValid b → IsValid (release b)
  unfolding release
  release-IsValid b v = ground arith

  write-IsValid :
      (bytes : Bytes) (b : Blob Pages) → b.state ≡ dirty → IsValid b → IsValid (write bytes b)
  unfolding write
  write-IsValid bytes b e v = ground arith

  unload-IsValid : (b : Blob Pages) (n : ℕ) → IsValid b → b.expiring ≡ suc n → IsValid (unload b)
  unfolding unload
  unload-IsValid b n v e = ground arith

module _ {Pages : Type 0} (compress_blob : Bytes → Pages) (decompress_blob : Pages → Bytes)
    (found : ℕ → Bytes) where
  abbrev reading : Blob Pages → Blob Pages × Option ℕ
  reading = load compress_blob decompress_blob found

  load-IsValid : (b : Blob Pages) → IsValid b → IsValid (reading b).0
  unfolding load prepare malloc hand_out
  load-IsValid b v = ground arith

  get-IsValid : (b : Blob Pages) → IsValid b → IsValid (get compress_blob decompress_blob found b).0
  unfolding get load prepare malloc hand_out
  get-IsValid b v = ground arith

  initialize-IsValid :
      (value p : ℕ) (b c : Blob Pages)
      → IsValid b
      → initialize compress_blob decompress_blob found value b ≡ some (c, p)
      → IsValid c
  unfolding initialize load prepare malloc hand_out
  initialize-IsValid value p b c v e = ground arith

  compress-IsValid :
      (b c : Blob Pages)
      → IsValid b
      → compress compress_blob decompress_blob found b ≡ some c
      → IsValid c
  unfolding compress
  compress-IsValid b c v e = ground arith

  pub Step-IsValid :
      {b c : Blob Pages} → Step compress_blob decompress_blob found b c → IsValid b → IsValid c
  Step-IsValid {b} (gets e) v = subst IsValid e (get-IsValid b v)
  Step-IsValid {b} (gets_const e) v = subst IsValid e (unfold get_const in load-IsValid b v)
  Step-IsValid {b} {c} (initializes value p e) v = initialize-IsValid value p b c v e
  Step-IsValid {b} (writes bytes d e) v = subst IsValid e (write-IsValid bytes b d v)
  Step-IsValid {b} (releases e) v = subst IsValid e (release-IsValid b v)
  Step-IsValid {b} (unloads n d e) v = subst IsValid e (unload-IsValid b n v d)
  Step-IsValid {b} {c} (compresses n d e) v = compress-IsValid b c v e

  pub Reach-IsValid :
      {no_pages : Pages} {size : ℕ} {b : Blob Pages}
      → Reach compress_blob decompress_blob found no_pages size b
      → IsValid b
  Reach-IsValid {no_pages} {size} (created e) = subst IsValid e (create-IsValid no_pages size)
  Reach-IsValid (next r s) = Step-IsValid s (Reach-IsValid r)

  compress_total :
      (b : Blob Pages)
      → IsValid b
      → (c : Blob Pages) × (compress compress_blob decompress_blob found b ≡ some c)
  compress_total b v = elim (Option-cases (compress compress_blob decompress_blob found b)) [
    | inl n ↦ absurd (unfold compress in ground arith)
    | inr (c, e) ↦ (c, e)
  ]

  initialize_total :
      (value : ℕ) (b : Blob Pages)
      → IsValid b
      → (r : Blob Pages × ℕ) × (initialize compress_blob decompress_blob found value b ≡ some r)
  initialize_total value b v =
      elim (Option-cases (initialize compress_blob decompress_blob found value b)) [
        | inl n ↦ absurd (unfold initialize load prepare malloc hand_out in ground arith)
        | inr (r, e) ↦ (r, e)
      ]

  -- In every reachable state a scheduled compression meets no failed requirement and no null
  -- buffer, and `initialize` gets a buffer to fill.
  pub no_faults :
      {no_pages : Pages} {size : ℕ} {b : Blob Pages} (value : ℕ)
      → Reach compress_blob decompress_blob found no_pages size b
      → ((c : Blob Pages) × (compress compress_blob decompress_blob found b ≡ some c))
        × ((r : Blob Pages × ℕ) × (initialize compress_blob decompress_blob found value b ≡ some r))
  no_faults {b = b} value r =
      let v = Reach-IsValid r in (compress_total b v, initialize_total value b v)
