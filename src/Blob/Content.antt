-- ===== src/Blob/Content.antt =====
-- What a blob holds, whether its bytes are in the buffer or compressed.
use scroom.Common.{
  ℕ, suc, ◌≡◌, refl, ◌∙◌, subst, ap, ◌⊎◌, inl, inr, Bool, true, false, Option, none, some,
  Option-cases, arith,
}
use scroom.Blob.{
  State, uninitialized, clean, dirty, Bytes, Blob, at, create, malloc, unload, release, write,
  hand_out, prepare, load, get, get_const, initialize, compress, Step, gets, gets_const,
  initializes, writes, releases, unloads, compresses, Reach, created, next,
}
use scroom.Blob.Invariant.{IsValid, Step-IsValid, Reach-IsValid}

module _ {Pages : Type 0} (compress_blob : Bytes → Pages) (decompress_blob : Pages → Bytes)
    (found : ℕ → Bytes) where
  -- The bytes that a blob stands for, once it has been initialized.
  pub content : Blob Pages → Option Bytes
  content b = elim b.state [
    | uninitialized ↦ none
    | clean ↦ some (decompress_blob b.pages)
    | _ ↦ at b.heap b.buffer
  ]

  -- While clean bytes are handed out, the buffer holds what the pages hold.
  abbrev pub Synced : State → ℕ → Pages → Option Bytes → Type 0
  Synced clean n pages bytes = (n ≡ 0) ⊎ (bytes ≡ some (decompress_blob pages))
  Synced _ n pages bytes = Unit {0}

  abbrev pub IsSynced : Blob Pages → Type 0
  IsSynced b = Synced b.state b.refcount b.pages (at b.heap b.buffer)

  Step-IsSynced :
      {b c : Blob Pages}
      → Step compress_blob decompress_blob found b c
      → IsValid b
      → IsSynced b
      → IsSynced c
  unfolding get get_const initialize load prepare malloc hand_out write release unload compress
  Step-IsSynced (gets e) v s = ground arith
  Step-IsSynced (gets_const e) v s = ground arith
  Step-IsSynced (initializes value p e) v s = ground arith
  Step-IsSynced (writes bytes d e) v s = ground arith
  Step-IsSynced (releases e) v s = ground arith
  Step-IsSynced (unloads n d e) v s = ground arith
  Step-IsSynced (compresses n d e) v s = ground arith

  create-IsSynced : (p : Pages) (n : ℕ) → IsSynced (create p n)
  unfolding create
  create-IsSynced p n = tt

  pub Reach-IsSynced :
      {no_pages : Pages} {size : ℕ} {b : Blob Pages}
      → Reach compress_blob decompress_blob found no_pages size b
      → IsSynced b
  Reach-IsSynced {no_pages} {size} (created e) = subst IsSynced e (create-IsSynced no_pages size)
  Reach-IsSynced (next r s) =
      Step-IsSynced s (Reach-IsValid compress_blob decompress_blob found r) (Reach-IsSynced r)

  abbrev pub is_initialized : State → Bool
  is_initialized uninitialized = false
  is_initialized _ = true

  -- Steps that write nothing: all but `initialize` and writes through a handed-out pointer.
  pub data Quiet (b : Blob Pages) : Blob Pages → Type 0 where
    here : Quiet b b
    then_gets :
        {c d : Blob Pages}
        → Quiet b c
        → (get compress_blob decompress_blob found c).0 ≡ d
        → Quiet b d
    then_gets_const :
        {c d : Blob Pages}
        → Quiet b c
        → (get_const compress_blob decompress_blob found c).0 ≡ d
        → Quiet b d
    then_releases : {c d : Blob Pages} → Quiet b c → release c ≡ d → Quiet b d
    then_unloads :
        {c d : Blob Pages} (n : ℕ) → Quiet b c → c.expiring ≡ suc n → unload c ≡ d → Quiet b d
    then_compresses :
        {c d : Blob Pages} (n : ℕ)
        → Quiet b c
        → c.jobs ≡ suc n
        → compress compress_blob decompress_blob found c ≡ some d
        → Quiet b d

  -- What the steps of a run keep.
  record Keeps (held : Option Bytes) (b : Blob Pages) : Type 0 where
    valid : IsValid b
    synced : IsSynced b
    filled : is_initialized b.state ≡ true
    same : content b ≡ held

  get-content :
      (b : Blob Pages)
      → IsValid b
      → IsSynced b
      → is_initialized b.state ≡ true
      → (content (get compress_blob decompress_blob found b).0 ≡ content b)
        × (is_initialized (get compress_blob decompress_blob found b).0.state ≡ true)
  unfolding content get load prepare malloc hand_out
  get-content b v s i = ground arith

  get_const-content :
      (b : Blob Pages)
      → IsValid b
      → IsSynced b
      → is_initialized b.state ≡ true
      → (content (get_const compress_blob decompress_blob found b).0 ≡ content b)
        × (is_initialized (get_const compress_blob decompress_blob found b).0.state ≡ true)
  unfolding content get_const load prepare malloc hand_out
  get_const-content b v s i = ground arith

  release-content :
      (b : Blob Pages) → (content (release b) ≡ content b) × ((release b).state ≡ b.state)
  unfolding content release
  release-content b = ground arith

  unload-content :
      (b : Blob Pages) (n : ℕ)
      → IsValid b
      → is_initialized b.state ≡ true
      → b.expiring ≡ suc n
      → (content (unload b) ≡ content b) × (is_initialized (unload b).state ≡ true)
  unfolding content unload
  unload-content b n v i e = ground arith

  write-content :
      (bytes : Bytes) (p : ℕ) (b : Blob Pages)
      → IsValid b
      → b.state ≡ dirty
      → b.weak_data ≡ some p
      → (content (write bytes b) ≡ some bytes) × (is_initialized (write bytes b).state ≡ true)
  unfolding content write
  write-content bytes p b v e w = ground arith

  get_const_reads :
      (b : Blob Pages)
      → IsValid b
      → IsSynced b
      → is_initialized b.state ≡ true
      → let (c, q) = get_const compress_blob decompress_blob found b in at c.heap q ≡ content b
  unfolding content get_const load prepare malloc hand_out
  get_const_reads b v s i = ground arith

  kept_by :
      {b c : Blob Pages} {held : Option Bytes}
      → Step compress_blob decompress_blob found b c
      → Keeps held b
      → (content c ≡ content b) × (is_initialized c.state ≡ true)
      → Keeps held c
  kept_by s k h = record {
    valid = Step-IsValid compress_blob decompress_blob found s k.valid;
    synced = Step-IsSynced s k.valid k.synced;
    filled = h.1;
    same = h.0 ∙ k.same;
  }

  module _ (round_trip : (bytes : Bytes) → decompress_blob (compress_blob bytes) ≡ bytes) where
    compress-content :
        (b c : Blob Pages)
        → IsValid b
        → is_initialized b.state ≡ true
        → compress compress_blob decompress_blob found b ≡ some c
        → (content c ≡ content b) × (is_initialized c.state ≡ true)
    unfolding content compress
    compress-content b c v i e = elim (Option-cases (at b.heap b.buffer)) [
      | inl n ↦ ground arith
      | inr (bytes, k) ↦ ground (arith, round_trip bytes)
    ]

    Quiet-Keeps : {b c : Blob Pages} {held : Option Bytes} → Quiet b c → Keeps held b → Keeps held c
    Quiet-Keeps here k = k
    Quiet-Keeps (then_gets {c} q e) k =
        let h = Quiet-Keeps q k in
        let r = get-content c h.valid h.synced h.filled in kept_by (gets e) h (rw (← e) r)
    Quiet-Keeps (then_gets_const {c} q e) k =
        let h = Quiet-Keeps q k in
        let r = get_const-content c h.valid h.synced h.filled in
        kept_by (gets_const e) h (rw (← e) r)
    Quiet-Keeps (then_releases {c} q e) k =
        let h = Quiet-Keeps q k in
        let r = release-content c in
        kept_by (releases e) h (rw (← e) (r.0, ap is_initialized r.1 ∙ h.filled))
    Quiet-Keeps (then_unloads {c} n q d e) k =
        let h = Quiet-Keeps q k in
        let r = unload-content c n h.valid h.filled d in kept_by (unloads n d e) h (rw (← e) r)
    Quiet-Keeps (then_compresses {c} {d} n q j e) k =
        let h = Quiet-Keeps q k in
        kept_by (compresses n j e) h (compress-content c d h.valid h.filled e)

    -- Provided that decompressing gives back what was compressed: bytes that are written through
    -- the pointer of `get`, in a reachable dirty state in which that pointer is held, come back.
    -- After any run of calls, deleters and compressions that write nothing, `getConst` hands out a
    -- buffer that holds them.
    pub get_const-write :
        {no_pages : Pages} {size : ℕ} {b c : Blob Pages} (bytes : Bytes) (p : ℕ)
        → Reach compress_blob decompress_blob found no_pages size b
        → b.state ≡ dirty
        → b.weak_data ≡ some p
        → Quiet (write bytes b) c
        → let (d, q) = get_const compress_blob decompress_blob found c in at d.heap q ≡ some bytes
    get_const-write {b = b} {c} bytes p r e w q =
        let written = writes bytes e refl in
        let v =
          Step-IsValid compress_blob decompress_blob found written
            (Reach-IsValid compress_blob decompress_blob found r) in
        let start : Keeps (some bytes) (write bytes b) = record {
          valid = v;
          synced =
              Step-IsSynced written (Reach-IsValid compress_blob decompress_blob found r)
                (Reach-IsSynced r);
          filled =
              (write-content bytes p b (Reach-IsValid compress_blob decompress_blob found r) e w).1;
          same =
              (write-content bytes p b (Reach-IsValid compress_blob decompress_blob found r) e w).0;
        } in
        let k = Quiet-Keeps q start in get_const_reads c k.valid k.synced k.filled ∙ k.same
