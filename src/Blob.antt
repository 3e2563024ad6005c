-- ===== src/Blob.antt =====
-- libs/memory-manager/src/memoryblobs.cc and inc/scroom/memoryblobs.hh: a blob hands out its bytes
-- while somebody holds them, and keeps them compressed otherwise. A buffer from malloc is a
-- number, and the heap a function from buffers to their bytes, `none` where nothing is allocated.
-- compressBlob, decompressBlob and what malloc finds in a new buffer are parameters. Every member
-- function runs under the mutex and is one step; the pool runs the scheduled compressions, and the
-- deleter of the handed-out pointer runs some time after its last reference has gone.
use scroom.Common.{
  ℕ, zero, suc, ◌+◌, ◌-◌, ◌≡◌, Bool, true, false, ◌==◌, if◌then◌else◌, Option, none, some, List,
  replicate,
}
pub mod Invariant
pub mod Content
pub mod Leak
mod Examples

pub data State : Type 0 where
  uninitialized clean dirty compressing : State

abbrev pub Bytes : Type 0
Bytes = List ℕ

pub record Blob (Pages : Type 0) : Type 0 where
  pub size : ℕ
  -- the member `data`
  pub buffer : Option ℕ
  pub state : State
  -- what `weakData` locks to, while that succeeds
  pub weak_data : Option ℕ
  pub pages : Pages
  pub refcount : ℕ
  -- handed-out pointers whose last reference is gone and whose deleter has yet to run
  pub expiring : ℕ
  -- compressions in the queue of the pool
  pub jobs : ℕ
  pub heap : ℕ → Option Bytes
  pub next_buffer : ℕ

abbrev pub update : (ℕ → Option Bytes) → ℕ → Option Bytes → ℕ → Option Bytes
update h p b q = if p == q then b else h q

abbrev pub at : (ℕ → Option Bytes) → Option ℕ → Option Bytes
at h none = none
at h (some p) = h p

abbrev pub free : (ℕ → Option Bytes) → Option ℕ → ℕ → Option Bytes
free h none q = h q
free h (some p) q = update h p none q

module _ {Pages : Type 0} where
  pub create : Pages → ℕ → Blob Pages
  create no_pages size = record {
    size = size;
    buffer = none;
    state = uninitialized;
    weak_data = none;
    pages = no_pages;
    refcount = 0;
    expiring = 0;
    jobs = 0;
    heap = λ p. none;
    next_buffer = 0;
  }

  pub malloc : Bytes → Blob Pages → Blob Pages
  malloc bytes b = record b {
    buffer = some b.next_buffer;
    heap = update b.heap b.next_buffer (some bytes);
    next_buffer = suc b.next_buffer;
  }

  -- UnloadData: the deleter's call
  pub unload : Blob Pages → Blob Pages
  unload b =
      let refcount = b.refcount - 1 in
      let expiring = b.expiring - 1 in
      if refcount == 0
      then elim b.state [
        | dirty ↦ record b {
          refcount = refcount;
          expiring = expiring;
          state = compressing;
          jobs = suc b.jobs;
        }
        | _ ↦ record b {
          refcount = refcount;
          expiring = expiring;
          heap = free b.heap b.buffer;
          buffer = none;
        }
      ]
      else record b { refcount = refcount; expiring = expiring }

  -- The last reference to the handed-out pointer goes away, so that `weakData` has expired.
  pub release : Blob Pages → Blob Pages
  release b = elim b.weak_data [
    | none ↦ b
    | some p ↦ record b { weak_data = none; expiring = suc b.expiring }
  ]

  -- The holder of the pointer that `get` returned writes through it.
  pub write : Bytes → Blob Pages → Blob Pages
  write bytes b = elim b.weak_data [
    | none ↦ b
    | some p ↦ record b { heap = update b.heap p (some bytes) }
  ]

  -- The end of `load`: the pointer to hand out.
  pub hand_out : Blob Pages → Blob Pages × Option ℕ
  hand_out b = (record b { weak_data = b.buffer; refcount = suc b.refcount }, b.buffer)

  module _ (compress_blob : Bytes → Pages) (decompress_blob : Pages → Bytes)
      (found : ℕ → Bytes) where
    -- The switch in `load`.
    pub prepare : Blob Pages → Blob Pages
    prepare b = elim b.state [
      | uninitialized ↦ malloc (found b.next_buffer) b
      | clean ↦ malloc (decompress_blob b.pages) b
      | dirty ↦ b
      | compressing ↦ record b { state = dirty }
    ]

    pub load : Blob Pages → Blob Pages × Option ℕ
    load b = elim b.weak_data [ some p ↦ (b, some p) | none ↦ hand_out (prepare b) ]

    pub get : Blob Pages → Blob Pages × Option ℕ
    get b = let (c, p) = load b in (record c { state = dirty }, p)

    pub get_const : Blob Pages → Blob Pages × Option ℕ
    get_const b = load b

    -- The memset wants a buffer: `none` is a null pointer.
    pub initialize : ℕ → Blob Pages → Option (Blob Pages × ℕ)
    initialize value b =
        let (c, p) = load b in
        elim p [
          | none ↦ none
          | some q ↦ some (
            record c { state = dirty; heap = update c.heap q (some (replicate c.size value)) },
            q,
          )
        ]

    -- The scheduled job. `none` is the failed `require(refcount == 0)`, or a null buffer.
    pub compress : Blob Pages → Option (Blob Pages)
    compress b = elim b.state [
      | compressing ↦
          if b.refcount == 0
          then elim (at b.heap b.buffer) [
            | none ↦ none
            | some bytes ↦ some (record b {
              pages = compress_blob bytes;
              heap = free b.heap b.buffer;
              buffer = none;
              state = clean;
              jobs = b.jobs - 1;
            })
          ]
          else none
      | _ ↦ some (record b { jobs = b.jobs - 1 })
    ]

    -- What happens to a blob: calls of its users, deleters and scheduled jobs, in any order. A
    -- user writes only while he holds what `get` returned.
    pub data Step : Blob Pages → Blob Pages → Type 0 where
      gets : {b c : Blob Pages} → (get b).0 ≡ c → Step b c
      gets_const : {b c : Blob Pages} → (get_const b).0 ≡ c → Step b c
      initializes : {b c : Blob Pages} (value p : ℕ) → initialize value b ≡ some (c, p) → Step b c
      writes : {b c : Blob Pages} (bytes : Bytes) → b.state ≡ dirty → write bytes b ≡ c → Step b c
      releases : {b c : Blob Pages} → release b ≡ c → Step b c
      unloads : {b c : Blob Pages} (n : ℕ) → b.expiring ≡ suc n → unload b ≡ c → Step b c
      compresses : {b c : Blob Pages} (n : ℕ) → b.jobs ≡ suc n → compress b ≡ some c → Step b c

    pub data Reach (no_pages : Pages) (size : ℕ) : Blob Pages → Type 0 where
      created : {b : Blob Pages} → create no_pages size ≡ b → Reach no_pages size b
      next : {b c : Blob Pages} → Reach no_pages size b → Step b c → Reach no_pages size c
