-- ===== src/EasyFs/BlockCache.antt =====
-- tg-rcore-tutorial-easy-fs/src/block_cache.rs: the cache of 16 blocks. A handle is the id of its
-- block, and an `Arc` keeps its count beside what it points to; the lock of a block is held for one
-- call. The device is a function from block ids, and a block has any type `B`, which the closures
-- of `read` and `modify` look at.
pub mod Queue
pub mod Keeps
pub mod Changes
pub mod Handles
pub mod Sync
pub mod Transparent
use tg_rcore_tutorial.Prelude.{
  ℕ, zero, suc, ◌+◌, ◌-◌, ◌==◌, leb, if◌then◌else◌, Bool, true, false, Option, none, some, List, [],
  ◌∷◌, ◌++◌, length, extract, Outcome, ok, panic, ◌>>=◌, ◌>>◌, assert,
}
use tg_rcore_tutorial.Prelude.Assoc.{lookup}

abbrev pub block_sz : ℕ
block_sz = 512

abbrev pub block_cache_size : ℕ
block_cache_size = 16

abbrev pub BlockDevice : Type 0 → Type 0
BlockDevice B = ℕ → B

pub record BlockCache (B : Type 0) : Type 0 where
  pub cache : B
  pub block_id : ℕ
  pub modified : Bool
  pub strong_count : ℕ

abbrev pub Queue : Type 0 → Type 0
Queue B = List (ℕ × BlockCache B)

module _ {B : Type 0} where
  unfoldable pub write_block : ℕ → B → BlockDevice B → BlockDevice B
  write_block id block dev j = if id == j then block else dev j

  unfoldable pub new : ℕ → BlockDevice B → BlockCache B
  new block_id dev = record {
    cache = dev block_id;
    block_id = block_id;
    modified = false;
    strong_count = 1;
  }

  unfoldable pub read {ℓ} : {V : Type ℓ} → ℕ → ℕ → (B → V) → BlockCache B → Outcome V
  read offset size f b = assert (leb (offset + size) block_sz) >> ok (f b.cache)

  unfoldable pub modify {ℓ} :
      {V : Type ℓ} → ℕ → ℕ → (B → V × B) → BlockCache B → Outcome (V × BlockCache B)
  modify offset size f b =
      assert (leb (offset + size) block_sz)
      >> ok ((f b.cache).0, record b { modified = true; cache = (f b.cache).1 })

  -- `sync`, which `drop` calls as well.
  unfoldable pub sync : BlockCache B → BlockDevice B → BlockCache B × BlockDevice B
  sync b dev =
      if b.modified
      then (record b { modified = false }, write_block b.block_id b.cache dev)
      else (b, dev)

  -- What one holder of an `Arc` does to the block that all of them share.
  unfoldable pub change : ℕ → (BlockCache B → BlockCache B) → Queue B → Queue B
  change id f [] = []
  change id f (e ∷ es) =
      let rest = change id f es in if e.0 == id then (e.0, f e.1) ∷ es else e ∷ rest

  unfoldable pub clone : BlockCache B → BlockCache B
  clone b = record b { strong_count = b.strong_count + 1 }

  -- The end of a handle.
  unfoldable pub unclone : BlockCache B → BlockCache B
  unclone b = record b { strong_count = b.strong_count - 1 }

  unfoldable pub is_unused : ℕ × BlockCache B → Bool
  is_unused e = e.1.strong_count == 1

  unfoldable pub make_room : Queue B → BlockDevice B → Outcome (Queue B × BlockDevice B)
  make_room queue dev = elim (length queue == block_cache_size) [
    | false ↦ ok (queue, dev)
    | true ↦ elim (extract is_unused queue) [
      | none ↦ panic
      | some (e, rest) ↦ ok (rest, (sync e.1 dev).1)
    ]
  ]

  unfoldable pub get_block_cache : ℕ → Queue B → BlockDevice B → Outcome (Queue B × BlockDevice B)
  get_block_cache block_id queue dev = elim (lookup block_id queue) [
    | some b ↦ ok (change block_id clone queue, dev)
    | none ↦ make_room queue dev >>= λ (room, dev').
        ok (room ++ (block_id, clone (new block_id dev')) ∷ [], dev')
  ]

  unfoldable pub block_cache_sync_all : Queue B → BlockDevice B → Queue B × BlockDevice B
  block_cache_sync_all [] dev = ([], dev)
  block_cache_sync_all (e ∷ es) dev =
      let (b, dev1) = sync e.1 dev in
      let (rest, dev2) = block_cache_sync_all es dev1 in ((e.0, b) ∷ rest, dev2)
