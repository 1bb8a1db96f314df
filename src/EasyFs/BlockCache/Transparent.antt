-- ===== src/EasyFs/BlockCache/Transparent.antt =====
-- Runs of the cache (block_cache.rs) against the device alone.
use tg_rcore_tutorial.Prelude.{
  ℕ, ◌+◌, ◌<◌, ◌≡◌, refl, ap, sym, subst, ◌⊎◌, inl, inr, leb, Bool, Bool-cases, true, false, some,
  List, [], ◌∷◌, length, erase, contains, Outcome, ok, panic, ◌>>=◌, ◌>>◌, assert, unwrap,
}
use tg_rcore_tutorial.Prelude.Assoc.{lookup}
use tg_rcore_tutorial.EasyFs.BlockCache.{
  BlockCache, BlockDevice, Queue, block_sz, write_block, read, modify, change, unclone,
  get_block_cache, block_cache_sync_all,
}
use tg_rcore_tutorial.EasyFs.BlockCache.Keeps.{contents, IsValid, cached_or}
use tg_rcore_tutorial.EasyFs.BlockCache.Sync.{block_cache_sync_all_lem}
use tg_rcore_tutorial.EasyFs.BlockCache.Handles.{
  get_block_cache_lem, held_entry, unclone_lem, put, put_lem,
}

-- What a client does: it gets a handle, looks at its block or changes it at an offset, gives it back,
-- or writes all blocks back.
pub data Call (B V : Type 0) : Type 0 where
  get : ℕ → Call B V
  look : ℕ → ℕ → ℕ → (B → V) → Call B V
  alter : ℕ → ℕ → ℕ → (B → V × B) → Call B V
  give_back : ℕ → Call B V
  sync_all : Call B V

module _ {B V : Type 0} where
  -- A handle without a block in the queue would panic here.
  unfoldable pub run :
      List (Call B V) → Queue B → BlockDevice B → Outcome (List V × Queue B × BlockDevice B)
  run [] q dev = ok ([], q, dev)
  run (get id ∷ calls) q dev = get_block_cache id q dev >>= λ (q', dev'). run calls q' dev'
  run (look id offset size f ∷ calls) q dev = do
    b ← unwrap (lookup id q)
    v ← read offset size f b
    (vs, q', dev') ← run calls q dev
    ok (v ∷ vs, q', dev')
  run (alter id offset size f ∷ calls) q dev = do
    b ← unwrap (lookup id q)
    (v, b') ← modify offset size f b
    (vs, q', dev') ← run calls (change id (λ _. b') q) dev
    ok (v ∷ vs, q', dev')
  run (give_back id ∷ calls) q dev = run calls (change id unclone q) dev
  run (sync_all ∷ calls) q dev = let (q', dev') = block_cache_sync_all q dev in run calls q' dev'

  -- The same calls without a cache.
  unfoldable pub run_direct : List (Call B V) → BlockDevice B → Outcome (List V × BlockDevice B)
  run_direct [] dev = ok ([], dev)
  run_direct (get id ∷ calls) dev = run_direct calls dev
  run_direct (look id offset size f ∷ calls) dev =
      assert (leb (offset + size) block_sz)
      >> (run_direct calls dev >>= λ (vs, dev'). ok (f (dev id) ∷ vs, dev'))
  run_direct (alter id offset size f ∷ calls) dev =
      assert (leb (offset + size) block_sz)
      >> (run_direct calls (write_block id (f (dev id)).1 dev) >>= λ (vs, dev').
          ok ((f (dev id)).0 ∷ vs, dev'))
  run_direct (give_back id ∷ calls) dev = run_direct calls dev
  run_direct (sync_all ∷ calls) dev = run_direct calls dev

  -- Only handles that are held are used, and at most 16 are at a time.
  abbrev pub Uses : List ℕ → List (Call B V) → Type 0
  Uses held [] = Unit
  Uses held (get id ∷ calls) = (length held < 16) × Uses (id ∷ held) calls
  Uses held (look id offset size f ∷ calls) = (contains held id ≡ true) × Uses held calls
  Uses held (alter id offset size f ∷ calls) = (contains held id ≡ true) × Uses held calls
  Uses held (give_back id ∷ calls) = (contains held id ≡ true) × Uses (erase id held) calls
  Uses held (sync_all ∷ calls) = Uses held calls

  -- Both panic, or both give the same, and the cache with its device then holds the same blocks.
  abbrev pub Agree :
      Outcome (List V × BlockDevice B) → Outcome (List V × Queue B × BlockDevice B) → Type 0
  Agree direct cached =
      ((direct ≡ panic) × (cached ≡ panic))
      ⊎ ((vs : List V) × (held : List ℕ) × (q : Queue B) × (dev : BlockDevice B) × (direct
            ≡ ok (vs, contents q dev))
          × (cached ≡ ok (vs, q, dev))
          × IsValid held q dev)

  -- An access at an offset that does not fit panics; one that fits gives the value and goes on.
  Agree-step :
      (fits : Bool) (v : V) (direct : Outcome (List V × BlockDevice B))
      (cached : Outcome (List V × Queue B × BlockDevice B))
      → Agree direct cached
      → Agree
          (assert fits >> (direct >>= λ (vs, dev). ok (v ∷ vs, dev)))
          (assert fits >> (cached >>= λ (vs, q, dev). ok (v ∷ vs, q, dev)))
  Agree-step false v direct cached h = inl (refl, refl)
  Agree-step true v direct cached (inl (a, b)) = inl (rw a refl, rw b refl)
  Agree-step true v direct cached (inr (vs, held, q, dev, a, b, fine)) =
      inr (v ∷ vs, held, q, dev, rw a refl, rw b refl, fine)

  look-run :
      (id offset size : ℕ) (f : B → V) (calls : List (Call B V)) (q : Queue B) (dev : BlockDevice B)
      (b : BlockCache B)
      → lookup id q ≡ some b
      → run (look id offset size f ∷ calls) q dev ≡ (
          assert (leb (offset + size) block_sz)
          >> (run calls q dev >>= λ (vs, q', dev'). ok (f b.cache ∷ vs, q', dev')))
  unfolding run read
  look-run id offset size f calls q dev b hit = elim (Bool-cases (leb (offset + size) block_sz)) [
    | inl fits ↦ rw (hit, fits) refl
    | inr over ↦ rw (hit, over) refl
  ]

  alter-run :
      (id offset size : ℕ) (f : B → V × B) (calls : List (Call B V)) (q : Queue B)
      (dev : BlockDevice B) (b : BlockCache B)
      → lookup id q ≡ some b
      → run (alter id offset size f ∷ calls) q dev ≡ (
          assert (leb (offset + size) block_sz)
          >> (run calls (change id (λ _. put (f b.cache).1 b) q) dev >>= λ (vs, q', dev').
              ok ((f b.cache).0 ∷ vs, q', dev')))
  unfolding run modify
  alter-run id offset size f calls q dev b hit = elim (Bool-cases (leb (offset + size) block_sz)) [
    | inl fits ↦ rw (hit, fits) refl
    | inr over ↦ rw (hit, over) refl
  ]

  -- A client uses handles as long as it holds them, and gets one only while it holds fewer than
  -- 16. Its calls through the cache panic exactly where they do on the device alone, at an access
  -- that does not fit the block, and else give the same values. The blocks that are read
  -- afterwards through the cache are those of the device alone, and the cache keeps its
  -- invariant.
  pub run_lem :
      (calls : List (Call B V)) (held : List ℕ) (q : Queue B) (dev : BlockDevice B)
      → IsValid held q dev
      → Uses held calls
      → Agree (run_direct calls (contents q dev)) (run calls q dev)
  unfolding run run_direct
  run_lem [] held q dev h uses = inr ([], held, q, dev, refl, refl, h)
  run_lem (get id ∷ calls) held q dev h (few, uses) =
      let (q', dev', made, fine, same) = get_block_cache_lem id held q dev h few in
      rw (made, sym same) (run_lem calls (id ∷ held) q' dev' fine uses)
  run_lem (look id offset size f ∷ calls) held q dev h (holds, uses) =
      let (b, hit, refs, clean) = held_entry id held q dev h holds in
      let fits = leb (offset + size) block_sz in
      let blocks = contents q dev in
      let seen : blocks id ≡ b.cache = ap (λ o. cached_or o (dev id)) hit in
      let rest = run_lem calls held q dev h uses in
      subst
        (λ x.
          Agree (assert fits >> (run_direct calls blocks >>= λ (vs, dev'). ok (f x ∷ vs, dev')))
            (run (look id offset size f ∷ calls) q dev))
        (sym seen)
        (subst
          (Agree
            (assert fits >> (run_direct calls blocks >>= λ (vs, dev'). ok (f b.cache ∷ vs, dev'))))
          (sym (look-run id offset size f calls q dev b hit))
          (Agree-step fits (f b.cache) (run_direct calls blocks) (run calls q dev) rest))
  run_lem (alter id offset size f ∷ calls) held q dev h (holds, uses) =
      let (b, hit, refs, clean) = held_entry id held q dev h holds in
      let fits = leb (offset + size) block_sz in
      let blocks = contents q dev in
      let seen : blocks id ≡ b.cache = ap (λ o. cached_or o (dev id)) hit in
      let q' = change id (λ _. put (f b.cache).1 b) q in
      let (fine, same) = put_lem id (f b.cache).1 held q dev b h hit in
      let rest : Agree (run_direct calls (write_block id (f b.cache).1 blocks)) (run calls q' dev) =
        subst (λ c. Agree (run_direct calls c) (run calls q' dev)) same
          (run_lem calls held q' dev fine uses) in
      subst
        (λ x.
          Agree
            (assert fits
              >> (run_direct calls (write_block id (f x).1 blocks) >>= λ (vs, dev').
                  ok ((f x).0 ∷ vs, dev')))
            (run (alter id offset size f ∷ calls) q dev))
        (sym seen)
        (subst
          (Agree (
            assert fits
            >> (run_direct calls (write_block id (f b.cache).1 blocks) >>= λ (vs, dev').
                ok ((f b.cache).0 ∷ vs, dev'))))
          (sym (alter-run id offset size f calls q dev b hit))
          (Agree-step fits (f b.cache).0 (run_direct calls (write_block id (f b.cache).1 blocks))
            (run calls q' dev) rest))
  run_lem (give_back id ∷ calls) held q dev h (holds, uses) =
      let (fine, same) = unclone_lem id held q dev h holds in
      subst (λ blocks. Agree (run_direct calls blocks) (run calls (change id unclone q) dev)) same
        (run_lem calls (erase id held) (change id unclone q) dev fine uses)
  run_lem (sync_all ∷ calls) held q dev h uses =
      let (fine, device, same) = block_cache_sync_all_lem held q dev h in
      let (q', dev') = block_cache_sync_all q dev in
      subst (λ blocks. Agree (run_direct calls blocks) (run calls q' dev')) same
        (run_lem calls held q' dev' fine uses)
