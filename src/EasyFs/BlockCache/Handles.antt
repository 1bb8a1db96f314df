-- ===== src/EasyFs/BlockCache/Handles.antt =====
-- A handle is given, used and given back (block_cache.rs).
use tg_rcore_tutorial.Prelude.{
  ℕ, ◌+◌, ◌<◌, ◌≡◌, refl, ◌∙◌, fun_ext, subst, inl, inr, true, some, Option-cases, List, [], ◌∷◌,
  ◌++◌, length, arith, count, erase, count-erase, contains, contains-count, ok,
}
use tg_rcore_tutorial.Prelude.Assoc.{lookup}
use tg_rcore_tutorial.EasyFs.BlockCache.{
  BlockCache, BlockDevice, Queue, write_block, new, change, clone, unclone, get_block_cache,
}
use tg_rcore_tutorial.EasyFs.BlockCache.Keeps.{contents, IsClean, IsCounted, IsValid, make_room_lem}
use tg_rcore_tutorial.EasyFs.BlockCache.Changes.{
  change-IsValid, contents-change, contents-kept, loaded-IsValid, contents-loaded,
}

module _ {B : Type 0} where
  -- `get_block_cache` gives a handle, and changes nothing that readers see.
  pub get_block_cache_lem :
      (id : ℕ) (held : List ℕ) (q : Queue B) (dev : BlockDevice B)
      → IsValid held q dev
      → length held < 16
      → (q' : Queue B) × (dev' : BlockDevice B) × (get_block_cache id q dev ≡ ok (q', dev'))
        × IsValid (id ∷ held) q' dev'
        × (contents q' dev' ≡ contents q dev)
  unfolding get_block_cache clone
  get_block_cache_lem id held q dev h few = elim (Option-cases (lookup id q)) [
    | inr (b, hit) ↦
        let refs : b.strong_count ≡ 1 + count id held =
          subst (IsCounted held id) hit (h.counted id) in
        (
          change id clone q,
          dev,
          rw (hit, get_block_cache) refl,
          change-IsValid id clone held (id ∷ held) q dev b h hit
              (subst (IsClean dev id) hit (h.clean id)) (ground (arith, refs))
              (λ j miss. ground (arith, miss)),
          fun_ext (contents-kept id clone held held q dev b h hit refl),
        )
    | inl miss ↦
        let (room, dev', made, small, fine, absent, same) = make_room_lem held q dev h few in
        (
          room ++ (id, clone (new id dev')) ∷ [],
          dev',
          rw (miss, made, get_block_cache) refl,
          loaded-IsValid id held room dev' fine (absent id miss) small,
          fun_ext (contents-loaded id held room dev' fine (absent id miss)) ∙ same,
        )
  ]

  pub held_entry :
      (id : ℕ) (held : List ℕ) (q : Queue B) (dev : BlockDevice B)
      → IsValid held q dev
      → contains held id ≡ true
      → (b : BlockCache B) × (lookup id q ≡ some b)
        × (b.strong_count ≡ 1 + count id held)
        × IsClean dev id (some b)
  held_entry id held q dev h holds = elim (Option-cases (lookup id q)) [
    | inl miss ↦
        let none_held : count id held ≡ 0 = subst (IsCounted held id) miss (h.counted id) in
        absurd (ground (arith, holds, none_held, contains-count held id))
    | inr (b, hit) ↦ (
      b,
      hit,
      subst (IsCounted held id) hit (h.counted id),
      subst (IsClean dev id) hit (h.clean id),
    )
  ]

  pub unclone_lem :
      (id : ℕ) (held : List ℕ) (q : Queue B) (dev : BlockDevice B)
      → IsValid held q dev
      → contains held id ≡ true
      → IsValid (erase id held) (change id unclone q) dev
        × (contents (change id unclone q) dev ≡ contents q dev)
  unfolding unclone
  unclone_lem id held q dev h holds =
      let (b, hit, refs, clean) = held_entry id held q dev h holds in
      let some_held : 0 < count id held = ground (arith, holds, contains-count held id) in
      (
        change-IsValid id unclone held (erase id held) q dev b h hit clean
            (ground (arith, refs, some_held, count-erase id id held))
            (λ j miss. ground (arith, miss, count-erase j id held)),
        fun_ext (contents-kept id unclone held held q dev b h hit refl),
      )

  -- What `modify` leaves.
  abbrev pub put : B → BlockCache B → BlockCache B
  put block b = record b { modified = true; cache = block }

  pub put_lem :
      (id : ℕ) (block : B) (held : List ℕ) (q : Queue B) (dev : BlockDevice B) (b : BlockCache B)
      → IsValid held q dev
      → lookup id q ≡ some b
      → IsValid held (change id (λ _. put block b) q) dev
        × (contents (change id (λ _. put block b) q) dev ≡ write_block id block (contents q dev))
  unfolding write_block
  put_lem id block held q dev b h hit =
      let (at, clean) : IsClean dev id (some b) = subst (IsClean dev id) hit (h.clean id) in
      (
        change-IsValid id (λ _. put block b) held held q dev b h hit (at, λ dirty. cc)
            (subst (IsCounted held id) hit (h.counted id)) (λ j miss. refl),
        fun_ext (contents-change id (λ _. put block b) held held q dev b h hit),
      )
