-- ===== src/EasyFs/BlockCache/Keeps.antt =====
-- What the cache and the device hold together, and that the operations of block_cache.rs keep it.
use tg_rcore_tutorial.Prelude.{
  ℕ, ◌+◌, ◌<◌, ◌≤◌, ◌≡◌, refl, ap, ap₂, sym, ◌∙◌, fun_ext, subst, inl, inr, ◌==◌, if◌then◌else◌,
  Bool-cases, false, Option, none, some, List, [], length, arith, count, ok,
}
use tg_rcore_tutorial.Prelude.Assoc.{lookup}
use tg_rcore_tutorial.EasyFs.BlockCache.{
  BlockCache, BlockDevice, Queue, write_block, sync, is_unused, make_room,
}
use tg_rcore_tutorial.EasyFs.BlockCache.Queue.{Distinct, extract_lem, length-le_held}

module _ {B : Type 0} where
  -- The block with an id, as its readers see it.
  abbrev pub cached_or : Option (BlockCache B) → B → B
  cached_or none x = x
  cached_or (some b) x = b.cache

  abbrev pub contents : Queue B → BlockDevice B → BlockDevice B
  contents q dev j = cached_or (lookup j q) (dev j)

  -- What the queue has under `id`. A block that is not modified is as on the device.
  abbrev pub IsClean : BlockDevice B → ℕ → Option (BlockCache B) → Type 0
  IsClean dev id none = Unit
  IsClean dev id (some b) = (b.block_id ≡ id) × (b.modified ≡ false → b.cache ≡ dev id)

  -- One reference is the queue's, the others are the handles.
  abbrev pub IsCounted : List ℕ → ℕ → Option (BlockCache B) → Type 0
  IsCounted held id none = count id held ≡ 0
  IsCounted held id (some b) = b.strong_count ≡ 1 + count id held

  pub record IsValid (held : List ℕ) (q : Queue B) (dev : BlockDevice B) : Type 0 where
    pub distinct : Distinct q
    pub few : length q ≤ 16
    pub clean : (id : ℕ) → IsClean dev id (lookup id q)
    pub counted : (id : ℕ) → IsCounted held id (lookup id q)

  pub empty-IsValid : (dev : BlockDevice B) → IsValid [] [] dev
  empty-IsValid dev = record {
    distinct = tt;
    few = omega arith;
    clean = λ id. tt;
    counted = λ id. refl;
  }

  -- A block that is written back.
  pub sync_lem :
      (dev : BlockDevice B) (id : ℕ) (b : BlockCache B)
      → IsClean dev id (some b)
      → (j : ℕ) → (sync b dev).1 j ≡ (if id == j then b.cache else dev j)
  unfolding sync write_block
  sync_lem dev id b (at, clean) j = elim (Bool-cases b.modified) [
    | inl dirty ↦ rw (dirty, at) refl
    | inr same ↦ elim (Bool-cases (id == j)) [
      | inl hit ↦
          let k : id ≡ j = ground (arith, hit) in rw (same, hit) (sym (clean same ∙ ap dev k))
      | inr miss ↦ rw (same, miss) refl
    ]
  ]

  pub dev-IsClean :
      (dev dev' : BlockDevice B) (j : ℕ) (o : Option (BlockCache B))
      → dev' j ≡ dev j
      → IsClean dev j o
      → IsClean dev' j o
  dev-IsClean dev dev' j none e h = tt
  dev-IsClean dev dev' j (some b) e (at, clean) = (at, λ same. clean same ∙ sym e)

  module _ (held : List ℕ) (q rest : Queue B) (dev : BlockDevice B) (x : ℕ × BlockCache B)
      (h : IsValid held q dev) (at : lookup x.0 q ≡ some x.1)
      (others : (j : ℕ) → lookup j rest ≡ (if x.0 == j then none else lookup j q)) where
    abbrev written : BlockDevice B
    written = (sync x.1 dev).1

    written-eq : (j : ℕ) → written j ≡ (if x.0 == j then x.1.cache else dev j)
    written-eq = sync_lem dev x.0 x.1 (subst (IsClean dev x.0) at (h.clean x.0))

    evict-IsClean : (j : ℕ) → IsClean written j (lookup j rest)
    evict-IsClean j = elim (Bool-cases (x.0 == j)) [
      | inl hit ↦ rw (others j, hit) tt
      | inr miss ↦
          rw (others j, miss)
            (dev-IsClean dev written j (lookup j q) (written-eq j ∙ rw miss refl) (h.clean j))
    ]

    evict-IsCounted : x.1.strong_count ≡ 1 → (j : ℕ) → IsCounted held j (lookup j rest)
    evict-IsCounted unused j = elim (Bool-cases (x.0 == j)) [
      | inl hit ↦
          let refs : x.1.strong_count ≡ 1 + count x.0 held =
            subst (IsCounted held x.0) at (h.counted x.0) in
          let k : x.0 ≡ j = ground (arith, hit) in
          rw (others j, hit) (sym (ap (λ i. count i held) k) ∙ omega (arith, refs, unused))
      | inr miss ↦ rw (others j, miss) (h.counted j)
    ]

    evict-contents : (j : ℕ) → contents rest written j ≡ contents q dev j
    evict-contents j = elim (Bool-cases (x.0 == j)) [
      | inl hit ↦
          let k : x.0 ≡ j = ground (arith, hit) in
          let there : lookup j q ≡ some x.1 = sym (ap (λ i. lookup i q) k) ∙ at in
          let gone : lookup j rest ≡ none = others j ∙ rw hit refl in
          let kept : written j ≡ x.1.cache = written-eq j ∙ rw hit refl in
          ap (λ o. cached_or o (written j)) gone ∙ kept ∙ sym (ap (λ o. cached_or o (dev j)) there)
      | inr miss ↦
          let same : lookup j rest ≡ lookup j q = others j ∙ rw miss refl in
          let kept : written j ≡ dev j = written-eq j ∙ rw miss refl in ap₂ cached_or same kept
    ]

  -- `make_room`, where fewer than 16 handles are held.
  pub make_room_lem :
      (held : List ℕ) (q : Queue B) (dev : BlockDevice B)
      → IsValid held q dev
      → length held < 16
      → (q' : Queue B) × (dev' : BlockDevice B) × (make_room q dev ≡ ok (q', dev'))
        × (length q' < 16)
        × IsValid held q' dev'
        × ((id : ℕ) → lookup id q ≡ none → lookup id q' ≡ none)
        × (contents q' dev' ≡ contents q dev)
  unfolding make_room is_unused
  make_room_lem held q dev h few = elim (Bool-cases (length q == 16)) [
    | inr room ↦
        (q, dev, rw (room, make_room) refl, ground (arith, room, h.few), h, λ id e. e, refl)
    | inl full ↦ elim (extract_lem is_unused q h.distinct) [
      | inl (none_left, all) ↦
          let size = length-le_held q held h.distinct (λ id b hit.
            let refs : b.strong_count ≡ 1 + count id held =
              subst (IsCounted held id) hit (h.counted id) in
            ground (arith, refs, all id b hit)) in
          absurd (ground (arith, full, few, size))
      | inr (x, rest, found, unused, at, others, size, fine) ↦ (
        rest,
        (sync x.1 dev).1,
        rw (full, found, make_room) refl,
        ground (arith, full, size),
        record {
          distinct = fine;
          few = ground (arith, full, size);
          clean = evict-IsClean held q rest dev x h at others;
          counted = evict-IsCounted held q rest dev x h at others (ground (arith, unused));
        },
        λ id e. elim (Bool-cases (x.0 == id)) [
          | inl hit ↦ others id ∙ rw hit refl
          | inr miss ↦ others id ∙ rw miss e
        ],
        fun_ext (evict-contents held q rest dev x h at others),
      )
    ]
  ]
