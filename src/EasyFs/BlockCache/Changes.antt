-- ===== src/EasyFs/BlockCache/Changes.antt =====
-- A change of a cached block, and a block that is loaded (block_cache.rs).
use tg_rcore_tutorial.Prelude.{
  ℕ, ◌+◌, ◌<◌, ◌≡◌, refl, ap, sym, ◌∙◌, subst, inl, inr, ◌==◌, if◌then◌else◌, Bool-cases, true,
  false, Option, none, some, List, [], ◌∷◌, ◌++◌, length, length-append, arith, count,
}
use tg_rcore_tutorial.Prelude.Assoc.{lookup}
use tg_rcore_tutorial.EasyFs.BlockCache.{BlockCache, BlockDevice, Queue, new, change, clone}
use tg_rcore_tutorial.EasyFs.BlockCache.Queue.{
  changed, or_else, lookup-change, length-change, change-Distinct, lookup-append, append-Distinct,
}
use tg_rcore_tutorial.EasyFs.BlockCache.Keeps.{cached_or, contents, IsClean, IsCounted, IsValid}

module _ {B : Type 0} where
  count-IsCounted :
      (held held' : List ℕ) (j : ℕ) (o : Option (BlockCache B))
      → count j held' ≡ count j held
      → IsCounted held j o
      → IsCounted held' j o
  count-IsCounted held held' j none e h = e ∙ h
  count-IsCounted held held' j (some b) e h = omega (arith, e, h)

  -- A change of the block under `id`, by one of its handles.
  module _ (id : ℕ) (f : BlockCache B → BlockCache B) (held held' : List ℕ) (q : Queue B)
      (dev : BlockDevice B) (b : BlockCache B) (h : IsValid held q dev)
      (at : lookup id q ≡ some b) where
    here : (j : ℕ) → (id == j) ≡ true → lookup j (change id f q) ≡ some (f b)
    here j hit =
        let k : id ≡ j = ground (arith, hit) in
        lookup-change id j f q ∙ rw hit (ap (changed f) (sym (ap (λ i. lookup i q) k) ∙ at))

    there : (j : ℕ) → (id == j) ≡ false → lookup j (change id f q) ≡ lookup j q
    there j miss = lookup-change id j f q ∙ rw miss refl

    pub change-IsValid :
        IsClean dev id (some (f b))
        → IsCounted held' id (some (f b))
        → ((j : ℕ) → (id == j) ≡ false → count j held' ≡ count j held)
        → IsValid held' (change id f q) dev
    change-IsValid clean_b counted_b others = record {
      distinct = change-Distinct id f q h.distinct;
      few = omega (arith, h.few, length-change id f q);
      clean = λ j. elim (Bool-cases (id == j)) [
        | inl hit ↦
            let k : id ≡ j = ground (arith, hit) in
            subst (IsClean dev j) (sym (here j hit))
              (subst (λ i. IsClean dev i (some (f b))) k clean_b)
        | inr miss ↦ subst (IsClean dev j) (sym (there j miss)) (h.clean j)
      ];
      counted = λ j. elim (Bool-cases (id == j)) [
        | inl hit ↦
            let k : id ≡ j = ground (arith, hit) in
            subst (IsCounted held' j) (sym (here j hit))
              (subst (λ i. IsCounted held' i (some (f b))) k counted_b)
        | inr miss ↦
            subst (IsCounted held' j) (sym (there j miss))
              (count-IsCounted held held' j (lookup j q) (others j miss) (h.counted j))
      ];
    }

    pub contents-change :
        (j : ℕ)
        → contents (change id f q) dev j ≡ (if id == j then (f b).cache else contents q dev j)
    contents-change j = elim (Bool-cases (id == j)) [
      | inl hit ↦ rw hit (ap (λ o. cached_or o (dev j)) (here j hit))
      | inr miss ↦ rw miss (ap (λ o. cached_or o (dev j)) (there j miss))
    ]

    pub contents-kept :
        (f b).cache ≡ b.cache → (j : ℕ) → contents (change id f q) dev j ≡ contents q dev j
    contents-kept same j = elim (Bool-cases (id == j)) [
      | inl hit ↦
          let k : id ≡ j = ground (arith, hit) in
          let old : lookup j q ≡ some b = sym (ap (λ i. lookup i q) k) ∙ at in
          ap (λ o. cached_or o (dev j)) (here j hit)
          ∙ same
          ∙ sym (ap (λ o. cached_or o (dev j)) old)
      | inr miss ↦ ap (λ o. cached_or o (dev j)) (there j miss)
    ]

  or_else-none : (o : Option (BlockCache B)) → or_else o none ≡ o
  or_else-none none = refl
  or_else-none (some b) = refl

  -- A block is loaded that is not in the cache.
  module _ (id : ℕ) (held : List ℕ) (q : Queue B) (dev : BlockDevice B) (h : IsValid held q dev)
      (absent : lookup id q ≡ none) where
    abbrev loaded : Queue B
    loaded = q ++ (id, clone (new id dev)) ∷ []

    found : (j : ℕ) → (id == j) ≡ true → lookup j loaded ≡ some (clone (new id dev))
    found j hit =
        let k : id ≡ j = ground (arith, hit) in
        let gone : lookup j q ≡ none = sym (ap (λ i. lookup i q) k) ∙ absent in
        lookup-append j id (clone (new id dev)) q ∙ rw (gone, hit) refl

    other : (j : ℕ) → (id == j) ≡ false → lookup j loaded ≡ lookup j q
    other j miss = lookup-append j id (clone (new id dev)) q ∙ rw miss (or_else-none (lookup j q))

    pub loaded-IsValid : length q < 16 → IsValid (id ∷ held) loaded dev
    unfolding new clone
    loaded-IsValid small = record {
      distinct = append-Distinct id (clone (new id dev)) q absent h.distinct;
      few = omega (arith, small, length-append q ((id, clone (new id dev)) ∷ []));
      clean = λ j. elim (Bool-cases (id == j)) [
        | inl hit ↦
            let k : id ≡ j = ground (arith, hit) in
            subst (IsClean dev j) (sym (found j hit)) (k, λ same. ap dev k)
        | inr miss ↦ subst (IsClean dev j) (sym (other j miss)) (h.clean j)
      ];
      counted = λ j. elim (Bool-cases (id == j)) [
        | inl hit ↦
            let zero_held : count id held ≡ 0 = subst (IsCounted held id) absent (h.counted id) in
            let k : id ≡ j = ground (arith, hit) in
            subst (IsCounted (id ∷ held) j) (sym (found j hit))
              (subst (λ i. 2 ≡ 1 + count i (id ∷ held)) k (ground (arith, zero_held)))
        | inr miss ↦
            subst (IsCounted (id ∷ held) j) (sym (other j miss))
              (count-IsCounted held (id ∷ held) j (lookup j q) (ground (arith, miss)) (h.counted j))
      ];
    }

    pub contents-loaded : (j : ℕ) → contents loaded dev j ≡ contents q dev j
    unfolding new clone
    contents-loaded j = elim (Bool-cases (id == j)) [
      | inl hit ↦
          let k : id ≡ j = ground (arith, hit) in
          let gone : lookup j q ≡ none = sym (ap (λ i. lookup i q) k) ∙ absent in
          ap (λ o. cached_or o (dev j)) (found j hit)
          ∙ ap dev k
          ∙ sym (ap (λ o. cached_or o (dev j)) gone)
      | inr miss ↦ ap (λ o. cached_or o (dev j)) (other j miss)
    ]
