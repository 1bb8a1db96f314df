-- ===== src/EasyFs/BlockCache/Queue.antt =====
-- Lookups in the queue of cached blocks (block_cache.rs).
use tg_rcore_tutorial.Prelude.{
  ℕ, ◌+◌, ◌<◌, ◌≤◌, ◌≡◌, refl, ap, ap₂, sym, ◌∙◌, ◌⊎◌, inl, inr, ◌==◌, if◌then◌else◌, Bool,
  Bool-cases, true, false, Option, none, some, List, [], ◌∷◌, ◌++◌, length, extract, arith,
  some-injective, count, erase, count-erase, length-erase,
}
use tg_rcore_tutorial.Prelude.Assoc.{lookup}
use tg_rcore_tutorial.EasyFs.BlockCache.{BlockCache, Queue, change}

pub some-ne {ℓ} : {A : Type ℓ} {a : A} → some a ≡ none → ⊥
some-ne e = cc

module _ {B : Type 0} where
  -- No block is cached twice.
  abbrev pub Distinct : Queue B → Type 0
  Distinct [] = Unit
  Distinct (e ∷ es) = (lookup e.0 es ≡ none) × Distinct es

  abbrev pub changed : (BlockCache B → BlockCache B) → Option (BlockCache B) → Option (BlockCache B)
  changed f none = none
  changed f (some b) = some (f b)

  pub lookup-change :
      (id j : ℕ) (f : BlockCache B → BlockCache B) (q : Queue B)
      → lookup j (change id f q) ≡ (if id == j then changed f (lookup j q) else lookup j q)
  unfolding change
  lookup-change id j f [] = ground arith
  lookup-change id j f (e ∷ es) = ground (arith, lookup-change id j f es)

  pub length-change :
      (id : ℕ) (f : BlockCache B → BlockCache B) (q : Queue B) → length (change id f q) ≡ length q
  unfolding change
  length-change id f [] = refl
  length-change id f (e ∷ es) = ground (arith, length-change id f es)

  pub change-Distinct :
      (id : ℕ) (f : BlockCache B → BlockCache B) (q : Queue B)
      → Distinct q
      → Distinct (change id f q)
  unfolding change
  change-Distinct id f [] h = tt
  change-Distinct id f (e ∷ es) (fresh, h) = elim (Bool-cases (e.0 == id)) [
    | inl hit ↦ rw hit (fresh, h)
    | inr miss ↦
        let other : (id == e.0) ≡ false = ground (arith, miss) in
        rw miss (lookup-change id e.0 f es ∙ rw other fresh, change-Distinct id f es h)
  ]

  abbrev pub or_else : Option (BlockCache B) → Option (BlockCache B) → Option (BlockCache B)
  or_else none o = o
  or_else (some b) o = some b

  pub lookup-append :
      (j id : ℕ) (b : BlockCache B) (q : Queue B)
      → lookup j (q ++ (id, b) ∷ []) ≡ or_else (lookup j q) (if id == j then some b else none)
  lookup-append j id b [] = ground arith
  lookup-append j id b (e ∷ es) = ground (arith, lookup-append j id b es)

  pub append-Distinct :
      (id : ℕ) (b : BlockCache B) (q : Queue B)
      → lookup id q ≡ none
      → Distinct q
      → Distinct (q ++ (id, b) ∷ [])
  append-Distinct id b [] miss h = (refl, tt)
  append-Distinct id b (e ∷ es) miss (fresh, h) =
      let other : (id == e.0) ≡ false = ground (arith, miss) in
      (
        lookup-append e.0 id b es ∙ rw (fresh, other) refl,
        append-Distinct id b es (ground (arith, miss)) h,
      )

  head_hit :
      (e : ℕ × BlockCache B) (es : Queue B) (id : ℕ) (b : BlockCache B)
      → lookup id (e ∷ es) ≡ some b
      → ((e.0 ≡ id) × (e.1 ≡ b)) ⊎ (((e.0 == id) ≡ false) × (lookup id es ≡ some b))
  head_hit e es id b hit = elim (Bool-cases (e.0 == id)) [
    | inl same ↦ inl (ground (arith, same), some-injective (ground (arith, same, hit)))
    | inr other ↦ inr (other, ground (arith, other, hit))
  ]

  -- The first entry that passes a test leaves the queue.
  pub extract_lem :
      (p : ℕ × BlockCache B → Bool) (q : Queue B)
      → Distinct q
      → ((extract p q ≡ none)
          × ((id : ℕ) (b : BlockCache B) → lookup id q ≡ some b → p (id, b) ≡ false))
        ⊎ ((e : ℕ × BlockCache B) × (rest : Queue B) × (extract p q ≡ some (e, rest))
            × (p e ≡ true)
            × (lookup e.0 q ≡ some e.1)
            × ((j : ℕ) → lookup j rest ≡ (if e.0 == j then none else lookup j q))
            × (length rest + 1 ≡ length q)
            × Distinct rest)
  extract_lem p [] h = inl (refl, λ id b hit. cc)
  extract_lem p (e ∷ es) (fresh, h) = elim (Bool-cases (p e)) [
    | inl yes_e ↦ inr (
      e,
      es,
      rw yes_e refl,
      yes_e,
      ground arith,
      λ j. elim (Bool-cases (e.0 == j)) [
        | inl same ↦
            let id : j ≡ e.0 = ground (arith, same) in rw same (ap (λ k. lookup k es) id ∙ fresh)
        | inr other ↦ rw other refl
      ],
      omega arith,
      h,
    )
    | inr no_e ↦ elim (extract_lem p es h) [
      | inl (none_left, all) ↦ inl (
        rw (no_e, none_left) refl,
        λ id b hit. elim (head_hit e es id b hit) [
          | inl (k, c) ↦ sym (ap₂ (λ i d. p (i, d)) k c) ∙ no_e
          | inr (other, later) ↦ all id b later
        ],
      )
      | inr (x, rest, found, yes_x, at, others, size, fine) ↦
          let apart : (e.0 == x.0) ≡ false = elim (Bool-cases (e.0 == x.0)) [
            | inl same ↦
                let k : x.0 ≡ e.0 = ground (arith, same) in
                absurd (some-ne (sym at ∙ ap (λ i. lookup i es) k ∙ fresh))
            | inr other ↦ other
          ] in
          inr (
            x,
            e ∷ rest,
            rw (no_e, found) refl,
            yes_x,
            rw apart at,
            λ j. elim (Bool-cases (e.0 == j)) [
              | inl same ↦
                  let far : (x.0 == j) ≡ false = ground (arith, same, apart) in rw (same, far) refl
              | inr other ↦ rw other (others j)
            ],
            omega (arith, size),
            (others e.0 ∙ ground (arith, apart, fresh), fine),
          )
    ]
  ]

  -- Distinct blocks that are all held are no more than the handles.
  pub length-le_held :
      (q : Queue B) (held : List ℕ)
      → Distinct q
      → ((id : ℕ) (b : BlockCache B) → lookup id q ≡ some b → 0 < count id held)
      → length q ≤ length held
  length-le_held [] held h all = omega arith
  length-le_held (e ∷ es) held (fresh, h) all =
      let here : 0 < count e.0 held = all e.0 e.1 (ground arith) in
      let rest = length-le_held es (erase e.0 held) h (λ id b hit.
        let apart : (e.0 == id) ≡ false = elim (Bool-cases (e.0 == id)) [
          | inl same ↦
              let k : id ≡ e.0 = ground (arith, same) in
              absurd (some-ne (sym hit ∙ ap (λ i. lookup i es) k ∙ fresh))
          | inr other ↦ other
        ] in
        ground (arith, apart, count-erase id e.0 held, all id b (rw apart hit))) in
      omega (arith, rest, here, length-erase e.0 held here)
