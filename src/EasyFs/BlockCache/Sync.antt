-- ===== src/EasyFs/BlockCache/Sync.antt =====
-- `block_cache_sync_all` (block_cache.rs).
use tg_rcore_tutorial.Prelude.{
  ℕ, suc, ◌≡◌, refl, ap, ap₂, sym, ◌∙◌, fun_ext, subst, inl, inr, ◌==◌, Bool-cases, false, Option,
  none, some, List, [], ◌∷◌, length, arith,
}
use tg_rcore_tutorial.Prelude.Assoc.{lookup}
use tg_rcore_tutorial.EasyFs.BlockCache.{BlockCache, BlockDevice, Queue, sync, block_cache_sync_all}
use tg_rcore_tutorial.EasyFs.BlockCache.Queue.{Distinct, changed}
use tg_rcore_tutorial.EasyFs.BlockCache.Keeps.{
  cached_or, contents, IsClean, IsCounted, IsValid, sync_lem, dev-IsClean,
}

module _ {B : Type 0} where
  abbrev pub cleaned : BlockCache B → BlockCache B
  cleaned b = record b { modified = false }

  sync-cleaned : (b : BlockCache B) (dev : BlockDevice B) → (sync b dev).0 ≡ cleaned b
  unfolding sync
  sync-cleaned b dev = elim (Bool-cases b.modified) [
    | inl dirty ↦ rw dirty refl
    | inr clean ↦
        let same : (sync b dev).0 ≡ b = rw clean refl in
        same ∙ ap (λ m. record b { modified = m }) clean
  ]

  record Synced (q : Queue B) (dev : BlockDevice B) (r : Queue B × BlockDevice B) : Type 0 where
    pub found : (j : ℕ) → lookup j r.0 ≡ changed cleaned (lookup j q)
    pub size : length r.0 ≡ length q
    pub distinct : Distinct r.0
    pub device : (j : ℕ) → r.1 j ≡ contents q dev j

  Synced-step :
      (e : ℕ × BlockCache B) (es : Queue B) (dev : BlockDevice B) (r : Queue B × BlockDevice B)
      → lookup e.0 es ≡ none
      → IsClean dev e.0 (some e.1)
      → Synced es (sync e.1 dev).1 r
      → Synced (e ∷ es) dev ((e.0, (sync e.1 dev).0) ∷ r.0, r.1)
  Synced-step e es dev r fresh clean s = record {
    found = λ j. elim (Bool-cases (e.0 == j)) [
      | inl hit ↦ rw hit (ap some (sync-cleaned e.1 dev))
      | inr miss ↦ rw miss (s.found j)
    ];
    size = ap suc s.size;
    distinct = (s.found e.0 ∙ ap (changed cleaned) fresh, s.distinct);
    device = λ j. elim (Bool-cases (e.0 == j)) [
      | inl hit ↦
          let k : e.0 ≡ j = ground (arith, hit) in
          let gone : lookup j es ≡ none = sym (ap (λ i. lookup i es) k) ∙ fresh in
          rw hit (
            s.device j
            ∙ ap (λ o. cached_or o ((sync e.1 dev).1 j)) gone
            ∙ sync_lem dev e.0 e.1 clean j
            ∙ rw hit refl)
      | inr miss ↦
          let kept : (sync e.1 dev).1 j ≡ dev j = sync_lem dev e.0 e.1 clean j ∙ rw miss refl in
          rw miss (s.device j ∙ ap (cached_or (lookup j es)) kept)
    ];
  }

  tail-IsClean :
      (e : ℕ × BlockCache B) (es : Queue B) (dev : BlockDevice B)
      → lookup e.0 es ≡ none
      → ((j : ℕ) → IsClean dev j (lookup j (e ∷ es)))
      → IsClean dev e.0 (some e.1)
      → (j : ℕ) → IsClean (sync e.1 dev).1 j (lookup j es)
  tail-IsClean e es dev fresh clean here j = elim (Bool-cases (e.0 == j)) [
    | inl hit ↦
        let k : e.0 ≡ j = ground (arith, hit) in
        let gone : lookup j es ≡ none = sym (ap (λ i. lookup i es) k) ∙ fresh in
        subst (IsClean (sync e.1 dev).1 j) (sym gone) tt
    | inr miss ↦
        let kept : (sync e.1 dev).1 j ≡ dev j = sync_lem dev e.0 e.1 here j ∙ rw miss refl in
        let same : lookup j (e ∷ es) ≡ lookup j es = rw miss refl in
        dev-IsClean dev (sync e.1 dev).1 j (lookup j es) kept (subst (IsClean dev j) same (clean j))
  ]

  sync_all-Synced :
      (q : Queue B) (dev : BlockDevice B)
      → Distinct q
      → ((j : ℕ) → IsClean dev j (lookup j q))
      → Synced q dev (block_cache_sync_all q dev)
  unfolding block_cache_sync_all
  sync_all-Synced [] dev h clean = record {
    found = λ j. refl;
    size = refl;
    distinct = tt;
    device = λ j. refl;
  }
  sync_all-Synced (e ∷ es) dev (fresh, h) clean =
      let first : lookup e.0 (e ∷ es) ≡ some e.1 = ground arith in
      let here : IsClean dev e.0 (some e.1) = subst (IsClean dev e.0) first (clean e.0) in
      Synced-step e es dev (block_cache_sync_all es (sync e.1 dev).1) fresh here
        (sync_all-Synced es (sync e.1 dev).1 h (tail-IsClean e es dev fresh clean here))

  changed-IsClean :
      (dev dev' : BlockDevice B) (j : ℕ) (o : Option (BlockCache B))
      → dev' j ≡ cached_or o (dev j)
      → IsClean dev j o
      → IsClean dev' j (changed cleaned o)
  changed-IsClean dev dev' j none e h = tt
  changed-IsClean dev dev' j (some b) e (at, clean) = (at, λ same. sym e)

  changed-IsCounted :
      (held : List ℕ) (j : ℕ) (o : Option (BlockCache B))
      → IsCounted held j o
      → IsCounted held j (changed cleaned o)
  changed-IsCounted held j none h = h
  changed-IsCounted held j (some b) h = h

  cached_or-changed :
      (o : Option (BlockCache B)) (x : B)
      → cached_or (changed cleaned o) (cached_or o x) ≡ cached_or o x
  cached_or-changed none x = refl
  cached_or-changed (some b) x = refl

  -- In a valid state, `block_cache_sync_all` leaves on the device what readers of the cache saw
  -- before. They see the same afterwards, and the state is valid.
  pub block_cache_sync_all_lem :
      (held : List ℕ) (q : Queue B) (dev : BlockDevice B)
      → IsValid held q dev
      → IsValid held (block_cache_sync_all q dev).0 (block_cache_sync_all q dev).1
        × ((block_cache_sync_all q dev).1 ≡ contents q dev)
        × (contents (block_cache_sync_all q dev).0 (block_cache_sync_all q dev).1 ≡ contents q dev)
  block_cache_sync_all_lem held q dev h =
      let s = sync_all-Synced q dev h.distinct h.clean in
      let r = block_cache_sync_all q dev in
      (
        record {
          distinct = s.distinct;
          few = omega (arith, s.size, h.few);
          clean = λ j.
              subst (IsClean r.1 j) (sym (s.found j))
                (changed-IsClean dev r.1 j (lookup j q) (s.device j) (h.clean j));
          counted = λ j.
              subst (IsCounted held j) (sym (s.found j))
                (changed-IsCounted held j (lookup j q) (h.counted j));
        },
        fun_ext s.device,
        fun_ext
            (λ j. ap₂ cached_or (s.found j) (s.device j) ∙ cached_or-changed (lookup j q) (dev j)),
      )
