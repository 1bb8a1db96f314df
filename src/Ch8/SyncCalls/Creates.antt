-- ===== src/Ch8/SyncCalls/Creates.antt =====
-- `mutex_create` and `semaphore_create` (tg-rcore-tutorial-ch8/src/main.rs) under the invariants of
-- the tables.
use tg_rcore_tutorial.Prelude.{
  ℕ, zero, suc, ◌^◌, ◌<◌, ◌≤◌, ◌≡◌, refl, ap, sym, ◌∙◌, ◌⊎◌, inl, inr, ◌==◌, if◌then◌else◌, Bool,
  Option, none, some, Option-cases, List, [], ◌∷◌, ◌++◌, length, length-append, get_elem?, arith,
  subst,
}
use tg_rcore_tutorial.Sync.Mutex
use tg_rcore_tutorial.Sync.Mutex.{MutexBlocking}
use tg_rcore_tutorial.Sync.Semaphore
use tg_rcore_tutorial.Sync.Semaphore.{Semaphore}
use tg_rcore_tutorial.Sync.Semaphore.Resources
use tg_rcore_tutorial.Sync.Semaphore.Resources.{available}
use tg_rcore_tutorial.Ch8.Process.{Process}
use tg_rcore_tutorial.Ch8.Deadlock.Completes.{Resource, mutex, semaphore}
use tg_rcore_tutorial.Ch8.Deadlock.Check.{free_of}
use tg_rcore_tutorial.Ch8.Deadlock.Safe.{IsSafe, IsSafe-mono}
use tg_rcore_tutorial.Ch8.SyncCalls.{first_none, place, mutex_create, semaphore_create}
use tg_rcore_tutorial.Ch8.SyncCalls.Tables.{get_elem?-set_at, get_elem?-none, length-set_at}
use tg_rcore_tutorial.Ch8.SyncCalls.Reflects.{
  Reflects, sem_or, mutex_at, sem_at, claim_now, free_mutex, free_semaphore, if_IsValid,
}

module _ {ℓ} {A : Type ℓ} where
  first_none_lem :
      (items : List (Option A)) (i : ℕ) → first_none items ≡ some i → get_elem? items i ≡ some none
  unfolding first_none
  first_none_lem [] i e = cc
  first_none_lem (none ∷ items) i e =
      let same : 0 ≡ i = cc in ap (get_elem? (none ∷ items)) (sym same)
  first_none_lem (some a ∷ items) i e = elim (Option-cases (first_none items)) [
    | inl f ↦ absurd (ground (arith, e, f))
    | inr (k, f) ↦
        let next : i ≡ suc k = ground (arith, e, f) in
        ap (get_elem? (some a ∷ items)) next ∙ first_none_lem items k f
  ]

  get_elem?-snoc :
      (items : List A) (x : A) (j : ℕ)
      → get_elem? (items ++ x ∷ []) j ≡ (if length items == j then some x else get_elem? items j)
  get_elem?-snoc [] x zero = ground arith
  get_elem?-snoc [] x (suc j) = ground arith
  get_elem?-snoc (y ∷ ys) x zero = ground arith
  get_elem?-snoc (y ∷ ys) x (suc j) =
      let next : (length ys == j) ≡ (suc (length ys) == suc j) = ground arith in
      get_elem?-snoc ys x j ∙ ap (λ b. if b then some x else get_elem? ys j) next

module _ {ℓ} {A : Type ℓ} where
  -- The item stands under the id, where nothing stood before, and nothing else has changed.
  pub place_lem :
      (item : Option A) (items : List (Option A))
      → let (id, items') = place item items in
        ((j : ℕ) → get_elem? items' j ≡ (if id == j then some item else get_elem? items j))
        × ((get_elem? items id ≡ none) ⊎ (get_elem? items id ≡ some none))
        × (length items ≤ length items')
  unfolding place
  place_lem item items = elim (Option-cases (first_none items)) [
    | inl e ↦
        rw (e, place)
          (
            get_elem?-snoc items item,
            inl (get_elem?-none (length items) items (omega arith)),
            omega (arith, length-append items (item ∷ [])),
          )
    | inr (id, e) ↦
        let at = first_none_lem items id e in
        rw (e, place)
          (
            λ j. get_elem?-set_at id j item none items at,
            inr at,
            omega (arith, length-set_at id item items),
          )
  ]

-- More entries, and no less in any of them.
free_grows :
    (p p' : Process)
    → Reflects p
    → Reflects p'
    → ((j : ℕ) → mutex_at p' j ≡ mutex_at p j)
    → length p.mutex_list ≤ length p'.mutex_list
    → ((j : ℕ) → available (sem_at p j) ≤ available (sem_at p' j))
    → (r : Resource) → free_of p r ≤ free_of p' r
free_grows p p' ref ref' same longer more (mutex j) =
    ground (arith, free_mutex p j ref, free_mutex p' j ref', same j)
free_grows p p' ref ref' same longer more (semaphore j) =
    ground (arith, free_semaphore p j, free_semaphore p' j, more j)

module _ (p : Process) (ref : Reflects p) (safe : IsSafe (free_of p) (claim_now p)) where
  pub mutex_create-Reflects :
      (blocking : Bool)
      → let p' = (mutex_create blocking p).2 in Reflects p' × IsSafe (free_of p') (claim_now p')
  unfolding mutex_create Mutex.new
  mutex_create-Reflects blocking =
      let (at, before, longer) =
        place_lem (if blocking then some Mutex.new else none) p.mutex_list in
      let p' = (mutex_create blocking p).2 in
      let same : (j : ℕ) → mutex_at p' j ≡ mutex_at p j = λ j. ground (arith, at j, before) in
      let ref' : Reflects p' = record {
        sorted = ref.sorted;
        held = λ j. ground (arith, ref.held j, same j);
        mutex_queue = λ j t. ground (arith, ref.mutex_queue j t, same j);
        mutex_valid = λ j. ground (arith, ref.mutex_valid j, same j);
        sem_queue = ref.sem_queue;
        sem_valid = ref.sem_valid;
        sem_range = ref.sem_range;
        one_wait = ref.one_wait;
      } in
      (ref', IsSafe-mono safe (λ t. refl) (free_grows p p' ref ref' same longer (λ j. omega arith)))

  pub semaphore_create-Reflects :
      (res_count : ℕ)
      → res_count < 2 ^ 63
      → let p' = (semaphore_create res_count p).2 in
        Reflects p' × IsSafe (free_of p') (claim_now p')
  unfolding semaphore_create Semaphore.new
  semaphore_create-Reflects res_count lt =
      let placed = place (some (Semaphore.new res_count)) p.semaphore_list in
      let (at, before, longer) = place_lem (some (Semaphore.new res_count)) p.semaphore_list in
      let p' = (semaphore_create res_count p).2 in
      let empty : sem_at p placed.0 ≡ record { count = 0; wait_queue = [] } = elim before [
        | inl e ↦ ap sem_or e
        | inr e ↦ ap sem_or e
      ] in
      let now : (j : ℕ)
          → sem_at p' j ≡ (if placed.0 == j then Semaphore.new res_count else sem_at p j) =
        λ j. ground (arith, at j) in
      let ref' : Reflects p' = record {
        sorted = ref.sorted;
        held = ref.held;
        mutex_queue = ref.mutex_queue;
        mutex_valid = ref.mutex_valid;
        sem_queue = λ j t. ground (arith, ref.sem_queue j t, now j, empty);
        sem_valid = λ j.
            subst Resources.IsValid (sym (now j))
              (if_IsValid (placed.0 == j) (inl (lt, refl)) (ref.sem_valid j));
        sem_range = λ t j le. ref.sem_range t j (omega (arith, longer, le));
        one_wait = ref.one_wait;
      } in
      (
        ref',
        IsSafe-mono safe (λ t. refl)
            (free_grows p p' ref ref' (λ j. refl) (omega arith)
              (λ j. ground (arith, ap available (now j), empty))),
      )
