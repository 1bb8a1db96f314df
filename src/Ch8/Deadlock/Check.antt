-- ===== src/Ch8/Deadlock/Check.antt =====
-- `check_deadlock` (deadlock.rs) against the tables of the process.
use tg_rcore_tutorial.Prelude.{
  ℕ, ◌+◌, ◌<◌, ◌≤◌, ◌≡◌, refl, ap₂, sym, ◌∙◌, subst, ltb, if◌then◌else◌, Bool, false, Option, some,
  List, [], ◌∷◌, length, count, get_elem?, arith, ok, ◌↔◌,
}
use tg_rcore_tutorial.Prelude.Assoc.{lookup}
use tg_rcore_tutorial.Ch8.Process.{Process}
use tg_rcore_tutorial.Ch8.Deadlock.{
  Row, Work, replicate, available_mutex, available_sem, all_tids, add_ones, add_request, ids_of,
  request_of, row, rows, unfinished, is_deadlock, check_deadlock,
}
use tg_rcore_tutorial.Ch8.Deadlock.Completes.{
  by_kind, Resource, mutex, semaphore, Claim, claims, Completes,
}
use tg_rcore_tutorial.Ch8.Deadlock.Sweep.{at, free, claim, SameShape}
use tg_rcore_tutorial.Ch8.Deadlock.Passes.{
  pending, AllShape, passes_lem, length-pending, is_deadlock_lem,
}
use tg_rcore_tutorial.Ch8.Deadlock.Rows.{
  at-replicate, length-replicate, add_ones_lem, asks, add_request_lem, is_held, available_mutex_lem,
  free_at, available_sem_lem, one_of, takes_part, all_tids_lem,
}

-- What is free of a resource: a mutex that nobody holds, and what the count of a semaphore says.
abbrev pub free_of : Process → Resource → ℕ
free_of p (mutex i) =
    if is_held i p.mutex_allocations then 0 else (if ltb i (length p.mutex_list) then 1 else 0)
free_of p (semaphore i) = free_at (get_elem? p.semaphore_list i)

-- What the tables say that a thread holds and asks for, with the request of the current thread.
abbrev pub held_of : Process → ℕ → Resource → ℕ
held_of p tid (mutex i) = count i (ids_of (lookup tid p.mutex_allocations))
held_of p tid (semaphore i) = count i (ids_of (lookup tid p.sem_allocations))

abbrev pub waiting_of : Process → ℕ → Resource → ℕ
waiting_of p tid (mutex i) = asks i (lookup tid p.mutex_requests)
waiting_of p tid (semaphore i) = asks i (lookup tid p.sem_requests)

abbrev pub wanted_of : ℕ → Option ℕ → Option ℕ → Process → ℕ → Resource → ℕ
wanted_of current_tid req_mutex req_sem p tid (mutex i) =
    waiting_of p tid (mutex i) + asks i (request_of current_tid tid req_mutex)
wanted_of current_tid req_mutex req_sem p tid (semaphore i) =
    waiting_of p tid (semaphore i) + asks i (request_of current_tid tid req_sem)

abbrev pub claim_from : (Resource → ℕ) → (Resource → ℕ) → Claim
claim_from held wanted = record { held = held; wanted = wanted }

abbrev pub claim_of : ℕ → Option ℕ → Option ℕ → Process → ℕ → Claim
claim_of current_tid req_mutex req_sem p tid = record {
  held = held_of p tid;
  wanted = wanted_of current_tid req_mutex req_sem p tid;
}

-- Every id of a table, and of the request, is one of a primitive.
abbrev pub AllBelow : ℕ → List (ℕ × List ℕ) → List (ℕ × ℕ) → Option ℕ → Type 0
AllBelow n allocations requests req =
    ((tid i : ℕ) → n ≤ i → count i (ids_of (lookup tid allocations)) ≡ 0)
    × ((tid i : ℕ) → lookup tid requests ≡ some i → i < n)
    × ((i : ℕ) → req ≡ some i → i < n)

module _ (current_tid : ℕ) (req_mutex req_sem : Option ℕ) (p : Process)
    (ms : AllBelow (length p.mutex_list) p.mutex_allocations p.mutex_requests req_mutex)
    (ss : AllBelow (length p.semaphore_list) p.sem_allocations p.sem_requests req_sem) where
  abbrev start : Work
  start = record {
    work_m = available_mutex p.mutex_allocations (replicate (length p.mutex_list) 1);
    work_s = available_sem p.semaphore_list;
  }

  free-start : free start ≡ free_of p
  free-start =
      let (_, at_m) = available_mutex_lem p.mutex_allocations (replicate (length p.mutex_list) 1) in
      by_kind (λ i. ground (arith, at_m i, at-replicate (length p.mutex_list) 1 i))
        (available_sem_lem p.semaphore_list).1

  request_of-below :
      (n tid : ℕ) (req : Option ℕ)
      → ((i : ℕ) → req ≡ some i → i < n)
      → (i : ℕ) → request_of current_tid tid req ≡ some i
      → i < n
  request_of-below n tid req h i e = ground (arith, h i)

  -- The vector of what a thread holds of one kind.
  held_row :
      (n tid : ℕ) (table : List (ℕ × List ℕ))
      → ((t i : ℕ) → n ≤ i → count i (ids_of (lookup t table)) ≡ 0)
      → (ys : List ℕ) × (add_ones (ids_of (lookup tid table)) (replicate n 0) ≡ ok ys)
        × (length ys ≡ n)
        × ((i : ℕ) → at ys i ≡ count i (ids_of (lookup tid table)))
  held_row n tid table h =
      let len = length-replicate n 0 in
      let (ys, e, len', each) =
        add_ones_lem (ids_of (lookup tid table)) (replicate n 0)
          (λ i le. h tid i (omega (arith, len, le))) in
      (ys, e, len' ∙ len, λ i. ground (arith, each i, at-replicate n 0 i))

  -- The vector of what it asks for.
  wanted_row :
      (n tid : ℕ) (table : List (ℕ × ℕ)) (req : Option ℕ)
      → ((t i : ℕ) → lookup t table ≡ some i → i < n)
      → ((i : ℕ) → req ≡ some i → i < n)
      → (xs ys : List ℕ) × (add_request (lookup tid table) (replicate n 0) ≡ ok xs)
        × (add_request (request_of current_tid tid req) xs ≡ ok ys)
        × (length ys ≡ n)
        × ((i : ℕ) → at ys i ≡ asks i (lookup tid table) + asks i (request_of current_tid tid req))
  wanted_row n tid table req h h' =
      let len = length-replicate n 0 in
      let (xs, e, len_x, each) =
        add_request_lem (lookup tid table) (replicate n 0)
          (λ i hit. omega (arith, len, h tid i hit)) in
      let (ys, e', len_y, each') =
        add_request_lem (request_of current_tid tid req) xs
          (λ i hit. omega (arith, len, len_x, request_of-below n tid req h' i hit)) in
      (xs, ys, e, e', len_y ∙ len_x ∙ len, λ i. ground (arith, each i, each' i, at-replicate n 0 i))

  row_lem :
      (tid : ℕ)
      → (r : Row) × (row current_tid req_mutex req_sem p tid ≡ ok r)
        × SameShape r start
        × (claim r ≡ claim_of current_tid req_mutex req_sem p tid)
  unfolding row
  row_lem tid =
      let (am, e1, l1, h1) = held_row (length p.mutex_list) tid p.mutex_allocations ms.0 in
      let (as', e2, l2, h2) = held_row (length p.semaphore_list) tid p.sem_allocations ss.0 in
      let (xm, nm, e3, e5, l3, h3) =
        wanted_row (length p.mutex_list) tid p.mutex_requests req_mutex ms.1 ms.2 in
      let (xs, ns, e4, e6, l4, h4) =
        wanted_row (length p.semaphore_list) tid p.sem_requests req_sem ss.1 ss.2 in
      let r : Row = record { alloc_m = am; alloc_s = as'; need_m = nm; need_s = ns } in
      let sum_m =
        (available_mutex_lem p.mutex_allocations (replicate (length p.mutex_list) 1)).0
        ∙ length-replicate (length p.mutex_list) 1 in
      let sum_s = (available_sem_lem p.semaphore_list).0 in
      (
        r,
        rw (e1, row) (rw e2 (rw e3 (rw e4 (rw e5 (rw e6 refl))))),
        (l1 ∙ sym sum_m, l3 ∙ sym sum_m, l2 ∙ sym sum_s, l4 ∙ sym sum_s),
        ap₂ claim_from (by_kind h1 h2) (by_kind h3 h4),
      )

  rows_lem :
      (tids : List ℕ)
      → (rs : List Row) × (rows current_tid req_mutex req_sem p tids ≡ ok rs)
        × AllShape (unfinished rs) start
        × (pending (unfinished rs) ≡ claims (claim_of current_tid req_mutex req_sem p) tids)
  unfolding rows unfinished
  rows_lem [] = ([], refl, tt, refl)
  rows_lem (tid ∷ tids) =
      let (r, e, shape, same) = row_lem tid in
      let (rs, e', shapes, rest) = rows_lem tids in
      (r ∷ rs, rw (e, rows) (rw e' refl), (shape, shapes), ap₂ (λ a b. a ∷ b) same rest)

  -- Where every id of the tables and of the request is one of a primitive, the check does not
  -- panic, and it ends. It looks at each thread that holds something, waits for something or
  -- makes the request, once, and answers that there is no deadlock exactly if these threads can
  -- all finish in some order: the next one gets all that it asks for, and gives back what it
  -- holds.
  pub check_deadlock_lem :
      (dead : Bool) × (check_deadlock current_tid req_mutex req_sem p ≡ ok dead)
      × ((t : ℕ) → count t (all_tids current_tid p) ≡ one_of (takes_part current_tid p t))
      × ((dead ≡ false)
          ↔ Completes
              (free_of p)
              (claims (claim_of current_tid req_mutex req_sem p) (all_tids current_tid p)))
  unfolding check_deadlock
  check_deadlock_lem =
      let (rs, e, shapes, same) = rows_lem (all_tids current_tid p) in
      let (slots, run, iff) =
        passes_lem (length rs + 1) (unfinished rs) start shapes (length-pending rs) in
      let clear = is_deadlock_lem slots in
      let all = claims (claim_of current_tid req_mutex req_sem p) (all_tids current_tid p) in
      (
        is_deadlock slots,
        rw (e, check_deadlock) (rw run refl),
        all_tids_lem current_tid p,
        (
          λ d.
              subst (λ f. Completes f all) free-start
                (subst (Completes (free start)) same (iff.0 (clear.0 d))),
          λ c. clear.1 (
              iff.1 (
                subst (Completes (free start)) (sym same)
                  (subst (λ f. Completes f all) (sym free-start) c))),
        ),
      )
