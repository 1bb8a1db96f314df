-- ===== src/Ch8/Deadlock/Rows.antt =====
-- The vectors that the check of deadlock.rs builds, against the tables of the process.
use tg_rcore_tutorial.Prelude.{
  ℕ, zero, suc, ◌+◌, ◌<◌, ◌≤◌, ◌≡◌, refl, ap, ◌∙◌, ltb, ◌==◌, if◌then◌else◌, Bool, false, ◌||◌,
  Bool-cases, inl, inr, Option, none, some, List, [], ◌∷◌, ◌++◌, length, contains, count,
  count-append, contains-count, get_elem?, arith, ok,
}
use tg_rcore_tutorial.Prelude.Assoc.{keys}
use tg_rcore_tutorial.Sync.Semaphore.{Semaphore}
use tg_rcore_tutorial.Ch8.Process.{Process}
use tg_rcore_tutorial.Ch8.Deadlock.{
  replicate, set_zero, add_one, take_held, available_mutex, free_count, available_sem, gather,
  all_tids, add_ones, add_request,
}
use tg_rcore_tutorial.Ch8.Deadlock.Sweep.{at}

pub at-replicate : (n x i : ℕ) → at (replicate n x) i ≡ (if ltb i n then x else 0)
at-replicate zero x i = ground arith
at-replicate (suc n) x zero = ground arith
at-replicate (suc n) x (suc i) = ground (arith, at-replicate n x i)

pub length-replicate : (n x : ℕ) → length (replicate n x) ≡ n
length-replicate zero x = refl
length-replicate (suc n) x = ap suc (length-replicate n x)

add_one_lem :
    (i : ℕ) (xs : List ℕ)
    → i < length xs
    → (ys : List ℕ) × (add_one i xs ≡ ok ys)
      × (length ys ≡ length xs)
      × ((j : ℕ) → at ys j ≡ at xs j + (if i == j then 1 else 0))
unfolding add_one
add_one_lem i [] h = absurd (omega arith)
add_one_lem zero (x ∷ xs) h = ((x + 1) ∷ xs, refl, refl, each)
  where
    each : (j : ℕ) → at ((x + 1) ∷ xs) j ≡ at (x ∷ xs) j + (if zero == j then 1 else 0)
    each zero = omega arith
    each (suc j) = ground arith
add_one_lem (suc i) (x ∷ xs) h =
    let (ys, e, len, rest) = add_one_lem i xs (omega arith) in
    (x ∷ ys, rw e refl, omega (arith, len), each ys rest)
  where
    each :
        (ys : List ℕ)
        → ((j : ℕ) → at ys j ≡ at xs j + (if i == j then 1 else 0))
        → (j : ℕ) → at (x ∷ ys) j ≡ at (x ∷ xs) j + (if suc i == j then 1 else 0)
    each ys rest zero = ground arith
    each ys rest (suc j) = ground (arith, rest j)

pub add_ones_lem :
    (ids xs : List ℕ)
    → ((i : ℕ) → length xs ≤ i → count i ids ≡ 0)
    → (ys : List ℕ) × (add_ones ids xs ≡ ok ys)
      × (length ys ≡ length xs)
      × ((j : ℕ) → at ys j ≡ at xs j + count j ids)
unfolding add_ones
add_ones_lem [] xs h = (xs, refl, refl, λ j. omega arith)
add_ones_lem (i ∷ ids) xs h =
    let (ys, e, len, one) = add_one_lem i xs (ground (arith, h i)) in
    let (zs, e', len', more) =
      add_ones_lem ids ys (λ j le. omega (arith, h j (omega (arith, len, le)))) in
    (zs, rw e e', len' ∙ len, λ j. omega (arith, one j, more j))

-- How often a request asks for an id.
abbrev pub asks : ℕ → Option ℕ → ℕ
asks j none = 0
asks j (some i) = if i == j then 1 else 0

pub add_request_lem :
    (req : Option ℕ) (xs : List ℕ)
    → ((i : ℕ) → req ≡ some i → i < length xs)
    → (ys : List ℕ) × (add_request req xs ≡ ok ys)
      × (length ys ≡ length xs)
      × ((j : ℕ) → at ys j ≡ at xs j + asks j req)
unfolding add_request
add_request_lem none xs h = (xs, refl, refl, λ j. omega arith)
add_request_lem (some i) xs h = add_one_lem i xs (h i refl)

length-set_zero : (i : ℕ) (xs : List ℕ) → length (set_zero i xs) ≡ length xs
unfolding set_zero
length-set_zero i [] = refl
length-set_zero zero (x ∷ xs) = refl
length-set_zero (suc i) (x ∷ xs) = ap suc (length-set_zero i xs)

at-set_zero : (i j : ℕ) (xs : List ℕ) → at (set_zero i xs) j ≡ (if i == j then 0 else at xs j)
unfolding set_zero
at-set_zero i j [] = ground arith
at-set_zero zero zero (x ∷ xs) = ground arith
at-set_zero zero (suc j) (x ∷ xs) = ground arith
at-set_zero (suc i) zero (x ∷ xs) = ground arith
at-set_zero (suc i) (suc j) (x ∷ xs) = ground (arith, at-set_zero i j xs)

take_held_lem :
    (ids xs : List ℕ)
    → (length (take_held ids xs) ≡ length xs)
      × ((j : ℕ) → at (take_held ids xs) j ≡ (if contains ids j then 0 else at xs j))
unfolding take_held
take_held_lem [] xs = (refl, λ j. refl)
take_held_lem (i ∷ ids) xs =
    let (len, rest) = take_held_lem ids (set_zero i xs) in
    (len ∙ length-set_zero i xs, λ j. ground (arith, rest j, at-set_zero i j xs))

-- Whether some thread holds the mutex.
abbrev pub is_held : ℕ → List (ℕ × List ℕ) → Bool
is_held i [] = false
is_held i (e ∷ es) = contains e.1 i || is_held i es

pub available_mutex_lem :
    (es : List (ℕ × List ℕ)) (xs : List ℕ)
    → (length (available_mutex es xs) ≡ length xs)
      × ((j : ℕ) → at (available_mutex es xs) j ≡ (if is_held j es then 0 else at xs j))
unfolding available_mutex
available_mutex_lem [] xs = (refl, λ j. refl)
available_mutex_lem (e ∷ es) xs =
    let (len, rest) = available_mutex_lem es (take_held e.1 xs) in
    let (len', here) = take_held_lem e.1 xs in (len ∙ len', λ j. ground (arith, rest j, here j))

-- The count that is free of an entry of the list of semaphores.
abbrev pub free_at : Option (Option Semaphore) → ℕ
free_at none = 0
free_at (some s) = free_count s

pub available_sem_lem :
    (ss : List (Option Semaphore))
    → (length (available_sem ss) ≡ length ss)
      × ((j : ℕ) → at (available_sem ss) j ≡ free_at (get_elem? ss j))
unfolding available_sem
available_sem_lem [] = (refl, λ j. refl)
available_sem_lem (s ∷ ss) = let (len, rest) = available_sem_lem ss in (ap suc len, each rest)
  where
    each :
        ((j : ℕ) → at (available_sem ss) j ≡ free_at (get_elem? ss j))
        → (j : ℕ) → at (free_count s ∷ available_sem ss) j ≡ free_at (get_elem? (s ∷ ss) j)
    each rest zero = refl
    each rest (suc j) = rest j

abbrev pub one_of : Bool → ℕ
one_of b = if b then 1 else 0

-- `contains` keeps each key from a second entry.
gather_lem :
    (tids acc : List ℕ)
    → ((t : ℕ) → count t acc ≤ 1)
    → (t : ℕ) → count t (gather tids acc) ≡ one_of (contains tids t || contains acc t)
unfolding gather
gather_lem [] acc h t = ground (arith, contains-count acc t, h t)
gather_lem (tid ∷ tids) acc h t = elim (Bool-cases (contains acc tid)) [
  | inl e ↦ ground (arith, e, gather_lem tids acc h t)
  | inr e ↦
      let more =
        gather_lem tids (acc ++ tid ∷ [])
          (λ u. ground (arith, count-append u acc (tid ∷ []), h u, contains-count acc u, e)) t in
      ground (
        arith,
        e,
        more,
        contains-count (acc ++ tid ∷ []) t,
        contains-count acc t,
        count-append t acc (tid ∷ []),
      )
]

gather-le_one :
    (tids acc : List ℕ) → ((t : ℕ) → count t acc ≤ 1) → (t : ℕ) → count t (gather tids acc) ≤ 1
gather-le_one tids acc h t = ground (arith, gather_lem tids acc h t)

-- Whether the thread holds something, waits for something or makes the request.
abbrev pub takes_part : ℕ → Process → ℕ → Bool
takes_part current_tid p t =
    contains (keys p.mutex_allocations) t
    || contains (keys p.sem_allocations) t
    || contains (keys p.mutex_requests) t
    || contains (keys p.sem_requests) t
    || current_tid == t

pub all_tids_lem :
    (current_tid : ℕ) (p : Process) (t : ℕ)
    → count t (all_tids current_tid p) ≡ one_of (takes_part current_tid p t)
unfolding all_tids
all_tids_lem current_tid p t =
    let a = keys p.mutex_allocations in
    let b = keys p.sem_allocations in
    let c = keys p.mutex_requests in
    let d = keys p.sem_requests in
    let acc1 = gather a [] in
    let acc2 = gather b acc1 in
    let acc3 = gather c acc2 in
    let acc4 = gather d acc3 in
    let le1 = gather-le_one a [] (λ u. omega arith) in
    let le2 = gather-le_one b acc1 le1 in
    let le3 = gather-le_one c acc2 le2 in
    let le4 = gather-le_one d acc3 le3 in
    ground (
      arith,
      gather_lem (current_tid ∷ []) acc4 le4 t,
      contains-count acc4 t,
      gather_lem d acc3 le3 t,
      contains-count acc3 t,
      gather_lem c acc2 le2 t,
      contains-count acc2 t,
      gather_lem b acc1 le1 t,
      contains-count acc1 t,
      gather_lem a [] (λ u. omega arith) t,
    )
