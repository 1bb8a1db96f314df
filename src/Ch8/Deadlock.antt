-- ===== src/Ch8/Deadlock.antt =====
-- tg-rcore-tutorial-ch8/src/deadlock.rs: the banker's check before a request is made. Sums of
-- resources are numbers without a wrap: they count ids in memory and counts of semaphores.
pub mod Completes
pub mod Sweep
pub mod Passes
pub mod Rows
pub mod Check
pub mod Safe
use tg_rcore_tutorial.Prelude.{
  ℕ, zero, suc, ◌+◌, ◌==◌, leb, if◌then◌else◌, Bool, true, false, ◌&&◌, ◌||◌, not, Option, none,
  some, List, [], ◌∷◌, ◌++◌, length, contains, Outcome, ok, panic, ◌>>=◌, unwrap,
}
use tg_rcore_tutorial.Prelude.Assoc.{lookup, keys}
use tg_rcore_tutorial.Sync.Semaphore.{Semaphore, is_negative}
use tg_rcore_tutorial.Ch8.Process.{Process}

-- `vec![x; n]`
abbrev pub replicate : ℕ → ℕ → List ℕ
replicate zero x = []
replicate (suc n) x = x ∷ replicate n x

-- `if i < xs.len() { xs[i] = 0; }`
unfoldable pub set_zero : ℕ → List ℕ → List ℕ
set_zero i [] = []
set_zero zero (x ∷ xs) = 0 ∷ xs
set_zero (suc i) (x ∷ xs) = x ∷ set_zero i xs

-- `xs[i] += 1`, which panics out of range.
unfoldable pub add_one : ℕ → List ℕ → Outcome (List ℕ)
add_one i [] = panic
add_one zero (x ∷ xs) = ok ((x + 1) ∷ xs)
add_one (suc i) (x ∷ xs) = do ys ← add_one i xs; ok (x ∷ ys)

unfoldable pub take_held : List ℕ → List ℕ → List ℕ
take_held [] avail = avail
take_held (m_id ∷ ids) avail = take_held ids (set_zero m_id avail)

unfoldable pub available_mutex : List (ℕ × List ℕ) → List ℕ → List ℕ
available_mutex [] avail = avail
available_mutex (e ∷ es) avail = available_mutex es (take_held e.1 avail)

-- The entry of a semaphore: `if count > 0 { count as usize } else { 0 }`, and 0 where there is none.
unfoldable pub free_count : Option Semaphore → ℕ
free_count none = 0
free_count (some sem) = if is_negative sem.count then 0 else sem.count

unfoldable pub available_sem : List (Option Semaphore) → List ℕ
available_sem [] = []
available_sem (s ∷ ss) = free_count s ∷ available_sem ss

-- `if !all_tids.contains(&tid) { all_tids.push(tid); }`, for each of the keys.
unfoldable pub gather : List ℕ → List ℕ → List ℕ
gather [] all_tids = all_tids
gather (tid ∷ tids) all_tids =
    gather tids (if contains all_tids tid then all_tids else all_tids ++ tid ∷ [])

unfoldable pub all_tids : ℕ → Process → List ℕ
all_tids current_tid p = gather (current_tid ∷ []) (
    gather (keys p.sem_requests) (
      gather (keys p.mutex_requests)
        (gather (keys p.sem_allocations) (gather (keys p.mutex_allocations) []))))

-- A thread's rows of the four matrices.
pub record Row : Type 0 where
  pub alloc_m : List ℕ
  pub alloc_s : List ℕ
  pub need_m : List ℕ
  pub need_s : List ℕ

unfoldable pub add_ones : List ℕ → List ℕ → Outcome (List ℕ)
add_ones [] xs = ok xs
add_ones (i ∷ is) xs = do ys ← add_one i xs; add_ones is ys

unfoldable pub add_request : Option ℕ → List ℕ → Outcome (List ℕ)
add_request none xs = ok xs
add_request (some i) xs = add_one i xs

abbrev pub ids_of : Option (List ℕ) → List ℕ
ids_of none = []
ids_of (some ids) = ids

-- The request counts for the current thread only.
abbrev pub request_of : ℕ → ℕ → Option ℕ → Option ℕ
request_of current_tid tid req = if tid == current_tid then req else none

unfoldable pub row : ℕ → Option ℕ → Option ℕ → Process → ℕ → Outcome Row
row current_tid req_mutex req_sem p tid = do
  alloc_m ← add_ones (ids_of (lookup tid p.mutex_allocations)) (replicate (length p.mutex_list) 0)
  alloc_s ← add_ones (ids_of (lookup tid p.sem_allocations)) (replicate (length p.semaphore_list) 0)
  asked_m ← add_request (lookup tid p.mutex_requests) (replicate (length p.mutex_list) 0)
  asked_s ← add_request (lookup tid p.sem_requests) (replicate (length p.semaphore_list) 0)
  need_m ← add_request (request_of current_tid tid req_mutex) asked_m
  need_s ← add_request (request_of current_tid tid req_sem) asked_s
  ok (record { alloc_m = alloc_m; alloc_s = alloc_s; need_m = need_m; need_s = need_s })

unfoldable pub rows : ℕ → Option ℕ → Option ℕ → Process → List ℕ → Outcome (List Row)
rows current_tid req_mutex req_sem p [] = ok []
rows current_tid req_mutex req_sem p (tid ∷ tids) = do
  r ← row current_tid req_mutex req_sem p tid
  rs ← rows current_tid req_mutex req_sem p tids
  ok (r ∷ rs)

-- `work_m` and `work_s`
pub record Work : Type 0 where
  pub work_m : List ℕ
  pub work_s : List ℕ

-- All vectors of a kind have the same length.
unfoldable pub fits : List ℕ → List ℕ → Bool
fits [] work = true
fits (x ∷ xs) [] = true
fits (x ∷ xs) (w ∷ ws) = leb x w && fits xs ws

unfoldable pub reclaim : List ℕ → List ℕ → List ℕ
reclaim [] alloc = []
reclaim (w ∷ ws) [] = w ∷ ws
reclaim (w ∷ ws) (x ∷ xs) = (w + x) ∷ reclaim ws xs

unfoldable pub can_finish : Row → Work → Bool
can_finish r w = fits r.need_m w.work_m && fits r.need_s w.work_s

unfoldable pub release : Row → Work → Work
release r w = record { work_m = reclaim w.work_m r.alloc_m; work_s = reclaim w.work_s r.alloc_s }

-- A thread's rows and its entry of `finish`.
abbrev pub Slot : Type 0
Slot = Row × Bool

-- `for i in 0..n`: the slots and the work after the pass, and `found`.
unfoldable pub sweep : List Slot → Work → List Slot × Work × Bool
sweep [] w = ([], w, false)
sweep ((r, finish) ∷ slots) w =
    let finishing = not finish && can_finish r w in
    let (slots', w', found) = sweep slots (if finishing then release r w else w) in
    ((r, finish || finishing) ∷ slots', w', finishing || found)

-- `loop`, with fuel for the passes.
unfoldable pub passes : ℕ → List Slot → Work → Option (List Slot)
passes zero slots w = none
passes (suc fuel) slots w =
    let (slots', w', found) = sweep slots w in
    elim found [ true ↦ passes fuel slots' w' | false ↦ some slots' ]

unfoldable pub unfinished : List Row → List Slot
unfinished [] = []
unfinished (r ∷ rs) = (r, false) ∷ unfinished rs

unfoldable pub is_deadlock : List Slot → Bool
is_deadlock [] = false
is_deadlock ((r, finish) ∷ slots) = not finish || is_deadlock slots

-- Every pass but the last finishes a thread, so that one more than the threads is enough fuel.
unfoldable pub check_deadlock : ℕ → Option ℕ → Option ℕ → Process → Outcome Bool
check_deadlock current_tid req_mutex req_sem p = do
  rs ← rows current_tid req_mutex req_sem p (all_tids current_tid p)
  slots ← unwrap (
      passes (length rs + 1) (unfinished rs) (record {
        work_m = available_mutex p.mutex_allocations (replicate (length p.mutex_list) 1);
        work_s = available_sem p.semaphore_list;
      }))
  ok (is_deadlock slots)
