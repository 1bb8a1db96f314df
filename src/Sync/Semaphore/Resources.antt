-- ===== src/Sync/Semaphore/Resources.antt =====
-- Whole histories of a semaphore (semaphore.rs): how many resources are handed out, and to whom.
use tg_rcore_tutorial.Prelude.{
  ℕ, ◌+◌, ◌^◌, ◌<◌, ◌≤◌, ◌≡◌, ◌⊎◌, if◌then◌else◌, List, [], ◌∷◌, ◌++◌, append-nil, arith, length,
  length-append, List-cases, releases_move, requests_move,
}
use tg_rcore_tutorial.Sync.Mutex.{ThreadId}
use tg_rcore_tutorial.Sync.Mutex.Fifo.{granted, woken}
use tg_rcore_tutorial.Sync.Semaphore.{Semaphore, up, down, is_negative}

pub data Call : Type 0 where
  downs : ThreadId → Call
  ups : Call

-- A history of calls: the threads that got a resource, in order, and the last state.
unfoldable pub run : Semaphore → List Call → List ThreadId × Semaphore
run s [] = ([], s)
run s (downs tid ∷ cs) =
    let (got, s') = down tid s in let (gs, t) = run s' cs in (granted got tid ++ gs, t)
run s (ups ∷ cs) = let (o, s') = up s in let (gs, t) = run s' cs in (woken o ++ gs, t)

abbrev pub requests : List Call → List ThreadId
requests [] = []
requests (downs tid ∷ cs) = tid ∷ requests cs
requests (ups ∷ cs) = requests cs

abbrev pub releases : List Call → ℕ
releases [] = 0
releases (downs tid ∷ cs) = releases cs
releases (ups ∷ cs) = releases cs + 1

-- The count is the number of free resources, with nobody waiting, or minus the number of waiters.
abbrev pub IsValid : Semaphore → Type 0
IsValid s =
    ((s.count < 2 ^ 63) × (s.wait_queue ≡ []))
    ⊎ ((2 ^ 63 ≤ s.count) × (s.count + length s.wait_queue ≡ 2 ^ 64))

abbrev pub available : Semaphore → ℕ
available s = if is_negative s.count then 0 else s.count

pub down-step :
    (tid : ThreadId) (s : Semaphore)
    → IsValid s
    → length s.wait_queue < 2 ^ 63
    → let (got, s') = down tid s in
      IsValid s'
      × (s.wait_queue ++ tid ∷ [] ≡ granted got tid ++ s'.wait_queue)
      × (length (granted got tid) + available s' ≡ available s)
      × (length s'.wait_queue ≤ length s.wait_queue + 1)
unfolding down
down-step tid s v h = ground (arith, length-append s.wait_queue (tid ∷ []))

pub up-step :
    (s : Semaphore)
    → IsValid s
    → available s + 1 < 2 ^ 63
    → let (o, s') = up s in
      IsValid s'
      × (s.wait_queue ≡ woken o ++ s'.wait_queue)
      × (length (woken o) + available s' ≡ available s + 1)
      × (length s'.wait_queue ≤ length s.wait_queue)
unfolding up
up-step s v h = ground (arith, List-cases s.wait_queue)

-- From a valid state, and as long as neither the free resources and releases nor the waiters and
-- requests pass 2^63, the state stays valid, resources are granted in the order of the requests,
-- and the grants with what is free at the end are the resources free at the start with those
-- released.
pub run_resources :
    (cs : List Call) (s : Semaphore)
    → IsValid s
    → available s + releases cs < 2 ^ 63
    → length s.wait_queue + length (requests cs) ≤ 2 ^ 63
    → let (gs, t) = run s cs in
      IsValid t
      × (s.wait_queue ++ requests cs ≡ gs ++ t.wait_queue)
      × (length gs + available t ≡ available s + releases cs)
unfolding run
run_resources [] s v h k = (v, append-nil s.wait_queue, omega arith)
run_resources (downs tid ∷ cs) s v h k =
    let (w, moved, free, waiting) = down-step tid s v (omega arith) in
    let (w', order, total) = run_resources cs (down tid s).1 w (omega arith) (omega arith) in
    (
      w',
      requests_move s.wait_queue tid (requests cs) _ _ _ _ moved order,
      omega (arith, length-append (granted (down tid s).0 tid) (run (down tid s).1 cs).0),
    )
run_resources (ups ∷ cs) s v h k =
    let (w, moved, free, waiting) = up-step s v (omega arith) in
    let (w', order, total) = run_resources cs (up s).1 w (omega arith) (omega arith) in
    (
      w',
      releases_move s.wait_queue (requests cs) _ _ _ _ moved order,
      omega (arith, length-append (woken (up s).0) (run (up s).1 cs).0),
    )
