-- ===== src/Sync/Mutex/Fifo.antt =====
-- Whole histories of a blocking mutex (mutex.rs).
use tg_rcore_tutorial.Prelude.{
  ℕ, ◌+◌, ◌≡◌, refl, sym, ◌⊎◌, inl, inr, if◌then◌else◌, Bool, true, false, Option, none, some, List,
  [], ◌∷◌, ◌++◌, append-nil, arith, length, length-append, Outcome, ok, ◌>>=◌, List-cases,
  releases_move, requests_move, subst, ◌-◌, ◌<◌,
}
use tg_rcore_tutorial.Sync.Mutex.{ThreadId, MutexBlocking, lock, unlock}

pub data Call : Type 0 where
  locks : ThreadId → Call
  unlocks : Call

-- Who gets the lock by an answer: the caller of a `lock` that succeeds, and the thread that an
-- `unlock` wakes.
abbrev pub granted : Bool → ThreadId → List ThreadId
granted true tid = tid ∷ []
granted false tid = []

abbrev pub woken : Option ThreadId → List ThreadId
woken none = []
woken (some tid) = tid ∷ []

-- A history of calls: the threads that got the lock, in order, and the last state.
unfoldable pub run : MutexBlocking → List Call → Outcome (List ThreadId × MutexBlocking)
run m [] = ok ([], m)
run m (locks tid ∷ cs) =
    let (got, m') = lock tid m in run m' cs >>= λ r. ok (granted got tid ++ r.0, r.1)
run m (unlocks ∷ cs) = unlock m >>= λ a. run a.1 cs >>= λ r. ok (woken a.0 ++ r.0, r.1)

abbrev pub requests : List Call → List ThreadId
requests [] = []
requests (locks tid ∷ cs) = tid ∷ requests cs
requests (unlocks ∷ cs) = requests cs

abbrev pub releases : List Call → ℕ
releases [] = 0
releases (locks tid ∷ cs) = releases cs
releases (unlocks ∷ cs) = releases cs + 1

-- Nobody waits for a free lock.
abbrev pub IsValid : MutexBlocking → Type 0
IsValid m = (m.locked ≡ true) ⊎ (m.wait_queue ≡ [])

abbrev pub holders : MutexBlocking → ℕ
holders m = if m.locked then 1 else 0

pub lock-step :
    (tid : ThreadId) (m : MutexBlocking)
    → IsValid m
    → let (got, m') = lock tid m in
      IsValid m'
      × (m.wait_queue ++ tid ∷ [] ≡ granted got tid ++ m'.wait_queue)
      × (length (granted got tid) + holders m ≡ holders m')
unfolding lock
lock-step tid m v = ground arith

-- Calls in which nobody unlocks a free lock, `k` threads holding or awaiting it at the start.
abbrev pub Disciplined : ℕ → List Call → Type 0
Disciplined k [] = Unit {0}
Disciplined k (locks tid ∷ cs) = Disciplined (k + 1) cs
Disciplined k (unlocks ∷ cs) = (0 < k) × Disciplined (k - 1) cs

abbrev pub users : MutexBlocking → ℕ
users m = holders m + length m.wait_queue

pub unlock-step :
    (m : MutexBlocking)
    → IsValid m
    → 0 < users m
    → (o : Option ThreadId) × (m' : MutexBlocking) × (unlock m ≡ ok (o, m'))
      × IsValid m'
      × (m.wait_queue ≡ woken o ++ m'.wait_queue)
      × (length (woken o) + holders m ≡ holders m' + 1)
      × (users m' ≡ users m - 1)
unfolding unlock
unlock-step m v h =
    let held : m.locked ≡ true = ground (arith, List-cases m.wait_queue) in
    elim (List-cases m.wait_queue) [
      | inl e ↦
          (none, record m { locked = false }, ground arith, inr e, refl, ground arith, ground arith)
      | inr (w, ws, e) ↦ (
        some w,
        record m { wait_queue = ws },
        ground arith,
        inl held,
        e,
        ground arith,
        ground arith,
      )
    ]

users-lock : (tid : ThreadId) (m : MutexBlocking) → IsValid m → users (lock tid m).1 ≡ users m + 1
unfolding lock
users-lock tid m v = ground (arith, length-append m.wait_queue (tid ∷ []))

-- From a valid state, calls in which nobody unlocks a free lock do not panic, and end in a valid
-- state. The lock is granted in the order of the requests, and at most one thread holds it: the
-- grants exceed the releases by the change in the number of holders.
pub run_in_order :
    (cs : List Call) (m : MutexBlocking)
    → IsValid m
    → Disciplined (users m) cs
    → (gs : List ThreadId) × (m' : MutexBlocking) × (run m cs ≡ ok (gs, m'))
      × IsValid m'
      × (m.wait_queue ++ requests cs ≡ gs ++ m'.wait_queue)
      × (length gs + holders m ≡ holders m' + releases cs)
unfolding run
run_in_order [] m v d = ([], m, refl, v, append-nil m.wait_queue, omega arith)
run_in_order (locks tid ∷ cs) m v d =
    let (w, moved, held) = lock-step tid m v in
    let (gs, m', ran, w', order, count) =
      run_in_order cs (lock tid m).1 w
        (subst (λ k. Disciplined k cs) (sym (users-lock tid m v)) d) in
    (
      granted (lock tid m).0 tid ++ gs,
      m',
      rw ran,
      w',
      requests_move m.wait_queue tid (requests cs) _ _ gs m'.wait_queue moved order,
      omega (arith, length-append (granted (lock tid m).0 tid) gs),
    )
run_in_order (unlocks ∷ cs) m v (h, d) =
    let (o, n, freed, w, moved, held, fewer) = unlock-step m v h in
    let (gs, m', ran, w', order, count) =
      run_in_order cs n w (subst (λ k. Disciplined k cs) (sym fewer) d) in
    (
      woken o ++ gs,
      m',
      rw freed (rw ran),
      w',
      releases_move m.wait_queue (requests cs) _ _ gs m'.wait_queue moved order,
      omega (arith, length-append (woken o) gs),
    )
