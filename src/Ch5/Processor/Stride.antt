-- ===== src/Ch5/Processor/Stride.antt =====
-- The choice of the stride scheduler (processor.rs).
use tg_rcore_tutorial.Prelude.{
  ℕ, suc, ◌+◌, ◌/◌, ◌%◌, ◌^◌, ◌≤◌, ◌≡◌, ◌≢◌, ◌∙◌, refl, arith, Option, none, some, ok, is_empty,
  remove_at_lem, get_elem?, Option-cases, ◌⊎◌, inl, inr, List, [], ◌∷◌, count, contains, true,
  false, if◌then◌else◌, ◌==◌,
}
use tg_rcore_tutorial.Prelude.Map
use tg_rcore_tutorial.Prelude.Map.{Map}
use tg_rcore_tutorial.TaskManage.ProcRel.{ProcId, usize_max}
use tg_rcore_tutorial.Ch5.Processor.{
  Process, ProcManager, advance, closer, dispatch, fetch, search_min,
}

module _ {R : Type 0} (tasks : Map (Process R)) where
  -- The value by which a pid competes: a pid with no process competes by the greatest word.
  abbrev pub stride_of : ProcId → ℕ
  stride_of id = elim (tasks id) [ none ↦ usize_max | some t ↦ t.stride ]

  abbrev pub IsBest : ℕ → List ProcId → ℕ × ℕ → ℕ × ℕ → Type 0
  IsBest idx ids (s, i) (s', i') =
      (s' ≤ s)
      × ((j : ProcId) → contains ids j ≡ true → s' ≤ stride_of j)
      × (((s' ≡ s) × (i' ≡ i))
          ⊎ ((id : ProcId) × (k : ℕ) × (i' ≡ idx + k)
              × (get_elem? ids k ≡ some id)
              × (s' ≡ stride_of id)))

  closer-IsBest :
      (idx : ℕ) (id : ProcId) (s i : ℕ)
      → s ≤ usize_max
      → let (s', i') = closer tasks idx id (s, i) in
        (s' ≤ s)
        × (s' ≤ stride_of id)
        × (((s' ≡ s) × (i' ≡ i)) ⊎ ((i' ≡ idx) × (s' ≡ stride_of id)))
  unfolding closer
  closer-IsBest idx id s i h = ground arith

  search_min-IsBest :
      (ids : List ProcId) (idx s i : ℕ)
      → s ≤ usize_max
      → IsBest idx ids (s, i) (search_min tasks idx ids (s, i))
  unfolding search_min
  search_min-IsBest [] idx s i h = (omega arith, λ j m. cc, inl (refl, refl))
  search_min-IsBest (id ∷ ids) idx s i h =
      let (a, b, c) = closer-IsBest idx id s i h in
      let best = closer tasks idx id (s, i) in
      let (a', b', c') = search_min-IsBest ids (idx + 1) best.0 best.1 (omega arith) in
      (
        omega arith,
        λ j m. ground (arith, b' j),
        elim c' [
          | inl (e, f) ↦ elim c [
            | inl (g, k) ↦ inl (e ∙ g, f ∙ k)
            | inr (g, k) ↦ inr (id, 0, omega arith, refl, omega arith)
          ]
          | inr (x, k, e, f, g) ↦ inr (x, suc k, omega arith, f, g)
        ],
      )

-- Strides are words, and no process has priority 0.
pub record IsValid {R : Type 0} (m : ProcManager R) : Type 0 where
  pub words : (id : ProcId) (t : Process R) → m.tasks id ≡ some t → t.stride ≤ usize_max
  pub positive : (id : ProcId) (t : Process R) → m.tasks id ≡ some t → t.priority ≢ 0

module _ {R : Type 0} where
  abbrev pub advanced : Option (Process R) → Option (Process R)
  advanced none = none
  advanced (some t) = some (record t { stride = (t.stride + 255 / t.priority) % 2 ^ 64 })

  advance_lem :
      (id : ProcId) (tasks : Map (Process R)) (o : Option (Process R))
      → tasks id ≡ o
      → ((t : Process R) → tasks id ≡ some t → t.priority ≢ 0)
      → (tasks' : Map (Process R)) × (advance id tasks ≡ ok tasks')
        × ((j : ProcId) → tasks' j ≡ (if id == j then advanced (tasks j) else tasks j))
  unfolding advance
  advance_lem id tasks none e pos = (tasks, ground arith, λ j. ground (arith, e))
  advance_lem id tasks (some t) e pos =
      let nonzero : (t.priority == 0) ≡ false = ground (arith, pos t e) in
      (
        Map.insert id (record t { stride = (t.stride + 255 / t.priority) % 2 ^ 64 }) tasks,
        rw (e, advance) (rw nonzero),
        λ j. ground (arith, e),
      )

  stride_of-le : (m : ProcManager R) → IsValid m → (j : ProcId) → stride_of m.tasks j ≤ usize_max
  stride_of-le m v j = elim (Option-cases (m.tasks j)) [
    | inl e ↦ ground (arith, e)
    | inr (t, e) ↦ ground (arith, e, v.words j t e)
  ]

  -- The position that the search gives holds a pid of least stride.
  search_min-least :
      (m : ProcManager R) (x : ProcId) (xs : List ProcId)
      → IsValid m
      → m.ready_queue ≡ x ∷ xs
      → (id : ProcId) × (get_elem? m.ready_queue
            (search_min m.tasks 0 m.ready_queue (usize_max, 0)).1
          ≡ some id)
        × ((j : ProcId)
            → contains m.ready_queue j ≡ true
            → stride_of m.tasks id ≤ stride_of m.tasks j)
  search_min-least m x xs v e =
      let (a, b, c) = search_min-IsBest m.tasks m.ready_queue 0 usize_max 0 (omega arith) in
      elim c [
        | inl (f, g) ↦
            (x, rw g (ground (arith, e)), λ j h. omega (arith, b j h, stride_of-le m v x))
        | inr (id, k, f, g, h) ↦
            let at : (search_min m.tasks 0 m.ready_queue (usize_max, 0)).1 ≡ k = omega arith in
            (id, rw at g, λ j p. omega (arith, b j p))
      ]

  -- With processes ready, strides that are words and no priority 0, `fetch` does not panic: it
  -- takes one pid out of the queue and leaves the others, that pid has the least stride of all
  -- that are ready, and its process alone is changed, its stride growing by 255 over its
  -- priority.
  pub fetch_lem :
      (m : ProcManager R) (x : ProcId) (xs : List ProcId)
      → IsValid m
      → m.ready_queue ≡ x ∷ xs
      → (id : ProcId) × (m' : ProcManager R) × (fetch m ≡ ok (some id, m'))
        × ((c : ProcId) → count c m.ready_queue ≡ count c (id ∷ m'.ready_queue))
        × ((j : ProcId)
            → contains m.ready_queue j ≡ true
            → stride_of m.tasks id ≤ stride_of m.tasks j)
        × ((j : ProcId) → m'.tasks j ≡ (if id == j then advanced (m.tasks j) else m.tasks j))
  unfolding fetch dispatch
  fetch_lem m x xs v e =
      let (id, at, least) = search_min-least m x xs v e in
      let (rest, taken, same) = remove_at_lem _ m.ready_queue id at in
      let (tasks, run, changed) = advance_lem id m.tasks (m.tasks id) refl (v.positive id) in
      let busy : is_empty m.ready_queue ≡ false = ground (arith, e) in
      (
        id,
        record { tasks = tasks; ready_queue = rest },
        rw (busy, fetch) (rw taken (rw run)),
        same,
        least,
        changed,
      )
