-- ===== src/TaskManage/ProcThreadRel/WaitThread.antt =====
-- What a wait for a thread gives back (proc_thread_rel.rs).
use tg_rcore_tutorial.Prelude.{
  ◌≡◌, true, false, ◌==◌, none, some, [], ◌∷◌, ◌++◌, arith, extract, extract-erase, extract-snoc,
  contains, contains-count, count, count-erase, erase,
}
use tg_rcore_tutorial.Prelude.Int.{ℤ, negsuc}
use tg_rcore_tutorial.TaskManage.ProcThreadRel.{ThreadId, ProcThreadRel, del_thread, wait_thread}

pub del_thread_lem :
    (t : ThreadId) (code : ℤ) (r : ProcThreadRel)
    → contains r.threads t ≡ true
    → del_thread t code r
      ≡ record r { threads = erase t r.threads; dead_threads = r.dead_threads ++ (t, code) ∷ [] }
unfolding del_thread
del_thread_lem t code r here = ground (arith, extract-erase t r.threads, here)

-- A thread that is listed once and was not reaped under its id: a wait for it answers -2, however
-- often it is made. When the thread exits with a code, the next wait gives that code and leaves no
-- trace of the thread, so that a further wait finds no such thread.
wait_thread-del_thread :
    (t : ThreadId) (code : ℤ) (r : ProcThreadRel)
    → count t r.threads ≡ 1
    → extract (λ d. d.0 == t) r.dead_threads ≡ none
    → let reaped = record r { threads = erase t r.threads } in
      (wait_thread t r ≡ (some (negsuc 1), r))
      × (wait_thread t (del_thread t code r) ≡ (some code, reaped))
      × (wait_thread t reaped ≡ (none, reaped))
unfolding wait_thread
wait_thread-del_thread t code r h unseen =
    let here : contains r.threads t ≡ true = ground (arith, contains-count r.threads t) in
    let gone : contains (erase t r.threads) t ≡ false =
      ground (arith, contains-count (erase t r.threads) t, count-erase t t r.threads) in
    let self : (t == t) ≡ true = ground arith in
    (
      ground (arith, extract-erase t r.threads, here, unseen),
      rw (del_thread_lem t code r here) (
          ground (
            arith,
            extract-snoc (λ (d : ThreadId × ℤ). d.0 == t) r.dead_threads (t, code) unseen self,
          )),
      ground (arith, extract-erase t (erase t r.threads)),
    )
