-- ===== src/Ch8/Deadlock/Sweep.antt =====
-- The passes of the check (deadlock.rs) over rows, against the order in which threads can finish.
use tg_rcore_tutorial.Prelude.{
  ℕ, zero, suc, ◌+◌, ◌≤◌, ◌≡◌, refl, ap, sym, ◌∙◌, true, List, [], ◌∷◌, length, arith,
}
use tg_rcore_tutorial.Ch8.Deadlock.{Row, Work, fits, reclaim, can_finish, release}
use tg_rcore_tutorial.Ch8.Deadlock.Completes.{
  by_kind, Resource, mutex, semaphore, Claim, Fits, returned,
}

-- The entry of a vector, 0 outside.
abbrev pub at : List ℕ → ℕ → ℕ
at [] i = 0
at (x ∷ xs) zero = x
at (x ∷ xs) (suc i) = at xs i

abbrev pub at_resource : List ℕ → List ℕ → Resource → ℕ
at_resource ms ss (mutex i) = at ms i
at_resource ms ss (semaphore i) = at ss i

abbrev pub free : Work → Resource → ℕ
free w = at_resource w.work_m w.work_s

abbrev pub claim : Row → Claim
claim r = record { held = at_resource r.alloc_m r.alloc_s; wanted = at_resource r.need_m r.need_s }

-- The vectors of both have one length for each kind.
abbrev pub SameShape : Row → Work → Type 0
SameShape r w =
    (length r.alloc_m ≡ length w.work_m)
    × (length r.need_m ≡ length w.work_m)
    × (length r.alloc_s ≡ length w.work_s)
    × (length r.need_s ≡ length w.work_s)

fits-at : (xs ws : List ℕ) → length xs ≡ length ws → fits xs ws ≡ true → (i : ℕ) → at xs i ≤ at ws i
unfolding fits
fits-at [] ws e h i = omega arith
fits-at (x ∷ xs) [] e h i = absurd (omega arith)
fits-at (x ∷ xs) (w ∷ ws) e h zero = ground arith
fits-at (x ∷ xs) (w ∷ ws) e h (suc i) = fits-at xs ws (omega arith) (ground arith) i

at-fits : (xs ws : List ℕ) → ((i : ℕ) → at xs i ≤ at ws i) → fits xs ws ≡ true
unfolding fits
at-fits [] ws h = refl
at-fits (x ∷ xs) [] h = refl
at-fits (x ∷ xs) (w ∷ ws) h = ground (arith, h zero, at-fits xs ws (λ i. h (suc i)))

at-reclaim :
    (ws xs : List ℕ) → length xs ≡ length ws → (i : ℕ) → at (reclaim ws xs) i ≡ at ws i + at xs i
unfolding reclaim
at-reclaim [] [] e i = refl
at-reclaim [] (x ∷ xs) e i = absurd (omega arith)
at-reclaim (w ∷ ws) [] e i = absurd (omega arith)
at-reclaim (w ∷ ws) (x ∷ xs) e zero = refl
at-reclaim (w ∷ ws) (x ∷ xs) e (suc i) = at-reclaim ws xs (omega arith) i

length-reclaim : (ws xs : List ℕ) → length (reclaim ws xs) ≡ length ws
unfolding reclaim
length-reclaim [] xs = refl
length-reclaim (w ∷ ws) [] = refl
length-reclaim (w ∷ ws) (x ∷ xs) = ap suc (length-reclaim ws xs)

pub can_finish-Fits :
    (r : Row) (w : Work) → SameShape r w → can_finish r w ≡ true → Fits (claim r) (free w)
unfolding can_finish
can_finish-Fits r w (_, em, _, es) h (mutex i) = fits-at r.need_m w.work_m em (ground arith) i
can_finish-Fits r w (_, em, _, es) h (semaphore i) = fits-at r.need_s w.work_s es (ground arith) i

pub Fits-can_finish : (r : Row) (w : Work) → Fits (claim r) (free w) → can_finish r w ≡ true
unfolding can_finish
Fits-can_finish r w h = ground (
  arith,
  at-fits r.need_m w.work_m (λ i. h (mutex i)),
  at-fits r.need_s w.work_s (λ i. h (semaphore i)),
)

pub free-release :
    (r : Row) (w : Work) → SameShape r w → free (release r w) ≡ returned (claim r) (free w)
unfolding release
free-release r w (em, _, es, _) =
    by_kind (at-reclaim w.work_m r.alloc_m em) (at-reclaim w.work_s r.alloc_s es)

pub SameShape-release : (r q : Row) (w : Work) → SameShape q w → SameShape q (release r w)
unfolding release
SameShape-release r q w (a, b, c, d) =
    let m = length-reclaim w.work_m r.alloc_m in
    let s = length-reclaim w.work_s r.alloc_s in (a ∙ sym m, b ∙ sym m, c ∙ sym s, d ∙ sym s)
