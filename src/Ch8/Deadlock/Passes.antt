-- ===== src/Ch8/Deadlock/Passes.antt =====
-- The loop of the check (deadlock.rs): what a pass does, and that the passes end.
use tg_rcore_tutorial.Prelude.{
  ℕ, zero, suc, ◌+◌, ◌<◌, ◌≤◌, ◌≡◌, refl, ap, sym, subst, ◌∙◌, ◌↔◌, inl, inr, Bool, true, false,
  Bool-cases, Option, some, List, [], ◌∷◌, ◌++◌, append_assoc, length, arith,
}
use tg_rcore_tutorial.Ch8.Deadlock.{
  Row, Work, Slot, can_finish, release, sweep, passes, unfinished, is_deadlock,
}
use tg_rcore_tutorial.Ch8.Deadlock.Completes.{
  Claim, Picks, here, there, Fits, Completes, done, next, Completes-rest,
}
use tg_rcore_tutorial.Ch8.Deadlock.Sweep.{
  free, claim, SameShape, can_finish-Fits, Fits-can_finish, free-release, SameShape-release,
}

-- The claims of the threads that have not finished.
abbrev pub pending : List Slot → List Claim
pending [] = []
pending ((r, true) ∷ slots) = pending slots
pending ((r, false) ∷ slots) = claim r ∷ pending slots

abbrev pub AllShape : List Slot → Work → Type 0
AllShape [] w = Unit
AllShape ((r, ended) ∷ slots) w = SameShape r w × AllShape slots w

-- A pass, thread by thread.
data Swept : List Slot → Work → List Slot → Work → Bool → Type 0 where
  nil : {w : Work} → Swept [] w [] w false
  skip :
      {r : Row} {slots slots' : List Slot} {w w' : Work} {found : Bool}
      → Swept slots w slots' w' found
      → Swept ((r, true) ∷ slots) w ((r, true) ∷ slots') w' found
  wait :
      {r : Row} {slots slots' : List Slot} {w w' : Work} {found : Bool}
      → can_finish r w ≡ false
      → Swept slots w slots' w' found
      → Swept ((r, false) ∷ slots) w ((r, false) ∷ slots') w' found
  finish :
      {r : Row} {slots slots' : List Slot} {w w' : Work} {found : Bool}
      → can_finish r w ≡ true
      → Swept slots (release r w) slots' w' found
      → Swept ((r, false) ∷ slots) w ((r, true) ∷ slots') w' true

sweep-Swept :
    (slots : List Slot) (w : Work)
    → Swept slots w (sweep slots w).0 (sweep slots w).1 (sweep slots w).2
unfolding sweep
sweep-Swept [] w = nil
sweep-Swept ((r, true) ∷ slots) w = skip (sweep-Swept slots w)
sweep-Swept ((r, false) ∷ slots) w = elim (Bool-cases (can_finish r w)) [
  | inl e ↦ rw e (finish e (sweep-Swept slots (release r w)))
  | inr e ↦ rw e (wait e (sweep-Swept slots w))
]

AllShape-release :
    (r : Row) (slots : List Slot) (w : Work) → AllShape slots w → AllShape slots (release r w)
AllShape-release r [] w h = tt
AllShape-release r ((q, ended) ∷ slots) w (h, hs) =
    (SameShape-release r q w h, AllShape-release r slots w hs)

-- The work changes by what is given back, whatever slots the shape is asked of.
Swept-AllShape :
    {slots slots' : List Slot} {w w' : Work} {found : Bool} (others : List Slot)
    → Swept slots w slots' w' found
    → AllShape others w
    → AllShape others w'
Swept-AllShape others nil h = h
Swept-AllShape others (skip s) h = Swept-AllShape others s h
Swept-AllShape others (wait e s) h = Swept-AllShape others s h
Swept-AllShape others (finish {r} {w = w} e s) h =
    Swept-AllShape others s (AllShape-release r others w h)

Swept-slots :
    {slots slots' : List Slot} {w w' : Work} {found : Bool} (v : Work)
    → Swept slots w slots' w' found
    → AllShape slots v
    → AllShape slots' v
Swept-slots v nil h = h
Swept-slots v (skip s) (h, hs) = (h, Swept-slots v s hs)
Swept-slots v (wait e s) (h, hs) = (h, Swept-slots v s hs)
Swept-slots v (finish e s) (h, hs) = (h, Swept-slots v s hs)

Picks-append : (c : Claim) (pre rest : List Claim) → Picks c (pre ++ rest) (pre ++ c ∷ rest)
Picks-append c [] rest = here
Picks-append c (d ∷ pre) rest = there (Picks-append c pre rest)

-- The threads can all finish after the pass exactly if they could before; `pre` stands for
-- those that the pass has left behind.
Swept-Completes :
    {slots slots' : List Slot} {w w' : Work} {found : Bool} (pre : List Claim)
    → Swept slots w slots' w' found
    → AllShape slots w
    → Completes (free w') (pre ++ pending slots') ↔ Completes (free w) (pre ++ pending slots)
Swept-Completes pre nil h = (λ c. c, λ c. c)
Swept-Completes pre (skip s) (h, hs) = Swept-Completes pre s hs
Swept-Completes pre (wait {r} {slots} {slots'} e s) (h, hs) =
    rw
      (
        sym (append_assoc pre (claim r ∷ []) (pending slots)),
        sym (append_assoc pre (claim r ∷ []) (pending slots')),
      )
      (Swept-Completes (pre ++ claim r ∷ []) s hs)
Swept-Completes pre (finish {r} {slots} {w = w} e s) (h, hs) =
    let more = Swept-Completes pre s (AllShape-release r slots w hs) in
    let freed = free-release r w h in
    let pick = Picks-append (claim r) pre (pending slots) in
    (
      λ c.
          next (claim r) (pre ++ pending slots) pick (can_finish-Fits r w h e)
            (subst (λ f. Completes f (pre ++ pending slots)) freed (more.0 c)),
      λ c.
          more.1
            (subst (λ f. Completes f (pre ++ pending slots)) (sym freed) (Completes-rest c pick)),
    )

-- A pass that finds nobody leaves the work, and nobody who waits can be served.
Swept-stuck :
    {slots slots' : List Slot} {w w' : Work} {found : Bool}
    → Swept slots w slots' w' found
    → found ≡ false
    → (w' ≡ w) × (slots' ≡ slots)
Swept-stuck nil e = (refl, refl)
Swept-stuck (skip {r} s) e = let (a, b) = Swept-stuck s e in (a, ap (◌∷◌ (r, true)) b)
Swept-stuck (wait {r} f s) e = let (a, b) = Swept-stuck s e in (a, ap (◌∷◌ (r, false)) b)
Swept-stuck (finish f s) e = cc

Swept-none_fit :
    {slots slots' : List Slot} {w w' : Work} {found : Bool} {c : Claim} {rest : List Claim}
    → Swept slots w slots' w' found
    → found ≡ false
    → Picks c rest (pending slots)
    → ¬ Fits c (free w)
Swept-none_fit nil e p fit = elim p [ ]
Swept-none_fit (skip s) e p fit = Swept-none_fit s e p fit
Swept-none_fit (wait {r} {w = w} f s) e here fit = cc (f, Fits-can_finish r w fit)
Swept-none_fit (wait f s) e (there p) fit = Swept-none_fit s e p fit
Swept-none_fit (finish f s) e p fit = cc

length-Swept :
    {slots slots' : List Slot} {w w' : Work} {found : Bool}
    → Swept slots w slots' w' found
    → (length (pending slots') ≤ length (pending slots))
      × (found ≡ true → length (pending slots') < length (pending slots))
length-Swept nil = (omega arith, λ e. cc)
length-Swept (skip s) = length-Swept s
length-Swept (wait f s) = let (a, b) = length-Swept s in (omega (arith, a), λ e. omega (arith, b e))
length-Swept (finish f s) = let (a, b) = length-Swept s in (omega (arith, a), λ e. omega (arith, a))

-- The loop from a state on: it ends, and all are finished exactly if they can be.
abbrev pub Settles : ℕ → List Slot → Work → Type 0
Settles fuel slots w =
    (slots' : List Slot) × (passes fuel slots w ≡ some slots')
    × ((pending slots' ≡ []) ↔ Completes (free w) (pending slots))

stuck-Completes :
    {slots slots' : List Slot} {w w' : Work}
    → Swept slots w slots' w' false
    → Completes (free w) (pending slots)
    → pending slots ≡ []
stuck-Completes s (done e) = e
stuck-Completes s (next c rest p fit more) = absurd (Swept-none_fit s refl p fit)

after_pass : ℕ → List Slot × Work × Bool → Option (List Slot)
after_pass fuel s = elim s.2 [ true ↦ passes fuel s.0 s.1 | false ↦ some s.0 ]

pass-Settles :
    (fuel : ℕ) (slots : List Slot) (w : Work) (s : List Slot × Work × Bool)
    → sweep slots w ≡ s
    → Swept slots w s.0 s.1 s.2
    → AllShape slots w
    → (s.2 ≡ true → Settles fuel s.0 s.1)
    → Settles (suc fuel) slots w
unfolding passes after_pass
pass-Settles fuel slots w (slots', w', true) e s h more =
    let same = Swept-Completes [] s h in
    let (last, run, iff) = more refl in
    (last, ap (after_pass fuel) e ∙ run, (λ none. same.0 (iff.0 none), λ c. iff.1 (same.1 c)))
pass-Settles fuel slots w (slots', w', false) e s h more =
    let (_, same) = Swept-stuck s refl in
    (
      slots',
      ap (after_pass fuel) e,
      (λ none. done (ap pending (sym same) ∙ none), λ c. ap pending same ∙ stuck-Completes s c),
    )

pub passes_lem :
    (fuel : ℕ) (slots : List Slot) (w : Work)
    → AllShape slots w
    → length (pending slots) < fuel
    → Settles fuel slots w
passes_lem zero slots w h lt = absurd (omega arith)
passes_lem (suc fuel) slots w h lt =
    let s = sweep-Swept slots w in
    pass-Settles fuel slots w (sweep slots w) refl s h λ found.
      passes_lem fuel (sweep slots w).0 (sweep slots w).1
        (Swept-slots (sweep slots w).1 s (Swept-AllShape slots s h))
        (omega (arith, (length-Swept s).1 found, lt))

pub length-pending : (rs : List Row) → length (pending (unfinished rs)) < length rs + 1
unfolding unfinished
length-pending [] = omega arith
length-pending (r ∷ rs) = omega (arith, length-pending rs)

pub is_deadlock_lem : (slots : List Slot) → (is_deadlock slots ≡ false) ↔ (pending slots ≡ [])
unfolding is_deadlock
is_deadlock_lem [] = (λ e. refl, λ e. refl)
is_deadlock_lem ((r, true) ∷ slots) = is_deadlock_lem slots
is_deadlock_lem ((r, false) ∷ slots) = (λ e. cc, λ e. cc)
