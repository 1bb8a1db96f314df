-- ===== src/Ch8/Deadlock/Completes.antt =====
-- What the check of deadlock.rs decides: whether the threads can all finish, one after the other.
use tg_rcore_tutorial.Prelude.{
  ℕ, ◌+◌, ◌≤◌, ◌≡◌, ◌≢◌, refl, ap, subst, fun_ext, ◌⊎◌, inl, inr, List, [], ◌∷◌, arith,
}

pub data Resource : Type 0 where
  mutex : ℕ → Resource
  semaphore : ℕ → Resource

pub by_kind :
    {f g : Resource → ℕ}
    → ((i : ℕ) → f (mutex i) ≡ g (mutex i))
    → ((i : ℕ) → f (semaphore i) ≡ g (semaphore i))
    → f ≡ g
by_kind {f} {g} ms ss = fun_ext each
  where
    each : (r : Resource) → f r ≡ g r
    each (mutex i) = ms i
    each (semaphore i) = ss i

-- What a thread holds and what it asks for, of each resource.
pub record Claim : Type 0 where
  pub held : Resource → ℕ
  pub wanted : Resource → ℕ

abbrev pub claims : (ℕ → Claim) → List ℕ → List Claim
claims claim [] = []
claims claim (t ∷ ts) = claim t ∷ claims claim ts

-- `Picks c rest cs`: the list is `cs` with `c` at some place, and without it `rest`.
pub data Picks (c : Claim) : List Claim → List Claim → Type 0 where
  here : {rest : List Claim} → Picks c rest (c ∷ rest)
  there : {d : Claim} {rest cs : List Claim} → Picks c rest cs → Picks c (d ∷ rest) (d ∷ cs)

abbrev pub Fits : Claim → (Resource → ℕ) → Type 0
Fits c free = (r : Resource) → c.wanted r ≤ free r

abbrev pub returned : Claim → (Resource → ℕ) → Resource → ℕ
returned c free r = free r + c.held r

-- With the free resources, the threads can finish in some order: the first gets all that it asks
-- for, and gives back what it holds, before the next.
pub data Completes : (Resource → ℕ) → List Claim → Type 0 where
  done : {free : Resource → ℕ} {cs : List Claim} → cs ≡ [] → Completes free cs
  next :
      {free : Resource → ℕ} {cs : List Claim} (c : Claim) (rest : List Claim)
      → Picks c rest cs
      → Fits c free
      → Completes (returned c free) rest
      → Completes free cs

pub Picks-not-nil : {c : Claim} {rest cs : List Claim} → Picks c rest cs → cs ≢ []
Picks-not-nil here e = cc
Picks-not-nil (there p) e = cc

-- Two picks from one list are the same, or each can be made after the other.
pub Picks-two :
    {c d : Claim} {rest rest' cs : List Claim}
    → Picks c rest cs
    → Picks d rest' cs
    → ((c ≡ d) × (rest ≡ rest')) ⊎ ((both : List Claim) × Picks d both rest × Picks c both rest')
Picks-two here here = inl (refl, refl)
Picks-two here (there q) = inr (_, q, here)
Picks-two (there p) here = inr (_, here, p)
Picks-two (there {d = e} p) (there q) = elim (Picks-two p q) [
  | inl (same, f) ↦ inl (same, ap (◌∷◌ e) f)
  | inr (both, q', p') ↦ inr (_, there q', there p')
]

pub returned_comm :
    (c d : Claim) (free : Resource → ℕ)
    → returned c (returned d free) ≡ returned d (returned c free)
returned_comm c d free = fun_ext λ r. omega arith

-- Whoever finishes first, the others still can.
pub Completes-rest :
    {free : Resource → ℕ} {c : Claim} {rest cs : List Claim}
    → Completes free cs
    → Picks c rest cs
    → Completes (returned c free) rest
Completes-rest (done e) p = absurd (Picks-not-nil p e)
Completes-rest {free} {c} (next d rest' q fits more) p = elim (Picks-two p q) [
  | inl (e, f) ↦ rw (e, f) more
  | inr (both, q', p') ↦
      next d both q' (λ r. omega (arith, fits r))
        (subst (λ w. Completes w both) (returned_comm c d free) (Completes-rest more p'))
]

pub Completes-mono :
    {free free' : Resource → ℕ} {cs : List Claim}
    → Completes free cs
    → ((r : Resource) → free r ≤ free' r)
    → Completes free' cs
Completes-mono (done e) le = done e
Completes-mono (next c rest p fits more) le =
    next c rest p (λ r. omega (arith, fits r, le r))
      (Completes-mono more (λ r. omega (arith, le r)))
