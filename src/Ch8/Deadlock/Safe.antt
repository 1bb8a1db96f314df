-- ===== src/Ch8/Deadlock/Safe.antt =====
-- Threads that can all finish (the condition that deadlock.rs checks), under changes of what they
-- hold and want.
use tg_rcore_tutorial.Prelude.{
  ℕ, ◌+◌, ◌<◌, ◌≤◌, ◌≡◌, ◌≢◌, refl, ap₂, sym, fun_ext, subst, ◌==◌, ◌⊎◌, inl, inr, Bool-cases, List,
  [], ◌∷◌, count, erase, count-erase, arith,
}
use tg_rcore_tutorial.Ch8.Deadlock.Completes.{
  Resource, Claim, claims, Picks, Picks-not-nil, here, there, Fits, returned, Completes, done, next,
  Completes-rest, Completes-mono,
}

abbrev pub IsIdle : Claim → Type 0
IsIdle c = (r : Resource) → (c.held r ≡ 0) × (c.wanted r ≡ 0)

-- The list has each thread once at most, and leaves out idle threads only.
abbrev pub Covers : (ℕ → Claim) → List ℕ → Type 0
Covers claim ts = ((t : ℕ) → count t ts ≤ 1) × ((t : ℕ) → (count t ts ≡ 1) ⊎ IsIdle (claim t))

Picks-claims :
    (claim : ℕ → Claim) (t : ℕ) (ts : List ℕ)
    → 0 < count t ts
    → Picks (claim t) (claims claim (erase t ts)) (claims claim ts)
Picks-claims claim t [] h = absurd (omega arith)
Picks-claims claim t (u ∷ ts) h = elim (Bool-cases (u == t)) [
  | inl e ↦
      let same : u ≡ t = ground arith in
      rw e
        (subst (λ v. Picks (claim t) (claims claim ts) (claim v ∷ claims claim ts)) (sym same) here)
  | inr e ↦ rw e (there (Picks-claims claim t ts (ground arith)))
]

pub picked :
    (claim : ℕ → Claim) {c : Claim} {rest cs : List Claim}
    → Picks c rest cs
    → (ts : List ℕ) → cs ≡ claims claim ts
    → (t : ℕ) × (ts' : List ℕ) × (c ≡ claim t)
      × (rest ≡ claims claim ts')
      × ((u : ℕ) → count u ts ≡ count u (t ∷ ts'))
picked claim p [] e = absurd (Picks-not-nil p e)
picked claim here (u ∷ ts) e = (u, ts, cc, cc, λ v. refl)
picked claim (there p) (u ∷ ts) e =
    let (t, ts', same_c, same, counts) = picked claim p ts cc in
    (t, u ∷ ts', same_c, cc, λ v. omega (arith, counts v))

-- Idle threads finish at once.
idle-Completes :
    (claim : ℕ → Claim) (ts : List ℕ) (free : Resource → ℕ)
    → ((t : ℕ) → 0 < count t ts → IsIdle (claim t))
    → Completes free (claims claim ts)
idle-Completes claim [] free h = done refl
idle-Completes claim (t ∷ ts) free h =
    let idle = h t (ground arith) in
    next (claim t) (claims claim ts) here (λ r. omega (arith, idle r))
      (idle-Completes claim ts (returned (claim t) free) (λ u lt. h u (omega arith)))

-- Whether all can finish does not depend on the list that covers them.
transfer :
    (claim : ℕ → Claim) {free : Resource → ℕ} {cs : List Claim}
    → Completes free cs
    → (ts us : List ℕ) → cs ≡ claims claim ts
    → ((t : ℕ) → (count t us ≡ count t ts) ⊎ IsIdle (claim t))
    → Completes free (claims claim us)
transfer claim {free} (done e) [] us same h =
    idle-Completes claim us free (λ t lt. elim (h t) [ inl e ↦ absurd (omega arith) | inr i ↦ i ])
transfer claim (done e) (t ∷ ts) us same h = cc
transfer claim {free} (next c rest p fits more) ts us same h =
    let (t, ts', same_c, same_rest, counts) = picked claim p ts same in
    elim (h t) [
      | inl e ↦
          next (claim t) (claims claim (erase t us))
            (Picks-claims claim t us (ground (arith, counts t)))
            (subst (λ d. Fits d free) same_c fits)
            (subst (λ d. Completes (returned d free) (claims claim (erase t us))) same_c
              (transfer claim more ts' (erase t us) same_rest (λ u. elim (h u) [
                | inl f ↦ inl (ground (arith, counts u, count-erase u t us))
                | inr i ↦ inr i
              ])))
      | inr idle ↦
          Completes-mono
            (transfer claim more ts' us same_rest (λ u. elim (Bool-cases (t == u)) [
              | inl f ↦ inr (subst (λ v. IsIdle (claim v)) (ground arith) idle)
              | inr f ↦ elim (h u) [ inl k ↦ inl (ground (arith, counts u)) | inr i ↦ inr i ]
            ]))
            (λ r. ground (arith, idle r, same_c))
    ]

abbrev pub IsSafe : (Resource → ℕ) → (ℕ → Claim) → Type 0
IsSafe free claim = (ts : List ℕ) × Covers claim ts × Completes free (claims claim ts)

claims-same :
    (claim claim' : ℕ → Claim) (ts : List ℕ)
    → ((t : ℕ) → 0 < count t ts → claim t ≡ claim' t)
    → claims claim ts ≡ claims claim' ts
claims-same claim claim' [] h = refl
claims-same claim claim' (t ∷ ts) h =
    ap₂ (λ c cs. c ∷ cs) (h t (ground arith))
      (claims-same claim claim' ts (λ u lt. h u (omega arith)))

-- A list that covers can be had with any given thread in it.
with_thread :
    (free : Resource → ℕ) (claim : ℕ → Claim) (c : ℕ)
    → IsSafe free claim
    → (ts : List ℕ) × (count c ts ≡ 1) × Covers claim ts × Completes free (claims claim ts)
with_thread free claim c (ts, (once, rest), all) = elim (rest c) [
  | inl e ↦ (ts, e, (once, rest), all)
  | inr idle ↦ elim (Bool-cases (count c ts == 0)) [
    | inl e ↦ (
      c ∷ ts,
      ground arith,
      (
        λ t. ground (arith, once t),
        λ t. elim (Bool-cases (c == t)) [
          | inl f ↦ inl (ground arith)
          | inr f ↦ elim (rest t) [ inl g ↦ inl (ground arith) | inr i ↦ inr i ]
        ],
      ),
      transfer claim all ts (c ∷ ts) refl (λ t. elim (Bool-cases (c == t)) [
        | inl f ↦ inr (subst (λ v. IsIdle (claim v)) (ground arith) idle)
        | inr f ↦ inl (ground arith)
      ]),
    )
    | inr e ↦ (ts, ground (arith, once c), (once, rest), all)
  ]
]

-- Both of two threads want nothing after a change, which is one of these two alone, and what is
-- free and what they hold together is no less than before. They may be one thread.
module _ (free free' : Resource → ℕ) (claim claim' : ℕ → Claim) where
  Covers-same :
      (ts : List ℕ) (c : ℕ)
      → count c ts ≡ 1
      → ((t : ℕ) → t ≢ c → (claim t ≡ claim' t) ⊎ (count t ts ≡ 1))
      → Covers claim ts
      → Covers claim' ts
  Covers-same ts c e same (once, rest) = (
    once,
    λ t. elim (Bool-cases (t == c)) [
      | inl f ↦ inl (ground (arith, e))
      | inr f ↦ elim (same t (ground arith)) [
        | inl g ↦ elim (rest t) [ inl k ↦ inl k | inr i ↦ inr (subst IsIdle g i) ]
        | inr k ↦ inl k
      ]
    ],
  )

  -- One thread, that runs.
  pub IsSafe-runs :
      (c : ℕ)
      → IsSafe free claim
      → ((t : ℕ) → t ≢ c → claim t ≡ claim' t)
      → ((r : Resource) → (claim' c).wanted r ≡ 0)
      → ((r : Resource) → free r + (claim c).held r ≤ free' r + (claim' c).held r)
      → IsSafe free' claim'
  IsSafe-runs c safe same runs sum =
      let (ts, e, cover, all) = with_thread free claim c safe in
      let without = Completes-rest all (Picks-claims claim c ts (omega arith)) in
      let others : claims claim (erase c ts) ≡ claims claim' (erase c ts) =
        claims-same claim claim' (erase c ts)
          (λ t lt. same t (λ f. ground (arith, count-erase t c ts, e, f))) in
      (
        ts,
        Covers-same ts c e (λ t ne. inl (same t ne)) cover,
        next (claim' c) (claims claim' (erase c ts)) (Picks-claims claim' c ts (omega arith))
            (λ r. omega (arith, runs r))
            (subst (Completes (returned (claim' c) free')) others
              (Completes-mono without (λ r. omega (arith, sum r)))),
      )

  -- A thread that runs, and one that it wakes.
  pub IsSafe-wakes :
      (c w : ℕ)
      → IsSafe free claim
      → w ≢ c
      → ¬ IsIdle (claim w)
      → ((t : ℕ) → t ≢ c → t ≢ w → claim t ≡ claim' t)
      → ((r : Resource) → (claim' c).wanted r ≡ 0)
      → ((r : Resource) → (claim' w).wanted r ≡ 0)
      → ((r : Resource)
          → free r + (claim c).held r + (claim w).held r
            ≤ free' r + (claim' c).held r + (claim' w).held r)
      → IsSafe free' claim'
  IsSafe-wakes c w safe ne busy same runs woken sum =
      let (ts, e, cover, all) = with_thread free claim c safe in
      let there_w : count w ts ≡ 1 = elim (cover.1 w) [ inl k ↦ k | inr i ↦ absurd (busy i) ] in
      let left_w : count w (erase c ts) ≡ 1 = ground (arith, count-erase w c ts) in
      let rest = erase w (erase c ts) in
      let without =
        Completes-rest (Completes-rest all (Picks-claims claim c ts (omega arith)))
          (Picks-claims claim w (erase c ts) (omega arith)) in
      let others : claims claim rest ≡ claims claim' rest = claims-same claim claim' rest (λ t lt.
        same t (λ f. ground (arith, count-erase t w (erase c ts), count-erase t c ts, e, f))
          (λ f. ground (arith, count-erase t w (erase c ts), left_w, f))) in
      (
        ts,
        Covers-same ts c e
            (λ t ne_c. elim (Bool-cases (t == w)) [
              | inl f ↦ inr (ground (arith, there_w))
              | inr f ↦ inl (same t ne_c (ground arith))
            ])
            cover,
        next (claim' c) (claims claim' (erase c ts)) (Picks-claims claim' c ts (omega arith))
            (λ r. omega (arith, runs r))
            (next (claim' w) (claims claim' rest) (Picks-claims claim' w (erase c ts) (omega arith))
              (λ r. omega (arith, woken r))
              (subst (Completes (returned (claim' w) (returned (claim' c) free'))) others
                (Completes-mono without (λ r. omega (arith, sum r))))),
      )

pub IsSafe-mono :
    {free free' : Resource → ℕ} {claim claim' : ℕ → Claim}
    → IsSafe free claim
    → ((t : ℕ) → claim t ≡ claim' t)
    → ((r : Resource) → free r ≤ free' r)
    → IsSafe free' claim'
IsSafe-mono {free'} {claim} safe same le =
    let (ts, cover, all) = safe in
    subst (IsSafe free') (fun_ext same) (ts, cover, Completes-mono all le)
