-- ===== src/EasyFs/Layout/Grows.antt =====
-- The blocks that `increase_size` uses (layout.rs).
use tg_rcore_tutorial.Prelude.{
  ℕ, zero, suc, ◌+◌, ◌-◌, ◌*◌, ◌/◌, ◌<◌, ◌≤◌, ◌≡◌, ◌≢◌, refl, ap, sym, subst, count, ok-injective,
  ◌∙◌, inl, inr, ◌==◌, ltb, if◌then◌else◌, Bool, Bool-cases, true, false, List, [], ◌∷◌, length,
  arith, ok, Outcome, ◌&&◌, ◌||◌,
}
use tg_rcore_tutorial.EasyFs.Layout.{
  Table, Device, next, put, write, fill, table_for, fill_entry, fill_tables, new_table,
}

-- The run does not panic, and uses `k` of the blocks; the others stay.
abbrev pub Uses {ℓ} : {A : Type ℓ} → ℕ → List ℕ → Outcome (A × List ℕ) → Type ℓ
Uses {A} k new_blocks run =
    (a : A) × (rest : List ℕ) × (run ≡ ok (a, rest))
    × (length rest + k ≡ length new_blocks)
    × ((x : ℕ) → count x rest ≤ count x new_blocks)

next-Uses : (new_blocks : List ℕ) → 0 < length new_blocks → Uses 1 new_blocks (next new_blocks)
unfolding next
next-Uses [] h = absurd (omega arith)
next-Uses (x ∷ rest) h = (x, rest, refl, omega arith, λ y. omega arith)

pub fill-Uses :
    (left at : ℕ) (new_blocks : List ℕ) (table : Table)
    → left ≤ length new_blocks
    → Uses left new_blocks (fill left at new_blocks table)
unfolding fill
fill-Uses zero at new_blocks table h = (table, new_blocks, refl, omega arith, λ y. omega arith)
fill-Uses (suc left) at [] table h = absurd (omega arith)
fill-Uses (suc left) at (x ∷ rest) table h =
    let (t, rest', run, used, less) = fill-Uses left (at + 1) rest (put at x table) (omega arith) in
    (t, rest', run, omega (arith, used), λ y. omega (arith, less y))

-- Nothing is filled where nothing is left.
pub fill-none :
    (left at : ℕ) (new_blocks : List ℕ) (table table' : Table) (rest : List ℕ)
    → left ≡ 0
    → fill left at new_blocks table ≡ ok (table', rest)
    → table' ≡ table
unfolding fill
fill-none zero at new_blocks table table' rest e run = sym (ap (λ r. r.0) (ok-injective run))
fill-none (suc left) at new_blocks table table' rest e run = absurd (omega (arith, e))

pub new_table-Uses :
    (first : Bool) (old : ℕ) (new_blocks : List ℕ)
    → (if first then 1 else 0) ≤ length new_blocks
    → (x : ℕ) × (rest : List ℕ) × (new_table first old new_blocks ≡ ok (x, rest))
      × (length rest + (if first then 1 else 0) ≡ length new_blocks)
      × ((y : ℕ) → count y rest ≤ count y new_blocks)
      × (first ≡ true → count x new_blocks ≤ 1 → count x rest ≡ 0)
      × (first ≡ false → x ≡ old)
unfolding new_table next
new_table-Uses true old [] h = absurd (omega arith)
new_table-Uses true old (x ∷ rest) h =
    (x, rest, refl, omega arith, λ y. omega arith, λ f once. ground (arith, once), λ f. cc)
new_table-Uses false old new_blocks h =
    (old, new_blocks, refl, omega arith, λ y. omega arith, λ f once. cc, λ f. refl)

pub write-same : (id : ℕ) (table : Table) (dev : Device) → write id table dev id ≡ table
unfolding write
write-same id table dev = let same : (id == id) ≡ true = ground arith in rw same refl

pub write-other :
    (id j : ℕ) (table : Table) (dev : Device) → (j == id) ≡ false → write id table dev j ≡ dev j
unfolding write
write-other id j table dev e = rw e refl

table_for-Uses :
    (indirect2 : ℕ) (first : Bool) (a0 : ℕ) (dev : Device) (new_blocks : List ℕ)
    → (if first then 1 else 0) ≤ length new_blocks
    → count indirect2 new_blocks ≡ 0
    → (first ≡ false → dev indirect2 a0 ≢ indirect2)
    → (dev1 : Device) × (rest : List ℕ) × (table_for indirect2 first a0 dev new_blocks
        ≡ ok (dev1, rest))
      × (length rest + (if first then 1 else 0) ≡ length new_blocks)
      × ((x : ℕ) → count x rest ≤ count x new_blocks)
      × (dev1 indirect2 a0 ≢ indirect2)
unfolding table_for next put
table_for-Uses indirect2 true a0 dev [] h absent apart = absurd (omega arith)
table_for-Uses indirect2 true a0 dev (x ∷ rest) h absent apart =
    let table = put a0 x (dev indirect2) in
    let other : x ≢ indirect2 = ground (arith, absent) in
    let at : table a0 ≡ x = ground arith in
    (
      write indirect2 table dev,
      rest,
      refl,
      omega arith,
      λ y. omega arith,
      subst (λ t. t a0 ≢ indirect2) (sym (write-same indirect2 table dev))
          (subst (λ y. y ≢ indirect2) (sym at) other),
    )
table_for-Uses indirect2 false a0 dev new_blocks h absent apart =
    (dev, new_blocks, refl, omega arith, λ y. omega arith, apart refl)

fill_entry-Uses :
    (indirect2 a0 b0 : ℕ) (dev : Device) (new_blocks : List ℕ)
    → a0 < 128
    → 1 + (if b0 == 0 then 1 else 0) ≤ length new_blocks
    → count indirect2 new_blocks ≡ 0
    → ((b0 == 0) ≡ false → dev indirect2 a0 ≢ indirect2)
    → (dev' : Device) × (rest : List ℕ) × (fill_entry indirect2 a0 b0 dev new_blocks
        ≡ ok (dev', rest))
      × (length rest + (1 + (if b0 == 0 then 1 else 0)) ≡ length new_blocks)
      × ((x : ℕ) → count x rest ≤ count x new_blocks)
      × (dev' indirect2 a0 ≢ indirect2)
unfolding fill_entry
fill_entry-Uses indirect2 a0 b0 dev new_blocks lt h absent apart =
    let (dev1, rest1, run1, used1, less1, apart1) =
      table_for-Uses indirect2 (b0 == 0) a0 dev new_blocks (omega (arith, h)) absent apart in
    let (y, rest2, run2, used2, less2) = next-Uses rest1 (omega (arith, h, used1)) in
    let in_range : ltb a0 128 ≡ true = ground (arith, lt) in
    let free : (dev1 indirect2 a0 == indirect2) ≡ false = ground (arith, apart1) in
    let other : (indirect2 == dev1 indirect2 a0) ≡ false = ground (arith, apart1) in
    let id = dev1 indirect2 a0 in
    (
      write id (put b0 y (dev1 id)) dev1,
      rest2,
      rw (in_range, run1, free, run2, fill_entry) refl,
      omega (arith, used1, used2),
      λ x. omega (arith, less1 x, less2 x),
      subst (λ t. t a0 ≢ indirect2) (sym (write-other id indirect2 (put b0 y (dev1 id)) dev1 other))
          apart1,
    )

-- The blocks for the entries from `c` to `t`, with the tables that they start.
abbrev pub needs : ℕ → ℕ → ℕ
needs c t = (t - c) + ((t + 127) / 128 - (c + 127) / 128)

-- Where an entry is in its table says if it needs one of its own.
needs-step :
    (a0 b0 t : ℕ)
    → b0 < 128
    → a0 * 128 + b0 < t
    → needs (a0 * 128 + b0) t ≡ 1 + (if b0 == 0 then 1 else 0) + needs (a0 * 128 + b0 + 1) t
needs-step a0 b0 t lt0 lt = elim (Bool-cases (b0 == 0)) [
  | inl start ↦ let b : b0 ≡ 0 = ground (arith, start) in rw start (omega (arith, b, lt))
  | inr inner ↦ let b : 0 < b0 = ground (arith, inner) in rw inner (omega (arith, b, lt0, lt))
]

fill_tables-step :
    (fuel indirect2 a0 b0 a1 b1 : ℕ) (dev dev' : Device) (new_blocks rest : List ℕ)
    → (ltb a0 a1 || (a0 == a1 && ltb b0 b1)) ≡ true
    → fill_entry indirect2 a0 b0 dev new_blocks ≡ ok (dev', rest)
    → fill_tables (suc fuel) indirect2 a0 b0 a1 b1 dev new_blocks
      ≡ fill_tables fuel indirect2
          (if b0 + 1 == 128 then a0 + 1 else a0)
          (if b0 + 1 == 128 then 0 else b0 + 1)
          a1
          b1
          dev'
          rest
unfolding fill_tables
fill_tables-step fuel indirect2 a0 b0 a1 b1 dev dev' new_blocks rest more run =
    rw (more, run, fill_tables) refl

-- One step and then the others.
fill_tables-more :
    (fuel indirect2 a0 b0 a1 b1 k e m : ℕ) (dev dev' : Device) (new_blocks rest : List ℕ)
    → (ltb a0 a1 || (a0 == a1 && ltb b0 b1)) ≡ true
    → fill_entry indirect2 a0 b0 dev new_blocks ≡ ok (dev', rest)
    → length rest + e ≡ length new_blocks
    → ((x : ℕ) → count x rest ≤ count x new_blocks)
    → m ≡ e + k
    → Uses k rest (
        fill_tables fuel indirect2
          (if b0 + 1 == 128 then a0 + 1 else a0)
          (if b0 + 1 == 128 then 0 else b0 + 1)
          a1
          b1
          dev'
          rest)
    → Uses m new_blocks (fill_tables (suc fuel) indirect2 a0 b0 a1 b1 dev new_blocks)
fill_tables-more fuel indirect2 a0 b0 a1 b1 k e m dev dev' new_blocks rest more run used less all
      (dev2, rest2, run2, used2, less2) =
    (
      dev2,
      rest2,
      fill_tables-step fuel indirect2 a0 b0 a1 b1 dev dev' new_blocks rest more run ∙ run2,
      omega (arith, used, used2, all),
      λ x. omega (arith, less x, less2 x),
    )

-- The table in use, if any, is still not the block `indirect2`.
entry-stays :
    (indirect2 a0 b0 : ℕ) (dev : Device)
    → dev indirect2 a0 ≢ indirect2
    → ((if b0 + 1 == 128 then 0 else b0 + 1) == 0) ≡ false
    → dev indirect2 (if b0 + 1 == 128 then a0 + 1 else a0) ≢ indirect2
entry-stays indirect2 a0 b0 dev apart inner = elim (Bool-cases (b0 + 1 == 128)) [
  | inl full ↦ absurd (ground (arith, inner, full))
  | inr same ↦ rw same apart
]

pub fill_tables-Uses :
    (fuel indirect2 a0 b0 a1 b1 : ℕ) (dev : Device) (new_blocks : List ℕ)
    → a1 * 128 + b1 < fuel + (a0 * 128 + b0)
    → b0 < 128
    → b1 < 128
    → a0 * 128 + b0 ≤ a1 * 128 + b1
    → a1 * 128 + b1 ≤ 128 * 128
    → needs (a0 * 128 + b0) (a1 * 128 + b1) ≤ length new_blocks
    → count indirect2 new_blocks ≡ 0
    → ((b0 == 0) ≡ false → dev indirect2 a0 ≢ indirect2)
    → Uses
        (needs (a0 * 128 + b0) (a1 * 128 + b1))
        new_blocks
        (fill_tables fuel indirect2 a0 b0 a1 b1 dev new_blocks)
unfolding fill_tables
fill_tables-Uses zero indirect2 a0 b0 a1 b1 dev new_blocks enough lt0 lt1 up small h absent apart =
    absurd (omega (arith, enough, up))
fill_tables-Uses (suc fuel) indirect2 a0 b0 a1 b1 dev new_blocks enough lt0 lt1 up small h absent
      apart =
    let test : (ltb a0 a1 || (a0 == a1 && ltb b0 b1)) ≡ ltb (a0 * 128 + b0) (a1 * 128 + b1) =
      ground (arith, lt0, lt1) in
    elim (Bool-cases (ltb (a0 * 128 + b0) (a1 * 128 + b1))) [
      | inr done ↦
          let same : a0 * 128 + b0 ≡ a1 * 128 + b1 = ground (arith, up, done) in
          (
            dev,
            new_blocks,
            rw (test ∙ done, fill_tables) refl,
            omega (arith, same),
            λ x. omega arith,
          )
      | inl more ↦
          let lt : a0 * 128 + b0 < a1 * 128 + b1 = ground (arith, more) in
          let step = needs-step a0 b0 (a1 * 128 + b1) lt0 lt in
          let (dev', rest, run, used, less, apart') =
            fill_entry-Uses indirect2 a0 b0 dev new_blocks (omega (arith, lt, small))
              (omega (arith, h, step)) absent apart in
          let wrap = b0 + 1 == 128 in
          let at : (if wrap then a0 + 1 else a0) * 128 + (if wrap then 0 else b0 + 1)
              ≡ a0 * 128 + b0 + 1 =
            ground arith in
          let enough' : a1 * 128 + b1
              < fuel + ((if wrap then a0 + 1 else a0) * 128 + (if wrap then 0 else b0 + 1)) =
            omega (arith, enough, at) in
          let next = (if wrap then a0 + 1 else a0) * 128 + (if wrap then 0 else b0 + 1) in
          let all : needs (a0 * 128 + b0) (a1 * 128 + b1)
              ≡ 1 + (if b0 == 0 then 1 else 0) + needs next (a1 * 128 + b1) =
            omega (arith, step, at) in
          fill_tables-more fuel indirect2 a0 b0 a1 b1 (needs next (a1 * 128 + b1))
            (1 + (if b0 == 0 then 1 else 0)) (needs (a0 * 128 + b0) (a1 * 128 + b1)) dev dev'
            new_blocks rest (test ∙ more) run used less all
            (fill_tables-Uses fuel indirect2 (if wrap then a0 + 1 else a0)
              (if wrap then 0 else b0 + 1) a1 b1 dev' rest enough' (ground (arith, lt0)) lt1
              (omega (arith, lt, at)) small (omega (arith, h, all, used))
              (omega (arith, absent, less indirect2)) (entry-stays indirect2 a0 b0 dev' apart'))
    ]
