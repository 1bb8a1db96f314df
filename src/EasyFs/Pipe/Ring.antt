-- ===== src/EasyFs/Pipe/Ring.antt =====
-- The queue of bytes in the ring buffer (pipe.rs).
use tg_rcore_tutorial.Prelude.{
  ℕ, suc, ◌+◌, ◌-◌, ◌%◌, ◌<◌, ◌≤◌, ◌≡◌, ◌≢◌, refl, sym, ◌∙◌, ap, ◌==◌, ltb, if◌then◌else◌, Bool,
  Bool-cases, true, false, List, [], ◌∷◌, ◌++◌, length, length-append, arith, ltb→lt, inl, inr,
}
use native.Mathlib.Decide.{ℕ_discrete}
use tg_rcore_tutorial.EasyFs.Pipe.{
  PipeRingBuffer, RingBufferStatus, full, empty, normal, is_empty, is_full, write_byte, read_byte,
  available_read, available_write,
}

-- The bytes from an index on, around the end of the array.
abbrev pub Stored : (ℕ → ℕ) → ℕ → List ℕ → Type 0
Stored arr i [] = Unit {0}
Stored arr i (c ∷ q) = (arr i ≡ c) × Stored arr ((i + 1) % 32) q

abbrev pub status_of : ℕ → RingBufferStatus
status_of n = if n == 0 then empty else if n == 32 then full else normal

pub record Holds (q : List ℕ) (b : PipeRingBuffer) : Type 0 where
  pub few : length q ≤ 32
  pub head_in : b.head < 32
  pub tail_at : b.tail ≡ (b.head + length q) % 32
  pub status_is : b.status ≡ status_of (length q)
  pub bytes : Stored b.arr b.head q

Stored-put :
    (arr : ℕ → ℕ) (i t byte : ℕ) (q : List ℕ)
    → i < 32
    → length q < 32
    → t ≡ (i + length q) % 32
    → Stored arr i q
    → Stored (λ j. if j == t then byte else arr j) i (q ++ byte ∷ [])
Stored-put arr i t byte [] hi lt e at = (ground (arith, e), tt)
Stored-put arr i t byte (c ∷ q) hi lt e (here, at) = (
  ground (arith, e, here),
  Stored-put arr ((i + 1) % 32) t byte q (omega arith) (omega arith) (omega (arith, e)) at,
)

is_same : (a b : ℕ) → a ≡ b → (a == b) ≡ true
is_same a b e = ground (arith, e)

differ : (a b : ℕ) → a ≢ b → (a == b) ≡ false
differ a b ne = ground (arith, ne)

-- The tail meets the head where the buffer is full.
wrote_status :
    (h n t : ℕ)
    → h < 32
    → n < 32
    → t ≡ (h + n) % 32
    → (if (t + 1) % 32 == h then full else normal) ≡ status_of (n + 1)
wrote_status h n t hh hn e = elim (ℕ_discrete (n + 1) 32) [
  | yes top ↦
      let meet = is_same ((t + 1) % 32) h (omega (arith, e, top)) in
      let some_bytes = differ (n + 1) 0 (λ z. omega (arith, z)) in
      rw meet (rw some_bytes (rw (is_same (n + 1) 32 top)))
  | no ne ↦
      let apart = differ ((t + 1) % 32) h (λ z. ne (omega (arith, e, z))) in
      let some_bytes = differ (n + 1) 0 (λ z. omega (arith, z)) in
      rw apart (rw some_bytes (rw (differ (n + 1) 32 ne)))
]

-- The head meets the tail where the buffer is empty.
took_status :
    (h n t : ℕ)
    → h < 32
    → n < 32
    → t ≡ (h + suc n) % 32
    → (if (h + 1) % 32 == t then empty else normal) ≡ status_of n
took_status h n t hh hn e = elim (ℕ_discrete n 0) [
  | yes none_left ↦
      let meet = is_same ((h + 1) % 32) t (omega (arith, e, none_left)) in
      rw meet (rw (is_same n 0 none_left))
  | no ne ↦
      let apart = differ ((h + 1) % 32) t (λ z. ne (omega (arith, e, z))) in
      let below = differ n 32 (λ z. omega (arith, z)) in rw apart (rw (differ n 0 ne) (rw below))
]

distance :
    (h n t : ℕ)
    → h < 32
    → 0 < n
    → n ≤ 32
    → t ≡ (h + n) % 32
    → (if ltb h t then t - h else t + 32 - h) ≡ n
distance h n t hh h0 hn e = elim (Bool-cases (ltb h t)) [
  | inl up ↦ let less = ltb→lt h t up in let gap : t - h ≡ n = omega (arith, e, less) in rw up gap
  | inr down ↦
      let more : t ≤ h = ground (arith, down) in
      let gap : t + 32 - h ≡ n = omega (arith, e, more) in rw down gap
]

pub write_byte-Holds :
    (q : List ℕ) (byte : ℕ) (b : PipeRingBuffer)
    → Holds q b
    → length q < 32
    → Holds (q ++ byte ∷ []) (write_byte byte b)
unfolding write_byte
write_byte-Holds q byte b h lt =
    let more : length (q ++ byte ∷ []) ≡ length q + 1 = length-append q (byte ∷ []) in
    record {
      few = omega (arith, more);
      head_in = h.head_in;
      tail_at = omega (arith, more, h.tail_at, h.head_in);
      status_is =
          wrote_status b.head (length q) b.tail (h.head_in) lt (h.tail_at)
          ∙ ap status_of (sym more);
      bytes = Stored-put b.arr b.head b.tail byte q (h.head_in) lt (h.tail_at) (h.bytes);
    }

pub read_byte-Holds :
    (c : ℕ) (q : List ℕ) (b : PipeRingBuffer)
    → Holds (c ∷ q) b
    → ((read_byte b).0 ≡ c) × Holds q (read_byte b).1
unfolding read_byte
read_byte-Holds c q b h = (
  h.bytes.0,
  record {
    few = omega (arith, h.few);
    head_in = omega arith;
    tail_at = omega (arith, h.tail_at, h.head_in);
    status_is = took_status b.head (length q) b.tail (h.head_in) (omega (arith, h.few)) (h.tail_at);
    bytes = h.bytes.1;
  },
)

pub available_read-Holds :
    (q : List ℕ) (b : PipeRingBuffer) → Holds q b → available_read b ≡ length q
unfolding available_read
available_read-Holds q b h = elim (ℕ_discrete (length q) 0) [
  | yes none_left ↦
      let state : is_empty b.status ≡ true =
        ap is_empty (h.status_is) ∙ rw (is_same (length q) 0 none_left) in
      rw state (sym none_left)
  | no ne ↦
      let state : is_empty b.status ≡ false =
        ap is_empty (h.status_is) ∙ rw (differ (length q) 0 ne) (not_empty (length q == 32)) in
      rw state
        (distance b.head (length q) b.tail (h.head_in) (omega (arith, ne)) (h.few) (h.tail_at))
]
  where
    not_empty : (t : Bool) → is_empty (if t then full else normal) ≡ false
    not_empty true = refl
    not_empty false = refl

pub available_write-Holds :
    (q : List ℕ) (b : PipeRingBuffer) → Holds q b → available_write b ≡ 32 - length q
unfolding available_write
available_write-Holds q b h = elim (ℕ_discrete (length q) 32) [
  | yes top ↦
      let some_bytes = differ (length q) 0 (λ z. omega (arith, z, top)) in
      let state : is_full b.status ≡ true =
        ap is_full (h.status_is) ∙ rw some_bytes (rw (is_same (length q) 32 top)) in
      rw state (omega (arith, top))
  | no ne ↦
      let state : is_full b.status ≡ false = ap is_full (h.status_is) ∙ not_full (length q) ne in
      rw state (omega (arith, available_read-Holds q b h))
]
  where
    not_full : (n : ℕ) → n ≢ 32 → is_full (status_of n) ≡ false
    not_full n ne = elim (ℕ_discrete n 0) [
      | yes none_left ↦ rw (is_same n 0 none_left)
      | no some_left ↦ rw (differ n 0 some_left) (rw (differ n 32 ne))
    ]
