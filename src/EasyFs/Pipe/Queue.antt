-- ===== src/EasyFs/Pipe/Queue.antt =====
-- Reads and writes, by the queue of bytes that the pipe holds (pipe.rs).
use tg_rcore_tutorial.Prelude.{
  ℕ, zero, suc, ◌+◌, ◌-◌, ◌≤◌, ◌≡◌, refl, sym, ap, ap₂, subst, ◌==◌, if◌then◌else◌, Bool, true,
  false, List, [], ◌∷◌, ◌++◌, append-nil, append_assoc, length, length-append, arith, ◌⊎◌, inl, inr,
}
use Prim.Native.Nat.{min}
use native.Mathlib.Decide.{ℕ_discrete}
use tg_rcore_tutorial.Prelude.Int.{pos, negsuc}
use tg_rcore_tutorial.EasyFs.Pipe.{
  PipeRingBuffer, write_byte, read_byte, available_write, read_loop, read, write_loop, write,
}
use tg_rcore_tutorial.EasyFs.Pipe.Ring.{
  Holds, write_byte-Holds, read_byte-Holds, available_read-Holds, available_write-Holds,
}

read_loop_lem :
    (k want : ℕ) (q : List ℕ) (b : PipeRingBuffer)
    → Holds q b
    → k ≤ length q
    → let (bytes, b') = read_loop k want b in
      (rest : List ℕ) × (q ≡ bytes ++ rest) × (length bytes ≡ min k want) × Holds rest b'
unfolding read_loop
read_loop_lem zero want q b h le = (q, refl, omega arith, h)
read_loop_lem (suc k) zero q b h le = (q, refl, omega arith, h)
read_loop_lem (suc k) (suc want) [] b h le = absurd (omega arith)
read_loop_lem (suc k) (suc want) (c ∷ q) b h le =
    let (first, h1) = read_byte-Holds c q b h in
    let (rest, split, count, h2) = read_loop_lem k want q (read_byte b).1 h1 (omega arith) in
    (rest, ap₂ ◌∷◌ (sym first) split, omega (arith, count), h2)

-- A read from a pipe that holds bytes gives as many of them as there are and as are asked for, the
-- oldest first, and leaves the others. On an empty pipe it gives none and changes nothing, with
-- result 0 if the write end is closed and -2 if it is not.
pub read_lem :
    (closed : Bool) (want : ℕ) (q : List ℕ) (b : PipeRingBuffer)
    → Holds q b
    → ((q ≡ []) × (read closed want b ≡ (if closed then pos 0 else negsuc 1, [], b)))
      ⊎ ((bytes : List ℕ) × (rest : List ℕ) × (b' : PipeRingBuffer) × (read closed want b
            ≡ (pos (min (length q) want), bytes, b'))
          × (q ≡ bytes ++ rest)
          × (length bytes ≡ min (length q) want)
          × Holds rest b')
unfolding read
read_lem true want [] b h = inl (refl, rw (available_read-Holds [] b h))
read_lem false want [] b h = inl (refl, rw (available_read-Holds [] b h))
read_lem closed want (c ∷ q) b h =
    let n = suc (length q) in
    let nonzero : (n == 0) ≡ false = ground arith in
    let (rest, split, count, h') = read_loop_lem n want (c ∷ q) b h (omega arith) in
    inr (
      (read_loop n want b).0,
      rest,
      (read_loop n want b).1,
      rw (available_read-Holds (c ∷ q) b h)
          (rw nonzero (ap (λ m. (pos m, (read_loop n want b).0, (read_loop n want b).1)) count)),
      split,
      count,
      h',
    )

write_loop_lem :
    (k : ℕ) (buf q : List ℕ) (b : PipeRingBuffer)
    → Holds q b
    → length q + k ≤ 32
    → let (n, b') = write_loop k buf b in
      (bytes : List ℕ) × (rest : List ℕ) × (buf ≡ bytes ++ rest)
      × (n ≡ min k (length buf))
      × (length bytes ≡ n)
      × Holds (q ++ bytes) b'
unfolding write_loop
write_loop_lem zero buf q b h le = ([], buf, refl, omega arith, refl, rw (append-nil q) h)
write_loop_lem (suc k) [] q b h le = ([], [], refl, omega arith, refl, rw (append-nil q) h)
write_loop_lem (suc k) (byte ∷ buf) q b h le =
    let h1 = write_byte-Holds q byte b h (omega arith) in
    let (bytes, rest, split, n, count, h2) =
      write_loop_lem k buf (q ++ byte ∷ []) (write_byte byte b) h1
        (omega (arith, le, length-append q (byte ∷ []))) in
    (
      byte ∷ bytes,
      rest,
      ap (◌∷◌ byte) split,
      omega (arith, n),
      omega (arith, count),
      subst (λ r. Holds r (write_loop k buf (write_byte byte b)).1)
          (append_assoc q (byte ∷ []) bytes) h2,
    )

-- A write to a pipe with room adds as many bytes as fit, the first of the buffer first, and returns
-- their number. On a full pipe it changes nothing and returns -2.
pub write_lem :
    (buf q : List ℕ) (b : PipeRingBuffer)
    → Holds q b
    → ((length q ≡ 32) × (write buf b ≡ (negsuc 1, b)))
      ⊎ ((bytes : List ℕ) × (rest : List ℕ) × (b' : PipeRingBuffer) × (write buf b
            ≡ (pos (length bytes), b'))
          × (buf ≡ bytes ++ rest)
          × (length bytes ≡ min (32 - length q) (length buf))
          × Holds (q ++ bytes) b')
unfolding write
write_lem buf q b h = elim (ℕ_discrete (length q) 32) [
  | yes top ↦
      let none_left : available_write b ≡ 0 = omega (arith, available_write-Holds q b h, top) in
      inl (top, rw none_left)
  | no ne ↦
      let room = available_write-Holds q b h in
      let (bytes, rest, split, n, count, h') =
        write_loop_lem (available_write b) buf q b h (omega (arith, room, h.few)) in
      let some_left : (available_write b == 0) ≡ false = ground (arith, room, ne, h.few) in
      inr (
        bytes,
        rest,
        (write_loop (available_write b) buf b).1,
        rw some_left (ap (λ m. (pos m, (write_loop (available_write b) buf b).1)) (sym count)),
        split,
        omega (arith, count, n, room),
        h',
      )
]
