-- ===== src/EasyFs/Pipe.antt =====
-- tg-rcore-tutorial-easy-fs/src/pipe.rs: a pipe over a ring buffer. A buffer of the user is the list
-- of its bytes. Whether the write end is closed is an argument, since it is a reference count.
pub mod Ring
pub mod Queue
use tg_rcore_tutorial.Prelude.{
  ℕ, zero, suc, ◌+◌, ◌-◌, ◌%◌, ◌==◌, ltb, if◌then◌else◌, Bool, true, false, List, [], ◌∷◌, length,
}
use tg_rcore_tutorial.Prelude.Int.{ℤ, pos, negsuc}

abbrev pub ring_buffer_size : ℕ
ring_buffer_size = 32

pub data RingBufferStatus : Type 0 where
  full empty normal : RingBufferStatus

pub record PipeRingBuffer : Type 0 where
  pub arr : ℕ → ℕ
  pub head : ℕ
  pub tail : ℕ
  pub status : RingBufferStatus

unfoldable pub new : PipeRingBuffer
new = record { arr = λ i. 0; head = 0; tail = 0; status = empty }

abbrev pub is_empty : RingBufferStatus → Bool
is_empty empty = true
is_empty _ = false

abbrev pub is_full : RingBufferStatus → Bool
is_full full = true
is_full _ = false

unfoldable pub write_byte : ℕ → PipeRingBuffer → PipeRingBuffer
write_byte byte b =
    let tail = (b.tail + 1) % ring_buffer_size in
    record {
      arr = λ i. if i == b.tail then byte else b.arr i;
      head = b.head;
      tail = tail;
      status = if tail == b.head then full else normal;
    }

unfoldable pub read_byte : PipeRingBuffer → ℕ × PipeRingBuffer
read_byte b =
    let head = (b.head + 1) % ring_buffer_size in
    (b.arr b.head, record b { head = head; status = if head == b.tail then empty else normal })

unfoldable pub available_read : PipeRingBuffer → ℕ
available_read b =
    if is_empty b.status
    then 0
    else if ltb b.head b.tail
    then b.tail - b.head
    else b.tail + ring_buffer_size - b.head

unfoldable pub available_write : PipeRingBuffer → ℕ
available_write b = if is_full b.status then 0 else ring_buffer_size - available_read b

-- The loop of `read`: `k` rounds to go, and room for `want` bytes left in the user's buffer.
unfoldable pub read_loop : ℕ → ℕ → PipeRingBuffer → List ℕ × PipeRingBuffer
read_loop zero want b = ([], b)
read_loop (suc k) zero b = ([], b)
read_loop (suc k) (suc want) b =
    let (byte, b1) = read_byte b in let (bytes, b2) = read_loop k want b1 in (byte ∷ bytes, b2)

-- The result, the bytes that the user gets, and the buffer.
unfoldable pub read : Bool → ℕ → PipeRingBuffer → ℤ × List ℕ × PipeRingBuffer
read all_write_ends_closed want b =
    let loop_read = available_read b in
    if loop_read == 0
    then if all_write_ends_closed then (pos 0, [], b) else (negsuc 1, [], b)
    else let (bytes, b') = read_loop loop_read want b in (pos (length bytes), bytes, b')

-- The loop of `write`: `k` rounds to go, and the bytes that are left.
unfoldable pub write_loop : ℕ → List ℕ → PipeRingBuffer → ℕ × PipeRingBuffer
write_loop zero buf b = (0, b)
write_loop (suc k) [] b = (0, b)
write_loop (suc k) (byte ∷ buf) b =
    let (n, b') = write_loop k buf (write_byte byte b) in (n + 1, b')

unfoldable pub write : List ℕ → PipeRingBuffer → ℤ × PipeRingBuffer
write buf b =
    let loop_write = available_write b in
    if loop_write == 0
    then (negsuc 1, b)
    else let (n, b') = write_loop loop_write buf b in (pos n, b')
