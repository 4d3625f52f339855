-- ===== src/Fs/Pipe.antt =====
-- kernel/src/fs/dev/pipe.rs: the ring buffer of a pipe, and one round of the loops of `read_user` and
-- `write`, with which another task may be interleaved wherever the source gives up the processor.
pub mod Ring
pub mod Transfers
pub mod Stream
mod Tests
use oskernel2023_main_os.Common.{
  Bool, List, [], add64, false, get_or, if◌then◌else◌, ltb, not, replicate, set, suc, true, zero, ℕ,
  ◌%◌, ◌+◌, ◌-◌, ◌==◌, ◌∷◌,
}

abbrev pub ring_buffer_size : ℕ
ring_buffer_size = 1024

pub data RingBufferStatus : Type 0 where
  full : RingBufferStatus
  empty : RingBufferStatus
  normal : RingBufferStatus

abbrev pub is_full : RingBufferStatus → Bool
is_full full = true
is_full empty = false
is_full normal = false

abbrev pub is_empty : RingBufferStatus → Bool
is_empty full = false
is_empty empty = true
is_empty normal = false

-- `PipeRingBuffer`. Whether its ends still live is known to their owners.
pub record PipeRingBuffer : Type 0 where
  pub arr : List ℕ
  pub head : ℕ
  pub tail : ℕ
  pub status : RingBufferStatus

unfoldable pub new : PipeRingBuffer
new = record { arr = replicate ring_buffer_size 0; head = 0; tail = 0; status = empty }

unfoldable pub write_byte : PipeRingBuffer → ℕ → PipeRingBuffer
write_byte r byte =
    let next = add64 r.tail 1 % ring_buffer_size in
    record {
      arr = set r.arr r.tail byte;
      head = r.head;
      tail = next;
      status = if next == r.head then full else normal;
    }

unfoldable pub read_byte : PipeRingBuffer → ℕ × PipeRingBuffer
read_byte r =
    let next = add64 r.head 1 % ring_buffer_size in
    (
      get_or r.arr r.head 0,
      record r { head = next; status = if next == r.tail then empty else normal },
    )

unfoldable pub available_read : PipeRingBuffer → ℕ
available_read r =
    if is_empty r.status
    then 0
    else if ltb r.head r.tail
    then r.tail - r.head
    else add64 r.tail ring_buffer_size - r.head

unfoldable pub available_write : PipeRingBuffer → ℕ
unfolding available_read
available_write r = if is_full r.status then 0 else ring_buffer_size - available_read r

-- `r_ready` and `w_ready`
unfoldable pub r_ready : PipeRingBuffer → Bool
r_ready r = not (is_empty r.status)

unfoldable pub w_ready : PipeRingBuffer → Bool
w_ready r = not (is_full r.status)

-- The `for` loop of `read_user`, with `left` bytes of the user's buffer to fill: the number that is
-- returned, the bytes that are stored, and the ring.
unfoldable pub read_for : ℕ → ℕ → ℕ → ℕ → PipeRingBuffer → ℕ × List ℕ × PipeRingBuffer
read_for zero already want left r = (already, [], r)
read_for (suc n) already want zero r = (already, [], r)
read_for (suc n) already want (suc left) r =
    let (c, r') = read_byte r in
    let (k, cs, r'') = read_for n (already + 1) want left r' in
    if already + 1 == want then (want, c ∷ [], r') else (k, c ∷ cs, r'')

-- One round of the loop of `read_user`: it returns, or it yields and begins again.
pub data ReadRound : Type 0 where
  returns : ℕ → List ℕ → PipeRingBuffer → ReadRound
  yields : PipeRingBuffer → ReadRound

abbrev pub as_returned : ℕ × List ℕ × PipeRingBuffer → ReadRound
as_returned (k, cs, r) = returns k cs r

unfoldable pub read_user : Bool → ℕ → PipeRingBuffer → ReadRound
unfolding available_read read_for
read_user all_write_ends_closed want r =
    let loop_read = available_read r in
    if loop_read == 0
    then if all_write_ends_closed then returns 0 [] r else yields r
    else as_returned (read_for loop_read 0 want want r)

-- One round of the loop of `write` and `write_user`: it returns, or begins again, with the number of
-- bytes written and the bytes that are left.
pub data WriteRound : Type 0 where
  finished : ℕ → PipeRingBuffer → WriteRound
  again : ℕ → List ℕ → PipeRingBuffer → WriteRound

unfoldable pub write_for : ℕ → ℕ → ℕ → List ℕ → PipeRingBuffer → WriteRound
write_for zero already want bytes r = again already bytes r
write_for (suc n) already want [] r = finished already r
write_for (suc n) already want (b ∷ bs) r =
    let r' = write_byte r b in
    let rest = write_for n (already + 1) want bs r' in
    if already + 1 == want then finished want r' else rest

unfoldable pub write_round : ℕ → ℕ → List ℕ → PipeRingBuffer → WriteRound
unfolding available_write write_for
write_round already want bytes r =
    let loop_write = available_write r in
    if loop_write == 0 then again already bytes r else write_for loop_write already want bytes r

-- `Pipe`: one end of a ring
pub record Pipe : Type 0 where
  pub readable : Bool
  pub writable : Bool

unfoldable pub read_end : Pipe
read_end = record { readable = true; writable = false }

unfoldable pub write_end : Pipe
write_end = record { readable = false; writable = true }

-- `make_pipe`: the two ends and their ring
unfoldable pub make_pipe : Pipe × Pipe × PipeRingBuffer
unfolding read_end write_end new
make_pipe = (read_end, write_end, new)

-- `hang_up`, by whether all ends of either kind are closed
unfoldable pub hang_up : Pipe → Bool → Bool → Bool
hang_up p all_write_ends_closed all_read_ends_closed =
    if p.readable then all_write_ends_closed else all_read_ends_closed
