-- ===== src/Fs/Pipe/Tests.antt =====
-- Runs of a pipe, and its theorems at them.
use oskernel2023_main_os.Common.{Bool, false, refl, true, ◌++◌, ◌∷◌, ◌≡◌, ◌≢◌}
use oskernel2023_main_os.Common.{[], arith}
use oskernel2023_main_os.Fs.Pipe.{
  PipeRingBuffer, available_write, hang_up, make_pipe, new, r_ready, read_byte, read_end, read_user,
  write_byte,
}
use oskernel2023_main_os.Fs.Pipe.Ring.{Inv, new-Inv, queue, write_byte_lem}
use oskernel2023_main_os.Fs.Pipe.Stream.{reads, run, run-fifo, writes}
use oskernel2023_main_os.Fs.Pipe.Transfers.{ReadsUser, read_user-ReadsUser}

abbrev one_byte : PipeRingBuffer
one_byte = write_byte new 7

new_has_room : available_write new ≢ 0
unfolding new available_write
new_has_room e = omega arith

one_byte-Inv : Inv one_byte
one_byte-Inv = (write_byte_lem new new-Inv.0 7 new_has_room).0

one_byte_read : (read_byte one_byte).0 ≡ 7
unfolding read_byte write_byte new
one_byte_read = refl

one_byte_ready : (r_ready one_byte ≡ true) × (r_ready new ≡ false)
unfolding r_ready write_byte new
one_byte_ready = (refl, refl)

read_user-ReadsUser_example : ReadsUser false 4 one_byte (read_user false 4 one_byte)
read_user-ReadsUser_example = read_user-ReadsUser false 4 one_byte one_byte-Inv

run-fifo_example :
    (run (writes (1 ∷ 2 ∷ []) ∷ reads false 1 ∷ []) new).taken
      ++ queue (run (writes (1 ∷ 2 ∷ []) ∷ reads false 1 ∷ []) new).ring
    ≡ (run (writes (1 ∷ 2 ∷ []) ∷ reads false 1 ∷ []) new).put
run-fifo_example = run-fifo (writes (1 ∷ 2 ∷ []) ∷ reads false 1 ∷ [])

hangs_up :
    (write_closed read_closed : Bool) → hang_up make_pipe.0 write_closed read_closed ≡ write_closed
unfolding hang_up make_pipe read_end
hangs_up write_closed read_closed = refl
