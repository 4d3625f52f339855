-- ===== src/Common/Results.antt =====
-- `Result<A, isize>`, with the error numbers of kernel/src/syscall/errno.rs that the models use.
pub data Errno : Type 0 where
  eperm enoent ebadf eagain emfile einval enotdir espipe : Errno

pub data Result {ℓ} (A : Type ℓ) : Type ℓ where
  ok : A → Result A
  err : Errno → Result A
