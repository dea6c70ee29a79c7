-- ===== src/Base/Errors.antt =====
-- What a C function with an `int` result returns: a value, or a negative error number.
use Prim.Native.Nat.{ℕ}

pub data Errno : Type 0 where
  einval enodata eio ebusy eperm eagain enotsup enoent enospc enoexec : Errno

pub data Ret : Type 0 where
  ok : ℕ → Ret
  err : Errno → Ret
