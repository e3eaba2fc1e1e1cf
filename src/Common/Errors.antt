-- ===== src/Common/Errors.antt =====
-- Error codes, and what a fallible function of the kernel returns: a value or a negative code.
use mathlib.Core.Path.{◌≡◌, refl}
use mathlib.Core.Logic.{◌⊎◌, inl, inr}

pub data Errno : Type 0 where
  enoent eio enoexec ebadf echild eagain enomem ebusy enotdir eisdir einval enfile emfile : Errno
  enospc enosys enametoolong etime failed : Errno

-- `err failed` is the bare `return -1`.
pub data Result {ℓ} (A : Type ℓ) : Type ℓ where
  ok : A → Result A
  err : Errno → Result A

pub Result-cases {ℓ} :
    {A : Type ℓ} (r : Result A) → ((a : A) × (r ≡ ok a)) ⊎ ((c : Errno) × (r ≡ err c))
Result-cases (ok a) = inl (a, refl)
Result-cases (err c) = inr (c, refl)
