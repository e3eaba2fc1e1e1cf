-- ===== src/Locks.antt =====
-- kernel/proc/lock.c and kernel/proc/cond.c: one lock and a condition, and the threads that use them.
-- A critical section of the scheduler is one step; a thread is its number.
pub mod Exclusion
mod Tests
use zakos.Common.{
  ℕ, Bool, true, false, not, List, [], ◌∷◌, ◌++◌, ◌==◌, ◌≡◌, ◌≢◌, if◌then◌else◌, update, occ,
}

-- Where a thread stands: it does not have the lock, has it, sleeps in the queue of the lock, sleeps
-- in the queue of the condition, or is woken and about to try again in the loop of _lock_lock.
pub data Place : Type 0 where
  outside holding waiting listening woken : Place

-- `struct lock`, and the threads.
pub record Lock : Type 0 where
  pub locked : Bool
  pub queue : List ℕ
  pub places : ℕ → Place

abbrev pub goes : Lock → ℕ → Place → Lock
goes s i p = record s { places = update s.places i p }

-- _lock_try, and its result: true for 0.
abbrev pub lock_try : Lock → ℕ → Bool × Lock
lock_try s i = (not s.locked, if s.locked then s else goes (record s { locked = true }) i holding)

-- A round of _lock_lock: the lock, or the end of its queue.
abbrev pub lock_lock : Lock → ℕ → Lock
lock_lock s i =
    if s.locked then goes (record s { queue = s.queue ++ (i ∷ []) }) i waiting else (lock_try s i).1

-- _thread_signal of the queue of the lock.
abbrev pub wake_first : List ℕ → Lock → Lock
wake_first [] s = s
wake_first (h ∷ r) s = goes (record s { queue = r }) h woken

-- _lock_unlock and lock_unlock, for a thread that stands at `p` then.
abbrev pub release : Lock → ℕ → Place → Lock
release s i p = let u = record s { locked = false } in goes (wake_first u.queue u) i p

-- The steps of the threads. A thread unlocks only what it has locked; cond_signal, cond_broadcast and
-- a timeout wake a thread that listens.
pub data Step (s : Lock) : Lock → Type 0 where
  locks : (i : ℕ) → s.places i ≡ outside → Step s (lock_lock s i)
  tries : (i : ℕ) → s.places i ≡ outside → Step s (lock_try s i).1
  tries_again : (i : ℕ) → s.places i ≡ woken → Step s (lock_lock s i)
  unlocks : (i : ℕ) → s.places i ≡ holding → Step s (release s i outside)
  cond_waits : (i : ℕ) → s.places i ≡ holding → Step s (release s i listening)
  cond_wakes : (i : ℕ) → s.places i ≡ listening → Step s (goes s i woken)

-- lock_init
abbrev pub lock_init : Lock
lock_init = record { locked = false; queue = []; places = λ i. outside }

pub data Reach : Lock → Type 0 where
  start : Reach lock_init
  later : {s t : Lock} → Reach s → Step s t → Reach t
