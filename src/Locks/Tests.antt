-- ===== src/Locks/Tests.antt =====
-- Two threads that want the lock, and one that waits for a condition.
use zakos.Common.{◌≡◌, refl, [], ◌∷◌}
use zakos.Locks.{
  Lock, lock_init, lock_lock, release, listening, goes, woken, Reach, start, later, locks,
  cond_waits, cond_wakes,
}
use zakos.Locks.Exclusion.{IsSafe, Reach-IsSafe}

-- Thread 1 has the lock, and 2 sleeps.
abbrev contended : Lock
contended = lock_lock (lock_lock lock_init 1) 2

contended-Reach : Reach contended
contended-Reach = later (later start (locks 1 refl)) (locks 2 refl)

contended_queue : contended.queue ≡ 2 ∷ []
contended_queue = refl

-- Thread 1 waits for the condition, so 2 is woken; then 1 is woken too.
abbrev both_woken : Lock
both_woken = goes (release contended 1 listening) 1 woken

both_woken-Reach : Reach both_woken
both_woken-Reach = later (later contended-Reach (cond_waits 1 refl)) (cond_wakes 1 refl)

woken_2 : both_woken.places 2 ≡ woken
woken_2 = refl

Reach-IsSafe_example : IsSafe both_woken
Reach-IsSafe_example = Reach-IsSafe both_woken both_woken-Reach
