-- ===== src/Threads/Expiry.antt =====
-- The part of _thread_on_tick that wakes the threads whose time has come.
use zakos.Common.{
  ℕ, zero, suc, ◌+◌, ◌*◌, ◌%◌, ◌≤◌, ◌≡◌, refl, ◌∙◌, inl, inr, Bool, true, false, not, ◌&&◌, ◌==◌,
  leb, if◌then◌else◌, arith, none, Bool-cases,
}
use zakos.Threads.{Sched, runnable, dequeue, set_return, etime_byte, wake_expired}
use zakos.Threads.Timeouts.{peek-Times}
use zakos.Threads.Invariant.{Inv, Woken, is_asleep, dequeue_lem}

-- The thread has a time, and it has come.
abbrev pub is_expired : Sched → ℕ → ℕ → Bool
is_expired s now t = not (s.wakeup t == 0) && leb (s.wakeup t) now

-- What waking the expired threads leaves behind.
pub record Expired (s : Sched) (now : ℕ) (u : Sched) : Type 0 where
  pub inv : Inv u
  pub wakeup : (x : ℕ) → u.wakeup x ≡ (if is_expired s now x then 0 else s.wakeup x)
  pub state : (x : ℕ) → u.state x ≡ (if is_expired s now x then runnable else s.state x)
  pub qwait : (x : ℕ) → u.qwait x ≡ (if is_expired s now x then none else s.qwait x)
  pub af :
      (x : ℕ) → u.af x ≡ (if is_expired s now x then s.af x % 16 + etime_byte * 256 else s.af x)
  pub current : u.current ≡ s.current

set_return-Inv : (s : Sched) (t v : ℕ) → Inv s → Inv (set_return s t v)
unfolding set_return
set_return-Inv s t v i = record {
  times = i.times;
  waiting = i.waiting;
  listed = i.listed;
  blocked = i.blocked;
  running = i.running;
}

-- Where no time has come, nothing changes.
none-Expired :
    (s : Sched) (now : ℕ) → Inv s → ((x : ℕ) → is_expired s now x ≡ false) → Expired s now s
none-Expired s now v h = record {
  inv = v;
  wakeup = λ x. rw (h x) refl;
  state = λ x. rw (h x) refl;
  qwait = λ x. rw (h x) refl;
  af = λ x. rw (h x) refl;
  current = refl;
}

-- Waking the first thread, then the others.
then-Expired :
    (s : Sched) (now t : ℕ) (u : Sched)
    → Inv s
    → is_expired s now t ≡ true
    → Woken (set_return s t etime_byte) t (dequeue (set_return s t etime_byte) t)
    → Expired (dequeue (set_return s t etime_byte) t) now u
    → Expired s now u
unfolding set_return
then-Expired s now t u v h w e = record {
  inv = e.inv;
  wakeup = λ x. ground (arith, e.wakeup x, w.wakeup x);
  state = λ x. ground (arith, e.state x, w.wakeup x, w.state x);
  qwait = λ x. ground (arith, e.qwait x, w.wakeup x, w.qwait x);
  af = λ x. ground (arith, e.af x, w.wakeup x, w.af);
  current = e.current ∙ w.current;
}

wake_expired_by :
    (n : ℕ) (s : Sched) (now : ℕ)
    → Inv s
    → s.sleeping.size ≤ n
    → Expired s now (wake_expired n s now)
unfolding wake_expired set_return
wake_expired_by zero s now v f = elim (peek-Times s.wakeup s.sleeping v.times) [
  | inl (e, idle) ↦ none-Expired s now v (λ x. ground (arith, idle x))
  | inr (t, e, on, pos, first) ↦ absurd (omega arith)
]
wake_expired_by (suc n) s now v f = elim (peek-Times s.wakeup s.sleeping v.times) [
  | inl (e, idle) ↦ rw (e, wake_expired) (none-Expired s now v (λ x. ground (arith, idle x)))
  | inr (t, e, on, pos, first) ↦ elim (Bool-cases (leb (s.wakeup t) now)) [
    | inr late ↦ rw (e, wake_expired, late) (none-Expired s now v (λ x. ground (arith, first x)))
    | inl due ↦
        let m = set_return s t etime_byte in
        let idle : is_asleep (s.state t) ≡ true = ground (arith, v.blocked t) in
        let (inv, w) = dequeue_lem m t (set_return-Inv s t etime_byte v) idle in
        rw (e, wake_expired, due)
          (then-Expired s now t _ v (ground (arith, due)) w
            (wake_expired_by n (dequeue m t) now inv (ground (arith, w.size))))
  ]
]

-- With the invariant, and as many rounds as there are threads with a timeout, every thread
-- whose time has come is woken with ETIME as its result, and no other thread is: it leaves the
-- heap and the queue that it waits in, whatever else it waits for. The invariant holds again.
pub wake_expired_lem :
    (s : Sched) (now : ℕ) → Inv s → Expired s now (wake_expired s.sleeping.size s now)
wake_expired_lem s now v = wake_expired_by s.sleeping.size s now v (omega arith)
