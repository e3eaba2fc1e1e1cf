-- ===== src/Threads/Steps.antt =====
-- The threads over time: the calls and interrupts that the scheduler serves, in any order.
use zakos.Common.{
  ℕ, ◌<◌, ◌≡◌, ◌≢◌, sym, ap, subst, inl, inr, true, false, if◌then◌else◌, Option, none, some, List,
  Bool-cases, Errno,
}
use zakos.Threads.{
  Sched, ghost, is_active, wait, sleep, signal, broadcast, signal_irq, schedule_next, on_tick,
  irq_signaled, wake_expired,
}
use zakos.Threads.Invariant.{Inv}
use zakos.Threads.Waking.{signal-Inv, broadcast_lem}
use zakos.Threads.Blocking.{HasRoom, wait_lem, sleep-Inv, signal_irq_lem}
use zakos.Threads.Expiry.{wake_expired_lem}
use zakos.Threads.Choice.{schedule_next-Inv}
use zakos.Threads.Life.{
  create, boot, end_thread, create-Inv, boot-Inv, end_thread-Inv, end_current-Inv,
  family_changed-Inv,
}

-- The thread is current, and runs.
abbrev pub Runs : Sched → ℕ → Type 0
Runs s t = (s.current ≡ some t) × (is_active (s.state t) ≡ true)

-- What happens between two instants at which the scheduler is entered.
pub data Step : Sched → Sched → Type 0 where
  created :
      {s : Sched} (t pid priority page : ℕ) (owner : Option ℕ) (inserted : Option Errno)
      → s.state t ≡ ghost
      → Step s (create s t pid priority page owner inserted).1
  waited : {s : Sched} (t q k : ℕ) → Runs s t → HasRoom s k → Step s (schedule_next (wait s t q k))
  slept :
      {s : Sched} (t k : ℕ)
      → Runs s t
      → k ≢ 0
      → s.sleeping.size < s.sleeping.capacity
      → Step s (schedule_next (sleep s t k))
  yielded : {s : Sched} → Step s (schedule_next s)
  signaled : {s : Sched} (q : ℕ) → Step s (signal s q).1
  broadcasted : {s : Sched} (q : ℕ) → Step s (broadcast s q).1
  interrupted : {s : Sched} (q : ℕ) → q ≢ irq_signaled → Step s (signal_irq s q)
  ticked : {s : Sched} (now : ℕ) → Step s (on_tick s now)
  marked : {s : Sched} (t : ℕ) → Step s (end_thread s (some t))
  family_changed : {s : Sched} (z : ℕ → List ℕ) → Step s (record s { zombie_queues = z })
  left : {s : Sched} (t : ℕ) → Runs s t → Step s (end_thread s none)

-- What can happen from thread_init on.
pub data Reach : Sched → Type 0 where
  booted : Reach boot
  next : {s u : Sched} → Reach s → Step s u → Reach u

-- _thread_on_tick keeps the invariant, on both paths.
pub on_tick-Inv : (s : Sched) (now : ℕ) → Inv s → Inv (on_tick s now)
unfolding on_tick
on_tick-Inv s now v =
    let b = (broadcast_lem s irq_signaled v).0 in
    let w : Inv (record (broadcast s irq_signaled).1 { schedule = false }) = record {
      times = b.inv.times;
      waiting = b.inv.waiting;
      listed = b.inv.listed;
      blocked = b.inv.blocked;
      running = b.inv.running;
    } in
    let e = wake_expired_lem (record (broadcast s irq_signaled).1 { schedule = false }) now w in
    let woken = (broadcast s irq_signaled).1 in
    let u =
      schedule_next (wake_expired woken.sleeping.size (record woken { schedule = false }) now) in
    elim (Bool-cases s.schedule) [
      | inl on ↦ subst Inv (sym (ap (λ c. if c then u else s) on)) (schedule_next-Inv _ e.inv)
      | inr off ↦ subst Inv (sym (ap (λ c. if c then u else s) off)) v
    ]

Step-Inv : {s u : Sched} → Step s u → Inv s → Inv u
Step-Inv (created {s} t pid priority page owner inserted e) v =
    create-Inv s t pid priority page owner inserted v e
Step-Inv (waited {s} t q k r room) v =
    schedule_next-Inv (wait s t q k) (wait_lem s t q k v r.1 room).inv
Step-Inv (slept {s} t k r pos room) v =
    schedule_next-Inv (sleep s t k) (sleep-Inv s t k v r.1 pos room).0
Step-Inv (yielded {s}) v = schedule_next-Inv s v
Step-Inv (signaled {s} q) v = signal-Inv s q v
Step-Inv (broadcasted {s} q) v = (broadcast_lem s q v).0.inv
Step-Inv (interrupted {s} q ne) v = (signal_irq_lem s q v ne).inv
Step-Inv (ticked {s} now) v = on_tick-Inv s now v
Step-Inv (marked {s} t) v = end_thread-Inv s t v
Step-Inv (family_changed {s} z) v = family_changed-Inv s z v
Step-Inv (left {s} t (c, on)) v = end_current-Inv s t v c on

-- The invariant holds from thread_init on.
pub Reach-Inv : {s : Sched} → Reach s → Inv s
Reach-Inv booted = boot-Inv
Reach-Inv (next r e) = Step-Inv e (Reach-Inv r)
