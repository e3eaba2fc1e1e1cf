-- ===== src/Threads.antt =====
-- kernel/proc/thread.c: the scheduler. A thread is its address; each field of `struct thread` is a
-- function from addresses. A cyclic list is the list of its threads from the head on, as
-- kernel/lib/list.c links them; a wait queue is known by the address of its head pointer.
pub mod Timeouts
pub mod Invariant
pub mod Waking
pub mod Blocking
pub mod Expiry
pub mod Contenders
pub mod Choice
pub mod Life
pub mod Steps
mod Tests
use zakos.Common.{
  ℕ, zero, suc, ◌+◌, ◌*◌, ◌-◌, ◌%◌, ◌≡◌, refl, Bool, true, false, not, ◌&&◌, Option, none, some,
  List, [], ◌∷◌, ◌++◌, compare, leb, ◌==◌, ==_iff, if◌then◌else◌, update, length, without, Result,
  ok, err,
}
use zakos.BinHeap.{Bheap, Comparator, insert, extract, peek}

-- THREAD_STATE_ACTIVE, _READY, _SLEEP and _GHOST
pub data ThreadState : Type 0 where
  active runnable asleep ghost : ThreadState

abbrev pub is_active : ThreadState → Bool
is_active active = true
is_active _ = false

-- THREAD_PRIORITY_NO
abbrev pub priority_no : ℕ
priority_no = 8

-- The address of `common.irq_signaled`.
abbrev pub irq_signaled : ℕ
irq_signaled = 0

-- `common`, with the fields of the threads and of their processes. `kernel_mode` says whether the
-- saved context has the kernel's layout, `af` is its register; `ended` are the processes that
-- were handed to _process_zombify, and `zombie_queues` are the queues that it would signal for a
-- process, as the tree of the processes is: the `wait` of init, and of the parent.
pub record Sched : Type 0 where
  pub state : ℕ → ThreadState
  pub priority : ℕ → ℕ
  pub qwait : ℕ → Option ℕ
  pub wakeup : ℕ → ℕ
  pub exit : ℕ → Bool
  pub kernel_mode : ℕ → Bool
  pub af : ℕ → ℕ
  pub process : ℕ → ℕ
  pub ready : ℕ → List ℕ
  pub queues : ℕ → List ℕ
  pub ghosts : ℕ → List ℕ
  pub thread_no : ℕ → ℕ
  pub ended : List ℕ
  pub zombie_queues : ℕ → List ℕ
  pub current : Option ℕ
  pub sleeping : Bheap ℕ
  pub schedule : Bool

-- _thread_wakeup_compare
abbrev pub by_wakeup : (ℕ → ℕ) → Comparator ℕ
by_wakeup w = record {
  cmp = λ a b. compare (w a) (w b);
  same = λ a b. a == b;
  rank = w;
  cmp_rank = λ a b. refl;
  same_iff = ==_iff;
}

-- The heap behind a call whose result the code drops: an error leaves it as it is.
abbrev pub or_same : Result (Bheap ℕ) → Bheap ℕ → Bheap ℕ
or_same (ok h) old = h
or_same (err c) old = old

-- LIST_ADD
abbrev pub append : List ℕ → ℕ → List ℕ
append xs t = xs ++ (t ∷ [])

-- _thread_sleeping_enqueue, where `t` is the current thread.
pub sleeping_enqueue : Sched → ℕ → ℕ → Sched
sleeping_enqueue s t wakeup =
    let w = update s.wakeup t wakeup in
    record s {
      wakeup = w;
      state = update s.state t asleep;
      sleeping = or_same (insert (by_wakeup w) s.sleeping t) s.sleeping;
    }

-- The end of _threads_add_ready: a thread with a timeout leaves the heap.
pub wake : Sched → ℕ → Sched
wake s t = if s.wakeup t == 0 then s else record s {
  sleeping = or_same (extract (by_wakeup s.wakeup) s.sleeping t) s.sleeping;
  wakeup = update s.wakeup t 0;
}

-- _threads_add_ready
pub add_ready : Sched → ℕ → Sched
add_ready s t =
    let p = s.priority t in
    wake
      (record s {
        ready = update s.ready p (append (s.ready p) t);
        state = update s.state t runnable;
      })
      t

-- The first half of _thread_dequeue.
pub unlink : Sched → ℕ → Sched
unlink s t = elim (s.qwait t) [
  | none ↦ s
  | some q ↦ record s {
    queues = update s.queues q (without t (s.queues q));
    qwait = update s.qwait t none;
  }
]

-- _thread_dequeue
pub dequeue : Sched → ℕ → Sched
dequeue s t = add_ready (unlink s t) t

-- _thread_wait of the current thread `t`, up to the call of _thread_yield.
pub wait : Sched → ℕ → ℕ → ℕ → Sched
wait s t q wakeup =
    let linked = record s {
      queues = update s.queues q (append (s.queues q) t);
      wakeup = update s.wakeup t wakeup;
      state = update s.state t asleep;
      qwait = update s.qwait t (some q);
    } in
    if wakeup == 0 then linked else sleeping_enqueue linked t wakeup

-- _thread_signal
pub signal : Sched → ℕ → Bool × Sched
signal s q = elim (s.queues q) [ [] ↦ (false, s) | t ∷ r ↦ (true, dequeue s t) ]

-- The signals of _process_zombify, in their order.
pub signal_all : List ℕ → Sched → Sched
signal_all [] s = s
signal_all (q ∷ r) s = signal_all r (signal s q).1

-- _thread_kill before the call of _process_zombify.
pub bury : Sched → ℕ → Sched
bury s t =
    let p = s.process t in
    let left = (s.thread_no p + 255) % 256 in
    record s {
      state = update s.state t ghost;
      ghosts = update s.ghosts p (append (s.ghosts p) t);
      thread_no = update s.thread_no p left;
      ended = if left == 0 then p ∷ s.ended else s.ended;
    }

-- _thread_kill; the process tree is changed elsewhere, its signals are given here.
pub kill : Sched → ℕ → Sched
kill s t =
    let u = bury s t in
    let p = s.process t in if u.thread_no p == 0 then signal_all (s.zombie_queues p) u else u

-- The loop of _thread_broadcast.
pub broadcast_loop : ℕ → Sched → ℕ → Bool → Bool × Sched
broadcast_loop zero s q ret = (ret, s)
broadcast_loop (suc n) s q ret = elim (s.queues q) [
  | [] ↦ (ret, s)
  | t ∷ r ↦ broadcast_loop n (dequeue s t) q true
]

-- _thread_broadcast
pub broadcast : Sched → ℕ → Bool × Sched
broadcast s q = broadcast_loop (length (s.queues q)) s q false

-- A round of _thread_signal_irq.
pub move_to_irq : Sched → ℕ → Sched
move_to_irq s t =
    let u = unlink s t in
    record u {
      queues = update u.queues irq_signaled (append (u.queues irq_signaled) t);
      qwait = update u.qwait t (some irq_signaled);
    }

-- The loop of _thread_signal_irq.
pub signal_irq_loop : ℕ → Sched → ℕ → Sched
signal_irq_loop zero s q = s
signal_irq_loop (suc n) s q = elim (s.queues q) [
  | [] ↦ s
  | t ∷ r ↦ signal_irq_loop n (move_to_irq s t) q
]

-- _thread_signal_irq
pub signal_irq : Sched → ℕ → Sched
signal_irq s q = signal_irq_loop (length (s.queues q)) s q

-- _thread_set_return, of the byte of the value.
pub set_return : Sched → ℕ → ℕ → Sched
set_return s t value = record s { af = update s.af t (s.af t % 16 + value % 256 * 256) }

-- -ETIME as a byte.
abbrev pub etime_byte : ℕ
etime_byte = 230

-- The loop of _thread_on_tick that wakes the threads whose time has come.
pub wake_expired : ℕ → Sched → ℕ → Sched
wake_expired zero s now = s
wake_expired (suc n) s now = elim (peek s.sleeping) [
  | err c ↦ s
  | ok t ↦
      let rest = wake_expired n (dequeue (set_return s t etime_byte) t) now in
      if leb (s.wakeup t) now then rest else s
]

-- The first half of _thread_schedule.
pub put_current : Sched → Sched
put_current s = elim s.current [
  | none ↦ s
  | some t ↦ if is_active (s.state t) then add_ready s t else s
]

-- The selection in _thread_schedule, from a priority on, with the number of priorities left.
pub select_thread : ℕ → ℕ → Sched → Sched
select_thread zero p s = s
select_thread (suc n) p s = elim (s.ready p) [
  | [] ↦ select_thread n (p + 1) s
  | t ∷ r ↦
      let taken = record s { ready = update s.ready p (without t (s.ready p)) } in
      let killed = select_thread n (p + 1) (kill taken t) in
      if s.exit t && not (s.kernel_mode t)
      then killed
      else record taken { current = some t; state = update s.state t active }
]

-- _thread_schedule
pub schedule_next : Sched → Sched
schedule_next s = record (select_thread priority_no 0 (put_current s)) { schedule = true }

-- _thread_on_tick at the time `now`.
pub on_tick : Sched → ℕ → Sched
on_tick s now =
    let woken = (broadcast s irq_signaled).1 in
    let expired = wake_expired woken.sleeping.size (record woken { schedule = false }) now in
    if s.schedule then schedule_next expired else s

-- thread_sleep of the current thread `t`, up to the call of _thread_yield.
pub sleep : Sched → ℕ → ℕ → Sched
sleep s t wakeup = sleeping_enqueue s t wakeup
