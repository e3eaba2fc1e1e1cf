-- ===== src/Threads/Life.antt =====
-- thread_create, thread_init and _thread_end: how threads come and go.
use zakos.Common.{
  ℕ, ◌+◌, ◌%◌, ◌≡◌, refl, sym, ap, subst, inl, inr, true, false, ◌==◌, if◌then◌else◌, update, arith,
  Option, none, some, List, [], Bool-cases, occ, Errno, enomem, einval,
}
use zakos.BinHeap.{init}
use zakos.Threads.{Sched, ThreadState, ghost, is_active, add_ready, bury, kill, schedule_next}
use zakos.Threads.Invariant.{Inv, Leaving, is_runnable, is_asleep, add_ready-Inv}
use zakos.Threads.Timeouts.{Times, timed, update-same}
use zakos.Threads.Waking.{signal_all-Inv, kill-cases}
use zakos.Threads.Choice.{schedule_next-Inv}

-- The fields that thread_create sets first; the priority has three bits.
abbrev reset_fields : Sched → ℕ → ℕ → Sched
reset_fields s t priority = record s {
  qwait = update s.qwait t none;
  priority = update s.priority t (priority % 8);
  wakeup = update s.wakeup t 0;
}

-- The end of thread_create, with thread_context_create.
unfoldable pub launch : Sched → ℕ → Sched
launch s t =
    add_ready (record s { af = update s.af t 0; kernel_mode = update s.kernel_mode t true }) t

-- The new thread joins its process.
abbrev enrol : Sched → ℕ → ℕ → Sched
enrol s t p = record s {
  thread_no = update s.thread_no p ((s.thread_no p + 1) % 256);
  process = update s.process t p;
}

-- The part of thread_create for a thread of a process.
unfoldable pub join : Sched → ℕ → Option ℕ → Option Errno → Option Errno × Sched
join s t none inserted = (some einval, s)
join s t (some p) (some e) = (some e, s)
join s t (some p) none = (none, launch (enrol s t p) t)

-- thread_create of a thread of process `pid`. `page` is what page_alloc returns, `owner` what
-- process_get does, and `inserted` what id_insert does; the pages are not kept here.
unfoldable pub create : Sched → ℕ → ℕ → ℕ → ℕ → Option ℕ → Option Errno → Option Errno × Sched
create s t pid priority page owner inserted =
    let u = reset_fields s t priority in
    if page == 0
    then (some enomem, u)
    else if pid == 0
    then (none, launch u t)
    else join u t owner inserted

-- thread_init, before the idle thread; an address where no thread is holds a ghost.
abbrev pub boot : Sched
boot = record {
  state = λ t. ghost;
  priority = λ t. 0;
  qwait = λ t. none;
  wakeup = λ t. 0;
  exit = λ t. false;
  kernel_mode = λ t. false;
  af = λ t. 0;
  process = λ t. 0;
  ready = λ p. [];
  queues = λ q. [];
  ghosts = λ p. [];
  thread_no = λ p. 0;
  ended = [];
  zombie_queues = λ p. [];
  current = none;
  sleeping = init (λ i. 0) 32;
  schedule = true;
}

-- _thread_end: a thread ends itself, or another is to end.
unfoldable pub end_thread : Sched → Option ℕ → Sched
end_thread s (some t) = record s { exit = update s.exit t true }
end_thread s none = elim s.current [ none ↦ s | some t ↦ schedule_next (kill s t) ]

-- The body of end_thread for the current thread.
abbrev leave : Sched → Option ℕ → Sched
leave s o = elim o [ none ↦ s | some t ↦ schedule_next (kill s t) ]

ghost-idle : (x : ThreadState) → x ≡ ghost → (is_asleep x ≡ false) × (is_runnable x ≡ false)
ghost-idle x e = rw e (refl, refl)

fresh-Leaving :
    (s : Sched) (t priority : ℕ) → Inv s → s.state t ≡ ghost → Leaving (reset_fields s t priority) t
fresh-Leaving s t priority v e =
    let (idle, off) = ghost-idle (s.state t) e in
    let out : (s.qwait t ≡ none) × (s.wakeup t ≡ 0) = v.blocked t idle in
    record {
      times = subst (λ w. Times w s.sleeping) (sym (update-same s.wakeup t 0 out.1)) v.times;
      waiting = λ q x. ground (arith, v.waiting q x, out);
      listed = λ p x. ground (arith, v.listed p x, off);
      blocked = λ x ne i. ground (arith, v.blocked x);
      unqueued = ground arith;
      running = λ x ne. v.running x;
    }

reset_fields-Inv :
    (s : Sched) (t priority : ℕ) → Inv s → s.state t ≡ ghost → Inv (reset_fields s t priority)
reset_fields-Inv s t priority v e =
    let (idle, off) = ghost-idle (s.state t) e in
    let l = fresh-Leaving s t priority v e in
    record {
      times = l.times;
      waiting = l.waiting;
      listed = λ p x. ground (arith, v.listed p x, off);
      blocked = λ x i. ground (arith, v.blocked x);
      running = v.running;
    }

launch-Inv : (s : Sched) (t : ℕ) → Leaving s t → Inv (launch s t)
unfolding launch
launch-Inv s t l =
    add_ready-Inv (record s { af = update s.af t 0; kernel_mode = update s.kernel_mode t true }) t
      (record {
        times = l.times;
        waiting = l.waiting;
        listed = l.listed;
        blocked = l.blocked;
        unqueued = l.unqueued;
        running = l.running;
      })

enrol-Leaving : (s : Sched) (t p : ℕ) → Leaving s t → Leaving (enrol s t p) t
enrol-Leaving s t p l = record {
  times = l.times;
  waiting = l.waiting;
  listed = l.listed;
  blocked = l.blocked;
  unqueued = l.unqueued;
  running = l.running;
}

join-Inv :
    (s : Sched) (t : ℕ) (owner : Option ℕ) (inserted : Option Errno)
    → Inv s
    → Leaving s t
    → Inv (join s t owner inserted).1
unfolding join
join-Inv s t none inserted v l = v
join-Inv s t (some p) (some e) v l = v
join-Inv s t (some p) none v l = launch-Inv (enrol s t p) t (enrol-Leaving s t p l)

-- thread_create at a free address keeps the invariant, on every path.
pub create-Inv :
    (s : Sched) (t pid priority page : ℕ) (owner : Option ℕ) (inserted : Option Errno)
    → Inv s
    → s.state t ≡ ghost
    → Inv (create s t pid priority page owner inserted).1
unfolding create
create-Inv s t pid priority page owner inserted v e =
    let u = reset_fields s t priority in
    let kept = reset_fields-Inv s t priority v e in
    let fresh = fresh-Leaving s t priority v e in
    elim (Bool-cases (page == 0)) [
      | inl a ↦ rw a kept
      | inr a ↦ elim (Bool-cases (pid == 0)) [
        | inl b ↦ rw (a, b) (launch-Inv u t fresh)
        | inr b ↦ rw (a, b) (join-Inv u t owner inserted kept fresh)
      ]
    ]

pub boot-Inv : Inv boot
unfolding init timed occ
boot-Inv = record {
  times = record {
    valid = record {
      heap = λ i p q. absurd (omega arith);
      fits = omega arith;
      small = omega arith;
    };
    listed = λ t. refl;
  };
  waiting = λ q t. refl;
  listed = λ p t. refl;
  blocked = λ t h. (refl, refl);
  running = λ t h. absurd (cc);
}

bury-Inv : (s : Sched) (t : ℕ) → Inv s → is_active (s.state t) ≡ true → Inv (bury s t)
unfolding bury
bury-Inv s t v on = record {
  times = v.times;
  waiting = v.waiting;
  listed = λ p x. ground (arith, v.listed p x, on);
  blocked = λ x i. ground (arith, v.blocked x, v.blocked t, on);
  running = λ x i. ground (arith, v.running x);
}

-- A thread that runs ends.
ghost-Inv : (s : Sched) (t : ℕ) → Inv s → is_active (s.state t) ≡ true → Inv (kill s t)
ghost-Inv s t v on =
    let b = bury-Inv s t v on in
    kill-cases Inv s t b (signal_all-Inv (s.zombie_queues (s.process t)) (bury s t) b)

-- The tree of the processes changes, and with it the queues that the end of one would signal.
pub family_changed-Inv : (s : Sched) (z : ℕ → List ℕ) → Inv s → Inv (record s { zombie_queues = z })
family_changed-Inv s z v = record {
  times = v.times;
  waiting = v.waiting;
  listed = v.listed;
  blocked = v.blocked;
  running = v.running;
}

-- Marking a thread to end keeps the invariant.
pub end_thread-Inv : (s : Sched) (t : ℕ) → Inv s → Inv (end_thread s (some t))
unfolding end_thread
end_thread-Inv s t v = record {
  times = v.times;
  waiting = v.waiting;
  listed = v.listed;
  blocked = v.blocked;
  running = v.running;
}

-- The current thread ends and another is chosen.
pub end_current-Inv :
    (s : Sched) (t : ℕ)
    → Inv s
    → s.current ≡ some t
    → is_active (s.state t) ≡ true
    → Inv (end_thread s none)
unfolding end_thread
end_current-Inv s t v e on =
    subst Inv (sym (ap (leave s) e)) (schedule_next-Inv (kill s t) (ghost-Inv s t v on))
