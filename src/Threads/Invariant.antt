-- ===== src/Threads/Invariant.antt =====
-- Where every thread stands: in the queue that it waits in, in the list of its priority, in the
-- heap of the timeouts, or nowhere.
use zakos.Common.{
  ℕ, ◌+◌, ◌≡◌, ◌≢◌, refl, sym, ap, subst, inl, inr, Bool, true, false, ◌&&◌, ◌==◌, if◌then◌else◌,
  update, arith, Option, none, some, Option-cases, Bool-cases, occ, without, occ-snoc, occ-without,
}
use zakos.Threads.{
  Sched, ThreadState, runnable, asleep, is_active, append, wake, add_ready, unlink, dequeue,
}
use zakos.Threads.Timeouts.{Times, extract-Times}

abbrev pub is_asleep : ThreadState → Bool
is_asleep asleep = true
is_asleep _ = false

abbrev pub is_runnable : ThreadState → Bool
is_runnable runnable = true
is_runnable _ = false

-- The thread waits in the queue.
abbrev pub waits_in : Option ℕ → ℕ → Bool
waits_in none q = false
waits_in (some r) q = r == q

pub record Inv (s : Sched) : Type 0 where
  pub times : Times s.wakeup s.sleeping
  pub waiting : (q t : ℕ) → occ t (s.queues q) ≡ (if waits_in (s.qwait t) q then 1 else 0)
  pub listed :
      (p t : ℕ)
      → occ t (s.ready p) ≡ (if is_runnable (s.state t) && (s.priority t == p) then 1 else 0)
  pub blocked : (t : ℕ) → is_asleep (s.state t) ≡ false → (s.qwait t ≡ none) × (s.wakeup t ≡ 0)
  pub running : (t : ℕ) → is_active (s.state t) ≡ true → s.current ≡ some t

-- The same, but for the state of `t`, which is in no list of runnable threads and is to be woken.
pub record Leaving (s : Sched) (t : ℕ) : Type 0 where
  pub times : Times s.wakeup s.sleeping
  pub waiting : (q x : ℕ) → occ x (s.queues q) ≡ (if waits_in (s.qwait x) q then 1 else 0)
  pub listed :
      (p x : ℕ)
      → occ x (s.ready p)
        ≡ (if t == x then 0 else if is_runnable (s.state x) && (s.priority x == p) then 1 else 0)
  pub blocked :
      (x : ℕ) → t ≢ x → is_asleep (s.state x) ≡ false → (s.qwait x ≡ none) × (s.wakeup x ≡ 0)
  pub unqueued : s.qwait t ≡ none
  pub running : (x : ℕ) → t ≢ x → is_active (s.state x) ≡ true → s.current ≡ some x

-- What _threads_add_ready does, but for the heap.
pub record Readied (s : Sched) (t : ℕ) (u : Sched) : Type 0 where
  pub ready : (p : ℕ) → u.ready p ≡ (if s.priority t == p then append (s.ready p) t else s.ready p)
  pub state : (x : ℕ) → u.state x ≡ (if t == x then runnable else s.state x)
  pub wakeup : (x : ℕ) → u.wakeup x ≡ (if t == x then 0 else s.wakeup x)
  pub size : u.sleeping.size + (if s.wakeup t == 0 then 0 else 1) ≡ s.sleeping.size
  pub queues : u.queues ≡ s.queues
  pub qwait : u.qwait ≡ s.qwait
  pub priority : u.priority ≡ s.priority
  pub current : u.current ≡ s.current
  pub af : u.af ≡ s.af
  pub exit : u.exit ≡ s.exit
  pub kernel_mode : u.kernel_mode ≡ s.kernel_mode

pub add_ready-Readied :
    (s : Sched) (t : ℕ) → Times s.wakeup s.sleeping → Readied s t (add_ready s t)
unfolding add_ready wake
add_ready-Readied s t v = elim (Bool-cases (s.wakeup t == 0)) [
  | inl e ↦ rw e (record {
    ready = λ p. ground arith;
    state = λ x. refl;
    wakeup = λ x. ground arith;
    size = ground arith;
    queues = refl;
    qwait = refl;
    priority = refl;
    current = refl;
    af = refl;
    exit = refl;
    kernel_mode = refl;
  })
  | inr e ↦
      let (times, less) = extract-Times s.wakeup s.sleeping t v (ground arith) in
      rw e (record {
        ready = λ p. ground arith;
        state = λ x. refl;
        wakeup = λ x. refl;
        size = ground (arith, less);
        queues = refl;
        qwait = refl;
        priority = refl;
        current = refl;
        af = refl;
        exit = refl;
        kernel_mode = refl;
      })
]

add_ready-Times :
    (s : Sched) (t : ℕ)
    → Times s.wakeup s.sleeping
    → Times (add_ready s t).wakeup (add_ready s t).sleeping
unfolding add_ready wake
add_ready-Times s t v = elim (Bool-cases (s.wakeup t == 0)) [
  | inl e ↦ rw e v
  | inr e ↦ rw e (extract-Times s.wakeup s.sleeping t v (ground arith)).0
]

pub add_ready-Inv : (s : Sched) (t : ℕ) → Leaving s t → Inv (add_ready s t)
add_ready-Inv s t v =
    let r = add_ready-Readied s t v.times in
    record {
      times = add_ready-Times s t v.times;
      waiting = λ q x. rw (r.queues, r.qwait) (v.waiting q x);
      listed = λ p x.
          rw r.priority
            (ground (arith, r.ready p, r.state x, v.listed p x, occ-snoc x t (s.ready p)));
      blocked = λ x h. rw r.qwait (ground (arith, r.state x, r.wakeup x, v.blocked x, v.unqueued));
      running = λ x h. rw r.current (ground (arith, r.state x, v.running x));
    }

-- What _thread_dequeue does to the lists, the states and the times.
pub record Woken (s : Sched) (t : ℕ) (u : Sched) : Type 0 where
  pub ready : (p : ℕ) → u.ready p ≡ (if s.priority t == p then append (s.ready p) t else s.ready p)
  pub state : (x : ℕ) → u.state x ≡ (if t == x then runnable else s.state x)
  pub wakeup : (x : ℕ) → u.wakeup x ≡ (if t == x then 0 else s.wakeup x)
  pub size : u.sleeping.size + (if s.wakeup t == 0 then 0 else 1) ≡ s.sleeping.size
  pub queues :
      (q : ℕ) → u.queues q ≡ (if waits_in (s.qwait t) q then without t (s.queues q) else s.queues q)
  pub qwait : (x : ℕ) → u.qwait x ≡ (if t == x then none else s.qwait x)
  pub priority : u.priority ≡ s.priority
  pub current : u.current ≡ s.current
  pub af : u.af ≡ s.af

unlink-none : (s : Sched) (t : ℕ) → s.qwait t ≡ none → unlink s t ≡ s
unfolding unlink
unlink-none s t e = rw (e, unlink) refl

pub unlink-some :
    (s : Sched) (t q : ℕ)
    → s.qwait t ≡ some q
    → unlink s t ≡ record s {
      queues = update s.queues q (without t (s.queues q));
      qwait = update s.qwait t none;
    }
unfolding unlink
unlink-some s t q e = rw (e, unlink) refl

-- A thread that sleeps is woken: it leaves its queue and the heap, and goes to the end of the list
-- of its priority.
pub dequeue_lem :
    (s : Sched) (t : ℕ)
    → Inv s
    → is_asleep (s.state t) ≡ true
    → Inv (dequeue s t) × Woken s t (dequeue s t)
unfolding dequeue
dequeue_lem s t v h = elim (Option-cases (s.qwait t)) [
  | inl e ↦
      let leaving : Leaving s t = record {
        times = v.times;
        waiting = v.waiting;
        listed = λ p x. ground (arith, v.listed p x);
        blocked = λ x ne. v.blocked x;
        unqueued = e;
        running = λ x ne. v.running x;
      } in
      let r = add_ready-Readied s t v.times in
      let same : dequeue s t ≡ add_ready s t = ap (λ z. add_ready z t) (unlink-none s t e) in
      subst (λ z. Inv z × Woken s t z) (sym same)
        (
          add_ready-Inv s t leaving,
          record {
            ready = r.ready;
            state = r.state;
            wakeup = r.wakeup;
            size = r.size;
            queues = λ q. rw r.queues (ground arith);
            qwait = λ x. rw r.qwait (ground arith);
            priority = r.priority;
            current = r.current;
            af = r.af;
          },
        )
  | inr (q, e) ↦
      let u : Sched = record s {
        queues = update s.queues q (without t (s.queues q));
        qwait = update s.qwait t none;
      } in
      let leaving : Leaving u t = record {
        times = v.times;
        waiting = λ r x. ground (arith, v.waiting r x, occ-without x t (s.queues q));
        listed = λ p x. ground (arith, v.listed p x);
        blocked = λ x ne. ground (arith, v.blocked x);
        unqueued = ground arith;
        running = λ x ne. v.running x;
      } in
      let r = add_ready-Readied u t v.times in
      let same : dequeue s t ≡ add_ready u t = ap (λ z. add_ready z t) (unlink-some s t q e) in
      subst (λ z. Inv z × Woken s t z) (sym same)
        (
          add_ready-Inv u t leaving,
          record {
            ready = r.ready;
            state = r.state;
            wakeup = r.wakeup;
            size = r.size;
            queues = λ q. rw r.queues (ground arith);
            qwait = λ x. rw r.qwait (ground arith);
            priority = r.priority;
            current = r.current;
            af = r.af;
          },
        )
]
