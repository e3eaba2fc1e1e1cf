-- ===== src/Threads/Blocking.antt =====
-- _thread_wait and thread_sleep, up to the switch to another thread; _thread_signal_irq.
use zakos.Common.{
  ℕ, ◌<◌, ◌≡◌, ◌≢◌, ◌⊎◌, refl, fun_ext, sym, ap, subst, ◌∙◌, inl, inr, true, false, ◌&&◌, ◌==◌,
  if◌then◌else◌, update, arith, Option, none, some, List, [], ◌∷◌, ◌++◌, length, Bool-cases, ==_iff,
  occ, occ-snoc, occ-without, without-head,
}
use mathlib.Core.List.{append_assoc, append-nil}
use zakos.Threads.{
  Sched, asleep, append, by_wakeup, or_same, is_active, wait, sleep, sleeping_enqueue, irq_signaled,
  move_to_irq, signal_irq_loop, signal_irq,
}
use zakos.BinHeap.{insert}
use zakos.Threads.Timeouts.{Times, insert-Times, update-same}
use zakos.Threads.Invariant.{Inv, is_runnable, waits_in, unlink-some}
use zakos.Threads.Waking.{head-waits}

update_twice : (w : ℕ → ℕ) (t k : ℕ) → update (update w t k) t k ≡ update w t k
update_twice w t k = fun_ext (λ x. ground arith)

-- The heap takes the thread, if it is to get a time.
abbrev pub HasRoom : Sched → ℕ → Type 0
HasRoom s k = (k ≡ 0) ⊎ (s.sleeping.size < s.sleeping.capacity)

-- What waiting leaves behind.
pub record Waits (s : Sched) (t q k : ℕ) (u : Sched) : Type 0 where
  pub inv : Inv u
  pub last : u.queues q ≡ append (s.queues q) t
  pub others : (r : ℕ) → (q == r) ≡ false → u.queues r ≡ s.queues r
  pub wakeup : (x : ℕ) → u.wakeup x ≡ (if t == x then k else s.wakeup x)
  pub state : (x : ℕ) → u.state x ≡ (if t == x then asleep else s.state x)
  pub ready : u.ready ≡ s.ready

-- With the invariant, _thread_wait of a thread that runs puts it to sleep at the end of the
-- queue, and into the heap if it has a timeout, for which the heap has room. The invariant
-- holds again.
pub wait_lem :
    (s : Sched) (t q k : ℕ)
    → Inv s
    → is_active (s.state t) ≡ true
    → HasRoom s k
    → Waits s t q k (wait s t q k)
unfolding wait sleeping_enqueue
wait_lem s t q k v on room =
    let off : (s.qwait t ≡ none) × (s.wakeup t ≡ 0) = ground (arith, v.blocked t) in
    let waiting = λ (r x : ℕ).
      let p : occ x (update s.queues q (append (s.queues q) t) r)
          ≡ (if waits_in (update s.qwait t (some q) x) r then 1 else 0) =
        ground (arith, v.waiting r x, occ-snoc x t (s.queues q), off) in
      p in
    let listed = λ (p x : ℕ).
      let e : occ x (s.ready p)
          ≡ (if is_runnable (update s.state t asleep x) && (s.priority x == p) then 1 else 0) =
        ground (arith, v.listed p x, on) in
      e in
    elim (Bool-cases (k == 0)) [
      | inl e ↦ rw e (record {
        inv = record {
          times =
              subst (λ w. Times w s.sleeping) (sym (update-same s.wakeup t k (ground (arith, off))))
                v.times;
          waiting = waiting;
          listed = listed;
          blocked = λ x h. ground (arith, v.blocked x);
          running = λ x h. ground (arith, v.running x);
        };
        last = ground arith;
        others = λ r ne. ground arith;
        wakeup = λ x. refl;
        state = λ x. refl;
        ready = refl;
      })
      | inr e ↦ rw e (record {
        inv = record {
          times =
              subst (λ w. Times w (or_same (insert (by_wakeup w) s.sleeping t) s.sleeping))
                (sym (update_twice s.wakeup t k))
                (insert-Times s.wakeup s.sleeping t k v.times off.1 (ground arith) (ground arith));
          waiting = waiting;
          listed = λ p x. ground (arith, v.listed p x, on);
          blocked = λ x h. ground (arith, v.blocked x);
          running = λ x h. ground (arith, v.running x);
        };
        last = ground arith;
        others = λ r ne. ground arith;
        wakeup = λ x. ground arith;
        state = λ x. ground arith;
        ready = refl;
      })
    ]

-- thread_sleep of the running thread puts it into the heap, which has room, and nowhere else.
pub sleep-Inv :
    (s : Sched) (t k : ℕ)
    → Inv s
    → is_active (s.state t) ≡ true
    → k ≢ 0
    → s.sleeping.size < s.sleeping.capacity
    → Inv (sleep s t k)
      × ((sleep s t k).wakeup t ≡ k)
      × ((sleep s t k).queues ≡ s.queues)
      × ((sleep s t k).ready ≡ s.ready)
unfolding sleep sleeping_enqueue
sleep-Inv s t k v on pos room =
    let off : (s.qwait t ≡ none) × (s.wakeup t ≡ 0) = ground (arith, v.blocked t) in
    (
      record {
        times = insert-Times s.wakeup s.sleeping t k v.times off.1 pos room;
        waiting = v.waiting;
        listed = λ p x. ground (arith, v.listed p x, on);
        blocked = λ x h. ground (arith, v.blocked x);
        running = λ x h. ground (arith, v.running x);
      },
      ground arith,
      refl,
      refl,
    )

-- What moving a whole queue to the list of the interrupts leaves behind.
pub record Moved (s : Sched) (q : ℕ) (xs : List ℕ) (u : Sched) : Type 0 where
  pub inv : Inv u
  pub empty : u.queues q ≡ []
  pub signaled : u.queues irq_signaled ≡ s.queues irq_signaled ++ xs
  pub others : (r : ℕ) → (q == r) ≡ false → (irq_signaled == r) ≡ false → u.queues r ≡ s.queues r
  pub ready : u.ready ≡ s.ready
  pub state : u.state ≡ s.state

waits_in-some : (o : Option ℕ) (q : ℕ) → waits_in o q ≡ true → o ≡ some q
waits_in-some none q h = absurd (cc)
waits_in-some (some r) q h = ap some (ground (arith, ==_iff r q))

move_to_irq_lem :
    (s : Sched) (q t : ℕ) (r : List ℕ)
    → Inv s
    → q ≢ irq_signaled
    → s.queues q ≡ t ∷ r
    → Inv (move_to_irq s t)
      × ((p : ℕ)
          → (move_to_irq s t).queues p ≡ (
              if irq_signaled == p
              then append (s.queues irq_signaled) t
              else if q == p
              then r
              else s.queues p))
      × ((move_to_irq s t).ready ≡ s.ready)
      × ((move_to_irq s t).state ≡ s.state)
unfolding move_to_irq
move_to_irq_lem s q t r v ne e =
    let (here, idle) = head-waits s q t r v e in
    let at = waits_in-some (s.qwait t) q here in
    rw (unlink-some s t q at) (
      record {
        times = v.times;
        waiting = λ p x. ground (
          arith,
          v.waiting p x,
          v.waiting q x,
          occ-snoc x t (s.queues irq_signaled),
          occ-without x t (s.queues q),
        );
        listed = v.listed;
        blocked = λ x h. ground (arith, v.blocked x h);
        running = v.running;
      },
      λ p. ground (arith, without-head t r, e),
      refl,
      refl,
    )

signal_irq_loop_lem :
    (xs : List ℕ) (s : Sched) (q : ℕ)
    → Inv s
    → q ≢ irq_signaled
    → s.queues q ≡ xs
    → Moved s q xs (signal_irq_loop (length xs) s q)
unfolding signal_irq_loop
signal_irq_loop_lem [] s q v ne e = record {
  inv = v;
  empty = e;
  signaled = sym (append-nil (s.queues irq_signaled));
  others = λ r a b. refl;
  ready = refl;
  state = refl;
}
signal_irq_loop_lem (t ∷ xs) s q v ne e =
    let (inv, queues, ready, state) = move_to_irq_lem s q t xs v ne e in
    let m = signal_irq_loop_lem xs (move_to_irq s t) q inv ne (queues q ∙ ground arith) in
    rw (e, signal_irq_loop)
      (record {
        inv = m.inv;
        empty = m.empty;
        signaled =
            m.signaled
            ∙ ap (λ z. z ++ xs) (queues irq_signaled)
            ∙ append_assoc (s.queues irq_signaled) (t ∷ []) xs;
        others = λ r a b. m.others r a b ∙ ground (arith, queues r);
        ready = m.ready ∙ ready;
        state = m.state ∙ state;
      })

-- _thread_signal_irq of a queue other than the list of the interrupts moves the whole queue to the
-- end of that list, in order: every thread stays asleep, and no other queue changes.
pub signal_irq_lem :
    (s : Sched) (q : ℕ) → Inv s → q ≢ irq_signaled → Moved s q (s.queues q) (signal_irq s q)
unfolding signal_irq
signal_irq_lem s q v ne = signal_irq_loop_lem (s.queues q) s q v ne refl
