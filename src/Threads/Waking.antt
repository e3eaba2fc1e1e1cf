-- ===== src/Threads/Waking.antt =====
-- _thread_signal and _thread_broadcast.
use zakos.Common.{
  ℕ, suc, ◌≡◌, ◌⊎◌, refl, sym, ap, subst, ◌∙◌, inl, inr, Bool, true, false, ◌==◌, if◌then◌else◌,
  arith, Option, none, some, List, [], ◌∷◌, ◌++◌, length, Bool-cases, occ, occ-head, without-head,
}
use mathlib.Core.List.{append_assoc, append-nil}
use zakos.Threads.{
  Sched, is_active, dequeue, signal, signal_all, bury, kill, broadcast_loop, broadcast,
}
use zakos.Threads.Invariant.{Inv, Woken, is_asleep, waits_in, dequeue_lem}

-- A thread at the head of a queue waits in it, asleep.
pub head-waits :
    (s : Sched) (q t : ℕ) (r : List ℕ)
    → Inv s
    → s.queues q ≡ t ∷ r
    → (waits_in (s.qwait t) q ≡ true) × (is_asleep (s.state t) ≡ true)
head-waits s q t r v e =
    let once : occ t (s.queues q) ≡ suc (occ t r) = ap (occ t) e ∙ occ-head t r in
    let here : waits_in (s.qwait t) q ≡ true = ground (arith, v.waiting q t) in
    (here, ground (arith, v.blocked t))

-- A thread waits in one queue.
pub waits_once : (o : Option ℕ) (q r : ℕ) → waits_in o q ≡ true → waits_in o r ≡ (q == r)
waits_once none q r h = absurd (cc)
waits_once (some p) q r h = ground arith

-- _thread_signal of a queue that is empty does nothing; else it wakes the thread at the head and
-- no other: it leaves the queue, and goes to the end of the list of its priority.
pub signal_lem :
    (s : Sched) (q : ℕ)
    → Inv s
    → ((s.queues q ≡ []) × (signal s q ≡ (false, s)))
      ⊎ ((t : ℕ) × (r : List ℕ) × (u : Sched) × (s.queues q ≡ t ∷ r)
          × (signal s q ≡ (true, u))
          × (u.queues q ≡ r)
          × Inv u
          × Woken s t u)
unfolding signal
signal_lem s q v = by_queue (s.queues q) refl
  where
    by_queue :
        (xs : List ℕ)
        → s.queues q ≡ xs
        → ((s.queues q ≡ []) × (signal s q ≡ (false, s)))
          ⊎ ((t : ℕ) × (r : List ℕ) × (u : Sched) × (s.queues q ≡ t ∷ r)
              × (signal s q ≡ (true, u))
              × (u.queues q ≡ r)
              × Inv u
              × Woken s t u)
    by_queue [] e = inl (e, rw (e, signal) refl)
    by_queue (t ∷ r) e =
        let (here, idle) = head-waits s q t r v e in
        let (inv, w) = dequeue_lem s t v idle in
        let left : (dequeue s t).queues q ≡ r = w.queues q ∙ rw (here, e) (without-head t r) in
        inr (t, r, dequeue s t, e, rw (e, signal) refl, left, inv, w)

-- Either way the invariant holds.
pub signal-Inv : (s : Sched) (q : ℕ) → Inv s → Inv (signal s q).1
signal-Inv s q v = elim (signal_lem s q v) [
  | inl (e, same) ↦ subst (λ z. Inv z.1) (sym same) v
  | inr (t, r, u, e, same, left, inv, w) ↦ subst (λ z. Inv z.1) (sym same) inv
]

-- A signal does not make a thread run.
signal-stopped :
    (s : Sched) (q : ℕ)
    → Inv s
    → ((x : ℕ) → is_active (s.state x) ≡ false)
    → (x : ℕ) → is_active ((signal s q).1.state x) ≡ false
signal-stopped s q v h x = elim (signal_lem s q v) [
  | inl (e, same) ↦ ap (λ z. is_active (z.1.state x)) same ∙ h x
  | inr (t, r, u, e, same, left, inv, w) ↦
      ap (λ z. is_active (z.1.state x)) same ∙ ground (arith, w.state x, h x)
]

pub signal_all-Inv : (qs : List ℕ) (s : Sched) → Inv s → Inv (signal_all qs s)
unfolding signal_all
signal_all-Inv [] s v = v
signal_all-Inv (q ∷ r) s v = signal_all-Inv r (signal s q).1 (signal-Inv s q v)

pub signal_all-stopped :
    (qs : List ℕ) (s : Sched)
    → Inv s
    → ((x : ℕ) → is_active (s.state x) ≡ false)
    → (x : ℕ) → is_active ((signal_all qs s).state x) ≡ false
unfolding signal_all
signal_all-stopped [] s v h = h
signal_all-stopped (q ∷ r) s v h =
    signal_all-stopped r (signal s q).1 (signal-Inv s q v) (signal-stopped s q v h)

-- What holds of the thread that is buried and is kept by the signals holds behind _thread_kill.
pub kill-cases :
    (P : Sched → Type 0) (s : Sched) (t : ℕ)
    → P (bury s t)
    → P (signal_all (s.zombie_queues (s.process t)) (bury s t))
    → P (kill s t)
unfolding kill
kill-cases P s t plain woken = elim (Bool-cases ((bury s t).thread_no (s.process t) == 0)) [
  | inl last ↦ rw last woken
  | inr more ↦ rw more plain
]

-- The threads of a list that have a priority, in order.
abbrev pub of_priority : (ℕ → ℕ) → ℕ → List ℕ → List ℕ
of_priority prio p [] = []
of_priority prio p (t ∷ r) = if prio t == p then t ∷ of_priority prio p r else of_priority prio p r

-- The result of waking a whole queue.
abbrev pub woken : List ℕ → Bool → Bool
woken [] ret = ret
woken (t ∷ r) ret = true

woken-true : (xs : List ℕ) → woken xs true ≡ true
woken-true [] = refl
woken-true (t ∷ r) = refl

-- What waking a whole queue leaves behind.
pub record Broadcast (s : Sched) (q : ℕ) (xs : List ℕ) (u : Sched) : Type 0 where
  pub inv : Inv u
  pub empty : u.queues q ≡ []
  pub others : (r : ℕ) → (q == r) ≡ false → u.queues r ≡ s.queues r
  pub ready : (p : ℕ) → u.ready p ≡ s.ready p ++ of_priority s.priority p xs
  pub priority : u.priority ≡ s.priority
  pub current : u.current ≡ s.current

broadcast_loop_lem :
    (xs : List ℕ) (s : Sched) (q : ℕ) (ret : Bool)
    → Inv s
    → s.queues q ≡ xs
    → Broadcast s q xs (broadcast_loop (length xs) s q ret).1
      × ((broadcast_loop (length xs) s q ret).0 ≡ woken xs ret)
unfolding broadcast_loop
broadcast_loop_lem [] s q ret v e = (
  record {
    inv = v;
    empty = e;
    others = λ r ne. refl;
    ready = λ p. sym (append-nil (s.ready p));
    priority = refl;
    current = refl;
  },
  refl,
)
broadcast_loop_lem (t ∷ xs) s q ret v e =
    let (here, idle) = head-waits s q t xs v e in
    let (inv, w) = dequeue_lem s t v idle in
    let left : (dequeue s t).queues q ≡ xs = w.queues q ∙ rw (here, e) (without-head t xs) in
    let (b, flag) = broadcast_loop_lem xs (dequeue s t) q true inv left in
    rw (e, broadcast_loop)
      (
        record {
          inv = b.inv;
          empty = b.empty;
          others =
              λ r ne. b.others r ne ∙ ground (arith, w.queues r, waits_once (s.qwait t) q r here);
          ready = λ p. elim (Bool-cases (s.priority t == p)) [
            | inl same ↦
                b.ready p ∙ rw (w.priority, w.ready p, same) (append_assoc (s.ready p) (t ∷ []) _)
            | inr other ↦ b.ready p ∙ rw (w.priority, w.ready p, other) refl
          ];
          priority = b.priority ∙ w.priority;
          current = b.current ∙ w.current;
        },
        flag ∙ woken-true xs,
      )

-- _thread_broadcast wakes every thread of the queue and no other, in the order of the queue: each
-- list of runnable threads is extended by the threads of its priority. It reports whether there
-- was one.
pub broadcast_lem :
    (s : Sched) (q : ℕ)
    → Inv s
    → Broadcast s q (s.queues q) (broadcast s q).1 × ((broadcast s q).0 ≡ woken (s.queues q) false)
unfolding broadcast
broadcast_lem s q v = broadcast_loop_lem (s.queues q) s q false v refl
