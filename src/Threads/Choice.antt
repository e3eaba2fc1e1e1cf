-- ===== src/Threads/Choice.antt =====
-- _thread_schedule: which thread runs next.
use zakos.Common.{
  ℕ, zero, suc, ◌+◌, ◌-◌, ◌<◌, ◌≤◌, ◌≡◌, refl, sym, ap, subst, ◌∙◌, inl, inr, ◌⊎◌, true, false, not,
  ◌&&◌, ◌==◌, if◌then◌else◌, update, arith, some, List, [], ◌∷◌, Bool-cases, occ, without, occ-head,
  occ-without, without-head,
}
use zakos.Threads.{
  Sched, active, runnable, is_active, bury, kill, put_current, select_thread, schedule_next,
  priority_no,
}
use zakos.Threads.Waking.{signal_all-Inv, signal_all-stopped, kill-cases}
use zakos.Threads.Contenders.{contenders, put_current_lem}
use zakos.Threads.Invariant.{Inv, is_runnable}

list_cases : (xs : List ℕ) → (xs ≡ []) ⊎ ((t : ℕ) × (r : List ℕ) × (xs ≡ t ∷ r))
list_cases [] = inl refl
list_cases (t ∷ r) = inr (t, r, refl)

-- A thread at the head of a list of runnable threads.
head-runnable :
    (s : Sched) (p t : ℕ) (r : List ℕ)
    → Inv s
    → s.ready p ≡ t ∷ r
    → (is_runnable (s.state t) ≡ true) × (s.priority t ≡ p)
head-runnable s p t r v e =
    let once : occ t (s.ready p) ≡ suc (occ t r) = ap (occ t) e ∙ occ-head t r in
    ground (arith, v.listed p t)

-- The thread at the head of a list of runnable threads leaves it.
abbrev taken : Sched → ℕ → ℕ → Sched
taken s p t = record s { ready = update s.ready p (without t (s.ready p)) }

bury-Inv :
    (s : Sched) (p t : ℕ) (r : List ℕ)
    → Inv s
    → ((x : ℕ) → is_active (s.state x) ≡ false)
    → s.ready p ≡ t ∷ r
    → Inv (bury (taken s p t) t) × ((x : ℕ) → is_active ((bury (taken s p t) t).state x) ≡ false)
unfolding bury
bury-Inv s p t r v h e =
    let (on, prio) = head-runnable s p t r v e in
    (
      record {
        times = v.times;
        waiting = v.waiting;
        listed = λ q x. ground (arith, v.listed q x, occ-without x t (s.ready p));
        blocked = λ x i. ground (arith, v.blocked x, v.blocked t);
        running = λ x i. ground (arith, h x);
      },
      λ x. ground (arith, h x),
    )

-- It ends.
kill-Inv :
    (s : Sched) (p t : ℕ) (r : List ℕ)
    → Inv s
    → ((x : ℕ) → is_active (s.state x) ≡ false)
    → s.ready p ≡ t ∷ r
    → Inv (kill (taken s p t) t) × ((x : ℕ) → is_active ((kill (taken s p t) t).state x) ≡ false)
kill-Inv s p t r v h e =
    let (inv, stopped) = bury-Inv s p t r v h e in
    let qs = s.zombie_queues (s.process t) in
    kill-cases (λ u. Inv u × ((x : ℕ) → is_active (u.state x) ≡ false)) (taken s p t) t
      (inv, stopped)
      (
        signal_all-Inv qs (bury (taken s p t) t) inv,
        signal_all-stopped qs (bury (taken s p t) t) inv stopped,
      )

-- It becomes the current thread.
take-Inv :
    (s : Sched) (p t : ℕ) (r : List ℕ)
    → Inv s
    → ((x : ℕ) → is_active (s.state x) ≡ false)
    → s.ready p ≡ t ∷ r
    → Inv (record (taken s p t) { current = some t; state = update s.state t active })
take-Inv s p t r v h e =
    let (on, prio) = head-runnable s p t r v e in
    record {
      times = v.times;
      waiting = v.waiting;
      listed = λ q x. ground (arith, v.listed q x, occ-without x t (s.ready p));
      blocked = λ x i. ground (arith, v.blocked x, v.blocked t);
      running = λ x i. ap some (ground (arith, h x));
    }

-- The scheduler finds a thread of the priority.
select_thread-some :
    (n p t : ℕ) (r : List ℕ) (s : Sched)
    → s.ready p ≡ t ∷ r
    → select_thread (suc n) p s ≡ (
        if s.exit t && not (s.kernel_mode t)
        then select_thread n (p + 1) (kill (taken s p t) t)
        else record (taken s p t) { current = some t; state = update s.state t active })
unfolding select_thread
select_thread-some n p t r s e =
    ap
      (λ (xs : List ℕ). elim xs [
        | [] ↦ select_thread n (p + 1) s
        | x ∷ y ↦
            if s.exit x && not (s.kernel_mode x)
            then select_thread n (p + 1) (kill (taken s p x) x)
            else record (taken s p x) { current = some x; state = update s.state x active }
      ])
      e

select_thread-kill :
    (n p t : ℕ) (r : List ℕ) (s : Sched)
    → s.ready p ≡ t ∷ r
    → (s.exit t && not (s.kernel_mode t)) ≡ true
    → select_thread (suc n) p s ≡ select_thread n (p + 1) (kill (taken s p t) t)
select_thread-kill n p t r s e x =
    select_thread-some n p t r s e
    ∙ ap
        (λ b.
          if b
          then select_thread n (p + 1) (kill (taken s p t) t)
          else record (taken s p t) { current = some t; state = update s.state t active })
        x

select_thread-take :
    (n p t : ℕ) (r : List ℕ) (s : Sched)
    → s.ready p ≡ t ∷ r
    → (s.exit t && not (s.kernel_mode t)) ≡ false
    → select_thread (suc n) p s
      ≡ record (taken s p t) { current = some t; state = update s.state t active }
select_thread-take n p t r s e x =
    select_thread-some n p t r s e
    ∙ ap
        (λ b.
          if b
          then select_thread n (p + 1) (kill (taken s p t) t)
          else record (taken s p t) { current = some t; state = update s.state t active })
        x

select_thread-Inv :
    (n p : ℕ) (s : Sched)
    → Inv s
    → ((x : ℕ) → is_active (s.state x) ≡ false)
    → Inv (select_thread n p s)
unfolding select_thread
select_thread-Inv zero p s v h = v
select_thread-Inv (suc n) p s v h = elim (list_cases (s.ready p)) [
  | inl e ↦ rw (e, select_thread) (select_thread-Inv n (p + 1) s v h)
  | inr (t, r, e) ↦ elim (Bool-cases (s.exit t && not (s.kernel_mode t))) [
    | inl x ↦
        let (inv, stopped) = kill-Inv s p t r v h e in
        let rest = select_thread-Inv n (p + 1) (kill (taken s p t) t) inv stopped in
        subst Inv (sym (select_thread-kill n p t r s e x)) rest
    | inr x ↦ subst Inv (sym (select_thread-take n p t r s e x)) (take-Inv s p t r v h e)
  ]
]

-- _thread_schedule keeps every thread where it belongs, whether or not threads end in it.
pub schedule_next-Inv : (s : Sched) → Inv s → Inv (schedule_next s)
unfolding schedule_next
schedule_next-Inv s v =
    let m = put_current_lem s v in
    let i = select_thread-Inv priority_no 0 (put_current s) m.inv m.stopped in
    record {
      times = i.times;
      waiting = i.waiting;
      listed = i.listed;
      blocked = i.blocked;
      running = i.running;
    }

select_thread-none :
    (n p : ℕ) (s : Sched) → s.ready p ≡ [] → select_thread (suc n) p s ≡ select_thread n (p + 1) s
unfolding select_thread
select_thread-none n p s e = rw (e, select_thread) refl

-- The scheduler passes over priorities without a thread.
select_thread-first :
    (k p n : ℕ) (s : Sched)
    → ((q : ℕ) → p ≤ q → q < p + k → s.ready q ≡ [])
    → select_thread (k + n) p s ≡ select_thread n (p + k) s
select_thread-first zero p n s h =
    ap (λ z. select_thread z p s) (omega arith) ∙ ap (λ z. select_thread n z s) (omega arith)
select_thread-first (suc k) p n s h =
    ap (λ z. select_thread z p s) (omega arith)
    ∙ select_thread-none (k + n) p s (h p (omega arith) (omega arith))
    ∙ select_thread-first k (p + 1) n s (λ q a b. h q (omega arith) (omega arith))
    ∙ ap (λ z. select_thread n z s) (omega arith)

-- What choosing the thread `t` of priority `p` leaves behind.
pub record Chosen (s : Sched) (p t : ℕ) (r : List ℕ) (u : Sched) : Type 0 where
  pub inv : Inv u
  pub current : u.current ≡ some t
  pub state :
      (x : ℕ)
      → u.state x
        ≡ (if t == x then active else if is_active (s.state x) then runnable else s.state x)
  pub ready : (q : ℕ) → u.ready q ≡ (if p == q then r else contenders s q)
  pub on : u.schedule ≡ true

-- With the invariant, _thread_schedule gives the processor to the first thread of the highest
-- priority that has one to run, if it is not to end: the thread that ran until now competes as
-- the last of its priority. Nothing else is taken from the lists, and the invariant holds
-- again.
pub schedule_lem :
    (s : Sched) (p t : ℕ) (r : List ℕ)
    → Inv s
    → p < priority_no
    → ((q : ℕ) → q < p → contenders s q ≡ [])
    → contenders s p ≡ t ∷ r
    → (s.exit t && not (s.kernel_mode t)) ≡ false
    → Chosen s p t r (schedule_next s)
unfolding schedule_next
schedule_lem s p t r v top above here stay =
    let m = put_current_lem s v in
    let u = put_current s in
    let found : u.ready p ≡ t ∷ r = m.ready p ∙ here in
    let kept : (u.exit t && not (u.kernel_mode t)) ≡ false = rw (m.exit, m.kernel_mode) stay in
    let same : select_thread priority_no 0 u
        ≡ record (taken u p t) { current = some t; state = update u.state t active } =
      ap (λ z. select_thread z 0 u) (omega arith)
      ∙ select_thread-first p 0 (suc (7 - p)) u (λ q a b. m.ready q ∙ above q (omega arith))
      ∙ ap (λ z. select_thread (suc (7 - p)) z u) (omega arith)
      ∙ select_thread-take (7 - p) p t r u found kept in
    let i = take-Inv u p t r m.inv m.stopped found in
    subst (λ z. Chosen s p t r (record z { schedule = true })) (sym same)
      (record {
        inv = record {
          times = i.times;
          waiting = i.waiting;
          listed = i.listed;
          blocked = i.blocked;
          running = i.running;
        };
        current = refl;
        state = λ x. ground (arith, m.state x);
        ready = λ q. ground (arith, m.ready q, found, without-head t r);
        on = refl;
      })
