-- ===== src/Threads/Contenders.antt =====
-- The first half of _thread_schedule, which puts the current thread back.
use zakos.Common.{
  ℕ, ◌≡◌, refl, sym, ap, subst, ◌∙◌, inl, inr, true, false, ◌&&◌, ◌==◌, if◌then◌else◌, arith,
  Option, none, some, List, Option-cases, Bool-cases,
}
use zakos.Threads.{Sched, runnable, is_active, append, add_ready, put_current}
use zakos.Threads.Invariant.{Inv, Leaving, add_ready-Inv, add_ready-Readied}

-- The threads of a priority that may be chosen, in order: the running thread comes last.
abbrev pub contenders : Sched → ℕ → List ℕ
contenders s p = elim s.current [
  | none ↦ s.ready p
  | some t ↦
      if is_active (s.state t) && (s.priority t == p) then append (s.ready p) t else s.ready p
]

-- What putting the current thread back leaves behind.
pub record Put (s : Sched) (u : Sched) : Type 0 where
  pub inv : Inv u
  pub stopped : (x : ℕ) → is_active (u.state x) ≡ false
  pub ready : (p : ℕ) → u.ready p ≡ contenders s p
  pub state : (x : ℕ) → u.state x ≡ (if is_active (s.state x) then runnable else s.state x)
  pub current : u.current ≡ s.current
  pub exit : u.exit ≡ s.exit
  pub kernel_mode : u.kernel_mode ≡ s.kernel_mode

pub some_eq : (a b : ℕ) → some a ≡ some b → a ≡ b
some_eq a b e = ap (λ o. elim o [ none ↦ a | some x ↦ x ]) e

put_current-idle :
    (s : Sched)
    → Inv s
    → put_current s ≡ s
    → ((x : ℕ) → is_active (s.state x) ≡ false)
    → ((p : ℕ) → contenders s p ≡ s.ready p)
    → Put s (put_current s)
put_current-idle s v e h c =
    subst (λ z. Put s z) (sym e)
      (record {
        inv = v;
        stopped = h;
        ready = λ p. sym (c p);
        state = λ x. rw (h x) refl;
        current = refl;
        exit = refl;
        kernel_mode = refl;
      })

contenders-some :
    (s : Sched) (t p : ℕ)
    → s.current ≡ some t
    → is_active (s.state t) ≡ true
    → contenders s p ≡ (if s.priority t == p then append (s.ready p) t else s.ready p)
contenders-some s t p e on = rw (e, on) refl

-- The body of put_current.
abbrev put_back : Sched → Option ℕ → Sched
put_back s o = elim o [ none ↦ s | some t ↦ if is_active (s.state t) then add_ready s t else s ]

-- The current thread joins the threads of its priority.
pub put_current_lem : (s : Sched) → Inv s → Put s (put_current s)
unfolding put_current
put_current_lem s v = elim (Option-cases s.current) [
  | inl e ↦
      let idle =
        λ (x : ℕ). let h : is_active (s.state x) ≡ false = ground (arith, v.running x, e) in h in
      put_current-idle s v (ap (put_back s) e) idle (λ p. rw e refl)
  | inr (t, e) ↦ elim (Bool-cases (is_active (s.state t))) [
    | inr off ↦
        let idle = λ (x : ℕ).
          let h : is_active (s.state x) ≡ false =
            ground (arith, v.running x, some_eq t x, e, off) in
          h in
        put_current-idle s v (ap (put_back s) e ∙ ap (λ b. if b then add_ready s t else s) off) idle
          (λ p. rw (e, off) refl)
    | inl on ↦
        let leaving : Leaving s t = record {
          times = v.times;
          waiting = v.waiting;
          listed = λ p x. ground (arith, v.listed p x, on);
          blocked = λ x ne. v.blocked x;
          unqueued = ground (arith, v.blocked t);
          running = λ x ne. v.running x;
        } in
        let r = add_ready-Readied s t v.times in
        let only = λ (x : ℕ).
          let h : is_active (s.state x) ≡ (t == x) =
            ground (arith, v.running x, some_eq t x, e, on) in
          h in
        let same : put_current s ≡ add_ready s t =
          ap (put_back s) e ∙ ap (λ b. if b then add_ready s t else s) on in
        subst (λ z. Put s z) (sym same)
          (record {
            inv = add_ready-Inv s t leaving;
            stopped = λ x. ground (arith, r.state x, only x);
            ready = λ p. r.ready p ∙ sym (contenders-some s t p e on);
            state = λ x. ground (arith, r.state x, only x);
            current = r.current;
            exit = r.exit;
            kernel_mode = r.kernel_mode;
          })
  ]
]
