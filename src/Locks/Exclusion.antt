-- ===== src/Locks/Exclusion.antt =====
-- The lock excludes, and no wake-up is lost.
use zakos.Common.{
  ℕ, ◌≡◌, ◌≢◌, ◌⊎◌, refl, ap, inl, inr, Bool, true, false, List, [], ◌∷◌, ◌++◌, ◌==◌, if◌then◌else◌,
  update, occ, occ-snoc, arith, ==_iff,
}
use zakos.Locks.{
  Place, outside, holding, waiting, listening, woken, Lock, goes, lock_try, lock_lock, wake_first,
  Step, locks, tries, tries_again, unlocks, cond_waits, cond_wakes, Reach, start, later,
}

pub record IsSafe (s : Lock) : Type 0 where
  pub exclusive : (i j : ℕ) → s.places i ≡ holding → s.places j ≡ holding → i ≡ j
  pub marked : (i : ℕ) → s.places i ≡ holding → s.locked ≡ true
  pub owned : s.locked ≡ true → (i : ℕ) × (s.places i ≡ holding)
  pub queued : (i : ℕ) → occ i s.queue ≢ 0 → s.places i ≡ waiting
  pub served : (i : ℕ) → s.places i ≡ waiting → occ i s.queue ≡ 1
  pub expected : (i : ℕ) → occ i s.queue ≢ 0 → (s.locked ≡ true) ⊎ ((j : ℕ) × (s.places j ≡ woken))

take_lock :
    (s : Lock) (i : ℕ)
    → IsSafe s
    → s.locked ≡ false
    → s.places i ≢ waiting
    → IsSafe (goes (record s { locked = true }) i holding)
take_lock s i v free awake = record {
  exclusive = λ a b x y. ground (arith, v.marked a, v.marked b, x, y, free, ==_iff i a, ==_iff i b);
  marked = λ a x. refl;
  owned = λ x. (i, ground arith);
  queued = λ a x. ground (arith, v.queued a x, awake, ==_iff i a, ap s.places {x = i} {y = a});
  served = λ a x. ground (arith, v.served a, x, ==_iff i a);
  expected = λ a x. inl refl;
}

join_queue :
    (s : Lock) (i : ℕ)
    → IsSafe s
    → s.locked ≡ true
    → s.places i ≢ waiting
    → s.places i ≢ holding
    → IsSafe (goes (record s { queue = s.queue ++ (i ∷ []) }) i waiting)
join_queue s i v taken awake free = record {
  exclusive =
      λ a b x y. v.exclusive a b (ground (arith, x, ==_iff i a)) (ground (arith, y, ==_iff i b));
  marked = λ a x. taken;
  owned = λ x.
      let (o, has) = v.owned taken in
      (o, ground (arith, has, free, ==_iff i o, ap s.places {x = i} {y = o}));
  queued = λ a x. ground (arith, v.queued a, x, occ-snoc a i s.queue, ==_iff i a, ==_iff a i);
  served = λ a x. ground (
    arith,
    v.served a,
    v.queued i,
    awake,
    x,
    occ-snoc a i s.queue,
    ==_iff i a,
    ==_iff a i,
    ap (λ z. occ z s.queue) {x = i} {y = a},
  );
  expected = λ a x. inl taken;
}

-- A thread that listens becomes one that tries again.
wake_up : (s : Lock) (i : ℕ) → IsSafe s → s.places i ≡ listening → IsSafe (goes s i woken)
wake_up s i v at = record {
  exclusive =
      λ a b x y. v.exclusive a b (ground (arith, x, ==_iff i a)) (ground (arith, y, ==_iff i b));
  marked = λ a x. v.marked a (ground (arith, x, ==_iff i a));
  owned = λ x.
      let (o, has) = v.owned x in
      (o, ground (arith, has, at, ==_iff i o, ap s.places {x = i} {y = o}));
  queued = λ a x. ground (arith, v.queued a x, at, ==_iff i a, ap s.places {x = i} {y = a});
  served = λ a x. ground (arith, v.served a, x, ==_iff i a);
  expected = λ a x. inr (i, ground arith);
}

give_up :
    (s : Lock) (i : ℕ) (p : Place) (q : List ℕ)
    → IsSafe s
    → s.places i ≡ holding
    → p ≢ holding
    → p ≢ waiting
    → s.queue ≡ q
    → IsSafe (goes (wake_first q (record s { locked = false })) i p)
unfolding occ
give_up s i p [] v at no_hold awake eq = record {
  exclusive = λ a b x y.
      v.exclusive a b (ground (arith, x, no_hold, ==_iff i a))
        (ground (arith, y, no_hold, ==_iff i b));
  marked = λ a x. ground (arith, x, no_hold, v.exclusive a i, at, ==_iff i a);
  owned = λ x. ground (arith, x);
  queued = λ a x. absurd (x (ap (occ a) eq));
  served = λ a x. ground (arith, v.served a, x, awake, ==_iff i a);
  expected = λ a x. absurd (x (ap (occ a) eq));
}
give_up s i p (h ∷ r) v at no_hold awake eq =
    let count = λ (x : ℕ). ap (occ x) eq in
    let first : s.places h ≡ waiting = v.queued h (ground (arith, count h)) in
    let apart : (i == h) ≡ false =
      ground (arith, first, at, ==_iff i h, ap s.places {x = i} {y = h}) in
    let here : update (update s.places h woken) i p h ≡ woken = ground (arith, apart) in
    record {
      exclusive = λ a b x y.
          v.exclusive a b (ground (arith, x, no_hold, ==_iff i a, ==_iff h a))
            (ground (arith, y, no_hold, ==_iff i b, ==_iff h b));
      marked = λ a x. ground (arith, x, no_hold, v.exclusive a i, at, ==_iff i a, ==_iff h a);
      owned = λ x. ground (arith, x);
      queued = λ a x. ground (
        arith,
        v.queued a,
        x,
        count a,
        v.served h first,
        count h,
        at,
        ==_iff i a,
        ==_iff h a,
        ==_iff a h,
        ap s.places {x = i} {y = a},
        ap (λ z. occ z r) {x = h} {y = a},
      );
      served =
          λ a x. ground (arith, v.served a, x, awake, count a, ==_iff i a, ==_iff h a, ==_iff a h);
      expected = λ a x. inr (h, here);
    }

either_IsSafe :
    (b : Bool) (s t : Lock)
    → (b ≡ true → IsSafe s)
    → (b ≡ false → IsSafe t)
    → IsSafe (if b then s else t)
either_IsSafe true s t h k = h refl
either_IsSafe false s t h k = k refl

lock_try-IsSafe : (s : Lock) (i : ℕ) → IsSafe s → s.places i ≢ waiting → IsSafe (lock_try s i).1
lock_try-IsSafe s i v awake =
    either_IsSafe s.locked s _ (λ taken. v) (λ free. take_lock s i v free awake)

lock_lock-IsSafe :
    (s : Lock) (i : ℕ)
    → IsSafe s
    → s.places i ≢ waiting
    → s.places i ≢ holding
    → IsSafe (lock_lock s i)
lock_lock-IsSafe s i v awake no_hold =
    either_IsSafe s.locked _ (lock_try s i).1 (λ taken. join_queue s i v taken awake no_hold)
      (λ free. lock_try-IsSafe s i v awake)

Step-IsSafe : (s t : Lock) → Step s t → IsSafe s → IsSafe t
Step-IsSafe s _ (locks i at) v = lock_lock-IsSafe s i v (ground (arith, at)) (ground (arith, at))
Step-IsSafe s _ (tries i at) v = lock_try-IsSafe s i v (ground (arith, at))
Step-IsSafe s _ (tries_again i at) v =
    lock_lock-IsSafe s i v (ground (arith, at)) (ground (arith, at))
Step-IsSafe s _ (unlocks i at) v =
    give_up s i outside s.queue v at (ground arith) (ground arith) refl
Step-IsSafe s _ (cond_waits i at) v =
    give_up s i listening s.queue v at (ground arith) (ground arith) refl
Step-IsSafe s _ (cond_wakes i at) v = wake_up s i v at

-- In every state that the threads can reach from lock_init: at most one thread holds the lock, and
-- one does just if it is marked as locked; a thread sleeps in the queue of the lock just if it is in
-- it, and once; and while one does, the lock is held or another thread is about to try.
pub Reach-IsSafe : (s : Lock) → Reach s → IsSafe s
unfolding occ
Reach-IsSafe _ start = record {
  exclusive = λ i j x y. ground (arith, x);
  marked = λ i x. ground (arith, x);
  owned = λ x. ground (arith, x);
  queued = λ i x. absurd (x refl);
  served = λ i x. ground (arith, x);
  expected = λ i x. absurd (x refl);
}
Reach-IsSafe _ (later {s} {t} r step) = Step-IsSafe s t step (Reach-IsSafe s r)
