-- ===== src/Threads/Timeouts.antt =====
-- The heap of the threads with a timeout, while the times of other threads change.
use zakos.Common.{
  ℕ, zero, suc, ◌+◌, ◌-◌, ◌/◌, ◌<◌, ◌≡◌, ◌≢◌, refl, fun_ext, inl, inr, false, ◌==◌, if◌then◌else◌,
  update, count, arith, ok, err, enoent, ◌≤◌, ◌⊎◌, Bool-cases, ==_iff,
}
use zakos.BinHeap.{Bheap, insert, extract, peek}
use zakos.BinHeap.Order.{IsValid, root_least}
use zakos.BinHeap.Up.{insert-Inserted}
use zakos.BinHeap.Remove.{extract_lem}
use zakos.Threads.{by_wakeup, or_same}

-- How often a thread is in the heap.
unfoldable pub timed : Bheap ℕ → ℕ → ℕ
timed h t = count (λ x. t == x) h.array h.size

-- Exactly the threads with a time are in the heap, once each.
pub record Times (w : ℕ → ℕ) (h : Bheap ℕ) : Type 0 where
  pub valid : IsValid (by_wakeup w) h
  pub listed : (t : ℕ) → timed h t ≡ (if w t == 0 then 0 else 1)

pub update-same : (w : ℕ → ℕ) (t k : ℕ) → w t ≡ k → update w t k ≡ w
update-same w t k e = fun_ext (λ x. ground arith)

count-absent : (a : ℕ → ℕ) (t n : ℕ) → ((j : ℕ) → j < n → a j ≢ t) → count (λ x. t == x) a n ≡ 0
count-absent a t zero h = refl
count-absent a t (suc n) h =
    let off : (t == a n) ≡ false = ground (arith, h n (omega arith)) in
    ground (arith, count-absent a t n (λ j p. h j (omega arith)), off)

count-zero : (a : ℕ → ℕ) (t n i : ℕ) → count (λ x. t == x) a n ≡ 0 → i < n → (t == a i) ≡ false
count-zero a t zero i h p = absurd (omega arith)
count-zero a t (suc n) i h p = ground (arith, count-zero a t n i)

-- A heap without the thread does not see its time change.
update-IsValid :
    (w : ℕ → ℕ) (h : Bheap ℕ) (t k : ℕ)
    → IsValid (by_wakeup w) h
    → timed h t ≡ 0
    → IsValid (by_wakeup (update w t k)) h
unfolding timed
update-IsValid w h t k v out = record {
  heap = λ i p q. ground (
    arith,
    v.heap i p q,
    count-zero h.array t h.size i out q,
    count-zero h.array t h.size ((i - 1) / 2) out,
  );
  fits = v.fits;
  small = v.small;
}

-- A thread with a time leaves the heap, and its time is cleared.
pub extract-Times :
    (w : ℕ → ℕ) (h : Bheap ℕ) (t : ℕ)
    → Times w h
    → w t ≢ 0
    → Times (update w t 0) (or_same (extract (by_wakeup w) h t) h)
      × ((or_same (extract (by_wakeup w) h t) h).size + 1 ≡ h.size)
unfolding timed
extract-Times w h t v on = elim (extract_lem (by_wakeup w) h t v.valid) [
  | inl (miss, absent) ↦ absurd (ground (arith, v.listed t, count-absent h.array t h.size absent))
  | inr (j, g, e, at, r) ↦
      let listed = λ (x : ℕ).
        let p : timed g x ≡ (if update w t 0 x == 0 then 0 else 1) =
          ground (arith, v.listed x, r.counts (λ y. x == y)) in
        p in
      rw e (
        record {
          valid = update-IsValid w g t 0 r.valid (ground (arith, listed t));
          listed = listed;
        },
        ground (arith, r.size),
      )
]

-- A thread without a time gets one and enters a heap that has room.
pub insert-Times :
    (w : ℕ → ℕ) (h : Bheap ℕ) (t k : ℕ)
    → Times w h
    → w t ≡ 0
    → k ≢ 0
    → h.size < h.capacity
    → Times (update w t k) (or_same (insert (by_wakeup (update w t k)) h t) h)
unfolding timed
insert-Times w h t k v off on room =
    let out : timed h t ≡ 0 = ground (arith, v.listed t) in
    let (g, e, i) =
      insert-Inserted (by_wakeup (update w t k)) h t (update-IsValid w h t k v.valid out) room in
    rw e
      (record { valid = i.valid; listed = λ x. ground (arith, v.listed x, i.counts (λ y. x == y)) })

count-some : (a : ℕ → ℕ) (t n : ℕ) → count (λ x. t == x) a n ≢ 0 → (i : ℕ) × (i < n) × (a i ≡ t)
count-some a t zero h = absurd (h refl)
count-some a t (suc n) h = elim (Bool-cases (t == a n)) [
  | inl e ↦ (n, omega arith, ground (arith, e, ==_iff t (a n)))
  | inr e ↦ let (i, p, q) = count-some a t n (λ z. h (ground (arith, z, e))) in (i, omega arith, q)
]

-- bheap_peek finds a thread whose time is the least, if some thread has a time.
pub peek-Times :
    (w : ℕ → ℕ) (h : Bheap ℕ)
    → Times w h
    → ((peek h ≡ err enoent) × ((x : ℕ) → w x ≡ 0))
      ⊎ ((t : ℕ) × (peek h ≡ ok t) × (w t ≢ 0) × (h.size ≢ 0) × ((x : ℕ) → w x ≢ 0 → w t ≤ w x))
unfolding peek timed
peek-Times w h v = elim (Bool-cases (h.size == 0)) [
  | inl e ↦
      let none_left : h.size ≡ 0 = ground (arith, e) in
      inl (rw e refl, λ x. ground (arith, v.listed x, none_left))
  | inr e ↦
      let pos : w (h.array 0) ≢ 0 =
        λ z. ground (arith, z, v.listed (h.array 0), count-zero h.array (h.array 0) h.size 0) in
      let first = λ (x : ℕ) (on : w x ≢ 0).
        let here : count (λ y. x == y) h.array h.size ≢ 0 = ground (arith, v.listed x) in
        let (i, p, q) = count-some h.array x h.size here in
        let least : w (h.array 0) ≤ w x =
          ground (arith, root_least (by_wakeup w) h.array h.size i v.valid.heap p, q) in
        least in
      inr (h.array 0, rw e refl, pos, ground (arith, e), first)
]
