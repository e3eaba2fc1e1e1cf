-- ===== src/BinHeap.antt =====
-- kernel/lib/bheap.c: a bounded binary min-heap of pointers, ordered by a comparison that the
-- client gives. The array is a function from indices; a `bheap_idx` wraps at 256.
pub mod Order
pub mod Up
pub mod Down
pub mod Remove
mod Tests
use zakos.Common.{
  ℕ, zero, suc, ◌+◌, ◌-◌, ◌*◌, ◌/◌, ◌%◌, ◌≡◌, ◌↔◌, Bool, true, false, ◌&&◌, Option, none, some,
  compare, Ordering, ltb, ◌==◌, if◌then◌else◌, update, swap, Result, ok, err, Errno, enomem, enoent,
}

-- The `compare` member of `struct bheap`, by the sign of what it returns, with the pointer
-- comparison of `bheap_extract`. The laws are what the heap relies on: the comparison ranks the
-- elements by some number, and `==` on pointers decides equality.
pub record Comparator {ℓ} (A : Type ℓ) : Type ℓ where
  pub cmp : A → A → Ordering
  pub same : A → A → Bool
  pub rank : A → ℕ
  pub cmp_rank : (a b : A) → cmp a b ≡ compare (rank a) (rank b)
  pub same_iff : (a b : A) → (same a b ≡ true) ↔ (a ≡ b)

abbrev pub is_gt : Ordering → Bool
is_gt o = elim o [ Ordering.gt ↦ true | _ ↦ false ]

abbrev pub is_lt : Ordering → Bool
is_lt o = elim o [ Ordering.lt ↦ true | _ ↦ false ]

-- `struct bheap` without the comparison.
pub record Bheap {ℓ} (A : Type ℓ) : Type ℓ where
  pub array : ℕ → A
  pub capacity : ℕ
  pub size : ℕ

abbrev pub parent : ℕ → ℕ
parent c = (c - 1) / 2

-- The children of an index, in 8 bits.
abbrev pub left : ℕ → ℕ
left i = (2 * i + 1) % 256

abbrev pub right : ℕ → ℕ
right i = (left i + 1) % 256

module _ {ℓ} {A : Type ℓ} where
  -- bheap_init
  unfoldable pub init : (ℕ → A) → ℕ → Bheap A
  init array capacity = record { array = array; capacity = capacity; size = 0 }

  -- bheap_peek
  unfoldable pub peek : Bheap A → Result A
  peek h = if h.size == 0 then err enoent else ok (h.array 0)

module _ {ℓ} {A : Type ℓ} (c : Comparator A) where
  open c use {cmp, same}

  -- bheap_heapify: the fuel is an index above `idx`.
  pub heapify : ℕ → (ℕ → A) → ℕ → ℕ → A
  heapify zero a idx = a
  heapify (suc k) a idx =
      let rise = heapify k (swap a idx (parent idx)) (parent idx) in
      if ltb 0 idx && is_gt (cmp (a (parent idx)) (a idx)) then rise else a

  -- The selection in the body of bheap_rev_heapify.
  pub select : (ℕ → A) → ℕ → ℕ → ℕ
  select a size idx =
      let sel =
        if ltb (right idx) size && is_lt (cmp (a (right idx)) (a idx)) then right idx else idx in
      if ltb (left idx) size && is_lt (cmp (a (left idx)) (a sel)) then left idx else sel

  -- bheap_rev_heapify: the fuel is above the distance of `idx` from the end.
  pub rev_heapify : ℕ → (ℕ → A) → ℕ → ℕ → ℕ → A
  rev_heapify zero a size idx = a
  rev_heapify (suc k) a size idx =
      let sel = select a size idx in
      let sink = rev_heapify k (swap a idx sel) size sel in if sel == idx then a else sink

  -- bheap_insert
  pub insert : Bheap A → A → Result (Bheap A)
  insert h elem =
      if h.capacity == h.size
      then err enomem
      else ok (record h {
        array = heapify (h.size + 1) (update h.array h.size elem) h.size;
        size = (h.size + 1) % 256;
      })

  -- bheap_remove; it runs only on a heap that is not empty.
  pub remove : Bheap A → ℕ → Bheap A
  remove h idx =
      let size = h.size - 1 in
      let a = swap h.array idx size in
      if is_gt (cmp (h.array idx) (h.array size))
      then record h { array = heapify (idx + 1) a idx; size = size }
      else record h { array = rev_heapify (size + 1) a size idx; size = size }

  -- bheap_pop, with a place for the element.
  pub pop : Bheap A → Result (A × Bheap A)
  pop h = if h.size == 0 then err enoent else ok (h.array 0, remove h 0)

  -- The search of bheap_extract, `n` indices before the end.
  pub find_elem : (ℕ → A) → A → ℕ → ℕ → Option ℕ
  find_elem a elem zero idx = none
  find_elem a elem (suc n) idx =
      let rest = find_elem a elem n (idx + 1) in if same (a idx) elem then some idx else rest

  -- bheap_extract
  pub extract : Bheap A → A → Result (Bheap A)
  extract h elem = elim (find_elem h.array elem h.size 0) [
    | none ↦ err enoent
    | some idx ↦ ok (remove h idx)
  ]
