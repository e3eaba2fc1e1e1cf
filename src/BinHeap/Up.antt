-- ===== src/BinHeap/Up.antt =====
-- bheap_heapify and bheap_insert.
use zakos.Common.{
  ℕ, zero, suc, ◌+◌, ◌<◌, ◌≡◌, Bool, inl, inr, arith, ltb, ◌==◌, ◌&&◌, ◌%◌, if◌then◌else◌,
  Bool-cases, update, swap, swap_at, count, count-update_outside, ok,
}
use native.Mathlib.Numerals.{add-one}
use zakos.BinHeap.{Bheap, Comparator, parent, is_gt, heapify, insert}
use zakos.BinHeap.Order.{IsHeap, UpInv, Reordered, IsValid, gt_cmp, Reordered-refl, Reordered-swap}

module _ {ℓ} {A : Type ℓ} (c : Comparator A) where
  open c use {cmp, rank, cmp_rank}

  swap-UpInv :
      (a : ℕ → A) (n j : ℕ)
      → UpInv c a n j
      → 0 < j
      → rank (a j) < rank (a (parent j))
      → UpInv c (swap a j (parent j)) n (parent j)
  swap-UpInv a n j v pos below = record {
    inside = ground (arith, v.inside);
    edges = λ i p q r. ground (arith, at i, at (parent i), v.edges i, v.bridged i);
    bridged = λ i p q r t.
        ground (arith, at i, at (parent (parent j)), v.edges i, v.edges (parent j), v.bridged i);
  }
    where
      at :
          (i : ℕ)
          → swap a j (parent j) i
            ≡ (if parent j == i then a j else if j == i then a (parent j) else a i)
      at = swap_at a j (parent j)

  -- Sifting up turns an array with one entry too low in the tree into a heap.
  pub heapify-IsHeap :
      (k : ℕ) (a : ℕ → A) (n j : ℕ) → j < k → UpInv c a n j → IsHeap c (heapify c k a j) n
  unfolding heapify
  heapify-IsHeap zero a n j f v = absurd (omega arith)
  heapify-IsHeap (suc k) a n j f v =
      elim (Bool-cases (ltb 0 j && is_gt (cmp (a (parent j)) (a j)))) [
        | inl e ↦ rw e (
            heapify-IsHeap k (swap a j (parent j)) n (parent j) (ground arith)
              (swap-UpInv a n j v (ground arith) (ground (arith, gt_cmp c (a (parent j)) (a j)))))
        | inr e ↦ rw e λ i p q. ground (arith, v.edges i, gt_cmp c (a (parent j)) (a j))
      ]

  pub heapify-Reordered : (k : ℕ) (a : ℕ → A) (n j : ℕ) → j < n → Reordered c n a (heapify c k a j)
  unfolding heapify
  heapify-Reordered zero a n j h = Reordered-refl c n a
  heapify-Reordered (suc k) a n j h =
      elim (Bool-cases (ltb 0 j && is_gt (cmp (a (parent j)) (a j)))) [
        | inl e ↦ rw e (
            Reordered-swap c n j (parent j) a _ h (omega arith)
              (heapify-Reordered k (swap a j (parent j)) n (parent j) (omega arith)))
        | inr e ↦ rw e (Reordered-refl c n a)
      ]

  -- What bheap_insert leaves behind.
  pub record Inserted (h : Bheap A) (x : A) (g : Bheap A) : Type ℓ where
    pub valid : IsValid c g
    pub size : g.size ≡ h.size + 1
    pub counts :
        (p : A → Bool) → count p g.array g.size ≡ count p h.array h.size + (if p x then 1 else 0)
    pub outside : (i : ℕ) → h.size < i → g.array i ≡ h.array i

  -- bheap_insert on a valid heap with room succeeds: the result is valid, holds the element and
  -- every element from before as often as before, and no entry past the new end is written.
  pub insert-Inserted :
      (h : Bheap A) (x : A)
      → IsValid c h
      → h.size < h.capacity
      → (g : Bheap A) × (insert c h x ≡ ok g) × Inserted h x g
  unfolding insert
  insert-Inserted h x v room =
      (g, ground arith, record { valid = valid; size = size; counts = counts; outside = rest })
    where
      a : ℕ → A
      a = update h.array h.size x

      g : Bheap A
      g = record h { array = heapify c (h.size + 1) a h.size; size = (h.size + 1) % 256 }

      size : (h.size + 1) % 256 ≡ h.size + 1
      size = omega arith

      start : UpInv c a (h.size + 1) h.size
      start = record {
        inside = omega arith;
        edges = λ i p q r. ground (arith, v.heap i);
        bridged = λ i p q r t. absurd (omega arith);
      }

      valid : IsValid c g
      valid = record {
        heap = rw size (heapify-IsHeap (h.size + 1) a (h.size + 1) h.size (omega arith) start);
        fits = omega (arith, size);
        small = v.small;
      }

      moved : Reordered c (h.size + 1) a g.array
      moved = heapify-Reordered (h.size + 1) a (h.size + 1) h.size (omega arith)

      counts :
          (p : A → Bool) → count p g.array g.size ≡ count p h.array h.size + (if p x then 1 else 0)
      counts p =
          rw (size, moved.same_count p, add-one)
            (ground (arith, count-update_outside p h.array h.size x h.size))

      rest : (i : ℕ) → h.size < i → g.array i ≡ h.array i
      rest i p = ground (arith, moved.outside i)
