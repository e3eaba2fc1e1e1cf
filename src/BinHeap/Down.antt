-- ===== src/BinHeap/Down.antt =====
-- bheap_rev_heapify.
use zakos.Common.{
  ℕ, zero, suc, ◌+◌, ◌-◌, ◌*◌, ◌≤◌, ◌<◌, ◌≡◌, ◌⊎◌, ◌≢◌, inl, inr, arith, ◌==◌, Bool-cases, swap,
  swap_at,
}
use zakos.BinHeap.{Comparator, parent, left, right, select, rev_heapify}
use zakos.BinHeap.Order.{IsHeap, DownInv, Reordered, lt_cmp, Reordered-refl, Reordered-swap}

module _ {ℓ} {A : Type ℓ} (c : Comparator A) where
  open c use {cmp, rank, cmp_rank}

  -- The selected index is `j`, or a child of `j` that ranks below it, and no child ranks below
  -- the selected one.
  record IsLeast (a : ℕ → A) (n j m : ℕ) : Type 0 where
    place : (m ≡ j) ⊎ (((m ≡ 2 * j + 1) ⊎ (m ≡ 2 * j + 2)) × (m < n) × (rank (a m) < rank (a j)))
    least : (i : ℕ) → 0 < i → i < n → parent i ≡ j → rank (a m) ≤ rank (a i)

  select-IsLeast : (a : ℕ → A) (n j : ℕ) → j < 127 → n < 128 → IsLeast a n j (select c a n j)
  unfolding select
  select-IsLeast a n j h small = record {
    place = ground (
      arith,
      lt_cmp c (a (right j)) (a j),
      lt_cmp c (a (left j)) (a j),
      lt_cmp c (a (left j)) (a (right j)),
    );
    least = λ i p q r. ground (
      arith,
      lt_cmp c (a (right j)) (a j),
      lt_cmp c (a (left j)) (a j),
      lt_cmp c (a (left j)) (a (right j)),
    );
  }

  swap-DownInv :
      (a : ℕ → A) (n j m : ℕ)
      → DownInv c a n j
      → IsLeast a n j m
      → m ≢ j
      → DownInv c (swap a j m) n m
  swap-DownInv a n j m v s ne = record {
    edges = λ i p q r. ground (
      arith,
      s.place,
      swap_at a j m i,
      swap_at a j m (parent i),
      v.edges i,
      v.bridged m,
      s.least i,
    );
    bridged =
        λ i p q r t. ground (arith, s.place, swap_at a j m i, swap_at a j m (parent m), v.edges i);
  }

  -- Sifting down turns an array with one entry too high in the tree into a heap.
  pub rev_heapify-IsHeap :
      (k : ℕ) (a : ℕ → A) (n j : ℕ)
      → n - j < k
      → j < 127
      → n < 128
      → DownInv c a n j
      → IsHeap c (rev_heapify c k a n j) n
  unfolding rev_heapify
  rev_heapify-IsHeap zero a n j f short small v = absurd (omega arith)
  rev_heapify-IsHeap (suc k) a n j f short small v =
      let m = select c a n j in
      let s : IsLeast a n j m = select-IsLeast a n j short small in
      elim (Bool-cases (m == j)) [
        | inl e ↦ rw e λ i p q. ground (arith, v.edges i, s.least i)
        | inr e ↦ rw e (
            rev_heapify-IsHeap k (swap a j m) n m (ground (arith, s.place))
              (ground (arith, s.place)) small (swap-DownInv a n j m v s (ground arith)))
      ]

  pub rev_heapify-Reordered :
      (k : ℕ) (a : ℕ → A) (n j : ℕ) → j < 127 → n < 128 → Reordered c n a (rev_heapify c k a n j)
  unfolding rev_heapify
  rev_heapify-Reordered zero a n j short small = Reordered-refl c n a
  rev_heapify-Reordered (suc k) a n j short small =
      let m = select c a n j in
      let s : IsLeast a n j m = select-IsLeast a n j short small in
      elim (Bool-cases (m == j)) [
        | inl e ↦ rw e (Reordered-refl c n a)
        | inr e ↦ rw e (
            Reordered-swap c n j m a _ (ground (arith, s.place)) (ground (arith, s.place))
              (rev_heapify-Reordered k (swap a j m) n m (ground (arith, s.place)) small))
      ]
