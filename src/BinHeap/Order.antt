-- ===== src/BinHeap/Order.antt =====
-- The order of a heap, and the two ways in which one entry may break it.
use zakos.Common.{
  ℕ, zero, suc, ◌≤◌, ◌<◌, ◌≡◌, ◌≢◌, Bool, arith, ltb, count, swap, swap_at, count-swap, refl, ◌∙◌,
}
use zakos.BinHeap.{Bheap, Comparator, parent, is_gt, is_lt}

module _ {ℓ} {A : Type ℓ} (c : Comparator A) where
  open c use {cmp, rank, cmp_rank}

  -- What the two tests of the code say of the ranks.
  pub gt_cmp : (x y : A) → is_gt (cmp x y) ≡ ltb (rank y) (rank x)
  gt_cmp x y = rw cmp_rank (ground arith)

  pub lt_cmp : (x y : A) → is_lt (cmp x y) ≡ ltb (rank x) (rank y)
  lt_cmp x y = rw cmp_rank (ground arith)

  -- No element of a[0..n) ranks below its parent.
  abbrev pub IsHeap : (ℕ → A) → ℕ → Type 0
  IsHeap a n = (i : ℕ) → 0 < i → i < n → rank (a (parent i)) ≤ rank (a i)

  -- Around `j`, its parent ranks no higher than its children.
  abbrev pub IsBridged : (ℕ → A) → ℕ → ℕ → Type 0
  IsBridged a n j =
      (i : ℕ) → 0 < i → i < n → parent i ≡ j → 0 < j → rank (a (parent j)) ≤ rank (a i)

  -- Only the edge above `j` may be out of order.
  pub record UpInv (a : ℕ → A) (n j : ℕ) : Type 0 where
    pub inside : j < n
    pub edges : (i : ℕ) → 0 < i → i < n → i ≢ j → rank (a (parent i)) ≤ rank (a i)
    pub bridged : IsBridged a n j

  -- Only the edges below `j` may be out of order.
  pub record DownInv (a : ℕ → A) (n j : ℕ) : Type 0 where
    pub edges : (i : ℕ) → 0 < i → i < n → parent i ≢ j → rank (a (parent i)) ≤ rank (a i)
    pub bridged : IsBridged a n j

  root_least_below :
      (k : ℕ) (a : ℕ → A) (n i : ℕ) → IsHeap a n → i < k → i < n → rank (a 0) ≤ rank (a i)
  root_least_below zero a n i h f p = absurd (omega arith)
  root_least_below (suc k) a n i h f p = ground (arith, h i, root_least_below k a n (parent i) h)

  -- The root of a heap ranks lowest.
  pub root_least : (a : ℕ → A) (n i : ℕ) → IsHeap a n → i < n → rank (a 0) ≤ rank (a i)
  root_least a n i h p = root_least_below (suc i) a n i h (omega arith) p

  -- What a reordering of the first `n` entries keeps: each entry as often, and all others.
  pub record Reordered (n : ℕ) (a b : ℕ → A) : Type ℓ where
    pub same_count : (p : A → Bool) → count p b n ≡ count p a n
    pub outside : (i : ℕ) → n < suc i → b i ≡ a i

  pub Reordered-refl : (n : ℕ) (a : ℕ → A) → Reordered n a a
  Reordered-refl n a = record { same_count = λ p. refl; outside = λ i h. refl }

  pub Reordered-swap :
      (n i j : ℕ) (a b : ℕ → A) → i < n → j < n → Reordered n (swap a i j) b → Reordered n a b
  Reordered-swap n i j a b hi hj r = record {
    same_count = λ p. r.same_count p ∙ count-swap p a i j n hi hj;
    outside = λ k h. ground (arith, r.outside k, swap_at a i j k);
  }

  -- A valid `struct bheap`: indices stay below 127, so a child's index fits in 8 bits.
  pub record IsValid (h : Bheap A) : Type 0 where
    pub heap : IsHeap h.array h.size
    pub fits : h.size ≤ h.capacity
    pub small : h.capacity < 128
