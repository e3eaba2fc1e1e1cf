-- ===== src/BinHeap/Remove.antt =====
-- bheap_remove, bheap_pop and bheap_extract.
use zakos.Common.{
  ℕ, zero, suc, ◌+◌, ◌-◌, ◌≤◌, ◌<◌, ◌≡◌, ◌≢◌, ◌⊎◌, refl, Bool, true, inl, inr, arith, ap, ◌∙◌, ◌==◌,
  if◌then◌else◌, Bool-cases, swap, swap_at, count, count-swap, none, some, ok, err, enoent,
}
use zakos.BinHeap.{Bheap, Comparator, parent, is_gt, remove, pop, find_elem, extract}
use zakos.BinHeap.Order.{IsHeap, UpInv, DownInv, Reordered, IsValid, gt_cmp, root_least}
use zakos.BinHeap.Up.{heapify-IsHeap, heapify-Reordered}
use zakos.BinHeap.Down.{rev_heapify-IsHeap, rev_heapify-Reordered}

module _ {ℓ} {A : Type ℓ} (c : Comparator A) where
  open c use {cmp, rank, cmp_rank}

  -- What bheap_remove leaves behind.
  pub record Removed (h : Bheap A) (idx : ℕ) (g : Bheap A) : Type ℓ where
    pub valid : IsValid c g
    pub size : g.size + 1 ≡ h.size
    pub counts :
        (p : A → Bool)
        → count p g.array g.size + (if p (h.array idx) then 1 else 0) ≡ count p h.array h.size
    pub outside : (i : ℕ) → h.size < suc i → g.array i ≡ h.array i

  module _ (a : ℕ → A) (n idx : ℕ) (inside : idx < suc n) (heap : IsHeap c a (suc n)) where
    remove-UpInv : rank (a n) < rank (a idx) → UpInv c (swap a idx n) n idx
    remove-UpInv below = record {
      inside = elim (Bool-cases (idx == n)) [
        | inl e ↦ absurd (ground arith)
        | inr e ↦ ground arith
      ];
      edges = λ i p q r. ground (arith, swap_at a idx n i, swap_at a idx n (parent i), heap i);
      bridged = λ i p q r t.
          ground (arith, swap_at a idx n i, swap_at a idx n (parent idx), heap i, heap idx);
    }

    remove-DownInv : rank (a idx) ≤ rank (a n) → DownInv c (swap a idx n) n idx
    remove-DownInv above = record {
      edges = λ i p q r. ground (arith, swap_at a idx n i, swap_at a idx n (parent i), heap i);
      bridged = λ i p q r t.
          ground (arith, swap_at a idx n i, swap_at a idx n (parent idx), heap i, heap idx);
    }

    -- The swapped array less its last entry holds everything but the removed element.
    removed_count :
        (b : ℕ → A)
        → Reordered c n (swap a idx n) b
        → (p : A → Bool) → count p b n + (if p (a idx) then 1 else 0) ≡ count p a (suc n)
    removed_count b r p =
        let e = count-swap p a idx n (suc n) inside (omega arith) in
        ground (arith, e, r.same_count p, swap_at a idx n n)

  module _ (h : Bheap A) (idx : ℕ) (v : IsValid c h) (inside : idx < h.size) where
    -- bheap_remove on a valid heap takes out exactly the element at the index, leaves a valid
    -- heap of the others, and writes nothing past the old end.
    pub remove-Removed : Removed h idx (remove c h idx)
    unfolding remove
    remove-Removed = elim (Bool-cases (is_gt (cmp (h.array idx) (h.array n)))) [
      | inl e ↦
          let below : rank (h.array n) < rank (h.array idx) =
            ground (arith, gt_cmp c (h.array idx) (h.array n)) in
          let start = remove-UpInv h.array n idx inner heap below in
          rw e (
            finish _ (heapify-Reordered c (idx + 1) a n idx start.inside)
              (heapify-IsHeap c (idx + 1) a n idx (omega arith) start))
      | inr e ↦
          let above : rank (h.array idx) ≤ rank (h.array n) =
            ground (arith, gt_cmp c (h.array idx) (h.array n)) in
          let start = remove-DownInv h.array n idx inner heap above in
          rw e (
            finish _ (rev_heapify-Reordered c (n + 1) a n idx short small)
              (rev_heapify-IsHeap c (n + 1) a n idx (omega arith) short small start))
    ]
      where
        n : ℕ
        n = h.size - 1

        size : suc n ≡ h.size
        size = omega arith

        inner : idx < suc n
        inner = omega arith

        a : ℕ → A
        a = swap h.array idx n

        heap : IsHeap c h.array (suc n)
        heap = rw size v.heap

        short : idx < 127
        short = omega (arith, v.fits, v.small)

        small : n < 128
        small = omega (arith, v.fits, v.small)

        finish :
            (b : ℕ → A)
            → Reordered c n a b
            → IsHeap c b n
            → Removed h idx (record h { array = b; size = n })
        finish b r ordered = record {
          valid = record { heap = ordered; fits = omega (arith, v.fits); small = v.small };
          size = omega arith;
          counts = λ p. removed_count h.array n idx inner heap b r p ∙ ap (count p h.array) size;
          outside = λ i p. ground (arith, r.outside i, swap_at h.array idx n i);
        }

  -- What bheap_pop returns and leaves behind.
  pub record Popped (h : Bheap A) (x : A) (g : Bheap A) : Type ℓ where
    pub rest : Removed h 0 g
    pub first : x ≡ h.array 0
    pub least : (i : ℕ) → i < h.size → rank x ≤ rank (h.array i)

  -- bheap_pop on a valid heap that is not empty returns its first element, which ranks no higher
  -- than any of its elements, and leaves a valid heap of exactly the other elements.
  pub pop_lem :
      (h : Bheap A)
      → IsValid c h
      → 0 < h.size
      → (x : A) × (g : Bheap A) × (pop c h ≡ ok (x, g)) × Popped h x g
  unfolding pop
  pop_lem h v pos = (
    h.array 0,
    remove c h 0,
    ground arith,
    record {
      rest = remove-Removed h 0 v pos;
      first = refl;
      least = λ i p. root_least c h.array h.size i v.heap p;
    },
  )

  find_elem_lem :
      (a : ℕ → A) (x : A) (n i : ℕ)
      → ((find_elem c a x n i ≡ none) × ((j : ℕ) → i ≤ j → j < i + n → a j ≢ x))
        ⊎ ((j : ℕ) × (find_elem c a x n i ≡ some j) × (i ≤ j) × (j < i + n) × (a j ≡ x))
  unfolding find_elem
  find_elem_lem a x zero i = inl (refl, λ j p q. absurd (omega arith))
  find_elem_lem a x (suc n) i = elim (Bool-cases (c.same (a i) x)) [
    | inl e ↦ inr (i, rw e, omega arith, omega arith, (c.same_iff (a i) x).0 e)
    | inr e ↦ elim (find_elem_lem a x n (i + 1)) [
      | inl (miss, absent) ↦
          inl (rw (e, miss), λ j p q at. ground (arith, absent j, same_of_eq j at))
      | inr (j, found, low, high, at) ↦ inr (j, rw (e, found), omega arith, omega arith, at)
    ]
  ]
    where
      same_of_eq : (j : ℕ) → a j ≡ x → c.same (a j) x ≡ true
      same_of_eq j at = (c.same_iff (a j) x).1 at

  -- bheap_extract on a valid heap that holds the pointer takes out one occurrence of exactly it;
  -- on one that does not it reports the absence.
  pub extract_lem :
      (h : Bheap A) (x : A)
      → IsValid c h
      → ((extract c h x ≡ err enoent) × ((j : ℕ) → j < h.size → h.array j ≢ x))
        ⊎ ((j : ℕ) × (g : Bheap A) × (extract c h x ≡ ok g) × (h.array j ≡ x) × Removed h j g)
  unfolding extract
  extract_lem h x v = elim (find_elem_lem h.array x h.size 0) [
    | inl (miss, absent) ↦ inl (rw (miss, extract), λ j p. absent j (omega arith) (omega arith))
    | inr (j, found, low, high, at) ↦
        inr (j, remove c h j, rw (found, extract), at, remove-Removed h j v (omega arith))
  ]
