-- ===== src/Kmalloc/Alloc.antt =====
-- kmalloc: what a call returns, and what it leaves of the heap.
use zakos.Common.{
  sym, ap, ◌∙◌, some_inj, ℕ, ◌+◌, ◌-◌, ◌%◌, ◌≤◌, ◌<◌, ◌≡◌, ◌⊎◌, inl, inr, refl, true, false, Option,
  none, some, List, [], ◌∷◌, ◌==◌, if◌then◌else◌, arith, some_inj,
}
use zakos.Kmalloc.{Block, Heap, header, align, hint_or_heap, malloc_at, kmalloc}
use zakos.Kmalloc.Fits.{search_from-Found, search_from-hint}
use zakos.Kmalloc.Chain.{IsHint, HintOk, IsValid, used_at, NoRoom}

-- Rounding up does not wrap up to 65528 bytes.
align_lem : (n : ℕ) → n ≤ 65528 → (n ≤ align n) × (align n % 2 ≡ 0)
align_lem n h = omega arith

-- What kmalloc leaves behind when it returns `p`.
pub record Allocated (start end : ℕ) (h : Heap) (n p : ℕ) (g : Heap) : Type 0 where
  pub valid : IsValid start end g
  pub start_le : start + header ≤ p
  pub unused : used_at h.blocks (p - header) ≡ none
  pub got : ℕ
  pub enough : align n ≤ got
  pub lookup :
      (x : ℕ) → used_at g.blocks x ≡ (if p - header == x then some got else used_at h.blocks x)

-- The search starts at a block before which all are in use, unless the heap has no block.
hint_or_heap-cases :
    (start end : ℕ) (h : Heap)
    → IsValid start end h
    → ((hint_or_heap h ≡ none) × (h.blocks ≡ []))
      ⊎ ((s : ℕ) × (hint_or_heap h ≡ some s) × IsHint s h.blocks)
unfolding hint_or_heap
hint_or_heap-cases start end h v = by_hint h.hint h.blocks v.hinted
  where
    by_hint :
        (o : Option ℕ) (xs : List Block)
        → HintOk o xs
        → ((hint_or_heap (record { blocks = xs; hint = o }) ≡ none) × (xs ≡ []))
          ⊎ ((s : ℕ) × (hint_or_heap (record { blocks = xs; hint = o }) ≡ some s) × IsHint s xs)
    by_hint (some s) xs i = inr (s, refl, i)
    by_hint none [] i = inl (refl, refl)
    by_hint none (b ∷ r) i =
        let here : (b.addr == b.addr) ≡ true = ground arith in inr (b.addr, refl, rw here tt)

-- kmalloc of a number of bytes that is not 0 on a valid heap either returns the payload of a
-- block that was not in use, with at least the aligned size, and leaves a valid heap in which all
-- other blocks in use are as they were; or it returns NULL, and no free block is that large.
pub kmalloc_lem :
    (start end : ℕ) (h : Heap) (n : ℕ)
    → IsValid start end h
    → 0 < n
    → ((p : ℕ) × (g : Heap) × (kmalloc h n ≡ (some p, g)) × Allocated start end h n p g)
      ⊎ (((kmalloc h n).0 ≡ none) × NoRoom (align n) h.blocks × IsValid start end (kmalloc h n).1)
unfolding kmalloc malloc_at
kmalloc_lem start end h n v pos =
    let asked : (n == 0) ≡ false = ground arith in
    let even : align n % 2 ≡ 0 = omega arith in
    elim (hint_or_heap-cases start end h v) [
      | inl (no_start, empty) ↦ inr (rw (asked, no_start) refl, rw empty tt, rw (asked, no_start) v)
      | inr (s, from, i) ↦
          elim (search_from-Found (align n) even s start end false h.blocks v.chain i v.high) [
            | inl (miss, small) ↦ inr (
              rw (asked, from, miss, malloc_at) refl,
              small,
              rw (asked, from, miss, malloc_at)
                  (record { chain = v.chain; hinted = i; low = v.low; high = v.high }),
            )
            | inr (f, at, fits) ↦ inl (
              f.found + header,
              record { blocks = f.blocks; hint = if f.found == s then f.after else some s },
              rw (asked, from, at, malloc_at) refl,
              record {
                valid = record {
                  chain = fits.chain;
                  hinted =
                      search_from-hint (align n) even s start end false h.blocks f v.chain i v.high
                        at;
                  low = v.low;
                  high = v.high;
                };
                start_le = omega (arith, fits.place);
                unused = ground (arith, fits.unused);
                got = fits.got;
                enough = fits.enough;
                lookup = λ x. ground (arith, fits.lookup x);
              },
            )
          ]
    ]

-- What kmalloc returns on a valid heap for up to 65528 bytes, and more than 0, is a block in use
-- with at least that many.
pub kmalloc_size :
    (start end : ℕ) (h g : Heap) (n p : ℕ)
    → IsValid start end h
    → 0 < n
    → n ≤ 65528
    → kmalloc h n ≡ (some p, g)
    → (got : ℕ) × (used_at g.blocks (p - header) ≡ some got) × (n ≤ got)
kmalloc_size start end h g n p v pos small e = elim (kmalloc_lem start end h n v pos) [
  | inr (miss, full, valid) ↦ absurd (let no : none ≡ some p = sym miss ∙ ap (λ r. r.0) e in cc)
  | inl (q, f, at, a) ↦
      let same : (some q, f) ≡ (some p, g) = sym at ∙ e in
      let here : q ≡ p = some_inj q p (ap (λ r. r.0) same) in
      let heap : f ≡ g = ap (λ r. r.1) same in
      let size : used_at f.blocks (q - header) ≡ some a.got =
        ground (arith, a.lookup (q - header)) in
      (
        a.got,
        ap (λ k. used_at k.blocks (p - header)) (sym heap)
            ∙ ap (λ k. used_at f.blocks (k - header)) (sym here)
            ∙ size,
        omega (arith, a.enough, (align_lem n small).0),
      )
]
