-- ===== src/Kmalloc/Free.antt =====
-- kfree: which calls it accepts, and what it leaves of the chain.
use zakos.Common.{
  ℕ, ◌+◌, ◌-◌, ◌<◌, ◌≡◌, ◌⊎◌, inl, inr, refl, ap, ◌∙◌, sym, Bool, false, not, Option, none, some,
  List, [], ◌∷◌, ltb, ◌==◌, if◌then◌else◌, arith, some_inj, Bool-cases,
}
use zakos.Kmalloc.{
  Block, Heap, Freed, header, join_next, keep, free_after, free_from, lower_hint, kfree,
}
use zakos.Kmalloc.{kmalloc}
use zakos.Kmalloc.Merge.{Loses, join_next-Loses, merge-Loses, keep-Loses}
use zakos.Kmalloc.Alloc.{Allocated, kmalloc_lem}
use zakos.Kmalloc.Chain.{Chain, IsHint, HintOk, IsValid, used_at}

-- What kfree's search comes to.
abbrev Outcome : ℕ → ℕ → Bool → ℕ → List Block → Option Freed → Type 0
Outcome a end free p xs o =
    ((o ≡ none) × ((y : ℕ) → y + header ≡ p → used_at xs y ≡ none))
    ⊎ ((f : Freed) × (x : ℕ) × (o ≡ some f) × (x + header ≡ p) × Loses a end free x xs f)

free_after-Outcome :
    (a end : ℕ) (free : Bool) (p : ℕ) (prev : Block) (xs : List Block)
    → Chain a free (prev ∷ xs) end
    → (prev.addr + header ≡ p → ⊥)
    → Outcome a end free p (prev ∷ xs) (free_after prev xs p)
unfolding free_after used_at
free_after-Outcome a end free p prev [] c other =
    inl (refl, (λ y e. let no : prev.addr ≡ y → ⊥ = λ q. other (omega arith) in ground arith))
free_after-Outcome a end free p prev (b ∷ r) c other = elim (Bool-cases (b.addr + header == p)) [
  | inl e ↦ elim (Bool-cases prev.used) [
    | inl on ↦ inr (
      keep prev (record { blocks = join_next b r; curr = b.addr }),
      b.addr,
      rw (e, on) refl,
      ground arith,
      keep-Loses a end b.addr free prev (b ∷ r) (record { blocks = join_next b r; curr = b.addr }) c
          (let c' : Chain (a + header + prev.size) false (b ∷ r) end =
              (c.3.0, refl, c.3.2, c.3.3) in
            rw on (join_next-Loses (a + header + prev.size) end b r c')),
    )
    | inr off ↦ inr (
      record {
        blocks = join_next (record prev { size = prev.size + b.size + header }) r;
        curr = prev.addr;
      },
      b.addr,
      rw (e, off) refl,
      ground arith,
      merge-Loses a end free prev b r c off,
    )
  ]
  | inr e ↦
      elim (free_after-Outcome (a + header + prev.size) end (not prev.used) p b r c.3
        (λ q. ground arith)) [
          | inl (miss, unused) ↦ inl (
            rw (e, miss) refl,
            (λ y q.
                let no : prev.addr ≡ y → ⊥ = λ s. other (omega arith) in
                ground (arith, unused y q)),
          )
          | inr (f, x, at, q, l) ↦
              inr (keep prev f, x, rw (e, at) refl, q, keep-Loses a end x free prev (b ∷ r) f c l)
        ]
]

free_from-Outcome :
    (a end : ℕ) (p : ℕ) (xs : List Block)
    → Chain a false xs end
    → Outcome a end false p xs (free_from xs p)
unfolding free_from used_at
free_from-Outcome a end p [] c = inl (refl, (λ y e. refl))
free_from-Outcome a end p (b ∷ r) c = elim (Bool-cases (b.addr + header == p)) [
  | inl e ↦ inr (
    record { blocks = join_next b r; curr = b.addr },
    b.addr,
    rw e refl,
    ground arith,
    join_next-Loses a end b r c,
  )
  | inr e ↦ rw e (free_after-Outcome a end false p b r c (λ q. ground arith))
]

lower_hint-HintOk :
    (o : Option ℕ) (curr : ℕ) (xs ys : List Block)
    → HintOk o xs
    → ((k : ℕ) → IsHint k xs → IsHint (if ltb curr k then curr else k) ys)
    → HintOk (lower_hint o curr) ys
lower_hint-HintOk none curr xs ys i l = tt
lower_hint-HintOk (some k) curr xs ys i l = elim (Bool-cases (ltb curr k)) [
  | inl e ↦ let i' : IsHint curr ys = rw e at (l k i) in rw e i'
  | inr e ↦ let i' : IsHint k ys = rw e at (l k i) in rw e i'
]

-- On a valid heap, kfree of an address either ends in the panic, and then no block in use has its
-- payload there; or it leaves a valid heap in which the block with that payload is not in use and
-- every other block in use is as it was.
kfree_lem :
    (start end : ℕ) (h : Heap) (p : ℕ)
    → IsValid start end h
    → ((kfree h p ≡ none) × ((y : ℕ) → y + header ≡ p → used_at h.blocks y ≡ none))
      ⊎ ((g : Heap) × (kfree h p ≡ some g)
          × IsValid start end g
          × ((y : ℕ) → used_at g.blocks y ≡ (if y + header == p then none else used_at h.blocks y)))
unfolding kfree
kfree_lem start end h p v = elim (free_from-Outcome start end p h.blocks v.chain) [
  | inl (miss, unused) ↦ inl (rw (miss, kfree) refl, unused)
  | inr (f, x, at, q, l) ↦ inr (
    record { blocks = f.blocks; hint = lower_hint h.hint f.curr },
    rw (at, kfree) refl,
    record {
      chain = l.chain;
      hinted = lower_hint-HintOk h.hint f.curr h.blocks f.blocks v.hinted l.hint;
      low = v.low;
      high = v.high;
    },
    (λ y. ground (arith, l.lookup y)),
  )
]

-- A block that kmalloc returned can be freed again: kfree accepts its address, and leaves a valid
-- heap with the same blocks in use, at the same addresses and of the same sizes, as before.
pub kfree-kmalloc :
    (start end : ℕ) (h g : Heap) (n p : ℕ)
    → IsValid start end h
    → 0 < n
    → kmalloc h n ≡ (some p, g)
    → (k : Heap) × (kfree g p ≡ some k)
      × IsValid start end k
      × ((y : ℕ) → used_at k.blocks y ≡ used_at h.blocks y)
kfree-kmalloc start end h g n p v pos e = elim (kmalloc_lem start end h n v pos) [
  | inr (miss, small, valid) ↦ absurd (let no : none ≡ some p = sym miss ∙ ap (λ r. r.0) e in cc)
  | inl (q, f, at, a) ↦
      let same : (some q, f) ≡ (some p, g) = sym at ∙ e in
      let here : q ≡ p = some_inj q p (ap (λ r. r.0) same) in
      let heap : f ≡ g = ap (λ r. r.1) same in back q f (sym here) (sym heap) a
]
  where
    back :
        (q : ℕ) (f : Heap)
        → p ≡ q
        → g ≡ f
        → Allocated start end h n q f
        → (k : Heap) × (kfree g p ≡ some k)
          × IsValid start end k
          × ((y : ℕ) → used_at k.blocks y ≡ used_at h.blocks y)
    back q f here heap a =
        rw (here, heap)
          (elim (kfree_lem start end f q a.valid) [
            | inl (miss, unused) ↦
                let no : none ≡ some a.got =
                  sym (unused (q - header) (omega (arith, a.start_le)))
                  ∙ ground (arith, a.lookup (q - header)) in
                absurd cc
            | inr (k, freed, valid, lookup) ↦
                (k, freed, valid, (λ y. ground (arith, lookup y, a.lookup y, a.unused, a.start_le)))
          ])
