-- ===== src/Kmalloc/Merge.antt =====
-- The merges of kfree: what a freed block leaves of the chain.
use zakos.Common.{
  ℕ, ◌+◌, ◌%◌, ◌≤◌, ◌≡◌, inl, inr, refl, sym, Bool, true, false, not, none, List, [], ◌∷◌, ltb,
  ◌==◌, if◌then◌else◌, arith, subst, Bool-cases,
}
use zakos.Kmalloc.{Block, Freed, header, join_next, keep}
use zakos.Kmalloc.Chain.{Chain, IsHint, used_at, used_at-below, Chain-at}

-- What freeing the block at `x` leaves of a chain that starts at `a`.
pub record Loses (a end : ℕ) (free : Bool) (x : ℕ) (xs : List Block) (f : Freed) : Type 0 where
  pub chain : Chain a free f.blocks end
  pub lookup : (y : ℕ) → used_at f.blocks y ≡ (if x == y then none else used_at xs y)
  pub place : a ≤ f.curr
  pub from : a ≤ x
  pub hint : (h : ℕ) → IsHint h xs → IsHint (if ltb f.curr h then f.curr else h) f.blocks

-- A hint does not lie before the chain.
IsHint-le :
    (a end h : ℕ) (free : Bool) (xs : List Block) → Chain a free xs end → IsHint h xs → a ≤ h
IsHint-le a end h free [] c i = elim i [ ]
IsHint-le a end h free (b ∷ r) c i = elim (Bool-cases (b.addr == h)) [
  | inl e ↦ ground arith
  | inr e ↦
      let i' : (b.used ≡ true) × IsHint h r = rw e at i in
      omega (arith, IsHint-le (a + header + b.size) end h (not b.used) r c.3 i'.1)
]

-- A call that ends at the first block lowers every hint to it.
lowered :
    (a end h s : ℕ) (free : Bool) (xs ys : List Block)
    → Chain a free xs end
    → s ≡ a
    → IsHint s ys
    → IsHint h xs
    → IsHint (if ltb s h then s else h) ys
lowered a end h s free xs ys c at first i =
    let same : (if ltb s h then s else h) ≡ s = ground (arith, IsHint-le a end h free xs c i) in
    subst (λ k. IsHint k ys) (sym same) first

join_next-first : (m : Block) (r : List Block) → IsHint m.addr (join_next m r)
unfolding join_next
join_next-first m [] = let e : (m.addr == m.addr) ≡ true = ground arith in rw e tt
join_next-first m (d ∷ r) =
    let e : (m.addr == m.addr) ≡ true = ground arith in
    elim (Bool-cases d.used) [ inl on ↦ rw (on, e) tt | inr off ↦ rw (off, e) tt ]

-- A block that ends where a chain starts, freed and merged with the chain's first block.
join_next_lem :
    (a end : ℕ) (u : Bool) (m : Block) (r : List Block)
    → m.addr ≡ a
    → m.size % 2 ≡ 0
    → Chain (a + header + m.size) u r end
    → Chain a false (join_next m r) end
      × ((y : ℕ) → used_at (join_next m r) y ≡ (if m.addr == y then none else used_at r y))
unfolding join_next used_at
join_next_lem a end u m [] at even c = ((at, refl, even, c), (λ y. ground arith))
join_next_lem a end u m (d ∷ r) at even c = elim (Bool-cases d.used) [
  | inl e ↦ rw e (
    (
      at,
      refl,
      even,
      (
        c.0,
        refl,
        c.2,
        Chain-at (a + header + m.size + header + d.size) _ end (not d.used) false r refl (λ g. cc)
            c.3,
      ),
    ),
    (λ y. ground arith),
  )
  | inr e ↦ rw e (
    (
      at,
      refl,
      ground (arith, c.2),
      Chain-at (a + header + m.size + header + d.size) _ end (not d.used) true r (omega arith)
          (λ _. ground arith) c.3,
    ),
    (λ y.
        ground
          (arith, used_at-below (a + header + m.size + header + d.size) end y (not d.used) r c.3)),
  )
]

-- The block in front keeps its place; the one behind it may be merged.
pub join_next-Loses :
    (a end : ℕ) (b : Block) (r : List Block)
    → Chain a false (b ∷ r) end
    → Loses a end false b.addr (b ∷ r) (record { blocks = join_next b r; curr = b.addr })
unfolding used_at
join_next-Loses a end b r c =
    let (chain, lookup) = join_next_lem a end (not b.used) b r c.0 c.2 c.3 in
    record {
      chain = chain;
      lookup = λ y. ground (arith, lookup y);
      place = omega arith;
      from = omega arith;
      hint =
          λ h i. lowered a end h b.addr false (b ∷ r) (join_next b r) c c.0 (join_next-first b r) i;
    }

-- A free block in front takes the freed block in, and the one behind that.
pub merge-Loses :
    (a end : ℕ) (free : Bool) (prev b : Block) (r : List Block)
    → Chain a free (prev ∷ b ∷ r) end
    → prev.used ≡ false
    → Loses a end free b.addr (prev ∷ b ∷ r) (record {
      blocks = join_next (record prev { size = prev.size + b.size + header }) r;
      curr = prev.addr;
    })
unfolding used_at
merge-Loses a end free prev b r c off =
    let m : Block = record prev { size = prev.size + b.size + header } in
    let (chain, lookup) = join_next_lem a end (not b.used) m r c.0 (ground (arith, c.2)) (
      Chain-at (a + header + prev.size + header + b.size) _ end (not b.used) (not b.used) r
        (omega arith) (λ g. g) c.3.3) in
    let kept : free ≡ false = ground (arith, c.1) in
    record {
      chain = rw kept chain;
      lookup = λ y. ground (
        arith,
        lookup y,
        used_at-below (a + header + prev.size + header + b.size) end y (not b.used) r c.3.3,
      );
      place = omega arith;
      from = omega arith;
      hint = λ h i.
          lowered a end h prev.addr free (prev ∷ b ∷ r) (join_next m r) c c.0 (join_next-first m r)
            i;
    }

pub keep-Loses :
    (a end x : ℕ) (free : Bool) (b : Block) (r : List Block) (f : Freed)
    → Chain a free (b ∷ r) end
    → Loses (a + header + b.size) end (not b.used) x r f
    → Loses a end free x (b ∷ r) (keep b f)
unfolding used_at
keep-Loses a end x free b r f c l = record {
  chain = (c.0, c.1, c.2, l.chain);
  lookup = λ y. ground (arith, l.lookup y, l.from);
  place = omega (arith, l.place);
  from = omega (arith, l.from);
  hint = λ h i. elim (Bool-cases (b.addr == h)) [
    | inl e ↦
        let stays : (if ltb f.curr h then f.curr else h) ≡ h = ground (arith, l.place) in
        subst (λ k. IsHint k (b ∷ f.blocks)) (sym stays) (rw e tt)
    | inr e ↦
        let i' : (b.used ≡ true) × IsHint h r = rw e at i in
        let past : (b.addr == (if ltb f.curr h then f.curr else h)) ≡ false =
          ground (arith, l.place, IsHint-le (a + header + b.size) end h (not b.used) r c.3 i'.1) in
        rw past (i'.0, l.hint h i'.1)
  ];
}
