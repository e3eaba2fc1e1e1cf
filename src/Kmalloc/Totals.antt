-- ===== src/Kmalloc/Totals.antt =====
-- kalloc_init and kmalloc_stat.
use zakos.Common.{
  ℕ, ◌+◌, ◌-◌, ◌*◌, ◌/◌, ◌%◌, ◌^◌, ◌≤◌, ◌<◌, ◌≡◌, inl, inr, refl, Bool, true, false, not, List, [],
  ◌∷◌, ◌==◌, arith, Bool-cases, length,
}
use zakos.Kmalloc.{Block, Heap, header, align, stat_loop, kmalloc_stat, kalloc_init}
use zakos.Kmalloc.Chain.{Chain, IsValid, Chain-le}

stat_loop_lem :
    (a end : ℕ) (free : Bool) (xs : List Block) (u f : ℕ)
    → Chain a free xs end
    → end < 2 ^ 16
    → u + f ≤ a
    → (stat_loop xs u f).0 + (stat_loop xs u f).1 + header * length xs + a ≡ end + u + f
unfolding stat_loop
stat_loop_lem a end free [] u f c high low = omega arith
stat_loop_lem a end free (b ∷ r) u f c high low =
    let le = Chain-le (a + header + b.size) end (not b.used) r c.3 in
    elim (Bool-cases b.used) [
      | inl e ↦
          let fits : (u + b.size) % 2 ^ 16 ≡ u + b.size = omega arith in
          let rest =
            stat_loop_lem (a + header + b.size) end (not b.used) r (u + b.size) f c.3 high
              (omega arith) in
          rw (e, fits) (omega arith)
      | inr e ↦
          let fits : (f + b.size) % 2 ^ 16 ≡ f + b.size = omega arith in
          let rest =
            stat_loop_lem (a + header + b.size) end (not b.used) r u (f + b.size) c.3 high
              (omega arith) in
          rw (e, fits) (omega arith)
    ]

-- On a valid heap, the two totals of kmalloc_stat and a header for each block make up the heap
-- exactly.
kmalloc_stat_lem :
    (start end : ℕ) (h : Heap)
    → IsValid start end h
    → start + ((kmalloc_stat h).0 + (kmalloc_stat h).1) + header * length h.blocks ≡ end
unfolding kmalloc_stat
kmalloc_stat_lem start end h v =
    let total =
      stat_loop_lem start end false h.blocks 0 0 v.chain (omega (arith, v.high)) (omega arith) in
    omega arith

-- kalloc_init of at least 12 bytes, not at address 0 and not within 16 bytes of the end of the
-- address space, makes a valid heap that ends at most one byte before the end of the buffer.
kalloc_init-IsValid :
    (buff size : ℕ)
    → 0 < buff
    → 12 ≤ size
    → buff + size + 16 ≤ 2 ^ 16
    → (end : ℕ) × (end ≤ buff + size)
      × (buff + size ≤ end + 1)
      × IsValid (align buff) end (kalloc_init buff size)
unfolding kalloc_init
kalloc_init-IsValid buff size pos room high =
    let up : align buff ≡ (buff + 7) / 8 * 8 = omega arith in
    let left : ((size + 2 ^ 16 - (align buff - buff)) % 2 ^ 16 + 2 ^ 16 - header) % 2 ^ 16 / 2 * 2
        ≡ (size - (align buff - buff) - 4) / 2 * 2 =
      omega arith in
    let self : (align buff == align buff) ≡ true = ground arith in
    (
      align buff
          + header
          + ((size + 2 ^ 16 - (align buff - buff)) % 2 ^ 16 + 2 ^ 16 - header) % 2 ^ 16 / 2 * 2,
      omega arith,
      omega arith,
      record {
        chain = (refl, refl, omega arith, refl);
        hinted = rw self tt;
        low = omega arith;
        high = omega arith;
      },
    )
