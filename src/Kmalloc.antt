-- ===== src/Kmalloc.antt =====
-- kernel/mem/kmalloc.c: the kernel's heap. The chain of headers from `common.heap` is the list of
-- blocks in the order of the `next` pointers, each with its address; the flag in the lowest bit
-- of `size` is a field of its own. The lock is not modelled: each call runs under it as a whole.
pub mod Chain
pub mod Fits
pub mod Alloc
pub mod Merge
pub mod Totals
pub mod Free
mod Tests
use mathlib.Core.Option
use zakos.Common.{
  ℕ, zero, suc, ◌+◌, ◌-◌, ◌*◌, ◌/◌, ◌%◌, ◌^◌, ◌≡◌, Bool, true, false, not, ◌&&◌, ◌||◌, Option, none,
  some, List, [], ◌∷◌, ltb, leb, ◌==◌, if◌then◌else◌,
}

-- `header_t`
pub record Block : Type 0 where
  pub addr : ℕ
  pub size : ℕ
  pub used : Bool

-- `common`, less the lock; NULL is `none`.
pub record Heap : Type 0 where
  pub blocks : List Block
  pub hint : Option ℕ

-- sizeof(header_t) and ANTIFRAG
abbrev pub header : ℕ
header = 4

abbrev pub antifrag : ℕ
antifrag = 8

-- ALIGN on a 16-bit size_t.
abbrev pub align : ℕ → ℕ
align n = (n + antifrag - 1) % 2 ^ 16 / 8 * 8

-- `size + sizeof(header_t) + ANTIFRAG`
abbrev pub with_slack : ℕ → ℕ
with_slack size = (size + header + antifrag) % 2 ^ 16

-- The address of the first block of a chain.
abbrev pub head_addr : List Block → Option ℕ
head_addr [] = none
head_addr (b ∷ r) = some b.addr

abbrev pub block : ℕ → ℕ → Bool → Block
block a n u = record { addr = a; size = n; used = u }

-- A block that has been allocated: the chain, `curr`, and `curr->next`.
pub record Fit : Type 0 where
  pub blocks : List Block
  pub found : ℕ
  pub after : Option ℕ

-- The body of kmalloc's loop at a block that fits.
pub carve : ℕ → Block → List Block → Fit
carve size b r =
    let spawn = block (b.addr + header + size) ((b.size - size - header) / 2 * 2) false in
    if leb (with_slack size) b.size
    then record {
      blocks = block b.addr size true ∷ spawn ∷ r;
      found = b.addr;
      after = some spawn.addr;
    }
    else record { blocks = record b { used = true } ∷ r; found = b.addr; after = head_addr r }

abbrev pub behind : Block → Fit → Fit
behind b f = record f { blocks = b ∷ f.blocks }

-- kmalloc's loop from the first block of the list on.
pub first_fit : ℕ → List Block → Option Fit
first_fit size [] = none
first_fit size (b ∷ r) =
    let rest = first_fit size r in
    if not b.used && leb size b.size
    then some (carve size b r)
    else elim rest [ none ↦ none | some f ↦ some (behind b f) ]

-- The loop starts at the hint.
pub search_from : ℕ → ℕ → List Block → Option Fit
search_from hint size [] = none
search_from hint size (b ∷ r) =
    let rest = search_from hint size r in
    if b.addr == hint
    then first_fit size (b ∷ r)
    else elim rest [ none ↦ none | some f ↦ some (behind b f) ]

-- `if (common.hint == NULL) common.hint = common.heap`
pub hint_or_heap : Heap → Option ℕ
hint_or_heap h = elim h.hint [ none ↦ head_addr h.blocks | some a ↦ some a ]

malloc_at : Heap → ℕ → ℕ → Option ℕ × Heap
malloc_at h size start = elim (search_from start size h.blocks) [
  | none ↦ (none, record h { hint = some start })
  | some f ↦ (
    some (f.found + header),
    record { blocks = f.blocks; hint = if f.found == start then f.after else some start },
  )
]

-- kmalloc: the address of the payload.
pub kmalloc : Heap → ℕ → Option ℕ × Heap
unfolding malloc_at
kmalloc h n =
    if n == 0
    then (none, h)
    else elim (hint_or_heap h) [ none ↦ (none, h) | some start ↦ malloc_at h (align n) start ]

-- The merge of a block with the one behind it, and the clearing of its flag.
pub join_next : Block → List Block → List Block
join_next b [] = record b { used = false } ∷ []
join_next b (c ∷ r) =
    if c.used
    then record b { used = false } ∷ c ∷ r
    else record b { size = b.size + c.size + header; used = false } ∷ r

-- What kfree leaves: the chain, and the address of `curr`.
pub record Freed : Type 0 where
  pub blocks : List Block
  pub curr : ℕ

abbrev pub keep : Block → Freed → Freed
keep b f = record f { blocks = b ∷ f.blocks }

-- kfree's loop behind the block `prev`.
pub free_after : Block → List Block → ℕ → Option Freed
free_after prev [] p = none
free_after prev (b ∷ r) p =
    let rest = free_after b r p in
    if b.addr + header == p
    then (if prev.used
        then some (record { blocks = prev ∷ join_next b r; curr = b.addr })
        else some (record {
          blocks = join_next (record prev { size = prev.size + b.size + header }) r;
          curr = prev.addr;
        }))
    else elim rest [ none ↦ none | some f ↦ some (keep prev f) ]

-- kfree's loop from the first block, which has no `prev`.
pub free_from : List Block → ℕ → Option Freed
free_from [] p = none
free_from (b ∷ r) p =
    let rest = free_after b r p in
    if b.addr + header == p then some (record { blocks = join_next b r; curr = b.addr }) else rest

-- `if (curr < common.hint) common.hint = curr`, where NULL is the address 0.
abbrev pub lower_hint : Option ℕ → ℕ → Option ℕ
lower_hint none curr = none
lower_hint (some a) curr = if ltb curr a then some curr else some a

-- kfree of an address that is not NULL; `none` is the panic behind "double free".
pub kfree : Heap → ℕ → Option Heap
kfree h p = elim (free_from h.blocks p) [
  | none ↦ none
  | some f ↦ some (record { blocks = f.blocks; hint = lower_hint h.hint f.curr })
]

-- The loop of kmalloc_stat: the sums of the blocks in use and of the free blocks.
pub stat_loop : List Block → ℕ → ℕ → ℕ × ℕ
stat_loop [] u f = (u, f)
stat_loop (b ∷ r) u f =
    if b.used then stat_loop r ((u + b.size) % 2 ^ 16) f else stat_loop r u ((f + b.size) % 2 ^ 16)

-- kmalloc_stat
pub kmalloc_stat : Heap → ℕ × ℕ
kmalloc_stat h = stat_loop h.blocks 0 0

-- kalloc_init, with subtractions in 16 bits.
pub kalloc_init : ℕ → ℕ → Heap
kalloc_init buff size =
    let aligned = align buff in
    let left = (size + 2 ^ 16 - (aligned - buff)) % 2 ^ 16 in
    record {
      blocks = block aligned ((left + 2 ^ 16 - header) % 2 ^ 16 / 2 * 2) false ∷ [];
      hint = some aligned;
    }
