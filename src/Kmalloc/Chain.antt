-- ===== src/Kmalloc/Chain.antt =====
-- The chain of blocks tiles the heap, no two free blocks are neighbours, and no free block lies
-- before the hint.
use zakos.Common.{
  ℕ, ◌+◌, ◌%◌, ◌^◌, ◌≤◌, ◌<◌, ◌≡◌, refl, Bool, true, false, not, ◌&&◌, Option, none, some, List, [],
  ◌∷◌, ◌==◌, if◌then◌else◌, arith,
}
use zakos.Kmalloc.{Block, Heap, header}

-- From address `a`, behind a free block if `free`, the blocks lead to `end` without a gap.
abbrev pub Chain : ℕ → Bool → List Block → ℕ → Type 0
Chain a free [] end = a ≡ end
Chain a free (b ∷ r) end =
    (b.addr ≡ a)
    × ((free && not b.used) ≡ false)
    × (b.size % 2 ≡ 0)
    × Chain (a + header + b.size) (not b.used) r end

-- The hint is the address of a block, and the blocks before it are in use.
abbrev pub IsHint : ℕ → List Block → Type 0
IsHint h [] = ⊥
IsHint h (b ∷ r) = if b.addr == h then Unit {0} else (b.used ≡ true) × IsHint h r

abbrev pub HintOk : Option ℕ → List Block → Type 0
HintOk none xs = Unit {0}
HintOk (some h) xs = IsHint h xs

pub record IsValid (start end : ℕ) (h : Heap) : Type 0 where
  pub chain : Chain start false h.blocks end
  pub hinted : HintOk h.hint h.blocks
  pub low : 0 < start
  pub high : end + 16 ≤ 2 ^ 16

-- The size of the block in use at an address, if there is one.
unfoldable pub used_at : List Block → ℕ → Option ℕ
used_at [] a = none
used_at (b ∷ r) a = if b.addr == a then (if b.used then some b.size else none) else used_at r a

-- Every free block is smaller than a size.
abbrev pub NoRoom : ℕ → List Block → Type 0
NoRoom size [] = Unit {0}
NoRoom size (b ∷ r) = (b.used ≡ false → b.size < size) × NoRoom size r

-- The end of a chain is not below its start.
pub Chain-le : (a end : ℕ) (free : Bool) (xs : List Block) → Chain a free xs end → a ≤ end
Chain-le a end free [] c = omega arith
Chain-le a end free (b ∷ r) c = omega (arith, Chain-le (a + header + b.size) end (not b.used) r c.3)

-- No block of a chain lies before its start.
pub used_at-below :
    (a end x : ℕ) (free : Bool) (xs : List Block)
    → Chain a free xs end
    → x < a
    → used_at xs x ≡ none
unfolding used_at
used_at-below a end x free [] c h = refl
used_at-below a end x free (b ∷ r) c h =
    ground (arith, used_at-below (a + header + b.size) end x (not b.used) r c.3)

-- A chain seen from an equal address, behind a block that is as free or in use.
pub Chain-at :
    (a a' end : ℕ) (free free' : Bool) (xs : List Block)
    → a ≡ a'
    → (free' ≡ true → free ≡ true)
    → Chain a free xs end
    → Chain a' free' xs end
Chain-at a a' end free free' [] e f c = omega arith
Chain-at a a' end free free' (b ∷ r) e f c = (
  omega arith,
  weaken free free' f c.1,
  c.2,
  Chain-at (a + header + b.size) (a' + header + b.size) end (not b.used) (not b.used) r
      (omega arith) (λ g. g) c.3,
)
  where
    weaken :
        (u v : Bool) → (v ≡ true → u ≡ true) → (u && not b.used) ≡ false → (v && not b.used) ≡ false
    weaken u false g h = refl
    weaken u true g h = ground (arith, g refl)
