-- ===== src/Kmalloc/Tests.antt =====
-- Runs of the allocator on a heap of two blocks.
use zakos.Common.{◌-◌, ◌≤◌, ℕ, ◌≡◌, ◌⊎◌, refl, true, false, none, some, [], ◌∷◌, arith}
use zakos.Kmalloc.{
  Heap, block, header, align, hint_or_heap, malloc_at, search_from, first_fit, carve, kmalloc,
  kfree,
}
use zakos.Kmalloc.Chain.{IsValid, NoRoom, used_at}
use zakos.Kmalloc.Alloc.{Allocated, kmalloc_lem, kmalloc_size}
use zakos.Kmalloc.Free.{kfree-kmalloc}

abbrev before : Heap
before = record { blocks = block 100 8 true ∷ block 112 40 false ∷ []; hint = some 112 }

-- The heap after an allocation of five bytes.
abbrev after : Heap
after = record {
  blocks = block 100 8 true ∷ block 112 8 true ∷ block 124 28 false ∷ [];
  hint = some 124;
}

before-IsValid : IsValid 100 156 before
before-IsValid = record {
  chain = (refl, refl, refl, (refl, refl, refl, refl));
  hinted = (refl, tt);
  low = omega arith;
  high = omega arith;
}

allocated : kmalloc before 5 ≡ (some 116, after)
unfolding kmalloc hint_or_heap malloc_at search_from first_fit carve
allocated = refl

kmalloc_lem_example :
    ((p : ℕ) × (g : Heap) × (kmalloc before 5 ≡ (some p, g)) × Allocated 100 156 before 5 p g)
    ⊎ (((kmalloc before 5).0 ≡ none)
        × NoRoom (align 5) before.blocks
        × IsValid 100 156 (kmalloc before 5).1)
kmalloc_lem_example = kmalloc_lem 100 156 before 5 before-IsValid (omega arith)

kfree-kmalloc_example :
    (k : Heap) × (kfree after 116 ≡ some k)
    × IsValid 100 156 k
    × ((y : ℕ) → used_at k.blocks y ≡ used_at before.blocks y)
kfree-kmalloc_example =
    kfree-kmalloc 100 156 before after 5 116 before-IsValid (omega arith) allocated

kmalloc_size_example : (got : ℕ) × (used_at after.blocks (116 - header) ≡ some got) × (5 ≤ got)
kmalloc_size_example =
    kmalloc_size 100 156 before after 5 116 before-IsValid (omega arith) (omega arith) allocated
