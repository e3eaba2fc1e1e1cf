-- ===== src/Page/Init.antt =====
-- page_init.
use zakos.Common.{ℕ, ◌+◌, ◌<◌, ◌≡◌, ap, true, Option, none, some, [], ◌∷◌, update, arith, occ}
use zakos.Page.{Pages, mark, page_init}
use zakos.Page.Cover.{held, in_range, Open, IsValid}
use zakos.Page.Moves.{attach_free, enter_free}
use zakos.Page.Split.{HasRoom, find_unused-room, element_alloc_hit}

-- The state of page_init before the element is attached.
abbrev filled : ℕ → ℕ → ℕ → Pages → Pages
filled start pages e s = record s {
  start = update s.start e start;
  length = update s.length e pages;
  owner = update s.owner e 0;
}

abbrev init_body : ℕ → ℕ → Option ℕ × Pages → Option Pages
init_body start pages n = elim n.0 [
  | none ↦ none
  | some e ↦ some (attach_free (filled start pages e n.1) e)
]

-- page_init of an allocator with no elements in its lists and room in the pool leaves it valid: the free pages
-- are those of the range, and no page is allocated.
page_init_lem :
    (s : Pages) (start pages : ℕ)
    → s.free ≡ []
    → s.alloc ≡ []
    → HasRoom s
    → 0 < start
    → start + pages < 257
    → (u : Pages) × (page_init s start pages ≡ some u)
      × IsValid u
      × ((p : ℕ) → held u.start u.length u.free p ≡ in_range start pages p)
      × ((p : ℕ) → held u.start u.length u.alloc p ≡ 0)
unfolding page_init held occ
page_init_lem s start pages no_free no_alloc room low high =
    let k =
      find_unused-room 32 0 s.used room.0 (omega arith) room.1 (omega (arith, room.1)) room.2 in
    let e = k.0 in
    let w = filled start pages e (record s { used = mark s.used e true }) in
    let free_0 = λ (x : ℕ). ap (occ x) no_free in
    let alloc_0 = λ (x : ℕ). ap (occ x) no_alloc in
    let free_p = λ (p : ℕ). ap (λ z. held w.start w.length z p) no_free in
    let alloc_p = λ (p : ℕ). ap (λ z. held w.start w.length z p) no_alloc in
    let d : Open w (e ∷ []) = record {
      apart = λ p. ground (arith, free_p p, alloc_p p);
      bounds = λ x h. ground (arith, free_0 x, alloc_0 x, h, low, high);
      marks = λ x. ground (arith, free_0 x, alloc_0 x, k.2);
    } in
    let r = enter_free w e d in
    (
      attach_free w e,
      ap (init_body start pages) (element_alloc_hit s e k.1),
      r.valid,
      λ p. ground (arith, r.free p, free_p p),
      λ p. omega (arith, r.alloc p, alloc_p p),
    )
