-- ===== src/Page/Tests.antt =====
-- The page allocator on small pools.
use zakos.Common.{
  ℕ, ◌+◌, ◌-◌, ◌<◌, ◌≤◌, ◌≡◌, ◌≢◌, ◌⊎◌, refl, inr, false, Option, none, some, List, [], ◌∷◌, ◌==◌,
  if◌then◌else◌, arith, occ, without,
}
use zakos.Page.{
  Pages, find_unused, element_alloc, place, merge_next, attach, split, find_fit, hand_out,
  page_alloc, find_block, cut_middle, cut, free_round, page_free, Freeing, freed, through_null,
  astray,
}
use zakos.Page.Cover.{held, IsValid}
use zakos.Page.Alloc.{Outcome, page_alloc_lem}
use zakos.Page.Cut.{Released}
use zakos.Page.Free.{Within, page_free_lem}
use zakos.Page.Middle.{page_free-inside}

abbrev unset : Pages
unset = record {
  start = λ e. 0;
  length = λ e. 0;
  owner = λ e. 0;
  callback = λ e. 0;
  used = λ e. false;
  free = [];
  alloc = [];
}

-- One free block of ten pages, from page 16 on.
abbrev pool : Pages
pool = record unset {
  start = λ e. if e == 0 then 16 else 0;
  length = λ e. if e == 0 then 10 else 0;
  used = λ e. e == 0;
  free = 0 ∷ [];
}

-- The same block, allocated.
abbrev taken : Pages
taken = record pool { free = []; alloc = 0 ∷ []; owner = λ e. 1 }

pool-IsValid : IsValid pool
unfolding held occ
pool-IsValid = record {
  apart = λ p. ground arith;
  bounds = λ e h. ground (arith, h);
  marks = λ e. ground arith;
}

taken-IsValid : IsValid taken
unfolding held occ
taken-IsValid = record {
  apart = λ p. ground arith;
  bounds = λ e h. ground (arith, h);
  marks = λ e. ground arith;
}

-- The pages of page_alloc, and the free ones behind them.
first_pages : Option (ℕ × Pages) → List ℕ
first_pages none = []
first_pages (some (page, u)) =
    page
    ∷ (held u.start u.length u.alloc 19)
    ∷ (held u.start u.length u.free 20)
    ∷ u.start 0
    ∷ u.length 0
    ∷ []

page_alloc_4 : first_pages (page_alloc pool 1 4 0) ≡ 16 ∷ 1 ∷ 1 ∷ 20 ∷ 6 ∷ []
unfolding first_pages page_alloc find_fit split element_alloc find_unused hand_out attach place
    merge_next held
page_alloc_4 = refl

free_pages : Freeing → List ℕ
free_pages through_null = []
free_pages (astray e page pages u) = e ∷ page ∷ pages ∷ []
free_pages (freed u) =
    (held u.start u.length u.free 18)
    ∷ (held u.start u.length u.free 19)
    ∷ (held u.start u.length u.free 21)
    ∷ (held u.start u.length u.free 22)
    ∷ []

-- Of the pages 16 to 25 the pages 18 to 21 are freed.
page_free_inside_4 : free_pages (page_free taken 18 4) ≡ 1 ∷ 1 ∷ 1 ∷ 0 ∷ []
unfolding free_pages page_free find_block free_round cut cut_middle split element_alloc find_unused
    attach place merge_next held without
page_free_inside_4 = refl

-- For the pages 18 and 19 the search goes on behind the element that was freed.
page_free_inside_2 : free_pages (page_free taken 18 2) ≡ 2 ∷ 24 ∷ 252 ∷ []
unfolding free_pages page_free find_block free_round cut cut_middle split element_alloc find_unused
    attach place merge_next held without
page_free_inside_2 = refl

page_alloc_lem_example :
    (page : ℕ) × (u : Pages) × (page_alloc pool 1 4 0 ≡ some (page, u)) × Outcome pool page 4 u
page_alloc_lem_example = page_alloc_lem pool 1 4 0 pool-IsValid (omega arith) (1, omega arith, refl)

within : (page pages : ℕ) → 16 ≤ page → page + pages ≤ 26 → 0 < pages → Within taken page pages 0
unfolding occ
within page pages low high some_pages = record {
  listed = ground arith;
  from = low;
  to = high;
  some_pages = some_pages;
}

page_free_lem_example : (u : Pages) × (page_free taken 22 4 ≡ freed u) × Released taken 22 4 u
page_free_lem_example =
    page_free_lem taken 22 4 0 taken-IsValid (within 22 4 (omega arith) (omega arith) (omega arith))
      (inr refl) (1, omega arith, refl)

page_free-inside_example :
    (u : Pages) × Released taken 18 6 u
    × (((16 + 10 - 18 - 2 ≡ 2) × (page_free taken 18 2 ≡ freed u))
        ⊎ ((16 + 10 - 18 - 2 ≢ 2)
            × ((e : ℕ) × (u.start e ≡ 18) × (page_free taken 18 2 ≡ astray e 24 252 u))))
page_free-inside_example =
    page_free-inside taken 18 2 0 taken-IsValid
      (within 18 2 (omega arith) (omega arith) (omega arith)) (omega arith) (omega arith)
      (1, 2, refl, omega arith, omega arith, refl, refl)
