-- ===== src/Page/Free.antt =====
-- page_free: the pages that go from the allocated ones to the free ones.
use zakos.Common.{
  ℕ, ◌+◌, ◌-◌, ◌%◌, ◌<◌, ◌≤◌, ◌≡◌, ◌≢◌, refl, ap, ◌∙◌, inl, inr, false, ◌&&◌, Option, none, some,
  List, [], ◌∷◌, ltb, leb, ◌==◌, if◌then◌else◌, ◌⊎◌, arith, Bool-cases, occ, ==_iff,
}
use zakos.Page.{Pages, Freeing, freed, through_null, astray, find_block, cut, free_round, page_free}
use zakos.Page.Cover.{covers, held, covers-held, IsValid}
use zakos.Page.Split.{HasRoom}
use zakos.Page.Cut.{Released, CutOut, free_round-Released, cut_whole, cut_front, cut_end}

-- The block of a page is the only one.
find_block_lem :
    (s : Pages) (page : ℕ) (xs : List ℕ) (b : ℕ)
    → held s.start s.length xs page ≤ 1
    → occ b xs ≢ 0
    → covers s.start s.length b page ≡ 1
    → find_block s page xs ≡ some b
unfolding find_block held occ
find_block_lem s page [] b one on h = absurd (on refl)
find_block_lem s page (x ∷ xs) b one on h =
    elim (Bool-cases (leb (s.start x) page && ltb page (s.start x + s.length x))) [
      | inl here ↦
          let eq : x ≡ b =
            ground (arith, here, one, on, h, ==_iff b x, covers-held s.start s.length b xs page) in
          rw here (ap some eq)
      | inr other ↦
          let later : occ b xs ≢ 0 = ground (
            arith,
            other,
            on,
            h,
            ==_iff b x,
            ap (λ z. covers s.start s.length z page) {x = b} {y = x},
          ) in
          rw other (find_block_lem s page xs b (ground (arith, one)) later h)
    ]

-- A block of the allocated ones that a range of pages lies in.
pub record Within (s : Pages) (page pages b : ℕ) : Type 0 where
  pub listed : occ b s.alloc ≢ 0
  pub from : s.start b ≤ page
  pub to : page + pages ≤ s.start b + s.length b
  pub some_pages : 0 < pages

abbrev after_round : ℕ → ℕ → ℕ → ℕ → Pages → Freeing
after_round page pages e n u =
    let left = (pages + 256 - n) % 256 in
    if left == 0 then freed u else astray e ((page + n) % 256) left u

abbrev free_body : ℕ → ℕ → Option (ℕ × ℕ × Pages) → Freeing
free_body page pages r = elim r [
  | none ↦ through_null
  | some (e, n, u) ↦ after_round page pages e n u
]

pub page_free_run :
    (s : Pages) (page pages b e n : ℕ) (u : Pages)
    → IsValid s
    → Within s page pages b
    → free_round s b page pages ≡ some (e, n, u)
    → page_free s page pages ≡ after_round page pages e n u
unfolding page_free
page_free_run s page pages b e n u v w run =
    let more : (pages == 0) ≡ false = ground (arith, w.some_pages) in
    let one : held s.start s.length s.alloc page ≤ 1 = omega (arith, v.apart page) in
    let found =
      find_block_lem s page s.alloc b one w.listed (ground (arith, w.from, w.to, w.some_pages)) in
    rw (more, found) (ap (free_body page pages) run)

cut_out :
    (s : Pages) (page pages b : ℕ)
    → IsValid s
    → Within s page pages b
    → (s.start b ≡ page) ⊎ (page + pages ≡ s.start b + s.length b)
    → HasRoom s
    → (e : ℕ) × (w : Pages) × (cut s b page pages ≡ some (e, w)) × CutOut s page pages e w
cut_out s page pages b v i side room = elim (Bool-cases (s.start b == page)) [
  | inl front ↦
      let at : s.start b ≡ page = ground (arith, front, ==_iff (s.start b) page) in
      elim (Bool-cases (ltb pages (s.length b))) [
        | inl part ↦ cut_front s b page pages v i.listed at i.some_pages (ground (arith, part)) room
        | inr all ↦ cut_whole s b page pages v i.listed at (ground (arith, all, i.to, at))
      ]
  | inr past ↦
      cut_end s b page pages v i.listed (ground (arith, i.from, past)) i.some_pages
        (ground (arith, side, past, ==_iff (s.start b) page)) room
]

-- For a range of pages at the start or at the end of an allocated block, with a pool that is not
-- used up, page_free of a valid allocator returns, leaves the allocator valid, and moves just the
-- pages of the range from the allocated ones to the free ones.
pub page_free_lem :
    (s : Pages) (page pages b : ℕ)
    → IsValid s
    → Within s page pages b
    → (s.start b ≡ page) ⊎ (page + pages ≡ s.start b + s.length b)
    → HasRoom s
    → (u : Pages) × (page_free s page pages ≡ freed u) × Released s page pages u
page_free_lem s page pages b v i side room =
    let (e, w, run, c) = cut_out s page pages b v i side room in
    let (u, round, r, from) = free_round-Released s b page pages pages e w run c in
    let none_left : (pages + 256 - pages) % 256 ≡ 0 = omega arith in
    (u, page_free_run s page pages b e pages u v i round ∙ rw none_left refl, r)
