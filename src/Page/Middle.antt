-- ===== src/Page/Middle.antt =====
-- page_free of a range that lies strictly inside a block.
use zakos.Common.{
  ℕ, ◌+◌, ◌-◌, ◌%◌, ◌<◌, ◌≡◌, ◌≢◌, ap, ◌∙◌, ◌⊎◌, refl, inl, inr, true, false, Option, some, [], ◌∷◌,
  ltb, ◌==◌, arith, Bool-cases, occ, without, occ-head, ==_iff,
}
use zakos.Page.{Pages, split, attach_alloc, cut, page_free, freed, astray}
use zakos.Page.Cover.{held, IsValid, swap_lists}
use zakos.Page.Merge.{marked}
use zakos.Page.Moves.{leave, enter_alloc}
use zakos.Page.Split.{HasRoom, parted, Parted, split-Parted}
use zakos.Page.Cut.{
  Released, CutOut, free_round-Released, swap_two, front_back-CutOut, cut_middle_run, front_back,
  keep_rest,
}
use zakos.Page.Free.{page_free_run, Within}

-- Two elements are not in use.
abbrev pub HasTwo : Pages → Type 0
HasTwo s =
    (e f : ℕ) × ((e == f) ≡ false) × (e < 16) × (f < 16) × (s.used e ≡ false) × (s.used f ≡ false)

-- The part at the front of the block `b` leaves it, and `b` goes back to the allocated ones.
kept_rest-CutOut :
    (s u : Pages) (b page size k v : ℕ)
    → CutOut s page size b u
    → Parted u b k u.free u.alloc (b ∷ []) v (parted u b k v)
    → k < size
    → CutOut s page k v (attach_alloc (parted u b k v) b)
unfolding held occ
kept_rest-CutOut s u b page size k v c q lt =
    let w = parted u b k v in
    let t = enter_alloc w b (v ∷ []) (swap_two _ _ _ _ _ _ _ q.disjoint) in
    let here = t.rest v (ground arith) in
    let once : (occ b u.free ≡ 0) × (occ b u.alloc ≡ 0) = ground (arith, c.opened.marks b) in
    record {
      opened = t.opened;
      start = here.0 ∙ q.start.0 ∙ c.start;
      length = here.1 ∙ q.length.0;
      free = λ p.
          ground
            (arith, t.free p, q.front u.free p q.fresh.0 (omega (arith, once)), once, c.free p);
      alloc = λ p. ground (
        arith,
        t.alloc p,
        q.front u.alloc p q.fresh.1 (omega (arith, once)),
        once,
        c.alloc p,
        q.start,
        q.length,
        c.start,
        c.length,
        lt,
      );
    }

room_left :
    (s : Pages) (b page t x : ℕ)
    → occ b s.alloc ≢ 0
    → Parted s b (page - s.start b) s.free s.alloc [] t (parted s b (page - s.start b) t)
    → (x == t) ≡ false
    → x < 16
    → s.used x ≡ false
    → HasRoom (front_back s b (page - s.start b) t)
unfolding held occ
room_left s b page t x on k other lt out =
    let w = parted s b (page - s.start b) t in
    let d =
      leave w.start w.length w.used b s.alloc s.free (t ∷ []) (swap_lists _ _ _ _ _ _ k.disjoint)
        on in
    let m = record w { alloc = without b w.alloc } in
    let a = enter_alloc m t (b ∷ []) (swap_two _ _ _ _ _ _ _ (swap_lists _ _ _ _ _ _ d)) in
    let off : marked m x ≡ 0 = ground (arith, other, out) in
    (x, lt, ground (arith, a.unmarked x off, lt))

room_past :
    (s : Pages) (b page t : ℕ)
    → occ b s.alloc ≢ 0
    → Parted s b (page - s.start b) s.free s.alloc [] t (parted s b (page - s.start b) t)
    → HasTwo s
    → HasRoom (front_back s b (page - s.start b) t)
room_past s b page t on k (e, f, apart, low_e, low_f, out_e, out_f) = elim (Bool-cases (e == t)) [
  | inr other ↦ room_left s b page t e on k other low_e out_e
  | inl same ↦
      let other : (f == t) ≡ false = ground (arith, apart, same) in
      room_left s b page t f on k other low_f out_f
]

run_inside :
    (s : Pages) (b page pages t rest : ℕ) (q : Option ℕ × Pages)
    → split s b (page - s.start b) ≡ (some t, parted s b (page - s.start b) t)
    → (s.start b == page) ≡ false
    → ltb pages ((front_back s b (page - s.start b) t).length b) ≡ true
    → (front_back s b (page - s.start b) t).length b - pages ≡ rest
    → split (front_back s b (page - s.start b) t) b rest ≡ q
    → cut s b page pages ≡ keep_rest b q
unfolding cut
run_inside s b page pages t rest q first inside part size second =
    let u = front_back s b (page - s.start b) t in
    let back : split u b (u.length b - pages) ≡ q = ap (split u b) size ∙ second in
    rw inside (cut_middle_run s b page pages _ first ∙ rw part (ap (keep_rest b) back))

cut_inside :
    (s : Pages) (page pages b : ℕ)
    → IsValid s
    → Within s page pages b
    → s.start b < page
    → page + pages < s.start b + s.length b
    → HasTwo s
    → (e : ℕ) × (w : Pages) × (cut s b page pages ≡ some (e, w))
      × CutOut s page (s.start b + s.length b - page - pages) e w
cut_inside s page pages b v i past before two =
    let front = page - s.start b in
    let room : HasRoom s = (two.0, two.3, two.5) in
    let inside : (s.start b == page) ≡ false = ground (arith, past, ==_iff (s.start b) page) in
    let (t, k) =
      split-Parted s b front s.free s.alloc [] v (omega (arith, i.listed)) (omega (arith, past))
        (omega (arith, before, past)) room in
    let u = front_back s b front t in
    let c = front_back-CutOut s b page t v i.listed (omega (arith, past)) k in
    let rest = s.start b + s.length b - page - pages in
    let size : u.length b - pages ≡ rest = ap (λ z. z - pages) c.length in
    let part : ltb pages (u.length b) ≡ true = ground (arith, c.length, before) in
    let (n, q) =
      split-Parted u b rest u.free u.alloc (b ∷ []) c.opened (ground (arith, occ-head b []))
        (omega (arith, before)) (omega (arith, c.length, before, i.some_pages))
        (room_past s b page t i.listed k two) in
    (
      n,
      attach_alloc (parted u b rest n) b,
      run_inside s b page pages t rest _ k.result inside part size q.result,
      kept_rest-CutOut s u b page _ rest n c q (omega (arith, before, i.some_pages)),
    )

-- For a range strictly inside an allocated block, with two elements of the pool not in use,
-- page_free of a valid allocator moves as many pages as there are in the block behind the range,
-- from the first page of the range on, to the free ones. If these are as many as the range has, it
-- returns with that; otherwise it goes on, in the same state, with the page behind those moved and
-- with the difference of the numbers, modulo 256, as pages left, from an element that starts with
-- the range.
pub page_free-inside :
    (s : Pages) (page pages b : ℕ)
    → IsValid s
    → Within s page pages b
    → s.start b < page
    → page + pages < s.start b + s.length b
    → HasTwo s
    → (u : Pages) × Released s page (s.start b + s.length b - page - pages) u
      × (((s.start b + s.length b - page - pages ≡ pages) × (page_free s page pages ≡ freed u))
          ⊎ ((s.start b + s.length b - page - pages ≢ pages)
              × ((e : ℕ) × (u.start e ≡ page)
                  × (page_free s page pages
                      ≡ astray e
                          ((page + (s.start b + s.length b - page - pages)) % 256)
                          ((pages + 256 - (s.start b + s.length b - page - pages)) % 256)
                          u))))
page_free-inside s page pages b v i past before two =
    let rest = s.start b + s.length b - page - pages in
    let (e, w, run, c) = cut_inside s page pages b v i past before two in
    let (u, round, r, from) = free_round-Released s b page pages rest e w run c in
    let fits = v.bounds b (omega (arith, i.listed)) in
    let end = page_free_run s page pages b e rest u v i round in
    (
      u,
      r,
      elim (Bool-cases ((pages + 256 - rest) % 256 == 0)) [
        | inl done ↦
            inl (ground (arith, done, fits, before, past, i.some_pages), end ∙ rw done refl)
        | inr more ↦
            inr (
              ground (arith, more, fits, before, past, i.some_pages),
              (e, from, end ∙ rw more refl),
            )
      ],
    )
