-- ===== src/Page/Cut.antt =====
-- A round of page_free: the part of a block that it takes out of the allocated ones.
use zakos.Common.{
  ℕ, ◌+◌, ◌-◌, ◌<◌, ◌≤◌, ◌≡◌, ◌≢◌, refl, ap, ◌∙◌, subst, Bool, true, false, Option, none, some,
  List, [], ◌∷◌, ltb, ◌==◌, if◌then◌else◌, arith, occ, without, ==_iff,
}
use zakos.Page.{Pages, split, attach_alloc, cut_middle, cut, free_round}
use zakos.Page.Cover.{held, held-without, in_range, Disjoint, Open, IsValid, swap_lists}
use zakos.Page.Start.{attach-start}
use zakos.Page.Moves.{leave, enter_alloc, attach_free, enter_free}
use zakos.Page.Split.{HasRoom, parted, Parted, split-Parted}

-- A range of pages goes from the allocated ones to the free ones.
pub record Released (s : Pages) (page pages : ℕ) (u : Pages) : Type 0 where
  pub valid : IsValid u
  pub free :
      (p : ℕ)
      → held u.start u.length u.free p ≡ held s.start s.length s.free p + in_range page pages p
  pub alloc :
      (p : ℕ)
      → held u.start u.length u.alloc p + in_range page pages p ≡ held s.start s.length s.alloc p

-- The element `e` has left the allocated ones with the pages of a range.
pub record CutOut (s : Pages) (page pages e : ℕ) (w : Pages) : Type 0 where
  pub opened : Open w (e ∷ [])
  pub start : w.start e ≡ page
  pub length : w.length e ≡ pages
  pub free : (p : ℕ) → held w.start w.length w.free p ≡ held s.start s.length s.free p
  pub alloc :
      (p : ℕ)
      → held w.start w.length w.alloc p + in_range page pages p ≡ held s.start s.length s.alloc p

abbrev finish : Option (ℕ × Pages) → Option (ℕ × ℕ × Pages)
finish c = elim c [ none ↦ none | some (e, u) ↦ some (e, u.length e, attach_free u e) ]

pub free_round-Released :
    (s : Pages) (b page pages size e : ℕ) (w : Pages)
    → cut s b page pages ≡ some (e, w)
    → CutOut s page size e w
    → (u : Pages) × (free_round s b page pages ≡ some (e, size, u))
      × Released s page size u
      × (u.start e ≡ page)
unfolding free_round
free_round-Released s b page pages size e w run c =
    let r = enter_free w e c.opened in
    (
      attach_free w e,
      ap finish run ∙ ap (λ z. some (e, z, attach_free w e)) c.length,
      record {
        valid = r.valid;
        free = λ p. ground (arith, r.free p, c.free p, c.start, c.length);
        alloc = λ p. ground (arith, r.alloc p, c.alloc p);
      },
      ap (λ f. f e) (attach-start w e w.free) ∙ c.start,
    )

pub cut_whole :
    (s : Pages) (b page pages : ℕ)
    → IsValid s
    → occ b s.alloc ≢ 0
    → s.start b ≡ page
    → s.length b ≡ pages
    → (e : ℕ) × (w : Pages) × (cut s b page pages ≡ some (e, w)) × CutOut s page pages e w
unfolding cut
cut_whole s b page pages v on at size =
    let same : (s.start b == page) ≡ true = ground (arith, at, ==_iff (s.start b) page) in
    let all : ltb pages (s.length b) ≡ false = ground (arith, size) in
    (
      b,
      record s { alloc = without b s.alloc },
      rw (same, all) refl,
      record {
        opened =
            swap_lists _ _ _ _ _ _
              (leave s.start s.length s.used b s.alloc s.free [] (swap_lists _ _ _ _ _ _ v) on);
        start = at;
        length = size;
        free = λ p. refl;
        alloc = λ p. ground (arith, held-without s.start s.length b s.alloc p on, at, size);
      },
    )

abbrev split_off : Option ℕ × Pages → Option (ℕ × Pages)
split_off p = elim p.0 [ none ↦ none | some e ↦ some (e, p.1) ]

-- A block of the allocated ones is in no other list.
alloc_once :
    (s : Pages) (b : ℕ) → IsValid s → occ b s.alloc ≢ 0 → (occ b s.free ≡ 0) × (occ b s.alloc ≡ 1)
alloc_once s b v on = ground (arith, v.marks b, on)

pub cut_front :
    (s : Pages) (b page pages : ℕ)
    → IsValid s
    → occ b s.alloc ≢ 0
    → s.start b ≡ page
    → 0 < pages
    → pages < s.length b
    → HasRoom s
    → (e : ℕ) × (w : Pages) × (cut s b page pages ≡ some (e, w)) × CutOut s page pages e w
unfolding cut held
cut_front s b page pages v on at some_pages lt room =
    let same : (s.start b == page) ≡ true = ground (arith, at, ==_iff (s.start b) page) in
    let part : ltb pages (s.length b) ≡ true = ground (arith, lt) in
    let once = alloc_once s b v on in
    let k = split-Parted s b pages s.free s.alloc [] v (omega (arith, on)) some_pages lt room in
    let c = k.1 in
    (
      k.0,
      parted s b pages k.0,
      rw (same, part) (ap split_off c.result),
      record {
        opened = c.disjoint;
        start = c.start.0 ∙ at;
        length = c.length.0;
        free = λ p. ground (arith, c.front s.free p c.fresh.0 (omega (arith, once)), once);
        alloc = λ p. ground (arith, c.front s.alloc p c.fresh.1 (omega (arith, once)), once, at);
      },
    )

-- The state in which the front of the block `b` has gone back to the allocated ones and the rest is
-- in no list.
abbrev pub front_back : Pages → ℕ → ℕ → ℕ → Pages
front_back s b front t =
    let w = parted s b front t in attach_alloc (record w { alloc = without b w.alloc }) t

pub swap_two :
    (st ln : ℕ → ℕ) (used : ℕ → Bool) (xs ys : List ℕ) (e f : ℕ)
    → Disjoint st ln used xs ys (e ∷ f ∷ [])
    → Disjoint st ln used xs ys (f ∷ e ∷ [])
unfolding held occ
swap_two st ln used xs ys e f v = record {
  apart = λ p. omega (arith, v.apart p);
  bounds = λ x h. v.bounds x (omega (arith, h));
  marks = λ x. omega (arith, v.marks x);
}

pub front_back-CutOut :
    (s : Pages) (b page t : ℕ)
    → IsValid s
    → occ b s.alloc ≢ 0
    → s.start b ≤ page
    → Parted s b (page - s.start b) s.free s.alloc [] t (parted s b (page - s.start b) t)
    → CutOut s page (s.start b + s.length b - page) b (front_back s b (page - s.start b) t)
unfolding held occ
front_back-CutOut s b page t v on le k =
    let front = page - s.start b in
    let w = parted s b front t in
    let once = alloc_once s b v on in
    let d =
      leave w.start w.length w.used b s.alloc s.free (t ∷ []) (swap_lists _ _ _ _ _ _ k.disjoint)
        on in
    let m = record w { alloc = without b w.alloc } in
    let a = enter_alloc m t (b ∷ []) (swap_two _ _ _ _ _ _ _ (swap_lists _ _ _ _ _ _ d)) in
    let at : (w.start b ≡ page) × (w.length b ≡ s.start b + s.length b - page) =
      ground (arith, k.start, k.length, le) in
    let kept = a.rest b (ground arith) in
    record {
      opened = a.opened;
      start = kept.0 ∙ at.0;
      length = kept.1 ∙ at.1;
      free = λ p. ground (arith, a.free p, k.front s.free p k.fresh.0 (omega (arith, once)), once);
      alloc = λ p. ground (
        arith,
        a.alloc p,
        k.front s.alloc p k.fresh.1 (omega (arith, once)),
        once,
        held-without w.start w.length b s.alloc p on,
        at,
        k.start,
        k.length,
      );
    }

abbrev pub keep_rest : ℕ → Option ℕ × Pages → Option (ℕ × Pages)
keep_rest b q = elim q.0 [ none ↦ none | some v ↦ some (v, attach_alloc q.1 b) ]

abbrev pub cut_rest : ℕ → ℕ → Option ℕ × Pages → Option (ℕ × Pages)
cut_rest b pages p = elim p.0 [
  | none ↦ none
  | some t ↦
      let u = attach_alloc (record p.1 { alloc = without b p.1.alloc }) t in
      if ltb pages (u.length b) then keep_rest b (split u b (u.length b - pages)) else some (b, u)
]

pub cut_middle_run :
    (s : Pages) (b page pages : ℕ) (p : Option ℕ × Pages)
    → split s b (page - s.start b) ≡ p
    → cut_middle s b page pages ≡ cut_rest b pages p
unfolding cut_middle
cut_middle_run s b page pages p run = ap (cut_rest b pages) run

pub cut_end :
    (s : Pages) (b page pages : ℕ)
    → IsValid s
    → occ b s.alloc ≢ 0
    → s.start b < page
    → 0 < pages
    → page + pages ≡ s.start b + s.length b
    → HasRoom s
    → (e : ℕ) × (w : Pages) × (cut s b page pages ≡ some (e, w)) × CutOut s page pages e w
unfolding cut
cut_end s b page pages v on past some_pages ends room =
    let front = page - s.start b in
    let inside : (s.start b == page) ≡ false = ground (arith, past, ==_iff (s.start b) page) in
    let (t, k) =
      split-Parted s b front s.free s.alloc [] v (omega (arith, on)) (omega (arith, past))
        (omega (arith, ends, some_pages, past)) room in
    let u = front_back s b front t in
    let c = front_back-CutOut s b page t v on (omega (arith, past)) k in
    let size : s.start b + s.length b - page ≡ pages = omega (arith, ends) in
    let all : ltb pages (u.length b) ≡ false = ground (arith, c.length, size) in
    (
      b,
      u,
      rw inside (cut_middle_run s b page pages _ k.result ∙ rw all refl),
      subst (λ z. CutOut s page z b u) size c,
    )
