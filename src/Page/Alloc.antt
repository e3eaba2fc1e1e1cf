-- ===== src/Page/Alloc.antt =====
-- page_alloc_callback: what it hands out was free, and is the caller's alone.
use zakos.Common.{
  ℕ, ◌+◌, ◌<◌, ◌≤◌, ◌≡◌, ◌≢◌, refl, ap, ◌∙◌, inl, inr, false, Option, none, some, List, [], ◌∷◌,
  update, ltb, ◌==◌, ◌⊎◌, arith, Bool-cases, occ, without, ==_iff,
}
use zakos.Page.{Pages, split, find_fit, hand_out, page_alloc}
use zakos.Page.Cover.{held, held-without, in_range, Open, IsValid}
use zakos.Page.Moves.{leave, Taken, enter_alloc}
use zakos.Page.Split.{HasRoom, parted, Parted, split-Parted}

find_fit_lem :
    (s : Pages) (pages : ℕ) (xs : List ℕ)
    → ((find_fit s pages xs ≡ none) × ((e : ℕ) → occ e xs ≢ 0 → s.length e < pages))
      ⊎ ((e : ℕ) × (find_fit s pages xs ≡ some e) × (occ e xs ≢ 0) × (pages ≤ s.length e))
unfolding find_fit occ
find_fit_lem s pages [] = inl (refl, λ e h. absurd (h refl))
find_fit_lem s pages (x ∷ xs) = elim (Bool-cases (ltb (s.length x) pages)) [
  | inr here ↦ inr (x, rw here refl, ground arith, ground (arith, here))
  | inl short ↦ elim (find_fit_lem s pages xs) [
    | inl (miss, all) ↦ inl (
      rw (short, miss) refl,
      λ e h. elim (Bool-cases (e == x)) [
        | inl same ↦ ground (arith, short, same, ==_iff e x, ap s.length {x = e} {y = x})
        | inr other ↦ all e (ground (arith, h, other))
      ],
    )
    | inr (e, hit, on, fits) ↦ inr (e, rw (short, hit) refl, ground (arith, on), fits)
  ]
]

hand_out-Taken :
    (w : Pages) (e owner callback : ℕ)
    → Open w (e ∷ [])
    → Taken w e [] (hand_out w e owner callback).1
unfolding hand_out
hand_out-Taken w e owner callback d =
    let u = record w { callback = update w.callback e callback; owner = update w.owner e owner } in
    let k = enter_alloc u e [] d in
    record {
      opened = k.opened;
      free = k.free;
      alloc = k.alloc;
      rest = k.rest;
      unmarked = k.unmarked;
    }

-- A range of pages goes from the free ones to the allocated ones.
pub record Granted (s : Pages) (page pages : ℕ) (u : Pages) : Type 0 where
  pub valid : IsValid u
  pub fits : (0 < page) × (page + pages < 257)
  pub free :
      (p : ℕ)
      → held u.start u.length u.free p + in_range page pages p ≡ held s.start s.length s.free p
  pub alloc :
      (p : ℕ)
      → held u.start u.length u.alloc p ≡ held s.start s.length s.alloc p + in_range page pages p

abbrev pub Outcome : Pages → ℕ → ℕ → Pages → Type 0
Outcome s page pages u =
    ((page ≡ 0) × (u ≡ s) × ((e : ℕ) → occ e s.free ≢ 0 → s.length e < pages))
    ⊎ Granted s page pages u

alloc_exact :
    (s : Pages) (e owner pages callback : ℕ)
    → IsValid s
    → occ e s.free ≢ 0
    → s.length e ≡ pages
    → Granted s
        (s.start e)
        pages
        (hand_out (record s { free = without e s.free }) e owner callback).1
alloc_exact s e owner pages callback v on eq =
    let w = record s { free = without e s.free } in
    let d = leave s.start s.length s.used e s.free s.alloc [] v on in
    let k = hand_out-Taken w e owner callback d in
    record {
      valid = k.opened;
      fits = ground (arith, v.bounds e, on, eq);
      free = λ p. ground (arith, k.free p, held-without s.start s.length e s.free p on, eq);
      alloc = λ p. ground (arith, k.alloc p, eq);
    }

alloc_split :
    (s : Pages) (e n owner pages callback : ℕ)
    → IsValid s
    → occ e s.free ≢ 0
    → pages < s.length e
    → Parted s e pages s.free s.alloc [] n (parted s e pages n)
    → Granted s (s.start e) pages (hand_out (parted s e pages n) n owner callback).1
unfolding held
alloc_split s e n owner pages callback v on longer k =
    let w = parted s e pages n in
    let once : (occ e s.free ≡ 1) × (occ e s.alloc ≡ 0) = ground (arith, v.marks e, on) in
    let t = hand_out-Taken w n owner callback k.disjoint in
    record {
      valid = t.opened;
      fits = ground (arith, v.bounds e, on, longer);
      free = λ p. ground (arith, t.free p, k.front s.free p k.fresh.0 (omega (arith, once)), once);
      alloc = λ p. ground (
        arith,
        t.alloc p,
        k.front s.alloc p k.fresh.1 (omega (arith, once)),
        once,
        k.start,
        k.length,
      );
    }

abbrev hand_out_split : ℕ → ℕ → Option ℕ × Pages → Option (ℕ × Pages)
hand_out_split owner callback p = elim p.0 [
  | none ↦ none
  | some e ↦ some (hand_out p.1 e owner callback)
]

alloc_split_run :
    (s : Pages) (e n owner pages callback : ℕ) (w : Pages)
    → find_fit s pages s.free ≡ some e
    → (s.length e == pages) ≡ false
    → split s e pages ≡ (some n, w)
    → page_alloc s owner pages callback ≡ some (hand_out w n owner callback)
unfolding page_alloc
alloc_split_run s e n owner pages callback w hit longer parts =
    rw (hit, page_alloc, longer) (ap (hand_out_split owner callback) parts)

-- With a pool that is not used up, page_alloc of a valid allocator either returns page 0 and leaves
-- the allocator as it is, and every free block is then too short, or it returns a range of pages
-- within 256 that goes from the free ones to the allocated ones, and the allocator stays valid.
pub page_alloc_lem :
    (s : Pages) (owner pages callback : ℕ)
    → IsValid s
    → 0 < pages
    → HasRoom s
    → (page : ℕ) × (u : Pages) × (page_alloc s owner pages callback ≡ some (page, u))
      × Outcome s page pages u
unfolding page_alloc hand_out
page_alloc_lem s owner pages callback v some_pages room = elim (find_fit_lem s pages s.free) [
  | inl (miss, all) ↦ (0, s, rw (miss, page_alloc) refl, inl (refl, refl, all))
  | inr (e, hit, on, fits) ↦ elim (Bool-cases (s.length e == pages)) [
    | inl exact ↦
        let w = record s { free = without e s.free } in
        (
          s.start e,
          (hand_out w e owner callback).1,
          rw (hit, page_alloc, exact) refl,
          inr (
              alloc_exact s e owner pages callback v on
                (ground (arith, exact, ==_iff (s.length e) pages))),
        )
    | inr longer ↦
        let lt : pages < s.length e = ground (arith, longer, fits) in
        let (n, k) =
          split-Parted s e pages s.free s.alloc [] v (omega (arith, on)) some_pages lt room in
        (
          s.start e,
          (hand_out (parted s e pages n) n owner callback).1,
          alloc_split_run s e n owner pages callback _ hit longer k.result
              ∙ ap (λ z. some (z, (hand_out (parted s e pages n) n owner callback).1)) k.start.0,
          inr (alloc_split s e n owner pages callback v on lt k),
        )
  ]
]
