-- ===== src/Page/Split.antt =====
-- page_element_alloc and page_element_split.
use zakos.Common.{
  ℕ, zero, suc, ◌+◌, ◌-◌, ◌%◌, ◌<◌, ◌≤◌, ◌≡◌, ◌≢◌, refl, ap, ◌∙◌, inl, inr, Bool, true, false, ◌&&◌,
  Option, none, some, List, ◌∷◌, ltb, leb, ◌==◌, if◌then◌else◌, update, arith, Bool-cases, occ,
  without, occ-without, ==_iff,
}
use zakos.Page.{Pages, find_unused, mark, element_alloc, split, marked_no}
use zakos.Page.Merge.{occ_at}
use zakos.Page.Cover.{held, held-without, held-same, in_range, Disjoint}

-- An element that has a bit of its own is not in use.
abbrev pub HasRoom : Pages → Type 0
HasRoom s = (e : ℕ) × (e < 16) × (s.used e ≡ false)

pub find_unused-room :
    (n i : ℕ) (used : ℕ → Bool) (e : ℕ)
    → i ≤ e
    → e < 16
    → e < i + n
    → used e ≡ false
    → (k : ℕ) × (find_unused n i used ≡ some k) × (k < 16) × (used k ≡ false)
unfolding find_unused
find_unused-room zero i used e h lt on out = absurd (omega (arith, h, on))
find_unused-room (suc n) i used e h lt on out = elim (Bool-cases (ltb i marked_no && used i)) [
  | inl busy ↦
      let past : suc i ≤ e = ground (arith, busy, h, ==_iff i e, ap used {x = i} {y = e}, out) in
      let r = find_unused-room n (i + 1) used e (omega (arith, past)) lt (omega (arith, on)) out in
      (r.0, rw busy r.1, r.2, r.3)
  | inr here ↦ (i, rw here refl, omega (arith, h, lt), ground (arith, here, h, lt))
]

-- With all of them in use the loop ends at the first element behind them.
find_unused-full :
    (n i : ℕ) (used : ℕ → Bool)
    → i ≤ 16
    → 16 < i + n
    → ((e : ℕ) → e < 16 → used e ≡ true)
    → find_unused n i used ≡ some 16
unfolding find_unused
find_unused-full zero i used h lt all = absurd (omega (arith, h, lt))
find_unused-full (suc n) i used h lt all = elim (Bool-cases (ltb i 16)) [
  | inl low ↦
      rw (low, all i (ground (arith, low)))
        (find_unused-full n (i + 1) used (ground (arith, low)) (omega (arith, lt)) all)
  | inr high ↦ let eq : i ≡ 16 = ground (arith, high, h) in rw high (ap some eq)
]

-- The state after page_element_split with the new element `n`.
abbrev pub parted : Pages → ℕ → ℕ → ℕ → Pages
parted s v pages n = record s {
  used = mark s.used n true;
  start = update (update s.start n (s.start v)) v ((s.start v + pages) % 256);
  length = update (update s.length n pages) v (s.length v - pages);
}

pub element_alloc_hit :
    (s : Pages) (n : ℕ)
    → find_unused 32 0 s.used ≡ some n
    → element_alloc s ≡ (some n, record s { used = mark s.used n true })
unfolding element_alloc
element_alloc_hit s n hit = rw (hit, element_alloc) refl

-- With the 16 elements that have bits of their own in use, page_element_alloc hands out element 16
-- and leaves the allocator as it is, so each later call hands out the same one.
element_alloc-full :
    (s : Pages) → ((e : ℕ) → e < 16 → s.used e ≡ true) → element_alloc s ≡ (some 16, s)
unfolding element_alloc
element_alloc-full s all =
    rw (find_unused-full 32 0 s.used (omega arith) (omega arith) all, element_alloc) refl

abbrev split_body : ℕ → ℕ → Option ℕ × Pages → Option ℕ × Pages
split_body victim pages n = elim n.0 [
  | none ↦ (none, n.1)
  | some newborn ↦ if leb (n.1.length victim) pages then (none, n.1) else (
    some newborn,
    record n.1 {
      start =
          update (update n.1.start newborn (n.1.start victim)) victim
            ((n.1.start victim + pages) % 256);
      length = update (update n.1.length newborn pages) victim (n.1.length victim - pages);
    },
  )
]

pub split_into :
    (s : Pages) (v pages n : ℕ)
    → find_unused 32 0 s.used ≡ some n
    → pages < s.length v
    → split s v pages ≡ (some n, parted s v pages n)
unfolding split
split_into s v pages n hit h =
    let long : leb (s.length v) pages ≡ false = ground (arith, h) in
    ap (split_body v pages) (element_alloc_hit s n hit) ∙ rw long refl

held-split :
    (st ln st' ln' : ℕ → ℕ) (v pages : ℕ) (zs : List ℕ) (p : ℕ)
    → ((x : ℕ) → occ x zs ≢ 0 → (x == v) ≡ false → (st' x ≡ st x) × (ln' x ≡ ln x))
    → st' v ≡ st v + pages
    → ln' v ≡ ln v - pages
    → pages < ln v
    → occ v zs ≤ 1
    → held st' ln' zs p + (if occ v zs == 0 then 0 else in_range (st v) pages p) ≡ held st ln zs p
held-split st ln st' ln' v pages zs p same at size lt once = elim (Bool-cases (occ v zs == 0)) [
  | inl out ↦
      let eq =
        held-same st ln st' ln' zs p (λ x i. same x i (ground (arith, out, i, occ_at x v zs))) in
      rw out (omega (arith, eq))
  | inr on ↦
      let i : occ v zs ≢ 0 = ground (arith, on) in
      let eq = held-same st ln st' ln' (without v zs) p (λ x j.
        same x (ground (arith, j, occ-without x v zs))
          (ground (arith, j, occ-without x v zs, occ_at x v zs, once))) in
      rw on (
        ground
          (arith, eq, held-without st ln v zs p i, held-without st' ln' v zs p i, at, size, lt))
]

-- What page_element_split leaves: the pages of the new element are those at the front of `v`.
pub record Parted (s : Pages) (v pages : ℕ) (xs ys es : List ℕ) (n : ℕ) (u : Pages) : Type 0 where
  pub result : split s v pages ≡ (some n, u)
  pub disjoint : Disjoint u.start u.length u.used xs ys (n ∷ es)
  pub fresh : (occ n xs ≡ 0) × (occ n ys ≡ 0) × (occ n es ≡ 0)
  pub front :
      (zs : List ℕ) (p : ℕ)
      → occ n zs ≡ 0
      → occ v zs ≤ 1
      → held u.start u.length zs p + (if occ v zs == 0 then 0 else in_range (s.start v) pages p)
        ≡ held s.start s.length zs p
  pub start : (u.start n ≡ s.start v) × (u.start v ≡ s.start v + pages)
  pub length : (u.length n ≡ pages) × (u.length v ≡ s.length v - pages)

pub split-Parted :
    (s : Pages) (v pages : ℕ) (xs ys es : List ℕ)
    → Disjoint s.start s.length s.used xs ys es
    → occ v xs + occ v ys + occ v es ≢ 0
    → 0 < pages
    → pages < s.length v
    → HasRoom s
    → (n : ℕ) × Parted s v pages xs ys es n (parted s v pages n)
unfolding held occ
split-Parted s v pages xs ys es d on some_pages lt room =
    let k =
      find_unused-room 32 0 s.used room.0 (omega arith) room.1 (omega (arith, room.1)) room.2 in
    let n = k.0 in
    let u = parted s v pages n in
    let once : occ v xs + occ v ys + occ v es ≤ 1 = ground (arith, d.marks v) in
    let fresh : (occ n xs ≡ 0) × (occ n ys ≡ 0) × (occ n es ≡ 0) = ground (arith, d.marks n, k.3) in
    let at = d.bounds v on in
    let other : (n == v) ≡ false =
      ground (arith, fresh, on, occ_at n v xs, occ_at n v ys, occ_at n v es) in
    let moved : (s.start v + pages) % 256 ≡ s.start v + pages = omega (arith, at, lt) in
    let starts : (u.start n ≡ s.start v) × (u.start v ≡ s.start v + pages) =
      ground (arith, other, moved) in
    let lengths : (u.length n ≡ pages) × (u.length v ≡ s.length v - pages) =
      ground (arith, other) in
    let front = λ (zs : List ℕ) (p : ℕ) (no_n : occ n zs ≡ 0) (one : occ v zs ≤ 1).
      held-split s.start s.length u.start u.length v pages zs p
        (λ x i o. ground (arith, no_n, i, o, occ_at x n zs)) starts.1 lengths.1 lt one in
    (
      n,
      record {
        result = split_into s v pages n k.1 lt;
        disjoint = record {
          apart = λ p. ground (
            arith,
            d.apart p,
            front xs p fresh.0,
            front ys p fresh.1,
            front es p fresh.2,
            once,
            on,
            starts,
            lengths,
          );
          bounds = λ x h. ground (arith, d.bounds x, h, moved, at, lt, other);
          marks = λ x.
              ground (arith, d.marks x, k.2, fresh, occ_at x n xs, occ_at x n ys, occ_at x n es);
        };
        fresh = fresh;
        front = front;
        start = starts;
        length = lengths;
      },
    )
