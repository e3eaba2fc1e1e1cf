-- ===== src/Ring/Neighbours.antt =====
-- What __list_remove does to the links around a member.
use zakos.Common.{
  last_of, occ-last_of, ℕ, ◌≤◌, ◌≡◌, ◌≢◌, refl, ap, inl, inr, false, List, [], ◌∷◌, ◌++◌, ◌==◌, occ,
  without, arith, Bool-cases, ==_iff,
}
use zakos.Ring.{Links, tie, clear}
use zakos.Ring.Segment.{Seg, prev-last_of, Seg-same, Seg-retarget}
use zakos.Ring.Refines.{IsRing, Untouched}

pub in_split :
    (m : ℕ) (r : List ℕ)
    → occ m r ≢ 0
    → (a : List ℕ) × (b : List ℕ) × (r ≡ a ++ (m ∷ b)) × (without m r ≡ a ++ b)
unfolding occ without
in_split m [] h = absurd (h refl)
in_split m (x ∷ r) h = elim (Bool-cases (m == x)) [
  | inl same ↦
      let eq : x ≡ m = ground (arith, same, ==_iff m x) in ([], r, ap (λ z. z ∷ r) eq, rw same refl)
  | inr other ↦
      let (a, b, parts, rest) = in_split m r (ground (arith, h, other)) in
      (x ∷ a, b, ap (λ z. x ∷ z) parts, rw other (ap (λ z. x ∷ z) rest))
]

-- The links after a removal, with `q` as the head.
abbrev pub cut : Links → ℕ → ℕ → Links
cut s m q = clear (tie (record s { queue = q }) m) m

-- The two neighbours of `m` in a ring that is `x`, `a`, `m`, `t` and what is behind.
pub tied :
    (s : Links) (q x : ℕ) (a : List ℕ) (m t : ℕ)
    → Seg s.next s.prev x a m
    → s.next m ≡ t
    → ((y : ℕ) → occ y (x ∷ a) ≤ 1)
    → occ m (x ∷ a) ≡ 0
    → occ t a ≡ 0
    → (m == t) ≡ false
    → Seg (cut s m q).next (cut s m q).prev x a t
unfolding occ
tied s q x a m t g step one new no_t apart =
    let u = cut s m q in
    let last = last_of x a in
    let back : s.prev m ≡ last = prev-last_of s.next s.prev x a m g in
    let in_list = occ-last_of x a in
    let not_m = λ (y : ℕ). ap (λ z. occ z (x ∷ a)) {x = m} {y = y} in
    Seg-retarget s.next s.prev u.next u.prev x a m t g one
      (λ y h k. ground (arith, h, k, new, back, ==_iff m y, ==_iff (s.prev m) y, not_m y))
      (ground (arith, back, step, new, in_list, ==_iff m last, not_m last))
      (λ y h. ground (
        arith,
        h,
        new,
        no_t,
        step,
        ==_iff m y,
        ==_iff (s.next m) y,
        not_m y,
        ap (λ z. occ z a) {x = t} {y = y},
      ))
      (ground (arith, back, step, apart))

-- The ring without `m`, which has no neighbours any more.
abbrev pub Removed : Links → List ℕ → List ℕ → ℕ → Links → Type 0
Removed s xs ys m u = IsRing u ys × Untouched s xs m u × (u.next m ≡ 0) × (u.prev m ≡ 0)

-- The part behind `m` is as it was.
pub behind :
    (s : Links) (q m y : ℕ) (r : List ℕ) (n : ℕ)
    → Seg s.next s.prev y r n
    → s.next m ≡ y
    → occ m (y ∷ r) ≡ 0
    → (m == n) ≡ false
    → (y == n) ≡ false
    → occ y r ≡ 0
    → occ (s.prev m) (y ∷ r) ≡ 0
    → Seg (cut s m q).next (cut s m q).prev y r n
unfolding occ
behind s q m y r n g step new no_n other once away =
    let u = cut s m q in
    Seg-same s.next s.prev u.next u.prev y r n g
      (λ z h. ground (
        arith,
        h,
        new,
        away,
        ==_iff m z,
        ==_iff (s.prev m) z,
        ap (λ w. occ w (y ∷ r)) {x = m} {y = z},
        ap (λ w. occ w (y ∷ r)) {x = s.prev m} {y = z},
      ))
      (λ z h. ground (
        arith,
        h,
        new,
        step,
        no_n,
        other,
        once,
        ==_iff m z,
        ==_iff (s.next m) z,
        ==_iff z n,
        ap (λ w. occ w (y ∷ r)) {x = m} {y = z},
        ap (λ w. occ w r) {x = y} {y = z},
      ))

pub untouched :
    (s : Links) (q : ℕ) (xs : List ℕ) (m : ℕ)
    → occ (s.prev m) xs ≢ 0
    → occ (s.next m) xs ≢ 0
    → Untouched s xs m (cut s m q)
untouched s q xs m p n y h o =
    let away : ((s.prev m == y) ≡ false) × ((s.next m == y) ≡ false) = ground (
      arith,
      h,
      p,
      n,
      ==_iff (s.prev m) y,
      ==_iff (s.next m) y,
      ap (λ z. occ z xs) {x = s.prev m} {y = y},
      ap (λ z. occ z xs) {x = s.next m} {y = y},
    ) in
    (ground (arith, o, away), ground (arith, o, away))
