-- ===== src/Page/Merge.antt =====
-- page_element_merge: no page is lost, and no element.
use zakos.Common.{
  ℕ, ◌+◌, ◌%◌, ◌<◌, ◌≤◌, ◌≡◌, ◌≢◌, refl, ap, ◌∙◌, Bool, true, false, ◌&&◌, List, [], ◌∷◌, ◌++◌, ltb,
  ◌==◌, if◌then◌else◌, update, arith, occ, occ-append, ==_iff,
}
use zakos.Page.{Pages, adjoins, merged, merge_next}
use zakos.Page.Cover.{held, held-append, held-same}

-- Whether an element is marked, as a number.
abbrev pub marked : Pages → ℕ → ℕ
marked s x = if ltb x 16 && s.used x then 1 else 0

-- What merging in the list `xs`, which becomes `ys`, leaves as it is.
pub record Kept (s : Pages) (xs : List ℕ) (u : Pages) (ys : List ℕ) : Type 0 where
  pub pages : (p : ℕ) → held u.start u.length ys p ≡ held s.start s.length xs p
  pub start : u.start ≡ s.start
  pub outside : (x : ℕ) → occ x xs ≡ 0 → u.length x ≡ s.length x
  pub fewer : (x : ℕ) → occ x ys ≤ occ x xs
  pub marks : (x : ℕ) → occ x ys + marked s x ≡ occ x xs + marked u x
  pub bounds : (x : ℕ) → occ x ys ≢ 0 → (0 < u.start x) × (u.start x + u.length x < 257)
  pub free : u.free ≡ s.free
  pub alloc : u.alloc ≡ s.alloc

-- A list of marked elements, each once, that stay in 256 pages.
pub record Listed (s : Pages) (xs : List ℕ) : Type 0 where
  pub marks : (x : ℕ) → occ x xs ≤ marked s x
  pub bounds : (x : ℕ) → occ x xs ≢ 0 → (0 < s.start x) × (s.start x + s.length x < 257)

pub Kept-refl : (s : Pages) (xs : List ℕ) → Listed s xs → Kept s xs s xs
Kept-refl s xs l = record {
  pages = λ p. refl;
  start = refl;
  outside = λ x h. refl;
  fewer = λ x. omega arith;
  marks = λ x. refl;
  bounds = l.bounds;
  free = refl;
  alloc = refl;
}

pub Kept-trans :
    (s : Pages) (xs : List ℕ) (u : Pages) (ys : List ℕ) (w : Pages) (zs : List ℕ)
    → Kept s xs u ys
    → Kept u ys w zs
    → Kept s xs w zs
Kept-trans s xs u ys w zs a b = record {
  pages = λ p. b.pages p ∙ a.pages p;
  start = b.start ∙ a.start;
  outside = λ x h. b.outside x (omega (arith, a.fewer x)) ∙ a.outside x h;
  fewer = λ x. omega (arith, a.fewer x, b.fewer x);
  marks = λ x. omega (arith, a.marks x, b.marks x);
  bounds = b.bounds;
  free = b.free ∙ a.free;
  alloc = b.alloc ∙ a.alloc;
}

pub Kept-Listed :
    (s : Pages) (xs : List ℕ) (u : Pages) (ys : List ℕ) → Listed s xs → Kept s xs u ys → Listed u ys
Kept-Listed s xs u ys l k = record {
  marks = λ x. omega (arith, l.marks x, k.marks x);
  bounds = k.bounds;
}

pub occ-two :
    (x d v : ℕ) (pre r : List ℕ)
    → occ x (pre ++ (d ∷ v ∷ r))
      ≡ occ x pre + occ x r + (if x == d then 1 else 0) + (if x == v then 1 else 0)
unfolding occ
occ-two x d v pre r = ground (arith, occ-append x pre (d ∷ v ∷ r))

pub occ-one :
    (x d : ℕ) (pre r : List ℕ)
    → occ x (pre ++ (d ∷ r)) ≡ occ x pre + occ x r + (if x == d then 1 else 0)
unfolding occ
occ-one x d pre r = ground (arith, occ-append x pre (d ∷ r))

pub ==_sym : (x y : ℕ) → (x == y) ≡ (y == x)
==_sym x y = ground arith

occ_eq : (x d : ℕ) (xs : List ℕ) → x ≡ d → occ x xs ≡ occ d xs
occ_eq x d xs e = ap (λ z. occ z xs) e

pub occ_at : (x e : ℕ) (xs : List ℕ) → (x == e) ≡ true → occ x xs ≡ occ e xs
occ_at x e xs h = occ_eq x e xs (ground (arith, h, ==_iff x e))

-- One element takes in the next one of the list.
pub merge_step :
    (s : Pages) (pre : List ℕ) (d v : ℕ) (r : List ℕ)
    → Listed s (pre ++ (d ∷ v ∷ r))
    → adjoins s d v ≡ true
    → Kept s (pre ++ (d ∷ v ∷ r)) (merged s d v) (pre ++ (d ∷ r))
unfolding held
merge_step s pre d v r l e =
    let total = λ (x : ℕ). occ-two x d v pre r in
    let left = λ (x : ℕ). occ-one x d pre r in
    let once : (occ d pre ≡ 0) × (occ d r ≡ 0) × ((d == v) ≡ false) =
      ground (arith, total d, l.marks d) in
    let at_d : (0 < s.start d) × (s.start d + s.length d < 257) =
      l.bounds d (ground (arith, total d)) in
    let at_v : (0 < s.start v) × (s.start v + s.length v < 257) =
      l.bounds v (ground (arith, total v)) in
    let meets : s.start d + s.length d ≡ s.start v = ground (arith, e) in
    let size : (s.length d + s.length v) % 256 ≡ s.length d + s.length v = omega arith in
    let ln = update s.length d ((s.length d + s.length v) % 256) in
    let same_pre = λ (p : ℕ).
      held-same s.start s.length s.start ln pre p
        (λ x i. (refl, ground (arith, once, i, ==_iff d x, occ_eq x d pre))) in
    let same_r = λ (p : ℕ).
      held-same s.start s.length s.start ln r p
        (λ x i. (refl, ground (arith, once, i, ==_iff d x, occ_eq x d r))) in
    record {
      pages = λ p. ground (
        arith,
        held-append s.start ln pre (d ∷ r) p,
        held-append s.start s.length pre (d ∷ v ∷ r) p,
        same_pre p,
        same_r p,
        once,
        size,
        meets,
      );
      start = refl;
      outside = λ x h. ground (arith, total x, h);
      fewer = λ x. ground (arith, total x, left x);
      marks = λ x. ground (arith, total x, left x, l.marks x, l.marks v, total v);
      bounds = λ x h. ground (arith, l.bounds x, total x, left x, h, size, meets, at_d, at_v);
      free = refl;
      alloc = refl;
    }

pub if_Kept :
    (b : Bool) (s : Pages) (xs : List ℕ) (u w : Pages × List ℕ)
    → (b ≡ true → Kept s xs u.0 u.1)
    → (b ≡ false → Kept s xs w.0 w.1)
    → Kept s xs (if b then u else w).0 (if b then u else w).1
if_Kept true s xs u w h k = h refl
if_Kept false s xs u w h k = k refl

pub merge_next-Kept :
    (s : Pages) (pre : List ℕ) (d : ℕ) (r : List ℕ)
    → Listed s (pre ++ (d ∷ r))
    → Kept s (pre ++ (d ∷ r)) (merge_next s pre d r).0 (merge_next s pre d r).1
unfolding merge_next
merge_next-Kept s pre d [] l = Kept-refl s (pre ++ (d ∷ [])) l
merge_next-Kept s pre d (v ∷ r) l =
    if_Kept (adjoins s d v) s (pre ++ (d ∷ v ∷ r)) (merged s d v, pre ++ (d ∷ r))
      (s, pre ++ (d ∷ v ∷ r)) (λ e. merge_step s pre d v r l e)
      (λ e. Kept-refl s (pre ++ (d ∷ v ∷ r)) l)
