-- ===== src/Page/Attach.antt =====
-- page_element_attach: no page is lost, and no element.
use zakos.Common.{
  ℕ, ◌+◌, ◌<◌, ◌≤◌, ◌≡◌, ◌≢◌, refl, sym, ap, ◌∙◌, subst, inl, inr, false, none, some, List, [], ◌∷◌,
  ◌++◌, ltb, ◌==◌, if◌then◌else◌, ◌⊎◌, arith, Bool-cases, occ, ==_iff,
}
use mathlib.Core.List.{append_assoc}
use zakos.Page.{Pages, adjoins, merged, place, merge_next, attach}
use zakos.Page.Cover.{covers, held, held-append}
use zakos.Page.Merge.{
  marked, Kept, Listed, Kept-trans, Kept-Listed, occ-two, occ-one, ==_sym, merge_step, if_Kept,
  merge_next-Kept,
}

place_lem :
    (s : Pages) (e : ℕ) (xs : List ℕ)
    → (place s e xs ≡ none)
      ⊎ ((pre : List ℕ) × (it : ℕ) × (r : List ℕ) × (place s e xs ≡ some (pre, it, r))
          × (xs ≡ pre ++ (it ∷ r)))
unfolding place
place_lem s e [] = inl refl
place_lem s e (x ∷ xs) = elim (Bool-cases (ltb (s.start e) (s.start x))) [
  | inr here ↦ inr ([], x, xs, rw here refl, refl)
  | inl on ↦ elim (place_lem s e xs) [
    | inl miss ↦ inl (rw (on, miss) refl)
    | inr (pre, it, r, hit, eq) ↦ inr (x ∷ pre, it, r, rw (on, hit) refl, ap (λ z. x ∷ z) eq)
  ]
]

-- What page_element_attach of a new element leaves: its pages are added to those of the list.
pub record Attached (s : Pages) (e : ℕ) (xs : List ℕ) (u : Pages) (ys : List ℕ) : Type 0 where
  pub pages :
      (p : ℕ)
      → held u.start u.length ys p ≡ held s.start s.length xs p + covers s.start s.length e p
  pub start : u.start ≡ s.start
  pub outside : (x : ℕ) → occ x xs ≡ 0 → (e == x) ≡ false → u.length x ≡ s.length x
  pub fewer : (x : ℕ) → occ x ys ≤ occ x xs + (if e == x then 1 else 0)
  pub marks : (x : ℕ) → occ x ys + marked s x ≡ occ x xs + (if e == x then 1 else 0) + marked u x
  pub bounds : (x : ℕ) → occ x ys ≢ 0 → (0 < u.start x) × (u.start x + u.length x < 257)
  pub free : u.free ≡ s.free
  pub alloc : u.alloc ≡ s.alloc

-- A list in which `e` stands beside the elements of `xs`.
record Added (s : Pages) (e : ℕ) (xs zs : List ℕ) : Type 0 where
  pages :
      (p : ℕ)
      → held s.start s.length zs p ≡ held s.start s.length xs p + covers s.start s.length e p
  count : (x : ℕ) → occ x zs ≡ occ x xs + (if e == x then 1 else 0)

Kept-Attached :
    (s : Pages) (e : ℕ) (xs zs : List ℕ) (u : Pages) (ys : List ℕ)
    → Added s e xs zs
    → Kept s zs u ys
    → Attached s e xs u ys
Kept-Attached s e xs zs u ys a k = record {
  pages = λ p. k.pages p ∙ a.pages p;
  start = k.start;
  outside = λ x h other. k.outside x (ground (arith, a.count x, h, other));
  fewer = λ x. ground (arith, a.count x, k.fewer x);
  marks = λ x. ground (arith, a.count x, k.marks x);
  bounds = k.bounds;
  free = k.free;
  alloc = k.alloc;
}

Added-Listed :
    (s : Pages) (e : ℕ) (xs zs : List ℕ)
    → Added s e xs zs
    → Listed s xs
    → occ e xs ≡ 0
    → marked s e ≡ 1
    → (0 < s.start e) × (s.start e + s.length e < 257)
    → Listed s zs
Added-Listed s e xs zs a l out on fits = record {
  marks = λ x.
      ground (
        arith,
        a.count x,
        l.marks x,
        out,
        on,
        ==_iff e x,
        ap (λ z. marked s z),
        ap (λ z. occ z xs),
      );
  bounds = λ x h. elim (Bool-cases (e == x)) [
    | inl same ↦
        let eq : e ≡ x = ground (arith, same, ==_iff e x) in
        subst (λ z. (0 < s.start z) × (s.start z + s.length z < 257)) eq fits
    | inr other ↦ l.bounds x (ground (arith, a.count x, h, other))
  ];
}

behind :
    (s : Pages) (e : ℕ) (xs pre : List ℕ) (it : ℕ) (r : List ℕ)
    → xs ≡ pre ++ (it ∷ r)
    → Added s e xs (pre ++ (it ∷ e ∷ r))
unfolding held
behind s e xs pre it r eq = record {
  pages = λ p. ground (
    arith,
    held-append s.start s.length pre (it ∷ e ∷ r) p,
    held-append s.start s.length pre (it ∷ r) p,
    ap (λ z. held s.start s.length z p) eq,
  );
  count = λ x. ground (arith, occ-two x it e pre r, occ-one x it pre r, ap (occ x) eq, ==_sym e x);
}

-- page_element_attach of an element that is marked and in no list.
pub attach-Attached :
    (s : Pages) (e : ℕ) (xs : List ℕ)
    → Listed s xs
    → occ e xs ≡ 0
    → marked s e ≡ 1
    → (0 < s.start e) × (s.start e + s.length e < 257)
    → Attached s e xs (attach s e xs).0 (attach s e xs).1
unfolding attach held occ
attach-Attached s e xs l out on fits = elim (place_lem s e xs) [
  | inl miss ↦
      let added : Added s e xs (e ∷ xs) = record {
        pages = λ p. omega arith;
        count = λ x. ground arith;
      } in
      rw (miss, attach)
        (Kept-Attached s e xs (e ∷ xs) _ _ added
          (merge_next-Kept s [] e xs (Added-Listed s e xs (e ∷ xs) added l out on fits)))
  | inr (pre, it, r, hit, eq) ↦
      let zs = pre ++ (it ∷ e ∷ r) in
      let added = behind s e xs pre it r eq in
      let l' = Added-Listed s e xs zs added l out on fits in
      rw (hit, attach)
        (Kept-Attached s e xs zs _ _ added (
          if_Kept (adjoins s it e) s zs (merge_next (merged s it e) pre it r)
            (merge_next s (pre ++ (it ∷ [])) e r)
            (λ b.
              let k = merge_step s pre it e r l' b in
              Kept-trans s zs (merged s it e) (pre ++ (it ∷ r)) _ _ k
                (merge_next-Kept (merged s it e) pre it r (Kept-Listed s zs _ _ l' k)))
            (λ b.
              let assoc : (pre ++ (it ∷ [])) ++ (e ∷ r) ≡ zs = append_assoc pre (it ∷ []) (e ∷ r) in
              subst
                (λ z.
                  Kept s z (merge_next s (pre ++ (it ∷ [])) e r).0
                    (merge_next s (pre ++ (it ∷ [])) e r).1)
                assoc
                (merge_next-Kept s (pre ++ (it ∷ [])) e r (subst (Listed s) (sym assoc) l')))))
]
