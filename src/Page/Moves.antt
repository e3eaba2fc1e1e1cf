-- ===== src/Page/Moves.antt =====
-- Elements that leave a list, and that enter one.
use zakos.Common.{
  ℕ, ◌+◌, ◌<◌, ◌≡◌, ◌≢◌, sym, ap, ◌∙◌, subst, inl, inr, Bool, false, List, [], ◌∷◌, ◌==◌, arith,
  Bool-cases, occ, without, occ-without,
}
use zakos.Page.{Pages, attach, attach_alloc}
use zakos.Page.Cover.{covers, held, held-without, held-same, Disjoint, Open, swap_lists}
use zakos.Page.Merge.{Listed, marked, occ_at}
use zakos.Page.Attach.{attach-Attached}

pub leave :
    (st ln : ℕ → ℕ) (used : ℕ → Bool) (e : ℕ) (xs ys es : List ℕ)
    → Disjoint st ln used xs ys es
    → occ e xs ≢ 0
    → Disjoint st ln used (without e xs) ys (e ∷ es)
unfolding held occ
leave st ln used e xs ys es v h = record {
  apart = λ p. ground (arith, v.apart p, held-without st ln e xs p h);
  bounds = λ x i. ground (arith, v.bounds x, occ-without x e xs, h, occ_at x e xs);
  marks = λ x. ground (arith, v.marks x, occ-without x e xs, h, occ_at x e xs);
}

-- What page_element_attach to the list `xs` leaves: its pages grow, all others stay.
pub record Entered (s : Pages) (e : ℕ) (xs ys es : List ℕ) (a : Pages × List ℕ) : Type 0 where
  pub disjoint : Disjoint a.0.start a.0.length a.0.used a.1 ys es
  pub grown :
      (p : ℕ)
      → held a.0.start a.0.length a.1 p ≡ held s.start s.length xs p + covers s.start s.length e p
  pub others : (p : ℕ) → held a.0.start a.0.length ys p ≡ held s.start s.length ys p
  pub rest :
      (x : ℕ) → occ x ys + occ x es ≢ 0 → (a.0.start x ≡ s.start x) × (a.0.length x ≡ s.length x)
  pub unmarked : (x : ℕ) → marked s x ≡ 0 → marked a.0 x ≡ 0
  pub free : a.0.free ≡ s.free
  pub alloc : a.0.alloc ≡ s.alloc

pub enter :
    (s : Pages) (e : ℕ) (xs ys es : List ℕ)
    → Disjoint s.start s.length s.used xs ys (e ∷ es)
    → Entered s e xs ys es (attach s e xs)
unfolding held occ
enter s e xs ys es v =
    let listed : Listed s xs = record {
      marks = λ x. ground (arith, v.marks x);
      bounds = λ x h. v.bounds x (ground (arith, h));
    } in
    let once : (occ e xs ≡ 0) × (occ e ys ≡ 0) × (occ e es ≡ 0) × (marked s e ≡ 1) =
      ground (arith, v.marks e) in
    let fits : (0 < s.start e) × (s.start e + s.length e < 257) = v.bounds e (ground arith) in
    let a = attach-Attached s e xs listed once.0 once.3 fits in
    let u = (attach s e xs).0 in
    let out = λ (x : ℕ) (i : occ x ys + occ x es ≢ 0).
      let o : (occ x xs ≡ 0) × ((e == x) ≡ false) = ground (arith, v.marks x, v.marks e, i) in o in
    let rest = λ (x : ℕ) (i : occ x ys + occ x es ≢ 0).
      let o : (u.start x ≡ s.start x) × (u.length x ≡ s.length x) =
        (ap (λ z. z x) a.start, a.outside x (out x i).0 (out x i).1) in
      o in
    let same_ys =
      λ (p : ℕ). held-same s.start s.length u.start u.length ys p (λ x i. rest x (omega arith)) in
    let same_es =
      λ (p : ℕ). held-same s.start s.length u.start u.length es p (λ x i. rest x (omega arith)) in
    record {
      disjoint = record {
        apart = λ p. ground (arith, v.apart p, a.pages p, same_ys p, same_es p);
        bounds = λ x h. elim (Bool-cases (occ x ys + occ x es == 0)) [
          | inl none ↦ a.bounds x (ground (arith, none, h))
          | inr other ↦
              let i : occ x ys + occ x es ≢ 0 = ground (arith, other) in
              let r = rest x i in rw (r.0, r.1) (v.bounds x (ground (arith, i)))
        ];
        marks = λ x. ground (arith, v.marks x, a.marks x);
      };
      grown = a.pages;
      others = same_ys;
      rest = rest;
      unmarked = λ x h. ground (arith, a.marks x, a.fewer x, v.marks x, h);
      free = a.free;
      alloc = a.alloc;
    }

-- After page_element_attach to the list of the allocated elements.
pub record Taken (w : Pages) (e : ℕ) (es : List ℕ) (u : Pages) : Type 0 where
  pub opened : Open u es
  pub free : (p : ℕ) → held u.start u.length u.free p ≡ held w.start w.length w.free p
  pub alloc :
      (p : ℕ)
      → held u.start u.length u.alloc p
        ≡ held w.start w.length w.alloc p + covers w.start w.length e p
  pub rest : (x : ℕ) → occ x es ≢ 0 → (u.start x ≡ w.start x) × (u.length x ≡ w.length x)
  pub unmarked : (x : ℕ) → marked w x ≡ 0 → marked u x ≡ 0

pub enter_alloc :
    (w : Pages) (e : ℕ) (es : List ℕ) → Open w (e ∷ es) → Taken w e es (attach_alloc w e)
enter_alloc w e es d =
    let u = attach_alloc w e in
    let k = enter w e w.alloc w.free es (swap_lists _ _ _ _ _ _ d) in
    let back = λ (p : ℕ). ap (λ z. held u.start u.length z p) k.free in
    record {
      opened =
          subst (λ z. Disjoint u.start u.length u.used z u.alloc es) (sym k.free)
            (swap_lists _ _ _ _ _ _ k.disjoint);
      free = λ p. back p ∙ k.others p;
      alloc = k.grown;
      rest = λ x h. k.rest x (omega (arith, h));
      unmarked = k.unmarked;
    }

-- The same for the list of the free elements.
pub record Returned (w : Pages) (e : ℕ) (u : Pages) : Type 0 where
  pub valid : Open u []
  pub free :
      (p : ℕ)
      → held u.start u.length u.free p
        ≡ held w.start w.length w.free p + covers w.start w.length e p
  pub alloc : (p : ℕ) → held u.start u.length u.alloc p ≡ held w.start w.length w.alloc p

abbrev pub attach_free : Pages → ℕ → Pages
attach_free s e = let a = attach s e s.free in record a.0 { free = a.1 }

pub enter_free : (w : Pages) (e : ℕ) → Open w (e ∷ []) → Returned w e (attach_free w e)
enter_free w e d =
    let u = attach_free w e in
    let k = enter w e w.free w.alloc [] d in
    let back = λ (p : ℕ). ap (λ z. held u.start u.length z p) k.alloc in
    record {
      valid = subst (λ z. Disjoint u.start u.length u.used u.free z []) (sym k.alloc) k.disjoint;
      free = k.grown;
      alloc = λ p. back p ∙ k.others p;
    }
