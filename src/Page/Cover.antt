-- ===== src/Page/Cover.antt =====
-- The pages that the elements of a list stand for.
use zakos.Common.{
  ℕ, ◌+◌, ◌<◌, ◌≤◌, ◌≡◌, ◌≢◌, refl, ap, inl, inr, Bool, ◌&&◌, List, [], ◌∷◌, ◌++◌, ltb, leb, ◌==◌,
  if◌then◌else◌, arith, Bool-cases, occ, without, ==_iff,
}
use zakos.Page.{Pages}

-- Whether a page belongs to an element, as a number.
abbrev pub covers : (ℕ → ℕ) → (ℕ → ℕ) → ℕ → ℕ → ℕ
covers st ln e p = if leb (st e) p && ltb p (st e + ln e) then 1 else 0

-- How many elements of a list a page belongs to.
unfoldable pub held : (ℕ → ℕ) → (ℕ → ℕ) → List ℕ → ℕ → ℕ
held st ln [] p = 0
held st ln (e ∷ r) p = covers st ln e p + held st ln r p

-- The page belongs to a range.
abbrev pub in_range : ℕ → ℕ → ℕ → ℕ
in_range from n p = if leb from p && ltb p (from + n) then 1 else 0

module _ (st ln : ℕ → ℕ) where
  pub held-append :
      (xs ys : List ℕ) (p : ℕ) → held st ln (xs ++ ys) p ≡ held st ln xs p + held st ln ys p
  unfolding held
  held-append [] ys p = omega arith
  held-append (x ∷ xs) ys p = ground (arith, held-append xs ys p)

  pub held-without :
      (e : ℕ) (xs : List ℕ) (p : ℕ)
      → occ e xs ≢ 0
      → held st ln (without e xs) p + covers st ln e p ≡ held st ln xs p
  unfolding held without occ
  held-without e [] p h = absurd (h refl)
  held-without e (x ∷ xs) p h = elim (Bool-cases (e == x)) [
    | inl same ↦
        let eq : e ≡ x = ground (arith, same, ==_iff e x) in
        rw same (ground (arith, ap (λ z. covers st ln z p) eq))
    | inr other ↦ rw other (ground (arith, held-without e xs p, h, other))
  ]

  pub covers-held :
      (e : ℕ) (xs : List ℕ) (p : ℕ) → occ e xs ≢ 0 → covers st ln e p ≤ held st ln xs p
  covers-held e xs p h = omega (arith, held-without e xs p h)

-- Only the fields of the elements in the list matter.
pub held-same :
    (st ln st' ln' : ℕ → ℕ) (xs : List ℕ) (p : ℕ)
    → ((x : ℕ) → occ x xs ≢ 0 → (st' x ≡ st x) × (ln' x ≡ ln x))
    → held st' ln' xs p ≡ held st ln xs p
unfolding held occ
held-same st ln st' ln' [] p h = refl
held-same st ln st' ln' (x ∷ xs) p h =
    let here : (st' x ≡ st x) × (ln' x ≡ ln x) = h x (ground arith) in
    let rest = held-same st ln st' ln' xs p (λ y i. h y (ground arith)) in
    rw (here.0, here.1, rest) refl

-- Two lists of elements, and the elements `es` that are between them: no page is held twice,
-- every element is marked, and no sum of bytes passes 256.
pub record Disjoint (st ln : ℕ → ℕ) (used : ℕ → Bool) (xs ys es : List ℕ) : Type 0 where
  pub apart : (p : ℕ) → held st ln xs p + held st ln ys p + held st ln es p ≤ 1
  pub bounds : (e : ℕ) → occ e xs + occ e ys + occ e es ≢ 0 → (0 < st e) × (st e + ln e < 257)
  pub marks : (e : ℕ) → occ e xs + occ e ys + occ e es ≤ (if ltb e 16 && used e then 1 else 0)

pub swap_lists :
    (st ln : ℕ → ℕ) (used : ℕ → Bool) (xs ys es : List ℕ)
    → Disjoint st ln used xs ys es
    → Disjoint st ln used ys xs es
swap_lists st ln used xs ys es v = record {
  apart = λ p. omega (arith, v.apart p);
  bounds = λ e h. v.bounds e (omega arith);
  marks = λ e. omega (arith, v.marks e);
}

abbrev pub Open : Pages → List ℕ → Type 0
Open s es = Disjoint s.start s.length s.used s.free s.alloc es

-- The allocator between two calls.
abbrev pub IsValid : Pages → Type 0
IsValid s = Open s []
