-- ===== src/Ring/Segment.antt =====
-- A part of a cyclic list: members in their order between two others.
use zakos.Common.{
  last_of, occ-last_of, ℕ, ◌≤◌, ◌≡◌, ◌≢◌, ap, ◌∙◌, false, List, [], ◌∷◌, ◌++◌, ◌==◌, occ, arith,
  ==_iff,
}

-- Each of `p`, `xs`, `n` is linked with the one behind it, both ways.
abbrev pub Seg : (ℕ → ℕ) → (ℕ → ℕ) → ℕ → List ℕ → ℕ → Type 0
Seg next prev p [] n = (next p ≡ n) × (prev n ≡ p)
Seg next prev p (x ∷ xs) n = (next p ≡ x) × (prev x ≡ p) × Seg next prev x xs n

pub prev-last_of :
    (next prev : ℕ → ℕ) (p : ℕ) (xs : List ℕ) (n : ℕ) → Seg next prev p xs n → prev n ≡ last_of p xs
prev-last_of next prev p [] n g = g.1
prev-last_of next prev p (x ∷ xs) n g = prev-last_of next prev x xs n g.2

-- Links elsewhere do not matter: `next` is read at `p` and `xs`, `prev` at `xs` and `n`.
pub Seg-same :
    (next prev next' prev' : ℕ → ℕ) (p : ℕ) (xs : List ℕ) (n : ℕ)
    → Seg next prev p xs n
    → ((y : ℕ) → occ y (p ∷ xs) ≢ 0 → next' y ≡ next y)
    → ((y : ℕ) → occ y (n ∷ xs) ≢ 0 → prev' y ≡ prev y)
    → Seg next' prev' p xs n
unfolding occ
Seg-same next prev next' prev' p [] n g a b = (a p (ground arith) ∙ g.0, b n (ground arith) ∙ g.1)
Seg-same next prev next' prev' p (x ∷ xs) n g a b = (
  a p (ground arith) ∙ g.0,
  b x (ground arith) ∙ g.1,
  Seg-same next prev next' prev' x xs n g.2 (λ y h. a y (ground (arith, h)))
      (λ y h. b y (ground (arith, h))),
)

-- Two parts that meet are one.
pub Seg-append :
    (next prev : ℕ → ℕ) (p : ℕ) (xs : List ℕ) (m : ℕ) (ys : List ℕ) (n : ℕ)
    → Seg next prev p xs m
    → Seg next prev m ys n
    → Seg next prev p (xs ++ (m ∷ ys)) n
Seg-append next prev p [] m ys n g h = (g.0, g.1, h)
Seg-append next prev p (x ∷ xs) m ys n g h = (g.0, g.1, Seg-append next prev x xs m ys n g.2 h)

pub Seg-split :
    (next prev : ℕ → ℕ) (p : ℕ) (xs : List ℕ) (m : ℕ) (ys : List ℕ) (n : ℕ)
    → Seg next prev p (xs ++ (m ∷ ys)) n
    → Seg next prev p xs m × Seg next prev m ys n
Seg-split next prev p [] m ys n g = ((g.0, g.1), g.2)
Seg-split next prev p (x ∷ xs) m ys n g =
    let (a, b) = Seg-split next prev x xs m ys n g.2 in ((g.0, g.1, a), b)

-- The one behind a part becomes another: `n` is left out, and the last one is tied to `m`.
pub Seg-retarget :
    (next prev next' prev' : ℕ → ℕ) (p : ℕ) (xs : List ℕ) (n m : ℕ)
    → Seg next prev p xs n
    → ((y : ℕ) → occ y (p ∷ xs) ≤ 1)
    → ((y : ℕ) → occ y (p ∷ xs) ≢ 0 → (y == last_of p xs) ≡ false → next' y ≡ next y)
    → next' (last_of p xs) ≡ m
    → ((y : ℕ) → occ y xs ≢ 0 → prev' y ≡ prev y)
    → prev' m ≡ last_of p xs
    → Seg next' prev' p xs m
unfolding occ
Seg-retarget next prev next' prev' p [] n m g one a at b back = (at, back)
Seg-retarget next prev next' prev' p (x ∷ xs) n m g one a at b back =
    let apart : (p == last_of x xs) ≡ false = ground (
      arith,
      one p,
      occ-last_of x xs,
      ==_iff p (last_of x xs),
      ap (λ z. occ z xs) {x = p} {y = last_of x xs},
    ) in
    (
      a p (ground arith) apart ∙ g.0,
      b x (ground arith) ∙ g.1,
      Seg-retarget next prev next' prev' x xs n m g.2 (λ y. ground (arith, one y))
          (λ y h k. a y (ground (arith, h)) k) at (λ y h. b y (ground (arith, h))) back,
    )
