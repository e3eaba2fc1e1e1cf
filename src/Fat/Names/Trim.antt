-- ===== src/Fat/Names/Trim.antt =====
-- fat_op_readdir of fields that are filled up with spaces.
use zakos.Common.{
  ℕ, zero, suc, ◌+◌, ◌≡◌, ◌≢◌, refl, ap, ◌∙◌, false, List, [], ◌∷◌, ◌++◌, ◌==◌, if◌then◌else◌,
  length, take, Result, ok, err, eio, arith, length-append,
}
use zakos.Fat.Names.{space, dot, spaces, trim, shown_name}

-- No character of the field is a space.
abbrev pub Solid : List ℕ → Type 0
Solid [] = Unit {0}
Solid (c ∷ r) = (c ≢ space) × Solid r

trim-spaces : (k : ℕ) → trim (spaces k) ≡ []
unfolding trim spaces
trim-spaces zero = refl
trim-spaces (suc k) = rw (trim-spaces k) refl

-- Spaces behind a solid field go.
trim-Solid : (xs ys : List ℕ) → Solid xs → trim ys ≡ [] → trim (xs ++ ys) ≡ xs
unfolding trim
trim-Solid [] ys s e = e
trim-Solid (c ∷ []) ys s e = rw e (ground (arith, s.0))
trim-Solid (c ∷ d ∷ xs) ys s e = rw (trim-Solid (d ∷ xs) ys s.1 e) refl

-- How a name is shown: its own characters, but for a '.' at the end.
unfoldable pub joined : List ℕ → List ℕ → List ℕ
joined base [] = base
joined base (c ∷ suffix) = base ++ (dot ∷ c ∷ suffix)

take-front : (xs ys : List ℕ) → take (length xs) (xs ++ ys) ≡ xs
take-front [] ys = refl
take-front (x ∷ xs) ys = ap (λ z. x ∷ z) (take-front xs ys)

take-past : (n : ℕ) (xs ys : List ℕ) → take (length xs + n) (xs ++ ys) ≡ xs ++ take n ys
take-past n [] ys = ap (λ k. take k ys) (omega arith)
take-past n (x ∷ xs) ys =
    let split : length (x ∷ xs) + n ≡ suc (length xs + n) = omega arith in
    ap (λ k. take k (x ∷ (xs ++ ys))) split ∙ ap (λ z. x ∷ z) (take-past n xs ys)

spaces-suc : (k : ℕ) → space ∷ spaces k ≡ spaces (suc k)
unfolding spaces
spaces-suc k = refl

trim-cons : (x d : ℕ) (e ys : List ℕ) → trim ys ≡ d ∷ e → trim (x ∷ ys) ≡ x ∷ d ∷ e
unfolding trim
trim-cons x d e ys h = rw h refl

trim-append :
    (xs ys : List ℕ) (z : ℕ) (zs : List ℕ) → trim ys ≡ z ∷ zs → trim (xs ++ ys) ≡ xs ++ (z ∷ zs)
unfolding trim
trim-append [] ys z zs e = e
trim-append (x ∷ []) ys z zs e = rw e refl
trim-append (x ∷ y ∷ xs) ys z zs e = rw (trim-append (y ∷ xs) ys z zs e) refl

-- fat_op_readdir behind its two loops.
abbrev shown_from : List ℕ → List ℕ → List ℕ → Result (List ℕ)
shown_from front all extension =
    let mark = if length all == length front + 1 then space else dot in
    let shown = take (length all) (front ++ (mark ∷ extension)) in
    elim front [ [] ↦ err eio | _ ∷ _ ↦ ok shown ]

-- fat_op_readdir of a name and an extension that are filled up with spaces.
pub shown_name-Solid :
    (c : ℕ) (b e : List ℕ) (j k : ℕ)
    → Solid (c ∷ b)
    → Solid e
    → shown_name ((c ∷ b) ++ spaces j) (e ++ spaces k) ≡ ok (joined (c ∷ b) e)
unfolding shown_name joined
shown_name-Solid c b [] j k sb se =
    let front = trim-Solid (c ∷ b) (spaces j) sb (trim-spaces j) in
    let all = trim-Solid (c ∷ b) (spaces (suc k)) sb (trim-spaces (suc k)) in
    ap (λ z. shown_from z (trim (z ++ (space ∷ spaces k))) (spaces k)) front
    ∙ ap (λ z. shown_from (c ∷ b) z (spaces k)) (ap trim (space_first k) ∙ all)
    ∙ ap ok (take-front (c ∷ b) (marked (length (c ∷ b)) ∷ spaces k))
  where
    marked : ℕ → ℕ
    marked n = if n == length (c ∷ b) + 1 then space else dot

    space_first : (k : ℕ) → (c ∷ b) ++ (space ∷ spaces k) ≡ (c ∷ b) ++ spaces (suc k)
    space_first k = ap (λ z. (c ∷ b) ++ z) (spaces-suc k)
shown_name-Solid c b (d ∷ e) j k sb se =
    let front = trim-Solid (c ∷ b) (spaces j) sb (trim-spaces j) in
    let extension = trim-Solid (d ∷ e) (spaces k) se (trim-spaces k) in
    let all =
      trim-append (c ∷ b) (space ∷ ((d ∷ e) ++ spaces k)) space (d ∷ e)
        (trim-cons space d e ((d ∷ e) ++ spaces k) extension) in
    let long : length ((c ∷ b) ++ (space ∷ d ∷ e)) ≡ length (c ∷ b) + suc (length (d ∷ e)) =
      length-append (c ∷ b) (space ∷ d ∷ e) in
    let marked : (length (c ∷ b) + suc (length (d ∷ e)) == length (c ∷ b) + 1) ≡ false =
      ground arith in
    let cut = λ (n m : ℕ). ok (take n ((c ∷ b) ++ (m ∷ ((d ∷ e) ++ spaces k)))) in
    ap (λ z. shown_from z (trim (z ++ (space ∷ ((d ∷ e) ++ spaces k)))) ((d ∷ e) ++ spaces k)) front
    ∙ ap (λ z. shown_from (c ∷ b) z ((d ∷ e) ++ spaces k)) all
    ∙ ap (λ n. cut n (if n == length (c ∷ b) + 1 then space else dot)) long
    ∙ ap (λ t. cut (length (c ∷ b) + suc (length (d ∷ e))) (if t then space else dot)) marked
    ∙ ap ok (
        take-past (suc (length (d ∷ e))) (c ∷ b) (dot ∷ ((d ∷ e) ++ spaces k))
        ∙ ap (λ z. (c ∷ b) ++ (dot ∷ z)) (take-front (d ∷ e) (spaces k)))
