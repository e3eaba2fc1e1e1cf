-- ===== src/Common/Arrays.antt =====
-- A C array as a function from indices to contents. A theorem about its bounds says which
-- entries an operation may write; `count` compares two arrays as multisets.
use Prim.Native.Nat.{ℕ, zero, suc, ◌+◌, ◌-◌, ◌≤◌, ◌<◌}
use mathlib.Core.Path.{◌≡◌, refl, ap, ◌∙◌}
use mathlib.Core.Bool.{Bool}
use mathlib.Core.List.{List, [], ◌∷◌, ◌++◌}
use mathlib.Core.Option.{Option, none, some}
use native.Mathlib.Omega.{arith}
use zakos.Common.Tests.{◌==◌, if◌then◌else◌}

module _ {ℓ} {A : Type ℓ} where
  abbrev pub length : List A → ℕ
  length [] = 0
  length (x ∷ xs) = suc (length xs)

  abbrev pub get_elem? : List A → ℕ → Option A
  get_elem? [] i = none
  get_elem? (x ∷ xs) zero = some x
  get_elem? (x ∷ xs) (suc i) = get_elem? xs i

  abbrev pub set : List A → ℕ → A → List A
  set [] i v = []
  set (x ∷ xs) zero v = v ∷ xs
  set (x ∷ xs) (suc i) v = x ∷ set xs i v

  pub length-append : (xs ys : List A) → length (xs ++ ys) ≡ length xs + length ys
  length-append [] ys = omega arith
  length-append (x ∷ xs) ys = omega (arith, length-append xs ys)

  abbrev pub take : ℕ → List A → List A
  take zero xs = []
  take (suc n) [] = []
  take (suc n) (x ∷ xs) = x ∷ take n xs

  abbrev pub drop : ℕ → List A → List A
  drop zero xs = xs
  drop (suc n) [] = []
  drop (suc n) (x ∷ xs) = drop n xs

  pub length-drop : (n : ℕ) (xs : List A) → length (drop n xs) ≡ length xs - n
  length-drop zero xs = omega arith
  length-drop (suc n) [] = omega arith
  length-drop (suc n) (x ∷ xs) = omega (arith, length-drop n xs)

  pub drop-append : (n : ℕ) (xs ys : List A) → n ≤ length xs → drop n (xs ++ ys) ≡ drop n xs ++ ys
  drop-append zero xs ys h = refl
  drop-append (suc n) [] ys h = absurd (omega arith)
  drop-append (suc n) (x ∷ xs) ys h = drop-append n xs ys (omega arith)

  pub drop-drop : (n m : ℕ) (xs : List A) → drop n (drop m xs) ≡ drop (m + n) xs
  drop-drop n zero xs = ap (λ k. drop k xs) (omega arith)
  drop-drop n (suc m) [] = drop-nil n (suc m + n)
    where
      drop-nil : (i j : ℕ) → drop i [] ≡ drop j []
      drop-nil zero zero = refl
      drop-nil zero (suc j) = refl
      drop-nil (suc i) zero = refl
      drop-nil (suc i) (suc j) = refl
  drop-drop n (suc m) (x ∷ xs) =
      (let e : suc (m + n) ≡ suc m + n = omega arith in
        drop-drop n m xs ∙ ap (λ k. drop k (x ∷ xs)) e)

  -- `a[i] = v`
  abbrev pub update : (ℕ → A) → ℕ → A → ℕ → A
  update a i v j = if i == j then v else a j

  -- how many of the entries 0 .. n-1 pass the test
  abbrev pub count : (A → Bool) → (ℕ → A) → ℕ → ℕ
  count p a zero = 0
  count p a (suc n) = count p a n + (if p (a n) then 1 else 0)

  -- A write at or past the end changes no count.
  pub count-update_outside :
      (p : A → Bool) (a : ℕ → A) (i : ℕ) (v : A) (n : ℕ)
      → n < suc i
      → count p (update a i v) n ≡ count p a n
  count-update_outside p a i v zero h = refl
  count-update_outside p a i v (suc n) h = ground (arith, count-update_outside p a i v n)

  -- A write trades the old entry for the new one.
  pub count-update :
      (p : A → Bool) (a : ℕ → A) (i : ℕ) (v : A) (n : ℕ)
      → i < n
      → count p (update a i v) n + (if p (a i) then 1 else 0) ≡ count p a n + (if p v then 1 else 0)
  count-update p a i v zero h = absurd (omega arith)
  count-update p a i v (suc n) h =
      ground (arith, count-update p a i v n, count-update_outside p a i v n)

  unfoldable pub swap : (ℕ → A) → ℕ → ℕ → ℕ → A
  swap a i j = update (update a i (a j)) j (a i)

  pub swap_at :
      (a : ℕ → A) (i j k : ℕ) → swap a i j k ≡ (if j == k then a i else if i == k then a j else a k)
  unfolding swap
  swap_at a i j k = refl

  pub count-swap :
      (p : A → Bool) (a : ℕ → A) (i j n : ℕ) → i < n → j < n → count p (swap a i j) n ≡ count p a n
  unfolding swap
  count-swap p a i j n hi hj =
      ground (arith, count-update p (update a i (a j)) j (a i) n, count-update p a i (a j) n)
