-- ===== src/Fat/Dir/Fields.antt =====
-- The fields of a new directory entry.
use zakos.Common.{
  ℕ, zero, suc, ◌+◌, ◌≤◌, ◌<◌, ◌≡◌, refl, sym, ap, ◌∙◌, inl, inr, List, [], ◌∷◌, ◌==◌, update,
  length, Result, ok, err, arith, Bool-cases,
}
use zakos.Fat.Names.{dot, spaces, fill_fname, fill_extension, skip_dot, entry_name}
use zakos.Fat.Names.Shown.{entry_from}
use zakos.Fat.Entries.{bytes_from, over}

pub bytes_from-same :
    (e g : ℕ → ℕ) (i n m : ℕ)
    → i + n ≤ m
    → ((j : ℕ) → j < m → e j ≡ g j)
    → bytes_from e i n ≡ bytes_from g i n
bytes_from-same e g i zero m h s = refl
bytes_from-same e g i (suc n) m h s =
    ap (λ z. z ∷ bytes_from e (i + 1) n) (s i (omega (arith, h)))
    ∙ ap (λ z. g i ∷ z) (bytes_from-same e g (i + 1) n m (omega (arith, h)) s)

-- A field outside the bytes that are written.
bytes_from-update :
    (e : ℕ → ℕ) (i c j n : ℕ) → i < j → bytes_from (update e i c) j n ≡ bytes_from e j n
bytes_from-update e i c j zero h = refl
bytes_from-update e i c j (suc n) h =
    ap (λ z. z ∷ bytes_from (update e i c) (j + 1) n) (ground (arith, h))
    ∙ ap (λ z. e j ∷ z) (bytes_from-update e i c (j + 1) n (omega (arith, h)))

pub bytes_from-behind :
    (l : List ℕ) (e : ℕ → ℕ) (i j n : ℕ)
    → i + length l ≤ j
    → bytes_from (over l i e) j n ≡ bytes_from e j n
bytes_from-behind [] e i j n h = refl
bytes_from-behind (c ∷ r) e i j n h =
    bytes_from-update (over r (i + 1) e) i c j n (omega (arith, h))
    ∙ bytes_from-behind r e (i + 1) j n (omega (arith, h))

-- The bytes that are written.
pub bytes_from-over : (l : List ℕ) (e : ℕ → ℕ) (i : ℕ) → bytes_from (over l i e) i (length l) ≡ l
bytes_from-over [] e i = refl
bytes_from-over (c ∷ r) e i =
    ap (λ z. z ∷ bytes_from (over (c ∷ r) i e) (i + 1) (length r)) (ground arith)
    ∙ ap (λ z. c ∷ z)
        (bytes_from-update (over r (i + 1) e) i c (i + 1) (length r) (omega arith)
          ∙ bytes_from-over r e (i + 1))

pub over-behind : (l : List ℕ) (e : ℕ → ℕ) (i j : ℕ) → i + length l ≤ j → over l i e j ≡ e j
over-behind [] e i j h = refl
over-behind (c ∷ r) e i j h = ground (arith, h, over-behind r e (i + 1) j (omega (arith, h)))

length-spaces : (k : ℕ) → length (spaces k) ≡ k
unfolding spaces
length-spaces zero = refl
length-spaces (suc k) = omega (arith, length-spaces k)

pub length-fill_fname : (up : ℕ → ℕ) (k : ℕ) (name : List ℕ) → length (fill_fname up k name).0 ≡ k
unfolding fill_fname
length-fill_fname up zero name = refl
length-fill_fname up (suc k) [] = length-spaces (suc k)
length-fill_fname up (suc k) (c ∷ name) = elim (Bool-cases (c == dot)) [
  | inl e ↦ rw e (length-spaces (suc k))
  | inr e ↦ rw e (omega (arith, length-fill_fname up k name))
]

length-fill_extension :
    (up : ℕ → ℕ) (k : ℕ) (name : List ℕ) → length (fill_extension up k name).0 ≡ k
unfolding fill_extension
length-fill_extension up zero name = refl
length-fill_extension up (suc k) [] = length-spaces (suc k)
length-fill_extension up (suc k) (c ∷ name) = omega (arith, length-fill_extension up k name)

pub length-skip_dot : (up : ℕ → ℕ) (name : List ℕ) → length (skip_dot up name).0 ≡ 3
unfolding skip_dot
length-skip_dot up [] = length-spaces 3
length-skip_dot up (c ∷ name) = elim (Bool-cases (c == dot)) [
  | inl e ↦ rw e (length-fill_extension up 3 name)
  | inr e ↦ rw e (length-spaces 3)
]

-- The fields that fat_op_create fills.
fields_of :
    (fname extension rest f e : List ℕ)
    → entry_from fname (extension, rest) ≡ ok (f, e)
    → (f ≡ fname) × (e ≡ extension)
fields_of fname extension [] f e h = (
  ap (λ (r : Result (List ℕ × List ℕ)). elim r [ ok q ↦ q.0 | err _ ↦ fname ]) (sym h),
  ap (λ (r : Result (List ℕ × List ℕ)). elim r [ ok q ↦ q.1 | err _ ↦ fname ]) (sym h),
)
fields_of fname extension (c ∷ r) f e h = absurd cc

pub entry_name-fields :
    (up : ℕ → ℕ) (name f e : List ℕ)
    → entry_name up name ≡ ok (f, e)
    → (f ≡ (fill_fname up 8 name).0) × (e ≡ (skip_dot up (fill_fname up 8 name).1).0)
unfolding entry_name
entry_name-fields up name f e h =
    let p = fill_fname up 8 name in let q = skip_dot up p.1 in fields_of p.0 q.0 q.1 f e h
