-- ===== src/Fs/Path.antt =====
-- Paths in kernel/fs/fs.c: fs_namecmp and fs_path_next.
use zakos.Common.{
  ℕ, ◌<◌, ◌≤◌, ◌≡◌, ◌≢◌, ◌↔◌, refl, ap, ◌∙◌, inl, inr, Bool, true, false, List, [], ◌∷◌, ◌==◌,
  if◌then◌else◌, length, arith, Bool-cases, ==_iff,
}
use zakos.Fs.{slash, namecmp, is_tail, skip_name, skip_slashes, path_next}

-- The first name of a path.
pub component : List ℕ → List ℕ
component [] = []
component (x ∷ path) = let rest = component path in if x == slash then [] else x ∷ rest

-- Whether a path starts with '/'.
abbrev pub starts : List ℕ → Bool
starts [] = false
starts (x ∷ path) = x == slash

abbrev head_of : List ℕ → ℕ
head_of [] = 0
head_of (x ∷ path) = x

abbrev tail_of : List ℕ → List ℕ
tail_of [] = []
tail_of (x ∷ path) = path

pub skip_slashes-starts : (path : List ℕ) → starts (skip_slashes path) ≡ false
unfolding skip_slashes
skip_slashes-starts [] = refl
skip_slashes-starts (x ∷ path) = elim (Bool-cases (x == slash)) [
  | inl more ↦ rw more (skip_slashes-starts path)
  | inr other ↦ rw other other
]

pub skip_slashes-length : (path : List ℕ) → length (skip_slashes path) ≤ length path
unfolding skip_slashes
skip_slashes-length [] = omega arith
skip_slashes-length (x ∷ path) = elim (Bool-cases (x == slash)) [
  | inl more ↦ rw more (omega (arith, skip_slashes-length path))
  | inr other ↦ rw other (omega arith)
]

skip_name-length : (path : List ℕ) → length (skip_name path) ≤ length path
unfolding skip_name
skip_name-length [] = omega arith
skip_name-length (x ∷ path) = elim (Bool-cases (x == slash)) [
  | inl end ↦ rw end (omega arith)
  | inr other ↦ rw other (omega (arith, skip_name-length path))
]

-- A round over a path that does not start with '/' takes something away from it.
pub path_next-length :
    (x : ℕ) (path : List ℕ) → (x == slash) ≡ false → length (path_next (x ∷ path)) ≤ length path
unfolding skip_name
path_next-length x path h =
    rw h (omega (arith, skip_slashes-length (skip_name path), skip_name-length path))

-- A path in which a name was found is not at its end.
pub namecmp-length :
    (path name : List ℕ)
    → starts path ≡ false
    → namecmp path name ≡ true
    → length name ≢ 0
    → length (path_next path) < length path
unfolding namecmp
namecmp-length [] [] h e some_name = absurd (some_name refl)
namecmp-length [] (c ∷ name) h e some_name = ground (arith, e)
namecmp-length (x ∷ path) name h e some_name = omega (arith, path_next-length x path h)

-- A name without '/' matches a path just if it is the first name of the path.
pub namecmp-component :
    (path name : List ℕ)
    → is_tail name ≡ true
    → (namecmp path name ≡ true) ↔ (component path ≡ name)
unfolding namecmp component is_tail
namecmp-component [] [] h = (λ e. refl, λ e. refl)
namecmp-component [] (c ∷ name) h =
    (λ e. ground (arith, e), λ e. absurd (omega (arith, ap length e)))
namecmp-component (x ∷ path) [] h = elim (Bool-cases (x == slash)) [
  | inl end ↦ rw end (λ e. refl, λ e. refl)
  | inr other ↦ rw other (λ e. ground (arith, e), λ e. absurd (omega (arith, ap length e)))
]
namecmp-component (x ∷ path) (c ∷ name) h =
    let plain : ((c == slash) ≡ false) × (is_tail name ≡ true) = ground (arith, h) in
    let (there, back) = namecmp-component path name plain.1 in
    elim (Bool-cases (x == slash)) [
      | inl end ↦
          let other : (x == c) ≡ false = ground (arith, end, plain) in
          rw (end, other) (λ e. ground (arith, e), λ e. absurd (omega (arith, ap length e)))
      | inr in_name ↦ rw in_name (
        (λ e.
            let same : x ≡ c = ground (arith, e, ==_iff x c) in
            let rest : namecmp path name ≡ true = ground (arith, e) in
            ap (λ z. z ∷ component path) same ∙ ap (λ z. c ∷ z) (there rest)),
        (λ e.
            let same : x ≡ c = ap head_of e in
            let here : (x == c) ≡ true = ground (arith, same, ==_iff x c) in
            rw here (back (ap tail_of e))),
      )
    ]
