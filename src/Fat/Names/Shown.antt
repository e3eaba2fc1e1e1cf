-- ===== src/Fat/Names/Shown.antt =====
-- A file that fat_op_create has made is shown under its name.
use zakos.Common.{
  ℕ, zero, suc, ◌≤◌, ◌<◌, ◌≡◌, ◌≢◌, refl, ap, ◌∙◌, ◌⊎◌, inl, inr, false, List, [], ◌∷◌, ◌++◌, map,
  ◌==◌, if◌then◌else◌, length, Result, ok, err, enametoolong, arith, Bool-cases,
}
use zakos.Fat.Names.{dot, spaces, fill_fname, fill_extension, skip_dot, entry_name, shown_name}
use zakos.Fat.Names.Trim.{Solid, joined, shown_name-Solid}

-- The characters before the first '.', and those behind it, if there is one.
unfoldable pub base_of : List ℕ → List ℕ
base_of [] = []
base_of (c ∷ name) = let rest = base_of name in if c == dot then [] else c ∷ rest

unfoldable pub suffix_of : List ℕ → List ℕ
suffix_of [] = []
suffix_of (c ∷ name) = let rest = suffix_of name in if c == dot then name else rest

fill_extension-short :
    (up : ℕ → ℕ) (k : ℕ) (s : List ℕ)
    → length s ≤ k
    → (j : ℕ) × (fill_extension up k s ≡ (map up s ++ spaces j, []))
unfolding fill_extension spaces
fill_extension-short up zero [] h = (0, refl)
fill_extension-short up zero (c ∷ s) h = absurd (omega arith)
fill_extension-short up (suc k) [] h = (suc k, refl)
fill_extension-short up (suc k) (c ∷ s) h =
    let (j, e) = fill_extension-short up k s (omega arith) in (j, rw e refl)

fill_extension-long :
    (up : ℕ → ℕ) (k : ℕ) (s : List ℕ)
    → k < length s
    → (c : ℕ) × (r : List ℕ) × ((fill_extension up k s).1 ≡ c ∷ r)
unfolding fill_extension
fill_extension-long up zero [] h = absurd (omega arith)
fill_extension-long up zero (c ∷ s) h = (c, s, refl)
fill_extension-long up (suc k) [] h = absurd (omega arith)
fill_extension-long up (suc k) (c ∷ s) h = fill_extension-long up k s (omega arith)

fill_fname-short :
    (up : ℕ → ℕ) (k : ℕ) (name : List ℕ)
    → length (base_of name) ≤ k
    → (j : ℕ) × ((fill_fname up k name).0 ≡ map up (base_of name) ++ spaces j)
      × (skip_dot up (fill_fname up k name).1 ≡ fill_extension up 3 (suffix_of name))
unfolding fill_fname base_of suffix_of skip_dot fill_extension spaces
fill_fname-short up zero [] h = (0, refl, refl)
fill_fname-short up zero (c ∷ name) h = elim (Bool-cases (c == dot)) [
  | inl e ↦ rw e (0, refl, refl)
  | inr e ↦ absurd (ground (arith, e, h))
]
fill_fname-short up (suc k) [] h = (suc k, refl, refl)
fill_fname-short up (suc k) (c ∷ name) h = elim (Bool-cases (c == dot)) [
  | inl e ↦ rw e (suc k, refl, rw e refl)
  | inr e ↦
      let (j, field, left) = fill_fname-short up k name (ground (arith, e, h)) in
      rw e (j, ap (λ z. up c ∷ z) field, left)
]

fill_fname-long :
    (up : ℕ → ℕ) (k : ℕ) (name : List ℕ)
    → k < length (base_of name)
    → (c : ℕ) × (r : List ℕ) × (skip_dot up (fill_fname up k name).1 ≡ (spaces 3, c ∷ r))
unfolding fill_fname base_of skip_dot
fill_fname-long up zero [] h = absurd (omega arith)
fill_fname-long up zero (c ∷ name) h =
    let e : (c == dot) ≡ false = ground (arith, h) in (c, name, rw e refl)
fill_fname-long up (suc k) [] h = absurd (omega arith)
fill_fname-long up (suc k) (c ∷ name) h =
    let e : (c == dot) ≡ false = ground (arith, h) in
    let (d, r, rest) = fill_fname-long up k name (ground (arith, h, e)) in (d, r, rw e rest)

Solid-base_of :
    (up : ℕ → ℕ) (name : List ℕ)
    → Solid (map up name)
    → Solid (map up (base_of name)) × Solid (map up (suffix_of name))
unfolding base_of suffix_of
Solid-base_of up [] s = (tt, tt)
Solid-base_of up (c ∷ name) s = elim (Bool-cases (c == dot)) [
  | inl e ↦ rw e (tt, s.1)
  | inr e ↦ let (b, t) = Solid-base_of up name s.1 in rw e ((s.0, b), t)
]

-- fat_op_create behind its loop over the name, and behind both.
abbrev pub entry_from : List ℕ → List ℕ × List ℕ → Result (List ℕ × List ℕ)
entry_from fname p = elim p.1 [ [] ↦ ok (fname, p.0) | _ ∷ _ ↦ err enametoolong ]

-- The name of a new file that does not start with '.', and whose characters toupper does not make
-- spaces. With up to 8 characters before the first '.' and 3 behind it, fat_op_create accepts it,
-- and fat_op_readdir shows the entry under the name in upper case, less a '.' at the end. Any other
-- one fat_op_create refuses with ENAMETOOLONG.
pub entry_name-shown_name :
    (up : ℕ → ℕ) (name : List ℕ)
    → base_of name ≢ []
    → Solid (map up name)
    → ((length (base_of name) ≤ 8)
        × (length (suffix_of name) ≤ 3)
        × ((f : List ℕ) × (e : List ℕ) × (entry_name up name ≡ ok (f, e))
            × (shown_name f e ≡ ok (joined (map up (base_of name)) (map up (suffix_of name))))))
      ⊎ (((8 < length (base_of name)) ⊎ (3 < length (suffix_of name)))
          × (entry_name up name ≡ err enametoolong))
unfolding entry_name
entry_name-shown_name up name front solid =
    let base = base_of name in
    let suffix = suffix_of name in
    let from = λ (p : List ℕ × List ℕ). entry_from (fill_fname up 8 name).0 p in
    let run : entry_name up name ≡ from (skip_dot up (fill_fname up 8 name).1) = refl in
    let (sb, ss) = Solid-base_of up name solid in
    elim (fits (length base) 8) [
      | inr long ↦ let (c, r, e) = fill_fname-long up 8 name long in inr (inl long, run ∙ ap from e)
      | inl short ↦
          let (j, field, left) = fill_fname-short up 8 name short in
          elim (fits (length suffix) 3) [
            | inr long ↦
                let (c, r, e) = fill_extension-long up 3 suffix long in
                inr (
                  inr long,
                  run
                      ∙ ap from left
                      ∙ refused (fill_fname up 8 name).0 (fill_extension up 3 suffix) c r e,
                )
            | inl few ↦
                let (k, e) = fill_extension-short up 3 suffix few in
                inl (
                  short,
                  few,
                  (
                    map up base ++ spaces j,
                    map up suffix ++ spaces k,
                    run ∙ ap from (left ∙ e) ∙ ap (λ z. ok (z, map up suffix ++ spaces k)) field,
                    shows (map up base) (map up suffix) j k (mapped up base front) sb ss,
                  ),
                )
          ]
    ]
  where
    fits : (n m : ℕ) → (n ≤ m) ⊎ (m < n)
    fits n m = omega arith

    refused :
        (f : List ℕ) (p : List ℕ × List ℕ) (c : ℕ) (r : List ℕ)
        → p.1 ≡ c ∷ r
        → entry_from f p ≡ err enametoolong
    refused f p c r e = rw e refl

    mapped : (up : ℕ → ℕ) (xs : List ℕ) → xs ≢ [] → map up xs ≢ []
    mapped up [] n = λ e. n refl
    mapped up (x ∷ xs) n = λ e. omega (arith, ap length e)

    shows :
        (b e : List ℕ) (j k : ℕ)
        → b ≢ []
        → Solid b
        → Solid e
        → shown_name (b ++ spaces j) (e ++ spaces k) ≡ ok (joined b e)
    shows [] e j k n sb se = absurd (n refl)
    shows (c ∷ b) e j k n sb se = shown_name-Solid c b e j k sb se
