-- ===== src/Fat/Trim/Extended.antt =====
-- A chain that gets another cluster.
use zakos.Common.{
  ℕ, ◌≤◌, ◌<◌, ◌≡◌, ◌≢◌, refl, sym, ap, ◌∙◌, subst, inl, inr, Bool, true, false, ◌==◌,
  if◌then◌else◌, List, [], ◌∷◌, ◌++◌, occ, occ-snoc, last_of, occ-last_of, ok, arith, Bool-cases,
  ==_iff,
}
use zakos.Fat.Table.{Ctx, fat_get, classify, cluster_free}
use zakos.Fat.Chain.{entry_or}
use zakos.Fat.Chain.Allocate.{is_free}
use zakos.Fat.Trim.Freeing.{IsFloppy, IsUsable}
use zakos.Fat.Trim.Growing.{Leads, Leads-snoc, Leads-same, Leads-in_use, IsNew}

-- A chain whose last entry may be anything.
abbrev pub IsOpen : Ctx → ℕ → List ℕ → Type 0
IsOpen x c cs =
    Leads x c cs × ((m : ℕ) → occ m (c ∷ cs) ≤ 1) × ((m : ℕ) → occ m (c ∷ cs) ≢ 0 → IsUsable m)

pub last_of-snoc : (c : ℕ) (cs : List ℕ) (n : ℕ) → last_of c (cs ++ (n ∷ [])) ≡ n
last_of-snoc c [] n = refl
last_of-snoc c (d ∷ r) n = last_of-snoc d r n

-- A new cluster is not one of the chain.
new_apart :
    (x : Ctx) (c : ℕ) (cs : List ℕ) (n : ℕ)
    → IsOpen x c cs
    → IsNew x (last_of c cs) n
    → occ n (c ∷ cs) ≡ 0
unfolding occ
new_apart x c cs n (l, one, usable) v = elim (Bool-cases (occ n (c ∷ cs) == 0)) [
  | inl e ↦ ground (arith, e)
  | inr e ↦
      let in_use = Leads-in_use x c cs n l (ground (arith, e)) (ground (arith, v.other)) in
      absurd (true_false (sym v.free ∙ in_use))
]
  where
    true_false : true ≢ false
    true_false e = absurd cc

-- What setting the last entry does: it becomes `v`, and the rest of the chain stays.
abbrev pub Set : Ctx → ℕ → ℕ → Ctx → Type 0
Set x last v y =
    IsFloppy y
    × ((m : ℕ) → m < 2849 → fat_get y m ≡ (if last == m then ok (classify v) else fat_get x m))

pub Leads-set :
    (x y : Ctx) (c : ℕ) (cs : List ℕ) (v : ℕ)
    → IsOpen x c cs
    → Set x (last_of c cs) v y
    → Leads y c cs × (fat_get y (last_of c cs) ≡ ok (classify v))
unfolding occ
Leads-set x y c cs v (l, one, usable) (f, entries) =
    let last = last_of c cs in
    let u = usable last (occ-last_of c cs) in
    let entry = λ (t : Bool) (m : ℕ). if t then ok (classify v) else fat_get x m in
    let same : (last == last) ≡ true = ground arith in
    (
      Leads-same x y c cs one (λ m h other. entries m (usable m h).0 ∙ ap (λ t. entry t m) other) l,
      entries last u.0 ∙ ap (λ t. entry t last) same,
    )

-- The chain with a new cluster at its end.
pub extended :
    (x y : Ctx) (c : ℕ) (cs : List ℕ) (n : ℕ)
    → IsOpen x c cs
    → IsNew x (last_of c cs) n
    → n ≢ 2731
    → Set x (last_of c cs) n y
    → IsOpen y c (cs ++ (n ∷ []))
unfolding occ
extended x y c cs n (l, one, usable) v reached s =
    let (again, last_entry) = Leads-set x y c cs n (l, one, usable) s in
    let plain : classify n ≡ n = ground (arith, v.high) in
    let apart = new_apart x c cs n (l, one, usable) v in
    (
      Leads-snoc y c cs n again (last_entry ∙ ap (λ z. ok z) plain) v.low v.high,
      λ m.
          ground
            (arith, one m, apart, occ-snoc m n cs, ==_iff m n, ap (λ z. occ z cs) {x = m} {y = n}),
      λ m h. elim (Bool-cases (m == n)) [
        | inl e ↦ ground (arith, e, v.high, reached)
        | inr e ↦ usable m (ground (arith, h, e, occ-snoc m n cs))
      ],
    )

-- The new clusters were free, and no other entry but the last one changes.
abbrev pub Took : Ctx → ℕ → List ℕ → Ctx → Type 0
Took x last new y =
    (m : ℕ)
    → m < 2849
    → (occ m new ≢ 0 → is_free x m ≡ true)
      × ((last == m) ≡ false → occ m new ≡ 0 → fat_get y m ≡ fat_get x m)

pub Took-cons :
    (x z y : Ctx) (last n : ℕ) (new : List ℕ)
    → IsNew x last n
    → Set x last n z
    → Took z n new y
    → Took x last (n ∷ new) y
unfolding occ
Took-cons x z y last n new v (f, entries) took m h =
    let entry = λ (t : Bool). if t then ok (classify n) else fat_get x m in
    let plain : (classify n == cluster_free) ≡ false = ground (arith, v.low, v.high) in
    (
      λ k. elim (Bool-cases (m == n)) [
        | inl e ↦
            let same : n ≡ m = ground (arith, e, ==_iff m n) in
            subst (λ w. is_free x w ≡ true) same v.free
        | inr e ↦
            let was = (took m h).0 (ground (arith, k, e)) in
            elim (Bool-cases (last == m)) [
              | inl l ↦ absurd (
                  not_free (
                    sym was
                    ∙ ap (λ r. entry_or 1 r == cluster_free) (entries m h ∙ ap entry l)
                    ∙ plain))
              | inr o ↦
                  ap (λ r. entry_or 1 r == cluster_free) (sym (entries m h ∙ ap entry o)) ∙ was
            ]
      ],
      λ o k.
          (took m h).1 (ground (arith, k, ==_iff n m)) (ground (arith, k))
          ∙ entries m h
          ∙ ap entry o,
    )
  where
    not_free : true ≢ false
    not_free e = absurd cc
