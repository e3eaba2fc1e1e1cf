-- ===== src/Fat/Trim/Growing.antt =====
-- Chains that get longer: fat_fat_allocate_cluster and the entries of a chain.
use zakos.Common.{
  ℕ, zero, suc, ◌+◌, ◌%◌, ◌^◌, ◌≤◌, ◌<◌, ◌≡◌, ◌≢◌, refl, sym, ap, ◌∙◌, subst, inl, inr, Bool, true,
  false, ◌||◌, ◌&&◌, ◌==◌, if◌then◌else◌, List, [], ◌∷◌, ◌++◌, occ, last_of, occ-last_of, Result,
  Result-cases, ok, err, Errno, eio, enospc, ◌⊎◌, Option, none, some, arith, Bool-cases, ==_iff,
}
use zakos.Fat.Table.{Ctx, fat_get, cluster_free, cluster_reserved, cluster_end}
use zakos.Fat.Chain.{entry_or, alloc_loop, allocate_cluster}
use zakos.Fat.Chain.Allocate.{is_free, Allocation, allocate_cluster_lem}
use zakos.Fat.Chain.Seek.{Links}

-- The table leads from `c` through `cs`, whose last entry may be anything.
abbrev pub Leads : Ctx → ℕ → List ℕ → Type 0
Leads x c [] = Unit {0}
Leads x c (d ∷ r) =
    (fat_get x c ≡ ok d)
    × (d ≢ cluster_free)
    × (d ≢ cluster_reserved)
    × (d ≢ cluster_end)
    × Leads x d r

pub Links-Leads : (x : Ctx) (c : ℕ) (cs : List ℕ) → Links x c cs → Leads x c cs
Links-Leads x c [] l = tt
Links-Leads x c (d ∷ r) l = (l.0, l.1, l.2, l.3, Links-Leads x d r l.4)

pub Leads-Links :
    (x : Ctx) (c : ℕ) (cs : List ℕ)
    → Leads x c cs
    → fat_get x (last_of c cs) ≡ ok cluster_end
    → Links x c cs
Leads-Links x c [] l e = e
Leads-Links x c (d ∷ r) l e = (l.0, l.1, l.2, l.3, Leads-Links x d r l.4 e)

-- A chain goes on where its last entry has got a cluster.
pub Leads-snoc :
    (x : Ctx) (c : ℕ) (cs : List ℕ) (d : ℕ)
    → Leads x c cs
    → fat_get x (last_of c cs) ≡ ok d
    → 0 < d
    → d < 2849
    → Leads x c (cs ++ (d ∷ []))
Leads-snoc x c [] d l e low high = (e, omega arith, omega arith, omega arith, tt)
Leads-snoc x c (h ∷ r) d l e low high = (l.0, l.1, l.2, l.3, Leads-snoc x h r d l.4 e low high)

-- Only the entries before the last one matter.
pub Leads-same :
    (x y : Ctx) (c : ℕ) (cs : List ℕ)
    → ((m : ℕ) → occ m (c ∷ cs) ≤ 1)
    → ((m : ℕ) → occ m (c ∷ cs) ≢ 0 → (last_of c cs == m) ≡ false → fat_get y m ≡ fat_get x m)
    → Leads x c cs
    → Leads y c cs
unfolding occ
Leads-same x y c [] one h l = tt
Leads-same x y c (d ∷ r) one h l =
    let apart : (last_of d r == c) ≡ false = ground (
      arith,
      one c,
      occ-last_of d r,
      ==_iff (last_of d r) c,
      ap (λ z. occ z (d ∷ r)) {x = last_of d r} {y = c},
    ) in
    (
      h c (ground arith) apart ∙ l.0,
      l.1,
      l.2,
      l.3,
      Leads-same x y d r (λ m. ground (arith, one m)) (λ m k. h m (ground (arith, k))) l.4,
    )

-- The clusters before the last one are in use.
pub Leads-in_use :
    (x : Ctx) (c : ℕ) (cs : List ℕ) (m : ℕ)
    → Leads x c cs
    → occ m (c ∷ cs) ≢ 0
    → (last_of c cs == m) ≡ false
    → is_free x m ≡ false
unfolding occ
Leads-in_use x c [] m l h other = absurd (ground (arith, h, other, ==_iff c m))
Leads-in_use x c (d ∷ r) m l h other = elim (Bool-cases (m == c)) [
  | inl e ↦
      let same : c ≡ m = ground (arith, e, ==_iff m c) in
      subst (λ z. is_free x z ≡ false) same
        (ap (λ z. entry_or 1 z == cluster_free) l.0 ∙ ground (arith, l.1))
  | inr e ↦ Leads-in_use x d r m l.4 (ground (arith, h, e)) other
]

-- A round of the allocation, from what its tests say.
abbrev round : Bool → Bool → Bool → ℕ → Option (Result ℕ) → Option (Result ℕ)
round at_start lost free new again =
    if at_start
    then some (err enospc)
    else if lost
    then some (err eio)
    else if free
    then some (ok new)
    else again

round-ok :
    (at_start lost free : Bool) (new n : ℕ) (again : Option (Result ℕ))
    → round at_start lost free new again ≡ some (ok n)
    → (at_start ≡ false) × (((free ≡ true) × (new ≡ n)) ⊎ ((free ≡ false) × (again ≡ some (ok n))))
round-ok true lost free new n again e = absurd cc
round-ok false true free new n again e = absurd cc
round-ok false false true new n again e = (
  refl,
  inl (
    refl,
    ap (λ (r : Option (Result ℕ)). elim r [ some (ok k) ↦ k | some (err c) ↦ new | none ↦ new ]) e,
  ),
)
round-ok false false false new n again e = (refl, inr (refl, e))

lost_run :
    (k : ℕ) (x : Ctx) (start new : ℕ) (retry : Bool) (stale : ℕ) (c : Errno)
    → fat_get x new ≡ err c
    → alloc_loop (suc k) x start new retry stale
      ≡ round
          (new == start)
          (true && retry)
          (stale == cluster_free)
          0
          (alloc_loop k x start ((0 + 1) % 2 ^ 16) (retry || true) stale)
unfolding alloc_loop
lost_run k x start new retry stale c g = rw (g, alloc_loop) refl

found_run :
    (k : ℕ) (x : Ctx) (start new : ℕ) (retry : Bool) (stale d : ℕ)
    → fat_get x new ≡ ok d
    → alloc_loop (suc k) x start new retry stale
      ≡ round
          (new == start)
          (false && retry)
          (d == cluster_free)
          new
          (alloc_loop k x start ((new + 1) % 2 ^ 16) (retry || false) d)
unfolding alloc_loop
found_run k x start new retry stale d g = rw (g, alloc_loop) refl

-- The allocation does not give out `start`.
alloc_loop-other :
    (k : ℕ) (x : Ctx) (start new : ℕ) (retry : Bool) (stale n : ℕ)
    → stale ≢ cluster_free
    → alloc_loop k x start new retry stale ≡ some (ok n)
    → (n == start) ≡ false
unfolding alloc_loop
alloc_loop-other zero x start new retry stale n used e = absurd cc
alloc_loop-other (suc k) x start new retry stale n used e = elim (Result-cases (fat_get x new)) [
  | inr (c, g) ↦
      let (other, rest) =
        round-ok (new == start) (true && retry) (stale == cluster_free) 0 n
          (alloc_loop k x start ((0 + 1) % 2 ^ 16) (retry || true) stale)
          (sym (lost_run k x start new retry stale c g) ∙ e) in
      elim rest [
        | inl (free, _) ↦ absurd (ground (arith, used, free))
        | inr (_, r) ↦ alloc_loop-other k x start ((0 + 1) % 2 ^ 16) (retry || true) stale n used r
      ]
  | inl (d, g) ↦
      let (other, rest) =
        round-ok (new == start) (false && retry) (d == cluster_free) new n
          (alloc_loop k x start ((new + 1) % 2 ^ 16) (retry || false) d)
          (sym (found_run k x start new retry stale d g) ∙ e) in
      elim rest [
        | inl (_, same) ↦ subst (λ z. (z == start) ≡ false) same other
        | inr (in_use, r) ↦
            alloc_loop-other k x start ((new + 1) % 2 ^ 16) (retry || false) d n
              (ground (arith, in_use)) r
      ]
]

-- A cluster that is given out, in a table where `start` is a cluster of the disk.
pub record IsNew (x : Ctx) (start n : ℕ) : Type 0 where
  pub low : 0 < n
  pub high : n < 2849
  pub free : is_free x n ≡ true
  pub other : (n == start) ≡ false

pub allocate_cluster-IsNew :
    (x : Ctx) (start stale : ℕ)
    → x.size ≡ 1474560
    → start < 2849
    → stale ≢ cluster_free
    → ((n : ℕ) × (allocate_cluster 5700 x start stale ≡ some (ok n)) × IsNew x start n)
      ⊎ ((c : Errno) × (allocate_cluster 5700 x start stale ≡ some (err c))
          × ((n : ℕ) → 0 < n → n < 2849 → n ≢ start → is_free x n ≡ false))
unfolding allocate_cluster
allocate_cluster-IsNew x start stale size inside used =
    elim (allocate_cluster_lem x start stale size inside used) [
      | Allocation.found n e low high free ↦ inl (
        n,
        e,
        record {
          low = low;
          high = high;
          free = free;
          other = alloc_loop-other 5700 x start ((start + 1) % 2 ^ 16) false stale n used e;
        },
      )
      | Allocation.full c e none_free ↦ inr (c, e, none_free)
    ]
