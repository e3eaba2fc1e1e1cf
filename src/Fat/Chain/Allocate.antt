-- ===== src/Fat/Chain/Allocate.antt =====
-- fat_fat_allocate_cluster.
use zakos.Common.{
  ℕ, zero, suc, ◌+◌, ◌%◌, ◌^◌, ◌≡◌, ◌≢◌, ◌≤◌, ◌<◌, ◌⊎◌, refl, subst, ◌∙◌, sym, inl, inr, Bool, true,
  false, ◌||◌, leb, ◌==◌, if◌then◌else◌, Result, ok, err, eio, enospc, Errno, Option, some, arith,
  Bool-cases,
}
use zakos.Fat.Chain.{entry_or, alloc_loop, allocate_cluster}
use zakos.Fat.Table.{Ctx, fat_get, cluster_free, cluster2sector, sector_round_down}

by_range : (q : Bool) (v : ℕ) → q ≡ false → (d : ℕ) × ((if q then err eio else ok v) ≡ ok d)
by_range true v e = absurd cc
by_range false v e = (v, refl)

-- fat_fat_get fails exactly for the clusters behind the last one of a 1.44 MB disk.
fat_get-in : (x : Ctx) (n : ℕ) → x.size ≡ 1474560 → n < 2849 → (d : ℕ) × (fat_get x n ≡ ok d)
unfolding fat_get
fat_get-in x n e h =
    let r : leb (sector_round_down x.size) (cluster2sector n) ≡ false = ground arith in
    by_range _ _ r

fat_get-out : (x : Ctx) → x.size ≡ 1474560 → fat_get x 2849 ≡ err eio
unfolding fat_get
fat_get-out x e =
    let r : leb (sector_round_down x.size) (cluster2sector 2849) ≡ true = rw e refl in rw r refl

-- Whether the entry of a cluster says that it is free.
abbrev pub is_free : Ctx → ℕ → Bool
is_free x n = entry_or 1 (fat_get x n) == cluster_free

-- What the allocation comes to: a free cluster, or an error, and then no other one is free.
pub data Allocation (x : Ctx) (start : ℕ) (r : Option (Result ℕ)) : Type 0 where
  found : (n : ℕ) → r ≡ some (ok n) → 0 < n → n < 2849 → is_free x n ≡ true → Allocation x start r
  full :
      (c : Errno)
      → r ≡ some (err c)
      → ((n : ℕ) → 0 < n → n < 2849 → n ≢ start → is_free x n ≡ false)
      → Allocation x start r

-- A round at a cluster that is in use.
advance :
    (k : ℕ) (x : Ctx) (start m d : ℕ) (retry : Bool) (stale : ℕ)
    → fat_get x m ≡ ok d
    → (m == start) ≡ false
    → (d == cluster_free) ≡ false
    → m < 2849
    → alloc_loop (suc k) x start m retry stale ≡ alloc_loop k x start (m + 1) retry d
unfolding alloc_loop
advance k x start m d retry stale g e f h =
    let next : (m + 1) % 2 ^ 16 ≡ m + 1 = omega arith in
    let same : retry || false ≡ retry = ground arith in rw (e, g, f, next, same) refl

-- A round at a cluster that is free.
take_free :
    (k : ℕ) (x : Ctx) (start m d : ℕ) (retry : Bool) (stale : ℕ)
    → fat_get x m ≡ ok d
    → (m == start) ≡ false
    → (d == cluster_free) ≡ true
    → alloc_loop (suc k) x start m retry stale ≡ some (ok m)
unfolding alloc_loop
take_free k x start m d retry stale g e f = rw (e, g, f) refl

is_free-get : (x : Ctx) (m d : ℕ) → fat_get x m ≡ ok d → is_free x m ≡ (d == cluster_free)
is_free-get x m d g = rw g refl

-- The second pass, from the start of the table.
second_pass :
    (k : ℕ) (x : Ctx) (start m stale : ℕ)
    → x.size ≡ 1474560
    → start < 2849
    → 0 < m
    → m ≤ 2849
    → (start ≡ 0) ⊎ (m ≤ start)
    → 2849 < m + k
    → ((n : ℕ) → 0 < n → n < m → is_free x n ≡ false)
    → ((n : ℕ) → start < n → n < 2849 → is_free x n ≡ false)
    → Allocation x start (alloc_loop k x start m true stale)
unfolding alloc_loop
second_pass zero x start m stale size hs pos high side fuel low above = absurd (omega arith)
second_pass (suc k) x start m stale size hs pos high side fuel low above =
    elim (Bool-cases (m == start)) [
      | inl e ↦ full enospc (rw e refl) (λ n p q r. rest n p q r (ground arith))
      | inr e ↦ elim (Bool-cases (m == 2849)) [
        | inl last ↦
            let at : m ≡ 2849 = ground arith in
            let g : fat_get x m ≡ err eio = rw at (fat_get-out x size) in
            full eio (rw (e, g) refl) (λ n p q r. low n p (omega arith))
        | inr inside ↦
            let h : m < 2849 = ground arith in
            let (d, g) = fat_get-in x m size h in
            elim (Bool-cases (d == cluster_free)) [
              | inl f ↦
                  found m (take_free k x start m d true stale g e f) pos h (is_free-get x m d g ∙ f)
              | inr f ↦
                  subst (Allocation x start) (sym (advance k x start m d true stale g e f h)) (
                    second_pass k x start (m + 1) d size hs (omega arith) (omega arith)
                      (ground arith) (omega arith) (λ n p q. extend n p q d g f) above)
            ]
      ]
    ]
  where
    rest : (n : ℕ) → 0 < n → n < 2849 → n ≢ start → m ≡ start → is_free x n ≡ false
    rest n p q r at = elim (Bool-cases (leb n start)) [
      | inl le ↦ low n p (ground arith)
      | inr gt ↦ above n (ground arith) q
    ]

    extend :
        (n : ℕ)
        → 0 < n
        → n < m + 1
        → (d : ℕ) → fat_get x m ≡ ok d
        → (d == cluster_free) ≡ false
        → is_free x n ≡ false
    extend n p q d g f = elim (Bool-cases (n == m)) [
      | inl here ↦ let at : n ≡ m = ground arith in rw at (is_free-get x m d g ∙ f)
      | inr there ↦ low n p (ground arith)
    ]

-- The first pass, behind `start`.
first_pass :
    (k : ℕ) (x : Ctx) (start m stale : ℕ)
    → x.size ≡ 1474560
    → start < m
    → m ≤ 2849
    → 5699 < m + k
    → stale ≢ cluster_free
    → ((n : ℕ) → start < n → n < m → is_free x n ≡ false)
    → Allocation x start (alloc_loop k x start m false stale)
unfolding alloc_loop
first_pass zero x start m stale size behind high fuel used above = absurd (omega arith)
first_pass (suc k) x start m stale size behind high fuel used above =
    let e : (m == start) ≡ false = ground arith in
    elim (Bool-cases (m == 2849)) [
      | inl last ↦
          let at : m ≡ 2849 = ground arith in
          let g : fat_get x m ≡ err eio = rw at (fat_get-out x size) in
          let kept : (stale == cluster_free) ≡ false = ground arith in
          rw (e, g, kept)
            (second_pass k x start 1 stale size (omega arith) (omega arith) (omega arith)
              (ground arith) (omega arith) (λ n p q. absurd (omega arith))
              (λ n p q. above n p (omega arith)))
      | inr inside ↦
          let h : m < 2849 = ground arith in
          let (d, g) = fat_get-in x m size h in
          elim (Bool-cases (d == cluster_free)) [
            | inl f ↦
                found m (take_free k x start m d false stale g e f) (omega arith) h
                  (is_free-get x m d g ∙ f)
            | inr f ↦ subst (Allocation x start) (sym (advance k x start m d false stale g e f h)) (
                first_pass k x start (m + 1) d size (omega arith) (omega arith) (omega arith)
                  (ground arith) (λ n p q. extend n p q d g f))
          ]
    ]
  where
    extend :
        (n : ℕ)
        → start < n
        → n < m + 1
        → (d : ℕ) → fat_get x m ≡ ok d
        → (d == cluster_free) ≡ false
        → is_free x n ≡ false
    extend n p q d g f = elim (Bool-cases (n == m)) [
      | inl here ↦ let at : n ≡ m = ground arith in rw at (is_free-get x m d g ∙ f)
      | inr there ↦ above n p (ground arith)
    ]

-- fat_fat_allocate_cluster on a 1.44 MB disk, from a cluster of it, ends within 5700 rounds, if the
-- stack does not hold 0 where `ncluster` is: either with a free cluster of the disk, or with an
-- error, and then no cluster but the given one is free.
pub allocate_cluster_lem :
    (x : Ctx) (start stale : ℕ)
    → x.size ≡ 1474560
    → start < 2849
    → stale ≢ cluster_free
    → Allocation x start (allocate_cluster 5700 x start stale)
unfolding allocate_cluster
allocate_cluster_lem x start stale size hs used =
    let next : (start + 1) % 2 ^ 16 ≡ start + 1 = omega arith in
    rw next (
      first_pass 5700 x start (start + 1) stale size (omega arith) (omega arith) (omega arith) used
        (λ n p q. absurd (omega arith)))

stale_round :
    (k : ℕ) (x : Ctx) → x.size ≡ 1474560 → alloc_loop (suc k) x 2848 2849 false 0 ≡ some (ok 0)
unfolding alloc_loop
stale_round k x size = rw (fat_get-out x size) refl

-- From the last cluster of a 1.44 MB disk, with 0 on the stack where `ncluster` is,
-- fat_fat_allocate_cluster returns cluster 0, which is no cluster of the disk.
allocate_cluster-stale : (x : Ctx) → x.size ≡ 1474560 → allocate_cluster 5700 x 2848 0 ≡ some (ok 0)
unfolding allocate_cluster
allocate_cluster-stale x size = stale_round 5699 x size
