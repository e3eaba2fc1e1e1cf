-- ===== src/Fat/Trim/Cut.antt =====
-- fat_file_trim_chain makes a chain shorter.
use zakos.Common.{
  ℕ, zero, suc, ◌+◌, ◌≤◌, ◌<◌, ◌≡◌, ◌≢◌, refl, ap, ◌∙◌, false, ◌==◌, if◌then◌else◌, List, [], ◌∷◌,
  ◌++◌, length, occ, occ-append, last_of, occ-last_of, ok, some, arith, ==_iff,
}
use zakos.Fat.Table.{Ctx, fat_get, fat_set, cluster_free, cluster_end}
use zakos.Fat.Chain.Seek.{Links}
use zakos.Fat.Trim.{is_bad, keep_loop, free_loop, cut_behind}
use zakos.Fat.Trim.Freeing.{IsFloppy, IsChain, fat_set-IsFloppy, Links-same, free_loop-Freed}

-- The first loop goes on over the clusters that stay, up to the one behind them.
keep_step :
    (n : ℕ) (x : Ctx) (p t c d : ℕ)
    → fat_get x c ≡ ok d
    → is_bad d ≡ false
    → (d == cluster_end) ≡ false
    → keep_loop (suc n) x (record { pos = p; curr = t; last = c })
      ≡ keep_loop n x (record { pos = p + 1; curr = c; last = d })
unfolding keep_loop
keep_step n x p t c d e fine inside = rw (e, fine, inside, keep_loop) refl

pub keep_loop-front :
    (x : Ctx) (p t c : ℕ) (a : List ℕ) (d : ℕ) (r : List ℕ)
    → Links x c (a ++ (d ∷ r))
    → keep_loop (suc (length a)) x (record { pos = p; curr = t; last = c })
      ≡ ok (record { pos = p + suc (length a); curr = last_of c a; last = d })
unfolding keep_loop
keep_loop-front x p t c [] d r l =
    keep_step 0 x p t c d l.0 (ground (arith, l.1, l.2)) (ground (arith, l.3))
keep_loop-front x p t c (h ∷ a) d r l =
    keep_step (suc (length a)) x p t c h l.0 (ground (arith, l.1, l.2)) (ground (arith, l.3))
    ∙ keep_loop-front x (p + 1) c h a d r l.4
    ∙ ap (λ n. ok (record { pos = n; curr = last_of h a; last = d })) (omega arith)

-- It stops at the end of a chain.
pub keep_loop-all :
    (x : Ctx) (p t c : ℕ) (cs : List ℕ) (n : ℕ)
    → length cs < n
    → Links x c cs
    → keep_loop n x (record { pos = p; curr = t; last = c })
      ≡ ok (record { pos = p + length cs; curr = last_of c cs; last = cluster_end })
unfolding keep_loop
keep_loop-all x p t c cs zero h l = absurd (omega arith)
keep_loop-all x p t c [] (suc n) h l =
    rw (l, keep_loop)
      (ap (λ n. ok (record { pos = n; curr = c; last = cluster_end })) (omega arith))
keep_loop-all x p t c (d ∷ cs) (suc n) h l =
    keep_step n x p t c d l.0 (ground (arith, l.1, l.2)) (ground (arith, l.3))
    ∙ keep_loop-all x (p + 1) c d cs n (omega (arith, h)) l.4
    ∙ ap (λ n. ok (record { pos = n; curr = last_of d cs; last = cluster_end })) (omega arith)

-- The links before a cluster, and those from it on.
Links-split :
    (x : Ctx) (c : ℕ) (a : List ℕ) (d : ℕ) (r : List ℕ)
    → Links x c (a ++ (d ∷ r))
    → (fat_get x (last_of c a) ≡ ok d) × (is_bad d ≡ false) × Links x d r
Links-split x c [] d r l = (l.0, ground (arith, l.1, l.2), l.4)
Links-split x c (h ∷ a) d r l = Links-split x h a d r l.4

-- The front of a chain, where its last entry has become an end.
Links-front :
    (x y : Ctx) (c : ℕ) (a : List ℕ) (d : ℕ) (r : List ℕ)
    → ((m : ℕ) → occ m (c ∷ (a ++ (d ∷ r))) ≤ 1)
    → ((m : ℕ)
        → occ m (c ∷ a) ≢ 0
        → fat_get y m ≡ (if last_of c a == m then ok cluster_end else fat_get x m))
    → Links x c (a ++ (d ∷ r))
    → Links y c a
unfolding occ
Links-front x y c [] d r one same l = same c (ground arith) ∙ ground (arith, ==_iff c c)
Links-front x y c (h ∷ a) d r one same l =
    let apart : (last_of h a == c) ≡ false = ground (
      arith,
      one c,
      occ-append c a (d ∷ r),
      occ-last_of h a,
      ==_iff (last_of h a) c,
      ap (λ z. occ z (h ∷ a)) {x = last_of h a} {y = c},
    ) in
    (
      same c (ground arith) ∙ ap (λ t. if t then ok cluster_end else fat_get x c) apart ∙ l.0,
      l.1,
      l.2,
      l.3,
      Links-front x y h a d r (λ m. ground (arith, one m)) (λ m k. same m (ground (arith, k))) l.4,
    )

-- The chain ends with `a`, and its clusters behind `a` are free; all other entries stay.
abbrev pub IsCut : Ctx → ℕ → List ℕ → List ℕ → Ctx → Type 0
IsCut x c a freed y =
    IsFloppy y
    × IsChain y c a
    × ((m : ℕ)
        → m < 2849
        → fat_get y m ≡ (
            if last_of c a == m
            then ok cluster_end
            else if occ m freed == 0
            then fat_get x m
            else ok cluster_free))

cut_run :
    (n : ℕ) (x y : Ctx) (last d : ℕ)
    → fat_get x last ≡ ok d
    → is_bad d ≡ false
    → fat_set x last cluster_end ≡ ok y
    → cut_behind n x last ≡ free_loop n y d
unfolding cut_behind
cut_run n x y last d e fine s = rw (e, fine, s, cut_behind) refl

pub cut_behind-IsCut :
    (n : ℕ) (x : Ctx) (c : ℕ) (a : List ℕ) (d : ℕ) (r : List ℕ)
    → length r + 2 ≤ n
    → IsFloppy x
    → IsChain x c (a ++ (d ∷ r))
    → (y : Ctx) × (cut_behind n x (last_of c a) ≡ some (ok tt, y)) × IsCut x c a (d ∷ r) y
unfolding occ
cut_behind-IsCut n x c a d r fuel f (l, one, usable) =
    let last = last_of c a in
    let (e, fine, behind) = Links-split x c a d r l in
    let parts = λ (m : ℕ). occ-append m a (d ∷ r) in
    let u = usable last (ground (arith, occ-last_of c a, parts last)) in
    let (y, s, g, entries) = fat_set-IsFloppy x last cluster_end f u (omega arith) in
    let other = λ (m : ℕ) (k : occ m (d ∷ r) ≢ 0).
      (let apart : (last == m) ≡ false = ground (
        arith,
        one m,
        k,
        parts m,
        occ-last_of c a,
        ==_iff last m,
        ap (λ z. occ z (c ∷ a)) {x = last} {y = m},
      ) in
        entries m (usable m (ground (arith, k, parts m))).0
        ∙ ap (λ t. if t then ok cluster_end else fat_get x m) apart) in
    let chain : IsChain y d r = (
      Links-same x y d r other behind,
      λ m. ground (arith, one m, parts m),
      λ m k. usable m (ground (arith, k, parts m)),
    ) in
    let (z, run, (h, rest)) = free_loop-Freed n y d r fuel g chain in
    let alone : occ last (d ∷ r) ≡ 0 = ground (arith, one last, parts last, occ-last_of c a) in
    let same = λ (m : ℕ). ap (λ z. occ z (d ∷ r)) {x = last} {y = m} in
    (
      z,
      cut_run n x y last d e fine s ∙ run,
      (
        h,
        (
          Links-front x z c a d r one
              (λ m k. ground (
                arith,
                k,
                one m,
                parts m,
                rest m (usable m (ground (arith, k, parts m))).0,
                entries m (usable m (ground (arith, k, parts m))).0,
              ))
              l,
          λ m. ground (arith, one m, parts m),
          λ m k. usable m (ground (arith, k, parts m)),
        ),
        λ m k. ground (arith, rest m k, entries m k, alone, same m, ==_iff last m),
      ),
    )
