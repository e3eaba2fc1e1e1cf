-- ===== src/Fat/Trim/Freeing.antt =====
-- The table under fat_fat_set, and the loop of fat_file_trim_chain that frees a chain.
use zakos.Common.{
  ℕ, zero, suc, ◌+◌, ◌≤◌, ◌<◌, ◌≡◌, ◌≢◌, refl, sym, ap, ◌∙◌, false, ◌==◌, if◌then◌else◌, List, [],
  ◌∷◌, length, occ, Result, ok, err, some, arith, ==_iff,
}
use zakos.Fat.Table.{Ctx, fat_get, fat_set, classify, cluster_free, cluster_end}
use zakos.Fat.Table.Linear.{IsCluster, fat_set-Written}
use zakos.Fat.Table.Entry.{IsBytes, fat_get-fat_set}
use zakos.Fat.Chain.Seek.{Links}
use zakos.Fat.Trim.{is_bad, free_loop}

-- A table of bytes on a disk of 1.44 MB.
abbrev pub IsFloppy : Ctx → Type 0
IsFloppy x = (x.size ≡ 1474560) × IsBytes x

-- The entry of a cluster that fat_fat_set reaches.
abbrev pub IsUsable : ℕ → Type 0
IsUsable c = (c < 2849) × (c ≢ 2731)

-- The table leads from `c` through `cs` to an end, each cluster once.
abbrev pub IsChain : Ctx → ℕ → List ℕ → Type 0
IsChain x c cs =
    Links x c cs × ((m : ℕ) → occ m (c ∷ cs) ≤ 1) × ((m : ℕ) → occ m (c ∷ cs) ≢ 0 → IsUsable m)

set_size :
    (x y z : Ctx) (n cluster : ℕ)
    → fat_set x n cluster ≡ ok y
    → fat_set x n cluster ≡ ok z
    → z.size ≡ x.size
    → y.size ≡ x.size
set_size x y z n cluster e f h =
    ap (λ (r : Result Ctx). elim r [ ok u ↦ u.size | err c ↦ x.size ]) (sym e ∙ f) ∙ h

-- fat_fat_set on such a table.
pub fat_set-IsFloppy :
    (x : Ctx) (n cluster : ℕ)
    → IsFloppy x
    → IsUsable n
    → cluster < 4096
    → (y : Ctx) × (fat_set x n cluster ≡ ok y)
      × IsFloppy y
      × ((m : ℕ) → m < 2849 → fat_get y m ≡ (if n == m then ok (classify cluster) else fat_get x m))
fat_set-IsFloppy x n cluster f u twelve =
    let v : IsCluster x n = record { floppy = f.0; inside = u.0 } in
    let (y, e, entries, bytes) = fat_get-fat_set x n cluster v f.1 twelve u.1 in
    let (z, g, w) = fat_set-Written x n cluster v twelve u.1 in
    (y, e, (set_size x y z n cluster e g w.same_size ∙ f.0, bytes), entries)

-- A chain stays where the entries of its clusters do.
pub Links-same :
    (x y : Ctx) (c : ℕ) (cs : List ℕ)
    → ((m : ℕ) → occ m (c ∷ cs) ≢ 0 → fat_get y m ≡ fat_get x m)
    → Links x c cs
    → Links y c cs
unfolding occ
Links-same x y c [] h l = h c (ground arith) ∙ l
Links-same x y c (d ∷ r) h l = (
  h c (ground arith) ∙ l.0,
  l.1,
  l.2,
  l.3,
  Links-same x y d r (λ m k. h m (ground (arith, k))) l.4,
)

ended : (n : ℕ) (y : Ctx) → 1 ≤ n → free_loop n y cluster_end ≡ some (ok tt, y)
unfolding free_loop
ended zero y h = absurd (omega arith)
ended (suc n) y h = refl

-- Freeing a chain frees its clusters, and leaves all other entries.
abbrev pub Freed : Ctx → List ℕ → Ctx → Type 0
Freed x cs y =
    IsFloppy y
    × ((m : ℕ) → m < 2849 → fat_get y m ≡ (if occ m cs == 0 then fat_get x m else ok cluster_free))

free_step :
    (n : ℕ) (x y : Ctx) (c d : ℕ)
    → fat_get x c ≡ ok d
    → is_bad d ≡ false
    → (c == cluster_end) ≡ false
    → fat_set x c cluster_free ≡ ok y
    → free_loop (suc n) x c ≡ free_loop n y d
unfolding free_loop
free_step n x y c d e fine inside s = rw (inside, e, fine, s, free_loop) refl

pub free_loop-Freed :
    (n : ℕ) (x : Ctx) (c : ℕ) (cs : List ℕ)
    → length cs + 2 ≤ n
    → IsFloppy x
    → IsChain x c cs
    → (y : Ctx) × (free_loop n x c ≡ some (ok tt, y)) × Freed x (c ∷ cs) y
unfolding occ
free_loop-Freed zero x c cs fuel f v = absurd (omega arith)
free_loop-Freed (suc n) x c [] fuel f (l, one, usable) =
    let u = usable c (ground arith) in
    let (y, e, g, entries) = fat_set-IsFloppy x c cluster_free f u (omega arith) in
    (
      y,
      free_step n x y c cluster_end l refl (ground (arith, u.0)) e ∙ ended n y (omega arith),
      (g, λ m h. entries m h ∙ ground (arith, ==_iff c m)),
    )
free_loop-Freed (suc n) x c (d ∷ r) fuel f (l, one, usable) =
    let u = usable c (ground arith) in
    let (y, e, g, entries) = fat_set-IsFloppy x c cluster_free f u (omega arith) in
    let other = λ (m : ℕ) (k : occ m (d ∷ r) ≢ 0).
      (let there : occ m (c ∷ d ∷ r) ≢ 0 = ground (arith, k) in
        let apart : (c == m) ≡ false = ground (arith, one m, k, ==_iff c m) in
        entries m (usable m there).0
        ∙ ap (λ t. if t then ok cluster_free else fat_get x m) apart) in
    let chain : IsChain y d r = (
      Links-same x y d r other l.4,
      λ m. ground (arith, one m),
      λ m k. usable m (ground (arith, k)),
    ) in
    let (z, run, (h, rest)) = free_loop-Freed n y d r (omega (arith, fuel)) g chain in
    (
      z,
      free_step n x y c d l.0 (ground (arith, l.1, l.2)) (ground (arith, u.0)) e ∙ run,
      (h, λ m k. rest m k ∙ ground (arith, entries m k, one m, ==_iff c m)),
    )
