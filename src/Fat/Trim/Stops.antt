-- ===== src/Fat/Trim/Stops.antt =====
-- The errors of the loop of fat_file_trim_chain that adds clusters.
use zakos.Common.{
  ℕ, suc, ◌<◌, ◌≤◌, ◌≡◌, ◌≢◌, refl, sym, subst, false, List, [], ◌∷◌, ◌++◌, length, occ, last_of,
  err, Errno, eio, some, arith,
}
use mathlib.Core.List.{append_assoc, append-nil}
use zakos.Fat.Table.{Ctx, sector_size}
use zakos.Fat.Chain.{allocate_cluster}
use zakos.Fat.Chain.Allocate.{is_free}
use zakos.Fat.Sync.{BlockDev}
use zakos.Fat.Entries.{cluster_clear}
use zakos.Fat.Trim.{Work, Done, grow_loop}
use zakos.Fat.Trim.Freeing.{IsFloppy}
use zakos.Fat.Trim.Extended.{IsOpen, Took}

module _ (b : BlockDev) (at_null stale : ℕ) where
  open b use {Disk}

  -- Why the chain `c ∷ cs` has not got `n` clusters but only the `new` ones, in the table `y`: either
  -- no other cluster of the disk is free, or the last one could not be cleared.
  pub data Cause (n c : ℕ) (cs new : List ℕ) (y : Ctx) (d : Disk) (e : Errno) : Type 0 where
    none_free :
        length new < n
        → ((m : ℕ) → 0 < m → m < 2849 → m ≢ last_of c (cs ++ new) → is_free y m ≡ false)
        → Cause n c cs new y d e
    not_cleared :
        (d0 : Disk) (code : Errno)
        → 0 < length new
        → length new ≤ n
        → e ≡ eio
        → (cluster_clear b d0 (last_of c (cs ++ new)) 0 sector_size).0 ≡ err code
        → d ≡ (cluster_clear b d0 (last_of c (cs ++ new)) 0 sector_size).1
        → Cause n c cs new y d e

  -- An error, with the clusters that the chain has got before it.
  abbrev pub Stopped : Work b at_null stale → ℕ → List ℕ → ℕ → Done b at_null stale → Type 0
  Stopped w c cs n r =
      (new : List ℕ) × (y : Ctx) × (d : Disk) × (e : Errno) × (r
        ≡ some (err e, record w { ctx = y; disk = d }))
      × IsFloppy y
      × IsOpen y c (cs ++ new)
      × Took w.ctx (last_of c cs) new y
      × Cause n c cs new y d e

  refused :
      (k : ℕ) (w : Work b at_null stale) (last : ℕ) (c : Errno)
      → allocate_cluster 5700 w.ctx last stale ≡ some (err c)
      → grow_loop b at_null stale 5700 (suc k) w last ≡ some (err c, w)
  unfolding grow_loop
  refused k w last c e = rw (e, grow_loop) refl

  -- Nothing is taken.
  pub Took-nil : (x : Ctx) (last : ℕ) → Took x last [] x
  unfolding occ
  Took-nil x last m h = (λ i. absurd (i refl), λ o i. refl)

  -- Clusters that the chain has got before it stops are no reason.
  pub Cause-suc :
      (n c : ℕ) (cs : List ℕ) (h : ℕ) (new : List ℕ) (y : Ctx) (d : Disk) (e : Errno)
      → Cause n c (cs ++ (h ∷ [])) new y d e
      → Cause (suc n) c cs (h ∷ new) y d e
  Cause-suc n c cs h new y d e (none_free short all) = none_free (omega (arith, short)) (
      subst (λ l. (m : ℕ) → 0 < m → m < 2849 → m ≢ last_of c l → is_free y m ≡ false)
        (append_assoc cs (h ∷ []) new) all)
  Cause-suc n c cs h new y d e (not_cleared d0 code some_new few same failed left) =
      let at = append_assoc cs (h ∷ []) new in
      not_cleared d0 code (omega arith) (omega (arith, few)) same
        (subst (λ l. (cluster_clear b d0 (last_of c l) 0 sector_size).0 ≡ err code) at failed)
        (subst (λ l. d ≡ (cluster_clear b d0 (last_of c l) 0 sector_size).1) at left)

  -- The first round does not get a cluster.
  pub refused-Stopped :
      (k : ℕ) (w : Work b at_null stale) (c : ℕ) (cs : List ℕ) (code : Errno)
      → IsFloppy w.ctx
      → IsOpen w.ctx c cs
      → allocate_cluster 5700 w.ctx (last_of c cs) stale ≡ some (err code)
      → ((m : ℕ) → 0 < m → m < 2849 → m ≢ last_of c cs → is_free w.ctx m ≡ false)
      → Stopped w c cs (suc k) (grow_loop b at_null stale 5700 (suc k) w (last_of c cs))
  refused-Stopped k w c cs code f v e all =
      let same : cs ≡ cs ++ [] = sym (append-nil cs) in
      (
        [],
        w.ctx,
        w.disk,
        code,
        refused k w (last_of c cs) code e,
        f,
        subst (IsOpen w.ctx c) same v,
        Took-nil w.ctx (last_of c cs),
        none_free (omega arith) (
            subst (λ l. (m : ℕ) → 0 < m → m < 2849 → m ≢ last_of c l → is_free w.ctx m ≡ false) same
              all),
      )
