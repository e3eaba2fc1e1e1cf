-- ===== src/Fs/Removing.antt =====
-- fs_remove.
use zakos.Common.{
  ℕ, ◌+◌, ◌<◌, ◌≤◌, ◌≡◌, refl, ap, ◌∙◌, subst, inl, inr, false, Option, none, some, List, ◌==◌,
  if◌then◌else◌, length, arith, Bool-cases, Errno, ebusy, Result, ok, err,
}
use zakos.Fs.{Fs, FileOps, file_put}
use zakos.Fs.Open.{fs_remove}
use zakos.Fs.Closing.{Tree, file_put-Tree}
use zakos.Fs.Scan.{Sound}
use zakos.Fs.Opening.{raised, take_back, After, Ready, fs_open-Tree}

module _ (ops : FileOps) (sound : Sound ops) where
  open ops use {Disk}

  abbrev remove_body : ℕ → Option (Result ℕ × Fs × Disk) → Option (Option Errno × Fs × Disk)
  remove_body n o = elim o [
    | none ↦ none
    | some (err c, u, e) ↦ some (some c, u, e)
    | some (ok file, u, e) ↦
        let r = ops.remove e (u.ctx file) (u.internal file) in
        if u.nrefs file == 1
        then some (r.0, file_put n u file, r.1)
        else some (some ebusy, file_put n u file, e)
  ]

  abbrev pub Removes : Option (Option Errno × Fs × Disk) → (ℕ → ℕ) → (ℕ → ℕ) → Type 0
  Removes o opens kept =
      (c : Option Errno) × (u : Fs) × (e : Disk) × (depth : ℕ → ℕ) × (o ≡ some (c, u, e))
      × Tree u opens kept depth

  closed :
      (n : ℕ) (r : Result ℕ) (u : Fs) (e : Disk) (opens kept depth : ℕ → ℕ)
      → After n r u opens kept depth
      → Removes (remove_body n (some (r, u, e))) opens kept
  closed n (err c) u e opens kept depth a = (some c, u, e, depth, refl, a)
  closed n (ok f) u e opens kept depth (on, low, t) =
      let r = ops.remove e (u.ctx f) (u.internal f) in
      let k = file_put-Tree n u (raised opens f) kept depth f t on (ground arith) low in
      let back = subst (λ z. Tree (file_put n u f) z kept depth) (take_back opens f) k in
      elim (Bool-cases (u.nrefs f == 1)) [
        | inl single ↦ (r.0, file_put n u f, r.1, depth, rw single refl, back)
        | inr busy ↦ (some ebusy, file_put n u f, e, depth, rw busy refl, back)
      ]

  -- fs_remove of any path in a ready tree returns, for calls behind the tree that are sound and a
  -- bound as for fs_open, and whatever the outcome the references of the callers are what they were, each
  -- counter is right, and every file in memory has a holder.
  pub fs_remove-Tree :
      (n : ℕ) (d : Disk) (s : Fs) (opens kept depth : ℕ → ℕ) (top : ℕ) (path : List ℕ)
      → Ready s opens kept depth top
      → 65536 ≤ n
      → top + length path < n
      → Removes (fs_remove ops n d s path) opens kept
  unfolding fs_remove
  fs_remove-Tree n d s opens kept depth top path r enough high =
      let (q, u, e, depth', run, a) =
        fs_open-Tree ops sound n d s opens kept depth top path false 0 r enough high in
      let (c, w, e', depth2, step, t) = closed n q u e opens kept depth' a in
      (c, w, e', depth2, ap (remove_body n) run ∙ step, t)
