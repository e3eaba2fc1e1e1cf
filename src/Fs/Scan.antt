-- ===== src/Fs/Scan.antt =====
-- _fs_open_from_dir always returns, and what it does to the tree.
use zakos.Common.{
  ℕ, zero, suc, ◌+◌, ◌-◌, ◌%◌, ◌^◌, ◌<◌, ◌≤◌, ◌≡◌, ◌≢◌, refl, ap, ◌∙◌, inl, inr, Bool, true, false,
  ◌&&◌, Option, none, some, List, ◌==◌, if◌then◌else◌, arith, Bool-cases, Errno, enomem, Result, ok,
  err, Result-cases,
}
use zakos.Fs.{Fs, Dentry, FileOps, namecmp, adopt}
use zakos.Fs.Open.{is_eagain, is_enoent, open_entry, open_from_dir, open_or_create}

-- What the calls behind the tree promise: kmalloc returns memory that is not in use, and each
-- directory has an end within the 65536 values of its index.
pub record Sound (ops : FileOps) : Type 0 where
  pub fresh : (s : Fs) → ops.kmalloc s ≢ 0 → s.live (ops.kmalloc s) ≡ false
  pub ends :
      (d : ops.Disk) (ctx internal : ℕ)
      → (e : ℕ) × (c : Errno) × (e < 65536)
        × (is_eagain c ≡ false)
        × (ops.readdir d ctx internal e ≡ err c)

module _ (ops : FileOps) where
  open ops use {Disk, readdir, create, kmalloc}

  -- An error that changes nothing, or a new file for an entry of that name.
  pub data Opened (s : Fs) (dir : ℕ) (path : List ℕ) : Result ℕ → Fs → Type 0 where
    refused : (c : Errno) → Opened s dir path (err c) s
    added :
        (dentry : Dentry)
        → namecmp path dentry.name ≡ true
        → kmalloc s ≢ 0
        → Opened s dir path (ok (kmalloc s)) (adopt s (kmalloc s) dir dentry)

  open_entry-Opened :
      (s : Fs) (dir : ℕ) (path : List ℕ) (dentry : Dentry)
      → namecmp path dentry.name ≡ true
      → Opened s dir path (open_entry ops s dir dentry).0 (open_entry ops s dir dentry).1
  open_entry-Opened s dir path dentry same = elim (Bool-cases (kmalloc s == 0)) [
    | inl full ↦ rw full (refused enomem)
    | inr room ↦ rw room (added dentry same (ground (arith, room)))
  ]

  open_from_dir-Opened :
      (n : ℕ) (d : Disk) (s : Fs) (dir : ℕ) (path : List ℕ) (sidx gap e : ℕ) (c : Errno)
      → readdir d (s.ctx dir) (s.internal dir) e ≡ err c
      → is_eagain c ≡ false
      → sidx < 65536
      → (sidx + gap) % 65536 ≡ e
      → gap < n
      → (r : Result ℕ) × (u : Fs) × (open_from_dir ops n d s dir path sidx ≡ some (r, u))
        × Opened s dir path r u
  unfolding open_from_dir
  open_from_dir-Opened zero d s dir path sidx gap e c end no_again low at lt =
      absurd (omega (arith, lt))
  open_from_dir-Opened (suc n) d s dir path sidx zero e c end no_again low at lt =
      let here : sidx ≡ e = omega (arith, at, low) in
      let stop = ap (readdir d (s.ctx dir) (s.internal dir)) here ∙ end in
      (err c, s, rw (stop, open_from_dir, no_again) refl, refused c)
  open_from_dir-Opened (suc n) d s dir path sidx (suc gap) e c end no_again low at lt =
      let on : ((sidx + 1) % 65536 + gap) % 65536 ≡ e = omega (arith, at) in
      let k =
        open_from_dir-Opened n d s dir path ((sidx + 1) % 65536) gap e c end no_again (omega arith)
          on (omega (arith, lt)) in
      elim (Result-cases (readdir d (s.ctx dir) (s.internal dir) sidx)) [
        | inl (dentry, hit) ↦ elim (Bool-cases (namecmp path dentry.name)) [
          | inl same ↦ (
            (open_entry ops s dir dentry).0,
            (open_entry ops s dir dentry).1,
            rw (hit, open_from_dir, same) refl,
            open_entry-Opened s dir path dentry same,
          )
          | inr other ↦ (k.0, k.1, rw (hit, open_from_dir, other) k.2, k.3)
        ]
        | inr (b, miss) ↦ elim (Bool-cases (is_eagain b)) [
          | inl again ↦ (k.0, k.1, rw (miss, open_from_dir, again) k.2, k.3)
          | inr stop ↦ (err b, s, rw (miss, open_from_dir, stop) refl, refused b)
        ]
      ]

  abbrev create_body :
      ℕ → Disk → Fs → ℕ → List ℕ → Bool → ℕ → Option (Result ℕ × Fs) → Option (Result ℕ × Fs × Disk)
  create_body n d s dir path tail attr found =
      let made = create d (s.ctx dir) (s.internal dir) path attr in
      elim found [
        | none ↦ none
        | some (ok f, u) ↦ some (ok f, u, d)
        | some (err c, u) ↦
            if is_enoent c && tail
            then (elim made.0 [
              | err e ↦ some (err e, u, made.1)
              | ok idx ↦ elim (open_from_dir ops n made.1 u dir path (idx % 2 ^ 16)) [
                | none ↦ none
                | some (r, w) ↦ some (r, w, made.1)
              ]
            ])
            else some (err c, u, d)
      ]

  module _ (sound : Sound ops) where
    scan_from :
        (n : ℕ) (d : Disk) (s : Fs) (dir : ℕ) (path : List ℕ) (sidx : ℕ)
        → sidx < 65536
        → 65536 ≤ n
        → (r : Result ℕ) × (u : Fs) × (open_from_dir ops n d s dir path sidx ≡ some (r, u))
          × Opened s dir path r u
    scan_from n d s dir path sidx low enough =
        let (e, c, bound, no_again, end) = sound.ends d (s.ctx dir) (s.internal dir) in
        open_from_dir-Opened n d s dir path sidx ((e + 65536 - sidx) % 65536) e c end no_again low
          (omega (arith, low, bound)) (omega (arith, enough))

    abbrev Outcome : Fs → ℕ → List ℕ → Option (Result ℕ × Fs × Disk) → Type 0
    Outcome s dir path o =
        (r : Result ℕ) × (u : Fs) × (e : Disk) × (o ≡ some (r, u, e)) × Opened s dir path r u

    create_body-Opened :
        (n : ℕ) (d : Disk) (s : Fs) (dir : ℕ) (path : List ℕ) (tail : Bool) (attr : ℕ)
        → 65536 ≤ n
        → (r : Result ℕ) (u : Fs) → Opened s dir path r u
        → Outcome s dir path (create_body n d s dir path tail attr (some (r, u)))
    create_body-Opened n d s dir path tail attr enough _ _ (added dentry same some_f) =
        (_, _, d, refl, added dentry same some_f)
    create_body-Opened n d s dir path tail attr enough _ _ (refused c) =
        let made = create d (s.ctx dir) (s.internal dir) path attr in
        elim (Bool-cases (is_enoent c && tail)) [
          | inr stop ↦ (err c, s, d, rw stop refl, refused c)
          | inl new ↦ elim (Result-cases made.0) [
            | inr (e, fail) ↦ (err e, s, made.1, rw (new, fail) refl, refused e)
            | inl (idx, done) ↦
                let (r, u, run, o) =
                  scan_from n made.1 s dir path (idx % 2 ^ 16) (omega arith) enough in
                (r, u, made.1, rw (new, done, run) refl, o)
          ]
        ]

    -- With a file created on the way or not, an error changes nothing in the tree.
    pub open_or_create-Opened :
        (n : ℕ) (d : Disk) (s : Fs) (dir : ℕ) (path : List ℕ) (tail : Bool) (attr : ℕ)
        → 65536 ≤ n
        → Outcome s dir path (open_or_create ops n d s dir path tail attr)
    unfolding open_or_create
    open_or_create-Opened n d s dir path tail attr enough =
        let (r, u, run, o) = scan_from n d s dir path 0 (omega arith) enough in
        let (r', u', e, step, o') = create_body-Opened n d s dir path tail attr enough r u o in
        (r', u', e, ap (create_body n d s dir path tail attr) run ∙ step, o')
