-- ===== src/Fs/Open.antt =====
-- The calls of kernel/fs/fs.c: opening, closing, removing and mounting.
use zakos.Common.{
  ℕ, zero, suc, ◌+◌, ◌%◌, ◌^◌, Bool, true, false, not, ◌&&◌, Option, none, some, List, [], ◌∷◌,
  ◌==◌, if◌then◌else◌, update, Result, ok, err, Errno, enoent, eagain, enomem, ebusy, enotdir,
  einval,
}
use zakos.Fs.{
  Fs, Dentry, FileOps, namecmp, is_tail, path_next, file_get, file_put, file_spawn, adopt, entered,
  lookup,
}

-- Whether _fs_open goes on after this error of _fs_lookup; and whether an error is -ENOENT.
abbrev pub goes_on : Errno → Bool
goes_on einval = false
goes_on _ = true

abbrev pub is_enoent : Errno → Bool
is_enoent enoent = true
is_enoent _ = false

abbrev pub is_eagain : Errno → Bool
is_eagain eagain = true
is_eagain _ = false

-- The end of _fs_open: the new reference, or what is left of a path that failed.
abbrev pub open_end : ℕ → Option Errno → ℕ → Fs → Result ℕ × Fs
open_end n error file s = if file == 0 then (err enoent, s) else (elim error [
  | none ↦ (ok file, file_get s file)
  | some c ↦ (err c, file_put n (file_get s file) file)
])

module _ (ops : FileOps) where
  open ops use {Disk, readdir, create, remove, mount, kmalloc}

  -- What _fs_open_from_dir does with an entry of that name: the file, 0 where there is no memory.
  abbrev pub open_entry : Fs → ℕ → Dentry → Result ℕ × Fs
  open_entry s dir dentry =
      let file = kmalloc s in
      if file == 0 then (err enomem, s) else (ok file, adopt s file dir dentry)

  -- _fs_open_from_dir, with a bound on the rounds; `none` where it does not suffice.
  unfoldable pub open_from_dir : ℕ → Disk → Fs → ℕ → List ℕ → ℕ → Option (Result ℕ × Fs)
  open_from_dir zero d s dir path sidx = none
  open_from_dir (suc n) d s dir path sidx =
      let rest = open_from_dir n d s dir path ((sidx + 1) % 2 ^ 16) in
      elim (readdir d (s.ctx dir) (s.internal dir) sidx) [
        | ok dentry ↦ if namecmp path dentry.name then some (open_entry s dir dentry) else rest
        | err e ↦ if is_eagain e then rest else some (err e, s)
      ]

  -- The part of the loop of _fs_open under the lock of the directory: `tail` says whether a file
  -- may be created.
  unfoldable pub open_or_create :
      ℕ → Disk → Fs → ℕ → List ℕ → Bool → ℕ → Option (Result ℕ × Fs × Disk)
  open_or_create n d s dir path tail attr =
      let made = create d (s.ctx dir) (s.internal dir) path attr in
      elim (open_from_dir n d s dir path 0) [
        | none ↦ none
        | some (ok f, u) ↦ some (ok f, u, d)
        | some (err c, u) ↦
            if is_enoent c && tail
            then (elim made.0 [
              | err e ↦ some (err e, u, made.1)
              | ok idx ↦ elim (open_from_dir n made.1 u dir path (idx % 2 ^ 16)) [
                | none ↦ none
                | some (r, w) ↦ some (r, w, made.1)
              ]
            ])
            else some (err c, u, d)
      ]

  -- The loop of _fs_open, with a bound on the rounds: the error, the last file, and the state.
  unfoldable pub open_loop :
      ℕ → ℕ → Disk → Fs → ℕ → ℕ → List ℕ → Bool → ℕ → Option (Option Errno × ℕ × Fs × Disk)
  open_loop zero n d s file dir path creat attr = none
  open_loop (suc k) n d s file dir [] creat attr = some (none, file, s, d)
  open_loop (suc k) n d s file dir (x ∷ path) creat attr =
      if s.directory dir
      then (elim (open_or_create n d s (entered s dir) (x ∷ path) (creat && is_tail (x ∷ path))
          attr) [
            | none ↦ none
            | some (ok f, u, e) ↦ open_loop k n e u f f (path_next (x ∷ path)) creat attr
            | some (err c, u, e) ↦ some (some c, file, u, e)
          ])
      else some (some enotdir, file, s, d)

  -- _fs_open; `n` bounds the rounds of every loop, and the files above one.
  unfoldable pub fs_open : ℕ → Disk → Fs → List ℕ → Bool → ℕ → Option (Result ℕ × Fs × Disk)
  fs_open n d s path creat attr = elim (lookup n s path) [
    | none ↦ none
    | some w ↦ elim w.error [
      | none ↦ let r = open_end n none w.file s in some (r.0, r.1, d)
      | some c ↦
          if goes_on c && not (w.dir == 0)
          then (elim (open_loop n n d s w.file w.dir w.path creat attr) [
            | none ↦ none
            | some (e, file, u, d') ↦ let r = open_end n e file u in some (r.0, r.1, d')
          ])
          else some (err c, s, d)
    ]
  ]

  -- fs_remove
  unfoldable pub fs_remove : ℕ → Disk → Fs → List ℕ → Option (Option Errno × Fs × Disk)
  fs_remove n d s path = elim (fs_open n d s path false 0) [
    | none ↦ none
    | some (err c, u, e) ↦ some (some c, u, e)
    | some (ok file, u, e) ↦
        let r = remove e (u.ctx file) (u.internal file) in
        if u.nrefs file == 1
        then some (r.0, file_put n u file, r.1)
        else some (some ebusy, file_put n u file, e)
  ]

  -- fs_mount; `dir` is 0 for the root of the tree.
  unfoldable pub fs_mount : Disk → Fs → ℕ → ℕ → Option Errno × Fs × Disk
  fs_mount d s ctx dir =
      let rootdir = kmalloc s in
      let r = mount d ctx dir in
      if dir == 0 && not (s.root == 0)
      then (some einval, s, d)
      else if rootdir == 0
      then (some enomem, s, d)
      else if not (dir == 0) && not (s.mountpoint dir == 0)
      then (some einval, s, d)
      else elim r.0 [
        | err c ↦ (some c, s, r.1)
        | ok internal ↦
            let u = file_spawn s rootdir [] true in
            let w = record u {
              internal = update u.internal rootdir internal;
              ctx = update u.ctx rootdir ctx;
            } in
            if dir == 0 then (none, file_get (record w { root = rootdir }) rootdir, r.1) else (
              none,
              file_get (file_get (record w { mountpoint = update w.mountpoint dir rootdir }) dir)
                  rootdir,
              r.1,
            )
      ]
