-- ===== src/Files/Io.antt =====
-- file_open, and the calls that act on an open file through a descriptor.
pub mod Moving
pub mod Rw
pub mod Outcome
pub mod Opening
use zakos.Common.{
  ℕ, zero, suc, ◌+◌, ◌*◌, ◌%◌, ◌^◌, Bool, true, false, not, ◌&&◌, ◌||◌, Option, none, some, ltb,
  leb, ◌==◌, if◌then◌else◌, update, Result, ok, err, ebadf, enomem, enfile, einval,
}
use zakos.Files.{
  FileSys, FileOpen, Slot, Table, Store, nelems, has_flag, o_trunc, o_rdonly, o_wronly, o_append,
  is_dir, is_reg, fd_resolve, find_free, put, with_file,
}

module _ (f : FileSys) where
  open f use {State, open_path, close_file, read_at, write_at, truncate_to, attr, size}

  abbrev with_fs : Store State → State → Store State
  with_fs s fs = record s { fs = fs }

  -- The end of file_open: the file goes to the first free slot, or is closed and freed again.
  pub install : Table → Store State → ℕ → ℕ → Result ℕ × Table × Store State
  install t s a mode = elim (find_free t nelems 0) [
    | none ↦ (
      err enfile,
      t,
      record s { live = update s.live a false; fs = close_file s.fs (s.open_files a).file },
    )
    | some fd ↦ (ok fd, update t fd (record { ofile = some a; flags = mode }), s)
  ]

  -- file_open between the calls of fs_open and of the search: `fs` is what fs_open leaves.
  pub prepare : Table → Store State → ℕ → ℕ → ℕ → State → Result ℕ × Table × Store State
  prepare t s a mode file fs =
      let (r, fs') = truncate_to fs file 0 in
      let cut = if has_flag mode o_trunc then fs' else fs in
      let done = λ (offset : ℕ).
        install t
          (record {
            open_files = update s.open_files a (record { file = file; offset = offset; refs = 1 });
            live = update s.live a true;
            fs = cut;
          })
          a mode in
      let go = done (if has_flag mode o_append then size cut file else 0) in
      if has_flag mode o_trunc
      then elim r [ err c ↦ (err c, t, with_fs s (close_file cut file)) | ok _ ↦ go ]
      else go

  -- file_open: `alloc` is the address that kmalloc returns.
  pub open_file : Table → Store State → Option ℕ → ℕ → ℕ → ℕ → Result ℕ × Table × Store State
  open_file t s alloc path mode attr = elim alloc [
    | none ↦ (err enomem, t, s)
    | some a ↦
        let (r, fs) = open_path s.fs path mode attr in
        elim r [ err c ↦ (err c, t, with_fs s fs) | ok file ↦ prepare t s a mode file fs ]
  ]

  -- What file_read and file_write do once the descriptor is resolved.
  abbrev Transfer : Type 0
  Transfer = State → ℕ → ℕ → ℕ → Result ℕ × State

  -- `ofile->offset` behind a transfer.
  abbrev pub advanced : ℕ → Result ℕ → ℕ
  advanced offset (ok n) = (offset + n) % 2 ^ 32
  advanced offset (err c) = offset

  -- The store behind a transfer: the offset moves, and the file system has its new state.
  pub landed : Store State → ℕ → Result ℕ × State → Store State
  landed s a p =
      let o = s.open_files a in
      with_fs (with_file s a (record o { offset = advanced o.offset p.0 })) p.1

  pub transfer : Transfer → Store State → ℕ → ℕ → Result ℕ × Store State
  transfer move s a len =
      let p = move s.fs (s.open_files a).file len (s.open_files a).offset in
      (p.0, put f (landed s a p) a)

  -- file_read and file_write behind the resolution of the descriptor.
  pub rw_open : Transfer → ℕ → ℕ → Store State → ℕ → ℕ → Result ℕ × Store State
  rw_open move forbidden flags s a len =
      if has_flag flags forbidden || is_dir (attr s.fs (s.open_files a).file)
      then (err einval, put f s a)
      else transfer move s a len

  pub rw_file : Transfer → ℕ → Table → Store State → ℕ → ℕ → Result ℕ × Store State
  unfolding rw_open
  rw_file move forbidden t s fd len =
      let (o, flags, s') = fd_resolve t s fd in
      elim o [ none ↦ (err ebadf, s') | some a ↦ rw_open move forbidden flags s' a len ]

  -- file_read
  pub read : Table → Store State → ℕ → ℕ → Result ℕ × Store State
  read t s fd len = rw_file read_at o_wronly t s fd len

  -- file_write
  pub write : Table → Store State → ℕ → ℕ → Result ℕ × Store State
  write t s fd len = rw_file write_at o_rdonly t s fd len

  abbrev is_pos : Result ℕ → Bool
  is_pos (err c) = false
  is_pos (ok n) = ltb 0 n

  -- file_ftruncate
  pub ftruncate : Table → Store State → ℕ → ℕ → Result ℕ × Store State
  ftruncate t s fd len =
      let (o, flags, s') = fd_resolve t s fd in
      elim o [
        | none ↦ (err ebadf, s')
        | some a ↦
            let e = s'.open_files a in
            let (r, fs) = truncate_to s'.fs e.file len in
            let offset = if is_pos r && ltb len e.offset then len else e.offset in
            if has_flag flags o_rdonly || not (is_reg (attr s'.fs e.file))
            then (err einval, put f s' a)
            else (r, put f (with_fs (with_file s' a (record e { offset = offset })) fs) a)
      ]
