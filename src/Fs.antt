-- ===== src/Fs.antt =====
-- kernel/fs/fs.c: the tree of the files in memory. A file is its address, 0 is NULL; each field of
-- `struct fs_file` is a function from addresses, a list of children is in the order of its pointers,
-- and `live` says which addresses kmalloc has handed out. An int8_t is its byte, a string is the
-- list of its characters before the 0.
pub mod Open
pub mod Path
pub mod Counts
pub mod Closing
pub mod Freed
pub mod Lookup
pub mod Scan
pub mod Adopt
pub mod Walk
pub mod Opening
pub mod Removing
pub mod Reopen
mod Tests
use zakos.Common.{
  ℕ, zero, suc, ◌+◌, ◌%◌, Bool, true, false, not, ◌&&◌, ◌||◌, Option, none, some, List, [], ◌∷◌,
  ◌++◌, ltb, ◌==◌, if◌then◌else◌, update, without, Result, ok, err, Errno, enoent, eagain, enomem,
  ebusy, enotdir, einval,
}

-- `common.root` and the fields of the files, less the locks and the sizes; `internal` is `file`, in
-- which the file system keeps its own data.
pub record Fs : Type 0 where
  pub name : ℕ → List ℕ
  pub directory : ℕ → Bool
  pub nrefs : ℕ → ℕ
  pub parent : ℕ → ℕ
  pub mountpoint : ℕ → ℕ
  pub children : ℕ → List ℕ
  pub ctx : ℕ → ℕ
  pub internal : ℕ → ℕ
  pub live : ℕ → Bool
  pub root : ℕ

-- `struct fs_dentry`, with the data that readdir fills in beside it.
pub record Dentry : Type 0 where
  pub name : List ℕ
  pub directory : Bool
  pub internal : ℕ

-- The calls behind `struct fs_file_op` on the state of the disks, and kmalloc, with 0 for NULL:
-- readdir gets the file system, the data of the directory and an index, create the name and the attributes
-- and returns an index; mount returns the data of the new root.
pub record FileOps : Type 1 where
  pub Disk : Type 0
  pub readdir : Disk → ℕ → ℕ → ℕ → Result Dentry
  pub create : Disk → ℕ → ℕ → List ℕ → ℕ → Result ℕ × Disk
  pub remove : Disk → ℕ → ℕ → Option Errno × Disk
  pub mount : Disk → ℕ → ℕ → Result ℕ × Disk
  pub kmalloc : Fs → ℕ

-- '/'
abbrev pub slash : ℕ
slash = 47

-- fs_namecmp, true for 0.
pub namecmp : List ℕ → List ℕ → Bool
namecmp [] [] = true
namecmp [] (c ∷ fname) = false
namecmp (x ∷ path) [] = x == slash
namecmp (x ∷ path) (c ∷ fname) = let rest = namecmp path fname in if x == c then rest else false

-- fs_is_tail
pub is_tail : List ℕ → Bool
is_tail [] = true
is_tail (x ∷ path) = let rest = is_tail path in if x == slash then false else rest

-- The loops of fs_path_next: over a name, and over the slashes behind it.
pub skip_name : List ℕ → List ℕ
skip_name [] = []
skip_name (x ∷ path) = let rest = skip_name path in if x == slash then x ∷ path else rest

pub skip_slashes : List ℕ → List ℕ
skip_slashes [] = []
skip_slashes (x ∷ path) = let rest = skip_slashes path in if x == slash then rest else x ∷ path

-- fs_path_next
abbrev pub path_next : List ℕ → List ℕ
path_next path = skip_slashes (skip_name path)

-- fs_file_get
abbrev pub file_get : Fs → ℕ → Fs
file_get s file = record s { nrefs = update s.nrefs file ((s.nrefs file + 1) % 256) }

-- The first statement of fs_file_put.
abbrev pub lower : Fs → ℕ → Fs
lower s file = record s { nrefs = update s.nrefs file ((s.nrefs file + 255) % 256) }

-- LIST_REMOVE of a file from the children of its parent.
abbrev pub leave_parent : Fs → ℕ → Fs
leave_parent s file = record s {
  children = update s.children (s.parent file) (without file (s.children (s.parent file)));
}

abbrev pub free_file : Fs → ℕ → Fs
free_file s file = record s { live = update s.live file false }

-- fs_file_put, with a bound on the files above this one.
pub file_put : ℕ → Fs → ℕ → Fs
file_put zero s file = s
file_put (suc n) s file =
    let u = lower s file in
    let above = file_put n (leave_parent u file) (u.parent file) in
    if u.nrefs file == 0 then free_file (if u.parent file == 0 then u else above) file else u

-- fs_file_spawn, at the address that kmalloc returned.
abbrev pub file_spawn : Fs → ℕ → List ℕ → Bool → Fs
file_spawn s file name directory = record s {
  name = update s.name file name;
  directory = update s.directory file directory;
  nrefs = update s.nrefs file 0;
  parent = update s.parent file 0;
  mountpoint = update s.mountpoint file 0;
  children = update s.children file [];
  ctx = update s.ctx file 0;
  internal = update s.internal file 0;
  live = update s.live file true;
}

-- What _fs_open_from_dir does with a new file.
abbrev pub adopt : Fs → ℕ → ℕ → Dentry → Fs
adopt s file dir dentry =
    let u = file_spawn s file dentry.name dentry.directory in
    file_get
      (record u {
        parent = update u.parent file dir;
        ctx = update u.ctx file (u.ctx dir);
        internal = update u.internal file dentry.internal;
        children = update u.children dir (u.children dir ++ (file ∷ []));
      })
      dir

-- A directory, or the root of what is mounted there.
abbrev pub entered : Fs → ℕ → ℕ
entered s dir = if s.mountpoint dir == 0 then dir else s.mountpoint dir

-- The search of _fs_lookup in the children of a directory.
pub find_child : Fs → List ℕ → List ℕ → Option ℕ
find_child s path [] = none
find_child s path (c ∷ r) =
    let rest = find_child s path r in if namecmp path (s.name c) then some c else rest

-- What _fs_lookup returns, and leaves behind its pointers; `error` is `none` for 0.
pub record Found : Type 0 where
  pub error : Option Errno
  pub file : ℕ
  pub dir : ℕ
  pub path : List ℕ

-- The loop of _fs_lookup, which only a return ends; `none` where it goes through NULL, or where the
-- rounds do not suffice.
pub lookup_loop : ℕ → Fs → ℕ → ℕ → List ℕ → Option Found
lookup_loop zero s file dir path = none
lookup_loop (suc n) s file dir path =
    let e = entered s dir in
    if dir == 0
    then none
    else if s.directory dir
    then (elim (find_child s path (s.children e)) [
      | none ↦ some (record { error = some enoent; file = 0; dir = e; path = path })
      | some c ↦ lookup_loop n s c c (path_next path)
    ])
    else some (record { error = some enotdir; file = file; dir = dir; path = path })

-- _fs_lookup; `dir == NULL` is never true, since `dir` is the address of the pointer.
pub lookup : ℕ → Fs → List ℕ → Option Found
lookup n s [] = some (record { error = some einval; file = 0; dir = 0; path = [] })
lookup n s (x ∷ path) =
    let p = skip_slashes (x ∷ path) in
    if x == slash
    then (elim p [
      | [] ↦ some (record { error = none; file = s.root; dir = s.root; path = [] })
      | y ∷ r ↦ lookup_loop n s 0 s.root (y ∷ r)
    ])
    else some (record { error = some einval; file = 0; dir = 0; path = x ∷ path })
