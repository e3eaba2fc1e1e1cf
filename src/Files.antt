-- ===== src/Files.antt =====
-- kernel/proc/file.c: the descriptor table of a process, and the open files that the tables share.
-- An open file is a record at an address, and `live` says which addresses kmalloc has handed out.
-- What is behind the table is read as the table's further entries. An int8_t is its byte.
pub mod Counts
pub mod Closing
pub mod Sharing
pub mod Io
mod Tests
use Prim.Native.Nat.{bit_and}
use zakos.Common.{
  ℕ, zero, suc, ◌+◌, ◌-◌, ◌*◌, ◌%◌, ◌^◌, ◌≡◌, Bool, true, false, not, ◌&&◌, ◌||◌, Option, none,
  some, ltb, leb, ◌==◌, if◌then◌else◌, update, Result, ok, err, ebadf, enomem, enfile, emfile,
  einval,
}

-- kernel/fs/fs.c, as far as the open files use it: a file is its address.
pub record FileSys : Type 1 where
  pub State : Type 0
  pub open_path : State → ℕ → ℕ → ℕ → Result ℕ × State
  pub close_file : State → ℕ → State
  pub read_at : State → ℕ → ℕ → ℕ → Result ℕ × State
  pub write_at : State → ℕ → ℕ → ℕ → Result ℕ × State
  pub truncate_to : State → ℕ → ℕ → Result ℕ × State
  pub attr : State → ℕ → ℕ
  pub size : State → ℕ → ℕ

-- `struct file_open`, less the lock.
pub record FileOpen : Type 0 where
  pub file : ℕ
  pub offset : ℕ
  pub refs : ℕ

-- `struct file_descriptor`
pub record Slot : Type 0 where
  pub ofile : Option ℕ
  pub flags : ℕ

-- The number of entries of `fdtable`.
abbrev pub nelems : ℕ
nelems = 16

abbrev pub Table : Type 0
Table = ℕ → Slot

-- The open files in memory, and the state of the file system.
pub record Store (S : Type 0) : Type 0 where
  pub open_files : ℕ → FileOpen
  pub live : ℕ → Bool
  pub fs : S

-- O_TRUNC, O_RDONLY, O_WRONLY and O_APPEND
abbrev pub has_flag : ℕ → ℕ → Bool
has_flag flags flag = not (bit_and flags flag == 0)

abbrev pub o_trunc : ℕ
o_trunc = 0x02

abbrev pub o_rdonly : ℕ
o_rdonly = 0x04

abbrev pub o_wronly : ℕ
o_wronly = 0x08

abbrev pub o_append : ℕ
o_append = 0x20

-- S_ISDIR and S_ISREG
abbrev pub is_dir : ℕ → Bool
is_dir attr = bit_and attr 0x1F == 0x04

abbrev pub is_reg : ℕ → Bool
is_reg attr = bit_and attr 0x1F == 0x10

-- An int8_t below 0, and an int8_t converted to the 16-bit unsigned type of `sizeof`.
abbrev pub is_negative : ℕ → Bool
is_negative fd = leb 128 fd

abbrev pub to_unsigned : ℕ → ℕ
to_unsigned fd = if is_negative fd then fd + 65280 else fd

-- `process->fdtable[fd].ofile = NULL`
abbrev pub cleared : Table → ℕ → Table
cleared t fd = update t fd (record (t fd) { ofile = none })

module _ {S : Type 0} where
  abbrev pub with_file : Store S → ℕ → FileOpen → Store S
  with_file s a o = record s { open_files = update s.open_files a o }

  -- `++ofile->refs`
  pub bump : Store S → ℕ → Store S
  bump s a = with_file s a (record (s.open_files a) { refs = ((s.open_files a).refs + 1) % 256 })

  -- file_fd_resolve
  pub fd_resolve : Table → Store S → ℕ → Option ℕ × ℕ × Store S
  unfolding bump
  fd_resolve t s fd = if is_negative fd || ltb nelems fd then (none, 0, s) else elim (t fd).ofile [
    | none ↦ (none, (t fd).flags, s)
    | some a ↦ (some a, (t fd).flags, bump s a)
  ]

  -- The loop of file_fdtable_copy, after `n` rounds.
  pub copy_refs : Table → ℕ → Store S → Store S
  copy_refs t zero s = s
  copy_refs t (suc n) s =
      let before = copy_refs t n s in elim (t n).ofile [ none ↦ before | some a ↦ bump before a ]

  -- file_fdtable_copy: the child's table, and the store.
  pub fdtable_copy : Table → Table → Store S → Table × Store S
  fdtable_copy parent child s =
      ((λ fd. if ltb fd nelems then parent fd else child fd), copy_refs parent nelems s)

-- The search for a slot that is free, with `n` slots left.
pub find_free : Table → ℕ → ℕ → Option ℕ
find_free t zero fd = none
find_free t (suc n) fd =
    let rest = find_free t n (fd + 1) in elim (t fd).ofile [ none ↦ some fd | some a ↦ rest ]

module _ (f : FileSys) where
  open f use {State, open_path, close_file, read_at, write_at, truncate_to, attr, size}

  -- _file_file_put
  pub put : Store State → ℕ → Store State
  put s a =
      let o = s.open_files a in
      let left = (o.refs + 255) % 256 in
      let t = with_file s a (record o { refs = left }) in
      if left == 0
      then record t { live = update s.live a false; fs = close_file s.fs o.file }
      else t

  -- _file_close_one
  pub close_one : Table → Store State → ℕ → Result (Unit {0}) × Table × Store State
  close_one t s fd = elim (t fd).ofile [
    | none ↦ (err ebadf, t, s)
    | some a ↦ (ok tt, cleared t fd, put s a)
  ]

  -- file_close
  pub close : Table → Store State → ℕ → Result (Unit {0}) × Table × Store State
  close t s fd = close_one t s fd

  -- The loop of file_close_all, after `n` rounds.
  pub close_slots : ℕ → Table → Store State → Table × Store State
  close_slots zero t s = (t, s)
  close_slots (suc n) t s =
      let (u, before) = close_slots n t s in let (r, v, after) = close_one u before n in (v, after)

  -- file_close_all
  pub close_all : Table → Store State → Table × Store State
  close_all t s = close_slots nelems t s

  -- The end of file_dup2, once `newfd` is closed; `none` is an access through NULL.
  pub share : Table → Store State → ℕ → ℕ → Option (Result ℕ × Table × Store State)
  share t s oldfd newfd = elim (t oldfd).ofile [
    | none ↦ none
    | some a ↦ some (ok newfd, update t newfd (t oldfd), bump s a)
  ]

  -- What file_dup2 does for a `newfd` other than `oldfd`.
  pub replace : Table → Store State → ℕ → ℕ → Option (Result ℕ × Table × Store State)
  unfolding close_one
  replace t s oldfd newfd = let (r, u, closed) = close_one t s newfd in share u closed oldfd newfd

  -- file_dup2
  pub dup2 : Table → Store State → ℕ → ℕ → Option (Result ℕ × Table × Store State)
  dup2 t s oldfd newfd =
      let target = if is_negative newfd then find_free t nelems 0 else some newfd in
      if is_negative oldfd || leb nelems (to_unsigned oldfd) || leb nelems (to_unsigned newfd)
      then some (err ebadf, t, s)
      else elim target [
        | none ↦ some (err emfile, t, s)
        | some fd ↦ if fd == oldfd then some (ok fd, t, s) else replace t s oldfd fd
      ]
