-- ===== src/Files/Io/Rw.antt =====
-- file_read and file_write.
use zakos.Common.{
  ℕ, ◌+◌, ◌<◌, ◌≡◌, ◌⊎◌, inl, inr, ap, sym, subst, false, Option, none, some, ltb, ◌||◌, arith,
  Result, err, ebadf, Option-cases,
}
use zakos.Files.{FileSys, Table, Store, nelems, bump, is_negative, fd_resolve, o_wronly, o_rdonly}
use zakos.Files.Counts.{slots, Counted}
use zakos.Files.Sharing.{slots_pos}
use zakos.Files.Io.Moving.{refused, Moved, rw_open_lem}
use zakos.Files.Io.{Transfer, rw_open, rw_file, read, write}

fd_resolve-open :
    {S : Type 0} (t : Table) (s : Store S) (fd a : ℕ)
    → fd < nelems
    → (t fd).ofile ≡ some a
    → fd_resolve t s fd ≡ (some a, (t fd).flags, bump s a)
unfolding fd_resolve
fd_resolve-open {S} t s fd a h e =
    let range : (is_negative fd || ltb nelems fd) ≡ false = ground arith in
    rw range (
      ap
        (λ (o : Option ℕ). elim o as (λ x. Option ℕ × ℕ × Store S) [
          | none ↦ (none, (t fd).flags, s)
          | some b ↦ (some b, (t fd).flags, bump s b)
        ])
        e)

fd_resolve-closed :
    {S : Type 0} (t : Table) (s : Store S) (fd : ℕ)
    → fd < nelems
    → (t fd).ofile ≡ none
    → fd_resolve t s fd ≡ (none, (t fd).flags, s)
unfolding fd_resolve
fd_resolve-closed {S} t s fd h e =
    let range : (is_negative fd || ltb nelems fd) ≡ false = ground arith in
    rw range (
      ap
        (λ (o : Option ℕ). elim o as (λ x. Option ℕ × ℕ × Store S) [
          | none ↦ (none, (t fd).flags, s)
          | some b ↦ (some b, (t fd).flags, bump s b)
        ])
        e)

-- How a transfer through a descriptor ends.
abbrev pub RwOutcome :
    (f : FileSys)
    → (ℕ → ℕ)
    → Table
    → Store f.State
    → ℕ
    → ℕ
    → ℕ
    → Transfer f
    → Result ℕ × Store f.State
    → Type 0
RwOutcome f others t s fd len forbidden move r =
    (((t fd).ofile ≡ none) × (r ≡ (err ebadf, s)))
    ⊎ ((a : ℕ) × ((t fd).ofile ≡ some a)
        × Moved f others t s a (move s.fs (s.open_files a).file len (s.open_files a).offset)
            (refused f s a (t fd).flags forbidden) r.0 r.1)

-- What file_read and file_write share.
rw_file_lem :
    (f : FileSys) (others : ℕ → ℕ) (t : Table) (s : Store f.State) (fd len forbidden : ℕ)
    (move : Transfer f)
    → Counted others t s
    → fd < nelems
    → ((a : ℕ) → slots t a + others a < 255)
    → RwOutcome f others t s fd len forbidden move (rw_file f move forbidden t s fd len)
unfolding rw_file
rw_file_lem f others t s fd len forbidden move v h room =
    let dispatch = λ (q : Option ℕ × ℕ × Store f.State).
      let r : Result ℕ × Store f.State = elim q.0 as (λ x. Result ℕ × Store f.State) [
        | none ↦ (err ebadf, q.2)
        | some a ↦ rw_open f move forbidden q.1 q.2 a len
      ] in
      r in
    elim (Option-cases (t fd).ofile) [
      | inl e ↦ inl (e, ap dispatch (fd_resolve-closed t s fd h e))
      | inr (a, e) ↦
          let held : 0 < slots t a + others a = omega (arith, slots_pos t fd a h e) in
          inr (
            a,
            e,
            subst
                (λ (q : Option ℕ × ℕ × Store f.State).
                  Moved f others t s a (move s.fs (s.open_files a).file len (s.open_files a).offset)
                    (refused f s a (t fd).flags forbidden) (dispatch q).0 (dispatch q).1)
                (sym (fd_resolve-open t s fd a h e))
                (rw_open_lem f others t s a (t fd).flags len forbidden move v held (room a)),
          )
    ]

-- file_read and file_write of a descriptor in range, where the counter does not overflow. On one
-- that is not open they report EBADF and change nothing. On one that is, a directory, or a descriptor
-- that is opened write-only for file_read and read-only for file_write, gives EINVAL and changes
-- neither the file system nor the offset; else the result is that of the file system's read or write
-- at the offset, which moves by what was transferred. No other open file changes, and the references
-- are counted as before.
pub read_write_lem :
    (f : FileSys) (others : ℕ → ℕ) (t : Table) (s : Store f.State) (fd len : ℕ)
    → Counted others t s
    → fd < nelems
    → ((a : ℕ) → slots t a + others a < 255)
    → RwOutcome f others t s fd len o_wronly f.read_at (read f t s fd len)
      × RwOutcome f others t s fd len o_rdonly f.write_at (write f t s fd len)
unfolding read write
read_write_lem f others t s fd len v h room = (
  rw_file_lem f others t s fd len o_wronly f.read_at v h room,
  rw_file_lem f others t s fd len o_rdonly f.write_at v h room,
)
