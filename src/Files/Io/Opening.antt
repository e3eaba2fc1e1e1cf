-- ===== src/Files/Io/Opening.antt =====
-- file_open.
use zakos.Common.{
  ℕ, ◌+◌, ◌≡◌, inl, inr, refl, ap, sym, subst, true, false, some, ◌==◌, if◌then◌else◌, update,
  arith, Result, ok, err, Errno, enfile, Bool-cases, Result-cases, ==_iff,
}
use zakos.Files.{FileSys, Slot, Table, Store, nelems, find_free, has_flag, o_trunc, o_append}
use zakos.Files.Counts.{points, slots, slots-update, Counted}
use zakos.Files.Io.Outcome.{find_free_lem, Prepared, not_opened, not_cut, no_slot, OpenOutcome}
use zakos.Files.Io.{with_fs, install, prepare, open_file}

-- A new open file with one reference.
abbrev fresh_file : (f : FileSys) → Store f.State → ℕ → ℕ → ℕ → f.State → Store f.State
fresh_file f s a file offset fs = record {
  open_files = update s.open_files a (record { file = file; offset = offset; refs = 1 });
  live = update s.live a true;
  fs = fs;
}

abbrev installed :
    (f : FileSys) → Table → Store f.State → ℕ → ℕ → ℕ → f.State → Result ℕ × Table × Store f.State
installed f t s a mode file fs =
    install f t (fresh_file f s a file (if has_flag mode o_append then f.size fs file else 0) fs) a
      mode

install_lem :
    (f : FileSys) (others : ℕ → ℕ) (t : Table) (s : Store f.State) (a path mode attr file : ℕ)
    (fs : f.State)
    → Counted others t s
    → s.live a ≡ false
    → Prepared f s.fs path mode attr file fs
    → OpenOutcome f others t s a path mode attr (installed f t s a mode file fs)
unfolding install find_free
install_lem f others t s a path mode attr file fs v unused ready =
    let zero_refs : slots t a + others a ≡ 0 = ground (arith, v.live a) in
    let s' = fresh_file f s a file (if has_flag mode o_append then f.size fs file else 0) fs in
    let self : (a == a) ≡ true = ground arith in
    elim (find_free_lem t nelems 0) [
      | inl (miss, all) ↦ inr (
        enfile,
        record s' { live = update s'.live a false; fs = f.close_file fs (s'.open_files a).file },
        rw miss refl,
        no_slot file fs ready refl (λ i p. all i (omega arith) (omega arith)) (rw self refl),
        λ x. ground (arith, unused, ==_iff a x, ap s.live {x = a} {y = x}),
        λ x ne. ground arith,
        record {
          live = λ x. ground (arith, v.live x);
          refs = λ x p. ground (arith, v.refs x);
          small = v.small;
        },
      )
      | inr (fd, found, low, free, before) ↦
          let slot : Slot = record { ofile = some a; flags = mode } in
          let off = λ (x : ℕ). let p : points x (t fd) ≡ false = rw free refl in p in
          let more = λ (x : ℕ).
            let p : slots (update t fd slot) x ≡ slots t x + (if a == x then 1 else 0) =
              ground (arith, slots-update t fd x slot, off x) in
            p in
          inl (
            file,
            fd,
            fs,
            update t fd slot,
            s',
            rw found refl,
            ready,
            record {
              inside = omega arith;
              was_free = free;
              lowest = λ i p. before i (omega arith) p;
              table = refl;
              file = rw self refl;
              offset = rw self refl;
              fs = refl;
              live = refl;
              rest = λ x ne. ground arith;
              counted = record {
                live = λ x. ground (arith, more x, v.live x);
                refs = λ x p. ground (arith, more x, v.refs x);
                small = λ x. ground (arith, more x, v.small x);
              };
            },
          )
    ]

with_fs-Counted :
    (f : FileSys) (others : ℕ → ℕ) (t : Table) (s : Store f.State) (fs : f.State)
    → Counted others t s
    → Counted others t (with_fs f s fs)
with_fs-Counted f others t s fs v = record { live = v.live; refs = v.refs; small = v.small }

prepare_keep :
    (f : FileSys) (t : Table) (s : Store f.State) (a mode file : ℕ) (fs : f.State)
    → has_flag mode o_trunc ≡ false
    → prepare f t s a mode file fs ≡ installed f t s a mode file fs
unfolding prepare
prepare_keep f t s a mode file fs keep = rw keep refl

prepare_cut :
    (f : FileSys) (t : Table) (s : Store f.State) (a mode file n : ℕ) (fs : f.State)
    → has_flag mode o_trunc ≡ true
    → (f.truncate_to fs file 0).0 ≡ ok n
    → prepare f t s a mode file fs ≡ installed f t s a mode file (f.truncate_to fs file 0).1
unfolding prepare
prepare_cut f t s a mode file n fs cut q = rw (cut, q) (rw cut refl)

prepare_failed :
    (f : FileSys) (t : Table) (s : Store f.State) (a mode file : ℕ) (c : Errno) (fs : f.State)
    → has_flag mode o_trunc ≡ true
    → (f.truncate_to fs file 0).0 ≡ err c
    → prepare f t s a mode file fs
      ≡ (err c, t, with_fs f s (f.close_file (f.truncate_to fs file 0).1 file))
unfolding prepare
prepare_failed f t s a mode file c fs cut q = rw (cut, q) (rw cut refl)

prepare_lem :
    (f : FileSys) (others : ℕ → ℕ) (t : Table) (s : Store f.State) (a path mode attr file : ℕ)
    → Counted others t s
    → s.live a ≡ false
    → (f.open_path s.fs path mode attr).0 ≡ ok file
    → OpenOutcome f others t s a path mode attr
        (prepare f t s a mode file (f.open_path s.fs path mode attr).1)
prepare_lem f others t s a path mode attr file v unused e =
    let fs = (f.open_path s.fs path mode attr).1 in
    let p = f.truncate_to fs file 0 in
    elim (Bool-cases (has_flag mode o_trunc)) [
      | inl cut ↦ elim (Result-cases p.0) [
        | inl (n, q) ↦
            subst (OpenOutcome f others t s a path mode attr)
              (sym (prepare_cut f t s a mode file n fs cut q))
              (install_lem f others t s a path mode attr file p.1 v unused
                (e, inr (cut, (n, q), refl)))
        | inr (c, q) ↦ inr (
          c,
          with_fs f s (f.close_file p.1 file),
          prepare_failed f t s a mode file c fs cut q,
          not_cut file e cut q refl,
          λ x. refl,
          λ x ne. refl,
          with_fs-Counted f others t s (f.close_file p.1 file) v,
        )
      ]
      | inr keep ↦
          subst (OpenOutcome f others t s a path mode attr)
            (sym (prepare_keep f t s a mode file fs keep))
            (install_lem f others t s a path mode attr file fs v unused (e, inl (keep, refl)))
    ]

opened_run :
    (f : FileSys) (t : Table) (s : Store f.State) (a path mode attr file : ℕ)
    → (f.open_path s.fs path mode attr).0 ≡ ok file
    → open_file f t s (some a) path mode attr
      ≡ prepare f t s a mode file (f.open_path s.fs path mode attr).1
unfolding open_file
opened_run f t s a path mode attr file e = rw (e, open_file) refl

failed_run :
    (f : FileSys) (t : Table) (s : Store f.State) (a path mode attr : ℕ) (c : Errno)
    → (f.open_path s.fs path mode attr).0 ≡ err c
    → open_file f t s (some a) path mode attr
      ≡ (err c, t, with_fs f s (f.open_path s.fs path mode attr).1)
unfolding open_file
failed_run f t s a path mode attr c e = rw (e, open_file) refl

-- file_open with memory for the open file at an unused address. Either it returns the lowest free
-- descriptor, which then refers, with the given mode, to the file that fs_open has returned, cut if
-- O_TRUNC is set, at offset 0 or, in append mode, at the end. Or it reports an error and leaves the
-- table as it was and no memory: that of fs_open, or that of a cut, or ENFILE with all descriptors
-- taken, and in the last two it has closed the file again. No other open file changes, and the
-- references are counted as before.
pub open_file_lem :
    (f : FileSys) (others : ℕ → ℕ) (t : Table) (s : Store f.State) (a path mode attr : ℕ)
    → Counted others t s
    → s.live a ≡ false
    → OpenOutcome f others t s a path mode attr (open_file f t s (some a) path mode attr)
open_file_lem f others t s a path mode attr v unused =
    let p = f.open_path s.fs path mode attr in
    elim (Result-cases p.0) [
      | inl (file, e) ↦
          subst (OpenOutcome f others t s a path mode attr)
            (sym (opened_run f t s a path mode attr file e))
            (prepare_lem f others t s a path mode attr file v unused e)
      | inr (c, e) ↦ inr (
        c,
        with_fs f s p.1,
        failed_run f t s a path mode attr c e,
        not_opened e refl,
        λ x. refl,
        λ x ne. refl,
        with_fs-Counted f others t s p.1 v,
      )
    ]
