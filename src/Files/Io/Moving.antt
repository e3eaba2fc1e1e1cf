-- ===== src/Files/Io/Moving.antt =====
-- file_read and file_write of an open file, behind the resolution of the descriptor.
use zakos.Common.{
  ℕ, ◌+◌, ◌<◌, ◌≡◌, ◌≢◌, ◌%◌, inl, inr, refl, ap, ◌∙◌, sym, subst, Bool, true, false, ◌==◌,
  if◌then◌else◌, ◌||◌, arith, Result, err, einval, Bool-cases,
}
use zakos.Files.{FileSys, Table, Store, bump, put, has_flag, is_dir}
use zakos.Files.Counts.{slots, Refs, Refs-ext, Counted, bump-Refs, put-Refs}
use zakos.Files.Io.{Transfer, advanced, landed, transfer, rw_open}

-- Whether the open file at `a` refuses a transfer through a descriptor with these flags.
abbrev pub refused : (f : FileSys) → Store f.State → ℕ → ℕ → ℕ → Bool
refused f s a flags forbidden =
    has_flag flags forbidden || is_dir (f.attr s.fs (s.open_files a).file)

-- What a transfer through the open file at `a` leaves behind.
pub record Moved (f : FileSys) (others : ℕ → ℕ) (t : Table) (s : Store f.State) (a : ℕ)
    (move : Result ℕ × f.State) (no : Bool) (r : Result ℕ) (s' : Store f.State) : Type 0 where
  pub result : r ≡ (if no then err einval else move.0)
  pub fs : s'.fs ≡ (if no then s.fs else move.1)
  pub offset :
      (s'.open_files a).offset
      ≡ (if no then (s.open_files a).offset else advanced f (s.open_files a).offset move.0)
  pub file : (s'.open_files a).file ≡ (s.open_files a).file
  pub rest : (x : ℕ) → x ≢ a → s'.open_files x ≡ s.open_files x
  pub counted : Counted others t s'

-- A reference that is taken and given back around a change of the offset.
put-bump :
    (f : FileSys) (s m : Store f.State) (r : ℕ → ℕ) (a : ℕ)
    → Refs s r
    → 0 < r a
    → r a < 255
    → ((x : ℕ) → m.live x ≡ (bump s a).live x)
    → ((x : ℕ) → (m.open_files x).refs ≡ ((bump s a).open_files x).refs)
    → Refs (put f m a) r
      × ((put f m a).fs ≡ m.fs)
      × (((put f m a).open_files a).offset ≡ (m.open_files a).offset)
      × (((put f m a).open_files a).file ≡ (m.open_files a).file)
      × ((x : ℕ) → x ≢ a → (put f m a).open_files x ≡ m.open_files x)
unfolding put
put-bump f s m r a v held room same_live same_refs =
    let up = bump-Refs s r a v held room in
    let mid : Refs m (λ x. if a == x then r x + 1 else r x) = record {
      live = λ x. same_live x ∙ up.live x;
      refs = λ x p. same_refs x ∙ up.refs x p;
      small = up.small;
    } in
    let two : (m.open_files a).refs ≡ r a + 1 = ground (arith, mid.refs a) in
    let kept : (((m.open_files a).refs + 255) % 256 == 0) ≡ false = ground arith in
    (
      Refs-ext (put f m a) _ r (λ x. ground arith) (put-Refs f m _ a mid (ground arith)),
      rw kept refl,
      rw kept (ground arith),
      rw kept (ground arith),
      rw kept (λ x ne. ground arith),
    )

landed_lem :
    (f : FileSys) (others : ℕ → ℕ) (t : Table) (s : Store f.State) (a : ℕ) (p : Result ℕ × f.State)
    → Counted others t s
    → 0 < slots t a + others a
    → slots t a + others a < 255
    → Moved f others t s a p false p.0 (put f (landed f (bump s a) a p) a)
unfolding landed bump
landed_lem f others t s a p v held room =
    let (counted, fs, offset, file, rest) =
      put-bump f s (landed f (bump s a) a p) (λ x. slots t x + others x) a v held room (λ x. refl)
        (λ x. ground arith) in
    record {
      result = refl;
      fs = fs;
      offset = offset ∙ ground arith;
      file = file ∙ ground arith;
      rest = λ x ne. rest x ne ∙ ground arith;
      counted = counted;
    }

transfer_lem :
    (f : FileSys) (others : ℕ → ℕ) (t : Table) (s : Store f.State) (a len : ℕ) (move : Transfer f)
    → Counted others t s
    → 0 < slots t a + others a
    → slots t a + others a < 255
    → Moved f others t s a
        (move s.fs (s.open_files a).file len (s.open_files a).offset)
        false
        (transfer f move (bump s a) a len).0
        (transfer f move (bump s a) a len).1
unfolding transfer bump
transfer_lem f others t s a len move v held room =
    let self : (a == a) ≡ true = ground arith in
    let p = move s.fs (s.open_files a).file len (s.open_files a).offset in
    let same : move (bump s a).fs ((bump s a).open_files a).file len
          ((bump s a).open_files a).offset
        ≡ p =
      rw self refl in
    subst (λ q. Moved f others t s a p false q.0 (put f (landed f (bump s a) a q) a)) (sym same)
      (landed_lem f others t s a p v held room)

bump-file :
    (f : FileSys) (s : Store f.State) (a : ℕ)
    → ((bump s a).open_files a).file ≡ (s.open_files a).file
unfolding bump
bump-file f s a = let self : (a == a) ≡ true = ground arith in rw self refl

bump-refused :
    (f : FileSys) (s : Store f.State) (a flags forbidden : ℕ)
    → refused f (bump s a) a flags forbidden ≡ refused f s a flags forbidden
unfolding bump
bump-refused f s a flags forbidden =
    ap (λ k. has_flag flags forbidden || is_dir (f.attr s.fs k)) (bump-file f s a)

-- A call that is refused gives its reference back.
refused_lem :
    (f : FileSys) (others : ℕ → ℕ) (t : Table) (s : Store f.State) (a : ℕ) (p : Result ℕ × f.State)
    → Counted others t s
    → 0 < slots t a + others a
    → slots t a + others a < 255
    → Moved f others t s a p true (err einval) (put f (bump s a) a)
unfolding bump
refused_lem f others t s a p v held room =
    let (counted, fs, offset, file, rest) =
      put-bump f s (bump s a) (λ x. slots t x + others x) a v held room (λ x. refl) (λ x. refl) in
    record {
      result = refl;
      fs = fs;
      offset = offset ∙ ground arith;
      file = file ∙ ground arith;
      rest = λ x ne. rest x ne ∙ ground arith;
      counted = counted;
    }

pub rw_open_lem :
    (f : FileSys) (others : ℕ → ℕ) (t : Table) (s : Store f.State) (a flags len forbidden : ℕ)
    (move : Transfer f)
    → Counted others t s
    → 0 < slots t a + others a
    → slots t a + others a < 255
    → Moved f others t s a
        (move s.fs (s.open_files a).file len (s.open_files a).offset)
        (refused f s a flags forbidden)
        (rw_open f move forbidden flags (bump s a) a len).0
        (rw_open f move forbidden flags (bump s a) a len).1
unfolding rw_open
rw_open_lem f others t s a flags len forbidden move v held room =
    let same : refused f (bump s a) a flags forbidden ≡ refused f s a flags forbidden =
      bump-refused f s a flags forbidden in
    elim (Bool-cases (refused f s a flags forbidden)) [
      | inl deny ↦ rw (same, deny) (refused_lem f others t s a _ v held room)
      | inr grant ↦ rw (same, grant) (transfer_lem f others t s a len move v held room)
    ]
