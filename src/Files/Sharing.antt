-- ===== src/Files/Sharing.antt =====
-- file_fdtable_copy and file_dup2: slots that share an open file.
use zakos.Common.{
  ℕ, zero, suc, ◌+◌, ◌≤◌, ◌<◌, ◌≡◌, ◌≢◌, inl, inr, refl, ap, ◌∙◌, sym, subst, true, false, Option,
  none, some, ltb, leb, ◌==◌, if◌then◌else◌, ◌||◌, update, count, arith, Result, ok, err, ebadf,
  Option-cases, Bool-cases,
}
use zakos.Files.{
  FileSys, Table, Store, nelems, bump, copy_refs, fdtable_copy, share, replace, dup2, is_negative,
  to_unsigned,
}
use zakos.Files.Counts.{points, slots, slots-update, slots_same, Refs, Refs-ext, Counted, bump-Refs}
use zakos.Files.Closing.{slots-cleared, close_one_lem}

-- An open slot refers to its file.
pub slots_pos : (t : Table) (fd a : ℕ) → fd < nelems → (t fd).ofile ≡ some a → 0 < slots t a
slots_pos t fd a h at = let one = slots-cleared t fd a a h at in ground (arith, one)

copy_refs_lem :
    {S : Type 0} (t : Table) (n : ℕ) (s : Store S) (r : ℕ → ℕ)
    → n ≤ nelems
    → Refs s r
    → ((a : ℕ) → 0 < slots t a → 0 < r a)
    → ((a : ℕ) → count (points a) t n + r a < 256)
    → Refs (copy_refs t n s) (λ a. count (points a) t n + r a)
unfolding copy_refs
copy_refs_lem t zero s r h v held room = Refs-ext s r _ (λ a. omega arith) v
copy_refs_lem t (suc n) s r h v held room = elim (Option-cases (t n).ofile) [
  | inl e ↦
      let off = λ (x : ℕ). let p : points x (t n) ≡ false = rw e refl in p in
      let before =
        copy_refs_lem t n s r (omega arith) v held (λ x. ground (arith, room x, off x)) in
      let step : copy_refs t (suc n) s ≡ copy_refs t n s = rw (e, copy_refs) refl in
      subst (λ z. Refs z (λ x. count (points x) t (suc n) + r x)) (sym step)
        (Refs-ext (copy_refs t n s) _ _ (λ x. ground (arith, off x)) before)
  | inr (a, e) ↦
      let on = λ (x : ℕ). let p : points x (t n) ≡ (a == x) = rw e refl in p in
      let before = copy_refs_lem t n s r (omega arith) v held (λ x. ground (arith, room x, on x)) in
      let some_ref = held a (slots_pos t n a (omega arith) e) in
      let step : copy_refs t (suc n) s ≡ bump (copy_refs t n s) a = rw (e, copy_refs) refl in
      subst (λ z. Refs z (λ x. count (points x) t (suc n) + r x)) (sym step)
        (Refs-ext (bump (copy_refs t n s) a) _ _ (λ x. ground (arith, on x))
          (bump-Refs (copy_refs t n s) _ a before (omega arith) (ground (arith, room a, on a))))
]

-- file_fdtable_copy, where no counter overflows, gives the child the parent's slots, and every
-- file the references of the child's table besides those that it had.
fdtable_copy_lem :
    {S : Type 0} (others : ℕ → ℕ) (parent child : Table) (s : Store S)
    → Counted others parent s
    → ((a : ℕ) → slots parent a + (slots parent a + others a) < 256)
    → ((i : ℕ) → i < nelems → (fdtable_copy parent child s).0 i ≡ parent i)
      × Counted
          (λ a. slots parent a + others a)
          (fdtable_copy parent child s).0
          (fdtable_copy parent child s).1
unfolding fdtable_copy slots
fdtable_copy_lem others parent child s v room =
    let same = λ (i : ℕ) (h : i < nelems).
      let p : (if ltb i nelems then parent i else child i) ≡ parent i = ground arith in p in
    (
      same,
      Refs-ext (copy_refs parent nelems s) _ _
          (λ a.
            ap (λ k. k + (slots parent a + others a))
              (sym
                (slots_same parent (λ fd. if ltb fd nelems then parent fd else child fd) a same)))
          (copy_refs_lem parent nelems s (λ a. slots parent a + others a) (omega arith) v
            (λ a p. omega arith) room),
    )

share-open :
    (f : FileSys) (t : Table) (s : Store f.State) (oldfd newfd a : ℕ)
    → (t oldfd).ofile ≡ some a
    → share f t s oldfd newfd ≡ some (ok newfd, update t newfd (t oldfd), bump s a)
unfolding share
share-open f t s oldfd newfd a at =
    ap
      (λ (o : Option ℕ). elim o as (λ x. Option (Result ℕ × Table × Store f.State)) [
        | none ↦ none
        | some b ↦ some (ok newfd, update t newfd (t oldfd), bump s b)
      ])
      at

-- An open slot of a table that is not open in another place stays open when that is closed.
replace_lem :
    (f : FileSys) (others : ℕ → ℕ) (t : Table) (s : Store f.State) (oldfd newfd a : ℕ)
    → Counted others t s
    → oldfd < nelems
    → newfd < nelems
    → newfd ≢ oldfd
    → (t oldfd).ofile ≡ some a
    → slots t a + others a < 255
    → (u : Table) × (s' : Store f.State) × (replace f t s oldfd newfd ≡ some (ok newfd, u, s'))
      × (u newfd ≡ t oldfd)
      × ((i : ℕ) → i ≢ newfd → u i ≡ t i)
      × Counted others u s'
unfolding replace
replace_lem f others t s oldfd newfd a v ho hn ne at room =
    elim (close_one_lem f others t s newfd v hn) [
      | inl (off, e) ↦
          finish t s (rw (e, replace) (share-open f t s oldfd newfd a at)) v off (λ i p. refl)
            (λ x. omega arith)
      | inr (u, closed, e, c) ↦
          let same : u oldfd ≡ t oldfd = c.rest oldfd (λ p. ne (sym p)) in
          finish u closed
            (rw (e, replace) (share-open f u closed oldfd newfd a (ap (λ v. v.ofile) same ∙ at)))
            c.counted c.free c.rest c.fewer
    ]
  where
    finish :
        (u : Table) (closed : Store f.State)
        → replace f t s oldfd newfd ≡ some (ok newfd, update u newfd (u oldfd), bump closed a)
        → Counted others u closed
        → (u newfd).ofile ≡ none
        → ((i : ℕ) → i ≢ newfd → u i ≡ t i)
        → ((x : ℕ) → slots u x ≤ slots t x)
        → (w : Table) × (s' : Store f.State) × (replace f t s oldfd newfd ≡ some (ok newfd, w, s'))
          × (w newfd ≡ t oldfd)
          × ((i : ℕ) → i ≢ newfd → w i ≡ t i)
          × Counted others w s'
    finish u closed e counted free rest fewer =
        let same : u oldfd ≡ t oldfd = rest oldfd (λ p. ne (sym p)) in
        let open_ : (u oldfd).ofile ≡ some a = ap (λ v. v.ofile) same ∙ at in
        let held = slots_pos u oldfd a ho open_ in
        let on = λ (x : ℕ). let p : points x (u oldfd) ≡ (a == x) = rw open_ refl in p in
        let off = λ (x : ℕ). let p : points x (u newfd) ≡ false = rw free refl in p in
        (
          update u newfd (u oldfd),
          bump closed a,
          e,
          ground (arith, same),
          λ i p. ground (arith, rest i p),
          Refs-ext (bump closed a) _ _
              (λ x. ground (arith, on x, off x, slots-update u newfd x (u oldfd) hn))
              (bump-Refs closed (λ x. slots u x + others x) a counted (omega arith)
                (omega (arith, fewer a))),
        )

-- file_dup2 of an open descriptor onto one in range, where the counter does not overflow, returns
-- the new descriptor; its slot then equals the old one's, no other slot changes, and the references
-- are counted as before.
pub dup2_lem :
    (f : FileSys) (others : ℕ → ℕ) (t : Table) (s : Store f.State) (oldfd newfd a : ℕ)
    → Counted others t s
    → oldfd < nelems
    → newfd < nelems
    → (t oldfd).ofile ≡ some a
    → slots t a + others a < 255
    → (u : Table) × (s' : Store f.State) × (dup2 f t s oldfd newfd ≡ some (ok newfd, u, s'))
      × (u newfd ≡ t oldfd)
      × ((i : ℕ) → i ≢ newfd → u i ≡ t i)
      × Counted others u s'
unfolding dup2
dup2_lem f others t s oldfd newfd a v ho hn at room =
    let sign : is_negative newfd ≡ false = ground arith in
    let range : (is_negative oldfd
          || leb nelems (to_unsigned oldfd)
          || leb nelems (to_unsigned newfd))
        ≡ false =
      ground arith in
    elim (Bool-cases (newfd == oldfd)) [
      | inl e ↦
          let same : newfd ≡ oldfd = ground arith in
          (t, s, rw (range, sign, e) refl, ap t same, λ i p. refl, v)
      | inr e ↦
          let (u, s', done, slot, rest, counted) =
            replace_lem f others t s oldfd newfd a v ho hn (ground arith) at room in
          (u, s', rw (range, sign, e) done, slot, rest, counted)
    ]

-- file_dup2 reports EBADF for every new descriptor below 0: the search for a free slot is never
-- reached.
dup2-negative :
    (f : FileSys) (t : Table) (s : Store f.State) (oldfd newfd : ℕ)
    → 128 ≤ newfd
    → newfd < 256
    → dup2 f t s oldfd newfd ≡ some (err ebadf, t, s)
unfolding dup2
dup2-negative f t s oldfd newfd low high =
    let range : (is_negative oldfd
          || leb nelems (to_unsigned oldfd)
          || leb nelems (to_unsigned newfd))
        ≡ true =
      ground arith in
    rw range refl
