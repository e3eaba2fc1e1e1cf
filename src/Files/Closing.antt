-- ===== src/Files/Closing.antt =====
-- file_close and file_close_all.
use zakos.Common.{
  ℕ, zero, suc, ◌+◌, ◌≤◌, ◌<◌, ◌≡◌, ◌≢◌, ◌⊎◌, inl, inr, refl, none, some, ◌==◌, if◌then◌else◌,
  arith, ok, err, ebadf, Option-cases,
}
use zakos.Files.{FileSys, Table, Store, nelems, put, cleared, close_one, close_slots, close_all}
use zakos.Files.Counts.{points, slots, slots-update, slots-none, Refs, Refs-ext, Counted, put-Refs}

-- A slot that is open counts for its file.
pub slots-cleared :
    (t : Table) (fd a x : ℕ)
    → fd < nelems
    → (t fd).ofile ≡ some a
    → slots (cleared t fd) x + (if a == x then 1 else 0) ≡ slots t x
slots-cleared t fd a x h at =
    let here : points x (t fd) ≡ (a == x) = rw at refl in
    let more = slots-update t fd x (record (t fd) { ofile = none }) h in ground (arith, more, here)

-- What closing a slot leaves behind.
pub record Closed (f : FileSys) (others : ℕ → ℕ) (t : Table) (fd : ℕ) (u : Table)
    (s : Store f.State) : Type 0 where
  pub free : (u fd).ofile ≡ none
  pub rest : (i : ℕ) → i ≢ fd → u i ≡ t i
  pub fewer : (a : ℕ) → slots u a ≤ slots t a
  pub counted : Counted others u s

pub close_one_lem :
    (f : FileSys) (others : ℕ → ℕ) (t : Table) (s : Store f.State) (fd : ℕ)
    → Counted others t s
    → fd < nelems
    → (((t fd).ofile ≡ none) × (close_one f t s fd ≡ (err ebadf, t, s)))
      ⊎ ((u : Table) × (s' : Store f.State) × (close_one f t s fd ≡ (ok tt, u, s'))
          × Closed f others t fd u s')
unfolding close_one
close_one_lem f others t s fd v h = elim (Option-cases (t fd).ofile) [
  | inl e ↦ inl (e, rw (e, close_one) refl)
  | inr (a, e) ↦
      let one = slots-cleared t fd a a h e in
      let held : 0 < slots t a + others a = ground (arith, one) in
      inr (
        cleared t fd,
        put f s a,
        rw (e, close_one) refl,
        record {
          free = ground arith;
          rest = λ i ne. ground arith;
          fewer = λ x. omega (arith, slots-cleared t fd a x h e);
          counted =
              Refs-ext (put f s a) _ _ (λ x. ground (arith, slots-cleared t fd a x h e))
                (put-Refs f s (λ x. slots t x + others x) a v held);
        },
      )
]

close_slots_lem :
    (f : FileSys) (others : ℕ → ℕ) (n : ℕ) (t : Table) (s : Store f.State)
    → Counted others t s
    → n ≤ nelems
    → Counted others (close_slots f n t s).0 (close_slots f n t s).1
      × ((i : ℕ) → i < n → ((close_slots f n t s).0 i).ofile ≡ none)
unfolding close_slots
close_slots_lem f others zero t s v h = (v, λ i p. absurd (omega arith))
close_slots_lem f others (suc n) t s v h =
    let (u, before) = close_slots f n t s in
    let (counted, free) = close_slots_lem f others n t s v (omega arith) in
    elim (close_one_lem f others u before n counted (omega arith)) [
      | inl (off, e) ↦ rw e (counted, λ i p. ground (arith, free i, off))
      | inr (w, after, e, done) ↦
          rw e (done.counted, λ i p. ground (arith, free i, done.free, done.rest i))
    ]

-- file_close_all leaves every slot free, and of each open file exactly the references that are not
-- the table's: it is freed exactly if there are none.
close_all_lem :
    (f : FileSys) (others : ℕ → ℕ) (t : Table) (s : Store f.State)
    → Counted others t s
    → ((i : ℕ) → i < nelems → ((close_all f t s).0 i).ofile ≡ none)
      × Refs (close_all f t s).1 others
unfolding close_all
close_all_lem f others t s v =
    let (counted, free) = close_slots_lem f others nelems t s v (omega arith) in
    (
      free,
      Refs-ext (close_slots f nelems t s).1 _ others
          (λ a. ground (arith, slots-none (close_slots f nelems t s).0 a free)) counted,
    )
