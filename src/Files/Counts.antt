-- ===== src/Files/Counts.antt =====
-- Every reference to an open file is counted in its record, and the record is freed exactly when
-- none is left.
use zakos.Common.{
  ℕ, zero, suc, ◌+◌, ◌-◌, ◌<◌, ◌≡◌, refl, ap, Bool, false, none, some, ltb, ◌==◌, if◌then◌else◌,
  update, count, count-update, arith,
}
use zakos.Files.{FileSys, Slot, Table, Store, nelems, bump, put}

-- The slot refers to the open file at an address.
abbrev pub points : ℕ → Slot → Bool
points a v = elim v.ofile [ none ↦ false | some b ↦ b == a ]

-- How many slots of a table refer to an open file.
unfoldable pub slots : Table → ℕ → ℕ
slots t a = count (points a) t nelems

-- A new content of a slot trades its reference for the old one.
pub slots-update :
    (t : Table) (fd x : ℕ) (v : Slot)
    → fd < nelems
    → slots (update t fd v) x + (if points x (t fd) then 1 else 0)
      ≡ slots t x + (if points x v then 1 else 0)
unfolding slots
slots-update t fd x v h = count-update (points x) t fd v nelems h

count-none :
    (t : Table) (a n : ℕ) → ((i : ℕ) → i < n → (t i).ofile ≡ none) → count (points a) t n ≡ 0
count-none t a zero h = refl
count-none t a (suc n) h =
    let off : points a (t n) ≡ false = rw (h n (omega arith)) refl in
    ground (arith, count-none t a n (λ i p. h i (omega arith)), off)

-- A table without an open slot refers to no file.
pub slots-none : (t : Table) (a : ℕ) → ((i : ℕ) → i < nelems → (t i).ofile ≡ none) → slots t a ≡ 0
unfolding slots
slots-none t a h = count-none t a nelems h

count_same :
    (t u : Table) (a n : ℕ)
    → ((i : ℕ) → i < n → u i ≡ t i)
    → count (points a) u n ≡ count (points a) t n
count_same t u a zero h = refl
count_same t u a (suc n) h =
    let same : points a (u n) ≡ points a (t n) = ap (points a) (h n (omega arith)) in
    ground (arith, count_same t u a n (λ i p. h i (omega arith)), same)

-- Tables with the same slots refer to the same files.
pub slots_same : (t u : Table) (a : ℕ) → ((i : ℕ) → i < nelems → u i ≡ t i) → slots u a ≡ slots t a
unfolding slots
slots_same t u a h = count_same t u a nelems h

module _ {S : Type 0} where
  -- The open file at each address has `r` references: it is allocated if there is one, and its
  -- counter does not wrap.
  pub record Refs (s : Store S) (r : ℕ → ℕ) : Type 0 where
    pub live : (a : ℕ) → s.live a ≡ ltb 0 (r a)
    pub refs : (a : ℕ) → 0 < r a → (s.open_files a).refs ≡ r a
    pub small : (a : ℕ) → r a < 256

  -- The references are those of a table and those of the other tables and the running calls.
  abbrev pub Counted : (ℕ → ℕ) → Table → Store S → Type 0
  Counted others t s = Refs s (λ a. slots t a + others a)

  pub Refs-ext : (s : Store S) (r q : ℕ → ℕ) → ((a : ℕ) → r a ≡ q a) → Refs s r → Refs s q
  Refs-ext s r q e v = record {
    live = λ a. ground (arith, e a, v.live a);
    refs = λ a p. ground (arith, e a, v.refs a);
    small = λ a. ground (arith, e a, v.small a);
  }

  -- One reference more, to a file that has one.
  pub bump-Refs :
      (s : Store S) (r : ℕ → ℕ) (a : ℕ)
      → Refs s r
      → 0 < r a
      → r a < 255
      → Refs (bump s a) (λ x. if a == x then r x + 1 else r x)
  unfolding bump
  bump-Refs s r a v held room = record {
    live = λ x. ground (arith, v.live x);
    refs = λ x p. ground (arith, v.refs x, v.refs a);
    small = λ x. ground (arith, v.small x);
  }

-- One reference less.
pub put-Refs :
    (f : FileSys) (s : Store f.State) (r : ℕ → ℕ) (a : ℕ)
    → Refs s r
    → 0 < r a
    → Refs (put f s a) (λ x. if a == x then r x - 1 else r x)
unfolding put
put-Refs f s r a v held = record {
  live = λ x. ground (arith, v.live x, v.refs a held, v.small a);
  refs = λ x p. ground (arith, v.refs x, v.refs a held, v.small a);
  small = λ x. ground (arith, v.small x);
}
