-- ===== src/Files/Io/Outcome.antt =====
-- How file_open ends.
use zakos.Common.{
  ℕ, zero, suc, ◌+◌, ◌≤◌, ◌<◌, ◌≡◌, ◌≢◌, ◌⊎◌, inl, inr, refl, ap, ◌∙◌, sym, true, false, none, some,
  ◌==◌, if◌then◌else◌, update, arith, Result, ok, err, Errno, enfile, Option-cases, Bool-cases,
}
use zakos.Files.{FileSys, Table, Store, nelems, find_free, has_flag, o_trunc, o_append}
use zakos.Files.Counts.{Counted}

pub find_free_lem :
    (t : Table) (n i : ℕ)
    → ((find_free t n i ≡ none) × ((j : ℕ) → i ≤ j → j < i + n → (t j).ofile ≢ none))
      ⊎ ((fd : ℕ) × (find_free t n i ≡ some fd)
          × (fd < i + n)
          × ((t fd).ofile ≡ none)
          × ((j : ℕ) → i ≤ j → j < fd → (t j).ofile ≢ none))
unfolding find_free
find_free_lem t zero i = inl (refl, λ j p q. absurd (omega arith))
find_free_lem t (suc n) i = elim (Option-cases (t i).ofile) [
  | inl e ↦ inr (i, rw (e, find_free) refl, omega arith, e, λ j p q. absurd (omega arith))
  | inr (a, e) ↦ elim (find_free_lem t n (i + 1)) [
    | inl (miss, all) ↦ inl (
      rw (e, find_free) miss,
      λ j p q. elim (Bool-cases (i == j)) [
        | inl here ↦ taken t i j a e (ground arith)
        | inr there ↦ all j (ground arith) (omega arith)
      ],
    )
    | inr (fd, found, low, free, before) ↦ inr (
      fd,
      rw (e, find_free) found,
      omega arith,
      free,
      λ j p q. elim (Bool-cases (i == j)) [
        | inl here ↦ taken t i j a e (ground arith)
        | inr there ↦ before j (ground arith) q
      ],
    )
  ]
]
  where
    taken : (t : Table) (i j a : ℕ) → (t i).ofile ≡ some a → i ≡ j → (t j).ofile ≢ none
    taken t i j a e at gone =
        let open_ : (t j).ofile ≡ some a = ap (λ k. (t k).ofile) (sym at) ∙ e in
        let no : some a ≡ none = sym open_ ∙ gone in absurd cc

-- The file system has opened `file`, and cut it if that was wanted, and is in the state `fs`.
abbrev pub Prepared : (f : FileSys) → f.State → ℕ → ℕ → ℕ → ℕ → f.State → Type 0
Prepared f fs0 path mode attr file fs =
    let p = f.open_path fs0 path mode attr in
    let cut = f.truncate_to p.1 file 0 in
    (p.0 ≡ ok file)
    × (((has_flag mode o_trunc ≡ false) × (fs ≡ p.1))
        ⊎ ((has_flag mode o_trunc ≡ true) × ((n : ℕ) × (cut.0 ≡ ok n)) × (fs ≡ cut.1)))

-- What file_open leaves behind when it returns `fd`, where the file system has prepared `file`.
pub record Opened (f : FileSys) (others : ℕ → ℕ) (t : Table) (s : Store f.State)
    (a mode handle fd : ℕ) (ready : f.State) (u : Table) (s' : Store f.State) : Type 0 where
  pub inside : fd < nelems
  pub was_free : (t fd).ofile ≡ none
  pub lowest : (i : ℕ) → i < fd → (t i).ofile ≢ none
  pub table : u ≡ update t fd (record { ofile = some a; flags = mode })
  pub file : (s'.open_files a).file ≡ handle
  pub offset :
      (s'.open_files a).offset ≡ (if has_flag mode o_append then f.size ready handle else 0)
  pub fs : s'.fs ≡ ready
  pub live : s'.live ≡ update s.live a true
  pub rest : (x : ℕ) → x ≢ a → s'.open_files x ≡ s.open_files x
  pub counted : Counted others u s'

-- Why file_open fails with `c`, and the state of the file system behind it.
pub data Missed (f : FileSys) (t : Table) (fs0 : f.State) (path mode attr : ℕ) (c : Errno)
    (fs' : f.State) : Type 0 where
  not_opened :
      (f.open_path fs0 path mode attr).0 ≡ err c
      → fs' ≡ (f.open_path fs0 path mode attr).1
      → Missed f t fs0 path mode attr c fs'
  not_cut :
      (file : ℕ)
      → (f.open_path fs0 path mode attr).0 ≡ ok file
      → has_flag mode o_trunc ≡ true
      → (f.truncate_to (f.open_path fs0 path mode attr).1 file 0).0 ≡ err c
      → fs' ≡ f.close_file (f.truncate_to (f.open_path fs0 path mode attr).1 file 0).1 file
      → Missed f t fs0 path mode attr c fs'
  no_slot :
      (file : ℕ) (fs : f.State)
      → Prepared f fs0 path mode attr file fs
      → c ≡ enfile
      → ((i : ℕ) → i < nelems → (t i).ofile ≢ none)
      → fs' ≡ f.close_file fs file
      → Missed f t fs0 path mode attr c fs'

abbrev pub OpenOutcome :
    (f : FileSys)
    → (ℕ → ℕ)
    → Table
    → Store f.State
    → ℕ
    → ℕ
    → ℕ
    → ℕ
    → Result ℕ × Table × Store f.State
    → Type 0
OpenOutcome f others t s a path mode attr o =
    ((file fd : ℕ) × (fs : f.State) × (u : Table) × (s' : Store f.State) × (o ≡ (ok fd, u, s'))
      × Prepared f s.fs path mode attr file fs
      × Opened f others t s a mode file fd fs u s')
    ⊎ ((c : Errno) × (s' : Store f.State) × (o ≡ (err c, t, s'))
        × Missed f t s.fs path mode attr c s'.fs
        × ((x : ℕ) → s'.live x ≡ s.live x)
        × ((x : ℕ) → x ≢ a → s'.open_files x ≡ s.open_files x)
        × Counted others t s')
