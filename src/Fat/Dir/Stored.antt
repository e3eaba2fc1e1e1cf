-- ===== src/Fat/Dir/Stored.antt =====
-- An entry that is written is read back.
use zakos.Common.{
  ℕ, ◌+◌, ◌-◌, ◌<◌, ◌≡◌, ◌≢◌, refl, sym, ap, ◌∙◌, inl, inr, true, false, Result-cases, ok, err,
  Errno, arith,
}
use zakos.Fat.Table.{Ctx}
use zakos.Fat.Chain.{dir_access}
use zakos.Fat.Sync.{BlockDev}
use zakos.Fat.Entries.{sector_offset, entry_size, dir_read, dir_write}
use zakos.Fat.Dir.{list_entry, is_vacant, fat_readdir}

module _ (b : BlockDev) where
  open b use {Disk, byte, read, write, read_loads, write_stores}

  -- The place of an entry that can be read.
  pub place_of :
      (x : Ctx) (d : Disk) (first idx : ℕ) (e : ℕ → ℕ)
      → dir_read b x d first idx ≡ ok e
      → (p : ℕ × ℕ) × (dir_access x first idx ≡ ok p)
  unfolding dir_read
  place_of x d first idx e h = elim (Result-cases (dir_access x first idx)) [
    | inl (p, q) ↦ (p, q)
    | inr (c, q) ↦ absurd (not_read c q h)
  ]
    where
      not_read : (c : Errno) → dir_access x first idx ≡ err c → dir_read b x d first idx ≢ ok e
      not_read c q = rw (q, dir_read) (λ r. absurd cc)

  read_run :
      (x : Ctx) (d : Disk) (first idx : ℕ) (p : ℕ × ℕ)
      → dir_access x first idx ≡ ok p
      → dir_read b x d first idx ≡ read d (sector_offset p.0 + p.1) entry_size
  unfolding dir_read
  read_run x d first idx p q = rw (q, dir_read) refl

  write_run :
      (x : Ctx) (d : Disk) (first idx : ℕ) (e : ℕ → ℕ) (p : ℕ × ℕ)
      → dir_access x first idx ≡ ok p
      → dir_write b x d first e idx ≡ write d (sector_offset p.0 + p.1) e entry_size
  unfolding dir_write
  write_run x d first idx e p q = rw (q, dir_write) refl

  -- An entry that was written is read back, if the read does not fail.
  pub dir_read-dir_write :
      (x : Ctx) (d : Disk) (first idx : ℕ) (e g : ℕ → ℕ) (p : ℕ × ℕ)
      → dir_access x first idx ≡ ok p
      → (dir_write b x d first e idx).0 ≡ ok tt
      → dir_read b x (dir_write b x d first e idx).1 first idx ≡ ok g
      → (j : ℕ) → j < 32
      → g j ≡ e j
  dir_read-dir_write x d first idx e g p q stored loaded j h =
      let offs = sector_offset p.0 + p.1 in
      let run = write_run x d first idx e p q in
      let after = (write d offs e entry_size).1 in
      let got : read after offs entry_size ≡ ok g =
        sym (read_run x after first idx p q)
        ∙ ap (λ z. dir_read b x z first idx) (sym (ap (λ r. r.1) run))
        ∙ loaded in
      read_loads after offs entry_size g got j h
      ∙ write_stores d offs e entry_size (offs + j) (sym (ap (λ r. r.0) run) ∙ stored)
      ∙ ground (arith, h, ap e {x = offs + j - offs} {y = j})

  pub fat_readdir-lists :
      (x : Ctx) (d : Disk) (first idx : ℕ) (e : ℕ → ℕ)
      → dir_read b x d first idx ≡ ok e
      → fat_readdir b x d first idx ≡ list_entry e idx
  unfolding fat_readdir
  fat_readdir-lists x d first idx e h = rw (h, fat_readdir) refl

  -- The entry at an index can be read and is in use.
  abbrev pub InUse : Ctx → Disk → ℕ → ℕ → Type 0
  InUse x d first i = (e : ℕ → ℕ) × (dir_read b x d first i ≡ ok e) × (is_vacant e ≡ false)

  abbrev pub Vacant : Ctx → Disk → ℕ → ℕ → Type 0
  Vacant x d first i = (e : ℕ → ℕ) × (dir_read b x d first i ≡ ok e) × (is_vacant e ≡ true)
