-- ===== src/Fat/Sync.antt =====
-- fat_fat_sync: the dirty sectors of the cached table go to both copies on the disk. The block
-- device is a parameter: its write either fails or stores the bytes.
pub mod Flush
use zakos.Common.{
  ℕ, zero, suc, ◌+◌, ◌-◌, ◌*◌, ◌/◌, ◌%◌, ◌<◌, ◌≡◌, Bool, true, false, ◌||◌, ◌&&◌, ltb, leb, ◌==◌,
  if◌then◌else◌, Result, ok, err, Errno, eio,
}
use zakos.Fat.Table.{Ctx, fat_size, page_size, sector_size}

-- `struct dev_blk`. A write of `len` bytes at `offs` that does not fail stores them, and changes no
-- other byte; a read that does not fail fills the buffer with the bytes of the disk.
pub record BlockDev : Type 1 where
  pub Disk : Type 0
  pub byte : Disk → ℕ → ℕ
  pub write : Disk → ℕ → (ℕ → ℕ) → ℕ → Result (Unit {0}) × Disk
  pub read : Disk → ℕ → ℕ → Result (ℕ → ℕ)
  pub read_loads :
      (d : Disk) (offs len : ℕ) (buff : ℕ → ℕ)
      → read d offs len ≡ ok buff
      → (i : ℕ) → i < len
      → buff i ≡ byte d (offs + i)
  pub write_stores :
      (d : Disk) (offs : ℕ) (buff : ℕ → ℕ) (len a : ℕ)
      → (write d offs buff len).0 ≡ ok tt
      → byte (write d offs buff len).1 a
        ≡ (if leb offs a && ltb a (offs + len) then buff (a - offs) else byte d a)

-- `fat_dirty` is not zero: some of its bits is set.
unfoldable pub any_dirty : (ℕ → Bool) → ℕ → Bool
any_dirty d zero = false
any_dirty d (suc n) = d n || any_dirty d n

module _ (b : BlockDev) where
  open b use {Disk, write}

  -- The bytes that are mapped for a sector of the table.
  abbrev pub sector_data : Ctx → ℕ → ℕ → ℕ
  sector_data x i k = x.fat (if leb 8 i then 1 else 0) (i % 8 * sector_size + k)

  -- One round of the loop, at a dirty sector: the write to each of the two copies.
  unfoldable pub flush_sector : Ctx → ℕ → Disk → Result (Unit {0}) × Disk
  flush_sector x i d =
      let (r, e) = write d ((i + 1) * sector_size) (sector_data x i) sector_size in
      elim r [
        | ok _ ↦ write e ((i + fat_size + 1) * sector_size) (sector_data x i) sector_size
        | err c ↦ (err c, e)
      ]

  -- The loop of fat_fat_sync, with `n` rounds left.
  unfoldable pub sync_loop : ℕ → Ctx → ℕ → Disk → Result (Unit {0}) × Disk
  sync_loop zero x i d = (ok tt, d)
  sync_loop (suc n) x i d =
      let skip = sync_loop n x (i + 1) d in
      let (r, e) = flush_sector x i d in
      let flushed : Result (Unit {0}) × Disk = elim r [
        | ok _ ↦ sync_loop n x (i + 1) e
        | err c ↦ (err c, e)
      ] in
      if any_dirty x.dirty 16 then (if x.dirty i then flushed else skip) else (ok tt, d)

  -- fat_fat_sync
  unfoldable pub sync : Ctx → Disk → Result (Unit {0}) × Ctx × Disk
  sync x d =
      let (r, e) = sync_loop fat_size x 0 d in
      elim r [ ok _ ↦ (ok tt, record x { dirty = λ s. false }, e) | err c ↦ (err c, x, e) ]
