-- ===== src/Fat/Entries.antt =====
-- Directory entries of kernel/fs/fat.c, on the block device: fat_file_dir_read, fat_file_dir_write and
-- fat_cluster_clear, and the fetch of the table. An entry is its 32 bytes, as in `struct fat_dentry`.
use zakos.Common.{
  ℕ, zero, suc, ◌+◌, ◌-◌, ◌*◌, ◌/◌, ◌%◌, false, List, [], ◌∷◌, ◌==◌, ltb, if◌then◌else◌, update,
  Result, ok, err, eio,
}
use zakos.Fat.Table.{Ctx, page_size, sector_size, fat_size, cluster2sector}
use zakos.Fat.Chain.{dir_access}
use zakos.Fat.Sync.{BlockDev}

-- The size of `struct fat_dentry`.
abbrev pub entry_size : ℕ
entry_size = 32

-- `len` bytes of an entry from offset `i` on.
abbrev pub bytes_from : (ℕ → ℕ) → ℕ → ℕ → List ℕ
bytes_from e i zero = []
bytes_from e i (suc len) = e i ∷ bytes_from e (i + 1) len

-- `fname` and `extension`
abbrev pub fname_of : (ℕ → ℕ) → List ℕ
fname_of e = bytes_from e 0 8

abbrev pub extension_of : (ℕ → ℕ) → List ℕ
extension_of e = bytes_from e 8 3

-- `cluster` and `size`, which are stored with the low byte first.
abbrev pub cluster_of : (ℕ → ℕ) → ℕ
cluster_of e = e 26 + e 27 * 256

abbrev pub with_cluster : (ℕ → ℕ) → ℕ → ℕ → ℕ
with_cluster e c = update (update e 26 (c % 256)) 27 (c / 256 % 256)

abbrev pub size_of : (ℕ → ℕ) → ℕ
size_of e = e 28 + e 29 * 256 + e 30 * 65536 + e 31 * 16777216

abbrev pub with_size : (ℕ → ℕ) → ℕ → ℕ → ℕ
with_size e n =
    update (update (update (update e 28 (n % 256)) 29 (n / 256 % 256)) 30 (n / 65536 % 256)) 31
      (n / 16777216 % 256)

-- The bytes of a list, from offset `i` on, over those of `e`.
abbrev pub over : List ℕ → ℕ → (ℕ → ℕ) → ℕ → ℕ
over [] i e = e
over (c ∷ r) i e = update (over r (i + 1) e) i c

-- fat_sector_offset
abbrev pub sector_offset : ℕ → ℕ
sector_offset sector = sector * sector_size

module _ (b : BlockDev) where
  open b use {Disk, read, write}

  -- fat_file_dir_read
  unfoldable pub dir_read : Ctx → Disk → ℕ → ℕ → Result (ℕ → ℕ)
  dir_read x d first idx = elim (dir_access x first idx) [
    | err e ↦ err e
    | ok p ↦ read d (sector_offset p.0 + p.1) entry_size
  ]

  -- fat_file_dir_write
  unfoldable pub dir_write : Ctx → Disk → ℕ → (ℕ → ℕ) → ℕ → Result (Unit {0}) × Disk
  dir_write x d first entry idx = elim (dir_access x first idx) [
    | err e ↦ (err e, d)
    | ok p ↦ write d (sector_offset p.0 + p.1) entry entry_size
  ]

  -- fat_cluster_clear
  unfoldable pub cluster_clear : Disk → ℕ → ℕ → ℕ → Result (Unit {0}) × Disk
  cluster_clear d cluster offs len =
      let (r, e) = write d (sector_offset (cluster2sector cluster) + offs) (λ i. 0) len in
      elim r [ ok _ ↦ (ok tt, e) | err _ ↦ (err eio, e) ]

  -- The pages of the table, the second of which the read fills in part.
  abbrev fetched : Ctx → ℕ → ℕ → (ℕ → ℕ) → Ctx
  fetched x page len buff = record x {
    fat = λ p i. if p == page then (if ltb i len then buff i else x.fat p i) else x.fat p i;
  }

  -- fat_fat_fetch
  unfoldable pub fetch : Ctx → Disk → Result (Unit {0}) × Ctx
  fetch x d = elim (read d sector_size page_size) [
    | err _ ↦ (err eio, x)
    | ok p ↦
        let y = fetched x 0 page_size p in
        let rest = sector_size * fat_size - page_size in
        elim (read d (sector_size + page_size) rest) [
          | err _ ↦ (err eio, y)
          | ok q ↦ (ok tt, record (fetched y 1 rest q) { dirty = λ s. false })
        ]
  ]
