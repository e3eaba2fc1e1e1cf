-- ===== src/Fat/Chain.antt =====
-- The chains of clusters: fat_fat_next, fat_fat_seek, fat_fat_allocate_cluster and the sector of a
-- directory entry; and the attributes of an entry.
pub mod Seek
pub mod Allocate
use Prim.Native.Nat.{bit_and, bit_or}
use zakos.Common.{
  ℕ, zero, suc, ◌+◌, ◌-◌, ◌*◌, ◌/◌, ◌%◌, ◌^◌, ◌≡◌, Bool, true, false, ◌||◌, ◌&&◌, leb, ◌==◌,
  if◌then◌else◌, Result, ok, err, eio, enoent, enospc, Option, none, some,
}
use zakos.Fat.Table.{
  Ctx, fat_get, cluster_free, cluster_reserved, cluster_end, sector_size, cluster2sector,
  sector_round_down,
}

-- fat_fat_next: the cluster, with true for the return value 1.
pub next : Ctx → ℕ → Result (ℕ × Bool)
next x c = elim (fat_get x c) [
  | err _ ↦ err eio
  | ok d ↦ if d == cluster_free || d == cluster_reserved then err eio else ok (d, d == cluster_end)
]

-- The loop of fat_fat_seek; the fuel is the number of whole sectors in `offs`.
pub seek_loop : ℕ → Ctx → ℕ → ℕ → Result (ℕ × Bool)
seek_loop zero x c offs = ok (c, false)
seek_loop (suc k) x c offs =
    if leb sector_size offs
    then elim (next x c) [
      | err e ↦ err e
      | ok (d, eof) ↦
          let go = seek_loop k x d (offs - sector_size) in if eof then ok (d, true) else go
    ]
    else ok (c, false)

-- fat_fat_seek, from the first cluster of a file.
pub seek : Ctx → ℕ → ℕ → Result (ℕ × Bool)
seek x first offs = seek_loop (offs / sector_size) x first offs

-- fat_file_dir_access: the sector and the offset of an entry of 32 bytes.
unfoldable pub dir_access : Ctx → ℕ → ℕ → Result (ℕ × ℕ)
unfolding seek
dir_access x first idx =
    let offs = idx * 32 in
    if first == 0xffff
    then ok ((19 + sector_round_down offs) % 2 ^ 16, offs % sector_size)
    else elim (seek x first offs) [
      | err e ↦ err e
      | ok (c, eof) ↦ if eof then err enoent else ok (cluster2sector c, offs % sector_size)
    ]

abbrev pub is_err {ℓ} : {A : Type ℓ} → Result A → Bool
is_err (ok a) = false
is_err (err c) = true

-- `ncluster` after a call of fat_fat_get, which leaves it as it is where it fails.
abbrev pub entry_or : ℕ → Result ℕ → ℕ
entry_or stale (ok d) = d
entry_or stale (err c) = stale

-- The loop of fat_fat_allocate_cluster at `*new`, with the content of `ncluster`, which the code
-- does not initialise; `none` is out of fuel.
unfoldable pub alloc_loop : ℕ → Ctx → ℕ → ℕ → Bool → ℕ → Option (Result ℕ)
alloc_loop zero x start new retry stale = none
alloc_loop (suc k) x start new retry stale =
    let failed = is_err (fat_get x new) in
    let ncluster = entry_or stale (fat_get x new) in
    let new' = if failed then 0 else new in
    let again = alloc_loop k x start ((new' + 1) % 2 ^ 16) (retry || failed) ncluster in
    if new == start
    then some (err enospc)
    else if failed && retry
    then some (err eio)
    else if ncluster == cluster_free
    then some (ok new')
    else again

-- fat_fat_allocate_cluster
unfoldable pub allocate_cluster : ℕ → Ctx → ℕ → ℕ → Option (Result ℕ)
allocate_cluster fuel x start stale = alloc_loop fuel x start ((start + 1) % 2 ^ 16) false stale

-- fat_attr2fat
pub attr2fat : ℕ → ℕ
attr2fat attr =
    let read_only = if bit_and attr 0x40 == 0 then 0x01 else 0 in
    if bit_and attr 0x04 == 0 then read_only else bit_or read_only 0x10

-- fat_fat2attr
unfoldable pub fat2attr : ℕ → ℕ
fat2attr fattr =
    let write = if bit_and fattr 0x01 == 0 then bit_or 0xA0 0x40 else 0xA0 in
    if bit_and fattr 0x10 == 0 then bit_or write 0x10 else bit_or write 0x04
