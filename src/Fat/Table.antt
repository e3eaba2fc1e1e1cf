-- ===== src/Fat/Table.antt =====
-- The FAT in its two cached pages: fat_fat_get and fat_fat_set. The pages are a function from a
-- page number and an offset to a byte. An `|` of values with no common bit is written as a sum,
-- a shift by a constant as a product or a quotient.
pub mod Linear
pub mod Entry
use zakos.Common.{
  ℕ, zero, suc, ◌+◌, ◌-◌, ◌*◌, ◌/◌, ◌%◌, ◌^◌, ◌≡◌, Bool, true, false, ◌||◌, Option, none, some, ltb,
  leb, ◌==◌, if◌then◌else◌, Result, ok, err, eio, failed,
}

-- PAGE_SIZE and FAT12_SECTOR_SIZE
abbrev pub page_size : ℕ
page_size = 4096

abbrev pub sector_size : ℕ
sector_size = 512

-- CLUSTER_FREE, CLUSTER_RESERVED and CLUSTER_END
abbrev pub cluster_free : ℕ
cluster_free = 0

abbrev pub cluster_reserved : ℕ
cluster_reserved = 0xFF0

abbrev pub cluster_end : ℕ
cluster_end = 0xFFF

-- FAT12_FAT_SIZE and FAT12_DATA_START
abbrev pub fat_size : ℕ
fat_size = 9

abbrev pub data_start : ℕ
data_start = 33

-- What fat.c reads and writes of `struct fs_ctx`: the cached pages, the dirty bits, and the size
-- of the block device.
pub record Ctx : Type 0 where
  pub fat : ℕ → ℕ → ℕ
  pub dirty : ℕ → Bool
  pub size : ℕ

-- CLUSTER2SECTOR on a 16-bit cluster number.
abbrev pub cluster2sector : ℕ → ℕ
cluster2sector c = (c + data_start - 2) % 2 ^ 16

-- fat_sector_round_down and fat_sector_round_up
abbrev pub sector_round_down : ℕ → ℕ
sector_round_down offs = offs / sector_size % 2 ^ 16

abbrev pub sector_round_up : ℕ → ℕ
sector_round_up offs = (offs + sector_size - 1) / sector_size % 2 ^ 16

-- The first byte of an entry, and its first bit's position in that byte, in 16 bits.
abbrev pub entry_idx : ℕ → ℕ
entry_idx n = 3 * n % 2 ^ 16 / 2

abbrev pub is_odd : ℕ → Bool
is_odd n = n % 2 == 1

-- `*cluster` is folded to one value for an end and one for a reserved entry.
abbrev pub classify : ℕ → ℕ
classify c = if leb 0xFF8 c then cluster_end else if leb 0xFF0 c then cluster_reserved else c

-- An entry from its two bytes.
abbrev pub decode : ℕ → ℕ → ℕ → ℕ
decode n b0 b1 = if is_odd n then b0 / 16 + b1 * 16 else b0 + b1 % 16 * 256

-- fat_fat_get
unfoldable pub fat_get : Ctx → ℕ → Result ℕ
fat_get x n =
    let page = if ltb (entry_idx n) page_size then 0 else 1 in
    let idx = entry_idx n % page_size in
    let b0 = x.fat page idx in
    let b1 = if idx + 1 == page_size then x.fat 1 0 else x.fat page (idx + 1) in
    if leb (sector_round_down x.size) (cluster2sector n)
    then err eio
    else ok (classify (decode n b0 b1))

abbrev pub poke : (ℕ → ℕ → ℕ) → ℕ → ℕ → ℕ → ℕ → ℕ → ℕ
poke fat p i v q j = if p == q then (if i == j then v else fat q j) else fat q j

abbrev pub mark : (ℕ → Bool) → ℕ → ℕ → Bool
mark dirty b c = if b == c then true else dirty c

-- The two bytes that fat_fat_set writes over `b0` and `b1`.
abbrev pub encode_low : ℕ → ℕ → ℕ → ℕ
encode_low n cluster b0 = (if is_odd n then cluster * 16 % 2 ^ 16 + b0 % 16 else cluster) % 256

abbrev pub encode_high : ℕ → ℕ → ℕ → ℕ → ℕ
encode_high n cluster b0 b1 =
    (if is_odd n then cluster * 16 % 2 ^ 16 + b0 % 16 else cluster + b1 / 16 * 16 * 256) / 256

-- The writes of fat_fat_set, at the page and the offset that it has computed.
unfoldable pub write_entry : Ctx → ℕ → ℕ → ℕ → ℕ → Ctx
write_entry x n cluster page idx =
    let b0 = x.fat page idx in
    let fat1 = poke x.fat page idx (encode_low n cluster b0) in
    let dirty1 = mark x.dirty (page * 8 + idx / 512) in
    let past = idx + 1 == page_size in
    let page' = if past then 1 else page in
    let idx' = if past then 0 else idx + 1 in
    record x {
      fat = poke fat1 page' idx' (encode_high n cluster b0 (fat1 page' idx'));
      dirty = if past then mark dirty1 8 else dirty1;
    }

-- fat_fat_set: the page of the first byte is chosen by `idx > PAGE_SIZE`.
unfoldable pub fat_set : Ctx → ℕ → ℕ → Result Ctx
fat_set x n cluster =
    let page = if ltb page_size (entry_idx n) then 1 else 0 in
    if (leb (sector_round_down x.size) (cluster2sector n)) || leb 4096 cluster
    then err failed
    else ok (write_entry x n cluster page (entry_idx n % page_size))
