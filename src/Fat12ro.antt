-- ===== src/Fat12ro.antt =====
-- bootloader/fat12ro.c: the read-only FAT12 of the boot loader. `read_cb` stands for the callback
-- `read_sector`: from a sector's number and the buffer to the error, if any, and the buffer. An
-- `|` of values with no common bit is written as a sum.
pub mod Seek
pub mod Chunks
pub mod Read
pub mod Mount
pub mod Names
mod Tests
use zakos.Common.{
  ℕ, zero, suc, ◌+◌, ◌-◌, ◌*◌, ◌/◌, ◌%◌, ◌^◌, Bool, true, false, not, ◌&&◌, ◌||◌, Option, none,
  some, List, [], ◌∷◌, ◌++◌, ltb, leb, ◌==◌, if◌then◌else◌, update, Result, ok, err, Errno, eio,
  enoent, enotdir, eisdir, failed,
}

-- FAT12_SECTOR_SIZE, FAT12_FAT_SIZE and FAT12_DATA_START
abbrev pub sector_bytes : ℕ
sector_bytes = 512

abbrev pub fat_sectors : ℕ
fat_sectors = 9

abbrev pub first_data : ℕ
first_data = 33

-- CLUSTER2SECTOR on a 16-bit cluster number.
abbrev pub sector_of : ℕ → ℕ
sector_of c = (c + first_data - 2) % 2 ^ 16

-- `struct fat12_fs` without the callback, and `fat_table`.
pub record Fat12Fs : Type 0 where
  pub sbuff : ℕ → ℕ
  pub sno : ℕ
  pub size : ℕ
  pub fat_table : ℕ → ℕ

-- What is read of `struct fat12_dentry`.
pub record Fat12Dentry : Type 0 where
  pub fname : ℕ → ℕ
  pub extension : ℕ → ℕ
  pub attr : ℕ
  pub cluster : ℕ
  pub size : ℕ

-- `struct fat12_file`
pub record Fat12File : Type 0 where
  pub dentry : Fat12Dentry
  pub recent_cluster : ℕ
  pub recent_offs : ℕ
  pub dentry_sector : ℕ
  pub dentry_offs : ℕ

-- Two and four bytes of the buffer.
abbrev pub word_at : (ℕ → ℕ) → ℕ → ℕ
word_at b i = b i + 256 * b (i + 1)

abbrev pub long_at : (ℕ → ℕ) → ℕ → ℕ
long_at b i = word_at b i + 65536 * word_at b (i + 2)

-- The memcpy of a directory entry.
abbrev pub dentry_at : (ℕ → ℕ) → ℕ → Fat12Dentry
dentry_at b i = record {
  fname = λ j. b (i + j);
  extension = λ j. b (i + 8 + j);
  attr = b (i + 11);
  cluster = word_at b (i + 26);
  size = long_at b (i + 28);
}

-- FAT12_ATTR_DIR
abbrev pub is_directory : Fat12Dentry → Bool
is_directory d = d.attr / 16 % 2 == 1

-- What fat12_file_seek returns: 0, 1 or an error.
pub data Sought : Type 0 where
  there : Sought
  eof : Sought
  lost : Errno → Sought

-- fat12_fat_get
unfoldable pub fat12_fat_get : Fat12Fs → ℕ → Result ℕ
fat12_fat_get fs n =
    let idx = 3 * n % 2 ^ 16 / 2 in
    let b0 = fs.fat_table idx in
    let b1 = fs.fat_table (idx + 1) in
    let c = if n % 2 == 1 then b0 / 16 + b1 * 16 else b0 + b1 % 16 * 256 in
    if ltb fs.size (sector_of n)
    then err eio
    else ok (if leb 0xFF8 c then 0xFFF else if leb 0xFF0 c then 0xFF0 else c)

-- What a round of the loop of fat12_file_seek makes of the FAT's entry.
pub follow : Fat12Fs → ℕ → Sought × ℕ
follow fs n = elim (fat12_fat_get fs n) [
  | err e ↦ (lost e, n)
  | ok c ↦
      if c == 0 || (c == 0xFF0) then (lost eio, n) else if c == 0xFFF then (eof, n) else (there, c)
]

-- The loop of fat12_file_seek, with the number of rounds left.
pub fat12_seek_loop : ℕ → Fat12Fs → Fat12File → Sought × Fat12File
fat12_seek_loop zero fs file = (there, file)
fat12_seek_loop (suc n) fs file =
    let step = follow fs file.recent_cluster in
    elim step.0 [
      | there ↦ fat12_seek_loop n fs (record file { recent_cluster = step.1 })
      | eof ↦ (eof, file)
      | lost e ↦ (lost e, file)
    ]

-- The sector of a file that an offset is in, in 16 bits.
abbrev pub index_of : ℕ → ℕ
index_of offs = offs / sector_bytes % 2 ^ 16

-- fat12_file_seek
pub fat12_file_seek : Fat12Fs → Fat12File → ℕ → Sought × Fat12File
fat12_file_seek fs file offs =
    let last = index_of file.recent_offs in
    let new = index_of offs in
    let r =
      if ltb new last
      then fat12_seek_loop new fs (record file { recent_cluster = file.dentry.cluster })
      else fat12_seek_loop (new - last) fs file in
    elim r.0 [ there ↦ (there, record r.1 { recent_offs = offs }) | eof ↦ r | lost e ↦ r ]

-- memcpy to the end of what is read so far.
unfoldable pub copy_out : (ℕ → ℕ) → ℕ → ℕ → List ℕ
copy_out b i zero = []
copy_out b i (suc n) = b i ∷ copy_out b (i + 1) n

-- A round of the loop of fat12_file_read after the seek, for `left` bytes at most.
pub chunk_of : ℕ → ℕ → ℕ
chunk_of offs left =
    let chunk = sector_bytes - offs % sector_bytes in if ltb left chunk then left else chunk

-- How much fat12_file_read asks for.
pub read_size : Fat12File → ℕ → ℕ → ℕ
read_size file bufflen offs =
    let fit =
      if ltb file.dentry.size ((offs + bufflen) % 2 ^ 32)
      then (file.dentry.size - offs) % 2 ^ 16
      else bufflen in
    if ltb 0x7FFF fit then 0x7FFF else fit

module _ (read_cb : ℕ → (ℕ → ℕ) → Option Errno × (ℕ → ℕ)) where
  -- fat12_read_sector
  pub fat12_read_sector : Fat12Fs → ℕ → Option Errno × Fat12Fs
  fat12_read_sector fs n =
      let r = read_cb n fs.sbuff in
      if n == fs.sno then (none, fs) else (r.0, record fs { sbuff = r.1; sno = n })

  -- The end of fat12_file_read_dir: the entry at an offset of a sector.
  pub read_entry : Fat12Fs → ℕ → ℕ → Result Fat12Dentry × Fat12Fs
  read_entry fs sector offs =
      let r = fat12_read_sector fs sector in
      elim r.0 [
        | some e ↦ (err e, r.1)
        | none ↦ (ok (dentry_at r.1.sbuff (offs % sector_bytes)), r.1)
      ]

  -- fat12_file_read_dir; `none` is the root directory.
  pub fat12_file_read_dir :
      Fat12Fs → Option Fat12File → ℕ → Result Fat12Dentry × Fat12Fs × Option Fat12File
  fat12_file_read_dir fs none idx =
      let r = read_entry fs ((19 + 32 * idx / sector_bytes) % 2 ^ 16) (32 * idx) in (r.0, r.1, none)
  fat12_file_read_dir fs (some dir) idx =
      let s = fat12_file_seek fs dir (32 * idx) in
      let r = read_entry fs (sector_of s.1.recent_cluster) (32 * idx) in
      if not (is_directory dir.dentry) then (err enotdir, fs, some dir) else elim s.0 [
        | lost e ↦ (err e, fs, some s.1)
        | eof ↦ (err enoent, fs, some s.1)
        | there ↦ (r.0, r.1, some s.1)
      ]

  -- The loop of fat12_file_read; `got` is what is in the buffer.
  pub read_loop : ℕ → Fat12Fs → Fat12File → ℕ → ℕ → List ℕ → Result (List ℕ) × Fat12Fs × Fat12File
  read_loop zero fs file offs left got = (ok got, fs, file)
  read_loop (suc n) fs file offs left got =
      let s = fat12_file_seek fs file offs in
      let r = fat12_read_sector fs (sector_of s.1.recent_cluster) in
      let chunk = chunk_of offs left in
      let rest =
        read_loop n r.1 s.1 (offs + chunk) (left - chunk)
          (got ++ copy_out r.1.sbuff (offs % sector_bytes) chunk) in
      if left == 0 then (ok got, fs, file) else elim s.0 [
        | lost e ↦ (err failed, fs, s.1)
        | eof ↦ (ok got, fs, s.1)
        | there ↦ elim r.0 [ some e ↦ (err failed, r.1, s.1) | none ↦ rest ]
      ]

  -- fat12_file_read, with what it writes to the buffer; `none` is the root directory.
  pub fat12_file_read :
      Fat12Fs → Option Fat12File → ℕ → ℕ → Result (List ℕ) × Fat12Fs × Option Fat12File
  fat12_file_read fs none bufflen offs = (err eisdir, fs, none)
  fat12_file_read fs (some file) bufflen offs =
      let size = read_size file bufflen offs in
      let r = read_loop size fs file offs size [] in
      if is_directory file.dentry
      then (err eisdir, fs, some file)
      else if leb file.dentry.size offs
      then (ok [], fs, some file)
      else (r.0, r.1, some r.2)
