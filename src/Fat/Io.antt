-- ===== src/Fat/Io.antt =====
-- Reading and writing of files in kernel/fs/fat.c: fat_op_read, fat_op_truncate and fat_op_write.
pub mod Content
pub mod Reading
pub mod Whole
use Prim.Native.Nat.{bit_and}
use zakos.Common.{
  ℕ, zero, suc, ◌+◌, ◌-◌, ◌*◌, ◌/◌, ◌%◌, ◌^◌, ◌≡◌, Bool, true, false, ◌&&◌, ◌||◌, not, List, [],
  ◌∷◌, ◌++◌, ltb, leb, ◌==◌, if◌then◌else◌, drop, Result, ok, err, eio, Option, none, some,
}
use zakos.Fat.Table.{Ctx, sector_size, cluster2sector, sector_round_up}
use zakos.Fat.Chain.{next, seek}
use zakos.Fat.Sync.{BlockDev}
use zakos.Fat.Entries.{
  bytes_from, with_size, over, sector_offset, dir_read, dir_write, cluster_clear, fetch,
}
use zakos.Fat.Trim.{Work, trim_chain}

-- What fat.c uses of `struct fs_file`: the attributes, the size, `file.fat`, and the first cluster
-- of the parent, if there is one.
pub record File : Type 0 where
  pub attr : ℕ
  pub size : ℕ
  pub first : ℕ
  pub idx : ℕ
  pub parent : Option ℕ

-- S_ISREG
abbrev pub is_regular : ℕ → Bool
is_regular attr = bit_and attr 0x1F == 0x10

-- The number of bytes that fat_op_read reads, from an offset inside the file.
abbrev pub read_length : ℕ → ℕ → ℕ → ℕ
read_length size bufflen offs =
    let inside = if ltb size ((offs + bufflen) % 2 ^ 32) then (size - offs) % 2 ^ 16 else bufflen in
    if ltb 0x7FFF inside then 0x7FFF else inside

-- The length of a transfer in one sector.
abbrev pub chunk_at : ℕ → ℕ → ℕ
chunk_at offs left =
    let chunk = sector_size - offs % sector_size in if ltb left chunk then left else chunk

module _ (b : BlockDev) where
  open b use {Disk, read, write}

  -- The loop of fat_op_read, with the bytes that are left and those in the buffer; `none` is out of
  -- fuel.
  unfoldable pub read_chunks : ℕ → Ctx → Disk → ℕ → ℕ → ℕ → List ℕ → Option (Result (List ℕ))
  read_chunks zero x d c offs left got = none
  read_chunks (suc n) x d c offs left got =
      let chunk = chunk_at offs left in
      elim (read d (sector_offset (cluster2sector c) + offs % sector_size) chunk) [
        | err e ↦ some (err e)
        | ok buff ↦
            let got' = got ++ bytes_from buff 0 chunk in
            let further : Option (Result (List ℕ)) = elim (next x c) [
              | err _ ↦ some (err eio)
              | ok p ↦
                  let rest = read_chunks n x d p.0 (offs + chunk) (left - chunk) got' in
                  if p.1 then some (ok got') else rest
            ] in
            if leb left chunk then some (ok got') else further
      ]

  -- fat_op_read
  unfoldable pub fat_read : Ctx → Disk → File → ℕ → ℕ → Option (Result (List ℕ))
  fat_read x d file bufflen offs =
      let left = read_length file.size bufflen offs in
      let sought : Option (Result (List ℕ)) = elim (seek x file.first offs) [
        | err _ ↦ some (err eio)
        | ok p ↦
            let got = read_chunks (suc left) x d p.0 offs left [] in
            if p.1 then some (err eio) else got
      ] in
      if leb file.size offs then some (ok []) else sought

  -- The loop of fat_op_write, with the bytes that are left.
  unfoldable pub write_chunks :
      ℕ → Ctx → Disk → ℕ → ℕ → List ℕ → ℕ → Option (Result (Unit {0}) × Disk)
  write_chunks zero x d c offs buff left = none
  write_chunks (suc n) x d c offs buff left =
      let chunk = chunk_at offs left in
      let (r, e) =
        write d (sector_offset (cluster2sector c) + offs % sector_size) (over buff 0 (λ i. 0))
          chunk in
      elim r [
        | err code ↦ some (err code, e)
        | ok _ ↦
            let further : Option (Result (Unit {0}) × Disk) = elim (next x c) [
              | err _ ↦ some (err eio, e)
              | ok p ↦
                  let rest =
                    write_chunks n x e p.0 (offs + chunk) (drop chunk buff) (left - chunk) in
                  if p.1 then some (err eio, e) else rest
            ] in
            if leb left chunk then some (ok tt, e) else further
      ]

  module _ (at_null stale : ℕ) where
    -- The state of an operation on a file.
    pub record OpenFile : Type 0 where
      pub ctx : Ctx
      pub disk : Disk
      pub file : File

    abbrev pub Ended : Type 0
    Ended = Option (Result (Unit {0}) × OpenFile)

    -- fat_op_truncate: the last cluster is cleared behind the end of a file that grows.
    unfoldable pub clear_rest : OpenFile → ℕ → Result (Unit {0}) × Disk
    clear_rest s size =
        let old = s.file.size in
        let beyond = old % sector_size in
        let to_end = sector_size - beyond in
        let len = if ltb size (old + to_end) then size - old else to_end in
        let cleared : Result (Unit {0}) × Disk = elim (seek s.ctx s.file.first (old - 1)) [
          | err _ ↦ (err eio, s.disk)
          | ok p ↦
              let r = cluster_clear b s.disk p.0 beyond len in
              let done : Result (Unit {0}) × Disk = elim r.0 [
                | err _ ↦ (err eio, r.1)
                | ok _ ↦ (ok tt, r.1)
              ] in
              if p.1 then (err eio, s.disk) else done
        ] in
        if not (old == 0) && ltb old size && not (beyond == 0) then cleared else (ok tt, s.disk)

    -- Its end: the new size, in memory and in the entry.
    unfoldable pub store_size : OpenFile → ℕ → (ℕ → ℕ) → ℕ → Result (Unit {0}) × OpenFile
    store_size s parent entry size =
        let (r, d) = dir_write b s.ctx s.disk parent (with_size entry size) s.file.idx in
        (r, record s { disk = d; file = record s.file { size = size } })

    -- The chain gets its new length.
    unfoldable pub resize : ℕ → OpenFile → ℕ → (ℕ → ℕ) → ℕ → Ended
    resize fuel s parent entry size =
        let length = sector_round_up size in
        let w : Work b at_null stale = record {
          ctx = s.ctx;
          disk = s.disk;
          first = s.file.first;
          entry = some entry;
        } in
        let trimmed : Ended = elim (trim_chain b at_null stale fuel w length) [
          | none ↦ none
          | some (r, v) ↦
              let t = record s {
                ctx = v.ctx;
                disk = v.disk;
                file = record s.file { first = v.first };
              } in
              elim r [
                | err e ↦ some (err e, record t { ctx = (fetch b v.ctx v.disk).1 })
                | ok _ ↦ elim v.entry [
                  | none ↦ some (ok tt, t)
                  | some e ↦ some (store_size t parent e size)
                ]
              ]
        ] in
        if length == sector_round_up s.file.size
        then some (store_size s parent entry size)
        else trimmed

    -- fat_op_truncate
    unfoldable pub truncate : ℕ → OpenFile → ℕ → Ended
    truncate fuel s size =
        let in_dir : ℕ → Ended = λ parent. elim (dir_read b s.ctx s.disk parent s.file.idx) [
          | err _ ↦ some (err eio, s)
          | ok entry ↦
              let (r, d) = clear_rest s size in
              elim r [
                | err _ ↦ some (err eio, record s { disk = d })
                | ok _ ↦ resize fuel (record s { disk = d }) parent entry size
              ]
        ] in
        elim s.file.parent [
          | none ↦ some (err eio, s)
          | some parent ↦
              if not (is_regular s.file.attr)
              then some (err eio, s)
              else if s.file.size == size
              then some (ok tt, s)
              else in_dir parent
        ]

    -- The part of fat_op_write behind the truncation.
    unfoldable pub write_found : OpenFile → List ℕ → ℕ → ℕ → Ended
    write_found s buff left offs = elim (seek s.ctx s.file.first offs) [
      | err _ ↦ some (err eio, s)
      | ok p ↦
          let written : Ended = elim (write_chunks (suc left) s.ctx s.disk p.0 offs buff left) [
            | none ↦ none
            | some q ↦ some (q.0, record s { disk = q.1 })
          ] in
          if p.1 then some (err eio, s) else written
    ]

    -- fat_op_write; a result without an error stands for `bufflen`.
    unfoldable pub fat_write : ℕ → OpenFile → List ℕ → ℕ → ℕ → Ended
    fat_write fuel s buff bufflen offs =
        let end = (offs + bufflen) % 2 ^ 32 in
        let grown : Ended = elim (truncate fuel s end) [
          | none ↦ none
          | some p ↦ elim p.0 [
            | err e ↦ some (err e, p.1)
            | ok _ ↦ write_found p.1 buff bufflen offs
          ]
        ] in
        if ltb s.file.size end then grown else write_found s buff bufflen offs
