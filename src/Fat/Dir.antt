-- ===== src/Fat/Dir.antt =====
-- Directories in kernel/fs/fat.c: fat_op_create, fat_op_readdir, fat_op_remove and fat_op_mount. A
-- directory is known by its first cluster, which is 0xFFFF for the root.
pub mod Fields
pub mod Listing
pub mod Stored
pub mod Created
use zakos.Common.{
  ℕ, zero, suc, ◌+◌, ◌-◌, ◌*◌, ◌/◌, ◌%◌, ◌^◌, ◌≡◌, Bool, true, false, ◌&&◌, ◌||◌, not, List, [],
  ◌∷◌, ◌==◌, if◌then◌else◌, update, Result, ok, err, Errno, eio, enoent, eagain, enospc, einval,
  enomem, Option, none, some,
}
use zakos.Fat.Table.{Ctx, sector_size, sector_round_up}
use zakos.Fat.Chain.{attr2fat, fat2attr}
use zakos.Fat.Names.{entry_name, shown_name}
use zakos.Fat.Sync.{BlockDev}
use zakos.Fat.Entries.{
  fname_of, extension_of, cluster_of, size_of, over, entry_size, dir_read, dir_write, fetch,
}
use zakos.Fat.Trim.{Work, trim_chain}
use zakos.Fat.Io.{is_regular}

-- What fat_op_readdir stores: the name, the attributes and the size for the caller, the cluster and
-- the index for the file system.
pub record ListedFile : Type 0 where
  pub name : List ℕ
  pub attr : ℕ
  pub size : ℕ
  pub first : ℕ
  pub idx : ℕ

-- The rest of fat_op_readdir, on an entry that was read.
unfoldable pub list_entry : (ℕ → ℕ) → ℕ → Result ListedFile
list_entry e idx =
    let shown : Result ListedFile = elim (shown_name (fname_of e) (extension_of e)) [
      | err c ↦ err c
      | ok name ↦ ok (record {
        name = name;
        attr = fat2attr (e 11);
        size = size_of e;
        first = cluster_of e;
        idx = idx;
      })
    ] in
    if e 0 == 0x00 then err enoent else if e 0 == 0xE5 then err eagain else shown

-- The entry that fat_op_create writes.
abbrev pub new_entry : List ℕ × List ℕ → ℕ → ℕ → ℕ
new_entry name attr = over name.0 0 (over name.1 8 (update (λ i. 0) 11 (attr2fat attr)))

-- The place of an entry is free.
abbrev pub is_vacant : (ℕ → ℕ) → Bool
is_vacant e = e 0 == 0x00 || e 0 == 0xE5

-- The BIOS parameter block: a number of two bytes, and what fat_op_mount wants.
abbrev pub word_at : (ℕ → ℕ) → ℕ → ℕ
word_at bpb i = bpb i + bpb (i + 1) * 256

unfoldable pub is_supported : (ℕ → ℕ) → Bool
is_supported bpb =
    word_at bpb 0 == sector_size
    && bpb 2 == 1
    && word_at bpb 3 == 1
    && bpb 5 == 2
    && word_at bpb 6 == 224
    && word_at bpb 11 == 9
    && word_at bpb 13 == 18
    && word_at bpb 15 == 2
    && word_at bpb 8 == 2880

module _ (b : BlockDev) where
  open b use {Disk, read}

  -- fat_op_readdir
  unfoldable pub fat_readdir : Ctx → Disk → ℕ → ℕ → Result ListedFile
  fat_readdir x d dir idx = elim (dir_read b x d dir idx) [
    | err e ↦ err e
    | ok e ↦ list_entry e idx
  ]

  -- fat_op_mount, with the results of the two calls of page_alloc, and the pages that it gives back.
  unfoldable pub fat_mount : Ctx → Disk → ℕ → ℕ → Result (Unit {0}) × Ctx × List ℕ
  fat_mount x d page0 page1 = elim (read d 0x0B 17) [
    | err e ↦ (err e, x, [])
    | ok bpb ↦
        let (r, y) = fetch b x d in
        let fetched : Result (Unit {0}) × Ctx × List ℕ = elim r [
          | err _ ↦ (err eio, y, page0 ∷ page1 ∷ [])
          | ok _ ↦ (ok tt, y, [])
        ] in
        if not (is_supported bpb)
        then (err eio, x, [])
        else if page0 == 0
        then (err enomem, x, [])
        else if page1 == 0
        then (err enomem, x, page0 ∷ [])
        else fetched
  ]

  module _ (at_null stale : ℕ) where
    abbrev pub Placed : Type 0
    Placed = Option (Result ℕ × Work b at_null stale)

    -- A round at an entry that was read.
    abbrev pub placed_at : Work b at_null stale → ℕ → Result (ℕ → ℕ) → Placed → Placed
    placed_at w fidx (err e) rest = some (err e, w)
    placed_at w fidx (ok e) rest = if is_vacant e then some (ok fidx, w) else rest

    -- The directory gets another cluster.
    unfoldable pub extend_dir :
        ℕ → Work b at_null stale → ℕ → Option (Result (Unit {0}) × Work b at_null stale)
    extend_dir fuel w fidx =
        trim_chain b at_null stale fuel w (sector_round_up ((fidx + 1) * entry_size % 2 ^ 16))

    -- The loop of fat_op_create over the entries, with the rounds that are left.
    unfoldable pub find_place : ℕ → ℕ → Work b at_null stale → ℕ → Placed
    find_place fuel zero w fidx = none
    find_place fuel (suc n) w fidx =
        let go = λ (v : Work b at_null stale). find_place fuel n v ((fidx + 1) % 2 ^ 16) in
        let again = λ (v : Work b at_null stale).
          placed_at v fidx (dir_read b v.ctx v.disk v.first fidx) (go v) in
        let extended : Placed = elim (extend_dir fuel w fidx) [
          | none ↦ none
          | some p ↦ elim p.0 [ err e ↦ some (err e, p.1) | ok _ ↦ again p.1 ]
        ] in
        elim (dir_read b w.ctx w.disk w.first fidx) [
          | err enoent ↦ if w.first == 0xFFFF then some (err enospc, w) else extended
          | err e ↦ some (err e, w)
          | ok e ↦ placed_at w fidx (ok e) (go w)
        ]

    -- fat_op_create, with the index of the new entry; `w.entry` is NULL.
    unfoldable pub fat_create : (ℕ → ℕ) → ℕ → ℕ → Work b at_null stale → List ℕ → ℕ → Placed
    fat_create toupper fuel rounds w name attr =
        let made : Placed = elim (entry_name toupper name) [
          | err e ↦ some (err e, w)
          | ok p ↦ elim (find_place fuel rounds w 0) [
            | none ↦ none
            | some q ↦ elim q.0 [
              | err e ↦ some (err e, q.1)
              | ok fidx ↦
                  let (r, d) = dir_write b q.1.ctx q.1.disk q.1.first (new_entry p attr) fidx in
                  let v = record q.1 { disk = d } in
                  elim r [ err e ↦ some (err e, v) | ok _ ↦ some (ok fidx, v) ]
            ]
          ]
        ] in
        if not (is_regular attr) then some (err einval, w) else made

    -- fat_op_remove of the file `w` with entry `idx` in a directory.
    unfoldable pub fat_remove :
        ℕ → Work b at_null stale → ℕ → ℕ → Option (Result (Unit {0}) × Work b at_null stale)
    fat_remove fuel w dir idx = elim (dir_read b w.ctx w.disk dir idx) [
      | err e ↦ some (err e, w)
      | ok e ↦
          elim (trim_chain b at_null stale fuel (record w { entry = some (update e 0 0xE5) }) 0) [
            | none ↦ none
            | some (err c, v) ↦ some (err c, v)
            | some (ok _, v) ↦ elim v.entry [
              | none ↦ some (ok tt, v)
              | some f ↦
                  let (r, d) = dir_write b v.ctx v.disk dir f idx in some (r, record v { disk = d })
            ]
          ]
    ]
