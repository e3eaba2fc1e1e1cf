-- ===== src/Fat/Trim.antt =====
-- fat_file_trim_chain: the chain of a file gets a length, in clusters. What the stack holds where
-- fat_fat_allocate_cluster keeps `ncluster` is a parameter, and so is what a read through NULL gives
-- for the field `cluster` of an entry.
pub mod Freeing
pub mod Cut
pub mod Shorter
pub mod Growing
pub mod Extended
pub mod Stops
pub mod Longer
pub mod Extension
use zakos.Common.{
  ℕ, zero, suc, ◌+◌, ◌-◌, ◌%◌, ◌^◌, ◌≡◌, Bool, true, false, ◌||◌, ◌&&◌, not, ltb, leb, ◌==◌,
  if◌then◌else◌, Result, ok, err, eio, Option, none, some,
}
use zakos.Fat.Table.{
  Ctx, fat_get, fat_set, cluster_free, cluster_reserved, cluster_end, sector_size,
}
use zakos.Fat.Chain.{allocate_cluster}
use zakos.Fat.Sync.{BlockDev, sync}
use zakos.Fat.Entries.{cluster_clear, cluster_of, with_cluster}

-- A value that no entry of a chain may have.
abbrev pub is_bad : ℕ → Bool
is_bad c = c == cluster_free || c == cluster_reserved

-- `pos`, `curr` and `last` of the code.
pub record Cursor : Type 0 where
  pub pos : ℕ
  pub curr : ℕ
  pub last : ℕ

-- The first loop, with the rounds that are left: the clusters that stay.
unfoldable pub keep_loop : ℕ → Ctx → Cursor → Result Cursor
keep_loop zero x c = ok c
keep_loop (suc n) x c = elim (fat_get x c.last) [
  | err _ ↦ err eio
  | ok d ↦
      let rest = keep_loop n x (record { pos = c.pos + 1; curr = c.last; last = d }) in
      if is_bad d
      then err eio
      else if d == cluster_end
      then ok (record { pos = c.pos; curr = c.last; last = d })
      else rest
]

-- The last loop: the clusters that are freed; `none` is out of fuel.
unfoldable pub free_loop : ℕ → Ctx → ℕ → Option (Result (Unit {0}) × Ctx)
free_loop zero x curr = none
free_loop (suc n) x curr =
    let round : Option (Result (Unit {0}) × Ctx) = elim (fat_get x curr) [
      | err _ ↦ some (err eio, x)
      | ok last ↦
          let freed : Option (Result (Unit {0}) × Ctx) = elim (fat_set x curr cluster_free) [
            | err _ ↦ some (err eio, x)
            | ok y ↦ free_loop n y last
          ] in
          if is_bad last then some (err eio, x) else freed
    ] in
    if curr == cluster_end then some (ok tt, x) else round

-- The clusters behind `last` are freed, and it becomes the last one.
unfoldable pub cut_behind : ℕ → Ctx → ℕ → Option (Result (Unit {0}) × Ctx)
cut_behind n x last = elim (fat_get x last) [
  | err _ ↦ some (err eio, x)
  | ok curr ↦
      let cut : Option (Result (Unit {0}) × Ctx) = elim (fat_set x last cluster_end) [
        | err _ ↦ some (err eio, x)
        | ok y ↦ free_loop n y curr
      ] in
      if is_bad curr then some (err eio, x) else cut
]

module _ (b : BlockDev) (at_null stale : ℕ) where
  open b use {Disk}

  -- The table, the disk, `file->file.fat.cluster`, and the entry, if there is one.
  pub record Work : Type 0 where
    pub ctx : Ctx
    pub disk : Disk
    pub first : ℕ
    pub entry : Option (ℕ → ℕ)

  abbrev pub Done : Type 0
  Done = Option (Result (Unit {0}) × Work)

  -- `dentry->cluster`
  abbrev pub entry_cluster : Option (ℕ → ℕ) → ℕ
  entry_cluster none = at_null
  entry_cluster (some e) = cluster_of e

  -- The file starts at `c`.
  abbrev pub starts_at : Work → ℕ → Work
  starts_at w c = record w {
    first = c;
    entry = elim w.entry [ none ↦ none | some e ↦ some (with_cluster e c) ];
  }

  -- A new cluster behind `last`: as the first one, if the entry has none.
  unfoldable pub link_cluster : Work → ℕ → ℕ → Result Work
  link_cluster w last curr =
      let linked : Result Work = elim (fat_set w.ctx last curr) [
        | err _ ↦ err eio
        | ok y ↦ ok (record w { ctx = y })
      ] in
      if entry_cluster w.entry == 0 then ok (starts_at w curr) else linked

  -- The loop that appends clusters, with the rounds that are left, and the end of the chain.
  unfoldable pub grow_loop : ℕ → ℕ → Work → ℕ → Done
  grow_loop fuel zero w last = elim (fat_set w.ctx last cluster_end) [
    | err _ ↦ some (err eio, w)
    | ok y ↦ some (ok tt, record w { ctx = y })
  ]
  grow_loop fuel (suc n) w last = elim (allocate_cluster fuel w.ctx last stale) [
    | none ↦ none
    | some (err e) ↦ some (err e, w)
    | some (ok curr) ↦ elim (link_cluster w last curr) [
      | err e ↦ some (err e, w)
      | ok v ↦
          let (r, d) = cluster_clear b v.disk curr 0 sector_size in
          elim r [
            | err _ ↦ some (err eio, record v { disk = d })
            | ok _ ↦ grow_loop fuel n (record v { disk = d }) curr
          ]
    ]
  ]

  -- The branch that frees clusters.
  unfoldable pub shrink : ℕ → Work → ℕ → ℕ → Done
  shrink fuel w zero last = elim (free_loop fuel w.ctx last) [
    | none ↦ none
    | some p ↦ some (p.0, record (starts_at w 0) { ctx = p.1 })
  ]
  shrink fuel w (suc _) last = elim (cut_behind fuel w.ctx last) [
    | none ↦ none
    | some p ↦ some (p.0, record w { ctx = p.1 })
  ]

  -- The end of the function: the table is written back.
  abbrev pub synced : Done → Done
  synced none = none
  synced (some (err e, w)) = some (err e, w)
  synced (some (ok _, w)) =
      let (r, x, d) = sync b w.ctx w.disk in some (r, record w { ctx = x; disk = d })

  -- What follows the first loop, which leaves the cursor `c`.
  unfoldable pub trim_from : ℕ → Work → ℕ → Cursor → Done
  trim_from fuel w length c =
      let empty = w.first == 0 in
      let last = if empty then c.last else c.curr in
      let grown = grow_loop fuel (length - c.pos) w last in
      let shrunk = shrink fuel w length last in
      if not empty && (c.pos == length) && (c.last == cluster_end)
      then some (ok tt, w)
      else synced (if ltb c.pos length then grown else shrunk)

  -- fat_file_trim_chain; the fuel bounds the rounds of each loop over the table.
  unfoldable pub trim_chain : ℕ → Work → ℕ → Done
  trim_chain fuel w length =
      let start = w.first in
      let kept : Result Cursor =
        if start == 0
        then ok (record { pos = 0; curr = start; last = start })
        else keep_loop length w.ctx (record { pos = 1; curr = start; last = start }) in
      let trimmed : Done = elim kept [
        | err e ↦ some (err e, w)
        | ok c ↦ trim_from fuel w length c
      ] in
      if (start == 0) && (length == 0) then some (ok tt, w) else trimmed
