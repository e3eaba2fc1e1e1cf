-- ===== src/Fat/Tests.antt =====
-- Runs of the file allocation table on an empty table, and on a disk in memory.

use zakos.Fat.Chain.{allocate_cluster}
use zakos.Fat.Chain.Allocate.{is_free, Allocation, allocate_cluster_lem}
use zakos.Fat.Chain.Seek.{Links}
use zakos.Fat.Trim.Longer.{Grows}
use zakos.Fat.Trim.Extension.{trim_chain-Grows}
use zakos.Fat.Entries.{with_cluster, over, dir_read, dir_write}
use zakos.Fat.Trim.{Done, Work, starts_at, synced, trim_chain}
use zakos.Fat.Trim.Freeing.{IsFloppy, IsChain, Freed}
use zakos.Fat.Trim.Cut.{IsCut}
use zakos.Fat.Trim.Shorter.{trim_chain-IsCut, trim_chain-Freed}
use zakos.Fat.Io.{File, fat_read}
use zakos.Fat.Io.Reading.{Delivers}
use zakos.Fat.Io.Whole.{readable, fat_read-Delivers}
use zakos.Fat.Names.{shown_name, trim}
use zakos.Fat.Names.Shown.{base_of, suffix_of}
use zakos.Fat.Dir.{list_entry, fat_readdir, fat_create}
use zakos.Fat.Dir.Listing.{IsName}
use zakos.Fat.Dir.Stored.{Vacant}
use zakos.Fat.Dir.Created.{Shows, fat_create-fat_readdir}
use zakos.Fat.Chain.{dir_access, fat2attr}
use zakos.Common.{
  none, some, occ, [], ◌∷◌, ℕ, ◌≡◌, ◌⊎◌, ◌<◌, ◌+◌, ◌-◌, refl, ap, sym, Result, false, ◌&&◌, ltb,
  leb, ◌==◌, if◌then◌else◌, ok, err, Errno, arith,
}
use zakos.Fat.Table.{Ctx, fat_get, fat_set, write_entry, classify}
use zakos.Fat.Table.Linear.{IsCluster}
use zakos.Fat.Table.Entry.{IsBytes, fat_get-fat_set}
use zakos.Fat.Sync.{BlockDev, any_dirty, flush_sector, sync_loop, sync}
use zakos.Fat.Sync.Flush.{Consistent, Flushed, sync_lem}

abbrev empty : Ctx
empty = record { fat = λ p i. 0; dirty = λ s. false; size = 1474560 }

empty-IsCluster : IsCluster empty 5
empty-IsCluster = record { floppy = refl; inside = omega arith }

fat_get-fat_set_example :
    (y : Ctx) × (fat_set empty 5 0x123 ≡ ok y)
    × ((m : ℕ) → m < 2849 → fat_get y m ≡ (if 5 == m then ok (classify 0x123) else fat_get empty m))
    × IsBytes y
fat_get-fat_set_example =
    fat_get-fat_set empty 5 0x123 empty-IsCluster (λ a h. omega arith) (omega arith) (omega arith)

abbrev memory : BlockDev
memory = record {
  Disk = ℕ → ℕ;
  byte = λ d a. d a;
  write = λ d offs buff len.
      (ok tt, λ a. if leb offs a && ltb a (offs + len) then buff (a - offs) else d a);
  read = λ d offs len. ok (λ i. d (offs + i));
  read_loads = λ d offs len buff e i h.
      ap (λ (r : Result (ℕ → ℕ)). elim r [ ok b ↦ b i | err c ↦ d (offs + i) ]) (sym e);
  write_stores = λ d offs buff len a e. refl;
}

abbrev blank : ℕ → ℕ
blank a = 0

blank-Consistent : Consistent memory empty blank
blank-Consistent s c k hs hc hk clean = refl

sync_lem_example :
    (((sync memory empty blank).0 ≡ ok tt)
      × Flushed memory empty (sync memory empty blank).2
      × ((sync memory empty blank).1 ≡ record empty { dirty = λ s. false }))
    ⊎ (((code : Errno) × ((sync memory empty blank).0 ≡ err code))
        × ((sync memory empty blank).1 ≡ empty))
sync_lem_example = sync_lem memory empty blank blank-Consistent

abbrev written_5 : Ctx
written_5 = write_entry empty 5 0x123 0 7

set_5 : fat_set empty 5 0x123 ≡ ok written_5
unfolding fat_set
set_5 = refl

-- The bytes of entry 341 are the last of one sector and the first of the next.
abbrev written_341 : Ctx
written_341 = write_entry empty 341 0x123 0 511

set_341 : fat_set empty 341 0x123 ≡ ok written_341
unfolding fat_set
set_341 = refl

written_back : (sync memory written_341 blank).0 ≡ ok tt
unfolding sync sync_loop flush_sector any_dirty write_entry
written_back = refl

-- A table in which cluster 5 is followed by cluster 6, the last one.
abbrev two_clusters : Ctx
two_clusters = record {
  fat = λ p i.
      if p == 0
      then (if i == 7 then 0x60 else if i == 9 then 0xFF else if i == 10 then 0x0F else 0)
      else if i == 1
      then 0xFF
      else 0;
  dirty = λ s. false;
  size = 1474560;
}

two_clusters-Links : Links two_clusters 5 (6 ∷ [])
unfolding fat_get
two_clusters-Links = (refl, omega arith, omega arith, omega arith, refl)

allocate_cluster_lem_example :
    Allocation two_clusters 5 (allocate_cluster 5700 two_clusters 5 0xFFF)
allocate_cluster_lem_example =
    allocate_cluster_lem two_clusters 5 0xFFF refl (omega arith) (omega arith)

two_clusters-IsFloppy : IsFloppy two_clusters
two_clusters-IsFloppy = (refl, λ a h. ground arith)

two_clusters-IsChain : IsChain two_clusters 5 (6 ∷ [])
unfolding occ
two_clusters-IsChain = (two_clusters-Links, λ m. ground arith, λ m h. ground (arith, h))

abbrev opened : Work memory 0 1
opened = record { ctx = two_clusters; disk = blank; first = 5; entry = none }

trim_chain-IsCut_example :
    (y : Ctx) × (trim_chain memory 0 1 10 opened 1
      ≡ synced memory 0 1 (some (ok tt, record opened { ctx = y })))
    × IsCut two_clusters 5 [] (6 ∷ []) y
trim_chain-IsCut_example =
    trim_chain-IsCut memory 0 1 10 opened [] 6 [] (omega arith) two_clusters-IsFloppy (omega arith)
      two_clusters-IsChain

trim_chain-Freed_example :
    (y : Ctx) × (trim_chain memory 0 1 10 opened 0
      ≡ synced memory 0 1 (some (ok tt, record (starts_at memory 0 1 opened 0) { ctx = y })))
    × Freed two_clusters (5 ∷ 6 ∷ []) y
trim_chain-Freed_example =
    trim_chain-Freed memory 0 1 10 opened (6 ∷ []) (omega arith) two_clusters-IsFloppy (omega arith)
      two_clusters-IsChain

abbrev written_to : Work memory 0 1
written_to = record {
  ctx = two_clusters;
  disk = blank;
  first = 5;
  entry = some (with_cluster (λ i. 0) 5);
}

two_clusters-taken : is_free two_clusters 2731 ≡ false
unfolding fat_get
two_clusters-taken = refl

trim_chain-Grows_example :
    (r : Done memory 0 1) × Grows memory 0 1 written_to 5 (6 ∷ []) 2 r
    × (trim_chain memory 0 1 5700 written_to 4 ≡ synced memory 0 1 r)
trim_chain-Grows_example =
    trim_chain-Grows memory 0 1 written_to (6 ∷ []) 1 (omega arith) (omega arith)
      two_clusters-IsFloppy (omega arith) two_clusters-IsChain two_clusters-taken

abbrev two_sectors : File
two_sectors = record { attr = 0xB0; size = 600; first = 5; idx = 0; parent = some 0xFFFF }

fat_read-Delivers_example :
    Delivers memory blank
      (5 ∷ 6 ∷ [])
      500
      (readable 600 200 500)
      []
      (fat_read memory two_clusters blank two_sectors 200 500)
fat_read-Delivers_example =
    fat_read-Delivers memory two_clusters blank two_sectors (6 ∷ []) 200 500 two_clusters-Links
      (omega arith) (omega arith) (omega arith)

abbrev upper : ℕ → ℕ
upper c = if leb 97 c && leb c 122 then c - 32 else c

abbrev root : Work memory 0 1
root = record { ctx = empty; disk = blank; first = 0xFFFF; entry = none }

root-Vacant : Vacant memory empty blank 0xFFFF 0
unfolding dir_read dir_access
root-Vacant = (λ i. 0, refl, refl)

a_b-IsName : IsName upper 97 (46 ∷ 98 ∷ [])
a_b-IsName = record {
  no_dot = omega arith;
  solid = (omega arith, (omega arith, (omega arith, tt)));
  not_last = omega arith;
  not_deleted = omega arith;
}

-- The name "a.b" in an empty root directory.
fat_create-fat_readdir_example :
    (d : ℕ → ℕ) × (((fat_create memory 0 1 upper 10 10 root (97 ∷ 46 ∷ 98 ∷ []) 0xB0
          ≡ some (ok 0, record root { disk = d }))
        × Shows memory 0 1 10 root 0 upper (97 ∷ 46 ∷ 98 ∷ []) 0xB0 d)
      ⊎ ((code : Errno) × (entry : ℕ → ℕ) × ((dir_write memory empty blank 0xFFFF entry 0).0
            ≡ err code)
          × (fat_create memory 0 1 upper 10 10 root (97 ∷ 46 ∷ 98 ∷ []) 0xB0
              ≡ some (err code, record root { disk = d }))))
unfolding base_of suffix_of
fat_create-fat_readdir_example =
    fat_create-fat_readdir memory 0 1 10 root 0 upper 10 97 (46 ∷ 98 ∷ []) 0xB0 a_b-IsName
      (omega arith) (omega arith) refl (omega arith) (omega arith)
      (λ j h. absurd (omega (arith, h))) root-Vacant

shown_a_b :
    (fat_readdir memory empty (λ a. over (65 ∷ []) 9728 (over (66 ∷ []) 9736 (λ i. 32)) a) 0xFFFF 0)
    ≡ ok (record { name = 65 ∷ 46 ∷ 66 ∷ []; attr = 0xF0; size = 538976288; first = 8224; idx = 0 })
unfolding fat_readdir dir_read dir_access list_entry shown_name trim fat2attr
shown_a_b = refl
