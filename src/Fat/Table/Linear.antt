-- ===== src/Fat/Table/Linear.antt =====
-- The two pages as one array of bytes.
use zakos.Common.{
  ℕ, ◌+◌, ◌*◌, ◌/◌, ◌%◌, ◌<◌, ◌≡◌, ◌≢◌, refl, true, false, ◌||◌, ◌&&◌, ltb, leb, ◌==◌,
  if◌then◌else◌, ok, arith,
}
use zakos.Fat.Table.{
  Ctx, fat_get, fat_set, write_entry, entry_idx, classify, decode, encode_low, encode_high,
  page_size, cluster2sector, sector_round_down, poke,
}

-- The byte at an address of the whole table.
abbrev pub at : Ctx → ℕ → ℕ
at x a = x.fat (a / page_size) (a % page_size)

-- A cluster number of a 1.44 MB disk: its sector lies on the disk.
pub record IsCluster (x : Ctx) (n : ℕ) : Type 0 where
  pub floppy : x.size ≡ 1474560
  pub inside : n < 2849

module _ (x : Ctx) (n : ℕ) (v : IsCluster x n) where
  -- fat_fat_get decodes the two bytes at 3n/2.
  pub fat_get-at : fat_get x n ≡ ok (classify (decode n (at x (3 * n / 2)) (at x (3 * n / 2 + 1))))
  unfolding fat_get
  fat_get-at =
      let i : entry_idx n ≡ 3 * n / 2 = omega (arith, v.inside) in
      let in_range : leb (sector_round_down x.size) (cluster2sector n) ≡ false =
        ground (arith, v.floppy, v.inside) in
      rw (in_range, i) (ground arith)

-- What fat_fat_set does to the table, the dirty bits and the size.
pub record Written (x : Ctx) (n cluster : ℕ) (y : Ctx) : Type 0 where
  pub bytes :
      (a : ℕ)
      → at y a ≡ (
          if a == 3 * n / 2
          then encode_low n cluster (at x (3 * n / 2))
          else if a == 3 * n / 2 + 1
          then encode_high n cluster (at x (3 * n / 2)) (at x (3 * n / 2 + 1))
          else at x a)
  pub marks :
      (s : ℕ)
      → y.dirty s ≡ (
          if 3 * n / 2 / 512 == s
          then true
          else if (3 * n / 2 == 4095) && (8 == s)
          then true
          else x.dirty s)
  pub same_size : y.size ≡ x.size

poke-at :
    (fat : ℕ → ℕ → ℕ) (c v d : ℕ)
    → poke fat (c / page_size) (c % page_size) v (d / page_size) (d % page_size)
      ≡ (if c == d then v else fat (d / page_size) (d % page_size))
poke-at fat c v d = ground arith

module _ (x : Ctx) (n cluster : ℕ) (small : 3 * n / 2 < 8191) where
  write_entry-Written :
      Written x n cluster (write_entry x n cluster (3 * n / 2 / page_size) (3 * n / 2 % page_size))
  unfolding write_entry
  write_entry-Written = record {
    bytes = λ a. rw (page, idx) (rw (poke-at x.fat c low (c + 1)) (rw poke-at (ground arith)));
    marks = λ s. ground arith;
    same_size = refl;
  }
    where
      c : ℕ
      c = 3 * n / 2

      low : ℕ
      low = encode_low n cluster (at x c)

      page : (if c % page_size + 1 == page_size then 1 else c / page_size) ≡ (c + 1) / page_size
      page = ground arith

      idx : (if c % page_size + 1 == page_size then 0 else c % page_size + 1) ≡ (c + 1) % page_size
      idx = ground arith

-- fat_fat_set of any cluster of the disk but 2731 writes the two bytes at 3n/2.
pub fat_set-Written :
    (x : Ctx) (n cluster : ℕ)
    → IsCluster x n
    → cluster < 4096
    → n ≢ 2731
    → (y : Ctx) × (fat_set x n cluster ≡ ok y) × Written x n cluster y
unfolding fat_set
fat_set-Written x n cluster v twelve ne =
    let i : entry_idx n ≡ 3 * n / 2 = omega (arith, v.inside) in
    let in_range : (leb (sector_round_down x.size) (cluster2sector n)) || leb 4096 cluster ≡ false =
      ground (arith, v.floppy, v.inside) in
    let page : (if ltb page_size (3 * n / 2) then 1 else 0) ≡ 3 * n / 2 / page_size =
      ground (arith, v.inside) in
    (
      write_entry x n cluster (3 * n / 2 / page_size) (3 * n / 2 % page_size),
      rw (in_range, i, page) refl,
      write_entry-Written x n cluster (omega (arith, v.inside)),
    )
