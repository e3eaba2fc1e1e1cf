-- ===== src/Fat/Table/Entry.antt =====
-- fat_fat_set followed by fat_fat_get.
use zakos.Common.{
  ℕ, ◌+◌, ◌-◌, ◌*◌, ◌/◌, ◌<◌, ◌≡◌, ◌≢◌, refl, true, false, leb, ◌==◌, if◌then◌else◌, ok, arith,
  Bool-cases, inl, inr, ◌∙◌,
}
use zakos.Fat.Table.{
  Ctx, fat_get, fat_set, write_entry, classify, decode, encode_low, encode_high, cluster2sector,
  sector_round_down, is_odd,
}
use zakos.Fat.Table.Linear.{at, IsCluster, fat_get-at, Written, fat_set-Written}

-- Every byte of the table is a byte.
abbrev pub IsBytes : Ctx → Type 0
IsBytes x = (a : ℕ) → a < 8192 → at x a < 256

decode_same :
    (n cluster b0 b1 : ℕ)
    → cluster < 4096
    → b0 < 256
    → b1 < 256
    → decode n (encode_low n cluster b0) (encode_high n cluster b0 b1) ≡ cluster
decode_same n cluster b0 b1 h p q = ground arith

-- The entry before an even entry ends in a byte of its own; the one before an odd entry shares
-- its second byte, whose low half stays.
decode_before :
    (n cluster b0 b1 b2 : ℕ)
    → cluster < 4096
    → b0 < 256
    → b1 < 256
    → is_odd n ≡ true
    → decode (n - 1) b0 (encode_low n cluster b1) ≡ decode (n - 1) b0 b1
decode_before n cluster b0 b1 b2 h p q o = ground arith

decode_after :
    (n cluster b0 b1 b2 : ℕ)
    → cluster < 4096
    → b0 < 256
    → b1 < 256
    → is_odd n ≡ false
    → decode (n + 1) (encode_high n cluster b0 b1) b2 ≡ decode (n + 1) b1 b2
decode_after n cluster b0 b1 b2 h p q e = ground arith

encode_bytes :
    (n cluster b0 b1 : ℕ)
    → cluster < 4096
    → b0 < 256
    → b1 < 256
    → (encode_low n cluster b0 < 256) × (encode_high n cluster b0 b1 < 256)
encode_bytes n cluster b0 b1 h p q = ground arith

-- What an entry decodes to after a write, given what its two bytes are.
decode-Written :
    (x y : Ctx) (n cluster m : ℕ)
    → IsBytes x
    → cluster < 4096
    → n < 2849
    → m < 2849
    → Written x n cluster y
    → decode m (at y (3 * m / 2)) (at y (3 * m / 2 + 1))
      ≡ (if n == m then cluster else decode m (at x (3 * m / 2)) (at x (3 * m / 2 + 1)))
decode-Written x y n cluster m bytes twelve hn hm w = elim (Bool-cases (n == m)) [
  | inl e ↦ ground (
    arith,
    w.bytes (3 * m / 2),
    w.bytes (3 * m / 2 + 1),
    bytes (3 * m / 2),
    bytes (3 * m / 2 + 1),
    decode_same n cluster (at x (3 * n / 2)) (at x (3 * n / 2 + 1)),
  )
  | inr e ↦ ground (
    arith,
    w.bytes (3 * m / 2),
    w.bytes (3 * m / 2 + 1),
    bytes (3 * n / 2),
    bytes (3 * n / 2 + 1),
    bytes (3 * m / 2),
    bytes (3 * m / 2 + 1),
  )
]

-- On a table of bytes, fat_fat_set of any cluster of the disk but 2731 to a value of 12 bits succeeds; fat_fat_get then
-- returns the written value there, with the end and reserved values folded, and the old value of
-- every other cluster of the disk, and the table is still one of bytes.
pub fat_get-fat_set :
    (x : Ctx) (n cluster : ℕ)
    → IsCluster x n
    → IsBytes x
    → cluster < 4096
    → n ≢ 2731
    → (y : Ctx) × (fat_set x n cluster ≡ ok y)
      × ((m : ℕ) → m < 2849 → fat_get y m ≡ (if n == m then ok (classify cluster) else fat_get x m))
      × IsBytes y
fat_get-fat_set x n cluster v bytes twelve ne =
    let (y, e, w) = fat_set-Written x n cluster v twelve ne in
    (
      y,
      e,
      λ m h. entry y w m h,
      λ a h. ground (
        arith,
        w.bytes a,
        bytes a h,
        bytes (3 * n / 2),
        bytes (3 * n / 2 + 1),
        encode_bytes n cluster (at x (3 * n / 2)) (at x (3 * n / 2 + 1)) twelve,
      ),
    )
  where
    entry :
        (y : Ctx)
        → Written x n cluster y
        → (m : ℕ) → m < 2849
        → fat_get y m ≡ (if n == m then ok (classify cluster) else fat_get x m)
    entry y w m h =
        let vy : IsCluster y m = record { floppy = w.same_size ∙ v.floppy; inside = h } in
        let vx : IsCluster x m = record { floppy = v.floppy; inside = h } in
        rw (fat_get-at y m vy, fat_get-at x m vx)
          (ground (arith, decode-Written x y n cluster m bytes twelve v.inside h w))

-- fat_fat_set of cluster 2731 succeeds on every disk of 1.44 MB, but its entry keeps its old value,
-- and the new one is written over the first bytes of the table.
fat_set-misplaced :
    (x : Ctx) (cluster : ℕ)
    → x.size ≡ 1474560
    → cluster < 4096
    → (y : Ctx) × (fat_set x 2731 cluster ≡ ok y)
      × (fat_get y 2731 ≡ fat_get x 2731)
      × (at y 1 ≡ cluster / 16)
unfolding fat_set write_entry fat_get
fat_set-misplaced x cluster floppy twelve =
    let in_range : leb (sector_round_down x.size) (cluster2sector 2731) ≡ false = rw floppy refl in
    (write_entry x 2731 cluster 0 0, ground (arith, in_range), ground arith, ground arith)
