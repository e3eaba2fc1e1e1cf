-- ===== src/Fat/Sync/Flush.antt =====
-- A successful fat_fat_sync makes both copies on the disk equal to the cached table.
use zakos.Common.{
  ℕ, zero, suc, ◌+◌, ◌-◌, ◌*◌, ◌/◌, ◌%◌, ◌<◌, ◌≤◌, ◌≡◌, ◌≢◌, ◌∙◌, sym, ap, Bool, false, ◌&&◌, ltb,
  leb, ◌==◌, if◌then◌else◌, Bool-cases, ◌⊎◌, inl, inr, Result-cases, Errno, subst, ok, err, arith,
}
use zakos.Fat.Table.{Ctx, fat_size, sector_size, fat_set}
use zakos.Fat.Table.Linear.{at, IsCluster, fat_set-Written}
use zakos.Fat.Sync.{BlockDev, any_dirty, sector_data, flush_sector, sync_loop, sync}

any_dirty_none : (d : ℕ → Bool) (n s : ℕ) → any_dirty d n ≡ false → s < n → d s ≡ false
unfolding any_dirty
any_dirty_none d zero s e h = absurd (omega arith)
any_dirty_none d (suc n) s e h = ground (arith, any_dirty_none d n s)

two_writes :
    (i s c k v w z : ℕ) (buff : ℕ → ℕ)
    → i < fat_size
    → s < fat_size
    → (c ≡ 1) ⊎ (c ≡ 10)
    → k < sector_size
    → w ≡ (
        if leb ((i + 1) * sector_size) ((s + c) * sector_size + k)
          && ltb ((s + c) * sector_size + k) ((i + 1) * sector_size + sector_size)
        then buff ((s + c) * sector_size + k - (i + 1) * sector_size)
        else v)
    → z ≡ (
        if leb ((i + fat_size + 1) * sector_size) ((s + c) * sector_size + k)
          && ltb ((s + c) * sector_size + k) ((i + fat_size + 1) * sector_size + sector_size)
        then buff ((s + c) * sector_size + k - (i + fat_size + 1) * sector_size)
        else w)
    → z ≡ (if i == s then buff k else v)
two_writes i s c k v w z buff hi hs hc hk e1 e2 = ground arith

module _ (b : BlockDev) where
  open b use {Disk, byte, write, write_stores}

  -- The first sector of a copy of the table: 1 or 10.
  abbrev pub IsCopy : ℕ → Type 0
  IsCopy c = (c ≡ 1) ⊎ (c ≡ 10)

  flush_sector-byte :
      (x : Ctx) (i : ℕ) (d e : Disk) (s c k : ℕ)
      → flush_sector b x i d ≡ (ok tt, e)
      → i < fat_size
      → s < fat_size
      → IsCopy c
      → k < sector_size
      → byte e ((s + c) * sector_size + k)
        ≡ (if i == s then sector_data b x s k else byte d ((s + c) * sector_size + k))
  unfolding flush_sector
  flush_sector-byte x i d e s c k h hi hs hc hk =
      let a = (s + c) * sector_size + k in
      let o1 = (i + 1) * sector_size in
      let o2 = (i + fat_size + 1) * sector_size in
      let w1 = write d o1 (sector_data b x i) sector_size in
      let w2 = write w1.1 o2 (sector_data b x i) sector_size in
      let same : (if i == s then sector_data b x i k else byte d a)
          ≡ (if i == s then sector_data b x s k else byte d a) =
        ground arith in
      elim (Result-cases w1.0) [
        | inl (u, e1) ↦
            let both : w2 ≡ (ok tt, e) = rw (e1, flush_sector) at h in
            let s1 = write_stores d o1 (sector_data b x i) sector_size a e1 in
            let s2 = write_stores w1.1 o2 (sector_data b x i) sector_size a (ap (λ p. p.0) both) in
            ap (λ p. byte p.1 a) (sym both)
            ∙ (two_writes i s c k _ _ _ (sector_data b x i) hi hs hc hk s1 s2 ∙ same)
        | inr (code, e1) ↦
            let no_ok : (err code, w1.1) ≡ (ok tt, e) = rw (e1, flush_sector) at h in cc
      ]

  sync_loop-byte :
      (n : ℕ) (x : Ctx) (i : ℕ) (d e : Disk) (s c k : ℕ)
      → sync_loop b n x i d ≡ (ok tt, e)
      → i + n ≤ fat_size
      → s < fat_size
      → IsCopy c
      → k < sector_size
      → byte e ((s + c) * sector_size + k) ≡ (
          if x.dirty s && leb i s && ltb s (i + n)
          then sector_data b x s k
          else byte d ((s + c) * sector_size + k))
  unfolding sync_loop
  sync_loop-byte zero x i d e s c k h hi hs hc hk = ground arith
  sync_loop-byte (suc n) x i d e s c k h hi hs hc hk = elim (Bool-cases (any_dirty x.dirty 16)) [
    | inr clean ↦
        let stop : (ok tt, d) ≡ (ok tt, e) = rw (clean, sync_loop) at h in
        let off = any_dirty_none x.dirty 16 s clean (omega arith) in
        rw off (ap (λ p. byte p.1 ((s + c) * sector_size + k)) (sym stop))
    | inl some_dirty ↦ elim (Bool-cases (x.dirty i)) [
      | inr off ↦
          let go : sync_loop b n x (i + 1) d ≡ (ok tt, e) = rw (some_dirty, off, sync_loop) at h in
          ground (arith, sync_loop-byte n x (i + 1) d e s c k go (omega arith) hs hc hk)
      | inl on ↦
          let f = flush_sector b x i d in
          elim (Result-cases f.0) [
            | inl (u, good) ↦
                let go : sync_loop b n x (i + 1) f.1 ≡ (ok tt, e) =
                  rw (some_dirty, on, good, sync_loop) at h in
                let one =
                  flush_sector-byte x i d f.1 s c k (ap (λ r. (r, f.1)) good) (omega arith) hs hc
                    hk in
                ground
                  (arith, one, sync_loop-byte n x (i + 1) f.1 e s c k go (omega arith) hs hc hk)
            | inr (code, bad) ↦
                let stop : (err code, f.1) ≡ (ok tt, e) =
                  rw (some_dirty, on, bad, sync_loop) at h in
                cc
          ]
    ]
  ]

  -- The sectors that are not dirty are the same on the disk, in both copies.
  abbrev pub Consistent : Ctx → Disk → Type 0
  Consistent x d =
      (s c k : ℕ)
      → s < fat_size
      → IsCopy c
      → k < sector_size
      → x.dirty s ≡ false
      → byte d ((s + c) * sector_size + k) ≡ at x (s * sector_size + k)

  -- Both copies on the disk hold the cached table.
  abbrev pub Flushed : Ctx → Disk → Type 0
  Flushed x d =
      (s c k : ℕ)
      → s < fat_size
      → IsCopy c
      → k < sector_size
      → byte d ((s + c) * sector_size + k) ≡ at x (s * sector_size + k)

  sector_data-at :
      (x : Ctx) (s k : ℕ)
      → s < fat_size
      → k < sector_size
      → sector_data b x s k ≡ at x (s * sector_size + k)
  sector_data-at x s k hs hk = ground arith

  -- fat_fat_sync of a table whose clean sectors agree with the disk: if it succeeds, both copies
  -- on the disk hold the table and no sector is dirty; if it fails, table and dirty bits stay.
  pub sync_lem :
      (x : Ctx) (d : Disk)
      → Consistent x d
      → (((sync b x d).0 ≡ ok tt)
          × Flushed x (sync b x d).2
          × ((sync b x d).1 ≡ record x { dirty = λ s. false }))
        ⊎ (((code : Errno) × ((sync b x d).0 ≡ err code)) × ((sync b x d).1 ≡ x))
  unfolding sync
  sync_lem x d agree = elim (Result-cases (sync_loop b fat_size x 0 d).0) [
    | inl (u, good) ↦
        let e = (sync_loop b fat_size x 0 d).1 in
        inl (
          rw (good, sync),
          rw (good, sync)
              λ s c k hs hc hk.
                let one =
                  sync_loop-byte fat_size x 0 d e s c k (ap (λ r. (r, e)) good) (omega arith) hs hc
                    hk in
                let two = sector_data-at x s k hs hk in
                ground (arith, one, two, agree s c k hs hc hk),
          rw (good, sync),
        )
    | inr (code, bad) ↦ inr ((code, rw (bad, sync)), rw (bad, sync))
  ]

  -- fat_fat_set keeps the clean sectors as they are on the disk, for every cluster of the disk but
  -- 2731 whose two bytes do not straddle the end of a sector inside a page.
  fat_set-Consistent :
      (x y : Ctx) (d : Disk) (n cluster : ℕ)
      → IsCluster x n
      → cluster < 4096
      → n ≢ 2731
      → ((3 * n / 2 % 512 ≢ 511) ⊎ (3 * n / 2 ≡ 4095))
      → Consistent x d
      → fat_set x n cluster ≡ ok y
      → Consistent y d
  fat_set-Consistent x y d n cluster v twelve ne apart agree e =
      let (z, e', w) = fat_set-Written x n cluster v twelve ne in
      let same : z ≡ y = ground (arith, e, e') in
      subst (λ t. Consistent t d) same
        λ s c k hs hc hk clean.
          ground (arith, w.bytes (s * sector_size + k), w.marks s, agree s c k hs hc hk)

  -- A sync that succeeds ran its loop to the end.
  sync-ok :
      (y : Ctx) (d : Disk)
      → (sync b y d).0 ≡ ok tt
      → sync_loop b fat_size y 0 d ≡ (ok tt, (sync b y d).2)
  unfolding sync sync_loop
  sync-ok y d good = elim (Result-cases (sync_loop b fat_size y 0 d).0) [
    | inl (u, fine) ↦ rw (fine, sync) (ap (λ r. (r, (sync_loop b fat_size y 0 d).1)) fine)
    | inr (code, bad) ↦ let no_ok : err code ≡ ok tt = rw (bad, sync) at good in cc
  ]

  -- For every other cluster the second byte's sector is not marked: if it was clean, a sync that
  -- succeeds leaves the old byte in both copies on the disk, and nothing dirty.
  fat_set-unmarked :
      (x y : Ctx) (d : Disk) (n cluster c : ℕ)
      → IsCluster x n
      → cluster < 4096
      → n ≢ 2731
      → 3 * n / 2 % 512 ≡ 511
      → 3 * n / 2 ≢ 4095
      → IsCopy c
      → Consistent x d
      → x.dirty ((3 * n / 2 + 1) / 512) ≡ false
      → fat_set x n cluster ≡ ok y
      → (sync b y d).0 ≡ ok tt
      → byte (sync b y d).2 (c * sector_size + (3 * n / 2 + 1)) ≡ at x (3 * n / 2 + 1)
  fat_set-unmarked x y d n cluster c v twelve ne edge mid hc agree clean e good =
      let (z, e', w) = fat_set-Written x n cluster v twelve ne in
      let same : z ≡ y = ground (arith, e, e') in
      let s = (3 * n / 2 + 1) / 512 in
      let hs : s < fat_size = omega (arith, v.inside) in
      let off : z.dirty s ≡ false = ground (arith, w.marks s) in
      let off_y : y.dirty s ≡ false = ap (λ t. t.dirty s) (sym same) ∙ off in
      let done = sync-ok y d good in
      let kept =
        sync_loop-byte fat_size y 0 d (sync b y d).2 s c 0 done (omega arith) hs hc (omega arith) in
      let place : c * sector_size + (3 * n / 2 + 1) ≡ (s + c) * sector_size + 0 = omega arith in
      let here : s * sector_size + 0 ≡ 3 * n / 2 + 1 = omega arith in
      rw place (ground (arith, kept, off_y, agree s c 0 hs hc (omega arith) clean, ap (at x) here))
