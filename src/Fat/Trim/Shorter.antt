-- ===== src/Fat/Trim/Shorter.antt =====
-- fat_file_trim_chain to a length that is not above that of the chain.
use zakos.Common.{
  ℕ, suc, ◌+◌, ◌≤◌, ◌<◌, ◌≡◌, ◌≢◌, refl, ap, ◌∙◌, false, ltb, ◌==◌, List, ◌∷◌, ◌++◌, length,
  last_of, ok, some, arith,
}
use zakos.Fat.Table.{Ctx}
use zakos.Fat.Sync.{BlockDev}
use zakos.Fat.Trim.{
  Cursor, keep_loop, free_loop, cut_behind, Work, starts_at, shrink, synced, trim_from, trim_chain,
}
use zakos.Fat.Trim.Freeing.{IsFloppy, IsChain, Freed, free_loop-Freed}
use zakos.Fat.Trim.Cut.{keep_loop-front, IsCut, cut_behind-IsCut}

module _ (b : BlockDev) (at_null stale : ℕ) where
  -- A file with clusters: the first loop, and what follows it.
  pub trim_run :
      (fuel : ℕ) (w : Work b at_null stale) (length : ℕ) (c : Cursor)
      → w.first ≢ 0
      → keep_loop length w.ctx (record { pos = 1; curr = w.first; last = w.first }) ≡ ok c
      → trim_chain b at_null stale fuel w length ≡ trim_from b at_null stale fuel w length c
  unfolding trim_chain
  trim_run fuel w length c some_first e =
      let used : (w.first == 0) ≡ false = ground (arith, some_first) in rw (used, e) refl

  -- What follows the first loop where that has gone past the new length.
  past_run :
      (fuel : ℕ) (w : Work b at_null stale) (length pos curr last : ℕ)
      → w.first ≢ 0
      → length < pos
      → trim_from b at_null stale fuel w length (record { pos = pos; curr = curr; last = last })
        ≡ synced b at_null stale (shrink b at_null stale fuel w length curr)
  unfolding trim_from
  past_run fuel w length pos curr last some_first h =
      let used : (w.first == 0) ≡ false = ground (arith, some_first) in
      let beyond : (pos == length) ≡ false = ground (arith, h) in
      let no_less : ltb pos length ≡ false = ground (arith, h) in rw (used, beyond, no_less) refl

  cut_shrink :
      (fuel : ℕ) (w : Work b at_null stale) (n last : ℕ) (y : Ctx)
      → cut_behind fuel w.ctx last ≡ some (ok tt, y)
      → shrink b at_null stale fuel w (suc n) last ≡ some (ok tt, record w { ctx = y })
  unfolding shrink
  cut_shrink fuel w n last y e = rw (e, shrink) refl

  -- fat_file_trim_chain of a file, to a length above 0 and below that of its chain, which has each
  -- cluster once, all on a disk of 1.44 MB and none of them 2731: the chain ends at that length, the clusters behind it are free, all other entries stay, and the table is then
  -- written back. The fuel is above the number of the clusters that are freed.
  pub trim_chain-IsCut :
      (fuel : ℕ) (w : Work b at_null stale) (a : List ℕ) (d : ℕ) (r : List ℕ)
      → length r + 2 ≤ fuel
      → IsFloppy w.ctx
      → w.first ≢ 0
      → IsChain w.ctx w.first (a ++ (d ∷ r))
      → (y : Ctx) × (trim_chain b at_null stale fuel w (suc (length a))
          ≡ synced b at_null stale (some (ok tt, record w { ctx = y })))
        × IsCut w.ctx w.first a (d ∷ r) y
  trim_chain-IsCut fuel w a d r enough f some_first v =
      let (y, run, cut) = cut_behind-IsCut fuel w.ctx w.first a d r enough f v in
      let kept = keep_loop-front w.ctx 1 w.first w.first a d r v.0 in
      let n = suc (length a) in
      (
        y,
        trim_run fuel w n (record { pos = 1 + n; curr = last_of w.first a; last = d }) some_first
              kept
            ∙ past_run fuel w n (1 + n) (last_of w.first a) d some_first (omega arith)
            ∙ ap (synced b at_null stale) (cut_shrink fuel w (length a) (last_of w.first a) y run),
        cut,
      )

  free_shrink :
      (fuel : ℕ) (w : Work b at_null stale) (last : ℕ) (y : Ctx)
      → free_loop fuel w.ctx last ≡ some (ok tt, y)
      → shrink b at_null stale fuel w 0 last
        ≡ some (ok tt, record (starts_at b at_null stale w 0) { ctx = y })
  unfolding shrink
  free_shrink fuel w last y e = rw (e, shrink) refl

  -- fat_file_trim_chain of a file to length 0, where its chain has each cluster once, all on a disk of
  -- 1.44 MB and none of them 2731: the file and its entry have no cluster, all clusters
  -- of the chain are free, all other entries stay, and the table is then written back. The fuel is
  -- above the number of the clusters.
  pub trim_chain-Freed :
      (fuel : ℕ) (w : Work b at_null stale) (cs : List ℕ)
      → length cs + 2 ≤ fuel
      → IsFloppy w.ctx
      → w.first ≢ 0
      → IsChain w.ctx w.first cs
      → (y : Ctx) × (trim_chain b at_null stale fuel w 0
          ≡ synced b at_null stale
              (some (ok tt, record (starts_at b at_null stale w 0) { ctx = y })))
        × Freed w.ctx (w.first ∷ cs) y
  unfolding keep_loop
  trim_chain-Freed fuel w cs enough f some_first v =
      let (y, run, freed) = free_loop-Freed fuel w.ctx w.first cs enough f v in
      (
        y,
        trim_run fuel w 0 (record { pos = 1; curr = w.first; last = w.first }) some_first refl
            ∙ past_run fuel w 0 1 w.first w.first some_first (omega arith)
            ∙ ap (synced b at_null stale) (free_shrink fuel w w.first y run),
        freed,
      )
