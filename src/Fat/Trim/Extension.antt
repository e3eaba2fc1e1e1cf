-- ===== src/Fat/Trim/Extension.antt =====
-- fat_file_trim_chain to a length above that of the chain.
use zakos.Common.{
  ℕ, suc, ◌+◌, ◌-◌, ◌<◌, ◌≡◌, ◌≢◌, refl, ap, ◌∙◌, true, false, ltb, ◌==◌, List, length, last_of,
  arith,
}
use zakos.Fat.Table.{cluster_free, cluster_end}
use zakos.Fat.Chain.Allocate.{is_free}
use zakos.Fat.Sync.{BlockDev}
use zakos.Fat.Trim.{Work, Done, entry_cluster, grow_loop, synced, trim_from, trim_chain}
use zakos.Fat.Trim.Freeing.{IsFloppy, IsChain}
use zakos.Fat.Trim.Cut.{keep_loop-all}
use zakos.Fat.Trim.Growing.{Links-Leads}
use zakos.Fat.Trim.Extended.{IsOpen}
use zakos.Fat.Trim.Shorter.{trim_run}
use zakos.Fat.Trim.Longer.{Grows, grow_loop-Grows}

module _ (b : BlockDev) (at_null stale : ℕ) where
  -- What follows the first loop where that has come to the end of the chain.
  short_run :
      (w : Work b at_null stale) (length pos curr last : ℕ)
      → w.first ≢ 0
      → pos < length
      → trim_from b at_null stale 5700 w length (record { pos = pos; curr = curr; last = last })
        ≡ synced b at_null stale (grow_loop b at_null stale 5700 (length - pos) w curr)
  unfolding trim_from
  short_run w length pos curr last some_first h =
      let used : (w.first == 0) ≡ false = ground (arith, some_first) in
      let not_yet : (pos == length) ≡ false = ground (arith, h) in
      let less : ltb pos length ≡ true = ground (arith, h) in rw (used, not_yet, less) refl

  -- fat_file_trim_chain of a file with an entry, to a length above that of its chain, which has each
  -- cluster once, all on a disk of 1.44 MB and none of them 2731, where the entry of 2731 is not free
  -- and the stack does not hold 0 where `ncluster` is. Either the chain goes on over as many new
  -- clusters as were missing and ends there, and the table is then written back. Or an error is
  -- reported, which is one with fewer new clusters where no other cluster of the disk is free, or EIO
  -- where the device has failed to clear the last new one; the table then leads over the clusters
  -- up to there. In each case the new clusters were free, and all entries but theirs and that of the
  -- last cluster of the old chain stay.
  pub trim_chain-Grows :
      (w : Work b at_null stale) (cs : List ℕ) (n : ℕ)
      → stale ≢ cluster_free
      → entry_cluster b at_null stale w.entry ≢ 0
      → IsFloppy w.ctx
      → w.first ≢ 0
      → IsChain w.ctx w.first cs
      → is_free w.ctx 2731 ≡ false
      → (r : Done b at_null stale) × Grows b at_null stale w w.first cs (suc n) r
        × (trim_chain b at_null stale 5700 w (suc (length cs) + suc n) ≡ synced b at_null stale r)
  trim_chain-Grows w cs n used some_entry f some_first (links, one, usable) taken =
      let c = w.first in
      let len = suc (length cs) + suc n in
      let kept = keep_loop-all w.ctx 1 c c cs len (omega arith) links in
      let left : len - (1 + length cs) ≡ suc n = omega arith in
      let opened : IsOpen w.ctx c cs = (Links-Leads w.ctx c cs links, one, usable) in
      (
        grow_loop b at_null stale 5700 (suc n) w (last_of c cs),
        grow_loop-Grows b at_null stale (suc n) w c cs used some_entry f opened taken,
        trim_run b at_null stale 5700 w len
              (record { pos = 1 + length cs; curr = last_of c cs; last = cluster_end }) some_first
              kept
            ∙ short_run w len (1 + length cs) (last_of c cs) cluster_end some_first (omega arith)
            ∙ ap (λ k. synced b at_null stale (grow_loop b at_null stale 5700 k w (last_of c cs)))
                left,
      )
