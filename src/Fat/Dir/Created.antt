-- ===== src/Fat/Dir/Created.antt =====
-- A file that fat_op_create has made is found by fat_op_readdir.
use zakos.Common.{
  ℕ, zero, suc, ◌+◌, ◌%◌, ◌^◌, ◌≤◌, ◌<◌, ◌≡◌, ◌⊎◌, refl, sym, ap, ◌∙◌, subst, inl, inr, true, List,
  ◌∷◌, ◌==◌, length, Result, Result-cases, ok, err, Errno, some, arith, Bool-cases, ==_iff,
}
use zakos.Fat.Names.{entry_name}
use zakos.Fat.Names.Shown.{base_of, suffix_of}
use zakos.Fat.Sync.{BlockDev}
use zakos.Fat.Entries.{dir_read, dir_write}
use zakos.Fat.Trim.{Work}
use zakos.Fat.Io.{is_regular}
use zakos.Fat.Dir.{new_entry, fat_readdir, Placed, find_place, fat_create}
use zakos.Fat.Dir.Listing.{
  list_entry-same, new_file, IsName, entry_name-accepts, list_entry-new_entry,
}
use zakos.Fat.Dir.Stored.{place_of, dir_read-dir_write, fat_readdir-lists, InUse, Vacant}

module _ (b : BlockDev) where
  open b use {Disk}

  module _ (at_null stale fuel : ℕ) (w : Work b at_null stale) (k : ℕ) where
    find_place-Vacant :
        (n i : ℕ)
        → Vacant b w.ctx w.disk w.first i
        → find_place b at_null stale fuel (suc n) w i ≡ some (ok i, w)
    unfolding find_place
    find_place-Vacant n i (e, h, free) = rw (h, free, find_place) refl

    find_place-InUse :
        (n i : ℕ)
        → InUse b w.ctx w.disk w.first i
        → find_place b at_null stale fuel (suc n) w i
          ≡ find_place b at_null stale fuel n w ((i + 1) % 2 ^ 16)
    unfolding find_place
    find_place-InUse n i (e, h, used) = rw (h, used, find_place) refl

    -- The first vacant entry is found.
    find_place-first :
        (n i : ℕ)
        → i ≤ k
        → k < n + i
        → k < 2 ^ 16
        → ((j : ℕ) → j < k → InUse b w.ctx w.disk w.first j)
        → Vacant b w.ctx w.disk w.first k
        → find_place b at_null stale fuel n w i ≡ some (ok k, w)
    find_place-first zero i low high small used free = absurd (omega arith)
    find_place-first (suc n) i low high small used free = elim (Bool-cases (i == k)) [
      | inl e ↦
          let same : k ≡ i = ground (arith, e, ==_iff i k) in
          subst (λ z. find_place b at_null stale fuel (suc n) w i ≡ some (ok z, w)) (sym same)
            (find_place-Vacant n i (subst (Vacant b w.ctx w.disk w.first) same free))
      | inr e ↦
          let below : i < k = ground (arith, e) in
          let step : (i + 1) % 2 ^ 16 ≡ i + 1 = omega arith in
          find_place-InUse n i (used i below)
          ∙ ap (find_place b at_null stale fuel n w) step
          ∙ find_place-first n (i + 1) (omega arith) (omega arith) small used free
    ]

    -- fat_op_create behind its tests and the search, from the outcome of the write.
    abbrev finished : Result (Unit {0}) × Disk → Placed b at_null stale
    finished p = elim p.0 [
      | err e ↦ some (err e, record w { disk = p.1 })
      | ok _ ↦ some (ok k, record w { disk = p.1 })
    ]

    create_run :
        (up : ℕ → ℕ) (rounds : ℕ) (name f e : List ℕ) (attr : ℕ)
        → is_regular attr ≡ true
        → entry_name up name ≡ ok (f, e)
        → find_place b at_null stale fuel rounds w 0 ≡ some (ok k, w)
        → fat_create b at_null stale up fuel rounds w name attr
          ≡ finished (dir_write b w.ctx w.disk w.first (new_entry (f, e) attr) k)
    unfolding fat_create
    create_run up rounds name f e attr regular h found = rw (regular, h, found, fat_create) refl

    -- What fat_op_readdir finds on a disk: the new file, or it has failed to read.
    abbrev pub Shows : (ℕ → ℕ) → List ℕ → ℕ → Disk → Type 0
    Shows up name attr d =
        (fat_readdir b w.ctx d w.first k ≡ ok (new_file up name attr k))
        ⊎ ((code : Errno) × (dir_read b w.ctx d w.first k ≡ err code))

    -- fat_op_create of a regular file whose name has up to 8 characters before the first '.', up to 3
    -- behind it, and is a name that an entry can hold, in a directory with a vacant entry: it takes
    -- the first one, and fat_op_readdir at its index then shows an empty file, with the name in upper
    -- case, less a '.' at the end. Only if the block device fails to write, fat_op_create reports its
    -- error, and only if it fails to read, fat_op_readdir shows no file.
    pub fat_create-fat_readdir :
        (up : ℕ → ℕ) (rounds c : ℕ) (name : List ℕ) (attr : ℕ)
        → IsName up c name
        → length (base_of (c ∷ name)) ≤ 8
        → length (suffix_of (c ∷ name)) ≤ 3
        → is_regular attr ≡ true
        → k < rounds
        → k < 2 ^ 16
        → ((j : ℕ) → j < k → InUse b w.ctx w.disk w.first j)
        → Vacant b w.ctx w.disk w.first k
        → (d : Disk) × (((fat_create b at_null stale up fuel rounds w (c ∷ name) attr
                ≡ some (ok k, record w { disk = d }))
              × Shows up (c ∷ name) attr d)
            ⊎ ((code : Errno) × (entry : ℕ → ℕ) × ((dir_write b w.ctx w.disk w.first entry k).0
                  ≡ err code)
                × (fat_create b at_null stale up fuel rounds w (c ∷ name) attr
                    ≡ some (err code, record w { disk = d }))))
    fat_create-fat_readdir up rounds c name attr v short few regular enough small used free =
        let (f, e, named) = entry_name-accepts up c name v short few in
        let found =
          find_place-first rounds 0 (omega arith) (omega (arith, enough)) small used free in
        let run = create_run up rounds (c ∷ name) f e attr regular named found in
        let out = dir_write b w.ctx w.disk w.first (new_entry (f, e) attr) k in
        (
          out.1,
          elim (Result-cases out.0) [
            | inr (code, failed) ↦
                inr (code, new_entry (f, e) attr, failed, run ∙ ended_badly out.0 code out.1 failed)
            | inl (_, stored) ↦
                inl (
                  run ∙ ended_well out.0 out.1 stored,
                  shows up c name f e attr v named free stored,
                )
          ],
        )
      where
        ended_badly :
            (r : Result (Unit {0})) (code : Errno) (d : Disk)
            → r ≡ err code
            → finished (r, d) ≡ some (err code, record w { disk = d })
        ended_badly r code d h = rw h refl

        ended_well :
            (r : Result (Unit {0})) (d : Disk)
            → r ≡ ok tt
            → finished (r, d) ≡ some (ok k, record w { disk = d })
        ended_well r d h = rw h refl

        shows :
            (up : ℕ → ℕ) (c : ℕ) (name f e : List ℕ) (attr : ℕ)
            → IsName up c name
            → entry_name up (c ∷ name) ≡ ok (f, e)
            → Vacant b w.ctx w.disk w.first k
            → (dir_write b w.ctx w.disk w.first (new_entry (f, e) attr) k).0 ≡ ok tt
            → Shows up
                (c ∷ name)
                attr
                (dir_write b w.ctx w.disk w.first (new_entry (f, e) attr) k).1
        shows up c name f e attr v named (g, h, _) stored =
            let d = (dir_write b w.ctx w.disk w.first (new_entry (f, e) attr) k).1 in
            let (p, place) = place_of b w.ctx w.disk w.first k g h in
            elim (Result-cases (dir_read b w.ctx d w.first k)) [
              | inr (code, failed) ↦ inr (code, failed)
              | inl (q, loaded) ↦ inl (
                  fat_readdir-lists b w.ctx d w.first k q loaded
                  ∙ list_entry-same q (new_entry (f, e) attr) k (
                      dir_read-dir_write b w.ctx w.disk w.first k (new_entry (f, e) attr) q p place
                        stored loaded)
                  ∙ list_entry-new_entry up c name f e attr k v named)
            ]
