-- ===== src/Fat12ro/Mount.antt =====
-- fat12_mount, which accepts a 1.44 MB medium and loads its first FAT.
use zakos.Common.{
  ℕ, zero, suc, ◌+◌, ◌-◌, ◌*◌, ◌/◌, ◌%◌, ◌<◌, ◌≤◌, ◌≡◌, refl, sym, ap, subst, ◌∙◌, Bool, true,
  false, not, ◌&&◌, ltb, leb, ◌==◌, if◌then◌else◌, arith, Errno, eio, Option, none, some,
}
use zakos.Fat12ro.{Fat12Fs, word_at, fat_sectors}

-- The checks of the boot sector's fields before the size is read, and after it.
abbrev pub is_known : (ℕ → ℕ) → Bool
is_known b =
    (word_at b 11 == 512)
    && (b 13 == 1)
    && (word_at b 14 == 1)
    && (b 16 == 2)
    && (word_at b 17 == 224)

abbrev pub is_floppy : (ℕ → ℕ) → Bool
is_floppy b = (word_at b 22 == 9) && (word_at b 24 == 18) && (word_at b 26 == 2)

-- Sector `i` of the table.
abbrev pub paste : (ℕ → ℕ) → ℕ → (ℕ → ℕ) → ℕ → ℕ
paste table i b j = if leb (512 * i) j && ltb j (512 * i + 512) then b (j - 512 * i) else table j

module _ (read_cb : ℕ → (ℕ → ℕ) → Option Errno × (ℕ → ℕ)) where
  -- The loop of fat12_mount from sector `i` of the FAT on, with the number of sectors left.
  pub load_fat : ℕ → ℕ → Fat12Fs → Option Errno × Fat12Fs
  load_fat zero i fs = (none, fs)
  load_fat (suc n) i fs =
      let r = read_cb (i + 1) (λ j. fs.fat_table (512 * i + j)) in
      let u = record fs { fat_table = paste fs.fat_table i r.1 } in
      let rest = load_fat n (i + 1) u in elim r.0 [ some e ↦ (some e, u) | none ↦ rest ]

  -- fat12_mount, after the boot sector is read.
  abbrev pub parse_boot : Fat12Fs → Option Errno × (ℕ → ℕ) → Option Errno × Fat12Fs
  parse_boot fs r =
      let loaded = record fs { sbuff = r.1 } in
      let first = record loaded { sno = 0 } in
      let sized = record first { size = word_at r.1 18 } in
      elim r.0 [
        | some e ↦ (some e, loaded)
        | none ↦
            if not (is_known r.1)
            then (some eio, first)
            else if not (is_floppy r.1)
            then (some eio, sized)
            else load_fat fat_sectors 0 sized
      ]

  -- fat12_mount
  pub fat12_mount : Fat12Fs → Option Errno × Fat12Fs
  fat12_mount fs = parse_boot fs (read_cb 0 fs.sbuff)

-- What mounting a medium leaves behind.
pub record Mounted (media : ℕ → ℕ → ℕ) (fs : Fat12Fs) : Type 0 where
  pub cached : fs.sbuff ≡ media fs.sno
  pub table : (j : ℕ) → j < 4608 → fs.fat_table j ≡ media (j / 512 + 1) (j % 512)
  pub size : fs.size ≡ word_at (media 0) 18

module _ (read_cb : ℕ → (ℕ → ℕ) → Option Errno × (ℕ → ℕ)) (media : ℕ → ℕ → ℕ)
    (reads : (n : ℕ) (b : ℕ → ℕ) → read_cb n b ≡ (none, media n)) where
  load_fat-step :
      (n i : ℕ) (fs : Fat12Fs)
      → load_fat read_cb (suc n) i fs
        ≡ load_fat read_cb n
            (i + 1)
            (record fs { fat_table = paste fs.fat_table i (media (i + 1)) })
  unfolding load_fat
  load_fat-step n i fs =
      ap
        (λ (r : Option Errno × (ℕ → ℕ)).
          let u : Fat12Fs = record fs { fat_table = paste fs.fat_table i r.1 } in
          elim r.0 [ some e ↦ (some e, u) | none ↦ load_fat read_cb n (i + 1) u ])
        (reads (i + 1) (λ j. fs.fat_table (512 * i + j)))

  -- The table after `n` sectors from sector `i` on.
  pasted : ℕ → ℕ → (ℕ → ℕ) → ℕ → ℕ
  pasted zero i table = table
  pasted (suc n) i table = pasted n (i + 1) (paste table i (media (i + 1)))

  pasted-at :
      (n i : ℕ) (table : ℕ → ℕ) (j : ℕ)
      → pasted n i table j ≡ (
          if leb (512 * i) j && ltb j (512 * (i + n))
          then media (j / 512 + 1) (j % 512)
          else table j)
  unfolding pasted
  pasted-at zero i table j = ground arith
  pasted-at (suc n) i table j =
      let here = λ (p : 512 * i ≤ j) (q : j < 512 * i + 512).
        let index : i + 1 ≡ j / 512 + 1 = omega arith in
        let pos : j - 512 * i ≡ j % 512 = omega arith in
        ap (λ k. media k (j - 512 * i)) index ∙ ap (media (j / 512 + 1)) pos in
      ground (arith, here, pasted-at n (i + 1) (paste table i (media (i + 1))) j)

  load_fat_lem :
      (n i : ℕ) (fs : Fat12Fs)
      → load_fat read_cb n i fs ≡ (none, record fs { fat_table = pasted n i fs.fat_table })
  unfolding load_fat pasted
  load_fat_lem zero i fs = refl
  load_fat_lem (suc n) i fs =
      load_fat-step n i fs
      ∙ load_fat_lem n (i + 1) (record fs { fat_table = paste fs.fat_table i (media (i + 1)) })

  -- The tests of fat12_mount.
  abbrev tests : Fat12Fs → Bool → Bool → Option Errno × Fat12Fs
  tests fs known floppy =
      let sized : Fat12Fs = record fs { sbuff = media 0; sno = 0; size = word_at (media 0) 18 } in
      if not known
      then (some eio, record fs { sbuff = media 0; sno = 0 })
      else if not floppy
      then (some eio, sized)
      else (none, record sized { fat_table = pasted 9 0 fs.fat_table })

  mounted :
      (fs : Fat12Fs) → fat12_mount read_cb fs ≡ tests fs (is_known (media 0)) (is_floppy (media 0))
  unfolding fat12_mount
  mounted fs =
      let sized : Fat12Fs = record fs { sbuff = media 0; sno = 0; size = word_at (media 0) 18 } in
      ap (parse_boot read_cb fs) (reads 0 fs.sbuff)
      ∙ ap
          (λ (l : Option Errno × Fat12Fs).
            if not (is_known (media 0))
            then (some eio, record fs { sbuff = media 0; sno = 0 })
            else if not (is_floppy (media 0))
            then (some eio, sized)
            else l)
          (load_fat_lem 9 0 sized)

  by_tests :
      (fs : Fat12Fs) (known floppy : Bool) (r : Option Errno × Fat12Fs)
      → r ≡ tests fs known floppy
      → Mounted media (tests fs true true).1
      → (r.0 ≡ (if known && floppy then none else some eio))
        × ((known && floppy) ≡ true → Mounted media r.1)
  by_tests fs true true r e m = (ap (λ z. z.0) e, λ h. subst (λ z. Mounted media z.1) (sym e) m)
  by_tests fs true false r e m = (ap (λ z. z.0) e, λ h. absurd (cc))
  by_tests fs false floppy r e m = (ap (λ z. z.0) e, λ h. absurd (cc))

  -- fat12_mount of a medium that can be read: it reports EIO unless the boot sector has the fields
  -- of a 1.44 MB disk; else it succeeds, and leaves a valid buffer and the first FAT, as
  -- fat12_file_read needs them. The size that it keeps is the word at 18.
  pub fat12_mount_lem :
      (fs : Fat12Fs)
      → ((fat12_mount read_cb fs).0
          ≡ (if is_known (media 0) && is_floppy (media 0) then none else some eio))
        × ((is_known (media 0) && is_floppy (media 0)) ≡ true
            → Mounted media (fat12_mount read_cb fs).1)
  fat12_mount_lem fs =
      let whole = mounted fs in
      by_tests fs (is_known (media 0)) (is_floppy (media 0)) _ whole (record {
        cached = refl;
        table = λ j p. ground (arith, pasted-at 9 0 fs.fat_table j);
        size = refl;
      })
