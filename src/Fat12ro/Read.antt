-- ===== src/Fat12ro/Read.antt =====
-- fat12_file_read on a medium that can be read: it delivers the bytes of the file's clusters.
use zakos.Common.{
  ℕ, zero, suc, ◌+◌, ◌-◌, ◌/◌, ◌%◌, ◌^◌, ◌<◌, ◌≤◌, ◌≡◌, refl, sym, ap, subst, ◌∙◌, inl, inr, Bool,
  false, leb, ◌==◌, if◌then◌else◌, arith, Bool-cases, ==_iff, Result, ok, err, Errno, failed,
  eisdir, Option, none, some, List, [], ◌++◌, min,
}
use mathlib.Core.List.{append_assoc, append-nil}
use zakos.Fat12ro.{
  Fat12Fs, Fat12File, Sought, there, eof, lost, fat12_fat_get, follow, index_of, sector_of,
  fat12_file_seek, fat12_read_sector, copy_out, chunk_of, read_loop, read_size, fat12_file_read,
  is_directory,
}
use zakos.Fat12ro.Chunks.{copy_out-same, copy_out-append, chunk_lem, read_size_lem}
use zakos.Fat12ro.Seek.{nth_cluster, IsPlaced, on_walk, finished, fat12_file_seek_lem}

-- The FAT does not change with the buffer.
walk_shared :
    (fs : Fat12Fs) (b : ℕ → ℕ) (k n c : ℕ)
    → nth_cluster (record fs { sbuff = b; sno = k }) n c ≡ nth_cluster fs n c
unfolding nth_cluster follow fat12_fat_get
walk_shared fs b k zero c = refl
walk_shared fs b k (suc n) c = ap (on_walk (follow fs c).0 c) (walk_shared fs b k n (follow fs c).1)

module _ (read_cb : ℕ → (ℕ → ℕ) → Option Errno × (ℕ → ℕ)) (media : ℕ → ℕ → ℕ)
    (reads : (n : ℕ) (b : ℕ → ℕ) → read_cb n b ≡ (none, media n)) where
  -- The byte of a file at an offset, by a walk from its first cluster.
  abbrev pub content : Fat12Fs → ℕ → ℕ → ℕ
  content fs start i = media (sector_of (nth_cluster fs (i / 512) start).1) (i % 512)

  -- The buffer holds the sector that it is said to hold.
  abbrev pub IsCached : Fat12Fs → Type 0
  IsCached fs = fs.sbuff ≡ media fs.sno

  read_sector_lem :
      (fs : Fat12Fs) (n : ℕ)
      → IsCached fs
      → fat12_read_sector read_cb fs n ≡ (none, record fs { sbuff = media n; sno = n })
  unfolding fat12_read_sector
  read_sector_lem fs n h =
      let r = read_cb n fs.sbuff in
      let missed : Option Errno × Fat12Fs = (r.0, record fs { sbuff = r.1; sno = n }) in
      elim (Bool-cases (n == fs.sno)) [
        | inl e ↦
            let same : fs.sno ≡ n = ground (arith, e, ==_iff n fs.sno) in
            ap (λ b. if b then (none, fs) else missed) e
            ∙ ap (λ (b : ℕ → ℕ). (none, record fs { sbuff = b })) h
            ∙ ap (λ (k : ℕ). (none, record fs { sbuff = media k; sno = k })) same
        | inr e ↦
            ap (λ b. if b then (none, fs) else missed) e
            ∙ ap (λ (r : Option Errno × (ℕ → ℕ)). (r.0, record fs { sbuff = r.1; sno = n }))
                (reads n fs.sbuff)
      ]

  -- What the loop needs: the FAT of `base`, a valid buffer and a file that is in its chain.
  record Ready (base fs : Fat12Fs) (file : Fat12File) : Type 0 where
    fat : (n c : ℕ) → nth_cluster fs n c ≡ nth_cluster base n c
    cached : IsCached fs
    placed : IsPlaced fs file

  -- A round of the loop, from its test, the seek and the read.
  abbrev round :
      ℕ
      → Fat12Fs
      → Fat12File
      → ℕ
      → ℕ
      → List ℕ
      → Bool
      → Sought × Fat12File
      → Option Errno × Fat12Fs
      → Result (List ℕ) × Fat12Fs × Fat12File
  round n fs file offs left got b s r =
      let chunk = chunk_of offs left in
      let rest =
        read_loop read_cb n r.1 s.1 (offs + chunk) (left - chunk)
          (got ++ copy_out r.1.sbuff (offs % 512) chunk) in
      if b then (ok got, fs, file) else elim s.0 [
        | lost e ↦ (err failed, fs, s.1)
        | eof ↦ (ok got, fs, s.1)
        | there ↦ elim r.0 [ some e ↦ (err failed, r.1, s.1) | none ↦ rest ]
      ]

  -- The round of the loop, for a seek and a read that succeed.
  read_loop-step :
      (n : ℕ) (fs : Fat12Fs) (file : Fat12File) (offs left c : ℕ) (got : List ℕ)
      → (left == 0) ≡ false
      → IsCached fs
      → fat12_file_seek fs file offs
        ≡ (there, record file { recent_cluster = c; recent_offs = offs })
      → read_loop read_cb (suc n) fs file offs left got
        ≡ read_loop read_cb n
            (record fs { sbuff = media (sector_of c); sno = sector_of c })
            (record file { recent_cluster = c; recent_offs = offs })
            (offs + chunk_of offs left)
            (left - chunk_of offs left)
            (got ++ copy_out (media (sector_of c)) (offs % 512) (chunk_of offs left))
  unfolding read_loop
  read_loop-step n fs file offs left c got e h sought =
      let seek = fat12_file_seek fs file offs in
      let sector =
        λ (z : Sought × Fat12File). fat12_read_sector read_cb fs (sector_of z.1.recent_cluster) in
      let to : Sought × Fat12File =
        (there, record file { recent_cluster = c; recent_offs = offs }) in
      ap (λ b. round n fs file offs left got b seek (sector seek)) e
      ∙ ap (λ (z : Sought × Fat12File). round n fs file offs left got false z (sector z)) sought
      ∙ ap (round n fs file offs left got false to) (read_sector_lem fs (sector_of c) h)

  -- What a round copies, and what is left for the others.
  round_content :
      (base : Fat12Fs) (start offs left chunk : ℕ)
      → chunk ≤ left
      → offs % 512 + chunk ≤ 512
      → copy_out (media (sector_of (nth_cluster base (offs / 512) start).1)) (offs % 512) chunk
          ++ copy_out (content base start) (offs + chunk) (left - chunk)
        ≡ copy_out (content base start) offs left
  round_content base start offs left chunk most fit =
      let f = content base start in
      let same = λ (j : ℕ) (p : j < chunk).
        let index : offs / 512 ≡ (offs + j) / 512 = omega arith in
        let pos : offs % 512 + j ≡ (offs + j) % 512 = omega arith in
        ap (λ k. media (sector_of (nth_cluster base k start).1) (offs % 512 + j)) index
        ∙ ap (media (sector_of (nth_cluster base ((offs + j) / 512) start).1)) pos in
      let all : chunk + (left - chunk) ≡ left = omega arith in
      ap (λ z. z ++ copy_out f (offs + chunk) (left - chunk))
        (copy_out-same (media (sector_of (nth_cluster base (offs / 512) start).1)) f (offs % 512)
          offs chunk same)
      ∙ sym (copy_out-append f offs chunk (left - chunk))
      ∙ ap (copy_out f offs) all

  seek_in_chain :
      (base fs : Fat12Fs) (file : Fat12File) (offs : ℕ)
      → Ready base fs file
      → offs < 2 ^ 25
      → (nth_cluster base (offs / 512) file.dentry.cluster).0 ≡ there
      → (fat12_file_seek fs file offs ≡ (
        there,
        record file {
          recent_cluster = (nth_cluster base (offs / 512) file.dentry.cluster).1;
          recent_offs = offs;
        },
      ))
        × (nth_cluster fs (index_of offs) file.dentry.cluster
            ≡ (there, (nth_cluster base (offs / 512) file.dentry.cluster).1))
  seek_in_chain base fs file offs v small h =
      let start = file.dentry.cluster in
      let c = (nth_cluster base (offs / 512) start).1 in
      let here : index_of offs ≡ offs / 512 = omega arith in
      let w : nth_cluster fs (index_of offs) start ≡ (there, c) =
        ap (λ k. nth_cluster fs k start) here ∙ v.fat (offs / 512) start ∙ ap (λ o. (o, c)) h in
      ((fat12_file_seek_lem fs file offs v.placed).0 ∙ ap (finished file offs) w, w)

  read_loop_lem :
      (n : ℕ) (base fs : Fat12Fs) (file : Fat12File) (offs left : ℕ) (got : List ℕ)
      → Ready base fs file
      → left ≤ n
      → offs + left ≤ 2 ^ 25
      → ((i : ℕ) → i < offs + left → (nth_cluster base (i / 512) file.dentry.cluster).0 ≡ there)
      → (read_loop read_cb n fs file offs left got).0
        ≡ ok (got ++ copy_out (content base file.dentry.cluster) offs left)
  unfolding read_loop copy_out
  read_loop_lem zero base fs file offs left got v f small chain =
      let none_left : left ≡ 0 = omega arith in
      subst (λ k. ok got ≡ ok (got ++ copy_out (content base file.dentry.cluster) offs k))
        (sym none_left) (ap ok (sym (append-nil got)))
  read_loop_lem (suc n) base fs file offs left got v f small chain = elim (Bool-cases (left == 0)) [
    | inl e ↦
        let none_left : left ≡ 0 = ground (arith, e) in
        let seek = fat12_file_seek fs file offs in
        let r = fat12_read_sector read_cb fs (sector_of seek.1.recent_cluster) in
        ap (λ b. (round n fs file offs left got b seek r).0) e
        ∙ subst (λ k. ok got ≡ ok (got ++ copy_out (content base file.dentry.cluster) offs k))
            (sym none_left) (ap ok (sym (append-nil got)))
    | inr e ↦
        let start = file.dentry.cluster in
        let chunk = chunk_of offs left in
        let c = (nth_cluster base (offs / 512) start).1 in
        let (sought, mine) =
          seek_in_chain base fs file offs v (ground (arith, e)) (chain offs (ground (arith, e))) in
        let (most, pos, fit) = chunk_lem offs left in
        let u = record fs { sbuff = media (sector_of c); sno = sector_of c } in
        let rest =
          read_loop_lem n base u (record file { recent_cluster = c; recent_offs = offs })
            (offs + chunk) (left - chunk) (got ++ copy_out (media (sector_of c)) (offs % 512) chunk)
            (record {
              fat = λ k d. walk_shared fs (media (sector_of c)) (sector_of c) k d ∙ v.fat k d;
              cached = refl;
              placed =
                  walk_shared fs (media (sector_of c)) (sector_of c) (index_of offs) start ∙ mine;
            })
            (ground (arith, e, most, pos)) (ground (arith, most))
            (λ i p. chain i (ground (arith, most))) in
        ap (λ z. z.0) (read_loop-step n fs file offs left c got e v.cached sought)
        ∙ rest
        ∙ ap ok (
            append_assoc got _ _
            ∙ ap (λ z. got ++ z) (round_content base start offs left chunk most fit))
  ]

  -- The tests of fat12_file_read.
  abbrev tests :
      Bool
      → Bool
      → Fat12Fs
      → Fat12File
      → Result (List ℕ) × Fat12Fs × Fat12File
      → Result (List ℕ) × Fat12Fs × Option Fat12File
  tests dir beyond fs file r =
      if dir
      then (err eisdir, fs, some file)
      else if beyond
      then (ok [], fs, some file)
      else (r.0, r.1, some r.2)

  -- fat12_file_read of a file of at most 2^25 bytes at an offset below 2^25, from a valid buffer and a
  -- file in its chain, where every read of a sector succeeds and the chain has a cluster for every
  -- byte: it delivers the bytes of the file from the offset on, as many as are asked for, as there
  -- are, and as fit in an int.
  pub fat12_file_read_lem :
      (fs : Fat12Fs) (file : Fat12File) (bufflen offs : ℕ)
      → is_directory file.dentry ≡ false
      → IsCached fs
      → IsPlaced fs file
      → bufflen < 2 ^ 16
      → offs < 2 ^ 25
      → file.dentry.size ≤ 2 ^ 25
      → ((i : ℕ) → i < file.dentry.size → (nth_cluster fs (i / 512) file.dentry.cluster).0 ≡ there)
      → (fat12_file_read read_cb fs (some file) bufflen offs).0
        ≡ ok (
            copy_out
              (content fs file.dentry.cluster)
              offs
              (min 0x7FFF (min bufflen (file.dentry.size - offs))))
  unfolding fat12_file_read copy_out
  fat12_file_read_lem fs file bufflen offs plain cached placed len low size chain =
      let n = read_size file bufflen offs in
      let r = read_loop read_cb n fs file offs n [] in
      let f = content fs file.dentry.cluster in
      let test = leb file.dentry.size offs in
      let asked = min 0x7FFF (min bufflen (file.dentry.size - offs)) in
      let by_kind = ap (λ (b : Bool). (tests b test fs file r).0) plain in
      elim (Bool-cases test) [
        | inl e ↦
            let none_left : 0 ≡ asked = ground (arith, e) in
            by_kind
            ∙ ap (λ b. (tests false b fs file r).0) e
            ∙ ap (λ k. ok (copy_out f offs k)) none_left
        | inr e ↦
            let all = read_size_lem file bufflen offs len size e in
            let ready : Ready fs fs file = record {
              fat = λ k c. refl;
              cached = cached;
              placed = placed;
            } in
            by_kind
            ∙ ap (λ b. (tests false b fs file r).0) e
            ∙ read_loop_lem n fs fs file offs n [] ready (omega arith) (ground (arith, all, e))
                (λ i p. chain i (ground (arith, all, e)))
            ∙ ap (λ k. ok (copy_out f offs k)) all
      ]
