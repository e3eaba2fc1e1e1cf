-- ===== src/Fat12ro/Tests.antt =====
-- Runs on a medium with a file of two clusters.
use zakos.Common.{
  ℕ, zero, suc, ◌-◌, ◌/◌, ◌<◌, ◌≡◌, ◌==◌, ◌&&◌, refl, true, min, if◌then◌else◌, arith, Option, none,
  some, ok, Errno,
}
use zakos.Fat12ro.{
  Fat12Fs, Fat12File, there, eof, follow, fat12_fat_get, fat12_file_seek, fat12_file_read, index_of,
  copy_out,
}
use zakos.Fat12ro.Seek.{nth_cluster, IsPlaced, finished, fat12_file_seek_lem}
use zakos.Fat12ro.Read.{content, fat12_file_read_lem}
use zakos.Fat12ro.Mount.{is_known, is_floppy}

-- The boot sector of a 1.44 MB disk; every other sector holds its number.
abbrev medium : ℕ → ℕ → ℕ
medium n i =
    if n == 0
    then (if i == 12
        then 2
        else if i == 13
        then 1
        else if i == 14
        then 1
        else if i == 16
        then 2
        else if i == 17
        then 224
        else if i == 19
        then 0x40
        else if i == 20
        then 0x0B
        else if i == 22
        then 9
        else if i == 24
        then 18
        else if i == 26
        then 2
        else 0)
    else n

abbrev reader : ℕ → (ℕ → ℕ) → Option Errno × (ℕ → ℕ)
reader n b = (none, medium n)

-- Cluster 3 comes after cluster 2 and is the last.
abbrev two_clusters : Fat12Fs
two_clusters = record {
  sbuff = medium 0;
  sno = 0;
  size = 2880;
  fat_table = λ i. if i == 3 then 3 else if i == 4 then 0xF0 else if i == 5 then 0xFF else 0;
}

abbrev file : Fat12File
file = record {
  dentry = record { fname = λ i. 65; extension = λ i. 32; attr = 32; cluster = 2; size = 600 };
  recent_cluster = 2;
  recent_offs = 0;
  dentry_sector = 19;
  dentry_offs = 0;
}

file-IsPlaced : IsPlaced two_clusters file
unfolding nth_cluster
file-IsPlaced = refl

in_chain : (k : ℕ) → k < 2 → (nth_cluster two_clusters k 2).0 ≡ there
unfolding nth_cluster follow fat12_fat_get
in_chain zero p = refl
in_chain (suc zero) p = refl
in_chain (suc (suc k)) p = absurd (omega arith)

fat12_file_seek_lem_example :
    (fat12_file_seek two_clusters file 599
      ≡ finished file 599 (nth_cluster two_clusters (index_of 599) 2))
    × ((nth_cluster two_clusters (index_of 599) 2).0 ≡ there
        → IsPlaced two_clusters (fat12_file_seek two_clusters file 599).1)
fat12_file_seek_lem_example = fat12_file_seek_lem two_clusters file 599 file-IsPlaced

beyond : (nth_cluster two_clusters (index_of 1024) 2).0 ≡ eof
unfolding nth_cluster follow fat12_fat_get
beyond = refl

fat12_file_read_lem_example :
    (fat12_file_read reader two_clusters (some file) 200 500).0
    ≡ ok (
        copy_out
          (content reader medium (λ n b. refl) two_clusters 2)
          500
          (min 0x7FFF (min 200 (600 - 500))))
fat12_file_read_lem_example =
    fat12_file_read_lem reader medium (λ n b. refl) two_clusters file 200 500 refl refl
      file-IsPlaced (omega arith) (omega arith) (omega arith)
      (λ i p. in_chain (i / 512) (omega arith))

-- It is accepted.
accepted : (is_known (medium 0) && is_floppy (medium 0)) ≡ true
accepted = refl
