-- ===== src/Files/Tests.antt =====
-- Runs on a table whose first two descriptors share an open file.
use zakos.Common.{ℕ, ◌+◌, ◌≡◌, ◌≢◌, refl, none, some, ◌==◌, if◌then◌else◌, ok, arith}
use zakos.Files.{FileSys, Table, Store, o_wronly, o_rdonly, dup2}
use zakos.Files.Counts.{slots, Counted}
use zakos.Files.Sharing.{dup2_lem}
use zakos.Files.Io.{open_file, read, write}
use zakos.Files.Io.Rw.{RwOutcome, read_write_lem}
use zakos.Files.Io.Outcome.{OpenOutcome}
use zakos.Files.Io.Opening.{open_file_lem}

-- A file system of one file, whose state counts the calls.
abbrev one_file : FileSys
one_file = record {
  State = ℕ;
  open_path = λ fs path mode attr. (ok 5, fs + 1);
  close_file = λ fs file. fs + 1;
  read_at = λ fs file len offs. (ok len, fs + 1);
  write_at = λ fs file len offs. (ok len, fs + 1);
  truncate_to = λ fs file size. (ok 0, fs + 1);
  attr = λ fs file. 0x10;
  size = λ fs file. 12;
}

abbrev shared : Table
shared fd =
    if fd == 0
    then record { ofile = some 100; flags = 4 }
    else if fd == 1
    then record { ofile = some 100; flags = 4 }
    else record { ofile = none; flags = 0 }

abbrev store : Store ℕ
store = record {
  open_files = λ a.
      if a == 100
      then record { file = 5; offset = 3; refs = 2 }
      else record { file = 0; offset = 0; refs = 0 };
  live = λ a. a == 100;
  fs = 0;
}

abbrev nobody : ℕ → ℕ
nobody a = 0

slots-shared : (a : ℕ) → slots shared a ≡ (if 100 == a then 2 else 0)
unfolding slots
slots-shared a = ground arith

counted : Counted nobody shared store
counted = record {
  live = λ a. ground (arith, slots-shared a);
  refs = λ a p. ground (arith, slots-shared a);
  small = λ a. ground (arith, slots-shared a);
}

dup2_lem_example :
    (u : Table) × (s' : Store ℕ) × (dup2 one_file shared store 0 7 ≡ some (ok 7, u, s'))
    × (u 7 ≡ shared 0)
    × ((i : ℕ) → i ≢ 7 → u i ≡ shared i)
    × Counted nobody u s'
dup2_lem_example =
    dup2_lem one_file nobody shared store 0 7 100 counted (omega arith) (omega arith) refl
      (ground (arith, slots-shared 100))

read_write_lem_example :
    RwOutcome one_file nobody shared store 0 9 o_wronly one_file.read_at
      (read one_file shared store 0 9)
    × RwOutcome one_file nobody shared store 0 9 o_rdonly one_file.write_at
        (write one_file shared store 0 9)
read_write_lem_example =
    read_write_lem one_file nobody shared store 0 9 counted (omega arith)
      (λ a. ground (arith, slots-shared a))

open_file_lem_example :
    OpenOutcome one_file nobody shared store 200 1 0x24 0
      (open_file one_file shared store (some 200) 1 0x24 0)
open_file_lem_example = open_file_lem one_file nobody shared store 200 1 0x24 0 counted refl
