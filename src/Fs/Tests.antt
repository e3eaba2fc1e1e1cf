-- ===== src/Fs/Tests.antt =====
-- The tree of files on a root directory with one entry.
use zakos.Common.{
  ℕ, zero, suc, ◌+◌, ◌≡◌, ◌↔◌, refl, true, false, Option, none, some, List, [], ◌∷◌, ◌==◌,
  if◌then◌else◌, occ, arith, enoent, enospc, Result, ok, err,
}
use zakos.Fs.{
  Fs, Dentry, FileOps, slash, namecmp, file_put, is_tail, skip_name, skip_slashes, find_child,
  lookup_loop, lookup,
}
use zakos.Fs.Open.{open_from_dir, open_or_create, open_loop, fs_open, fs_remove}
use zakos.Fs.Path.{component, namecmp-component}
use zakos.Fs.Counts.{dropped}
use zakos.Fs.Closing.{Tree}
use zakos.Fs.Freed.{Keeps, file_put_lem}
use zakos.Fs.Scan.{Sound}
use zakos.Fs.Opening.{Ready, Opens, fs_open-Tree}
use zakos.Fs.Removing.{Removes, fs_remove-Tree}
use zakos.Fs.Reopen.{Cached, fs_open-Cached}

-- "a"
abbrev entry_of_name : List ℕ
entry_of_name = 97 ∷ []

abbrev one_entry : ℕ → Result Dentry
one_entry zero = ok (record { name = entry_of_name; directory = true; internal = 5 })
one_entry (suc i) = err enoent

abbrev small_ops : FileOps
small_ops = record {
  Disk = ℕ;
  readdir = λ d ctx internal idx. one_entry idx;
  create = λ d ctx internal name attr. (err enospc, d);
  remove = λ d ctx internal. (none, d);
  mount = λ d ctx dir. (ok 0, d);
  kmalloc = λ s. if s.live 7 then 0 else 7;
}

small_ops-Sound : Sound small_ops
small_ops-Sound = record {
  fresh = λ s h. ground (arith, h);
  ends = λ d ctx internal. (1, enoent, omega arith, refl, refl);
}

-- The root at 1, and nothing else.
abbrev bare : Fs
bare = record {
  name = λ f. [];
  directory = λ f. true;
  nrefs = λ f. if f == 1 then 1 else 0;
  parent = λ f. 0;
  mountpoint = λ f. 0;
  children = λ f. [];
  ctx = λ f. 0;
  internal = λ f. 0;
  live = λ f. f == 1;
  root = 1;
}

abbrev kept_root : ℕ → ℕ
kept_root f = if f == 1 then 1 else 0

bare-Tree : Tree bare (λ f. 0) kept_root (λ f. 0)
unfolding occ
bare-Tree = record {
  valid = record {
    count = λ f l. ground arith;
    fits = λ f l. ground arith;
    kids = λ p c l. ground arith;
    up = λ c l h. absurd (h refl);
    mounted = λ f l h. absurd (h refl);
    null = refl;
    dead = λ f l. ground (arith, l);
    named = λ c l h. absurd (h refl);
    top = λ h. (refl, refl);
  };
  held = λ f l. ground (arith, l);
}

-- The directory "a" at 2, opened once.
abbrev with_entry : Fs
with_entry = record bare {
  name = λ f. if f == 2 then entry_of_name else [];
  nrefs = λ f. if f == 1 then 2 else if f == 2 then 1 else 0;
  parent = λ f. if f == 2 then 1 else 0;
  children = λ f. if f == 1 then 2 ∷ [] else [];
  live = λ f. if f == 1 then true else f == 2;
}

abbrev open_2 : ℕ → ℕ
open_2 f = if f == 2 then 1 else 0

with_entry-Tree : Tree with_entry open_2 kept_root open_2
unfolding occ
with_entry-Tree = record {
  valid = record {
    count = λ f l. ground (arith, l);
    fits = λ f l. ground (arith, l);
    kids = λ p c l. ground (arith, l);
    up = λ c l h. ground (arith, l, h);
    mounted = λ f l h. absurd (h refl);
    null = refl;
    dead = λ f l. ground (arith, l);
    named = λ c l h. ground (arith, l, h);
    top = λ h. (refl, refl);
  };
  held = λ f l. ground (arith, l);
}

file_put_lem_example :
    Tree (file_put 2 with_entry 2) (dropped open_2 2) kept_root open_2
    × Keeps with_entry (file_put 2 with_entry 2) (dropped open_2 2) kept_root
file_put_lem_example =
    file_put_lem 2 with_entry open_2 kept_root open_2 2 with_entry-Tree refl (omega arith)
      (omega arith)

namecmp-component_example :
    (namecmp (97 ∷ slash ∷ 98 ∷ []) entry_of_name ≡ true)
    ↔ (component (97 ∷ slash ∷ 98 ∷ []) ≡ entry_of_name)
unfolding is_tail
namecmp-component_example = namecmp-component (97 ∷ slash ∷ 98 ∷ []) entry_of_name refl

bare-Ready : Ready bare (λ f. 0) kept_root (λ f. 0) 1
bare-Ready = record {
  tree = bare-Tree;
  root = omega arith;
  room = λ f l. ground arith;
  low = λ f l. omega arith;
}

fs_open-Tree_example :
    Opens small_ops small_ops-Sound 70000
      (fs_open small_ops 70000 0 bare (slash ∷ entry_of_name) false 0)
      (λ f. 0)
      kept_root
fs_open-Tree_example =
    fs_open-Tree small_ops small_ops-Sound 70000 0 bare (λ f. 0) kept_root (λ f. 0) 1
      (slash ∷ entry_of_name) false 0 bare-Ready (omega arith) (omega arith)

fs_remove-Tree_example :
    Removes small_ops small_ops-Sound
      (fs_remove small_ops 70000 0 bare (slash ∷ entry_of_name))
      (λ f. 0)
      kept_root
fs_remove-Tree_example =
    fs_remove-Tree small_ops small_ops-Sound 70000 0 bare (λ f. 0) kept_root (λ f. 0) 1
      (slash ∷ entry_of_name) bare-Ready (omega arith) (omega arith)

with_entry-Cached : Cached with_entry entry_of_name 2
unfolding find_child namecmp is_tail
with_entry-Cached = record {
  root = (omega arith, refl);
  listed = refl;
  child = (refl, refl);
  plain = (refl, omega arith);
}

fs_open-Cached_example :
    fs_open small_ops 3 0 with_entry (slash ∷ entry_of_name) false 0
    ≡ some (err enoent, with_entry, 0)
fs_open-Cached_example =
    fs_open-Cached small_ops 1 0 with_entry open_2 kept_root open_2 entry_of_name 2 false 0
      with_entry-Tree.valid with_entry-Cached

-- From the bare root the same path opens a new file.
opened_file : Option (Result ℕ × Fs × ℕ) → ℕ
opened_file none = 0
opened_file (some (err c, u, d)) = 0
opened_file (some (ok f, u, d)) = f + u.nrefs f + u.nrefs 1

fs_open_new : opened_file (fs_open small_ops 4 0 bare (slash ∷ entry_of_name) false 0) ≡ 10
unfolding opened_file fs_open lookup lookup_loop find_child skip_slashes skip_name open_loop
    open_or_create open_from_dir namecmp is_tail
fs_open_new = refl
