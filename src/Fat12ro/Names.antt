-- ===== src/Fat12ro/Names.antt =====
-- fat12_file_namelen and fat12_file_name_cmp: the names of a directory. `upper` stands for toupper.
use zakos.Common.{
  ℕ, zero, suc, ◌+◌, ◌-◌, ◌<◌, ◌≤◌, ◌≡◌, ◌≢◌, refl, Bool, true, false, not, ◌||◌, ◌==◌,
  if◌then◌else◌, arith,
}
use zakos.Fat12ro.{Fat12Dentry}

-- The loop of fat12_file_namelen, down from a position.
pub namelen_from : (ℕ → ℕ) → ℕ → ℕ
namelen_from str zero = if str 0 == 32 then 0 else 1
namelen_from str (suc pos) =
    let below = namelen_from str pos in if str (suc pos) == 32 then below else suc pos + 1

-- fat12_file_namelen
pub namelen : (ℕ → ℕ) → ℕ → ℕ
namelen str max = namelen_from str (max - 1)

-- The end of a name in a path.
abbrev pub is_end : ℕ → Bool
is_end c = (c == 47) || (c == 0)

namelen_from-most : (str : ℕ → ℕ) (pos : ℕ) → namelen_from str pos < pos + 2
unfolding namelen_from
namelen_from-most str zero = ground arith
namelen_from-most str (suc pos) = ground (arith, namelen_from-most str pos)

namelen_most : (str : ℕ → ℕ) (max : ℕ) → 0 < max → namelen str max < max + 1
unfolding namelen
namelen_most str max p = ground (arith, namelen_from-most str (max - 1))

-- The tests of fat12_file_name_cmp.
abbrev verdict : Bool → Bool → ℕ → ℕ → ℕ → ℕ
verdict a b c n d =
    if not a
    then 1
    else if c == 46
    then (if not b then 1 else if not (is_end d) then 1 else 0)
    else if not (is_end c) || not (n == 0)
    then 1
    else 0

by_tests :
    (a b : Bool) (c n d : ℕ)
    → a ≡ true
    → b ≡ true
    → (n ≢ 0 → c ≡ 46)
    → (n ≡ 0 → is_end c ≡ true)
    → (n ≢ 0 → is_end d ≡ true)
    → verdict a b c n d ≡ 0
by_tests a b c n d e f dot plain suffix = ground (arith, e, f, dot, plain, suffix)

module _ (upper : ℕ → ℕ) where
  -- The two loops of fat12_file_name_cmp, over the characters that are left: no difference?
  pub same_part : (ℕ → ℕ) → (ℕ → ℕ) → ℕ → ℕ → Bool
  same_part name path i zero = true
  same_part name path i (suc n) =
      let rest = same_part name path (i + 1) n in
      let c = upper (path i) in if is_end c then false else if name i == c then rest else false

  -- fat12_file_name_cmp
  pub name_cmp : Fat12Dentry → (ℕ → ℕ) → ℕ
  name_cmp entry path =
      let len = namelen entry.fname 8 in
      let ext = namelen entry.extension 3 in
      let suffix = λ (i : ℕ). path (len + 1 + i) in
      if not (same_part entry.fname path 0 len)
      then 1
      else if path len == 46
      then (if not (same_part entry.extension suffix 0 ext)
          then 1
          else if not (is_end (path (len + 1 + ext)))
          then 1
          else 0)
      else if not (is_end (path len)) || not (ext == 0)
      then 1
      else 0

  -- The path starts with the name, in any case, and a slash or the end comes after it.
  record Spelled (entry : Fat12Dentry) (path : ℕ → ℕ) : Type 0 where
    name : (i : ℕ) → i < namelen entry.fname 8 → upper (path i) ≡ entry.fname i
    dot : namelen entry.extension 3 ≢ 0 → path (namelen entry.fname 8) ≡ 46
    suffix :
        (i : ℕ)
        → i < namelen entry.extension 3
        → upper (path (namelen entry.fname 8 + 1 + i)) ≡ entry.extension i
    plain_end : namelen entry.extension 3 ≡ 0 → is_end (path (namelen entry.fname 8)) ≡ true
    suffix_end :
        namelen entry.extension 3 ≢ 0
        → is_end (path (namelen entry.fname 8 + 1 + namelen entry.extension 3)) ≡ true

  same_part_lem :
      (name path : ℕ → ℕ) (i n : ℕ)
      → ((j : ℕ) → i ≤ j → j < i + n → (upper (path j) ≡ name j) × (is_end (name j) ≡ false))
      → same_part name path i n ≡ true
  unfolding same_part
  same_part_lem name path i zero h = refl
  same_part_lem name path i (suc n) h =
      let (here, inside) = h i (omega arith) (omega arith) in
      ground (
        arith,
        here,
        inside,
        same_part_lem name path (i + 1) n (λ j p q. h j (omega arith) (omega arith)),
      )

  -- fat12_file_name_cmp finds a path that spells the name of an entry, in upper or lower case, with
  -- a dot exactly before an extension, where no character of the name is a slash or 0.
  name_cmp_lem :
      (entry : Fat12Dentry) (path : ℕ → ℕ)
      → Spelled entry path
      → ((i : ℕ) → i < 8 → is_end (entry.fname i) ≡ false)
      → ((i : ℕ) → i < 3 → is_end (entry.extension i) ≡ false)
      → name_cmp entry path ≡ 0
  unfolding name_cmp
  name_cmp_lem entry path s clean clean_ext =
      let len = namelen entry.fname 8 in
      let ext = namelen entry.extension 3 in
      let suffix = λ (i : ℕ). path (len + 1 + i) in
      let fits : len < 9 = namelen_most entry.fname 8 (omega arith) in
      let ext_fits : ext < 4 = namelen_most entry.extension 3 (omega arith) in
      let first : same_part entry.fname path 0 len ≡ true =
        same_part_lem entry.fname path 0 len
          (λ j p q. (s.name j (omega arith), clean j (omega arith))) in
      let second : same_part entry.extension suffix 0 ext ≡ true =
        same_part_lem entry.extension suffix 0 ext
          (λ j p q. (s.suffix j (omega arith), clean_ext j (omega arith))) in
      by_tests _ _ (path len) ext (path (len + 1 + ext)) first second s.dot s.plain_end s.suffix_end
