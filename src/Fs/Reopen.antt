-- ===== src/Fs/Reopen.antt =====
-- fs_open of a directory that is in memory already.
use zakos.Common.{
  ℕ, suc, ◌≡◌, ◌≢◌, refl, ap, ◌∙◌, Bool, true, false, none, some, List, [], ◌∷◌, ◌==◌, occ, length,
  arith, ==_iff, enoent, err,
}
use zakos.Fs.{
  Fs, FileOps, slash, namecmp, is_tail, skip_name, skip_slashes, path_next, entered, find_child,
  Found, lookup_loop, lookup,
}
use zakos.Fs.Open.{open_loop, fs_open}
use zakos.Fs.Counts.{IsValid}
use zakos.Fs.Lookup.{entered-live, child_live}

path_next-is_tail : (path : List ℕ) → is_tail path ≡ true → path_next path ≡ []
unfolding is_tail skip_name skip_slashes
path_next-is_tail [] h = refl
path_next-is_tail (x ∷ path) h =
    let k : ((x == slash) ≡ false) × (is_tail path ≡ true) = ground (arith, h) in
    rw k.0 (path_next-is_tail path k.1)

no_match : (name : List ℕ) → length name ≢ 0 → namecmp [] name ≡ false
unfolding namecmp
no_match [] some_name = absurd (some_name refl)
no_match (c ∷ name) some_name = refl

find_child-none :
    (s : Fs) (xs : List ℕ)
    → ((c : ℕ) → occ c xs ≢ 0 → length (s.name c) ≢ 0)
    → find_child s [] xs ≡ none
unfolding find_child namecmp occ
find_child-none s [] h = refl
find_child-none s (x ∷ xs) h =
    rw (no_match (s.name x) (h x (ground arith)))
      (find_child-none s xs (λ c i. h c (ground (arith, i))))

-- What _fs_lookup leaves behind a directory in which nothing is left to look up.
abbrev past_end : Fs → ℕ → Found
past_end s c = record { error = some enoent; file = 0; dir = entered s c; path = [] }

-- A directory in memory that the root has as a child.
pub record Cached (s : Fs) (name : List ℕ) (c : ℕ) : Type 0 where
  pub root : (s.root ≢ 0) × (s.directory s.root ≡ true)
  pub listed : find_child s name (s.children (entered s s.root)) ≡ some c
  pub child : (s.live c ≡ true) × (s.directory c ≡ true)
  pub plain : (is_tail name ≡ true) × (length name ≢ 0)

lookup_loop-past_end :
    (k : ℕ) (s : Fs) (opens kept depth : ℕ → ℕ) (name : List ℕ) (c : ℕ)
    → IsValid s opens kept depth
    → Cached s name c
    → lookup_loop (suc (suc k)) s 0 s.root name ≡ some (past_end s c)
unfolding lookup_loop
lookup_loop-past_end k s opens kept depth name c v h =
    let e = entered s c in
    let e_on = entered-live s opens kept depth c v h.child.0 in
    let root : (s.root == 0) ≡ false = ground (arith, h.root, ==_iff s.root 0) in
    let there : (c == 0) ≡ false =
      ground (arith, v.null, h.child, ap s.live {x = c} {y = 0}, ==_iff c 0) in
    let named = λ (x : ℕ) (i : occ x (s.children e) ≢ 0).
      let on = child_live s opens kept depth e x v e_on i in v.named x on.0 on.1 in
    let miss = find_child-none s (s.children e) named in
    let ends = path_next-is_tail name h.plain.0 in
    let last : lookup_loop (suc k) s c c (path_next name) ≡ some (past_end s c) =
      ap (lookup_loop (suc k) s c c) ends ∙ rw (there, h.child.1, miss) refl in
    rw (root, h.root.1, h.listed) last

lookup-past_end :
    (k : ℕ) (s : Fs) (opens kept depth : ℕ → ℕ) (name : List ℕ) (c : ℕ)
    → IsValid s opens kept depth
    → Cached s name c
    → lookup (suc (suc k)) s (slash ∷ name) ≡ some (past_end s c)
unfolding lookup skip_slashes is_tail
lookup-past_end k s opens kept depth [] c v h = absurd (h.plain.1 refl)
lookup-past_end k s opens kept depth (y ∷ r) c v h =
    let plain : (y == slash) ≡ false = ground (arith, h.plain.0) in
    rw plain (lookup_loop-past_end k s opens kept depth (y ∷ r) c v h)

module _ (ops : FileOps) where
  open ops use {Disk}

  -- fs_open of "/name" reports ENOENT and changes nothing, for every directory of that name below
  -- the root that is in memory, with O_CREAT or without, and with any bound from 2 on.
  pub fs_open-Cached :
      (k : ℕ) (d : Disk) (s : Fs) (opens kept depth : ℕ → ℕ) (name : List ℕ) (c : ℕ) (creat : Bool)
      (attr : ℕ)
      → IsValid s opens kept depth
      → Cached s name c
      → fs_open ops (suc (suc k)) d s (slash ∷ name) creat attr ≡ some (err enoent, s, d)
  unfolding fs_open open_loop
  fs_open-Cached k d s opens kept depth name c creat attr v h =
      let e_on = entered-live s opens kept depth c v h.child.0 in
      let there : (entered s c == 0) ≡ false =
        ground (arith, v.null, e_on, ap s.live {x = entered s c} {y = 0}, ==_iff (entered s c) 0) in
      rw (lookup-past_end k s opens kept depth name c v h, fs_open, there) refl
