-- ===== src/Fs/Lookup.antt =====
-- _fs_lookup always returns, and what it leaves behind its pointers.
use zakos.Common.{
  ℕ, zero, suc, ◌<◌, ◌≤◌, ◌≡◌, ◌≢◌, ◌⊎◌, refl, ap, inl, inr, true, false, Option, none, some, List,
  [], ◌∷◌, ◌==◌, occ, length, arith, Bool-cases, ==_iff, enoent, enotdir, einval,
}
use zakos.Fs.{
  Fs, slash, namecmp, path_next, skip_name, skip_slashes, entered, find_child, Found, lookup_loop,
  lookup,
}
use zakos.Fs.Counts.{IsValid}
use zakos.Fs.Path.{starts, skip_slashes-starts, skip_slashes-length, namecmp-length}

find_child_lem :
    (s : Fs) (path xs : List ℕ)
    → (find_child s path xs ≡ none)
      ⊎ ((c : ℕ) × (find_child s path xs ≡ some c)
          × (occ c xs ≢ 0)
          × (namecmp path (s.name c) ≡ true))
unfolding find_child occ
find_child_lem s path [] = inl refl
find_child_lem s path (x ∷ xs) = elim (Bool-cases (namecmp path (s.name x))) [
  | inl here ↦ inr (x, rw here refl, ground arith, here)
  | inr other ↦ elim (find_child_lem s path xs) [
    | inl miss ↦ inl (rw (other, miss) refl)
    | inr (c, hit, on, same) ↦ inr (c, rw (other, hit) refl, ground (arith, on), same)
  ]
]

-- 0, or a file in memory.
abbrev pub IsFile : Fs → ℕ → Type 0
IsFile s file = (file ≡ 0) ⊎ (s.live file ≡ true)

-- The error is one after which _fs_open goes on, at a directory in memory.
pub record Stopped (s : Fs) (bound : ℕ) (w : Found) : Type 0 where
  pub error : (w.error ≡ some enoent) ⊎ (w.error ≡ some enotdir)
  pub file : IsFile s w.file
  pub dir : s.live w.dir ≡ true
  pub rest : starts w.path ≡ false
  pub size : length w.path ≤ bound

pub entered-live :
    (s : Fs) (opens kept depth : ℕ → ℕ) (dir : ℕ)
    → IsValid s opens kept depth
    → s.live dir ≡ true
    → s.live (entered s dir) ≡ true
entered-live s opens kept depth dir v on = elim (Bool-cases (s.mountpoint dir == 0)) [
  | inl plain ↦ rw plain on
  | inr mounted ↦ rw mounted (v.mounted dir on (ground (arith, mounted))).0
]

pub child_live :
    (s : Fs) (opens kept depth : ℕ → ℕ) (p c : ℕ)
    → IsValid s opens kept depth
    → s.live p ≡ true
    → occ c (s.children p) ≢ 0
    → (s.live c ≡ true) × (s.parent c ≢ 0)
child_live s opens kept depth p c v on h =
    ground (arith, v.kids p c on, h, v.null, on, ap s.live {x = p} {y = 0}, ==_iff (s.parent c) p)

pub lookup_loop-Stopped :
    (n : ℕ) (s : Fs) (opens kept depth : ℕ → ℕ) (file dir : ℕ) (path : List ℕ) (size : ℕ)
    → IsValid s opens kept depth
    → s.live dir ≡ true
    → IsFile s file
    → starts path ≡ false
    → length path ≤ size
    → length path < n
    → (w : Found) × (lookup_loop n s file dir path ≡ some w) × Stopped s size w
unfolding lookup_loop
lookup_loop-Stopped zero s opens kept depth file dir path size v on f plain le lt =
    absurd (omega (arith, lt))
lookup_loop-Stopped (suc n) s opens kept depth file dir path size v on f plain le lt =
    let there : (dir == 0) ≡ false =
      ground (arith, v.null, on, ap s.live {x = dir} {y = 0}, ==_iff dir 0) in
    let e = entered s dir in
    let e_on = entered-live s opens kept depth dir v on in
    elim (Bool-cases (s.directory dir)) [
      | inr no_dir ↦
          let w : Found = record { error = some enotdir; file = file; dir = dir; path = path } in
          (
            w,
            rw (there, no_dir) refl,
            record { error = inr refl; file = f; dir = on; rest = plain; size = le },
          )
      | inl is_dir ↦ elim (find_child_lem s path (s.children e)) [
        | inl miss ↦
            let w : Found = record { error = some enoent; file = 0; dir = e; path = path } in
            (
              w,
              rw (there, is_dir, miss) refl,
              record { error = inl refl; file = inl refl; dir = e_on; rest = plain; size = le },
            )
        | inr (c, hit, at, same) ↦
            let c_on = child_live s opens kept depth e c v e_on at in
            let less = namecmp-length path (s.name c) plain same (v.named c c_on.0 c_on.1) in
            let k =
              lookup_loop-Stopped n s opens kept depth c c (path_next path) size v c_on.0
                (inr c_on.0) (skip_slashes-starts (skip_name path)) (omega (arith, less, le))
                (omega (arith, less, lt)) in
            (k.0, rw (there, is_dir, hit) k.1, k.2)
      ]
    ]

-- What _fs_lookup leaves: it refuses the path, finds the root, or stops in the tree.
pub data Looked (s : Fs) (bound : ℕ) (w : Found) : Type 0 where
  bad_path : w.error ≡ some einval → Looked s bound w
  at_root : w.error ≡ none → w.file ≡ s.root → Looked s bound w
  stopped : Stopped s bound w → Looked s bound w

abbrev lookup_body : ℕ → Fs → List ℕ → Option Found
lookup_body n s p = elim p [
  | [] ↦ some (record { error = none; file = s.root; dir = s.root; path = [] })
  | y ∷ r ↦ lookup_loop n s 0 s.root (y ∷ r)
]

lookup_body-Looked :
    (n : ℕ) (s : Fs) (opens kept depth : ℕ → ℕ) (p : List ℕ) (bound : ℕ)
    → IsValid s opens kept depth
    → s.root ≢ 0
    → starts p ≡ false
    → length p ≤ bound
    → length p < n
    → (w : Found) × (lookup_body n s p ≡ some w) × Looked s bound w
lookup_body-Looked n s opens kept depth [] bound v root plain le lt =
    (record { error = none; file = s.root; dir = s.root; path = [] }, refl, at_root refl refl)
lookup_body-Looked n s opens kept depth (y ∷ r) bound v root plain le lt =
    let (w, run, k) =
      lookup_loop-Stopped n s opens kept depth 0 s.root (y ∷ r) bound v (v.top root).0 (inl refl)
        plain le lt in
    (w, run, stopped k)

pub lookup-Looked :
    (n : ℕ) (s : Fs) (opens kept depth : ℕ → ℕ) (path : List ℕ)
    → IsValid s opens kept depth
    → s.root ≢ 0
    → length path < n
    → (w : Found) × (lookup n s path ≡ some w) × Looked s (length path) w
unfolding lookup
lookup-Looked n s opens kept depth [] v root lt = (_, refl, bad_path refl)
lookup-Looked n s opens kept depth (x ∷ path) v root lt = elim (Bool-cases (x == slash)) [
  | inr other ↦ (
    record { error = some einval; file = 0; dir = 0; path = x ∷ path },
    rw other refl,
    bad_path refl,
  )
  | inl slashed ↦
      let p = skip_slashes (x ∷ path) in
      let le = skip_slashes-length (x ∷ path) in
      let (w, run, k) =
        lookup_body-Looked n s opens kept depth p (length (x ∷ path)) v root
          (skip_slashes-starts (x ∷ path)) le (omega (arith, le, lt)) in
      (w, rw slashed run, k)
]
