-- ===== src/Fs/Walk.antt =====
-- _fs_open_from_dir and the loop of _fs_open: the files that they add to the tree.
use zakos.Common.{
  ℕ, zero, suc, ◌+◌, ◌<◌, ◌≤◌, ◌≡◌, ◌≢◌, refl, sym, ap, ◌∙◌, inl, inr, Bool, true, false, ◌&&◌,
  Option, none, some, List, [], ◌∷◌, ◌==◌, update, length, length-append, arith, Bool-cases, ==_iff,
  Errno, enotdir, Result, ok, err,
}
use zakos.Fs.{Fs, Dentry, FileOps, namecmp, is_tail, slash, adopt, entered, path_next, skip_name}
use zakos.Fs.Open.{open_loop}
use zakos.Fs.Counts.{holds, IsValid}
use zakos.Fs.Path.{starts, skip_slashes-starts, path_next-length}
use zakos.Fs.Lookup.{IsFile}
use zakos.Fs.Scan.{Sound, Opened, refused, added, open_or_create-Opened}
use zakos.Fs.Adopt.{adopt-IsValid}

-- The tree while _fs_open goes down from `dir`, with the file that it found last: that one may be
-- without a holder as long as it is the directory to go on in.
pub record Walking (s : Fs) (opens kept depth : ℕ → ℕ) (tip dir top : ℕ) : Type 0 where
  pub valid : IsValid s opens kept depth
  pub held :
      (g : ℕ)
      → s.live g ≡ true
      → ((entered s dir == g) && (tip == g)) ≡ false
      → 0 < holds s opens kept g
  pub inside : s.live (entered s dir) ≡ true
  pub room : holds s opens kept (entered s dir) < 127
  pub low : (g : ℕ) → s.live g ≡ true → depth g < top
  pub here : IsFile s tip
  pub tip_room : tip ≢ 0 → holds s opens kept tip < 127

new_file :
    (s : Fs) (opens kept : ℕ → ℕ) (f dir : ℕ) (dentry : Dentry)
    → (f == dir) ≡ false
    → opens f ≡ 0
    → kept f ≡ 0
    → (holds (adopt s f dir dentry) opens kept f ≡ 0) × (entered (adopt s f dir dentry) f ≡ f)
new_file s opens kept f dir dentry apart no_opens no_kept =
    let other : (dir == f) ≡ false = ground (arith, apart) in
    let same : (f == f) ≡ true = ground arith in
    (rw (other, same) (omega (arith, no_opens, no_kept)), rw same refl)

adopt-held :
    (s : Fs) (opens kept : ℕ → ℕ) (f e : ℕ) (dentry : Dentry) (g : ℕ)
    → (f == e) ≡ false
    → (f == g) ≡ false
    → ((e == g) ≡ false → 0 < holds s opens kept g)
    → 0 < holds (adopt s f e dentry) opens kept g
adopt-held s opens kept f e dentry g apart other h = elim (Bool-cases (e == g)) [
  | inl same ↦ rw (same, other, apart) (omega (arith, length-append (s.children e) (f ∷ [])))
  | inr old ↦ rw (old, other) (h old)
]

walk_on :
    (s : Fs) (opens kept depth : ℕ → ℕ) (tip dir top f : ℕ) (dentry : Dentry)
    → Walking s opens kept depth tip dir top
    → f ≢ 0
    → s.live f ≡ false
    → length dentry.name ≢ 0
    → Walking
        (adopt s f (entered s dir) dentry)
        opens
        kept
        (update depth f (depth (entered s dir) + 1))
        f
        f
        (suc top)
walk_on s opens kept depth tip dir top f dentry w some_f fresh name =
    let e = entered s dir in
    let u = adopt s f e dentry in
    let apart : (f == e) ≡ false =
      ground (arith, fresh, w.inside, ap s.live {x = f} {y = e}, ==_iff f e) in
    let unused = w.valid.dead f fresh in
    let (empty, same) = new_file s opens kept f e dentry apart unused.0 unused.1 in
    let on : u.live f ≡ true = ground arith in
    record {
      valid = adopt-IsValid s opens kept depth f e dentry w.valid some_f fresh w.inside w.room name;
      held = λ g l h.
          let old : (f == g) ≡ false =
            ground (arith, ap (λ z. (z == g) && (f == g)) (sym same) ∙ h) in
          adopt-held s opens kept f e dentry g apart old
            (λ o. w.held g (ground (arith, l, old)) (ground (arith, o)));
      inside = ap u.live same ∙ on;
      room = rw (same, empty) (omega arith);
      low = λ g l. ground (arith, w.low g, l, w.low e w.inside, ==_iff f g);
      here = inr on;
      tip_room = λ h. rw empty (omega arith);
    }

-- The end of the walk.
pub record Walked (s : Fs) (opens kept depth : ℕ → ℕ) (tip top : ℕ) : Type 0 where
  pub valid : IsValid s opens kept depth
  pub held : (g : ℕ) → s.live g ≡ true → (tip == g) ≡ false → 0 < holds s opens kept g
  pub low : (g : ℕ) → s.live g ≡ true → depth g < top
  pub here : IsFile s tip
  pub tip_room : tip ≢ 0 → holds s opens kept tip < 127

stop_here :
    (s : Fs) (opens kept depth : ℕ → ℕ) (tip dir top more : ℕ)
    → Walking s opens kept depth tip dir top
    → Walked s opens kept depth tip (top + more)
stop_here s opens kept depth tip dir top more w = record {
  valid = w.valid;
  held = λ g l h. w.held g l (ground (arith, h));
  low = λ g l. omega (arith, w.low g l);
  here = w.here;
  tip_room = w.tip_room;
}

widen :
    (s : Fs) (opens kept depth : ℕ → ℕ) (tip top top' : ℕ)
    → Walked s opens kept depth tip top
    → top ≤ top'
    → Walked s opens kept depth tip top'
widen s opens kept depth tip top top' w le = record {
  valid = w.valid;
  held = w.held;
  low = λ g l. omega (arith, w.low g l, le);
  here = w.here;
  tip_room = w.tip_room;
}

named :
    (x : ℕ) (path name : List ℕ)
    → (x == slash) ≡ false
    → namecmp (x ∷ path) name ≡ true
    → length name ≢ 0
unfolding namecmp
named x path [] plain same = λ e. ground (arith, plain, same)
named x path (c ∷ name) plain same = λ e. omega (arith, e)

module _ (ops : FileOps) (sound : Sound ops) where
  open ops use {Disk, kmalloc}

  abbrev pub Reached : Option (Option Errno × ℕ × Fs × Disk) → (ℕ → ℕ) → (ℕ → ℕ) → ℕ → Type 0
  Reached o opens kept top =
      (e : Option Errno) × (file : ℕ) × (u : Fs) × (d : Disk) × (depth : ℕ → ℕ) × (o
        ≡ some (e, file, u, d))
      × Walked u opens kept depth file top

  abbrev loop_body :
      ℕ
      → ℕ
      → ℕ
      → List ℕ
      → Bool
      → ℕ
      → Option (Result ℕ × Fs × Disk)
      → Option (Option Errno × ℕ × Fs × Disk)
  loop_body k n tip path creat attr found = elim found [
    | none ↦ none
    | some (ok f, u, e) ↦ open_loop ops k n e u f f (path_next path) creat attr
    | some (err c, u, e) ↦ some (some c, tip, u, e)
  ]

  after_open :
      (k n : ℕ) (s : Fs) (opens kept depth : ℕ → ℕ) (tip dir top more : ℕ) (path : List ℕ)
      (creat : Bool) (attr : ℕ) (r : Result ℕ) (u : Fs) (e : Disk)
      → Walking s opens kept depth tip dir top
      → Opened ops s (entered s dir) path r u
      → ((dentry : Dentry)
          → namecmp path dentry.name ≡ true
          → kmalloc s ≢ 0
          → Reached
              (open_loop ops k n e
                (adopt s (kmalloc s) (entered s dir) dentry)
                (kmalloc s)
                (kmalloc s)
                (path_next path)
                creat
                attr)
              opens
              kept
              (top + more))
      → Reached (loop_body k n tip path creat attr (some (r, u, e))) opens kept (top + more)
  after_open k n s opens kept depth tip dir top more path creat attr _ _ e w (refused c) go =
      (some c, tip, s, e, depth, refl, stop_here s opens kept depth tip dir top more w)
  after_open k n s opens kept depth tip dir top more path creat attr _ _ e w
        (added dentry same some_f) go =
      go dentry same some_f

  pub open_loop-Walked :
      (k n : ℕ) (d : Disk) (s : Fs) (opens kept depth : ℕ → ℕ) (tip dir top : ℕ) (path : List ℕ)
      (creat : Bool) (attr : ℕ)
      → 65536 ≤ n
      → length path < k
      → starts path ≡ false
      → Walking s opens kept depth tip dir top
      → Reached (open_loop ops k n d s tip dir path creat attr) opens kept (top + length path)
  unfolding open_loop namecmp
  open_loop-Walked zero n d s opens kept depth tip dir top path creat attr enough lt plain w =
      absurd (omega (arith, lt))
  open_loop-Walked (suc k) n d s opens kept depth tip dir top [] creat attr enough lt plain w =
      (none, tip, s, d, depth, refl, stop_here s opens kept depth tip dir top 0 w)
  open_loop-Walked (suc k) n d s opens kept depth tip dir top (x ∷ path) creat attr enough lt plain
        w =
      elim (Bool-cases (s.directory dir)) [
        | inr no_dir ↦ (
          some enotdir,
          tip,
          s,
          d,
          depth,
          rw no_dir refl,
          stop_here s opens kept depth tip dir top _ w,
        )
        | inl is_dir ↦
            let tail = creat && is_tail (x ∷ path) in
            let (r, u, e, run, o) =
              open_or_create-Opened ops sound n d s (entered s dir) (x ∷ path) tail attr enough in
            let less = path_next-length x path plain in
            let go =
              λ (dentry : Dentry) (same : namecmp (x ∷ path) dentry.name ≡ true)
                  (some_f : kmalloc s ≢ 0).
                let name : length dentry.name ≢ 0 = named x path dentry.name plain same in
                let (c, file, w', d', depth', step, k') =
                  open_loop-Walked k n e (adopt s (kmalloc s) (entered s dir) dentry) opens kept _
                    (kmalloc s) (kmalloc s) (suc top) (path_next (x ∷ path)) creat attr enough
                    (omega (arith, less, lt)) (skip_slashes-starts (skip_name (x ∷ path)))
                    (walk_on s opens kept depth tip dir top (kmalloc s) dentry w some_f
                      (sound.fresh s some_f) name) in
                let all : Reached
                    (open_loop ops k n e (adopt s (kmalloc s) (entered s dir) dentry) (kmalloc s)
                      (kmalloc s) (path_next (x ∷ path)) creat attr)
                    opens kept (top + suc (length path)) =
                  (
                    c,
                    file,
                    w',
                    d',
                    depth',
                    step,
                    widen w' opens kept depth' file _ _ k' (omega (arith, less)),
                  ) in
                all in
            let (c, file, w', d', depth', step, k') =
              after_open k n s opens kept depth tip dir top (suc (length path)) (x ∷ path) creat
                attr r u e w o go in
            (
              c,
              file,
              w',
              d',
              depth',
              rw is_dir (ap (loop_body k n tip (x ∷ path) creat attr) run ∙ step),
              k',
            )
      ]
