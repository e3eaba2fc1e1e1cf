-- ===== src/Fs/Opening.antt =====
-- fs_open, and fs_close behind it.
use zakos.Common.{
  ℕ, ◌+◌, ◌<◌, ◌≤◌, ◌≡◌, ◌≢◌, refl, ap, ◌∙◌, subst, fun_ext, inl, inr, Bool, true, false, not, ◌&&◌,
  Option, none, some, List, ◌==◌, if◌then◌else◌, update, length, arith, Bool-cases, Option-cases,
  ==_iff, Errno, enoent, enotdir, einval, Result, ok, err,
}
use zakos.Fs.{Fs, FileOps, Found, file_get, file_put, entered}
use zakos.Fs.Open.{goes_on, open_end, open_loop, fs_open}
use zakos.Fs.Counts.{holds, dropped}
use zakos.Fs.Closing.{Tree, file_put-Tree}
use zakos.Fs.Lookup.{
  IsFile, entered-live, Stopped, Looked, bad_path, at_root, stopped, lookup-Looked,
}
use zakos.Fs.Scan.{Sound}
use zakos.Fs.Walk.{Walking, Walked, open_loop-Walked}

-- One more reference of the callers.
abbrev pub raised : (ℕ → ℕ) → ℕ → ℕ → ℕ
raised opens f = update opens f (opens f + 1)

-- What fs_open leaves: an open file more, at a depth below the bound, or the references as they were.
abbrev pub After : ℕ → Result ℕ → Fs → (ℕ → ℕ) → (ℕ → ℕ) → (ℕ → ℕ) → Type 0
After n r u opens kept depth = elim r [
  | ok f ↦ (u.live f ≡ true) × (depth f < n) × Tree u (raised opens f) kept depth
  | err c ↦ Tree u opens kept depth
]

get-Tree :
    (s : Fs) (opens kept depth : ℕ → ℕ) (f top : ℕ)
    → Walked s opens kept depth f top
    → s.live f ≡ true
    → Tree (file_get s f) (raised opens f) kept depth
get-Tree s opens kept depth f top w on =
    let v = w.valid in
    let room = w.tip_room (ground (arith, v.null, on, ap s.live {x = f} {y = 0})) in
    record {
      valid = record {
        count = λ g l. ground (arith, v.count g l, v.count f on, room, ==_iff f g);
        fits = λ g l. ground (
          arith,
          v.fits g l,
          room,
          ==_iff f g,
          ap (holds s opens kept) {x = f} {y = g},
          ap opens {x = f} {y = g},
        );
        kids = v.kids;
        up = v.up;
        mounted = v.mounted;
        null = v.null;
        dead = λ g l. ground (arith, v.dead g l, on, ==_iff f g, ap s.live {x = f} {y = g});
        named = v.named;
        top = v.top;
      };
      held = λ g l. ground (arith, w.held g l);
    }

pub take_back : (opens : ℕ → ℕ) (f : ℕ) → dropped (raised opens f) f ≡ opens
take_back opens f = fun_ext (λ x. ground (arith, ap opens {x = f} {y = x}, ==_iff f x))

open_end-After :
    (n : ℕ) (error : Option Errno) (file : ℕ) (s : Fs) (opens kept depth : ℕ → ℕ) (top : ℕ)
    → Walked s opens kept depth file top
    → top ≤ n
    → After n (open_end n error file s).0 (open_end n error file s).1 opens kept depth
open_end-After n error file s opens kept depth top w le = elim (Bool-cases (file == 0)) [
  | inl nothing ↦ rw nothing (record {
    valid = w.valid;
    held = λ g l. ground (
      arith,
      w.held g l,
      nothing,
      w.valid.null,
      l,
      ap s.live {x = g} {y = 0},
      ==_iff file g,
      ==_iff file 0,
    );
  })
  | inr there ↦
      let on : s.live file ≡ true = ground (arith, w.here, there) in
      let t = get-Tree s opens kept depth file top w on in
      let k =
        file_put-Tree n (file_get s file) (raised opens file) kept depth file t on (ground arith)
          (omega (arith, w.low file on, le)) in
      let back =
        subst (λ z. Tree (file_put n (file_get s file) file) z kept depth) (take_back opens file)
          k in
      elim (Option-cases error) [
        | inl fine ↦ rw (there, fine) (on, omega (arith, w.low file on, le), t)
        | inr (c, wrong) ↦ rw (there, wrong) back
      ]
]

-- The tree that fs_open starts from: it has a root, no counter is at its end, and no file is as deep as
-- `top`.
pub record Ready (s : Fs) (opens kept depth : ℕ → ℕ) (top : ℕ) : Type 0 where
  pub tree : Tree s opens kept depth
  pub root : s.root ≢ 0
  pub room : (f : ℕ) → s.live f ≡ true → holds s opens kept f < 127
  pub low : (f : ℕ) → s.live f ≡ true → depth f < top

-- The file at which the walk starts or ends.
Ready-Walked :
    (s : Fs) (opens kept depth : ℕ → ℕ) (top file : ℕ)
    → Ready s opens kept depth top
    → IsFile s file
    → Walked s opens kept depth file top
Ready-Walked s opens kept depth top file r f = record {
  valid = r.tree.valid;
  held = λ g l h. r.tree.held g l;
  low = r.low;
  here = f;
  tip_room = λ h. r.room file (ground (arith, f, h));
}

Ready-Walking :
    (s : Fs) (opens kept depth : ℕ → ℕ) (top file dir : ℕ)
    → Ready s opens kept depth top
    → IsFile s file
    → s.live dir ≡ true
    → Walking s opens kept depth file dir top
Ready-Walking s opens kept depth top file dir r f on =
    let inside = entered-live s opens kept depth dir r.tree.valid on in
    record {
      valid = r.tree.valid;
      held = λ g l h. r.tree.held g l;
      inside = inside;
      room = r.room (entered s dir) inside;
      low = r.low;
      here = f;
      tip_room = λ h. r.room file (ground (arith, f, h));
    }

module _ (ops : FileOps) (sound : Sound ops) where
  open ops use {Disk}

  abbrev pub Opens : ℕ → Option (Result ℕ × Fs × Disk) → (ℕ → ℕ) → (ℕ → ℕ) → Type 0
  Opens n o opens kept =
      (r : Result ℕ) × (u : Fs) × (e : Disk) × (depth : ℕ → ℕ) × (o ≡ some (r, u, e))
      × After n r u opens kept depth

  abbrev open_body : ℕ → Disk → Fs → Bool → ℕ → Found → Option (Result ℕ × Fs × Disk)
  open_body n d s creat attr w = elim w.error [
    | none ↦ let r = open_end n none w.file s in some (r.0, r.1, d)
    | some c ↦
        if goes_on c && not (w.dir == 0)
        then (elim (open_loop ops n n d s w.file w.dir w.path creat attr) [
          | none ↦ none
          | some (e, file, u, d') ↦ let r = open_end n e file u in some (r.0, r.1, d')
        ])
        else some (err c, s, d)
  ]

  abbrev found_body : ℕ → Disk → Fs → Bool → ℕ → Option Found → Option (Result ℕ × Fs × Disk)
  found_body n d s creat attr o = elim o [ none ↦ none | some w ↦ open_body n d s creat attr w ]

  abbrev end_body : ℕ → Option (Option Errno × ℕ × Fs × Disk) → Option (Result ℕ × Fs × Disk)
  end_body n o = elim o [
    | none ↦ none
    | some (e, file, u, d') ↦ let r = open_end n e file u in some (r.0, r.1, d')
  ]

  -- _fs_open goes on where _fs_lookup has stopped.
  go_on :
      (n : ℕ) (d : Disk) (s : Fs) (opens kept depth : ℕ → ℕ) (top size : ℕ) (creat : Bool)
      (attr : ℕ) (w : Found) (c : Errno)
      → Ready s opens kept depth top
      → 65536 ≤ n
      → top + size < n
      → Stopped s size w
      → w.error ≡ some c
      → goes_on c ≡ true
      → Opens n (open_body n d s creat attr w) opens kept
  go_on n d s opens kept depth top size creat attr w c r enough high k is_c goes =
      let null = r.tree.valid.null in
      let there : (w.dir == 0) ≡ false =
        ground (arith, null, k.dir, ap s.live {x = w.dir} {y = 0}, ==_iff w.dir 0) in
      let start = Ready-Walking s opens kept depth top w.file w.dir r k.file k.dir in
      let (e, file, u, d', depth', run, z) =
        open_loop-Walked ops sound n n d s opens kept depth w.file w.dir top w.path creat attr
          enough (omega (arith, k.size, high)) k.rest start in
      let q = open_end n e file u in
      (
        q.0,
        q.1,
        d',
        depth',
        rw (is_c, goes, there) (ap (end_body n) run),
        open_end-After n e file u opens kept depth' _ z (omega (arith, k.size, high)),
      )

  open_body-Opens :
      (n : ℕ) (d : Disk) (s : Fs) (opens kept depth : ℕ → ℕ) (top size : ℕ) (creat : Bool)
      (attr : ℕ) (w : Found)
      → Ready s opens kept depth top
      → 65536 ≤ n
      → top + size < n
      → Looked s size w
      → Opens n (open_body n d s creat attr w) opens kept
  open_body-Opens n d s opens kept depth top size creat attr w r enough high (bad_path bad) =
      (err einval, s, d, depth, rw bad refl, r.tree)
  open_body-Opens n d s opens kept depth top size creat attr w r enough high
        (at_root fine is_root) =
      let q = open_end n none w.file s in
      let on : s.live w.file ≡ true = ap s.live is_root ∙ (r.tree.valid.top r.root).0 in
      (
        q.0,
        q.1,
        d,
        depth,
        rw fine refl,
        open_end-After n none w.file s opens kept depth top
            (Ready-Walked s opens kept depth top w.file r (inr on)) (omega (arith, high)),
      )
  open_body-Opens n d s opens kept depth top size creat attr w r enough high (stopped k) =
      elim k.error [
        | inl no_entry ↦
            go_on n d s opens kept depth top size creat attr w enoent r enough high k no_entry refl
        | inr no_dir ↦
            go_on n d s opens kept depth top size creat attr w enotdir r enough high k no_dir refl
      ]

  -- fs_open of any path in a ready tree returns, for calls behind the tree that are sound and a bound above
  -- 65535 and above the depth of the tree and the length of the path together. Either it returns a file, and
  -- the tree has one reference of the callers to it more, or an error, and the references are what they were.
  -- Each counter is then right, and every file in memory has a holder.
  pub fs_open-Tree :
      (n : ℕ) (d : Disk) (s : Fs) (opens kept depth : ℕ → ℕ) (top : ℕ) (path : List ℕ)
      (creat : Bool) (attr : ℕ)
      → Ready s opens kept depth top
      → 65536 ≤ n
      → top + length path < n
      → Opens n (fs_open ops n d s path creat attr) opens kept
  unfolding fs_open
  fs_open-Tree n d s opens kept depth top path creat attr r enough high =
      let (w, run, k) =
        lookup-Looked n s opens kept depth path r.tree.valid r.root (omega (arith, high)) in
      let (q, u, e, depth', step, a) =
        open_body-Opens n d s opens kept depth top (length path) creat attr w r enough high k in
      (q, u, e, depth', ap (found_body n d s creat attr) run ∙ step, a)
