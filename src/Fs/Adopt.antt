-- ===== src/Fs/Adopt.antt =====
-- A new file in the tree: fs_file_spawn and what _fs_open_from_dir does with it.
use zakos.Common.{
  ℕ, ◌+◌, ◌<◌, ◌≡◌, ◌≢◌, refl, ap, inl, inr, true, false, [], ◌∷◌, ◌==◌, if◌then◌else◌, update, occ,
  occ-snoc, length, length-append, arith, Bool-cases, ==_iff,
}
use zakos.Fs.{Fs, Dentry, adopt}
use zakos.Fs.Counts.{holds, IsValid}

pub adopt-children :
    (s : Fs) (f dir : ℕ) (dentry : Dentry) (p c : ℕ)
    → (f == dir) ≡ false
    → occ c ((adopt s f dir dentry).children p) ≡ (
        if dir == p
        then occ c (s.children dir) + (if c == f then 1 else 0)
        else if f == p
        then 0
        else occ c (s.children p))
unfolding occ
adopt-children s f dir dentry p c apart = elim (Bool-cases (dir == p)) [
  | inl same ↦ rw (same, apart) (occ-snoc c f (s.children dir))
  | inr other ↦ elim (Bool-cases (f == p)) [
    | inl new ↦ rw (other, new) refl
    | inr old ↦ rw (other, old) refl
  ]
]

-- A new file below a directory that can take a reference more.
pub adopt-IsValid :
    (s : Fs) (opens kept depth : ℕ → ℕ) (f dir : ℕ) (dentry : Dentry)
    → IsValid s opens kept depth
    → f ≢ 0
    → s.live f ≡ false
    → s.live dir ≡ true
    → holds s opens kept dir < 127
    → length dentry.name ≢ 0
    → IsValid (adopt s f dir dentry) opens kept (update depth f (depth dir + 1))
adopt-IsValid s opens kept depth f dir dentry v some_f fresh on room name =
    let apart : (f == dir) ≡ false =
      ground (arith, fresh, on, ap s.live {x = f} {y = dir}, ==_iff f dir) in
    let size = length-append (s.children dir) (f ∷ []) in
    let unused = v.dead f fresh in
    record {
      count = λ g l. ground (
        arith,
        v.count g,
        v.count dir on,
        l,
        size,
        apart,
        unused,
        room,
        ==_iff f g,
        ==_iff dir g,
        ap opens {x = f} {y = g},
        ap kept {x = f} {y = g},
        ap opens {x = dir} {y = g},
        ap kept {x = dir} {y = g},
        ap s.mountpoint {x = dir} {y = g},
        ap (λ z. length (s.children z)) {x = dir} {y = g},
      );
      fits = λ g l. ground (
        arith,
        v.fits g,
        l,
        size,
        apart,
        unused,
        room,
        ==_iff f g,
        ==_iff dir g,
        ap opens {x = f} {y = g},
        ap kept {x = f} {y = g},
        ap opens {x = dir} {y = g},
        ap kept {x = dir} {y = g},
        ap s.mountpoint {x = dir} {y = g},
        ap (λ z. length (s.children z)) {x = dir} {y = g},
      );
      kids = λ p c l. ground (
        arith,
        v.kids p c,
        v.kids dir c on,
        l,
        apart,
        adopt-children s f dir dentry p c apart,
        ==_iff f p,
        ==_iff dir p,
        ==_iff f c,
        ==_iff c f,
        ==_iff (s.parent c) p,
        ap (λ z. occ c (s.children z)) {x = dir} {y = p},
        v.up c,
        ap s.live {x = f} {y = s.parent c},
        some_f,
        fresh,
        ap s.live {x = f} {y = c},
      );
      up = λ c l h. ground (
        arith,
        v.up c,
        l,
        h,
        on,
        apart,
        fresh,
        ==_iff f c,
        ==_iff f (s.parent c),
        ap s.live {x = f} {y = s.parent c},
        ap depth {x = f} {y = c},
      );
      mounted = λ g l h. ground (
        arith,
        v.mounted g,
        l,
        h,
        fresh,
        ==_iff f g,
        ==_iff f (s.mountpoint g),
        ap s.live {x = f} {y = s.mountpoint g},
      );
      null = ground (arith, v.null, some_f, ==_iff f 0);
      dead = λ g l. v.dead g (ground (arith, l));
      named = λ c l h. elim (Bool-cases (f == c)) [
        | inl new ↦ rw new name
        | inr old ↦ rw old (v.named c (ground (arith, l, old)) (ground (arith, h, old)))
      ];
      top = λ h. ground (arith, v.top h, fresh, ==_iff f s.root, ap s.live {x = f} {y = s.root});
    }
