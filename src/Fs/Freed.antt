-- ===== src/Fs/Freed.antt =====
-- fs_file_put: which files go, and what stays of the others.
use zakos.Common.{
  ℕ, zero, suc, ◌+◌, ◌<◌, ◌≡◌, ◌≢◌, refl, ap, sym, ◌∙◌, subst, inl, inr, true, false, ◌==◌, update,
  arith, Bool-cases, ==_iff, occ,
}
use zakos.Fs.{Fs, lower, leave_parent, free_file, file_put}
use zakos.Fs.Counts.{holds, IsValid, dropped, lower-IsValid, leaf-IsValid, occ_0}
use zakos.Fs.Closing.{Tree, file_put-Tree, file_put-free_file, give_back}

-- From `s` to `u` files go, which nobody holds but files that go as well, and nothing else changes
-- but the counters and the lists of children.
pub record Keeps (s u : Fs) (opens kept : ℕ → ℕ) : Type 0 where
  pub name : u.name ≡ s.name
  pub directory : u.directory ≡ s.directory
  pub parent : u.parent ≡ s.parent
  pub mountpoint : u.mountpoint ≡ s.mountpoint
  pub ctx : u.ctx ≡ s.ctx
  pub internal : u.internal ≡ s.internal
  pub root : u.root ≡ s.root
  pub older : (g : ℕ) → u.live g ≡ true → s.live g ≡ true
  pub gone :
      (g : ℕ)
      → s.live g ≡ true
      → u.live g ≡ false
      → (opens g ≡ 0)
        × (kept g ≡ 0)
        × (s.mountpoint g ≡ 0)
        × ((c : ℕ) → s.live c ≡ true → s.parent c ≡ g → u.live c ≡ false)

-- A file without holders has no children.
barren :
    (u : Fs) (opens kept depth : ℕ → ℕ) (f : ℕ)
    → IsValid u opens kept depth
    → u.live f ≡ true
    → holds u opens kept f ≡ 0
    → (c : ℕ) → u.live c ≡ true
    → u.parent c ≢ f
barren u opens kept depth f v on none c l e =
    let empty : occ c (u.children f) ≡ 0 = occ_0 c (u.children f) (omega (arith, none)) in
    absurd (ground (arith, v.kids f c on, l, empty, ==_iff (u.parent c) f, e))

-- A file without holders goes, and then others.
freed-Keeps :
    (s x : Fs) (opens kept depth : ℕ → ℕ) (f : ℕ)
    → IsValid (lower s f) opens kept depth
    → s.live f ≡ true
    → holds (lower s f) opens kept f ≡ 0
    → Keeps (free_file (leave_parent (lower s f) f) f) x opens kept
    → Keeps s x opens kept
freed-Keeps s x opens kept depth f v on none k = record {
  name = k.name;
  directory = k.directory;
  parent = k.parent;
  mountpoint = k.mountpoint;
  ctx = k.ctx;
  internal = k.internal;
  root = k.root;
  older = λ g l. ground (arith, k.older g l);
  gone = λ g l d. elim (Bool-cases (f == g)) [
    | inl here ↦
        let at : f ≡ g = ground (arith, here, ==_iff f g) in
        subst
          (λ z.
            (opens z ≡ 0)
            × (kept z ≡ 0)
            × (s.mountpoint z ≡ 0)
            × ((c : ℕ) → s.live c ≡ true → s.parent c ≡ z → x.live c ≡ false))
          at
          (
            omega (arith, none),
            omega (arith, none),
            ground (arith, none),
            λ c m e. absurd (barren (lower s f) opens kept depth f v on none c m e),
          )
    | inr there ↦
        let (a, b, m, kids) = k.gone g (ground (arith, l, there)) d in
        (
          a,
          b,
          m,
          λ c m e. elim (Bool-cases (f == c)) [
            | inr other ↦ kids c (ground (arith, m, other)) e
            | inl same ↦ ground (arith, k.older c, same)
          ],
        )
  ];
}

same-Keeps :
    (s u : Fs) (opens kept : ℕ → ℕ)
    → u.live ≡ s.live
    → u.name ≡ s.name
    → u.directory ≡ s.directory
    → u.parent ≡ s.parent
    → u.mountpoint ≡ s.mountpoint
    → u.ctx ≡ s.ctx
    → u.internal ≡ s.internal
    → u.root ≡ s.root
    → Keeps s u opens kept
same-Keeps s u opens kept live name directory parent mountpoint ctx internal root = record {
  name = name;
  directory = directory;
  parent = parent;
  mountpoint = mountpoint;
  ctx = ctx;
  internal = internal;
  root = root;
  older = λ g l. sym (ap (λ z. z g) live) ∙ l;
  gone = λ g l d. absurd (ground (arith, l, d, ap (λ z. z g) live));
}

file_put-Keeps :
    (n : ℕ) (s : Fs) (opens kept depth : ℕ → ℕ) (f : ℕ)
    → Tree s opens kept depth
    → s.live f ≡ true
    → 0 < opens f
    → depth f < n
    → Keeps s (file_put n s f) (dropped opens f) kept
unfolding file_put
file_put-Keeps zero s opens kept depth f t on some_open low = absurd (omega (arith, low))
file_put-Keeps (suc n) s opens kept depth f t on some_open low =
    let u = lower s f in
    let v = lower-IsValid s opens kept depth f t.valid on some_open in
    elim (Bool-cases (u.nrefs f == 0)) [
      | inr more ↦
          rw more (same-Keeps s u (dropped opens f) kept refl refl refl refl refl refl refl refl)
      | inl last ↦
          let none : holds u (dropped opens f) kept f ≡ 0 = ground (arith, v.count f on, last) in
          let w = free_file (leave_parent u f) f in
          elim (Bool-cases (u.parent f == 0)) [
            | inl root ↦
                rw (last, root)
                  (freed-Keeps s (free_file u f) (dropped opens f) kept depth f v on none (
                    same-Keeps w (free_file u f) (dropped opens f) kept refl refl refl refl refl
                      refl refl refl))
            | inr below ↦
                let p = u.parent f in
                let up : p ≢ 0 = ground (arith, below) in
                let above = v.up f on up in
                let opens' = update (dropped opens f) p (dropped opens f p + 1) in
                let k : Keeps w (file_put n w p) (dropped opens' p) kept =
                  file_put-Keeps n w opens' kept depth p
                    (record {
                      valid = leaf-IsValid u (dropped opens f) kept depth f v on none up;
                      held = λ g l. ground (arith, t.held g, l, ==_iff f g, ==_iff p g);
                    })
                    (ground (arith, above, ap depth {x = f} {y = p}, ==_iff f p)) (ground arith)
                    (omega (arith, above.1, low)) in
                rw (last, below)
                  (subst (λ z. Keeps s z (dropped opens f) kept)
                    (file_put-free_file n (leave_parent u f) f p)
                    (freed-Keeps s (file_put n w p) (dropped opens f) kept depth f v on none
                      (subst (λ z. Keeps w (file_put n w p) z kept) (give_back opens f p) k)))
          ]
    ]

-- fs_file_put of a file that the caller holds, with a bound above the depth of the file: the tree is
-- valid with a reference of the caller less, and every file left has a holder. A file that goes is
-- not open, not the root of a mount and not mounted on, and its children go with it; no file comes,
-- and no name, kind, parent, mount or data of a file and not the root changes.
pub file_put_lem :
    (n : ℕ) (s : Fs) (opens kept depth : ℕ → ℕ) (f : ℕ)
    → Tree s opens kept depth
    → s.live f ≡ true
    → 0 < opens f
    → depth f < n
    → Tree (file_put n s f) (dropped opens f) kept depth
      × Keeps s (file_put n s f) (dropped opens f) kept
file_put_lem n s opens kept depth f t on some_open low = (
  file_put-Tree n s opens kept depth f t on some_open low,
  file_put-Keeps n s opens kept depth f t on some_open low,
)
