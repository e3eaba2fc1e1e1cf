-- ===== src/Fs/Counts.antt =====
-- Who holds a file of the tree: the callers that opened it, its children, and a mount.
use zakos.Common.{
  ℕ, ◌+◌, ◌-◌, ◌<◌, ◌≡◌, ◌≢◌, refl, ap, inl, inr, true, false, ◌&&◌, List, [], ◌∷◌, ◌==◌,
  if◌then◌else◌, update, without, occ, occ-without, length, arith, Bool-cases, ==_iff,
}
use zakos.Fs.{Fs, lower, leave_parent, free_file}

-- The references to a file: `opens` are those of the callers, `kept` those of the mounted roots.
abbrev pub holds : Fs → (ℕ → ℕ) → (ℕ → ℕ) → ℕ → ℕ
holds s opens kept f =
    opens f + kept f + length (s.children f) + (if s.mountpoint f == 0 then 0 else 1)

-- The tree: the counters are right, a file is a child of its parent just once, and `depth` grows
-- towards the children.
pub record IsValid (s : Fs) (opens kept depth : ℕ → ℕ) : Type 0 where
  pub count : (f : ℕ) → s.live f ≡ true → s.nrefs f ≡ holds s opens kept f
  pub fits : (f : ℕ) → s.live f ≡ true → holds s opens kept f < 128
  pub kids :
      (p c : ℕ)
      → s.live p ≡ true
      → occ c (s.children p) ≡ (if s.live c && (s.parent c == p) then 1 else 0)
  pub up :
      (c : ℕ)
      → s.live c ≡ true
      → s.parent c ≢ 0
      → (s.live (s.parent c) ≡ true) × (depth (s.parent c) < depth c)
  pub mounted :
      (f : ℕ)
      → s.live f ≡ true
      → s.mountpoint f ≢ 0
      → (s.live (s.mountpoint f) ≡ true) × (kept (s.mountpoint f) ≡ 1)
  pub null : s.live 0 ≡ false
  pub dead : (f : ℕ) → s.live f ≡ false → (opens f ≡ 0) × (kept f ≡ 0)
  pub named : (c : ℕ) → s.live c ≡ true → s.parent c ≢ 0 → length (s.name c) ≢ 0
  pub top : s.root ≢ 0 → (s.live s.root ≡ true) × (kept s.root ≡ 1)

abbrev pub dropped : (ℕ → ℕ) → ℕ → ℕ → ℕ
dropped opens f = update opens f (opens f - 1)

length-without : (x : ℕ) (xs : List ℕ) → occ x xs ≢ 0 → length (without x xs) + 1 ≡ length xs
unfolding occ without
length-without x [] h = absurd (h refl)
length-without x (y ∷ xs) h = elim (Bool-cases (x == y)) [
  | inl same ↦ rw same (omega arith)
  | inr other ↦ rw other (omega (arith, length-without x xs (ground (arith, h, other))))
]

pub occ_0 : (x : ℕ) (xs : List ℕ) → length xs ≡ 0 → occ x xs ≡ 0
unfolding occ
occ_0 x [] h = refl
occ_0 x (y ∷ xs) h = absurd (omega (arith, h))

-- A reference less, where it is not the last one.
pub lower-IsValid :
    (s : Fs) (opens kept depth : ℕ → ℕ) (f : ℕ)
    → IsValid s opens kept depth
    → s.live f ≡ true
    → 0 < opens f
    → IsValid (lower s f) (dropped opens f) kept depth
lower-IsValid s opens kept depth f v on held = record {
  count = λ g l. ground (arith, v.count g l, v.count f on, v.fits g l, v.fits f on, held);
  fits = λ g l. ground (arith, v.fits g l, v.fits f on, held);
  kids = v.kids;
  up = v.up;
  mounted = v.mounted;
  null = v.null;
  dead = λ g l. ground (arith, v.dead g l);
  named = v.named;
  top = v.top;
}

-- A file that nobody holds goes, and with it one of the references to its parent.
pub leaf-IsValid :
    (s : Fs) (opens kept depth : ℕ → ℕ) (f : ℕ)
    → IsValid s opens kept depth
    → s.live f ≡ true
    → holds s opens kept f ≡ 0
    → s.parent f ≢ 0
    → IsValid
        (free_file (leave_parent s f) f)
        (update opens (s.parent f) (opens (s.parent f) + 1))
        kept
        depth
leaf-IsValid s opens kept depth f v on none up =
    let p = s.parent f in
    let above = v.up f on up in
    let apart : (f == p) ≡ false = ground (arith, above, ap depth {x = f} {y = p}) in
    let child : occ f (s.children p) ≡ 1 = ground (arith, v.kids p f above.0, on) in
    let barren = λ (c : ℕ). occ_0 c (s.children f) (omega (arith, none)) in
    let size = length-without f (s.children p) (omega (arith, child)) in
    record {
      count = λ g l. ground (
        arith,
        v.count g,
        l,
        size,
        apart,
        ==_iff p g,
        ap (λ z. length (s.children z)) {x = p} {y = g},
        ap s.nrefs {x = p} {y = g},
      );
      fits = λ g l. ground (
        arith,
        v.fits g,
        l,
        size,
        apart,
        ==_iff p g,
        ap (λ z. length (s.children z)) {x = p} {y = g},
      );
      kids = λ q c l. ground (
        arith,
        v.kids q c,
        l,
        v.kids p c above.0,
        occ-without c f (s.children p),
        ==_iff f c,
        ==_iff p q,
        ==_iff (s.parent c) q,
        ap (λ z. occ c (s.children z)) {x = p} {y = q},
        ap s.parent {x = f} {y = c},
        child,
        ap (λ z. occ z (s.children p)) {x = f} {y = c},
      );
      up = λ c l h. ground (
        arith,
        v.up c,
        l,
        h,
        v.kids f c,
        on,
        barren c,
        ==_iff f (s.parent c),
        ==_iff (s.parent c) f,
      );
      mounted = λ g l h. ground (
        arith,
        v.mounted g,
        l,
        h,
        none,
        ==_iff f (s.mountpoint g),
        ap kept {x = f} {y = s.mountpoint g},
      );
      null = ground (arith, v.null);
      named = λ c l. v.named c (ground (arith, l));
      dead = λ g l. ground (
        arith,
        v.dead g,
        l,
        none,
        ==_iff f g,
        ap opens {x = f} {y = g},
        ap kept {x = f} {y = g},
        ==_iff p g,
        ap s.live {x = p} {y = g},
        above,
      );
      top = λ h. ground (arith, v.top h, none, ==_iff f s.root, ap kept {x = f} {y = s.root});
    }

-- The same for a file at the top.
pub root-IsValid :
    (s : Fs) (opens kept depth : ℕ → ℕ) (f : ℕ)
    → IsValid s opens kept depth
    → s.live f ≡ true
    → holds s opens kept f ≡ 0
    → s.parent f ≡ 0
    → IsValid (free_file s f) opens kept depth
root-IsValid s opens kept depth f v on none up =
    let barren = λ (c : ℕ). occ_0 c (s.children f) (omega (arith, none)) in
    record {
      count = λ g l. v.count g (ground (arith, l));
      fits = λ g l. v.fits g (ground (arith, l));
      kids = λ q c l. ground (
        arith,
        v.kids q c,
        l,
        v.kids q f,
        on,
        ==_iff f c,
        barren c,
        ==_iff (s.parent f) q,
        up,
        v.null,
        ap s.live {x = q} {y = 0},
        ap s.parent {x = f} {y = c},
      );
      up = λ c l h. ground (
        arith,
        v.up c,
        l,
        h,
        v.kids f c,
        on,
        barren c,
        ==_iff f (s.parent c),
        ==_iff (s.parent c) f,
      );
      mounted = λ g l h. ground (
        arith,
        v.mounted g,
        l,
        h,
        none,
        ==_iff f (s.mountpoint g),
        ap kept {x = f} {y = s.mountpoint g},
      );
      null = ground (arith, v.null);
      named = λ c l. v.named c (ground (arith, l));
      dead = λ g l.
          ground (
            arith,
            v.dead g,
            l,
            none,
            ==_iff f g,
            ap opens {x = f} {y = g},
            ap kept {x = f} {y = g},
          );
      top = λ h. ground (arith, v.top h, none, ==_iff f s.root, ap kept {x = f} {y = s.root});
    }
