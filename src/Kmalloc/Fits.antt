-- ===== src/Kmalloc/Fits.antt =====
-- The search of kmalloc: what the block that it carves leaves of the chain.
use zakos.Common.{
  ℕ, ◌+◌, ◌%◌, ◌^◌, ◌≤◌, ◌≡◌, ◌⊎◌, inl, inr, refl, Bool, true, false, not, ◌&&◌, Option, none, some,
  List, [], ◌∷◌, leb, ◌==◌, if◌then◌else◌, arith, some_inj, subst, Bool-cases,
}
use zakos.Kmalloc.{Block, Fit, header, with_slack, head_addr, carve, behind, first_fit, search_from}
use zakos.Kmalloc.Chain.{Chain, IsHint, HintOk, used_at, NoRoom, Chain-le, used_at-below, Chain-at}

-- What an allocation of `size` bytes in a chain leaves: one more block in use, at an address that
-- was not in use, with at least that size, and every other block in use as it was.
pub record Fits (a end : ℕ) (free : Bool) (size : ℕ) (xs : List Block) (f : Fit) : Type 0 where
  pub chain : Chain a free f.blocks end
  pub place : a ≤ f.found
  pub unused : used_at xs f.found ≡ none
  pub got : ℕ
  pub enough : size ≤ got
  pub lookup : (x : ℕ) → used_at f.blocks x ≡ (if f.found == x then some got else used_at xs x)

module _ (size : ℕ) (even : size % 2 ≡ 0) where
  carve-Fits :
      (a end : ℕ) (free : Bool) (b : Block) (r : List Block)
      → Chain a free (b ∷ r) end
      → end + 16 ≤ 2 ^ 16
      → b.used ≡ false
      → size ≤ b.size
      → Fits a end free size (b ∷ r) (carve size b r)
  unfolding carve used_at
  carve-Fits a end free b r c high off room =
      let low = Chain-le (a + header + b.size) end (not b.used) r c.3 in
      elim (Bool-cases (leb (with_slack size) b.size)) [
        | inl e ↦ rw e (record {
          chain = (
            c.0,
            ground arith,
            even,
            (
              ground arith,
              ground arith,
              omega arith,
              Chain-at (a + header + b.size) _ end (not b.used) true r (ground arith)
                  (λ _. ground arith) c.3,
            ),
          );
          place = omega arith;
          unused = ground arith;
          got = size;
          enough = omega arith;
          lookup =
              λ x. ground (arith, used_at-below (a + header + b.size) end x (not b.used) r c.3);
        })
        | inr e ↦ rw e (record {
          chain = (
            c.0,
            ground arith,
            c.2,
            Chain-at (a + header + b.size) _ end (not b.used) false r refl (λ g. cc) c.3,
          );
          place = omega arith;
          unused = ground arith;
          got = b.size;
          enough = room;
          lookup = λ x. ground arith;
        })
      ]

  behind-Fits :
      (a end : ℕ) (free : Bool) (b : Block) (r : List Block) (f : Fit)
      → Chain a free (b ∷ r) end
      → Fits (a + header + b.size) end (not b.used) size r f
      → Fits a end free size (b ∷ r) (behind b f)
  unfolding used_at
  behind-Fits a end free b r f c fits = record {
    chain = (c.0, c.1, c.2, fits.chain);
    place = omega (arith, fits.place);
    unused = ground (arith, fits.unused, fits.place);
    got = fits.got;
    enough = fits.enough;
    lookup = λ x. ground (arith, fits.lookup x, fits.place);
  }

  abbrev pub Found : ℕ → ℕ → Bool → List Block → Option Fit → Type 0
  Found a end free xs o =
      ((o ≡ none) × NoRoom size xs) ⊎ ((f : Fit) × (o ≡ some f) × Fits a end free size xs f)

  first_fit-Found :
      (a end : ℕ) (free : Bool) (xs : List Block)
      → Chain a free xs end
      → end + 16 ≤ 2 ^ 16
      → Found a end free xs (first_fit size xs)
  unfolding first_fit
  first_fit-Found a end free [] c high = inl (refl, tt)
  first_fit-Found a end free (b ∷ r) c high = elim (Bool-cases (not b.used && leb size b.size)) [
    | inl e ↦
        inr (carve size b r, rw e, carve-Fits a end free b r c high (ground arith) (ground arith))
    | inr e ↦ elim (first_fit-Found (a + header + b.size) end (not b.used) r c.3 high) [
      | inl (none_left, small) ↦ inl (rw (e, none_left), ((λ off. ground arith), small))
      | inr (f, at, fits) ↦ inr (behind b f, rw (e, at), behind-Fits a end free b r f c fits)
    ]
  ]

  pub search_from-Found :
      (hint a end : ℕ) (free : Bool) (xs : List Block)
      → Chain a free xs end
      → IsHint hint xs
      → end + 16 ≤ 2 ^ 16
      → Found a end free xs (search_from hint size xs)
  unfolding search_from
  search_from-Found hint a end free [] c i high = elim i [ ]
  search_from-Found hint a end free (b ∷ r) c i high = elim (Bool-cases (b.addr == hint)) [
    | inl e ↦ rw e (first_fit-Found a end free (b ∷ r) c high)
    | inr e ↦
        let i' : (b.used ≡ true) × IsHint hint r = rw e at i in
        elim (search_from-Found hint (a + header + b.size) end (not b.used) r c.3 i'.1 high) [
          | inl (none_left, small) ↦
              inl (rw (e, none_left), ((λ off. absurd (ground (arith, i'.0))), small))
          | inr (f, at, fits) ↦ inr (behind b f, rw (e, at), behind-Fits a end free b r f c fits)
        ]
  ]

  -- Behind the carved block, no free block is skipped.
  carve-hint : (b : Block) (r : List Block) → HintOk (carve size b r).after (carve size b r).blocks
  unfolding carve
  carve-hint b r = elim (Bool-cases (leb (with_slack size) b.size)) [
    | inl e ↦ rw e (ground arith)
    | inr e ↦ rw e (behind_used r)
  ]
    where
      behind_used : (xs : List Block) → HintOk (head_addr xs) (record b { used = true } ∷ xs)
      behind_used [] = tt
      behind_used (d ∷ xs) = ground arith

  carve-found : (b : Block) (r : List Block) → (carve size b r).found ≡ b.addr
  unfolding carve
  carve-found b r = ground arith

  HintOk-cons :
      (o : Option ℕ) (b : Block) (xs : List Block) → b.used ≡ true → HintOk o xs → HintOk o (b ∷ xs)
  HintOk-cons none b xs u h = tt
  HintOk-cons (some h) b xs u i = elim (Bool-cases (b.addr == h)) [
    | inl e ↦ rw e tt
    | inr e ↦ rw e (u, i)
  ]

  abbrev pub NewHint : ℕ → Fit → Type 0
  NewHint start f = HintOk (if f.found == start then f.after else some start) f.blocks

  pub search_from-hint :
      (hint a end : ℕ) (free : Bool) (xs : List Block) (f : Fit)
      → Chain a free xs end
      → IsHint hint xs
      → end + 16 ≤ 2 ^ 16
      → search_from hint size xs ≡ some f
      → NewHint hint f
  unfolding search_from first_fit
  search_from-hint hint a end free [] f c i high e = elim i [ ]
  search_from-hint hint a end free (b ∷ r) f c i high e = elim (Bool-cases (b.addr == hint)) [
    | inr miss ↦
        let i' : (b.used ≡ true) × IsHint hint r = rw miss at i in
        elim (search_from-Found hint (a + header + b.size) end (not b.used) r c.3 i'.1 high) [
          | inl (none_left, small) ↦
              let no_fit : none ≡ some f = rw (miss, none_left, search_from) at e in cc
          | inr (g, at, fits) ↦
              let same : some (behind b g) ≡ some f = rw (miss, at, search_from) at e in
              subst (NewHint hint) (some_inj (behind b g) f same) (
                HintOk-cons _ b g.blocks i'.0 (
                  search_from-hint hint (a + header + b.size) end (not b.used) r g c.3 i'.1 high
                    at))
        ]
    | inl here ↦ elim (Bool-cases (not b.used && leb size b.size)) [
      | inl room ↦
          let same : some (carve size b r) ≡ some f =
            rw (here, room, search_from, first_fit) at e in
          subst (NewHint hint) (some_inj (carve size b r) f same)
            (rw (carve-found b r, here) (carve-hint b r))
      | inr tight ↦ elim (first_fit-Found (a + header + b.size) end (not b.used) r c.3 high) [
        | inl (none_left, small) ↦
            let no_fit : none ≡ some f = rw (here, tight, none_left, search_from, first_fit) at e in
            cc
        | inr (g, at, fits) ↦
            let same : some (behind b g) ≡ some f =
              rw (here, tight, at, search_from, first_fit) at e in
            subst (NewHint hint) (some_inj (behind b g) f same) (
              let past : (g.found == hint) ≡ false = ground (arith, fits.place) in
              rw (past, here) tt)
      ]
    ]
  ]
