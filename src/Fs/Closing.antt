-- ===== src/Fs/Closing.antt =====
-- fs_file_put and fs_close.
use zakos.Common.{
  ℕ, zero, suc, ◌+◌, ◌<◌, ◌≡◌, ◌≢◌, refl, ap, ◌∙◌, subst, fun_ext, inl, inr, Bool, true, false,
  ◌==◌, update, arith, Bool-cases, ==_iff,
}
use zakos.Fs.{Fs, lower, leave_parent, free_file, file_put}
use zakos.Fs.Counts.{holds, IsValid, dropped, lower-IsValid, leaf-IsValid, root-IsValid}

-- Every file in memory has a holder.
abbrev pub IsHeld : Fs → (ℕ → ℕ) → (ℕ → ℕ) → Type 0
IsHeld s opens kept = (f : ℕ) → s.live f ≡ true → 0 < holds s opens kept f

-- kfree may as well come before the parent is put.
update_swap :
    (a : ℕ → Bool) (f g : ℕ) → update (update a f false) g false ≡ update (update a g false) f false
update_swap a f g = fun_ext (λ x. ground arith)

pub file_put-free_file :
    (n : ℕ) (s : Fs) (f p : ℕ) → file_put n (free_file s f) p ≡ free_file (file_put n s p) f
unfolding file_put
file_put-free_file zero s f p = refl
file_put-free_file (suc n) s f p =
    let u = lower s p in
    let above = file_put n (leave_parent u p) (u.parent p) in
    let up = file_put-free_file n (leave_parent u p) f (u.parent p) in
    elim (Bool-cases (u.nrefs p == 0)) [
      | inr more ↦ rw more refl
      | inl last ↦ elim (Bool-cases (u.parent p == 0)) [
        | inl root ↦ rw (last, root) (ap (λ z. record u { live = z }) (update_swap s.live f p))
        | inr on ↦
            rw (last, on)
              (ap (λ z. free_file z p) up
                ∙ ap (λ z. record above { live = z }) (update_swap above.live f p))
      ]
    ]

-- The counters of a tree are right, and every file has a holder.
pub record Tree (s : Fs) (opens kept depth : ℕ → ℕ) : Type 0 where
  pub valid : IsValid s opens kept depth
  pub held : IsHeld s opens kept

pub give_back :
    (opens : ℕ → ℕ) (f p : ℕ)
    → dropped (update (dropped opens f) p (dropped opens f p + 1)) p ≡ dropped opens f
give_back opens f p =
    fun_ext (λ x. ground (arith, ap (dropped opens f) {x = p} {y = x}, ==_iff p x))

-- fs_file_put of a file that the caller holds, with a bound above the depth of the file: the tree
-- is valid with a reference of the caller less, and every file left has a holder.
pub file_put-Tree :
    (n : ℕ) (s : Fs) (opens kept depth : ℕ → ℕ) (f : ℕ)
    → Tree s opens kept depth
    → s.live f ≡ true
    → 0 < opens f
    → depth f < n
    → Tree (file_put n s f) (dropped opens f) kept depth
unfolding file_put
file_put-Tree zero s opens kept depth f t on some_open low = absurd (omega (arith, low))
file_put-Tree (suc n) s opens kept depth f t on some_open low =
    let u = lower s f in
    let v = lower-IsValid s opens kept depth f t.valid on some_open in
    let now = v.count f on in
    elim (Bool-cases (u.nrefs f == 0)) [
      | inr more ↦ rw more (record {
        valid = v;
        held = λ g l. ground (
          arith,
          t.held g l,
          now,
          more,
          ==_iff f g,
          ap (holds u (dropped opens f) kept) {x = f} {y = g},
        );
      })
      | inl last ↦
          let none : holds u (dropped opens f) kept f ≡ 0 = ground (arith, now, last) in
          elim (Bool-cases (u.parent f == 0)) [
            | inl root ↦
                rw (last, root)
                  (record {
                    valid =
                        root-IsValid u (dropped opens f) kept depth f v on none
                          (ground (arith, root));
                    held = λ g l. ground (arith, t.held g, l, ==_iff f g);
                  })
            | inr below ↦
                let p = u.parent f in
                let up : p ≢ 0 = ground (arith, below) in
                let above = v.up f on up in
                let w = free_file (leave_parent u f) f in
                let opens' = update (dropped opens f) p (dropped opens f p + 1) in
                let k : Tree (file_put n w p) (dropped opens' p) kept depth =
                  file_put-Tree n w opens' kept depth p
                    (record {
                      valid = leaf-IsValid u (dropped opens f) kept depth f v on none up;
                      held = λ g l. ground (arith, t.held g, l, ==_iff f g, ==_iff p g);
                    })
                    (ground (arith, above, ap depth {x = f} {y = p}, ==_iff f p)) (ground arith)
                    (omega (arith, above.1, low)) in
                rw (last, below)
                  (subst (λ z. Tree z (dropped opens f) kept depth)
                    (file_put-free_file n (leave_parent u f) f p)
                    (subst (λ z. Tree (file_put n w p) z kept depth) (give_back opens f p) k))
          ]
    ]
