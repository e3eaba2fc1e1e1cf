-- ===== src/Fat/Trim/Longer.antt =====
-- fat_file_trim_chain to a length above that of the chain.
use zakos.Common.{
  ℕ, zero, suc, ◌≡◌, ◌≢◌, ◌⊎◌, refl, sym, ap, ◌∙◌, subst, inl, inr, Bool, true, false, ◌==◌,
  if◌then◌else◌, List, [], ◌∷◌, ◌++◌, length, occ, last_of, occ-last_of, Result, Result-cases, ok,
  err, Errno, eio, some, arith,
}
use mathlib.Core.List.{append_assoc, append-nil}
use zakos.Fat.Table.{Ctx, fat_get, fat_set, classify, cluster_free, cluster_end, sector_size}
use zakos.Fat.Chain.{entry_or, allocate_cluster}
use zakos.Fat.Chain.Allocate.{is_free}
use zakos.Fat.Sync.{BlockDev}
use zakos.Fat.Entries.{cluster_clear}
use zakos.Fat.Trim.{Work, Done, entry_cluster, link_cluster, grow_loop}
use zakos.Fat.Trim.Freeing.{IsFloppy, IsChain, fat_set-IsFloppy}
use zakos.Fat.Trim.Growing.{Leads-Links, IsNew, allocate_cluster-IsNew}
use zakos.Fat.Trim.Stops.{Stopped, not_cleared, Cause-suc, Took-nil, refused-Stopped}
use zakos.Fat.Trim.Extended.{IsOpen, last_of-snoc, Set, Leads-set, extended, Took, Took-cons}

module _ (b : BlockDev) (at_null stale : ℕ) where
  open b use {Disk}

  -- The chain has got `n` clusters, or an error is reported.
  abbrev pub Grows : Work b at_null stale → ℕ → List ℕ → ℕ → Done b at_null stale → Type 0
  Grows w c cs n r =
      ((new : List ℕ) × (y : Ctx) × (d : Disk) × (r ≡ some (ok tt, record w { ctx = y; disk = d }))
        × (length new ≡ n)
        × IsFloppy y
        × IsChain y c (cs ++ new)
        × Took w.ctx (last_of c cs) new y)
      ⊎ Stopped b at_null stale w c cs n r

  -- The end of the chain is set.
  grow_set :
      (w : Work b at_null stale) (last : ℕ) (y : Ctx)
      → fat_set w.ctx last cluster_end ≡ ok y
      → grow_loop b at_null stale 5700 0 w last ≡ some (ok tt, record w { ctx = y })
  unfolding grow_loop
  grow_set w last y e = rw (e, grow_loop) refl

  linked :
      (w : Work b at_null stale) (last n : ℕ) (y : Ctx)
      → entry_cluster b at_null stale w.entry ≢ 0
      → fat_set w.ctx last n ≡ ok y
      → link_cluster b at_null stale w last n ≡ ok (record w { ctx = y })
  unfolding link_cluster
  linked w last n y some_entry e =
      let old : (entry_cluster b at_null stale w.entry == 0) ≡ false = ground (arith, some_entry) in
      rw (old, e) refl

  -- A round behind the allocation and the link.
  abbrev cleared : ℕ → Work b at_null stale → ℕ → Result (Unit {0}) × Disk → Done b at_null stale
  cleared k v n p = elim p.0 [
    | err _ ↦ some (err eio, record v { disk = p.1 })
    | ok _ ↦ grow_loop b at_null stale 5700 k (record v { disk = p.1 }) n
  ]

  given :
      (k : ℕ) (w v : Work b at_null stale) (last n : ℕ)
      → allocate_cluster 5700 w.ctx last stale ≡ some (ok n)
      → link_cluster b at_null stale w last n ≡ ok v
      → grow_loop b at_null stale 5700 (suc k) w last
        ≡ cleared k v n (cluster_clear b v.disk n 0 sector_size)
  unfolding grow_loop
  given k w v last n e f = rw (e, f, grow_loop) refl

  -- The end, from the set of the last entry.
  Grows-zero :
      (w : Work b at_null stale) (c : ℕ) (cs : List ℕ)
      → IsFloppy w.ctx
      → IsOpen w.ctx c cs
      → Grows w c cs 0 (grow_loop b at_null stale 5700 0 w (last_of c cs))
  unfolding occ
  Grows-zero w c cs f (l, one, usable) =
      let last = last_of c cs in
      let (y, e, g, entries) =
        fat_set-IsFloppy w.ctx last cluster_end f (usable last (occ-last_of c cs)) (omega arith) in
      let (again, last_entry) = Leads-set w.ctx y c cs cluster_end (l, one, usable) (g, entries) in
      let entry = λ (m : ℕ) (t : Bool). if t then ok cluster_end else fat_get w.ctx m in
      inl (
        [],
        y,
        w.disk,
        grow_set w last y e,
        refl,
        g,
        subst (IsChain y c) (sym (append-nil cs))
            (Leads-Links y c cs again last_entry, one, usable),
        λ m h. (λ k. absurd (k refl), λ o k. entries m h ∙ ap (entry m) o),
      )

  cleared_ok :
      (k : ℕ) (v : Work b at_null stale) (n : ℕ) (p : Result (Unit {0}) × Disk)
      → p.0 ≡ ok tt
      → cleared k v n p ≡ grow_loop b at_null stale 5700 k (record v { disk = p.1 }) n
  cleared_ok k v n p e = rw e refl

  cleared_err :
      (k : ℕ) (v : Work b at_null stale) (n : ℕ) (p : Result (Unit {0}) × Disk) (c : Errno)
      → p.0 ≡ err c
      → cleared k v n p ≡ some (err eio, record v { disk = p.1 })
  cleared_err k v n p c e = rw e refl

  -- A round, from what the rounds behind it do.
  Grows-suc :
      (k : ℕ) (w : Work b at_null stale) (c : ℕ) (cs : List ℕ) (n : ℕ) (y : Ctx) (d : Disk)
      → IsNew w.ctx (last_of c cs) n
      → Set w.ctx (last_of c cs) n y
      → Grows
          (record w { ctx = y; disk = d })
          c
          (cs ++ (n ∷ []))
          k
          (grow_loop b at_null stale 5700 k (record w { ctx = y; disk = d }) n)
      → Grows w c cs (suc k) (grow_loop b at_null stale 5700 k (record w { ctx = y; disk = d }) n)
  Grows-suc k w c cs n y d v s rest = elim rest [
    | inr (new, z, e, code, run, f, opened, took, why) ↦ inr (
      n ∷ new,
      z,
      e,
      code,
      run,
      f,
      subst (IsOpen z c) (append_assoc cs (n ∷ []) new) opened,
      Took-cons w.ctx y z (last_of c cs) n new v s
          (subst (λ l. Took y l new z) (last_of-snoc c cs n) took),
      Cause-suc b at_null stale k c cs n new z e code why,
    )
    | inl (new, z, e, run, len, f, chain, took) ↦ inl (
      n ∷ new,
      z,
      e,
      run,
      ap suc len,
      f,
      subst (IsChain z c) (append_assoc cs (n ∷ []) new) chain,
      Took-cons w.ctx y z (last_of c cs) n new v s
          (subst (λ l. Took y l new z) (last_of-snoc c cs n) took),
    )
  ]

  pub grow_loop-Grows :
      (k : ℕ) (w : Work b at_null stale) (c : ℕ) (cs : List ℕ)
      → stale ≢ cluster_free
      → entry_cluster b at_null stale w.entry ≢ 0
      → IsFloppy w.ctx
      → IsOpen w.ctx c cs
      → is_free w.ctx 2731 ≡ false
      → Grows w c cs k (grow_loop b at_null stale 5700 k w (last_of c cs))
  grow_loop-Grows zero w c cs used some_entry f v taken = Grows-zero w c cs f v
  grow_loop-Grows (suc k) w c cs used some_entry f v taken =
      let last = last_of c cs in
      let (_, _, usable) = v in
      let u = usable last (occ-last_of c cs) in
      elim (allocate_cluster-IsNew w.ctx last stale f.0 u.0 used) [
        | inr (code, e, all) ↦ inr (refused-Stopped b at_null stale k w c cs code f v e all)
        | inl (n, e, new) ↦
            let reached : n ≢ 2731 =
              λ q. true_false (sym new.free ∙ ap (is_free w.ctx) q ∙ taken) in
            let (y, s, g, entries) = fat_set-IsFloppy w.ctx last n f u (omega (arith, new.high)) in
            let p = cluster_clear b w.disk n 0 sector_size in
            let run = given k w (record w { ctx = y }) last n e (linked w last n y some_entry s) in
            elim (Result-cases p.0) [
              | inr (code, q) ↦
                  let at : n ≡ last_of c (cs ++ (n ∷ [])) = sym (last_of-snoc c cs n) in
                  inr (
                    n ∷ [],
                    y,
                    p.1,
                    eio,
                    run ∙ cleared_err k (record w { ctx = y }) n p code q,
                    g,
                    extended w.ctx y c cs n v new reached (g, entries),
                    Took-cons w.ctx y y last n [] new (g, entries) (Took-nil b at_null stale y n),
                    not_cleared w.disk code (omega arith) (omega arith) refl
                        (subst (λ l. (cluster_clear b w.disk l 0 sector_size).0 ≡ err code) at q)
                        (ap (λ l. (cluster_clear b w.disk l 0 sector_size).1) at),
                  )
              | inl (_, q) ↦
                  let entry = λ (t : Bool). if t then ok (classify n) else fat_get w.ctx 2731 in
                  let not_there : (last == 2731) ≡ false = ground (arith, u.1) in
                  let still : is_free y 2731 ≡ false =
                    ap (λ r. entry_or 1 r == cluster_free)
                      (entries 2731 (omega arith) ∙ ap entry not_there)
                    ∙ taken in
                  let open' = extended w.ctx y c cs n v new reached (g, entries) in
                  let rest =
                    grow_loop-Grows k (record w { ctx = y; disk = p.1 }) c (cs ++ (n ∷ [])) used
                      some_entry g open' still in
                  let at_n =
                    subst
                      (λ l.
                        Grows (record w { ctx = y; disk = p.1 }) c (cs ++ (n ∷ [])) k
                          (grow_loop b at_null stale 5700 k (record w { ctx = y; disk = p.1 }) l))
                      (last_of-snoc c cs n) rest in
                  subst (Grows w c cs (suc k))
                    (sym (run ∙ cleared_ok k (record w { ctx = y }) n p q))
                    (Grows-suc k w c cs n y p.1 new (g, entries) at_n)
            ]
      ]
    where
      true_false : true ≢ false
      true_false e = absurd cc
