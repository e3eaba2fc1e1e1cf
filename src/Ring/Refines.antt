-- ===== src/Ring/Refines.antt =====
-- __list_add and __list_remove are the addition at the end and the removal of a list.
use zakos.Common.{
  last_of, occ-last_of, ℕ, ◌≤◌, ◌≡◌, ◌≢◌, refl, sym, ap, ◌∙◌, subst, true, false, List, [], ◌∷◌,
  ◌++◌, ◌==◌, update, occ, occ-snoc, arith, ==_iff,
}
use zakos.Ring.{Links, list_add}
use zakos.Ring.Segment.{Seg, prev-last_of, Seg-append, Seg-retarget}

-- The members are these, in this order, each once.
abbrev pub IsRing : Links → List ℕ → Type 0
IsRing s [] = s.queue ≡ 0
IsRing s (x ∷ r) =
    (s.queue ≡ x) × ((y : ℕ) → occ y (x ∷ r) ≤ 1) × (occ 0 (x ∷ r) ≡ 0) × Seg s.next s.prev x r x

-- No link of a member of another list changes.
abbrev pub Untouched : Links → List ℕ → ℕ → Links → Type 0
Untouched s xs m u =
    (y : ℕ) → occ y xs ≡ 0 → (m == y) ≡ false → (u.next y ≡ s.next y) × (u.prev y ≡ s.prev y)

abbrev Added : Links → List ℕ → ℕ → Links → Type 0
Added s xs m u = IsRing u (xs ++ (m ∷ [])) × Untouched s xs m u

abbrev alone : Links → ℕ → Links
alone s m = record { next = update s.next m m; prev = update s.prev m m; queue = m }

add_first : (s : Links) (m : ℕ) → m ≢ 0 → Added s [] m (alone s m)
unfolding occ
add_first s m there = (
  (refl, λ y. ground arith, ground (arith, there, ==_iff 0 m), (ground arith, ground arith)),
  λ y h o. (ground (arith, o), ground (arith, o)),
)

some_queue :
    (s : Links) (x : ℕ) (r : List ℕ) → s.queue ≡ x → occ 0 (x ∷ r) ≡ 0 → (s.queue == 0) ≡ false
unfolding occ
some_queue s x r head no_null = ground (arith, head, no_null, ==_iff 0 x)

-- __list_add behind `last`, before the head `x`.
abbrev linked : Links → ℕ → ℕ → ℕ → Links
linked s m x last = record {
  next = update (update s.next m x) last m;
  prev = update (update s.prev m last) x m;
  queue = x;
}

add_last :
    (s : Links) (x : ℕ) (r : List ℕ) (m : ℕ)
    → IsRing s (x ∷ r)
    → m ≢ 0
    → occ m (x ∷ r) ≡ 0
    → Added s (x ∷ r) m (linked s m x (last_of x r))
unfolding occ
add_last s x r m (head, one, no_null, g) there new =
    let last = last_of x r in
    let u = linked s m x last in
    let in_list = occ-last_of x r in
    let apart : ((m == x) ≡ false) × ((last == m) ≡ false) =
      ground (arith, new, in_list, ==_iff last m, ap (λ z. occ z r) {x = last} {y = m}) in
    let not_m = λ (y : ℕ). ap (λ z. occ z (x ∷ r)) {x = m} {y = y} in
    let part : Seg u.next u.prev x r m =
      Seg-retarget s.next s.prev u.next u.prev x r x m g one
        (λ y h k. ground (arith, h, k, new, ==_iff m y, not_m y)) (ground arith)
        (λ y h. ground (
          arith,
          h,
          one x,
          new,
          ==_iff x y,
          ==_iff m y,
          not_m y,
          ap (λ z. occ z r) {x = x} {y = y},
        ))
        (ground (arith, apart)) in
    (
      (
        refl,
        λ y. ground (arith, one y, occ-snoc y m r, new, not_m y, ==_iff m y, ==_iff y m),
        ground (arith, no_null, occ-snoc 0 m r, there, ==_iff 0 m),
        Seg-append u.next u.prev x r m [] x part (ground (arith, apart), ground arith),
      ),
      λ y h o.
          let clear_of : ((last == y) ≡ false) × ((x == y) ≡ false) =
            ground (arith, h, in_list, ==_iff last y, ap (λ z. occ z (x ∷ r)) {x = last} {y = y}) in
          (ground (arith, o, clear_of), ground (arith, o, clear_of)),
    )

-- __list_add puts a member of no list at the end of the list, and does not touch the members of
-- other lists.
pub list_add_refines :
    (s : Links) (xs : List ℕ) (m : ℕ)
    → IsRing s xs
    → m ≢ 0
    → occ m xs ≡ 0
    → IsRing (list_add s m) (xs ++ (m ∷ [])) × Untouched s xs m (list_add s m)
unfolding list_add
list_add_refines s [] m none there new =
    let empty : (s.queue == 0) ≡ true = ground (arith, none) in
    let run : list_add s m ≡ alone s m = rw empty refl in
    subst (Added s [] m) (sym run) (add_first s m there)
list_add_refines s (x ∷ r) m (head, one, no_null, g) there new =
    let last = last_of x r in
    let is_last : s.prev s.queue ≡ last = ap s.prev head ∙ prev-last_of s.next s.prev x r x g in
    let some_head : (s.queue == 0) ≡ false = some_queue s x r head no_null in
    let run : list_add s m ≡ linked s m x last =
      rw some_head (ap (linked s m s.queue) is_last ∙ ap (λ z. linked s m z last) head) in
    subst (Added s (x ∷ r) m) (sym run) (add_last s x r m (head, one, no_null, g) there new)
