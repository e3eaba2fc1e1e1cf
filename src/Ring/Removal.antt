-- ===== src/Ring/Removal.antt =====
-- __list_remove is the removal from a list.
use zakos.Common.{
  last_of, occ-last_of, ℕ, ◌≤◌, ◌≡◌, ◌≢◌, refl, sym, ap, subst, inl, inr, true, false, List, [],
  ◌∷◌, ◌++◌, ◌==◌, if◌then◌else◌, occ, occ-append, without, arith, Bool-cases, ==_iff,
}
use mathlib.Core.List.{append-nil}
use zakos.Ring.{Links, clear, list_remove}
use zakos.Ring.Segment.{Seg, prev-last_of, Seg-append, Seg-split}
use zakos.Ring.Refines.{IsRing, Untouched}
use zakos.Ring.Neighbours.{in_split, cut, tied, Removed, behind, untouched}

remove_inner :
    (s : Links) (x : ℕ) (a : List ℕ) (m : ℕ) (b : List ℕ)
    → IsRing s (x ∷ (a ++ (m ∷ b)))
    → Removed s (x ∷ (a ++ (m ∷ b))) (x ∷ (a ++ b)) m (cut s m x)
unfolding occ
remove_inner s x a m [] (head, one, no_null, g) =
    let u = cut s m x in
    let (before, after) = Seg-split s.next s.prev x a m [] x g in
    let back : s.prev m ≡ last_of x a = prev-last_of s.next s.prev x a m before in
    let in_list = occ-last_of x a in
    let count = λ (z : ℕ). occ-append z a (m ∷ []) in
    let count' = λ (z : ℕ). occ-append z a [] in
    let p = s.prev m in
    let p_in : occ p (x ∷ a) ≢ 0 = ground (arith, in_list, back, ap (λ z. occ z (x ∷ a)) back) in
    let part =
      tied s x x a m x before after.0 (λ z. ground (arith, one z, count z))
        (ground (arith, one m, count m)) (ground (arith, one x, count x))
        (ground (arith, one m, count m, ==_iff m x)) in
    (
      (
        refl,
        λ z. ground (arith, one z, count z, count' z),
        ground (arith, no_null, count 0, count' 0),
        subst (λ z. Seg u.next u.prev x z x) (sym (append-nil a)) part,
      ),
      untouched s x (x ∷ (a ++ (m ∷ []))) m (ground (arith, p_in, count p))
          (ground (arith, after.0, count x, ap (λ z. occ z (x ∷ (a ++ (m ∷ [])))) after.0)),
      ground arith,
      ground arith,
    )
remove_inner s x a m (y ∷ b) (head, one, no_null, g) =
    let u = cut s m x in
    let (before, after) = Seg-split s.next s.prev x a m (y ∷ b) x g in
    let back : s.prev m ≡ last_of x a = prev-last_of s.next s.prev x a m before in
    let in_list = occ-last_of x a in
    let count = λ (z : ℕ). occ-append z a (m ∷ y ∷ b) in
    let count' = λ (z : ℕ). occ-append z a (y ∷ b) in
    let p = s.prev m in
    let p_in : occ p (x ∷ a) ≢ 0 = ground (arith, in_list, back, ap (λ z. occ z (x ∷ a)) back) in
    let part =
      tied s x x a m y before after.0 (λ z. ground (arith, one z, count z))
        (ground (arith, one m, count m)) (ground (arith, one y, count y))
        (ground (arith, one m, one y, count m, count y, ==_iff m y)) in
    let rest =
      behind s x m y b x after.2 after.0 (ground (arith, one m, count m))
        (ground (arith, one m, count m, ==_iff m x)) (ground (arith, one y, count y, ==_iff y x))
        (ground (arith, one y, count y)) (ground (arith, p_in, one p, count p)) in
    (
      (
        refl,
        λ z. ground (arith, one z, count z, count' z),
        ground (arith, no_null, count 0, count' 0),
        Seg-append u.next u.prev x a y b x part rest,
      ),
      untouched s x (x ∷ (a ++ (m ∷ y ∷ b))) m (ground (arith, p_in, count p))
          (ground (arith, after.0, count y, ap (λ z. occ z (x ∷ (a ++ (m ∷ y ∷ b)))) after.0)),
      ground arith,
      ground arith,
    )

remove_head :
    (s : Links) (m y : ℕ) (r : List ℕ)
    → IsRing s (m ∷ y ∷ r)
    → Removed s (m ∷ y ∷ r) (y ∷ r) m (cut s m y)
unfolding occ
remove_head s m y r (head, one, no_null, g) =
    let u = cut s m y in
    let back : s.prev m ≡ last_of y r = prev-last_of s.next s.prev y r m g.2 in
    let in_list = occ-last_of y r in
    let p = s.prev m in
    let p_in : occ p (y ∷ r) ≢ 0 = ground (arith, in_list, back, ap (λ z. occ z (y ∷ r)) back) in
    let part =
      tied s y y r m y g.2 g.0 (λ z. ground (arith, one z)) (ground (arith, one m))
        (ground (arith, one y)) (ground (arith, one m, ==_iff m y)) in
    (
      (refl, λ z. ground (arith, one z), ground (arith, no_null), part),
      untouched s y (m ∷ y ∷ r) m (ground (arith, p_in))
          (ground (arith, g.0, ap (λ z. occ z (m ∷ y ∷ r)) g.0)),
      ground arith,
      ground arith,
    )

remove_only :
    (s : Links) (m : ℕ)
    → IsRing s (m ∷ [])
    → Removed s (m ∷ []) [] m (clear (record s { queue = 0 }) m)
remove_only s m v =
    (refl, λ y h o. (ground (arith, o), ground (arith, o)), ground arith, ground arith)

-- The code of __list_remove where the member is not alone, with the new head.
run_cut :
    (s : Links) (m q : ℕ)
    → (s.next m == m) ≡ false
    → (if s.queue == m then s.next m else s.queue) ≡ q
    → list_remove s m ≡ cut s m q
unfolding list_remove
run_cut s m q more head = rw more (ap (cut s m) head)

first-Removed :
    (s : Links) (m : ℕ) (r : List ℕ) → IsRing s (m ∷ r) → Removed s (m ∷ r) r m (list_remove s m)
unfolding list_remove occ
first-Removed s m [] (head, one, no_null, g) =
    let single : (s.next m == m) ≡ true = ground (arith, g.0, ==_iff (s.next m) m) in
    let run : list_remove s m ≡ clear (record s { queue = 0 }) m = rw single refl in
    subst (Removed s (m ∷ []) [] m) (sym run) (remove_only s m (head, one, no_null, g))
first-Removed s m (y ∷ r) (head, one, no_null, g) =
    let more : (s.next m == m) ≡ false =
      ground (arith, g.0, one m, ==_iff (s.next m) m, ==_iff m y) in
    let is_head : (s.queue == m) ≡ true = ground (arith, head, ==_iff s.queue m) in
    subst (Removed s (m ∷ y ∷ r) (y ∷ r) m) (sym (run_cut s m y more (rw is_head g.0)))
      (remove_head s m y r (head, one, no_null, g))

not_alone :
    (s : Links) (x : ℕ) (a : List ℕ) (m : ℕ) (b : List ℕ)
    → ((z : ℕ) → occ z (x ∷ (a ++ (m ∷ b))) ≤ 1)
    → Seg s.next s.prev m b x
    → (s.next m == m) ≡ false
unfolding occ
not_alone s x a m [] one g =
    ground (arith, one m, occ-append m a (m ∷ []), g.0, ==_iff (s.next m) m, ==_iff m x)
not_alone s x a m (y ∷ b) one g =
    ground (arith, one m, occ-append m a (m ∷ y ∷ b), g.0, ==_iff (s.next m) m, ==_iff m y)

inner-Removed :
    (s : Links) (x : ℕ) (a : List ℕ) (m : ℕ) (b : List ℕ)
    → IsRing s (x ∷ (a ++ (m ∷ b)))
    → Removed s (x ∷ (a ++ (m ∷ b))) (x ∷ (a ++ b)) m (list_remove s m)
unfolding occ
inner-Removed s x a m b (head, one, no_null, g) =
    let count = λ (z : ℕ). occ-append z a (m ∷ b) in
    let (before, after) = Seg-split s.next s.prev x a m b x g in
    let not_head : (s.queue == m) ≡ false =
      ground (arith, head, one m, count m, ==_iff s.queue m, ==_iff m x) in
    let behind_m : (s.next m == m) ≡ false = not_alone s x a m b one after in
    subst (Removed s (x ∷ (a ++ (m ∷ b))) (x ∷ (a ++ b)) m)
      (sym (run_cut s m x behind_m (rw not_head head)))
      (remove_inner s x a m b (head, one, no_null, g))

-- __list_remove takes a member out of its list and clears its links, and does not touch the members
-- of other lists.
pub list_remove_refines :
    (s : Links) (xs : List ℕ) (m : ℕ)
    → IsRing s xs
    → occ m xs ≢ 0
    → IsRing (list_remove s m) (without m xs)
      × Untouched s xs m (list_remove s m)
      × ((list_remove s m).next m ≡ 0)
      × ((list_remove s m).prev m ≡ 0)
unfolding occ without
list_remove_refines s [] m v on = absurd (on refl)
list_remove_refines s (x ∷ r) m v on = elim (Bool-cases (m == x)) [
  | inl same ↦
      let eq : m ≡ x = ground (arith, same, ==_iff m x) in
      let k = first-Removed s m r (subst (λ z. IsRing s (z ∷ r)) (sym eq) v) in
      rw same (subst (λ z. Removed s (z ∷ r) r m (list_remove s m)) eq k)
  | inr other ↦
      let (a, b, parts, rest) = in_split m r (ground (arith, on, other)) in
      let k = inner-Removed s x a m b (subst (λ z. IsRing s (x ∷ z)) parts v) in
      rw other (
        subst (λ z. Removed s (x ∷ r) (x ∷ z) m (list_remove s m)) (sym rest)
          (subst (λ z. Removed s (x ∷ z) (x ∷ (a ++ b)) m (list_remove s m)) (sym parts) k))
]
