-- ===== src/Ids/Insert.antt =====
-- id_insert.
use zakos.Common.{
  ℕ, ◌+◌, ◌≤◌, ◌<◌, ◌≡◌, ◌⊎◌, inl, inr, refl, ap, ◌∙◌, false, ◌&&◌, Option, none, some, List, [],
  ◌∷◌, ◌++◌, ltb, leb, ◌==◌, if◌then◌else◌, Bool-cases, Option-cases, arith, ok, err, enomem,
}
use mathlib.Core.List.{append_assoc}
use zakos.Ids.{
  Linkage, Storage, Place, id_min, id_max, link, filled, next_counter, get, walk, choose, settle,
  attempt, insert_at, insert,
}
use zakos.Ids.Sorted.{Ascending, IsValid, last, get_loop-insert, fresh}

-- What the choice at a place says of the linkages around it.
record Fits (lo : ℕ) (xs : List Linkage) (w : Place) : Type 0 where
  whole : w.passed ++ (w.curr ∷ w.rest) ≡ xs
  taken : (p n : ℕ) → choose w ≡ some n → Ascending lo (w.passed ++ (w.curr ∷ link p n ∷ w.rest))

-- A walk over an ascending chain ends at a place where the choice fits in order.
walk-Fits :
    (lo id : ℕ) (c : Linkage) (r : List Linkage)
    → Ascending lo (c ∷ r)
    → id ≤ id_max
    → Fits lo (c ∷ r) (walk id c r)
unfolding walk choose
walk-Fits lo id c [] a h = record { whole = refl; taken = λ p n e. ground arith }
walk-Fits lo id c (d ∷ r) a h = elim (Bool-cases (ltb c.id id && ltb id d.id)) [
  | inl e ↦ rw e (record { whole = refl; taken = λ p n f. ground arith })
  | inr e ↦
      let next = walk-Fits c.id (if c.id == id then id + 1 else id) d r a.2 (ground arith) in
      rw e (record { whole = ap (◌∷◌ c) next.whole; taken = λ p n f. (a.0, a.1, next.taken p n f) })
]

-- The choice fails only at the end of a chain that ends with ID_MAX.
walk-none :
    (id : ℕ) (c : Linkage) (r : List Linkage) → choose (walk id c r) ≡ none → (last c r).id ≡ id_max
unfolding walk choose
walk-none id c [] e = ground arith
walk-none id c (d ∷ r) e = ground (arith, walk-none (if c.id == id then id + 1 else id) d r)

-- An id in the chain that is not below `id` keeps the walk from ever stopping early.
walk_ahead :
    (id : ℕ) (c : Linkage) (r : List Linkage)
    → id ≤ c.id
    → Ascending c.id r
    → (last c r).id ≡ id_max
    → choose (walk id c r) ≡ none
unfolding walk choose
walk_ahead id c [] h a e = ground arith
walk_ahead id c (d ∷ r) h a e =
    let stay : (ltb c.id id && ltb id d.id) ≡ false = ground arith in
    rw stay (walk_ahead (if c.id == id then id + 1 else id) d r (ground arith) a.2 e)

-- What a successful insertion leaves behind: a valid storage in which the address is found under
-- an id that was free, and every other id is looked up as before.
pub record Inserted (s : Storage) (p n : ℕ) (t : Storage) : Type 0 where
  pub valid : IsValid t
  pub free : get s n ≡ none
  pub lookup : (j : ℕ) → get t j ≡ (if n == j then some p else get s j)
  pub range : (id_min ≤ n) × (n ≤ id_max)
  pub next : t.counter ≡ next_counter n

-- The chain holds an id that is not above `id`, and ID_MAX.
abbrev pub Spans : ℕ → List Linkage → Type 0
Spans id [] = ⊥
Spans id (c ∷ r) = (c.id ≤ id) × ((last c r).id ≡ id_max)

filled-Inserted :
    (s : Storage) (p n : ℕ) (front back : List Linkage)
    → front ++ back ≡ s.root
    → Ascending 0 (front ++ (link p n ∷ back))
    → Inserted s p n (filled (front ++ (link p n ∷ back)) n)
unfolding get
filled-Inserted s p n front back e a =
    let within = bounds front 0 a in
    record {
      valid = record { ascending = a; above = ground arith; below = ground arith };
      free = rw (← e) (fresh 0 p n front back a);
      lookup = λ j. rw (← e) (get_loop-insert 0 p n j front back a);
      range = within;
      next = refl;
    }
  where
    bounds :
        (xs : List Linkage) (k : ℕ) → Ascending k (xs ++ (link p n ∷ back)) → (k < n) × (n ≤ id_max)
    bounds [] k a = omega arith
    bounds (d ∷ xs) k a = omega (arith, bounds xs d.id a.2)

abbrev Attempted : Storage → ℕ → Option Storage → Type 0
Attempted s p o =
    ((o ≡ none) × Spans s.counter s.root)
    ⊎ ((n : ℕ) × (t : Storage) × (o ≡ some t) × Inserted s p n t)

abbrev store : List Linkage → ℕ → Storage
store xs k = record { root = xs; counter = k }

settle_lem :
    (k p : ℕ) (c : Linkage) (r : List Linkage)
    → IsValid (store (c ∷ r) k)
    → c.id ≤ k
    → Attempted (store (c ∷ r) k) p (settle (walk k c r) p)
unfolding settle
settle_lem k p c r v h =
    let w = walk k c r in
    let fits = walk-Fits 0 k c r v.ascending v.below in
    elim (Option-cases (choose w)) [
      | inl e ↦ inl (rw (e, settle), (h, walk-none k c r e))
      | inr (n, e) ↦
          let s = store (c ∷ r) k in
          let whole : (w.passed ++ (w.curr ∷ [])) ++ w.rest ≡ s.root =
            append_assoc w.passed (w.curr ∷ []) w.rest ∙ fits.whole in
          let split = append_assoc w.passed (w.curr ∷ []) (link p n ∷ w.rest) in
          inr (
            n,
            filled (w.passed ++ (w.curr ∷ link p n ∷ w.rest)) n,
            rw (e, settle),
            rw split at (
                filled-Inserted s p n (w.passed ++ (w.curr ∷ [])) w.rest whole
                  (rw split (fits.taken p n e))),
          )
    ]

attempt_lem :
    (xs : List Linkage) (k p : ℕ) → IsValid (store xs k) → Attempted (store xs k) p (attempt xs k p)
unfolding attempt
attempt_lem [] k p v =
    inr (k, _, refl, filled-Inserted (store [] k) p k [] [] refl (v.above, v.below, tt))
attempt_lem (c ∷ r) k p v = elim (Bool-cases (leb c.id k)) [
  | inl e ↦ rw e (settle_lem k p c r v (ground arith))
  | inr e ↦ rw e (
      inr (
        k,
        _,
        refl,
        filled-Inserted (store (c ∷ r) k) p k [] (c ∷ r) refl
            (v.above, v.below, (ground arith, v.ascending.1, v.ascending.2)),
      ))
]

-- What an insertion leaves behind does not mention the counter that it started from.
Inserted-counter :
    (xs : List Linkage) (k j p n : ℕ) (t : Storage)
    → Inserted (store xs k) p n t
    → Inserted (store xs j) p n t
unfolding get
Inserted-counter xs k j p n t done = record {
  valid = done.valid;
  free = done.free;
  lookup = done.lookup;
  range = done.range;
  next = done.next;
}

-- id_insert on a valid storage either inserts the linkage under an id that was free, or fails
-- with ENOMEM and leaves the chain as it was, and then the chain holds ID_MIN and ID_MAX.
pub insert_lem :
    (s : Storage) (p : ℕ)
    → IsValid s
    → ((n : ℕ) × (t : Storage) × (insert s p ≡ (ok tt, t)) × Inserted s p n t)
      ⊎ ((insert s p ≡ (err enomem, record s { counter = id_min })) × Spans id_min s.root)
unfolding insert insert_at
insert_lem s p v = elim (attempt_lem s.root s.counter p v) [
  | inr (n, t, e, done) ↦ inl (n, t, ground (arith, e), done)
  | inl (e, full) ↦
      let again : IsValid (store s.root id_min) = record {
        ascending = v.ascending;
        above = omega arith;
        below = omega arith;
      } in
      elim (attempt_lem s.root id_min p again) [
        | inr (n, t, f, done) ↦
            inl (n, t, ground (arith, e, f), Inserted-counter s.root id_min s.counter p n t done)
        | inl (f, spans) ↦ inr (ground (arith, e, f), spans)
      ]
]

attempt_spans :
    (c : Linkage) (r : List Linkage) (p : ℕ)
    → IsValid (store (c ∷ r) id_min)
    → c.id ≡ id_min
    → (last c r).id ≡ id_max
    → attempt (c ∷ r) id_min p ≡ none
unfolding attempt settle
attempt_spans c r p v low high =
    let full = walk_ahead id_min c r (omega arith) v.ascending.2 high in ground (arith, full)

-- id_insert fails on every valid chain that starts with ID_MIN and ends with ID_MAX when the
-- counter is ID_MIN, whatever ids between them are free.
insert-spurious :
    (c : Linkage) (r : List Linkage) (p : ℕ)
    → IsValid (record { root = c ∷ r; counter = id_min })
    → c.id ≡ id_min
    → (last c r).id ≡ id_max
    → (insert (record { root = c ∷ r; counter = id_min }) p).0 ≡ err enomem
unfolding insert insert_at
insert-spurious c r p v low high = ground (arith, attempt_spans c r p v low high)
