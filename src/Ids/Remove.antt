-- ===== src/Ids/Remove.antt =====
-- id_remove.
use zakos.Common.{
  ℕ, Bool-cases, inl, inr, ◌≡◌, ◌≢◌, refl, Bool, true, false, Option, none, some, List, [], ◌∷◌,
  ◌==◌, if◌then◌else◌, arith,
}
use zakos.Ids.{Linkage, Storage, get, get_loop, remove, remove_loop}
use zakos.Ids.Sorted.{Ascending, IsValid, Ascending-weaken, get_loop-below}

-- Two linkages of the chain never share an address.
abbrev pub has_ptr : ℕ → List Linkage → Bool
has_ptr p [] = false
has_ptr p (c ∷ r) = if c.ptr == p then true else has_ptr p r

abbrev pub Distinct : List Linkage → Type 0
Distinct [] = Unit {0}
Distinct (c ∷ r) = (has_ptr c.ptr r ≡ false) × Distinct r

-- Whether an optional address is the given one.
abbrev pub has : Option ℕ → ℕ → Bool
has none p = false
has (some q) p = q == p

remove_loop-Ascending :
    (lo p : ℕ) (xs : List Linkage) → Ascending lo xs → Ascending lo (remove_loop xs p)
unfolding remove_loop
remove_loop-Ascending lo p [] a = tt
remove_loop-Ascending lo p (c ∷ r) a = elim (Bool-cases (c.ptr == p)) [
  | inl e ↦ rw e (Ascending-weaken lo c.id r (omega arith) a.2)
  | inr e ↦ rw e (a.0, a.1, remove_loop-Ascending c.id p r a.2)
]

get_loop-absent : (p id : ℕ) (xs : List Linkage) → has_ptr p xs ≡ false → get_loop xs id ≢ some p
unfolding get_loop
get_loop-absent p id [] h = cc
get_loop-absent p id (c ∷ r) h = ground (arith, get_loop-absent p id r)

get_loop-remove :
    (lo p id : ℕ) (xs : List Linkage)
    → Ascending lo xs
    → Distinct xs
    → get_loop (remove_loop xs p) id ≡ (if has (get_loop xs id) p then none else get_loop xs id)
unfolding get_loop remove_loop
get_loop-remove lo p id [] a d = refl
get_loop-remove lo p id (c ∷ r) a d = ground (
  arith,
  get_loop-remove c.id p id r a.2 d.1,
  get_loop-below c.id id r a.2,
  get_loop-absent c.ptr id r d.0,
)

-- id_remove on a valid storage of distinct linkages keeps it valid, makes the ids of the given
-- address free, and leaves every other id and the counter as they were.
remove_lem :
    (s : Storage) (p : ℕ)
    → IsValid s
    → Distinct s.root
    → IsValid (remove s p)
      × ((id : ℕ) → get (remove s p) id ≡ (if has (get s id) p then none else get s id))
      × ((remove s p).counter ≡ s.counter)
unfolding remove get
remove_lem s p v d = (
  record {
    ascending = remove_loop-Ascending 0 p s.root v.ascending;
    above = v.above;
    below = v.below;
  },
  λ id. get_loop-remove 0 p id s.root v.ascending d,
  refl,
)
