-- ===== src/Ids/Sorted.antt =====
-- The chain of linkages is in ascending order of ids.
use zakos.Common.{
  ℕ, ◌≤◌, ◌<◌, ◌≡◌, refl, none, some, List, [], ◌∷◌, ◌++◌, ◌==◌, if◌then◌else◌, arith,
}
use zakos.Ids.{Linkage, Storage, id_min, id_max, link, get_loop}

-- The ids of the chain ascend strictly from above `lo`, up to ID_MAX.
abbrev pub Ascending : ℕ → List Linkage → Type 0
Ascending lo [] = Unit {0}
Ascending lo (c ∷ r) = (lo < c.id) × (c.id ≤ id_max) × Ascending c.id r

pub record IsValid (s : Storage) : Type 0 where
  pub ascending : Ascending 0 s.root
  pub above : id_min ≤ s.counter
  pub below : s.counter ≤ id_max

-- The last linkage of a chain that is not empty.
abbrev pub last : Linkage → List Linkage → Linkage
last c [] = c
last c (d ∷ r) = last d r

pub Ascending-weaken : (lo hi : ℕ) (xs : List Linkage) → lo ≤ hi → Ascending hi xs → Ascending lo xs
Ascending-weaken lo hi [] h a = tt
Ascending-weaken lo hi (c ∷ r) h a = (omega arith, a.1, a.2)

-- An id at or below the lower bound is not in the chain.
pub get_loop-below :
    (lo id : ℕ) (xs : List Linkage) → Ascending lo xs → id ≤ lo → get_loop xs id ≡ none
unfolding get_loop
get_loop-below lo id [] a h = refl
get_loop-below lo id (c ∷ r) a h = ground (arith, get_loop-below c.id id r a.2)

Ascending-above :
    {k : ℕ} (p n : ℕ) (front back : List Linkage) → Ascending k (front ++ (link p n ∷ back)) → k < n
Ascending-above p n [] back a = omega arith
Ascending-above p n (d ∷ xs) back a = omega (arith, Ascending-above p n xs back a.2)

-- Inserting a linkage in order adds exactly its id to the lookup.
pub get_loop-insert :
    (lo p n id : ℕ) (front back : List Linkage)
    → Ascending lo (front ++ (link p n ∷ back))
    → get_loop (front ++ (link p n ∷ back)) id
      ≡ (if n == id then some p else get_loop (front ++ back) id)
unfolding get_loop
get_loop-insert lo p n id [] back a = ground arith
get_loop-insert lo p n id (c ∷ r) back a =
    ground (arith, get_loop-insert c.id p n id r back a.2, Ascending-above p n r back a.2)

-- The id of a linkage inserted in order was not in the chain before.
pub fresh :
    (lo p n : ℕ) (front back : List Linkage)
    → Ascending lo (front ++ (link p n ∷ back))
    → get_loop (front ++ back) n ≡ none
unfolding get_loop
fresh lo p n [] back a = get_loop-below n n back a.2 (omega arith)
fresh lo p n (c ∷ r) back a =
    ground (arith, fresh c.id p n r back a.2, Ascending-above p n r back a.2)
