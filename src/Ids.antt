-- ===== src/Ids.antt =====
-- kernel/lib/id.c: the allocator of process and thread numbers. The chain of linkages from
-- `storage->root` is a list in the order of the `next` pointers; a linkage has its address, so
-- that id_remove compares pointers.
pub mod Sorted
pub mod Insert
pub mod Remove
mod Tests
use zakos.Common.{
  ℕ, zero, suc, ◌+◌, ◌≡◌, Bool, true, false, ◌&&◌, Option, none, some, List, [], ◌∷◌, ◌++◌, ltb,
  leb, ◌==◌, if◌then◌else◌, Result, ok, err, enomem,
}

-- `struct id_linkage`
pub record Linkage : Type 0 where
  pub ptr : ℕ
  pub id : ℕ

-- `struct id_storage`
pub record Storage : Type 0 where
  pub root : List Linkage
  pub counter : ℕ

-- ID_MIN
abbrev pub id_min : ℕ
id_min = 1

-- ID_MAX
abbrev pub id_max : ℕ
id_max = 32767

-- id_init
pub init : Storage
init = record { root = []; counter = id_min }

pub get_loop : List Linkage → ℕ → Option ℕ
get_loop [] id = none
get_loop (c ∷ r) id = if c.id == id then some c.ptr else get_loop r id

-- __id_get: the address of the linkage that carries the id.
pub get : Storage → ℕ → Option ℕ
unfolding get_loop
get s id = get_loop s.root id

-- Where the walk of __id_insert stops: the linkages passed, `curr`, those behind it, and `id`.
pub record Place : Type 0 where
  pub passed : List Linkage
  pub curr : Linkage
  pub rest : List Linkage
  pub id : ℕ

-- The `while (curr->next != NULL)` of __id_insert. `++id` cannot overflow: the next id is larger.
pub walk : ℕ → Linkage → List Linkage → Place
walk id c [] = record { passed = []; curr = c; rest = []; id = id }
walk id c (d ∷ r) =
    let w = walk (if c.id == id then id + 1 else id) d r in
    if ltb c.id id && ltb id d.id
    then record { passed = []; curr = c; rest = d ∷ r; id = id }
    else record w { passed = c ∷ w.passed }

pub choose_from : List Linkage → ℕ → ℕ → Option ℕ
choose_from [] last id =
    if leb id last then (if last == id_max then none else some (last + 1)) else some id
choose_from (d ∷ r) last id = some id

-- The id that is taken behind `curr`; `none` where the code finds ID_MAX in use.
pub choose : Place → Option ℕ
unfolding choose_from
choose w = choose_from w.rest w.curr.id w.id

abbrev pub link : ℕ → ℕ → Linkage
link p id = record { ptr = p; id = id }

abbrev pub next_counter : ℕ → ℕ
next_counter id = if id == id_max then id_min else id + 1

-- `storage` with the chain and the id that an insertion ends with.
abbrev pub filled : List Linkage → ℕ → Storage
filled chain id = record { root = chain; counter = next_counter id }

pub settle : Place → ℕ → Option Storage
settle w p = elim (choose w) [
  | none ↦ none
  | some id ↦ some (filled (w.passed ++ (w.curr ∷ link p id ∷ w.rest)) id)
]

-- One pass of __id_insert, up to the choice that follows a chain that ends with ID_MAX.
pub attempt : List Linkage → ℕ → ℕ → Option Storage
unfolding settle
attempt [] id p = some (filled (link p id ∷ []) id)
attempt (c ∷ r) id p =
    if leb c.id id then settle (walk id c r) p else some (filled (link p id ∷ c ∷ r) id)

-- __id_insert with the retries that are left: the code makes one, from ID_MIN.
pub insert_at : ℕ → Storage → ℕ → Result (Unit {0}) × Storage
insert_at zero s p = elim (attempt s.root s.counter p) [
  | none ↦ (err enomem, s)
  | some t ↦ (ok tt, t)
]
insert_at (suc n) s p =
    let again = insert_at n (record s { counter = id_min }) p in
    elim (attempt s.root s.counter p) [ none ↦ again | some t ↦ (ok tt, t) ]

-- id_insert
pub insert : Storage → ℕ → Result (Unit {0}) × Storage
insert s p = insert_at 1 s p

pub remove_loop : List Linkage → ℕ → List Linkage
remove_loop [] p = []
remove_loop (c ∷ r) p = if c.ptr == p then r else c ∷ remove_loop r p

-- id_remove
pub remove : Storage → ℕ → Storage
unfolding remove_loop
remove s p = record s { root = remove_loop s.root p }
