-- ===== src/Fat/Names.antt =====
-- The 8.3 names of kernel/fs/fat.c: how fat_op_create writes a name into an entry, and how
-- fat_op_readdir shows it. A name is the list of its characters; toupper is a parameter.
pub mod Trim
pub mod Shown
use zakos.Common.{
  ℕ, zero, suc, ◌+◌, ◌-◌, Bool, true, false, List, [], ◌∷◌, ◌++◌, ◌==◌, if◌then◌else◌, length, take,
  Result, ok, err, eio, enametoolong,
}

abbrev pub space : ℕ
space = 0x20

abbrev pub dot : ℕ
dot = 0x2E

-- The part of a field that no character is copied to.
unfoldable pub spaces : ℕ → List ℕ
spaces zero = []
spaces (suc k) = space ∷ spaces k

module _ (toupper : ℕ → ℕ) where
  -- The loop over the characters of the name; with it, the characters that it leaves.
  unfoldable pub fill_fname : ℕ → List ℕ → List ℕ × List ℕ
  fill_fname zero name = ([], name)
  fill_fname (suc k) [] = (spaces (suc k), [])
  fill_fname (suc k) (c ∷ name) =
      let (field, left) = fill_fname k name in
      if c == dot then (spaces (suc k), c ∷ name) else (toupper c ∷ field, left)

  -- The loop over the characters of the extension.
  unfoldable pub fill_extension : ℕ → List ℕ → List ℕ × List ℕ
  fill_extension zero name = ([], name)
  fill_extension (suc k) [] = (spaces (suc k), [])
  fill_extension (suc k) (c ∷ name) =
      let (field, left) = fill_extension k name in (toupper c ∷ field, left)

  -- The extension, behind a '.'.
  unfoldable pub skip_dot : List ℕ → List ℕ × List ℕ
  skip_dot [] = (spaces 3, [])
  skip_dot (c ∷ name) = if c == dot then fill_extension 3 name else (spaces 3, c ∷ name)

  -- The name and the extension of the entry that fat_op_create makes.
  unfoldable pub entry_name : List ℕ → Result (List ℕ × List ℕ)
  entry_name name =
      let (fname, left) = fill_fname 8 name in
      let (extension, rest) = skip_dot left in
      elim rest [ [] ↦ ok (fname, extension) | _ ∷ _ ↦ err enametoolong ]

-- The loops that go back over the spaces at the end.
unfoldable pub trim : List ℕ → List ℕ
trim [] = []
trim (c ∷ name) = elim (trim name) [ [] ↦ if c == space then [] else c ∷ [] | d ∷ r ↦ c ∷ d ∷ r ]

-- The name that fat_op_readdir shows.
unfoldable pub shown_name : List ℕ → List ℕ → Result (List ℕ)
shown_name fname extension =
    let front = trim fname in
    let len = length (trim (front ++ (space ∷ extension))) in
    let mark = if len == length front + 1 then space else dot in
    let shown = take len (front ++ (mark ∷ extension)) in
    elim front [ [] ↦ err eio | _ ∷ _ ↦ ok shown ]
