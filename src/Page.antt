-- ===== src/Page.antt =====
-- kernel/mem/page.c: the allocator of pages. An element of the pool is its index; each field of
-- `struct page_element` is a function from indices, and a list is the list of its elements in the
-- order of the pointers.
pub mod Cover
pub mod Merge
pub mod Attach
pub mod Start
pub mod Moves
pub mod Split
pub mod Init
pub mod Alloc
pub mod Cut
pub mod Free
pub mod Middle
mod Tests
use zakos.Common.{
  ℕ, zero, suc, ◌+◌, ◌-◌, ◌%◌, Bool, true, false, ◌&&◌, Option, none, some, List, [], ◌∷◌, ◌++◌,
  ltb, leb, ◌==◌, if◌then◌else◌, update, without,
}

-- `common` without the lock. The bits of `used` from 15 on are one: `1 << 15` is negative in 16
-- bits, so it sets, clears and tests them all, and `1 << i` is 0 for every `i` behind it.
pub record Pages : Type 0 where
  pub start : ℕ → ℕ
  pub length : ℕ → ℕ
  pub owner : ℕ → ℕ
  pub callback : ℕ → ℕ
  pub used : ℕ → Bool
  pub free : List ℕ
  pub alloc : List ℕ

-- The number of elements that have a bit of their own.
abbrev pub marked_no : ℕ
marked_no = 16

-- The loop of page_element_alloc from element `i` on, with the number of elements left.
pub find_unused : ℕ → ℕ → (ℕ → Bool) → Option ℕ
find_unused zero i used = none
find_unused (suc n) i used =
    let rest = find_unused n (i + 1) used in if ltb i marked_no && used i then rest else some i

-- The bits after an element is marked.
abbrev pub mark : (ℕ → Bool) → ℕ → Bool → ℕ → Bool
mark used e b i = if ltb e marked_no && (e == i) then b else used i

-- page_element_alloc
pub element_alloc : Pages → Option ℕ × Pages
element_alloc s = elim (find_unused 32 0 s.used) [
  | none ↦ (none, s)
  | some e ↦ (some e, record s { used = mark s.used e true })
]

-- page_element_free
abbrev pub element_free : Pages → ℕ → Pages
element_free s e = record s { used = mark s.used e false }

-- The test of page_element_merge.
abbrev pub adjoins : Pages → ℕ → ℕ → Bool
adjoins s dest victim =
    (s.start dest + s.length dest == s.start victim) && (s.owner dest == s.owner victim)

-- page_element_merge, but for the list.
abbrev pub merged : Pages → ℕ → ℕ → Pages
merged s dest victim =
    element_free
      (record s { length = update s.length dest ((s.length dest + s.length victim) % 256) }) victim

-- The search of page_element_attach: what is before the place, the element there, and the rest.
pub place : Pages → ℕ → List ℕ → Option (List ℕ × ℕ × List ℕ)
place s e [] = none
place s e (it ∷ r) =
    let rest = place s e r in
    if ltb (s.start e) (s.start it)
    then elim rest [ none ↦ none | some w ↦ some (it ∷ w.0, w.1, w.2) ]
    else some ([], it, r)

-- page_element_merge of an element, behind `pre`, with the next one.
pub merge_next : Pages → List ℕ → ℕ → List ℕ → Pages × List ℕ
merge_next s pre dest [] = (s, pre ++ (dest ∷ []))
merge_next s pre dest (victim ∷ r) =
    if adjoins s dest victim
    then (merged s dest victim, pre ++ (dest ∷ r))
    else (s, pre ++ (dest ∷ victim ∷ r))

-- page_element_attach
pub attach : Pages → ℕ → List ℕ → Pages × List ℕ
attach s e xs = elim (place s e xs) [
  | none ↦ merge_next s [] e xs
  | some w ↦
      if adjoins s w.1 e
      then merge_next (merged s w.1 e) w.0 w.1 w.2
      else merge_next s (w.0 ++ (w.1 ∷ [])) e w.2
]

-- page_element_split; a new element that is not needed stays marked.
pub split : Pages → ℕ → ℕ → Option ℕ × Pages
split s victim pages =
    let n = element_alloc s in
    let u = n.1 in
    elim n.0 [
      | none ↦ (none, u)
      | some newborn ↦ if leb (u.length victim) pages then (none, u) else (
        some newborn,
        record u {
          start =
              update (update u.start newborn (u.start victim)) victim
                ((u.start victim + pages) % 256);
          length = update (update u.length newborn pages) victim (u.length victim - pages);
        },
      )
    ]

-- The search of page_alloc_callback.
pub find_fit : Pages → ℕ → List ℕ → Option ℕ
find_fit s pages [] = none
find_fit s pages (e ∷ r) =
    let rest = find_fit s pages r in if ltb (s.length e) pages then rest else some e

-- The end of page_alloc_callback, for the element that is handed out.
pub hand_out : Pages → ℕ → ℕ → ℕ → ℕ × Pages
hand_out s e owner callback =
    let u = record s { callback = update s.callback e callback; owner = update s.owner e owner } in
    let a = attach u e u.alloc in (u.start e, record a.0 { alloc = a.1 })

-- page_alloc_callback; `none` where the code goes through NULL.
pub page_alloc : Pages → ℕ → ℕ → ℕ → Option (ℕ × Pages)
page_alloc s owner pages callback = elim (find_fit s pages s.free) [
  | none ↦ some (0, s)
  | some curr ↦
      let p = split s curr pages in
      if s.length curr == pages
      then some (hand_out (record s { free = without curr s.free }) curr owner callback)
      else elim p.0 [ none ↦ none | some e ↦ some (hand_out p.1 e owner callback) ]
]

-- The search of page_free.
pub find_block : Pages → ℕ → List ℕ → Option ℕ
find_block s page [] = none
find_block s page (e ∷ r) =
    let rest = find_block s page r in
    if leb (s.start e) page && ltb page (s.start e + s.length e) then some e else rest

-- A split-off element goes back to the list of the allocated ones.
abbrev pub attach_alloc : Pages → ℕ → Pages
attach_alloc s e = let a = attach s e s.alloc in record a.0 { alloc = a.1 }

-- The part of page_free for a range that does not start with its block: the element to be freed.
pub cut_middle : Pages → ℕ → ℕ → ℕ → Option (ℕ × Pages)
cut_middle s curr page pages =
    let p = split s curr (page - s.start curr) in
    elim p.0 [
      | none ↦ none
      | some t ↦
          let u = attach_alloc (record p.1 { alloc = without curr p.1.alloc }) t in
          let q = split u curr (u.length curr - pages) in
          if ltb pages (u.length curr)
          then (elim q.0 [ none ↦ none | some v ↦ some (v, attach_alloc q.1 curr) ])
          else some (curr, u)
    ]

-- A round of page_free for the block that was found: the element to be freed.
pub cut : Pages → ℕ → ℕ → ℕ → Option (ℕ × Pages)
cut s curr page pages =
    let p = split s curr pages in
    if s.start curr == page
    then (if ltb pages (s.length curr)
        then (elim p.0 [ none ↦ none | some e ↦ some (e, p.1) ])
        else some (curr, record s { alloc = without curr s.alloc }))
    else cut_middle s curr page pages

-- A round of page_free: the element that is freed, its length, and the state.
pub free_round : Pages → ℕ → ℕ → ℕ → Option (ℕ × ℕ × Pages)
free_round s curr page pages = elim (cut s curr page pages) [
  | none ↦ none
  | some (e, u) ↦ let a = attach u e u.free in some (e, u.length e, record a.0 { free = a.1 })
]

-- Where page_free ends: it returns, or it goes through NULL. With pages left it is `astray`: it goes
-- on with a page and a number of pages from the element that it has freed, along a list that is not
-- the one of the allocated elements; that is as far as it is followed.
pub data Freeing : Type 0 where
  freed : Pages → Freeing
  through_null : Freeing
  astray : ℕ → ℕ → ℕ → Pages → Freeing

-- page_free
pub page_free : Pages → ℕ → ℕ → Freeing
page_free s page pages = if pages == 0 then freed s else elim (find_block s page s.alloc) [
  | none ↦ freed s
  | some curr ↦ elim (free_round s curr page pages) [
    | none ↦ through_null
    | some (e, n, u) ↦
        let left = (pages + 256 - n) % 256 in
        if left == 0 then freed u else astray e ((page + n) % 256) left u
  ]
]

-- page_init
pub page_init : Pages → ℕ → ℕ → Option Pages
page_init s start pages =
    let n = element_alloc s in
    elim n.0 [
      | none ↦ none
      | some e ↦
          let u = record n.1 {
            start = update n.1.start e start;
            length = update n.1.length e pages;
            owner = update n.1.owner e 0;
          } in
          let a = attach u e u.free in some (record a.0 { free = a.1 })
    ]
