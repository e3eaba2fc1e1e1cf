-- ===== src/Page/Start.antt =====
-- page_element_attach and page_element_merge do not change where an element starts.
use zakos.Common.{
  ℕ, ◌≡◌, refl, inl, inr, Option, none, some, List, [], ◌∷◌, ◌++◌, if◌then◌else◌, Bool-cases,
}
use zakos.Page.{Pages, adjoins, merged, place, merge_next, attach}

merge_next-start :
    (s : Pages) (pre : List ℕ) (dest : ℕ) (xs : List ℕ)
    → (merge_next s pre dest xs).0.start ≡ s.start
unfolding merge_next
merge_next-start s pre dest [] = refl
merge_next-start s pre dest (victim ∷ r) = elim (Bool-cases (adjoins s dest victim)) [
  | inl near ↦ rw near refl
  | inr far ↦ rw far refl
]

-- What page_element_attach does once the place is found.
abbrev attached_at : Pages → ℕ → List ℕ → Option (List ℕ × ℕ × List ℕ) → Pages × List ℕ
attached_at s e xs o = elim o [
  | none ↦ merge_next s [] e xs
  | some w ↦
      if adjoins s w.1 e
      then merge_next (merged s w.1 e) w.0 w.1 w.2
      else merge_next s (w.0 ++ (w.1 ∷ [])) e w.2
]

attached_at-start :
    (s : Pages) (e : ℕ) (xs : List ℕ) (o : Option (List ℕ × ℕ × List ℕ))
    → (attached_at s e xs o).0.start ≡ s.start
attached_at-start s e xs none = merge_next-start s [] e xs
attached_at-start s e xs (some w) = elim (Bool-cases (adjoins s w.1 e)) [
  | inl near ↦ rw near (merge_next-start (merged s w.1 e) w.0 w.1 w.2)
  | inr far ↦ rw far (merge_next-start s (w.0 ++ (w.1 ∷ [])) e w.2)
]

-- No element moves when one is attached.
pub attach-start : (s : Pages) (e : ℕ) (xs : List ℕ) → (attach s e xs).0.start ≡ s.start
unfolding attach
attach-start s e xs = attached_at-start s e xs (place s e xs)
