-- ===== src/Ring/Tests.antt =====
-- A list of three members.
use zakos.Common.{◌≡◌, refl, [], ◌∷◌, occ, without, arith}
use zakos.Ring.{Links, list_add, list_remove}
use zakos.Ring.Refines.{IsRing, Untouched, list_add_refines}
use zakos.Ring.Removal.{list_remove_refines}

abbrev empty : Links
empty = record { next = λ x. 0; prev = λ x. 0; queue = 0 }

abbrev two : Links
two = list_add (list_add empty 10) 20

two-IsRing : IsRing two (10 ∷ 20 ∷ [])
unfolding occ
two-IsRing =
    (list_add_refines (list_add empty 10) (10 ∷ []) 20
      (list_add_refines empty [] 10 refl (omega arith) refl).0 (omega arith) refl).0

abbrev three : Links
three = list_add two 30

list_add_refines_example : IsRing three (10 ∷ 20 ∷ 30 ∷ []) × Untouched two (10 ∷ 20 ∷ []) 30 three
unfolding occ
list_add_refines_example = list_add_refines two (10 ∷ 20 ∷ []) 30 two-IsRing (omega arith) refl

list_remove_refines_example :
    IsRing (list_remove two 10) (without 10 (10 ∷ 20 ∷ []))
    × Untouched two (10 ∷ 20 ∷ []) 10 (list_remove two 10)
    × ((list_remove two 10).next 10 ≡ 0)
    × ((list_remove two 10).prev 10 ≡ 0)
unfolding occ
list_remove_refines_example = list_remove_refines two (10 ∷ 20 ∷ []) 10 two-IsRing (omega arith)

-- Forwards and backwards from the head.
links_of_three :
    three.next 20 ∷ three.next 30 ∷ three.prev 10 ∷ three.prev 30 ∷ [] ≡ 30 ∷ 10 ∷ 30 ∷ 20 ∷ []
unfolding list_add
links_of_three = refl

head_removed : (list_remove three 10).queue ≡ 20
unfolding list_add list_remove
head_removed = refl
