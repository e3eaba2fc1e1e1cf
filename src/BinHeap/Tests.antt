-- ===== src/BinHeap/Tests.antt =====
-- Runs of the heap at small arrays, ordered by the numbers themselves.
use zakos.Common.{ℕ, ◌≡◌, refl, compare, ◌==◌, ==_iff, if◌then◌else◌, ok, arith}
use zakos.BinHeap.{Comparator, Bheap, pop, peek}
use zakos.BinHeap.Order.{IsValid}
use zakos.BinHeap.Remove.{Popped, pop_lem}

abbrev by_value : Comparator ℕ
by_value = record {
  cmp = compare;
  same = λ a b. a == b;
  rank = λ a. a;
  cmp_rank = λ a b. refl;
  same_iff = ==_iff;
}

abbrev three : Bheap ℕ
three = record {
  array = λ i. if i == 0 then 2 else if i == 1 then 7 else 5;
  capacity = 4;
  size = 3;
}

three-IsValid : IsValid by_value three
three-IsValid = record { heap = λ i p q. ground arith; fits = omega arith; small = omega arith }

pop_lem_example :
    (x : ℕ) × (g : Bheap ℕ) × (pop by_value three ≡ ok (x, g)) × Popped by_value three x g
pop_lem_example = pop_lem by_value three three-IsValid (omega arith)

peek_test : peek three ≡ ok 2
unfolding peek
peek_test = refl
