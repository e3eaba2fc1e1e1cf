-- ===== src/Processes/Tests.antt =====
-- A family of three generations, and a parent with one zombie.
use zakos.Common.{
  ℕ, ◌≡◌, ◌≢◌, refl, inl, true, false, none, some, [], ◌∷◌, ◌++◌, ◌==◌, if◌then◌else◌, occ, without,
  arith,
}
use zakos.Processes.{Family, find_init, move_all, zombify, Waited, process_wait}
use zakos.Processes.Waits.{Served, process_wait_lem, process_wait-stuck}

-- 1 is init, the parent of 2, and 2 is the parent of 3.
abbrev three : Family
three = record {
  parent = λ x. if x == 2 then 1 else if x == 3 then 2 else 0;
  children = λ x. if x == 1 then 2 ∷ [] else if x == 2 then 3 ∷ [] else [];
  zombies = λ x. [];
  pid = λ x. x;
  signals = [];
}

-- 2 has ended, and 1 has not waited for it.
abbrev one_zombie : Family
one_zombie = record three {
  zombies = λ x. if x == 1 then 2 ∷ [] else [];
  children = λ x. if x == 1 then 3 ∷ [] else [];
}

by_age : ℕ → ℕ
by_age x = x

zombify_2 :
    ((zombify 2 three 2).children 1 ++ (0 ∷ [])) ++ (zombify 2 three 2).zombies 1 ≡ 3 ∷ 0 ∷ 2 ∷ []
unfolding zombify find_init move_all without
zombify_2 = refl

process_wait_lem_example :
    (w : Waited) × (process_wait 1 three 2 none true ≡ some w) × Served three 2 none true w
process_wait_lem_example = process_wait_lem 0 three 2 none true (inl refl)

not_wanted : (z : ℕ) → occ z (one_zombie.zombies 1) ≢ 0 → one_zombie.pid z ≢ 3
unfolding occ
not_wanted z h = ground (arith, h)

process_wait-stuck_example : process_wait 1000 one_zombie 1 (some 3) false ≡ none
process_wait-stuck_example = process_wait-stuck 1000 one_zombie 1 3 false refl not_wanted
