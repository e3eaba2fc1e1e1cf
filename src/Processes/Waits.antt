-- ===== src/Processes/Waits.antt =====
-- process_wait: what it returns, when it sleeps, and when it does neither.
use zakos.Common.{
  ℕ, zero, suc, ◌≡◌, ◌≢◌, ◌⊎◌, refl, ap, ◌∙◌, inl, inr, Bool, true, false, Option, none, some, List,
  [], ◌∷◌, ◌==◌, if◌then◌else◌, update, without, occ, arith, Bool-cases, ==_iff, some_inj, echild,
  eagain,
}
use mathlib.Core.Option.{none-ne-some}
use zakos.Processes.{
  Family, is_empty, find_zombie, Waited, fails, sleeps, takes, wait_loop, process_wait,
}

-- A process that a call for this pid waits for.
abbrev pub IsWanted : Family → Option ℕ → ℕ → Type 0
IsWanted s pid z = (k : ℕ) → pid ≡ some k → s.pid z ≡ k

find_zombie_lem :
    (s : Family) (k : ℕ) (xs : List ℕ)
    → ((find_zombie s (some k) xs ≡ none) × ((z : ℕ) → occ z xs ≢ 0 → s.pid z ≢ k))
      ⊎ ((z : ℕ) × (find_zombie s (some k) xs ≡ some z) × (occ z xs ≢ 0) × (s.pid z ≡ k))
unfolding find_zombie occ
find_zombie_lem s k [] = inl (refl, λ z h. absurd (h refl))
find_zombie_lem s k (x ∷ xs) = elim (Bool-cases (s.pid x == k)) [
  | inl here ↦ inr (x, rw here refl, ground arith, ground (arith, here, ==_iff (s.pid x) k))
  | inr other ↦ elim (find_zombie_lem s k xs) [
    | inl (miss, all) ↦ inl (
      rw other miss,
      λ z h. elim (Bool-cases (z == x)) [
        | inl same ↦
            ground (arith, other, same, ==_iff z x, ap s.pid {x = z} {y = x}, ==_iff (s.pid x) k)
        | inr apart ↦ all z (ground (arith, h, apart))
      ],
    )
    | inr (z, hit, on, same) ↦ inr (z, rw other hit, ground (arith, on), same)
  ]
]

wait_loop-stuck :
    (n : ℕ) (s : Family) (curr k : ℕ)
    → is_empty (s.zombies curr) ≡ false
    → ((z : ℕ) → occ z (s.zombies curr) ≢ 0 → s.pid z ≢ k)
    → wait_loop n s curr (some k) ≡ none
unfolding wait_loop
wait_loop-stuck zero s curr k some_zombie none_wanted = refl
wait_loop-stuck (suc n) s curr k some_zombie none_wanted =
    elim (find_zombie_lem s k (s.zombies curr)) [
      | inl (miss, all) ↦
          rw (some_zombie, miss) (wait_loop-stuck n s curr k some_zombie none_wanted)
      | inr (z, hit, on, same) ↦ absurd (none_wanted z on same)
    ]

-- process_wait for one process, while there are zombies and none of them is that one, neither
-- returns nor sleeps, whatever number of rounds is allowed.
pub process_wait-stuck :
    (n : ℕ) (s : Family) (curr k : ℕ) (options : Bool)
    → is_empty (s.zombies curr) ≡ false
    → ((z : ℕ) → occ z (s.zombies curr) ≢ 0 → s.pid z ≢ k)
    → process_wait n s curr (some k) options ≡ none
unfolding process_wait
process_wait-stuck n s curr k options some_zombie none_wanted =
    rw some_zombie (wait_loop-stuck n s curr k some_zombie none_wanted)

-- The family after a zombie was taken.
abbrev pub reaped : Family → ℕ → ℕ → Family
reaped s curr z = record s { zombies = update s.zombies curr (without z (s.zombies curr)) }

-- Without zombies the call fails or sleeps; else it takes one that is wanted.
abbrev pub Served : Family → ℕ → Option ℕ → Bool → Waited → Type 0
Served s curr pid options w =
    ((is_empty (s.zombies curr) ≡ true)
      × (w ≡ (
          if is_empty (s.children curr)
          then fails echild
          else if options
          then fails eagain
          else sleeps)))
    ⊎ ((z : ℕ) × (w ≡ takes z (reaped s curr z)) × (occ z (s.zombies curr) ≢ 0) × IsWanted s pid z)

find-IsWanted :
    (s : Family) (pid : Option ℕ) (xs : List ℕ) (z : ℕ)
    → occ z xs ≢ 0
    → IsWanted s pid z
    → (y : ℕ) × (find_zombie s pid xs ≡ some y) × (occ y xs ≢ 0) × IsWanted s pid y
unfolding find_zombie occ
find-IsWanted s none [] z on wanted = absurd (on refl)
find-IsWanted s none (x ∷ xs) z on wanted =
    (x, refl, ground arith, λ k e. absurd (none-ne-some k e))
find-IsWanted s (some k) xs z on wanted = elim (find_zombie_lem s k xs) [
  | inl (miss, all) ↦ absurd (all z on (wanted k refl))
  | inr (y, hit, there, same) ↦ (y, hit, there, λ j e. same ∙ some_inj k j e)
]

-- process_wait of a process that has no zombies, or one that is wanted, comes to an end in a round:
-- without zombies it reports ECHILD without children, else EAGAIN with an option set, else it sleeps; with zombies it takes
-- one with the pid from the list, and any for a negative pid.
pub process_wait_lem :
    (n : ℕ) (s : Family) (curr : ℕ) (pid : Option ℕ) (options : Bool)
    → (is_empty (s.zombies curr) ≡ true)
      ⊎ ((z : ℕ) × (occ z (s.zombies curr) ≢ 0) × IsWanted s pid z)
    → (w : Waited) × (process_wait (suc n) s curr pid options ≡ some w)
      × Served s curr pid options w
unfolding process_wait wait_loop
process_wait_lem n s curr pid options h = elim (Bool-cases (is_empty (s.zombies curr))) [
  | inl empty ↦ elim (Bool-cases (is_empty (s.children curr))) [
    | inl alone ↦ (fails echild, rw (empty, alone) refl, inl (empty, rw alone refl))
    | inr kids ↦ elim (Bool-cases options) [
      | inl ask ↦ (fails eagain, rw (empty, kids, ask) refl, inl (empty, rw (kids, ask) refl))
      | inr block ↦ (sleeps, rw (empty, kids, block) refl, inl (empty, rw (kids, block) refl))
    ]
  ]
  | inr some_zombie ↦ elim h [
    | inl empty ↦ ground (arith, empty, some_zombie)
    | inr (z, on, wanted) ↦
        let (y, hit, there, same) = find-IsWanted s pid (s.zombies curr) z on wanted in
        (takes y (reaped s curr y), rw (some_zombie, hit) refl, inr (y, refl, there, same))
  ]
]
