-- ===== src/Processes.antt =====
-- kernel/proc/process.c: the families of processes, from the end of one to the wait of its parent.
-- A process is its address, 0 is NULL, and a list is in the order of its pointers.
pub mod Ends
pub mod Waits
mod Tests
use zakos.Common.{
  ℕ, zero, suc, ◌+◌, Bool, true, false, not, ◌&&◌, ◌||◌, Option, none, some, List, [], ◌∷◌, ◌++◌,
  ◌==◌, if◌then◌else◌, update, without, Errno, echild, eagain,
}

-- The fields of `struct process` that link it to others, and what identifies it; `signals` are the
-- processes whose queue `wait` was signalled, the last one first.
pub record Family : Type 0 where
  pub parent : ℕ → ℕ
  pub children : ℕ → List ℕ
  pub zombies : ℕ → List ℕ
  pub pid : ℕ → ℕ
  pub signals : List ℕ

-- The search of _process_zombify for init, with a bound on the generations.
pub find_init : ℕ → Family → ℕ → ℕ
find_init zero s p = p
find_init (suc n) s p = let rest = find_init n s (s.parent p) in if s.parent p == 0 then p else rest

-- LIST_REMOVE of a process from a list, and LIST_ADD to one.
abbrev pub moved : (ℕ → List ℕ) → ℕ → ℕ → ℕ → ℕ → List ℕ
moved lists c from to =
    let taken = update lists from (without c (lists from)) in update taken to (taken to ++ (c ∷ []))

-- The two loops of _process_zombify, over the list as it is before the first round.
pub move_all : List ℕ → (ℕ → List ℕ) → ℕ → ℕ → ℕ → List ℕ
move_all [] lists p init = lists
move_all (c ∷ r) lists p init = move_all r (moved lists c p init) p init

abbrev pub signal_wait : Family → ℕ → Family
signal_wait s p = record s { signals = p ∷ s.signals }

abbrev pub is_empty : List ℕ → Bool
is_empty [] = true
is_empty (x ∷ r) = false

-- _process_zombify of a process that has a parent.
pub zombify : ℕ → Family → ℕ → Family
zombify n s p =
    let init = find_init n s (s.parent p) in
    let a = record s { children = move_all (s.children p) s.children p init } in
    let told = not (s.parent p == init) && not (is_empty (a.zombies p)) in
    let b = record a { signals = if told then init ∷ a.signals else a.signals } in
    let c = record b { zombies = move_all (b.zombies p) b.zombies p init } in
    let d = record c {
      children = update c.children (c.parent p) (without p (c.children (c.parent p)));
      zombies = update c.zombies (c.parent p) (c.zombies (c.parent p) ++ (p ∷ []));
    } in
    signal_wait d (d.parent p)

-- The search of process_wait; `none` is a negative pid.
pub find_zombie : Family → Option ℕ → List ℕ → Option ℕ
find_zombie s pid [] = none
find_zombie s pid (z ∷ r) =
    let rest = find_zombie s pid r in
    elim pid [ none ↦ some z | some k ↦ if s.pid z == k then some z else rest ]

-- What process_wait does under the critical section: it returns an error, goes to sleep in the queue
-- `wait`, or takes a zombie off the list.
pub data Waited : Type 0 where
  fails : Errno → Waited
  sleeps : Waited
  takes : ℕ → Family → Waited

-- The loop of process_wait from its head on, up to the first wait, with a bound on the rounds;
-- `none` where they do not suffice.
pub wait_loop : ℕ → Family → ℕ → Option ℕ → Option Waited
wait_loop zero s curr pid = none
wait_loop (suc n) s curr pid =
    let rest = wait_loop n s curr pid in
    if is_empty (s.zombies curr) then some sleeps else elim (find_zombie s pid (s.zombies curr)) [
      | none ↦ rest
      | some z ↦
          some (takes z (record s { zombies = update s.zombies curr (without z (s.zombies curr)) }))
    ]

-- process_wait up to where it sleeps or leaves the critical section.
pub process_wait : ℕ → Family → ℕ → Option ℕ → Bool → Option Waited
process_wait n s curr pid options =
    if is_empty (s.zombies curr) && is_empty (s.children curr)
    then some (fails echild)
    else if is_empty (s.zombies curr) && options
    then some (fails eagain)
    else wait_loop n s curr pid
