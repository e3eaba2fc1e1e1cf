-- ===== src/Processes/Ends.antt =====
-- _process_zombify: where the children and the zombies of a process go that ends.
use zakos.Common.{ℕ, ◌+◌, ◌-◌, ◌<◌, ◌≡◌, ◌≢◌, not, ◌&&◌, ◌∷◌, ◌==◌, if◌then◌else◌, occ}
use zakos.Processes.{Family, is_empty}

-- `depth` grows from a parent to its children.
abbrev pub IsRanked : Family → (ℕ → ℕ) → Type 0
IsRanked s depth = (x : ℕ) → s.parent x ≢ 0 → depth (s.parent x) < depth x

-- What the end of `p` leaves: `init` has its children and its zombies, and `p` itself is a zombie of
-- its parent.
pub record Ended (s : Family) (p init : ℕ) (u : Family) : Type 0 where
  pub top : s.parent init ≡ 0
  pub children :
      (x o : ℕ)
      → occ x (u.children o)
        ≡ (if o == p
            then 0
            else occ x (s.children o) + (if o == init then occ x (s.children p) else 0))
          - (if (o == s.parent p) && (x == p) then 1 else 0)
  pub zombies :
      (x o : ℕ)
      → occ x (u.zombies o)
        ≡ (if o == p
            then 0
            else occ x (s.zombies o) + (if o == init then occ x (s.zombies p) else 0))
          + (if (o == s.parent p) && (x == p) then 1 else 0)
  pub parents : u.parent ≡ s.parent
  pub pids : u.pid ≡ s.pid
  pub signals :
      u.signals
      ≡ s.parent p
        ∷ (if not (s.parent p == init) && not (is_empty (s.zombies p))
            then init ∷ s.signals
            else s.signals)
