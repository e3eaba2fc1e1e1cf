-- ===== src/Uart/Bounded.antt =====
-- A queue of bytes with at most 63 places, oldest byte first.
use zakos.Common.{
  ℕ, Bool, true, false, Option, none, some, List, [], ◌∷◌, ◌++◌, ltb, if◌then◌else◌, length,
}

-- One slot of the buffer stays free.
abbrev pub capacity : ℕ
capacity = 63

unfoldable pub tail : List ℕ → List ℕ
tail [] = []
tail (x ∷ q) = q

-- A queue that is full refuses a byte, or loses its oldest one.
unfoldable pub enqueue : List ℕ → ℕ → Bool → Bool × List ℕ
enqueue q c overwrite =
    if ltb (length q) capacity
    then (true, q ++ (c ∷ []))
    else if overwrite
    then (true, tail q ++ (c ∷ []))
    else (false, q)

unfoldable pub dequeue : List ℕ → Option ℕ × List ℕ
dequeue [] = (none, [])
dequeue (x ∷ q) = (some x, q)
