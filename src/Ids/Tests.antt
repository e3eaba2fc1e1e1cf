-- ===== src/Ids/Tests.antt =====
-- Runs of the allocator on short chains.
use zakos.Common.{ℕ, ◌≡◌, ◌⊎◌, [], ◌∷◌, ok, err, enomem, arith}
use zakos.Ids.{Storage, link, id_min, insert}
use zakos.Ids.Sorted.{IsValid}
use zakos.Ids.Insert.{Inserted, Spans, insert_lem}

-- The ids 1, 2 and 32767 are in use, and 2 is tried next.
abbrev busy : Storage
busy = record { root = link 10 1 ∷ link 20 2 ∷ link 30 32767 ∷ []; counter = 2 }

busy-IsValid : IsValid busy
busy-IsValid = record {
  ascending =
      (omega arith, omega arith, (omega arith, omega arith, (omega arith, omega arith, tt)));
  above = omega arith;
  below = omega arith;
}

insert_lem_example :
    ((n : ℕ) × (t : Storage) × (insert busy 40 ≡ (ok tt, t)) × Inserted busy 40 n t)
    ⊎ ((insert busy 40 ≡ (err enomem, record busy { counter = id_min })) × Spans id_min busy.root)
insert_lem_example = insert_lem busy 40 busy-IsValid

-- Only ID_MIN and ID_MAX are in use, and ID_MIN is tried next.
abbrev ends : Storage
ends = record { root = link 10 1 ∷ link 30 32767 ∷ []; counter = 1 }

ends-IsValid : IsValid ends
ends-IsValid = record {
  ascending = (omega arith, omega arith, (omega arith, omega arith, tt));
  above = omega arith;
  below = omega arith;
}
