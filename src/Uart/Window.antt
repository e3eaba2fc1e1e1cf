-- ===== src/Uart/Window.antt =====
-- The bytes of a FIFO, oldest first.

use zakos.Common.{
  ℕ, zero, suc, ◌+◌, ◌-◌, ◌%◌, ◌<◌, ◌≡◌, ◌≢◌, refl, ap, List, [], ◌∷◌, ◌++◌, length, update, arith,
}
use zakos.Uart.{Fifo, fifo_size, next}

-- The `n` bytes from index `h` on, going round at the end of the buffer.
abbrev pub window : (ℕ → ℕ) → ℕ → ℕ → List ℕ
window b h zero = []
window b h (suc n) = b h ∷ window b (next h) n

-- How many bytes lie between the read and the write index.
abbrev pub used : Fifo → ℕ
used f = (f.wr + fifo_size - f.rd) % fifo_size

abbrev pub contents : Fifo → List ℕ
contents f = window f.buff f.rd (used f)

pub record IsValid (f : Fifo) : Type 0 where
  pub rd_in : f.rd < fifo_size
  pub wr_in : f.wr < fifo_size

pub length-window : (b : ℕ → ℕ) (h n : ℕ) → length (window b h n) ≡ n
length-window b h zero = refl
length-window b h (suc n) = ap suc (length-window b (next h) n)

-- Writing just past a window extends it by that byte.
pub window-update :
    (b : ℕ → ℕ) (x n h i : ℕ)
    → h < fifo_size
    → n < fifo_size
    → i ≡ (h + n) % fifo_size
    → window (update b i x) h (suc n) ≡ window b h n ++ (x ∷ [])
window-update b x zero h i hh hn e = ground arith
window-update b x (suc n) h i hh hn e = ground (arith, window-update b x n (next h) i)

-- `window` matches on `suc`, the code compares indices.
pub window-pos : (b : ℕ → ℕ) (h n : ℕ) → n ≢ 0 → window b h n ≡ b h ∷ window b (next h) (n - 1)
window-pos b h zero p = absurd (p refl)
window-pos b h (suc n) p = ap (λ k. window b h (suc k)) (omega arith)
