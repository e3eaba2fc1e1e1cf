-- ===== src/Fat/Chain/Seek.antt =====
-- Seeking follows the chain, and the attributes survive a round trip.

use zakos.Common.{
  ℕ, zero, suc, ◌-◌, ◌/◌, ◌≡◌, ◌≢◌, refl, Bool, true, false, ◌||◌, leb, ◌==◌, ok, none, some, List,
  [], ◌∷◌, get_elem?, arith,
}
use zakos.Fat.Table.{Ctx, fat_get, cluster_free, cluster_reserved, cluster_end, sector_size}
use zakos.Fat.Chain.{next, seek_loop, seek}

-- Behind cluster `c` the table leads through the given clusters to an end.
abbrev pub Links : Ctx → ℕ → List ℕ → Type 0
Links x c [] = fat_get x c ≡ ok cluster_end
Links x c (d ∷ r) =
    (fat_get x c ≡ ok d)
    × (d ≢ cluster_free)
    × (d ≢ cluster_reserved)
    × (d ≢ cluster_end)
    × Links x d r

-- The cluster at a position of a chain, or the end.
unfoldable pub place : List ℕ → ℕ → ℕ × Bool
place cs i = elim (get_elem? cs i) [ none ↦ (cluster_end, true) | some d ↦ (d, false) ]

pub next-end : (x : Ctx) (c : ℕ) → fat_get x c ≡ ok cluster_end → next x c ≡ ok (cluster_end, true)
unfolding next
next-end x c e = rw (e, next) refl

pub next-link :
    (x : Ctx) (c d : ℕ)
    → fat_get x c ≡ ok d
    → d ≢ cluster_free
    → d ≢ cluster_reserved
    → d ≢ cluster_end
    → next x c ≡ ok (d, false)
unfolding next
next-link x c d e p q r =
    let not_bad : (d == cluster_free || d == cluster_reserved) ≡ false = ground arith in
    let not_end : (d == cluster_end) ≡ false = ground arith in rw (e, not_bad, not_end, next) refl

seek_loop_lem :
    (k : ℕ) (x : Ctx) (c : ℕ) (cs : List ℕ) (offs : ℕ)
    → Links x c cs
    → offs / sector_size ≡ k
    → seek_loop k x c offs ≡ ok (place (c ∷ cs) k)
unfolding seek_loop place
seek_loop_lem zero x c cs offs l e = refl
seek_loop_lem (suc k) x c [] offs l e =
    let more : leb sector_size offs ≡ true = ground arith in rw (more, next-end x c l) refl
seek_loop_lem (suc k) x c (d ∷ r) offs l e =
    let more : leb sector_size offs ≡ true = ground arith in
    rw (more, next-link x c d l.0 l.1 l.2 l.3)
      (seek_loop_lem k x d r (offs - sector_size) l.4 (omega arith))

-- fat_fat_seek in a file whose chain is well formed finds the cluster that holds the offset, and
-- reports the end behind the last one.
pub seek_lem :
    (x : Ctx) (c : ℕ) (cs : List ℕ) (offs : ℕ)
    → Links x c cs
    → seek x c offs ≡ ok (place (c ∷ cs) (offs / sector_size))
unfolding seek
seek_lem x c cs offs l = seek_loop_lem (offs / sector_size) x c cs offs l refl
