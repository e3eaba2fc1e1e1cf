-- ===== src/Fat12ro/Chunks.antt =====
-- What a round of fat12_file_read copies, and how much is read in all.
use zakos.Common.{
  ℕ, zero, suc, ◌+◌, ◌-◌, ◌%◌, ◌^◌, ◌<◌, ◌≤◌, ◌≡◌, ◌≢◌, refl, ap, ◌∙◌, false, leb, arith, ◌∷◌, ◌++◌,
  min,
}
use zakos.Fat12ro.{Fat12File, copy_out, chunk_of, read_size}

pub copy_out-same :
    (f g : ℕ → ℕ) (i k n : ℕ)
    → ((j : ℕ) → j < n → f (i + j) ≡ g (k + j))
    → copy_out f i n ≡ copy_out g k n
unfolding copy_out
copy_out-same f g i k zero h = refl
copy_out-same f g i k (suc n) h =
    let here : f i ≡ g k = ap f (omega arith) ∙ h 0 (omega arith) ∙ ap g (omega arith) in
    let next = λ (j : ℕ) (p : j < n).
      let same_f : i + 1 + j ≡ i + suc j = omega arith in
      let same_g : k + suc j ≡ k + 1 + j = omega arith in
      ap f same_f ∙ h (suc j) (omega arith) ∙ ap g same_g in
    ap (λ z. z ∷ copy_out f (i + 1) n) here
    ∙ ap (λ z. g k ∷ z) (copy_out-same f g (i + 1) (k + 1) n next)

pub copy_out-append :
    (f : ℕ → ℕ) (i n m : ℕ) → copy_out f i (n + m) ≡ copy_out f i n ++ copy_out f (i + n) m
unfolding copy_out
copy_out-append f i zero m =
    let same : 0 + m ≡ m = omega arith in
    let start : i ≡ i + 0 = omega arith in ap (copy_out f i) same ∙ ap (λ z. copy_out f z m) start
copy_out-append f i (suc n) m =
    let same : suc n + m ≡ suc (n + m) = omega arith in
    let start : i + 1 + n ≡ i + suc n = omega arith in
    ap (copy_out f i) same
    ∙ ap (λ z. f i ∷ z)
        (copy_out-append f (i + 1) n m ∙ ap (λ z. copy_out f (i + 1) n ++ copy_out f z m) start)

pub chunk_lem :
    (offs left : ℕ)
    → (chunk_of offs left ≤ left)
      × (left ≢ 0 → 0 < chunk_of offs left)
      × (offs % 512 + chunk_of offs left ≤ 512)
unfolding chunk_of
chunk_lem offs left = (ground arith, λ h. ground arith, ground arith)

pub read_size_lem :
    (file : Fat12File) (bufflen offs : ℕ)
    → bufflen < 2 ^ 16
    → file.dentry.size ≤ 2 ^ 25
    → leb file.dentry.size offs ≡ false
    → read_size file bufflen offs ≡ min 0x7FFF (min bufflen (file.dentry.size - offs))
unfolding read_size
read_size_lem file bufflen offs len size e = ground (arith, e)
