-- ===== src/Fat/Io/Content.antt =====
-- The bytes of a file on the disk.
use zakos.Common.{
  ℕ, zero, suc, ◌+◌, ◌/◌, ◌%◌, ◌≤◌, ◌<◌, ◌≡◌, refl, ap, ◌∙◌, List, [], ◌∷◌, ◌++◌, get_elem?, none,
  some, arith,
}
use zakos.Fat.Table.{sector_size, cluster2sector}
use zakos.Fat.Sync.{BlockDev}
use zakos.Fat.Entries.{bytes_from, sector_offset}

-- The cluster of a file that holds a byte.
abbrev pub cluster_at : List ℕ → ℕ → ℕ
cluster_at cs i = elim (get_elem? cs (i / sector_size)) [ none ↦ 0 | some c ↦ c ]

module _ (b : BlockDev) where
  open b use {Disk, byte, read, read_loads}

  -- A byte of a file, at its offset `at` in the cluster `c`.
  abbrev byte_in : Disk → ℕ → ℕ → ℕ
  byte_in d c at = byte d (sector_offset (cluster2sector c) + at)

  -- The bytes of a file on the disk, by its clusters, from an offset on.
  abbrev pub content : Disk → List ℕ → ℕ → ℕ → List ℕ
  content d cs i zero = []
  content d cs i (suc n) = byte_in d (cluster_at cs i) (i % sector_size) ∷ content d cs (i + 1) n

  pub content-append :
      (d : Disk) (cs : List ℕ) (i n m : ℕ)
      → content d cs i n ++ content d cs (i + n) m ≡ content d cs i (n + m)
  content-append d cs i zero m =
      ap (λ k. content d cs k m) {x = i + 0} {y = i} (omega arith)
      ∙ ap (λ k. content d cs i k) {x = m} {y = 0 + m} (omega arith)
  content-append d cs i (suc n) m =
      ap (λ z. byte_in d (cluster_at cs i) (i % sector_size) ∷ z)
        (ap (λ k. content d cs (i + 1) n ++ content d cs k m) {x = i + suc n} {y = i + 1 + n}
            (omega arith)
          ∙ content-append d cs (i + 1) n m)
      ∙ ap (λ k. content d cs i k) {x = suc (n + m)} {y = suc n + m} (omega arith)

  -- The bytes of the clusters behind the first one.
  pub content-next :
      (d : Disk) (c : ℕ) (cs : List ℕ) (i n : ℕ)
      → content d (c ∷ cs) (i + sector_size) n ≡ content d cs i n
  content-next d c cs i zero = refl
  content-next d c cs i (suc n) =
      let of_place = λ (q r : ℕ) (rest : List ℕ).
        byte_in d (elim (get_elem? (c ∷ cs) q) [ none ↦ 0 | some e ↦ e ]) r ∷ rest in
      let q : (i + sector_size) / sector_size ≡ suc (i / sector_size) = omega arith in
      let r : (i + sector_size) % sector_size ≡ i % sector_size = omega arith in
      let shift : i + sector_size + 1 ≡ i + 1 + sector_size = omega arith in
      ap
        (λ z.
          of_place z ((i + sector_size) % sector_size) (content d (c ∷ cs) (i + sector_size + 1) n))
        q
      ∙ ap (λ z. of_place (suc (i / sector_size)) z (content d (c ∷ cs) (i + sector_size + 1) n)) r
      ∙ ap (of_place (suc (i / sector_size)) (i % sector_size))
          (ap (λ z. content d (c ∷ cs) z n) shift ∙ content-next d c cs (i + 1) n)

  -- What a read in one cluster puts into the buffer.
  pub bytes-content :
      (d : Disk) (c : ℕ) (cs : List ℕ) (buff : ℕ → ℕ) (pos i len : ℕ)
      → pos + i + len ≤ sector_size
      → ((j : ℕ) → j < i + len → buff j ≡ byte d (sector_offset (cluster2sector c) + pos + j))
      → bytes_from buff i len ≡ content d (c ∷ cs) (pos + i) len
  bytes-content d c cs buff pos i zero h e = refl
  bytes-content d c cs buff pos i (suc len) h e =
      let of_place =
        λ (q r : ℕ). byte_in d (elim (get_elem? (c ∷ cs) q) [ none ↦ 0 | some e ↦ e ]) r in
      let q : 0 ≡ (pos + i) / sector_size = omega (arith, h) in
      let r : pos + i ≡ (pos + i) % sector_size = omega (arith, h) in
      let here : buff i ≡ of_place ((pos + i) / sector_size) ((pos + i) % sector_size) =
        e i (omega arith)
        ∙ ap (byte d) (omega arith)
        ∙ ap (of_place 0) r
        ∙ ap (λ z. of_place z ((pos + i) % sector_size)) q in
      ap (λ z. z ∷ bytes_from buff (i + 1) len) here
      ∙ ap (λ z. of_place ((pos + i) / sector_size) ((pos + i) % sector_size) ∷ z)
          (bytes-content d c cs buff pos (i + 1) len (omega (arith, h))
              (λ j k. e j (omega (arith, k)))
            ∙ ap (λ z. content d (c ∷ cs) z len) {x = pos + (i + 1)} {y = pos + i + 1}
                (omega arith))
