-- ===== src/Fat/Io/Reading.antt =====
-- fat_op_read delivers the bytes of the file.
use zakos.Common.{
  ℕ, zero, suc, ◌+◌, ◌-◌, ◌*◌, ◌%◌, ◌≤◌, ◌<◌, ◌≡◌, ◌⊎◌, refl, sym, ap, ◌∙◌, inl, inr, true, false,
  List, [], ◌∷◌, ◌++◌, leb, length, Result, ok, err, Errno, Result-cases, Option, some, arith,
  Bool-cases,
}
use mathlib.Core.List.{append_assoc}
use zakos.Fat.Table.{Ctx, sector_size, cluster2sector}
use zakos.Fat.Chain.{next}
use zakos.Fat.Chain.Seek.{Links, next-link}
use zakos.Fat.Sync.{BlockDev}
use zakos.Fat.Entries.{bytes_from, sector_offset}
use zakos.Fat.Io.{chunk_at, read_chunks}
use zakos.Fat.Io.Content.{content, content-append, content-next, bytes-content}

module _ (b : BlockDev) where
  open b use {Disk, byte, read, read_loads}

  -- The bytes from an offset on, behind those in the buffer; or a read of the device has failed.
  abbrev pub Delivers : Disk → List ℕ → ℕ → ℕ → List ℕ → Option (Result (List ℕ)) → Type 0
  Delivers d cs i n got r =
      (r ≡ some (ok (got ++ content b d cs i n)))
      ⊎ ((e : Errno) × (offs : ℕ) × (len : ℕ) × (read d offs len ≡ err e) × (r ≡ some (err e)))

  module _ (n : ℕ) (x : Ctx) (d : Disk) (c offs left : ℕ) (got : List ℕ) where
    -- Where a round reads, and how many bytes.
    abbrev where_from : ℕ
    where_from = sector_offset (cluster2sector c) + offs % sector_size

    fails_run :
        (e : Errno)
        → read d where_from (chunk_at offs left) ≡ err e
        → read_chunks b (suc n) x d c offs left got ≡ some (err e)
    unfolding read_chunks
    fails_run e f = rw (f, read_chunks) refl

    last_run :
        (buff : ℕ → ℕ)
        → read d where_from (chunk_at offs left) ≡ ok buff
        → leb left (chunk_at offs left) ≡ true
        → read_chunks b (suc n) x d c offs left got
          ≡ some (ok (got ++ bytes_from buff 0 (chunk_at offs left)))
    unfolding read_chunks
    last_run buff f l = rw (f, l, read_chunks) refl

    next_run :
        (buff : ℕ → ℕ) (h : ℕ)
        → read d where_from (chunk_at offs left) ≡ ok buff
        → leb left (chunk_at offs left) ≡ false
        → next x c ≡ ok (h, false)
        → read_chunks b (suc n) x d c offs left got
          ≡ read_chunks b n x d h
              (offs + chunk_at offs left)
              (left - chunk_at offs left)
              (got ++ bytes_from buff 0 (chunk_at offs left))
    unfolding read_chunks
    next_run buff h f l e = rw (f, l, e, read_chunks) refl

    loaded :
        (cs : List ℕ) (buff : ℕ → ℕ)
        → read d where_from (chunk_at offs left) ≡ ok buff
        → bytes_from buff 0 (chunk_at offs left)
          ≡ content b d (c ∷ cs) (offs % sector_size) (chunk_at offs left)
    loaded cs buff f =
        bytes-content b d c cs buff (offs % sector_size) 0 (chunk_at offs left) (ground arith)
          (λ j k. read_loads d where_from (chunk_at offs left) buff f j (omega (arith, k)))
        ∙ ap (λ z. content b d (c ∷ cs) z (chunk_at offs left)) {x = offs % sector_size + 0}
            {y = offs % sector_size} (omega arith)

    -- A round in a cluster, from what the rounds behind it deliver.
    round-Delivers :
        (cs : List ℕ)
        → ((buff : ℕ → ℕ)
            → read d where_from (chunk_at offs left) ≡ ok buff
            → leb left (chunk_at offs left) ≡ false
            → Delivers d
                (c ∷ cs)
                (offs % sector_size)
                left
                got
                (read_chunks b (suc n) x d c offs left got))
        → Delivers d
            (c ∷ cs)
            (offs % sector_size)
            left
            got
            (read_chunks b (suc n) x d c offs left got)
    round-Delivers cs more = elim (Result-cases (read d where_from (chunk_at offs left))) [
      | inr (e, f) ↦ inr (e, where_from, chunk_at offs left, f, fails_run e f)
      | inl (buff, f) ↦ elim (Bool-cases (leb left (chunk_at offs left))) [
        | inl last ↦
            let all : chunk_at offs left ≡ left = ground (arith, last) in
            inl (
              last_run buff f last
              ∙ ap (λ z. some (ok (got ++ z)))
                  (loaded cs buff f ∙ ap (content b d (c ∷ cs) (offs % sector_size)) all))
        | inr goes_on ↦ more buff f goes_on
      ]
    ]

    -- The bytes of this cluster and those of the next ones.
    joined :
        (h : ℕ) (r : List ℕ) (buff : ℕ → ℕ)
        → read d where_from (chunk_at offs left) ≡ ok buff
        → leb left (chunk_at offs left) ≡ false
        → (got ++ bytes_from buff 0 (chunk_at offs left))
            ++ content b d
                (h ∷ r)
                ((offs + chunk_at offs left) % sector_size)
                (left - chunk_at offs left)
          ≡ got ++ content b d (c ∷ h ∷ r) (offs % sector_size) left
    joined h r buff f l =
        let chunk = chunk_at offs left in
        let pos = offs % sector_size in
        let start : (offs + chunk) % sector_size ≡ 0 = ground (arith, l) in
        let shift : 0 + sector_size ≡ pos + chunk = ground (arith, l) in
        let total : chunk + (left - chunk) ≡ left = ground (arith, l) in
        append_assoc got (bytes_from buff 0 chunk)
          (content b d (h ∷ r) ((offs + chunk) % sector_size) (left - chunk))
        ∙ ap (λ z. got ++ z)
            (ap (λ z. z ++ content b d (h ∷ r) ((offs + chunk) % sector_size) (left - chunk))
                (loaded (h ∷ r) buff f)
              ∙ ap (λ z. content b d (c ∷ h ∷ r) pos chunk ++ z)
                  (ap (λ z. content b d (h ∷ r) z (left - chunk)) start
                    ∙ sym (content-next b d c (h ∷ r) 0 (left - chunk))
                    ∙ ap (λ z. content b d (c ∷ h ∷ r) z (left - chunk)) shift)
              ∙ content-append b d (c ∷ h ∷ r) pos chunk (left - chunk)
              ∙ ap (content b d (c ∷ h ∷ r) pos) total)

    goes_on-Delivers :
        (h : ℕ) (r : List ℕ) (buff : ℕ → ℕ)
        → read d where_from (chunk_at offs left) ≡ ok buff
        → leb left (chunk_at offs left) ≡ false
        → next x c ≡ ok (h, false)
        → Delivers d
            (h ∷ r)
            ((offs + chunk_at offs left) % sector_size)
            (left - chunk_at offs left)
            (got ++ bytes_from buff 0 (chunk_at offs left))
            (read_chunks b n x d h
              (offs + chunk_at offs left)
              (left - chunk_at offs left)
              (got ++ bytes_from buff 0 (chunk_at offs left)))
        → Delivers d
            (c ∷ h ∷ r)
            (offs % sector_size)
            left
            got
            (read_chunks b (suc n) x d c offs left got)
    goes_on-Delivers h r buff f l e rest = elim rest [
      | inl t ↦ inl (next_run buff h f l e ∙ t ∙ ap (λ z. some (ok z)) (joined h r buff f l))
      | inr (code, o, len, failed_read, t) ↦
          inr (code, o, len, failed_read, next_run buff h f l e ∙ t)
    ]

  pub read_chunks-Delivers :
      (n : ℕ) (x : Ctx) (d : Disk) (c : ℕ) (cs : List ℕ) (offs left : ℕ) (got : List ℕ)
      → left < n
      → Links x c cs
      → left + offs % sector_size ≤ sector_size * suc (length cs)
      → Delivers d (c ∷ cs) (offs % sector_size) left got (read_chunks b n x d c offs left got)
  read_chunks-Delivers zero x d c cs offs left got fuel l inside = absurd (omega arith)
  read_chunks-Delivers (suc n) x d c [] offs left got fuel l inside =
      round-Delivers n x d c offs left got [] (λ buff f more. absurd (ground (arith, more)))
  read_chunks-Delivers (suc n) x d c (h ∷ r) offs left got fuel l inside =
      round-Delivers n x d c offs left got (h ∷ r) (λ buff f more.
        let chunk = chunk_at offs left in
        goes_on-Delivers n x d c offs left got h r buff f more (next-link x c h l.0 l.1 l.2 l.3) (
          read_chunks-Delivers n x d h r (offs + chunk) (left - chunk)
            (got ++ bytes_from buff 0 chunk) (ground (arith, more)) l.4 (ground (arith, more))))
