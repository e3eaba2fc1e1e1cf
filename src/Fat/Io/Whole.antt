-- ===== src/Fat/Io/Whole.antt =====
-- fat_op_read as a whole.
use zakos.Common.{
  ℕ, zero, suc, ◌+◌, ◌-◌, ◌*◌, ◌/◌, ◌%◌, ◌^◌, ◌≤◌, ◌<◌, ◌≡◌, refl, sym, ap, ◌∙◌, inl, inr, true,
  false, List, [], ◌∷◌, leb, min, length, ok, some, arith, Bool-cases,
}
use zakos.Fat.Table.{Ctx, sector_size}
use zakos.Fat.Chain.{seek}
use zakos.Fat.Chain.Seek.{Links, place, seek_lem}
use zakos.Fat.Sync.{BlockDev}
use zakos.Fat.Io.{File, read_length, read_chunks, fat_read}
use zakos.Fat.Io.Content.{content, content-next}
use zakos.Fat.Io.Reading.{Delivers, read_chunks-Delivers}

-- The number of bytes that a read delivers.
abbrev pub readable : ℕ → ℕ → ℕ → ℕ
readable size bufflen offs = min (min bufflen (size - offs)) 0x7FFF

read_length_lem :
    (size bufflen offs : ℕ)
    → offs < size
    → bufflen < 2 ^ 16
    → offs + bufflen < 2 ^ 32
    → read_length size bufflen offs ≡ readable size bufflen offs
read_length_lem size bufflen offs h k s = ground arith

module _ (b : BlockDev) where
  open b use {Disk}

  -- The part of a chain from a cluster on.
  record Behind (x : Ctx) (d : Disk) (cs : List ℕ) (k : ℕ) : Type 0 where
    cluster : ℕ
    rest : List ℕ
    found : place cs k ≡ (cluster, false)
    links : Links x cluster rest
    same_length : length (cluster ∷ rest) + k ≡ length cs
    same_bytes :
        (i n : ℕ) → content b d (cluster ∷ rest) i n ≡ content b d cs (i + k * sector_size) n

  behind :
      (x : Ctx) (d : Disk) (c : ℕ) (cs : List ℕ) (k : ℕ)
      → Links x c cs
      → k ≤ length cs
      → Behind x d (c ∷ cs) k
  unfolding place
  behind x d c cs zero l h = record {
    cluster = c;
    rest = cs;
    found = refl;
    links = l;
    same_length = omega arith;
    same_bytes =
        λ i n. ap (λ z. content b d (c ∷ cs) z n) {x = i} {y = i + 0 * sector_size} (omega arith);
  }
  behind x d c [] (suc k) l h = absurd (omega (arith, h))
  behind x d c (e ∷ r) (suc k) l h =
      let t = behind x d e r k l.4 (omega (arith, h)) in
      record {
        cluster = t.cluster;
        rest = t.rest;
        found = t.found;
        links = t.links;
        same_length = omega (arith, t.same_length);
        same_bytes = λ i n.
            t.same_bytes i n
            ∙ sym (content-next b d c (e ∷ r) (i + k * sector_size) n)
            ∙ ap (λ z. content b d (c ∷ e ∷ r) z n) {x = i + k * sector_size + sector_size}
                {y = i + suc k * sector_size} (omega arith);
      }

  sought_run :
      (x : Ctx) (d : Disk) (file : File) (bufflen offs c : ℕ)
      → leb file.size offs ≡ false
      → seek x file.first offs ≡ ok (c, false)
      → fat_read b x d file bufflen offs
        ≡ read_chunks b
            (suc (read_length file.size bufflen offs))
            x
            d
            c
            offs
            (read_length file.size bufflen offs)
            []
  unfolding fat_read
  sought_run x d file bufflen offs c inside e = rw (inside, e, fat_read) refl

  behind_end :
      (x : Ctx) (d : Disk) (file : File) (bufflen offs : ℕ)
      → leb file.size offs ≡ true
      → fat_read b x d file bufflen offs ≡ some (ok [])
  unfolding fat_read
  behind_end x d file bufflen offs e = rw e refl

  -- fat_op_read of a file whose chain is long enough for its size, at an offset and a length whose
  -- sum has 32 bits: it delivers the bytes of the file from the offset on, up to the length, the end
  -- of the file and 32767; or a read of the block device has failed, and it reports that error.
  pub fat_read-Delivers :
      (x : Ctx) (d : Disk) (file : File) (cs : List ℕ) (bufflen offs : ℕ)
      → Links x file.first cs
      → file.size ≤ sector_size * suc (length cs)
      → bufflen < 2 ^ 16
      → offs + bufflen < 2 ^ 32
      → Delivers b d
          (file.first ∷ cs)
          offs
          (readable file.size bufflen offs)
          []
          (fat_read b x d file bufflen offs)
  fat_read-Delivers x d file cs bufflen offs l long short wide =
      elim (Bool-cases (leb file.size offs)) [
        | inl e ↦
            let nothing : 0 ≡ readable file.size bufflen offs = ground (arith, e) in
            inl (
              behind_end x d file bufflen offs e
              ∙ ap (λ n. some (ok (content b d (file.first ∷ cs) offs n))) nothing)
        | inr e ↦
            let k = offs / sector_size in
            let n = read_length file.size bufflen offs in
            let m = readable file.size bufflen offs in
            let t = behind x d file.first cs k l (ground (arith, e, long)) in
            let len : n ≡ m =
              read_length_lem file.size bufflen offs (ground (arith, e)) short wide in
            let run =
              sought_run x d file bufflen offs t.cluster e
                (seek_lem x file.first cs offs l ∙ ap ok t.found) in
            let got =
              read_chunks-Delivers b (suc n) x d t.cluster t.rest offs n [] (omega arith) t.links
                (ground (arith, len, t.same_length, long, e)) in
            let bytes : content b d (t.cluster ∷ t.rest) (offs % sector_size) n
                ≡ content b d (file.first ∷ cs) offs m =
              t.same_bytes (offs % sector_size) n
              ∙ ap (λ z. content b d (file.first ∷ cs) z n)
                  {x = offs % sector_size + k * sector_size} {y = offs} (omega arith)
              ∙ ap (content b d (file.first ∷ cs) offs) len in
            elim got [
              | inl r ↦ inl (run ∙ r ∙ ap (λ z. some (ok z)) bytes)
              | inr (code, o, w, f, r) ↦ inr (code, o, w, f, run ∙ r)
            ]
      ]
