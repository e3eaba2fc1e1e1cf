-- ===== src/Fat12ro/Seek.antt =====
-- fat12_file_seek, which goes on from the cluster that was found last, finds what a walk from the
-- first cluster finds.
use zakos.Common.{
  ℕ, zero, suc, ◌+◌, ◌-◌, ◌≡◌, refl, sym, ap, subst, ◌∙◌, inl, inr, Bool, true, false, ltb,
  if◌then◌else◌, arith, Bool-cases,
}
use zakos.Fat12ro.{
  Fat12Fs, Fat12File, Sought, there, eof, lost, follow, fat12_seek_loop, index_of, fat12_file_seek,
}

-- A walk after one step.
abbrev pub on_walk : Sought → ℕ → Sought × ℕ → Sought × ℕ
on_walk there c rest = rest
on_walk eof c rest = (eof, c)
on_walk (lost e) c rest = (lost e, c)

-- The cluster that lies `n` entries behind a cluster, if the chain goes so far; else the last one.
unfoldable pub nth_cluster : Fat12Fs → ℕ → ℕ → Sought × ℕ
nth_cluster fs zero c = (there, c)
nth_cluster fs (suc n) c =
    let step = follow fs c in let rest = nth_cluster fs n step.1 in on_walk step.0 c rest

-- The file remembers a cluster of its own: the one that its last offset is in.
abbrev pub IsPlaced : Fat12Fs → Fat12File → Type 0
IsPlaced fs file =
    nth_cluster fs (index_of file.recent_offs) file.dentry.cluster ≡ (there, file.recent_cluster)

extend :
    (o : Sought) (c d : ℕ) (x y z : Sought × ℕ)
    → on_walk o c x ≡ (there, d)
    → (x ≡ (there, d) → y ≡ z)
    → on_walk o c y ≡ z
extend there c d x y z h k = k h
extend eof c d x y z h k = absurd (cc)
extend (lost e) c d x y z h k = absurd (cc)

nth_cluster-there :
    (fs : Fat12Fs) (n m c d : ℕ)
    → nth_cluster fs n c ≡ (there, d)
    → nth_cluster fs (n + m) c ≡ nth_cluster fs m d
unfolding nth_cluster
nth_cluster-there fs zero m c d h =
    let same : 0 + m ≡ m = omega arith in rw same (ap (λ z. nth_cluster fs m z.1) h)
nth_cluster-there fs (suc n) m c d h =
    let same : suc n + m ≡ suc (n + m) = omega arith in
    let step = follow fs c in
    rw same (
      extend step.0 c d (nth_cluster fs n step.1) (nth_cluster fs (n + m) step.1)
        (nth_cluster fs m d) h (nth_cluster-there fs n m step.1 d))

-- Where the walk has come after a step, the file's cluster is.
abbrev placed : Fat12File → Sought × ℕ → Sought × Fat12File
placed file w = (w.0, record file { recent_cluster = w.1 })

turn :
    (o : Sought) (file : Fat12File) (r : Sought × Fat12File) (w : Sought × ℕ)
    → r ≡ placed file w
    → (elim o [ there ↦ r | eof ↦ (eof, file) | lost e ↦ (lost e, file) ])
      ≡ placed file (on_walk o file.recent_cluster w)
turn there file r w h = h
turn eof file r w h = refl
turn (lost e) file r w h = refl

fat12_seek_loop-nth_cluster :
    (n : ℕ) (fs : Fat12Fs) (file : Fat12File)
    → fat12_seek_loop n fs file ≡ placed file (nth_cluster fs n file.recent_cluster)
unfolding fat12_seek_loop nth_cluster
fat12_seek_loop-nth_cluster zero fs file = refl
fat12_seek_loop-nth_cluster (suc n) fs file =
    let step = follow fs file.recent_cluster in
    turn step.0 file _ (nth_cluster fs n step.1)
      (fat12_seek_loop-nth_cluster n fs (record file { recent_cluster = step.1 }))

abbrev pub is_there : Sought → Bool
is_there there = true
is_there _ = false

-- The outcome of a walk to an offset.
abbrev pub finished : Fat12File → ℕ → Sought × ℕ → Sought × Fat12File
finished file offs w = (
  w.0,
  record file {
    recent_cluster = w.1;
    recent_offs = if is_there w.0 then offs else file.recent_offs;
  },
)

-- The end of fat12_file_seek.
abbrev close_seek : ℕ → Sought × Fat12File → Sought × Fat12File
close_seek offs r = elim r.0 [
  | there ↦ (there, record r.1 { recent_offs = offs })
  | eof ↦ r
  | lost e ↦ r
]

finish :
    (o : Sought) (c : ℕ) (file : Fat12File) (offs : ℕ)
    → close_seek offs (placed file (o, c)) ≡ finished file offs (o, c)
finish there c file offs = refl
finish eof c file offs = refl
finish (lost e) c file offs = refl

-- fat12_file_seek of a file that remembers a cluster of its own: the outcome, and the cluster that
-- the file then remembers, are those of the walk from the file's first cluster, whatever it
-- remembered; where the walk gets there the file remembers a cluster of its own again.
pub fat12_file_seek_lem :
    (fs : Fat12Fs) (file : Fat12File) (offs : ℕ)
    → IsPlaced fs file
    → (fat12_file_seek fs file offs
        ≡ finished file offs (nth_cluster fs (index_of offs) file.dentry.cluster))
      × ((nth_cluster fs (index_of offs) file.dentry.cluster).0 ≡ there
          → IsPlaced fs (fat12_file_seek fs file offs).1)
unfolding fat12_file_seek
fat12_file_seek_lem fs file offs h =
    let last = index_of file.recent_offs in
    let new = index_of offs in
    let start = file.dentry.cluster in
    let w = nth_cluster fs new start in
    let again = fat12_seek_loop new fs (record file { recent_cluster = start }) in
    let on = fat12_seek_loop (new - last) fs file in
    let run : (if ltb new last then again else on) ≡ placed file w =
      elim (Bool-cases (ltb new last)) [
        | inl e ↦
            ap (λ b. if b then again else on) e
            ∙ fat12_seek_loop-nth_cluster new fs (record file { recent_cluster = start })
        | inr e ↦
            let split : last + (new - last) ≡ new = ground (arith, e) in
            ap (λ b. if b then again else on) e
            ∙ fat12_seek_loop-nth_cluster (new - last) fs file
            ∙ ap (placed file) (
                sym (nth_cluster-there fs last (new - last) start file.recent_cluster h)
                ∙ ap (λ z. nth_cluster fs z start) split)
      ] in
    let whole : fat12_file_seek fs file offs ≡ finished file offs w =
      ap (close_seek offs) run ∙ finish w.0 w.1 file offs in
    (
      whole,
      λ e.
          subst (λ z. IsPlaced fs z.1) (sym whole)
            (ap
                (λ o.
                  nth_cluster fs (index_of (if is_there o then offs else file.recent_offs)) start)
                e
              ∙ ap (λ o. (o, w.1)) e),
    )

-- A seek inside the sector that the file is in.
seek-here :
    (fs : Fat12Fs) (file : Fat12File) (offs : ℕ)
    → index_of offs ≡ index_of file.recent_offs
    → fat12_file_seek fs file offs ≡ (there, record file { recent_offs = offs })
unfolding fat12_file_seek fat12_seek_loop
seek-here fs file offs e =
    let last = index_of file.recent_offs in
    let again =
      λ (n : ℕ). fat12_seek_loop n fs (record file { recent_cluster = file.dentry.cluster }) in
    let here : ltb last last ≡ false = ground arith in
    let zero_left : last - last ≡ 0 = omega arith in
    ap (λ n. close_seek offs (if ltb n last then again n else fat12_seek_loop (n - last) fs file)) e
    ∙ ap (λ b. close_seek offs (if b then again last else fat12_seek_loop (last - last) fs file))
        here
    ∙ ap (λ n. close_seek offs (fat12_seek_loop n fs file)) zero_left

-- After a seek beyond the chain, seeking back to where the file was before finds not the cluster
-- that is there but the last one of the chain.
fat12_file_seek-displaced :
    (fs : Fat12Fs) (file : Fat12File) (offs : ℕ)
    → IsPlaced fs file
    → (nth_cluster fs (index_of offs) file.dentry.cluster).0 ≡ eof
    → (fat12_file_seek fs file offs).0 ≡ eof
      × ((fat12_file_seek fs (fat12_file_seek fs file offs).1 file.recent_offs).0 ≡ there)
      × ((fat12_file_seek fs (fat12_file_seek fs file offs).1 file.recent_offs).1.recent_cluster
          ≡ (nth_cluster fs (index_of offs) file.dentry.cluster).1)
fat12_file_seek-displaced fs file offs h e =
    let w = nth_cluster fs (index_of offs) file.dentry.cluster in
    let (first, placed_again) = fat12_file_seek_lem fs file offs h in
    let u : Fat12File = record file { recent_cluster = w.1 } in
    let moved : fat12_file_seek fs file offs ≡ (eof, u) =
      first
      ∙ ap
          (λ (o : Sought). (
            o,
            record file {
              recent_cluster = w.1;
              recent_offs = if is_there o then offs else file.recent_offs;
            },
          ))
          e in
    let back : fat12_file_seek fs (fat12_file_seek fs file offs).1 file.recent_offs ≡ (there, u) =
      ap (λ z. fat12_file_seek fs z.1 file.recent_offs) moved
      ∙ seek-here fs u file.recent_offs refl in
    (ap (λ z. z.0) moved, ap (λ z. z.0) back, ap (λ z. z.1.recent_cluster) back)
