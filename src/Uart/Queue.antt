-- ===== src/Uart/Queue.antt =====
-- A FIFO refines a queue of at most 63 bytes.
use zakos.Common.{
  ℕ, suc, ◌+◌, ◌-◌, ◌%◌, ◌<◌, ◌≡◌, ◌≢◌, refl, ap, ◌∙◌, sym, inl, inr, Bool-cases, Bool, true, false,
  List, [], ◌∷◌, ◌++◌, ◌==◌, ltb, length, update, arith,
}
use zakos.Uart.{Fifo, fifo_size, next, push, pop}
use zakos.Uart.Bounded
use zakos.Uart.Bounded.{capacity}
use zakos.Uart.Window.{window, used, contents, IsValid, length-window, window-update, window-pos}

-- The write of _fifo_push.
abbrev stored : Fifo → ℕ → Fifo
stored f c = record f { buff = update f.buff f.wr c; wr = next f.wr }

-- With room the write appends the byte.
stored-append :
    (f : Fifo) (c : ℕ)
    → IsValid f
    → next f.wr ≢ f.rd
    → (contents (stored f c) ≡ contents f ++ (c ∷ [])) × (used f < capacity)
stored-append f c v room =
    let more : used (stored f c) ≡ suc (used f) = omega arith in
    let at : f.wr ≡ (f.rd + used f) % fifo_size = omega arith in
    (
      ap (window (stored f c).buff f.rd) more
          ∙ window-update f.buff c (used f) f.rd f.wr v.rd_in (omega arith) at,
      omega arith,
    )

-- A full FIFO that drops its oldest byte has room.
dropped-contents :
    (f : Fifo)
    → IsValid f
    → next f.wr ≡ f.rd
    → (contents f ≡ f.buff f.rd ∷ contents (record f { rd = next f.rd })) × (used f ≡ capacity)
dropped-contents f v full =
    let less : used (record f { rd = next f.rd }) ≡ used f - 1 = omega arith in
    (
      window-pos f.buff f.rd (used f) (omega arith)
          ∙ ap (λ n. f.buff f.rd ∷ window f.buff (next f.rd) n) (sym less),
      omega arith,
    )

tail_of : {x : ℕ} {xs ys : List ℕ} → xs ≡ x ∷ ys → Bounded.tail xs ≡ ys
unfolding Bounded.tail
tail_of e = rw e

-- _fifo_push does what the bounded queue does, in both modes, and keeps the indices in range.
pub push_refines :
    (f : Fifo) (c : ℕ) (overwrite : Bool)
    → IsValid f
    → ((push f c overwrite).0 ≡ (Bounded.enqueue (contents f) c overwrite).0)
      × (contents (push f c overwrite).1 ≡ (Bounded.enqueue (contents f) c overwrite).1)
      × IsValid (push f c overwrite).1
unfolding push Bounded.enqueue
push_refines f c overwrite v = elim (Bool-cases (next f.wr == f.rd)) [
  | inl e ↦
      let full : next f.wr ≡ f.rd = ground arith in
      let (gone, size) = dropped-contents f v full in
      let len : ltb (length (contents f)) capacity ≡ false =
        ground (arith, length-window f.buff f.rd (used f)) in
      let g = record f { rd = next f.rd } in
      let valid : IsValid g = omega arith in
      let room : next g.wr ≢ g.rd = omega arith in
      let kept = stored-append g c valid room in
      elim (Bool-cases overwrite) [
        | inl o ↦ rw (e, len, o) (refl, rw (tail_of gone) kept.0, omega arith)
        | inr o ↦ rw (e, len, o) (refl, refl, v)
      ]
  | inr e ↦
      let room : next f.wr ≢ f.rd = ground arith in
      let kept = stored-append f c v room in
      let len : ltb (length (contents f)) capacity ≡ true =
        ground (arith, length-window f.buff f.rd (used f)) in
      rw (e, len) (refl, kept.0, omega arith)
]

-- _fifo_pop does what the bounded queue does, and keeps the indices in range.
pub pop_refines :
    (f : Fifo)
    → IsValid f
    → ((pop f).0 ≡ (Bounded.dequeue (contents f)).0)
      × (contents (pop f).1 ≡ (Bounded.dequeue (contents f)).1)
      × IsValid (pop f).1
unfolding pop Bounded.dequeue
pop_refines f v = ground (arith, window-pos f.buff f.rd (used f))
