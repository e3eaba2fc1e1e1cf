-- ===== src/Uart/Irq.antt =====
-- dev_uart_irq_handler and the line setup.
use zakos.Common.{
  ℕ, ◌+◌, ◌-◌, ◌≤◌, ◌≡◌, refl, ap, ◌∙◌, sym, inl, inr, Bool-cases, Option-cases, Bool, true, false,
  not, Option, none, some, List, [], ◌∷◌, ◌++◌, ltb, if◌then◌else◌, length, length-append,
  length-drop, drop, drop-append, drop-drop, arith,
}
use mathlib.Core.List.{append_assoc, append-nil}
use zakos.Uart.{Fifo, UartCtx, IrqEffect, push, pop, receive, irq_handler}
use zakos.Uart.Bounded
use zakos.Uart.Bounded.{capacity}
use zakos.Uart.Window.{used, contents, IsValid, length-window}
use zakos.Uart.Queue.{push_refines, pop_refines}

-- The newest bytes of a sequence, as many as a FIFO holds.
abbrev pub newest : List ℕ → List ℕ
newest xs = drop (length xs - capacity) xs

newest-short : (xs : List ℕ) → length xs ≤ capacity → newest xs ≡ xs
newest-short xs h = ap (λ k. drop k xs) e
  where
    e : length xs - capacity ≡ 0
    e = omega arith

newest-append : (xs ys : List ℕ) → newest (newest xs ++ ys) ≡ newest (xs ++ ys)
newest-append xs ys =
    let k = length xs - capacity in
    let front : drop k (xs ++ ys) ≡ drop k xs ++ ys = drop-append k xs ys (omega arith) in
    let len = length-append xs ys in
    let len' = length-append (drop k xs) ys in
    let sum : k + (length (newest xs ++ ys) - capacity) ≡ length (xs ++ ys) - capacity =
      omega (arith, len, len', length-drop k xs) in
    ap (drop (length (newest xs ++ ys) - capacity)) (sym front)
    ∙ drop-drop (length (newest xs ++ ys) - capacity) k (xs ++ ys)
    ∙ ap (λ n. drop n (xs ++ ys)) sum

-- A full queue that makes room keeps its newest bytes.
enqueue-newest :
    (q : List ℕ) (c : ℕ)
    → length q ≤ capacity
    → ((Bounded.enqueue q c true).0 ≡ true)
      × ((Bounded.enqueue q c true).1 ≡ newest (q ++ (c ∷ [])))
unfolding Bounded.enqueue Bounded.tail
enqueue-newest [] c h = (refl, refl)
enqueue-newest (x ∷ q) c h = elim (Bool-cases (ltb (length (x ∷ q)) capacity)) [
  | inl e ↦
      rw e (refl, sym (newest-short (x ∷ q ++ (c ∷ [])) (ground (arith, length-append q (c ∷ [])))))
  | inr e ↦
      let one : 1 ≡ length (x ∷ q ++ (c ∷ [])) - capacity =
        ground (arith, length-append q (c ∷ [])) in
      rw e (refl, ap (λ k. drop k (x ∷ q ++ (c ∷ []))) one)
]

abbrev pub is_cons : List ℕ → Bool
is_cons [] = false
is_cons (x ∷ xs) = true

abbrev pub is_some : Option ℕ → Bool
is_some none = false
is_some (some x) = true

-- The receive loop keeps the newest bytes of what was there and what the device hands over.
receive_lem :
    (f : Fifo) (cs : List ℕ) (got : Bool)
    → IsValid f
    → (contents (receive f cs got).1 ≡ newest (contents f ++ cs))
      × IsValid (receive f cs got).1
      × ((receive f cs got).0 ≡ (if is_cons cs then true else got))
unfolding receive
receive_lem f [] got v = (
  rw append-nil
      (sym (newest-short (contents f) (omega (arith, length-window f.buff f.rd (used f))))),
  v,
  refl,
)
receive_lem f (c ∷ cs) got v =
    let (b, g) = push f c true in
    let (done, same, valid) = push_refines f c true v in
    let fits : length (contents f) ≤ capacity = omega (arith, length-window f.buff f.rd (used f)) in
    let (yes_, new) = enqueue-newest (contents f) c fits in
    let (rest, valid', flag) = receive_lem g cs (if b then true else got) valid in
    (
      rest
          ∙ ap (λ xs. newest (xs ++ cs)) (same ∙ new)
          ∙ newest-append (contents f ++ (c ∷ [])) cs
          ∙ ap newest (append_assoc (contents f) (c ∷ []) cs),
      valid',
      ground (arith, flag, done, yes_),
    )

dequeue-none : (q : List ℕ) → (Bounded.dequeue q).0 ≡ none → (Bounded.dequeue q).1 ≡ q
unfolding Bounded.dequeue
dequeue-none [] e = refl
dequeue-none (x ∷ q) e = cc

-- What the handler leaves behind, given the bytes that came in and whether the line is free.
pub record Handled (u : UartCtx) (input : List ℕ) (ready : Bool) (e : IrqEffect) (w : UartCtx)
    : Type 0 where
  pub rx_valid : IsValid w.rx
  pub tx_valid : IsValid w.tx
  pub received : contents w.rx ≡ newest (contents u.rx ++ input)
  pub cleared : e.errors_cleared ≡ true
  pub woken_rx : e.wake_rx ≡ is_cons input
  pub sent : e.sent ≡ (if ready then (Bounded.dequeue (contents u.tx)).0 else none)
  pub kept : contents w.tx ≡ (if ready then (Bounded.dequeue (contents u.tx)).1 else contents u.tx)
  pub woken_tx : e.wake_tx ≡ is_some e.sent
  pub stopped : e.tx_off ≡ (if ready then not (is_some e.sent) else false)

-- dev_uart_irq_handler on valid FIFOs keeps the newest 63 of the received bytes, clears the
-- error flags of the line, wakes the readers exactly if a byte came in, sends the oldest queued byte exactly if the line is free and
-- there is one, and else, on a free line, turns the transmit interrupt off.
pub irq_handler_lem :
    (u : UartCtx) (input : List ℕ) (ready : Bool)
    → IsValid u.rx
    → IsValid u.tx
    → Handled u input ready (irq_handler u input ready).0 (irq_handler u input ready).1
unfolding irq_handler
irq_handler_lem u input true vr vt =
    let (rx, valid, flag) = receive_lem u.rx input false vr in
    let (out, left, valid') = pop_refines u.tx vt in
    elim (Option-cases (pop u.tx).0) [
      | inl e ↦ rw e (record {
        rx_valid = valid;
        tx_valid = vt;
        received = rx;
        cleared = refl;
        woken_rx = ground (arith, flag);
        sent = sym e ∙ out;
        kept = sym (dequeue-none (contents u.tx) (sym out ∙ e));
        woken_tx = refl;
        stopped = refl;
      })
      | inr (b, e) ↦ rw e (record {
        rx_valid = valid;
        tx_valid = valid';
        received = rx;
        cleared = refl;
        woken_rx = ground (arith, flag);
        sent = sym e ∙ out;
        kept = left;
        woken_tx = refl;
        stopped = refl;
      })
    ]
irq_handler_lem u input false vr vt =
    let (rx, valid, flag) = receive_lem u.rx input false vr in
    record {
      rx_valid = valid;
      tx_valid = vt;
      received = rx;
      cleared = refl;
      woken_rx = ground (arith, flag);
      sent = refl;
      kept = refl;
      woken_tx = refl;
      stopped = refl;
    }
