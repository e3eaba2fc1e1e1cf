-- ===== src/Uart.antt =====
-- kernel/dev/uart.c: the byte FIFOs between the interrupt handler and the threads, the handler
-- itself, and the register values of dev_uart_init. The device is a parameter of a call: the
-- bytes that it hands over while it is ready, and whether it takes one.
pub mod Window
pub mod Bounded
pub mod Queue
pub mod Irq
mod Tests
use Prim.Native.Nat.{bit_and, bit_or}
use zakos.Common.{
  ℕ, zero, suc, ◌+◌, ◌-◌, ◌%◌, ◌≡◌, Bool, true, false, not, Option, none, some, List, [], ◌∷◌, ltb,
  ◌==◌, if◌then◌else◌, update, Result, ok, err, einval,
}

-- FIFO_SIZE
abbrev pub fifo_size : ℕ
fifo_size = 64

-- `struct fifo`
pub record Fifo : Type 0 where
  pub buff : ℕ → ℕ
  pub rd : ℕ
  pub wr : ℕ

abbrev pub next : ℕ → ℕ
next i = (i + 1) % fifo_size

-- _fifo_push: true is the return value 0.
pub push : Fifo → ℕ → Bool → Bool × Fifo
push f c overwrite =
    let nwr = next f.wr in
    let store = λ (g : Fifo). record g { buff = update g.buff g.wr c; wr = nwr } in
    if nwr == f.rd
    then (if overwrite then (true, store (record f { rd = next f.rd })) else (false, f))
    else (true, store f)

-- _fifo_pop
pub pop : Fifo → Option ℕ × Fifo
pop f = if f.wr == f.rd then (none, f) else (some (f.buff f.rd), record f { rd = next f.rd })

-- `struct uart_ctx`, less the wait queues.
pub record UartCtx : Type 0 where
  pub tx : Fifo
  pub rx : Fifo
  pub minor : ℕ

-- The receive loop of dev_uart_irq_handler, over the bytes that the device hands over, with
-- whether a push succeeded.
pub receive : Fifo → List ℕ → Bool → Bool × Fifo
receive f [] got = (got, f)
receive f (c ∷ cs) got = let (done, g) = push f c true in receive g cs (if done then true else got)

-- What the handler does to the device and to the threads: dev_uart_error_clear, the byte that is sent,
-- dev_uart_txirq_set, and the two wake-ups.
pub record IrqEffect : Type 0 where
  pub errors_cleared : Bool
  pub sent : Option ℕ
  pub tx_off : Bool
  pub wake_rx : Bool
  pub wake_tx : Bool

-- dev_uart_irq_handler
pub irq_handler : UartCtx → List ℕ → Bool → IrqEffect × UartCtx
irq_handler u input ready =
    let (got, rx) = receive u.rx input false in
    let (c, tx) = pop u.tx in
    let idle : IrqEffect = record {
      errors_cleared = true;
      sent = none;
      tx_off = false;
      wake_rx = got;
      wake_tx = false;
    } in
    if ready
    then elim c [
      | none ↦ (record idle { tx_off = true }, record u { rx = rx })
      | some b ↦ (record idle { sent = some b; wake_tx = true }, record u { rx = rx; tx = tx })
    ]
    else (idle, record u { rx = rx })

-- The `switch` of dev_uart_init: CNTLB for a baud rate.
pub baud_cntlb : ℕ → Option ℕ
baud_cntlb baud =
    if baud == 38400
    then some 0x00
    else if baud == 19200
    then some 0x01
    else if baud == 9600
    then some 0x02
    else if baud == 4800
    then some 0x03
    else if baud == 2400
    then some 0x04
    else if baud == 1200
    then some 0x05
    else if baud == 600
    then some 0x06
    else if baud == 300
    then some 0x0D
    else if baud == 150
    then some 0x0E
    else none

-- The registers that dev_uart_init writes: CNTLA, CNTLB.
pub line_setup : ℕ → ℕ → ℕ → Result (ℕ × ℕ)
unfolding baud_cntlb
line_setup baud parity stop = elim (baud_cntlb baud) [
  | none ↦ err einval
  | some cntlb ↦
      let a = if parity == 0 then 0x64 else bit_or 0x64 0x02 in
      let b = if bit_and parity 1 == 0 then cntlb else bit_or cntlb 0x10 in
      ok (if stop == 0 then a else bit_or a 1, b)
]
