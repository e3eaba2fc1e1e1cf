-- ===== src/Uart/Tests.antt =====
-- Runs of the FIFOs and of the interrupt handler.
use zakos.Common.{◌≡◌, refl, true, [], ◌∷◌, ◌==◌, if◌then◌else◌, ok, arith}
use zakos.Uart.{Fifo, UartCtx, irq_handler, baud_cntlb, line_setup}
use zakos.Uart.Window.{IsValid}
use zakos.Uart.Irq.{Handled, irq_handler_lem}

-- Two bytes across the end of the buffer.
abbrev wrapped : Fifo
wrapped = record { buff = λ i. if i == 63 then 65 else 66; rd = 63; wr = 1 }

wrapped-IsValid : IsValid wrapped
wrapped-IsValid = record { rd_in = omega arith; wr_in = omega arith }

abbrev both : UartCtx
both = record { tx = wrapped; rx = wrapped; minor = 0 }

irq_handler_lem_example :
    Handled both
      (97 ∷ 98 ∷ [])
      true
      (irq_handler both (97 ∷ 98 ∷ []) true).0
      (irq_handler both (97 ∷ 98 ∷ []) true).1
irq_handler_lem_example = irq_handler_lem both (97 ∷ 98 ∷ []) true wrapped-IsValid wrapped-IsValid

line_setup_test : line_setup 1200 1 1 ≡ ok (0x67, 0x15)
unfolding line_setup baud_cntlb
line_setup_test = refl
