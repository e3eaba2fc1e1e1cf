-- ===== src/Vga/Tests.antt =====
-- Runs of the terminal.
use zakos.Common.{◌+◌, ◌*◌, ◌≡◌, ◌≤◌, ◌==◌, refl, Bool, true, false, List, [], ◌∷◌, arith}
use zakos.Vga.{vga_init, Vga, space}
use zakos.Vga.Blink.{interrupts}
use zakos.Vga.Screen.{
  Terminal, Shows, blank, vga_init-Shows, putchar_between, accept, putchar_refines,
}
use zakos.Vga.Sync.{Synced, vga_init-Synced}
use zakos.Vga.InTime.{Quiet, interrupts-InTime, prompt_no}

-- A display with a blank memory, and the cursor at the end of the last line.
abbrev idle : Vga
idle = record {
  vbuffer = λ i. space;
  vdirty = λ line. line == 3;
  x = 79;
  y = 59;
  shown = false;
  prev = space;
  counter = 28;
  enable = false;
  rom = 0;
  scroll = 255;
  late_irq = false;
  vram = λ a. space;
  port = 0;
}

abbrev corner : Terminal
corner = record { cell = λ r c. space; x = 79; y = 59 }

idle-Shows : Shows idle corner
idle-Shows = record {
  x = refl;
  y = refl;
  in_row = omega arith;
  in_screen = omega arith;
  cell = λ r c a b. refl;
}

idle-Synced : Synced idle
idle-Synced = record { row = λ line c a b d. refl; in_row = omega arith; in_screen = omega arith }

putchar_refines_example :
    Shows (putchar_between (false ∷ []) (true ∷ false ∷ []) idle 65) (accept corner 65)
putchar_refines_example =
    putchar_refines (false ∷ []) (true ∷ false ∷ []) idle corner 65 idle-Shows refl

-- Sixteen interrupts, and a late one before them.
abbrev ticks : List Bool
ticks =
    true ∷ false ∷ false ∷ false ∷ false ∷ false ∷ false ∷ false ∷ false ∷ false ∷ false ∷ false
    ∷ false ∷ false ∷ false ∷ false ∷ false ∷ []

idle-Quiet : Quiet idle
idle-Quiet = record { off = refl; hidden = refl; prompt = refl }

enough : 16 ≤ prompt_no ticks
unfolding prompt_no
enough = omega arith

interrupts-InTime_example : (interrupts ticks idle).vram (128 * 3 + 7) ≡ idle.vbuffer (80 * 3 + 7)
interrupts-InTime_example =
    interrupts-InTime ticks idle idle-Synced idle-Quiet enough 3 7 (omega arith) (omega arith)

-- After power on the driver shows an empty terminal.
cleared : Shows (vga_init idle) blank
cleared = vga_init-Shows idle

all_marked : Synced (vga_init idle)
all_marked = vga_init-Synced idle
