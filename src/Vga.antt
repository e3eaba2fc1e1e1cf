-- ===== src/Vga.antt =====
-- driver/vga.c: the text buffer of 64 rows, of which 60 are shown from `scroll` on, and the
-- interrupt handler that copies changed rows to the video memory. The buffer is flat, as in
-- memory; `vdirty` tells the bit of a row, `vram` is the video memory, `port` what the
-- AY-3-8912 port was last set to.
pub mod Blink
pub mod Screen
pub mod Sync
pub mod InTime
mod Tests
use zakos.Common.{
  ℕ, zero, suc, ◌+◌, ◌-◌, ◌*◌, ◌%◌, ◌^◌, Bool, true, false, ◌&&◌, ltb, leb, ◌==◌, if◌then◌else◌,
  update,
}

-- VGA_ROWS, VGA_COLS, CURSOR and TAB_SIZE
abbrev pub rows : ℕ
rows = 60

abbrev pub cols : ℕ
cols = 80

abbrev pub cursor_char : ℕ
cursor_char = 219

abbrev pub tab_size : ℕ
tab_size = 4

abbrev pub space : ℕ
space = 32

-- `common`; `shown` is `cursor.state`.
pub record Vga : Type 0 where
  pub vbuffer : ℕ → ℕ
  pub vdirty : ℕ → Bool
  pub x : ℕ
  pub y : ℕ
  pub shown : Bool
  pub prev : ℕ
  pub counter : ℕ
  pub enable : Bool
  pub rom : ℕ
  pub scroll : ℕ
  pub late_irq : Bool
  pub vram : ℕ → ℕ
  pub port : ℕ

-- memset
abbrev pub fill : (ℕ → ℕ) → ℕ → ℕ → ℕ → ℕ → ℕ
fill a from n v i = if leb from i && ltb i (from + n) then v else a i

-- The row of the buffer that a row of the screen is in.
abbrev pub line_of : ℕ → ℕ → ℕ
line_of scroll y = (y + scroll) % 64

-- Where the cursor is in the buffer.
abbrev pub cursor_pos : Vga → ℕ
cursor_pos s = 80 * line_of s.scroll s.y + s.x

-- vga_mark_dirty
abbrev pub mark_dirty : (ℕ → Bool) → ℕ → ℕ → Bool
mark_dirty d line = update d line true

-- _vga_set
pub vga_set : Vga → ℕ → Vga
vga_set s c = record s {
  vbuffer = update s.vbuffer (cursor_pos s) c;
  vdirty = mark_dirty s.vdirty (line_of s.scroll s.y);
}

-- vga_get
pub vga_get : Vga → ℕ
vga_get s = s.vbuffer (cursor_pos s)

-- vga_sync_line: _dma_memcpy of a row to its place in the video memory.
pub sync_line : Vga → ℕ → Vga
sync_line s line = record s {
  vram = λ a.
      if leb (128 * line) a && ltb a (128 * line + 80)
      then s.vbuffer (80 * line + (a - 128 * line))
      else s.vram a;
}

-- The body of the loops of vga_vblank_handler for one row, with the limit.
pub visit : ℕ → ℕ → Vga → ℕ × Vga
visit line limit s =
    if ltb 0 limit && s.vdirty line
    then (limit - 1, record (sync_line s line) { vdirty = update s.vdirty line false })
    else (limit, s)

-- The two loops, over the rows that are left.
pub flush : ℕ → ℕ → ℕ → Vga → Vga
flush zero line limit s = s
flush (suc n) line limit s = let v = visit line limit s in flush n (line + 1) v.0 v.1

-- What is written to the port.
abbrev pub write_port : Vga → Vga
write_port s = record s { port = s.rom * 64 % 256 + s.scroll % 64 }

-- The cursor when it changes.
pub toggle : Vga → Vga
toggle s =
    if s.shown
    then record (vga_set s s.prev) { shown = false }
    else if s.enable
    then record (vga_set s cursor_char) { prev = vga_get s; shown = true }
    else s

-- The end of vga_vblank_handler.
pub blink : Vga → Vga
blink s =
    let next = (s.counter + 1) % 256 in
    if ltb 28 next then toggle (record s { counter = 0 }) else record s { counter = next }

-- vga_vblank_handler
pub vblank_handler : Vga → Vga
vblank_handler s =
    if s.late_irq then record s { late_irq = false } else blink (write_port (flush 64 0 4 s))

-- _vga_late_irq
abbrev pub late_irq_set : Vga → Vga
late_irq_set s = record s { late_irq = true }

-- vga_new_line
pub new_line : Vga → Vga
new_line s =
    let below = (s.y + 1) % 256 in
    let line = line_of s.scroll rows in
    if leb rows below
    then record s {
      y = rows - 1;
      vbuffer = fill s.vbuffer (80 * line) cols space;
      vdirty = mark_dirty s.vdirty line;
      scroll = (s.scroll + 1) % 256;
    }
    else record s { y = below }

-- The first critical section of vga_putchar, with the cursor switched off.
pub hide_cursor : Vga → Vga
hide_cursor s = record (if s.shown then record (vga_set s s.prev) { shown = false } else s) {
  counter = 0;
  enable = false;
}

-- The switch of vga_putchar.
pub put_char : Vga → ℕ → Vga
put_char s c =
    let tab = (s.x + tab_size) % 256 in
    let t = vga_set s c in
    let right = (s.x + 1) % 256 in
    if c == 9
    then record s { x = tab - tab % tab_size }
    else if c == 13
    then record s { x = 0 }
    else if c == 10
    then new_line s
    else if leb cols right
    then new_line (record t { x = 0 })
    else record t { x = right }

-- vga_putchar
pub putchar : Vga → ℕ → Vga
putchar s c = record (put_char (hide_cursor s) c) { enable = s.enable }

-- _vga_clear
pub vga_clear : Vga → Vga
vga_clear s = record s {
  counter = 0;
  prev = space;
  shown = false;
  vbuffer = fill s.vbuffer 0 5120 space;
  vdirty = λ line. true;
  x = 0;
  y = 0;
}

-- vga_select_rom
abbrev pub select_rom : Vga → ℕ → Vga
select_rom s rom = write_port (record s { rom = rom })

-- vga_set_cursor
abbrev pub set_cursor : Vga → Bool → Vga
set_cursor s enable = record s { enable = enable }

-- vga_init
pub vga_init : Vga → Vga
vga_init s = set_cursor (vga_clear (select_rom s 0)) true
