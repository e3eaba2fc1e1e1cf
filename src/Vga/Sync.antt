-- ===== src/Vga/Sync.antt =====
-- The rows that the video memory lags behind in are marked.
use zakos.Common.{
  ℕ, zero, suc, ◌+◌, ◌*◌, ◌%◌, ◌<◌, ◌≡◌, refl, ◌∙◌, inl, inr, Bool, true, false, ◌&&◌, ltb, leb,
  ◌==◌, if◌then◌else◌, arith, Bool-cases, List, [], ◌∷◌,
}
use zakos.Vga.{
  vga_init, vga_clear, Vga, cols, cursor_char, vga_set, vga_get, sync_line, visit, flush, toggle,
  blink, write_port, vblank_handler, new_line, hide_cursor, put_char, late_irq_set,
}
use zakos.Vga.Blink.{interrupts, interrupts-Kept}
use zakos.Vga.Screen.{putchar_between}

-- The rows without a mark are in the video memory, and the cursor is in the screen.
pub record Synced (s : Vga) : Type 0 where
  pub row :
      (line c : ℕ)
      → line < 64
      → c < 80
      → s.vdirty line ≡ false
      → s.vram (128 * line + c) ≡ s.vbuffer (80 * line + c)
  pub in_row : s.x < 80
  pub in_screen : s.y < 60

if_Synced : (b : Bool) (s u : Vga) → Synced s → Synced u → Synced (if b then s else u)
if_Synced true s u h k = h
if_Synced false s u h k = k

by_test :
    (b : Bool) (s u : Vga)
    → (b ≡ true → Synced s)
    → (b ≡ false → Synced u)
    → Synced (if b then s else u)
by_test true s u h k = h refl
by_test false s u h k = k refl

vga_set-Synced : (s : Vga) (c : ℕ) → Synced s → Synced (vga_set s c)
unfolding vga_set
vga_set-Synced s c h = record {
  row = λ line k a b d. ground (arith, h.row line k a b, h.in_row);
  in_row = h.in_row;
  in_screen = h.in_screen;
}

visit-Synced : (line limit : ℕ) (s : Vga) → Synced s → Synced (visit line limit s).1
unfolding visit sync_line
visit-Synced line limit s h = elim (Bool-cases (ltb 0 limit && s.vdirty line)) [
  | inl e ↦ rw e (record {
    row = λ q k a b d. ground (arith, h.row q k a b);
    in_row = h.in_row;
    in_screen = h.in_screen;
  })
  | inr e ↦ rw e h
]

flush-Synced : (n line limit : ℕ) (s : Vga) → Synced s → Synced (flush n line limit s)
unfolding flush
flush-Synced zero line limit s h = h
flush-Synced (suc n) line limit s h =
    let v = visit line limit s in flush-Synced n (line + 1) v.0 v.1 (visit-Synced line limit s h)

new_line-Synced : (s : Vga) → Synced s → Synced (new_line s)
unfolding new_line
new_line-Synced s h = record {
  row = λ q k a b d. ground (arith, h.row q k a b);
  in_row = ground (arith, h.in_row);
  in_screen = ground (arith, h.in_screen);
}

toggle-Synced : (s : Vga) → Synced s → Synced (toggle s)
unfolding toggle vga_get
toggle-Synced s h =
    let a = vga_set-Synced s s.prev h in
    let b = vga_set-Synced s cursor_char h in
    let hidden : Synced (record (vga_set s s.prev) { shown = false }) = record {
      row = a.row;
      in_row = a.in_row;
      in_screen = a.in_screen;
    } in
    let shown : Synced (record (vga_set s cursor_char) { prev = vga_get s; shown = true }) =
      record { row = b.row; in_row = b.in_row; in_screen = b.in_screen } in
    if_Synced s.shown _ _ hidden (if_Synced s.enable _ _ shown h)

blink-Synced : (s : Vga) → Synced s → Synced (blink s)
unfolding blink
blink-Synced s h =
    let a : Synced (record s { counter = 0 }) = record {
      row = h.row;
      in_row = h.in_row;
      in_screen = h.in_screen;
    } in
    let b : Synced (record s { counter = (s.counter + 1) % 256 }) = record {
      row = h.row;
      in_row = h.in_row;
      in_screen = h.in_screen;
    } in
    if_Synced (ltb 28 ((s.counter + 1) % 256)) _ _ (toggle-Synced (record s { counter = 0 }) a) b

vblank_handler-Synced : (s : Vga) → Synced s → Synced (vblank_handler s)
unfolding vblank_handler
vblank_handler-Synced s h =
    let f = flush-Synced 64 0 4 s h in
    let late : Synced (record s { late_irq = false }) = record {
      row = h.row;
      in_row = h.in_row;
      in_screen = h.in_screen;
    } in
    let ported : Synced (write_port (flush 64 0 4 s)) = record {
      row = f.row;
      in_row = f.in_row;
      in_screen = f.in_screen;
    } in
    if_Synced s.late_irq _ _ late (blink-Synced (write_port (flush 64 0 4 s)) ported)

pub interrupts-Synced : (l : List Bool) (s : Vga) → Synced s → Synced (interrupts l s)
unfolding interrupts
interrupts-Synced [] s h = h
interrupts-Synced (late ∷ l) s h =
    let late_set : Synced (late_irq_set s) = record {
      row = h.row;
      in_row = h.in_row;
      in_screen = h.in_screen;
    } in
    interrupts-Synced l _ (vblank_handler-Synced _ (if_Synced late _ s late_set h))

hide_cursor-Synced : (s : Vga) → Synced s → Synced (hide_cursor s)
unfolding hide_cursor
hide_cursor-Synced s h =
    let a = vga_set-Synced s s.prev h in
    let hidden : Synced (record (vga_set s s.prev) { shown = false }) = record {
      row = a.row;
      in_row = a.in_row;
      in_screen = a.in_screen;
    } in
    let b = if_Synced s.shown _ s hidden h in
    record { row = b.row; in_row = b.in_row; in_screen = b.in_screen }

column-Synced : (s : Vga) (x : ℕ) → x < 80 → Synced s → Synced (record s { x = x })
column-Synced s x p h = record { row = h.row; in_row = p; in_screen = h.in_screen }

put_char-Synced :
    (s : Vga) (c : ℕ) → (c == 9 && leb 76 s.x) ≡ false → Synced s → Synced (put_char s c)
unfolding put_char
put_char-Synced s c tab h =
    let wrote = vga_set-Synced s c h in
    by_test (c == 9) _ _ (λ e. column-Synced s _ (ground (arith, tab, e, h.in_row)) h)
      (λ e. if_Synced (c == 13) _ _ (column-Synced s 0 (omega arith) h) (
        if_Synced (c == 10) _ _ (new_line-Synced s h) (
          by_test (leb cols ((s.x + 1) % 256)) _ _
            (λ f. new_line-Synced _ (column-Synced (vga_set s c) 0 (omega arith) wrote))
            (λ f. column-Synced (vga_set s c) _ (ground (arith, f)) wrote))))

hide_cursor-x : (s : Vga) → (hide_cursor s).x ≡ s.x
unfolding hide_cursor vga_set
hide_cursor-x s = ground arith

-- If every row without a mark is in the video memory, and the cursor in the screen, it is so
-- after vga_putchar with the display interrupts that come in it; a tab must not be sent from
-- the last four columns.
putchar-Synced :
    (l m : List Bool) (s : Vga) (c : ℕ)
    → (c == 9 && leb 76 s.x) ≡ false
    → Synced s
    → Synced (putchar_between l m s c)
unfolding putchar_between
putchar-Synced l m s c tab h =
    let u = interrupts l (hide_cursor s) in
    let k = interrupts-Kept l (hide_cursor s) in
    let here : u.x ≡ s.x = k.x ∙ hide_cursor-x s in
    let stored =
      put_char-Synced u c (rw here tab)
        (interrupts-Synced l (hide_cursor s) (hide_cursor-Synced s h)) in
    let last = interrupts-Synced m (put_char u c) stored in
    record { row = last.row; in_row = last.in_row; in_screen = last.in_screen }

-- After vga_init every row is marked.
pub vga_init-Synced : (s : Vga) → Synced (vga_init s)
unfolding vga_init vga_clear
vga_init-Synced s = record {
  row = λ line c a b d. absurd (cc);
  in_row = omega arith;
  in_screen = omega arith;
}
