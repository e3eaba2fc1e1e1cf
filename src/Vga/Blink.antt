-- ===== src/Vga/Blink.antt =====
-- The interrupt handler, and the text in which the cursor blinks.
use zakos.Common.{
  ℕ, zero, suc, ◌+◌, ◌%◌, ◌≡◌, refl, ◌∙◌, inl, inr, Bool, true, false, ◌&&◌, ltb, ◌==◌,
  if◌then◌else◌, arith, Bool-cases, List, [], ◌∷◌,
}
use zakos.Vga.{
  Vga, cursor_pos, vga_set, vga_get, sync_line, visit, flush, toggle, blink, write_port,
  vblank_handler, late_irq_set,
}

-- The buffer without the cursor that blinks in it.
abbrev pub text : Vga → ℕ → ℕ
text s i = if s.shown && (cursor_pos s == i) then s.prev else s.vbuffer i

-- The interrupt handler leaves the text, the cursor's place and `enable`.
pub record Kept (s u : Vga) : Type 0 where
  pub same_text : (i : ℕ) → text u i ≡ text s i
  pub x : u.x ≡ s.x
  pub y : u.y ≡ s.y
  pub scroll : u.scroll ≡ s.scroll
  pub enable : u.enable ≡ s.enable
  pub hidden : s.enable ≡ false → s.shown ≡ false → u.shown ≡ false

Kept-refl : (s : Vga) → Kept s s
Kept-refl s = record {
  same_text = λ i. refl;
  x = refl;
  y = refl;
  scroll = refl;
  enable = refl;
  hidden = λ e h. h;
}

Kept-trans : (s u w : Vga) → Kept s u → Kept u w → Kept s w
Kept-trans s u w a b = record {
  same_text = λ i. b.same_text i ∙ a.same_text i;
  x = b.x ∙ a.x;
  y = b.y ∙ a.y;
  scroll = b.scroll ∙ a.scroll;
  enable = b.enable ∙ a.enable;
  hidden = λ e h. b.hidden (a.enable ∙ e) (a.hidden e h);
}

visit-Kept : (line limit : ℕ) (s : Vga) → Kept s (visit line limit s).1
unfolding visit sync_line
visit-Kept line limit s = elim (Bool-cases (ltb 0 limit && s.vdirty line)) [
  | inl e ↦ rw e (record {
    same_text = λ i. refl;
    x = refl;
    y = refl;
    scroll = refl;
    enable = refl;
    hidden = λ e h. h;
  })
  | inr e ↦ rw e (Kept-refl s)
]

pub flush-Kept : (n line limit : ℕ) (s : Vga) → Kept s (flush n line limit s)
unfolding flush
flush-Kept zero line limit s = Kept-refl s
flush-Kept (suc n) line limit s =
    let v = visit line limit s in
    Kept-trans s v.1 _ (visit-Kept line limit s) (flush-Kept n (line + 1) v.0 v.1)

toggle-Kept : (s : Vga) → Kept s (toggle s)
unfolding toggle vga_set vga_get
toggle-Kept s = record {
  same_text = λ i. ground arith;
  x = ground arith;
  y = ground arith;
  scroll = ground arith;
  enable = ground arith;
  hidden = λ e h. ground arith;
}

blink-Kept : (s : Vga) → Kept s (blink s)
unfolding blink
blink-Kept s =
    let k = toggle-Kept (record s { counter = 0 }) in
    elim (Bool-cases (ltb 28 ((s.counter + 1) % 256))) [
      | inl e ↦ rw e (record {
        same_text = k.same_text;
        x = k.x;
        y = k.y;
        scroll = k.scroll;
        enable = k.enable;
        hidden = k.hidden;
      })
      | inr e ↦ rw e (record {
        same_text = λ i. refl;
        x = refl;
        y = refl;
        scroll = refl;
        enable = refl;
        hidden = λ e h. h;
      })
    ]

if_Kept : (b : Bool) (s u w : Vga) → Kept s u → Kept s w → Kept s (if b then u else w)
if_Kept true s u w a c = a
if_Kept false s u w a c = c

-- Whatever the interrupt handler does, the text stays, and a cursor that is hidden and switched
-- off stays hidden.
pub vblank_handler-Kept : (s : Vga) → Kept s (vblank_handler s)
unfolding vblank_handler
vblank_handler-Kept s =
    let f = flush-Kept 64 0 4 s in
    let p : Kept s (write_port (flush 64 0 4 s)) = record {
      same_text = f.same_text;
      x = f.x;
      y = f.y;
      scroll = f.scroll;
      enable = f.enable;
      hidden = f.hidden;
    } in
    let whole =
      Kept-trans s (write_port (flush 64 0 4 s)) _ p (blink-Kept (write_port (flush 64 0 4 s))) in
    let late : Kept s (record s { late_irq = false }) = record {
      same_text = λ i. refl;
      x = refl;
      y = refl;
      scroll = refl;
      enable = refl;
      hidden = λ e h. h;
    } in
    if_Kept s.late_irq s _ _ late whole

-- Interrupts of the display, some of them late.
unfoldable pub interrupts : List Bool → Vga → Vga
interrupts [] s = s
interrupts (late ∷ l) s = interrupts l (vblank_handler (if late then late_irq_set s else s))

pub interrupts-Kept : (l : List Bool) (s : Vga) → Kept s (interrupts l s)
unfolding interrupts
interrupts-Kept [] s = Kept-refl s
interrupts-Kept (late ∷ l) s =
    let t = if late then late_irq_set s else s in
    let k : Kept s t =
      if_Kept late s _ _
        (record {
          same_text = λ i. refl;
          x = refl;
          y = refl;
          scroll = refl;
          enable = refl;
          hidden = λ e h. h;
        })
        (Kept-refl s) in
    Kept-trans s t _ k (
      Kept-trans t (vblank_handler t) _ (vblank_handler-Kept t)
        (interrupts-Kept l (vblank_handler t)))
