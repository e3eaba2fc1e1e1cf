-- ===== src/Vga/Screen.antt =====
-- The screen that the terminal shows, and what vga_putchar does to it.
use zakos.Common.{
  ℕ, ◌+◌, ◌-◌, ◌*◌, ◌%◌, ◌<◌, ◌≡◌, ◌≢◌, refl, ap, ◌∙◌, Bool, true, false, ◌&&◌, leb, ◌==◌,
  if◌then◌else◌, arith, List,
}
use zakos.Vga.{
  vga_init, vga_clear, Vga, cols, space, line_of, vga_set, new_line, hide_cursor, put_char,
}
use zakos.Vga.Blink.{text, Kept, interrupts, interrupts-Kept}

-- The terminal as its user sees it: 60 rows of 80 characters, and where the next one goes.
pub record Terminal : Type 0 where
  pub cell : ℕ → ℕ → ℕ
  pub x : ℕ
  pub y : ℕ

-- On the last row the lines move up, and a blank one comes below.
abbrev pub line_feed : Terminal → Terminal
line_feed d =
    if d.y + 1 == 60
    then record d { cell = λ r c. if r == 59 then space else d.cell (r + 1) c }
    else record d { y = d.y + 1 }

-- A character is written, and the next one goes to the right of it or to the next line.
abbrev pub write : Terminal → ℕ → Terminal
write d ch =
    let e = record d { cell = λ r c. if r == d.y && (c == d.x) then ch else d.cell r c } in
    if d.x == 79 then line_feed (record e { x = 0 }) else record e { x = d.x + 1 }

abbrev pub accept : Terminal → ℕ → Terminal
accept d ch =
    if ch == 9
    then record d { x = d.x + (4 - d.x % 4) }
    else if ch == 13
    then record d { x = 0 }
    else if ch == 10
    then line_feed d
    else write d ch

-- The driver shows the terminal.
pub record Shows (s : Vga) (d : Terminal) : Type 0 where
  pub x : s.x ≡ d.x
  pub y : s.y ≡ d.y
  pub in_row : d.x < 80
  pub in_screen : d.y < 60
  pub cell : (r c : ℕ) → r < 60 → c < 80 → text s (80 * line_of s.scroll r + c) ≡ d.cell r c

-- The terminal is still shown.
Kept-Shows : (s u : Vga) (d : Terminal) → Shows s d → Kept s u → Shows u d
Kept-Shows s u d h k = record {
  x = k.x ∙ h.x;
  y = k.y ∙ h.y;
  in_row = h.in_row;
  in_screen = h.in_screen;
  cell = λ r c a b.
      ap (λ z. text u (80 * line_of z r + c)) (k.scroll)
      ∙ k.same_text (80 * line_of s.scroll r + c)
      ∙ h.cell r c a b;
}

hide_cursor-Shows :
    (s : Vga) (d : Terminal) → Shows s d → Shows (hide_cursor s) d × ((hide_cursor s).shown ≡ false)
unfolding hide_cursor vga_set
hide_cursor-Shows s d h = (
  record {
    x = ground (arith, h.x);
    y = ground (arith, h.y);
    in_row = h.in_row;
    in_screen = h.in_screen;
    cell = λ r c a b. ground (arith, h.cell r c a b);
  },
  ground arith,
)

line-next : (scroll r : ℕ) → line_of ((scroll + 1) % 256) r ≡ line_of scroll (r + 1)
line-next scroll r = omega arith

line-differs : (scroll r q : ℕ) → r < q → q < 64 → line_of scroll r ≢ line_of scroll q
line-differs scroll r q a b = omega arith

line_feed-Shows :
    (s : Vga) (d : Terminal)
    → Shows s d
    → s.shown ≡ false
    → Shows (new_line s) (line_feed d) × ((new_line s).shown ≡ false)
unfolding new_line
line_feed-Shows s d h off = (
  record {
    x = ground (arith, h.x);
    y = ground (arith, h.y, h.in_screen);
    in_row = ground (arith, h.in_row);
    in_screen = ground (arith, h.in_screen);
    cell = λ r c a b. ground (
      arith,
      h.y,
      h.in_screen,
      h.cell r c a b,
      h.cell (r + 1) c,
      line-next s.scroll r,
      line-differs s.scroll (r + 1) 60,
      off,
    );
  },
  ground (arith, off),
)

-- A place of the buffer belongs to one place of the screen.
place-eq :
    (scroll r c q x : ℕ)
    → r < 60
    → q < 60
    → c < 80
    → x < 80
    → (80 * line_of scroll q + x == 80 * line_of scroll r + c) ≡ (r == q && (c == x))
place-eq scroll r c q x a b e f = ground (arith, line-differs scroll r q, line-differs scroll q r)

write-Shows :
    (s : Vga) (d : Terminal) (ch : ℕ)
    → Shows s d
    → s.shown ≡ false
    → ((x : ℕ)
        → x < 80
        → Shows
            (record (vga_set s ch) { x = x })
            (record d { x = x; cell = λ r c. if r == d.y && (c == d.x) then ch else d.cell r c }))
      × ((vga_set s ch).shown ≡ false)
unfolding vga_set
write-Shows s d ch h off = (
  λ x p. record {
    x = refl;
    y = h.y;
    in_row = p;
    in_screen = h.in_screen;
    cell = λ r c a b. ground (
      arith,
      h.x,
      h.y,
      h.cell r c a b,
      place-eq s.scroll r c d.y d.x a h.in_screen b h.in_row,
      off,
    );
  },
  off,
)

column-Shows :
    (s : Vga) (d : Terminal) (n m : ℕ)
    → Shows s d
    → s.shown ≡ false
    → n ≡ m
    → m < 80
    → Shows (record s { x = n }) (record d { x = m })
column-Shows s d n m h off e p = record {
  x = e;
  y = h.y;
  in_row = p;
  in_screen = h.in_screen;
  cell = λ r c a b. ground (arith, h.cell r c a b, off);
}

if_Shows :
    (b c : Bool) (s u : Vga) (d e : Terminal)
    → b ≡ c
    → (c ≡ true → Shows s d)
    → (c ≡ false → Shows u e)
    → Shows (if b then s else u) (if c then d else e)
if_Shows b true s u d e same h k = rw same (h refl)
if_Shows b false s u d e same h k = rw same (k refl)

put_char-Shows :
    (s : Vga) (d : Terminal) (ch : ℕ)
    → Shows s d
    → s.shown ≡ false
    → (ch == 9 && leb 76 d.x) ≡ false
    → Shows (put_char s ch) (accept d ch)
unfolding put_char
put_char-Shows s d ch h off tab =
    let (wrote, clean) = write-Shows s d ch h off in
    if_Shows (ch == 9) (ch == 9) _ _ _ _ refl
      (λ e.
        column-Shows s d _ _ h off (ground (arith, h.x, h.in_row, tab)) (ground (arith, tab, e)))
      (λ e.
        if_Shows (ch == 13) (ch == 13) _ _ _ _ refl
          (λ f. column-Shows s d 0 0 h off refl (omega arith))
          (λ f.
            if_Shows (ch == 10) (ch == 10) _ _ _ _ refl (λ g. (line_feed-Shows s d h off).0)
              (λ g.
                if_Shows (leb cols ((s.x + 1) % 256)) (d.x == 79) _ _ _ _
                  (ground (arith, h.x, h.in_row))
                  (λ i. (line_feed-Shows _ _ (wrote 0 (omega arith)) clean).0)
                  (λ i.
                    column-Shows _ _ _ _ (wrote (d.x + 1) (ground (arith, i, h.in_row))) clean
                      (ground (arith, h.x, h.in_row)) (ground (arith, i, h.in_row))))))

-- A terminal with nothing on it.
abbrev pub blank : Terminal
blank = record { cell = λ r c. space; x = 0; y = 0 }

-- vga_init shows an empty terminal.
pub vga_init-Shows : (s : Vga) → Shows (vga_init s) blank
unfolding vga_init vga_clear
vga_init-Shows s = record {
  x = refl;
  y = refl;
  in_row = omega arith;
  in_screen = omega arith;
  cell = λ r c a b. ground arith;
}

-- vga_putchar, with interrupts between its critical sections.
unfoldable pub putchar_between : List Bool → List Bool → Vga → ℕ → Vga
putchar_between l m s c = record (interrupts m (put_char (interrupts l (hide_cursor s)) c)) {
  enable = s.enable;
}

-- If the driver shows a terminal, it shows after vga_putchar what that terminal shows after the
-- character, however many display interrupts come before and after the character is stored, and
-- whether or not the cursor is shown; a tab must not be sent from the last four columns.
pub putchar_refines :
    (l m : List Bool) (s : Vga) (d : Terminal) (ch : ℕ)
    → Shows s d
    → (ch == 9 && leb 76 d.x) ≡ false
    → Shows (putchar_between l m s ch) (accept d ch)
unfolding putchar_between hide_cursor
putchar_refines l m s d ch h tab =
    let (hidden, off) = hide_cursor-Shows s d h in
    let k = interrupts-Kept l (hide_cursor s) in
    let first = Kept-Shows (hide_cursor s) (interrupts l (hide_cursor s)) d hidden k in
    let stored = put_char-Shows (interrupts l (hide_cursor s)) d ch first (k.hidden refl off) tab in
    let u = put_char (interrupts l (hide_cursor s)) ch in
    let last = Kept-Shows u (interrupts m u) (accept d ch) stored (interrupts-Kept m u) in
    record {
      x = last.x;
      y = last.y;
      in_row = last.in_row;
      in_screen = last.in_screen;
      cell = last.cell;
    }
