-- ===== src/Vga/InTime.antt =====
-- How soon a changed row is in the video memory.
use zakos.Common.{
  ℕ, zero, suc, ◌+◌, ◌-◌, ◌*◌, ◌%◌, ◌<◌, ◌≤◌, ◌≡◌, refl, sym, ap, subst, ◌∙◌, inl, inr, Bool, true,
  false, ltb, if◌then◌else◌, arith, Bool-cases, count, count-update, min, List, [], ◌∷◌,
}
use zakos.Vga.{
  Vga, sync_line, visit, flush, toggle, blink, write_port, vblank_handler, late_irq_set,
}
use zakos.Vga.Blink.{vblank_handler-Kept, flush-Kept, interrupts, interrupts-Kept}
use zakos.Vga.Sync.{Synced, interrupts-Synced}

-- The marks of the first `n` rows.
unfoldable pub marks : (ℕ → Bool) → ℕ → ℕ
marks d n = count (λ b. b) d n

marks-next : (d : ℕ → Bool) (n : ℕ) → marks d (n + 1) ≡ marks d n + (if d n then 1 else 0)
unfolding marks
marks-next d n = let same : n + 1 ≡ suc n = omega arith in rw same refl

marks_mono : (d : ℕ → Bool) (n k : ℕ) → marks d n ≤ marks d (n + k)
marks_mono d n zero = let same : n + 0 ≡ n = omega arith in rw same (omega arith)
marks_mono d n (suc k) =
    let same : n + suc k ≡ n + k + 1 = omega arith in
    rw same (ground (arith, marks-next d (n + k), marks_mono d n k))

visit-marks :
    (line limit : ℕ) (s : Vga) (n : ℕ)
    → line < n
    → (marks (visit line limit s).1.vdirty n + (limit - (visit line limit s).0) ≡ marks s.vdirty n)
      × ((visit line limit s).0 ≡ limit - (if s.vdirty line then 1 else 0))
unfolding visit sync_line marks
visit-marks line limit s n p = ground (arith, count-update (λ b. b) s.vdirty line false n p)

-- The loop clears the mark of as many rows as the limit says, if so many are marked.
flush-marks :
    (n line limit : ℕ) (s : Vga)
    → marks (flush n line limit s).vdirty (line + n)
        + min limit (marks s.vdirty (line + n) - marks s.vdirty line)
      ≡ marks s.vdirty (line + n)
unfolding flush
flush-marks zero line limit s = let same : line + 0 ≡ line = omega arith in rw same (ground arith)
flush-marks (suc n) line limit s =
    let k = (visit line limit s).0 in
    let t = (visit line limit s).1 in
    let same : line + suc n ≡ line + 1 + n = omega arith in
    rw same (
      ground (
        arith,
        marks-next s.vdirty line,
        marks_mono s.vdirty (line + 1) n,
        flush-marks n (line + 1) k t,
        visit-marks line limit s (line + 1 + n),
        visit-marks line limit s (line + 1),
      ))

marks-none : (d : ℕ → Bool) → marks d 0 ≡ 0
unfolding marks
marks-none d = refl

on_time : (s : Vga) → s.late_irq ≡ false → vblank_handler s ≡ blink (write_port (flush 64 0 4 s))
unfolding vblank_handler
on_time s e =
    ap
      (λ (b : Bool).
        if b then record s { late_irq = false } else blink (write_port (flush 64 0 4 s)))
      e

-- No interrupt is due to be skipped, and the cursor is off.
pub record Quiet (s : Vga) : Type 0 where
  pub off : s.enable ≡ false
  pub hidden : s.shown ≡ false
  pub prompt : s.late_irq ≡ false

flush-late : (n line limit : ℕ) (s : Vga) → (flush n line limit s).late_irq ≡ s.late_irq
unfolding flush visit sync_line
flush-late zero line limit s = refl
flush-late (suc n) line limit s =
    let v = visit line limit s in
    let here : v.1.late_irq ≡ s.late_irq = ground arith in flush-late n (line + 1) v.0 v.1 ∙ here

blink-quiet :
    (s : Vga)
    → s.enable ≡ false
    → s.shown ≡ false
    → ((blink s).vdirty ≡ s.vdirty) × ((blink s).late_irq ≡ s.late_irq)
unfolding blink toggle
blink-quiet s e h = elim (Bool-cases (ltb 28 ((s.counter + 1) % 256))) [
  | inl a ↦ rw (a, h, e) (refl, refl)
  | inr a ↦ rw a (refl, refl)
]

-- An interrupt that is not skipped clears four marks, if there are so many.
vblank_handler-marks :
    (s : Vga)
    → Quiet s
    → Quiet (vblank_handler s)
      × (marks (vblank_handler s).vdirty 64 + min 4 (marks s.vdirty 64) ≡ marks s.vdirty 64)
vblank_handler-marks s q =
    let k = vblank_handler-Kept s in
    let u = write_port (flush 64 0 4 s) in
    let f = flush-Kept 64 0 4 s in
    let b = blink-quiet u (f.enable ∙ q.off) (f.hidden q.off q.hidden) in
    let same = on_time s q.prompt in
    (
      record {
        off = k.enable ∙ q.off;
        hidden = k.hidden q.off q.hidden;
        prompt = ap (λ z. z.late_irq) same ∙ b.1 ∙ flush-late 64 0 4 s ∙ q.prompt;
      },
      rw (same, b.0) (ground (arith, flush-marks 64 0 4 s, marks-none s.vdirty)),
    )

-- How many of the interrupts are not late.
unfoldable pub prompt_no : List Bool → ℕ
prompt_no [] = 0
prompt_no (late ∷ l) = (if late then 0 else 1) + prompt_no l

skipped : (s : Vga) → vblank_handler (late_irq_set s) ≡ record s { late_irq = false }
unfolding vblank_handler
skipped s = refl

interrupts-marks :
    (l : List Bool) (s : Vga)
    → Quiet s
    → marks (interrupts l s).vdirty 64 ≤ marks s.vdirty 64 - 4 * prompt_no l
unfolding interrupts prompt_no
interrupts-marks [] s q = omega arith
interrupts-marks (true ∷ l) s q =
    let u : Vga = record s { late_irq = false } in
    let quiet : Quiet u = record { off = q.off; hidden = q.hidden; prompt = refl } in
    subst (λ z. marks (interrupts l z).vdirty 64 ≤ marks s.vdirty 64 - 4 * (0 + prompt_no l))
      (sym (skipped s)) (ground (arith, interrupts-marks l u quiet))
interrupts-marks (false ∷ l) s q =
    let (quiet, fewer) = vblank_handler-marks s q in
    ground (arith, fewer, interrupts-marks l (vblank_handler s) quiet)

marks-clean : (d : ℕ → Bool) (n i : ℕ) → marks d n ≡ 0 → i < n → d i ≡ false
unfolding marks
marks-clean d zero i h p = absurd (omega arith)
marks-clean d (suc n) i h p = ground (arith, marks-clean d n i)

marks-most : (d : ℕ → Bool) (n : ℕ) → marks d n ≤ n
unfolding marks
marks-most d zero = omega arith
marks-most d (suc n) = ground (arith, marks-most d n)

-- Where every row without a mark is in the video memory, the cursor is off and no interrupt is
-- due to be skipped: without other output, sixteen interrupts that are not late, and any number
-- that are, bring every row of the buffer to the video memory, however many were changed.
pub interrupts-InTime :
    (l : List Bool) (s : Vga)
    → Synced s
    → Quiet s
    → 16 ≤ prompt_no l
    → (line c : ℕ) → line < 64
    → c < 80
    → (interrupts l s).vram (128 * line + c) ≡ s.vbuffer (80 * line + c)
interrupts-InTime l s h q n line c a b =
    let u = interrupts l s in
    let k = interrupts-Kept l s in
    let none_left : marks u.vdirty 64 ≡ 0 =
      ground (arith, interrupts-marks l s q, marks-most s.vdirty 64) in
    let shown : u.shown ≡ false = k.hidden q.off q.hidden in
    let same : u.vbuffer (80 * line + c) ≡ s.vbuffer (80 * line + c) =
      ground (arith, k.same_text (80 * line + c), shown, q.hidden) in
    (interrupts-Synced l s h).row line c a b (marks-clean u.vdirty 64 line none_left a) ∙ same
