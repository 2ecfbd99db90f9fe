-- ===== src/Mouse/Bounds.antt =====
-- The pointer of kernel/mouse.c stays on the screen, and the packet buffer is never overrun.
use fobos_os.Base.{
  ℕ, ◌+◌, ◌-◌, ◌/◌, ◌%◌, ◌<◌, ◌≡◌, false, arith, inl, inr, Bool-cases, ltb, update, ◌==◌,
}
use fobos_os.Base.Int.{ℤ, pos, negsuc}
use fobos_os.Mouse.{Mouse, confine, move, mouse_irq}

-- A coordinate from 0 up to below `w`.
pub record Within (w : ℕ) (v : ℤ) : Type 0 where
  pub at : ℕ
  pub is_at : v ≡ pos at
  pub below : at < w

confine-Within : (w : ℕ) (v : ℤ) → 0 < w → Within w (confine w v)
unfolding confine
confine-Within w (pos n) h = elim (Bool-cases (ltb n w)) [
  | inl e ↦ record { at = n; is_at = ground arith; below = ground arith }
  | inr e ↦ record { at = w - 1; is_at = ground arith; below = omega arith }
]
confine-Within w (negsuc n) h = record { at = 0; is_at = ground arith; below = h }

-- The pointer is on a screen of that size, and fewer than three bytes wait.
pub record OnScreen (w h : ℕ) (m : Mouse) : Type 0 where
  pub x_in : Within w m.x
  pub y_in : Within h m.y
  pub partial : m.cycle < 3

move-OnScreen :
    (speed w h : ℕ) (m : Mouse) → 0 < w → 0 < h → OnScreen w h m → OnScreen w h (move speed w h m)
unfolding move
move-OnScreen speed w h m pw ph v =
    let ew : (w == 0) ≡ false = ground arith in
    let eh : (h == 0) ≡ false = ground arith in
    rw (ew, eh)
      (elim (Bool-cases (m.packet 0 / 8 % 2 == 0)) [
        | inl e ↦ rw e v
        | inr e ↦ elim (Bool-cases (m.packet 0 / 64 % 4 == 0)) [
          | inr e' ↦ rw (e, e') v
          | inl e' ↦
              rw (e, e')
                (record {
                  x_in = confine-Within w _ pw;
                  y_in = confine-Within h _ ph;
                  partial = v.partial;
                })
        ]
      ])

-- With a framebuffer of positive size, every interrupt keeps the pointer on the screen, and fewer
-- than three bytes in the packet buffer, so the byte that an interrupt stores lies inside it.
pub mouse_irq-OnScreen :
    (status byte speed w h : ℕ) (m : Mouse)
    → 0 < w
    → 0 < h
    → OnScreen w h m
    → OnScreen w h (mouse_irq status byte speed w h m)
unfolding mouse_irq
mouse_irq-OnScreen status byte speed w h m pw ph v =
    let m' = record m { packet = update m.packet m.cycle byte; cycle = (m.cycle + 1) % 256 } in
    let rest : OnScreen w h (record m' { cycle = 0 }) = record {
      x_in = v.x_in;
      y_in = v.y_in;
      partial = omega arith;
    } in
    elim (Bool-cases (status / 32 % 2 == 0)) [
      | inl e ↦ rw e v
      | inr e ↦ elim (Bool-cases (ltb ((m.cycle + 1) % 256) 3)) [
        | inl e' ↦ rw (e, e') (record { x_in = v.x_in; y_in = v.y_in; partial = ground arith })
        | inr e' ↦ rw (e, e') (move-OnScreen speed w h (record m' { cycle = 0 }) pw ph rest)
      ]
    ]
