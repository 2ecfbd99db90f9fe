-- ===== src/Mouse/Tests.antt =====
-- The theorem about kernel/mouse.c at a pointer in the middle of the screen.
use fobos_os.Base.{refl, false, arith, ◌==◌, if◌then◌else◌}
use fobos_os.Base.Int.{pos}
use fobos_os.Mouse.{Mouse, mouse_irq}
use fobos_os.Mouse.Bounds.{OnScreen, mouse_irq-OnScreen}

abbrev middle : Mouse
middle = record {
  x = pos 400;
  y = pos 300;
  left = false;
  right = false;
  cycle = 2;
  packet = λ k. if k == 0 then 0x18 else 200;
}

middle-OnScreen : OnScreen 800 600 middle
middle-OnScreen = record {
  x_in = record { at = 400; is_at = refl; below = omega arith };
  y_in = record { at = 300; is_at = refl; below = omega arith };
  partial = omega arith;
}

mouse_irq-OnScreen_example : OnScreen 800 600 (mouse_irq 0x21 255 1 800 600 middle)
mouse_irq-OnScreen_example =
    mouse_irq-OnScreen 0x21 255 1 800 600 middle (omega arith) (omega arith) middle-OnScreen
