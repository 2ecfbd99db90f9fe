-- ===== src/Mouse.antt =====
-- The mouse driver, kernel/mouse.c: assembling three-byte packets, scaling the motion, and keeping
-- the pointer on the screen. The bytes of the ports, the speed setting and the framebuffer's size
-- enter as arguments; `int` coordinates are integers.
pub mod Bounds
mod Tests
use fobos_os.Base.{
  ℕ, ◌+◌, ◌-◌, ◌*◌, ◌/◌, ◌%◌, ◌^◌, Bool, true, false, not, ◌&&◌, ◌||◌, ltb, ◌==◌, if◌then◌else◌,
  update,
}
use fobos_os.Base.Int.{ℤ, pos, negsuc, sub_ℕ, ◌+ℤ◌, ◌-ℤ◌, ltb_ℤ}

pub record Mouse : Type 0 where
  pub x : ℤ
  pub y : ℤ
  pub left : Bool
  pub right : Bool
  pub cycle : ℕ
  pub packet : ℕ → ℕ

-- `mouse_scale`
pub mouse_scale : ℕ → ℕ
mouse_scale speed = if speed == 0 then 1 else if speed == 2 then 4 else 2

-- `d * scale / 2`, which C truncates towards zero.
pub scaled : ℤ → ℕ → ℤ
scaled (pos n) scale = pos (n * scale / 2)
scaled (negsuc n) scale = sub_ℕ 0 ((n + 1) * scale / 2)

-- A motion byte with its sign bit.
abbrev pub delta : ℕ → Bool → ℤ
delta byte sign = if sign then sub_ℕ byte 256 else pos byte

-- `if (g_x < 0) g_x = 0; if (g_x >= w) g_x = w - 1;` for a positive width.
pub confine : ℕ → ℤ → ℤ
confine w v =
    let v' = if ltb_ℤ v (pos 0) then pos 0 else v in if ltb_ℤ v' (pos w) then v' else sub_ℕ w 1

-- A complete packet. `fb_w` and `fb_h` are the framebuffer's size as `int`s.
pub move : ℕ → ℕ → ℕ → Mouse → Mouse
move speed fb_w fb_h m =
    let flags = m.packet 0 in
    let dx = scaled (delta (m.packet 1) (flags / 16 % 2 == 1)) (mouse_scale speed) in
    let dy = scaled (delta (m.packet 2) (flags / 32 % 2 == 1)) (mouse_scale speed) in
    let w = if fb_w == 0 then 800 else fb_w in
    let h = if fb_h == 0 then 600 else fb_h in
    if flags / 8 % 2 == 0 then m else if not (flags / 64 % 4 == 0) then m else record m {
      x = confine w (m.x +ℤ dx);
      y = confine h (m.y -ℤ dy);
      left = flags % 2 == 1;
      right = flags / 2 % 2 == 1;
    }

pub mouse_irq : ℕ → ℕ → ℕ → ℕ → ℕ → Mouse → Mouse
mouse_irq status byte speed fb_w fb_h m =
    if status / 32 % 2 == 0
    then m
    else let m' = record m { packet = update m.packet m.cycle byte; cycle = (m.cycle + 1) % 256 } in
      if ltb m'.cycle 3 then m' else move speed fb_w fb_h (record m' { cycle = 0 })
