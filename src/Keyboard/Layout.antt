-- ===== src/Keyboard/Layout.antt =====
-- The Shift+Alt chord of kernel/keyboard.c.
use fobos_os.Base.{ℕ, ◌-◌, ◌≡◌, Bool, true, false, not, ◌&&◌, arith, if◌then◌else◌}
use fobos_os.Keyboard.{
  Keyboard, other_layout, check_layout_toggle, key_up, key_down, key_char, put, keyboard_irq,
}

-- The latch is set exactly while both keys are down.
abbrev pub Settled : Keyboard → Type 0
Settled k = k.latch ≡ (k.shift && k.alt)

abbrev pub chord : Keyboard → Bool
chord k = k.shift && k.alt

-- What an event does to the latch and the layout.
abbrev pub Toggles : Keyboard → Keyboard → Type 0
Toggles k k' =
    Settled k'
    × (k'.layout ≡ (if chord k' && not (chord k) then other_layout k.layout else k.layout))

check_lem :
    (k : Keyboard)
    → let k' = check_layout_toggle k in
      Settled k'
      × (chord k' ≡ chord k)
      × (k'.layout ≡ (if chord k && not k.latch then other_layout k.layout else k.layout))
unfolding check_layout_toggle
check_lem k = ground arith

key_char-keeps :
    (sc : ℕ) (k : Keyboard)
    → let k' = key_char sc k in
      (k'.latch ≡ k.latch) × (k'.shift ≡ k.shift) × (k'.alt ≡ k.alt) × (k'.layout ≡ k.layout)
unfolding key_char put
key_char-keeps sc k = ground arith

key_up-Toggles : (code : ℕ) (k : Keyboard) → Settled k → Toggles k (key_up code k)
unfolding key_up
key_up-Toggles code k v = ground (
  arith,
  check_lem (record k { shift = false }),
  check_lem (record k { alt = false }),
  check_lem (record k { ctrl = false }),
  check_lem k,
)

key_down-Toggles : (sc : ℕ) (k : Keyboard) → Settled k → Toggles k (key_down sc k)
unfolding key_down
key_down-Toggles sc k v = ground (
  arith,
  check_lem (record k { shift = true }),
  check_lem (record k { alt = true }),
  key_char-keeps sc k,
)

-- While the latch agrees with the keys, every interrupt keeps it so, and the layout changes exactly
-- at the event that completes the Shift+Alt chord: once for each press, however long it is held.
pub keyboard_irq-Toggles :
    (status sc : ℕ) (k : Keyboard) → Settled k → Toggles k (keyboard_irq status sc k)
unfolding keyboard_irq
keyboard_irq-Toggles status sc k v =
    ground (arith, key_up-Toggles (sc - 128) k v, key_down-Toggles sc k v)
