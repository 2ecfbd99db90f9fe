-- ===== src/Keyboard/Tests.antt =====
-- Runs of kernel/keyboard.c, and its theorems at them.
use fobos_os.Base.{◌≡◌, refl, ◌⊎◌, true, [], ◌∷◌, ◌++◌, arith, ltb, update, if◌then◌else◌}
use fobos_os.Keyboard.{
  Keyboard, KeyLayout, keyboard_init, keyboard_irq, put, keyboard_getchar, key_down, key_char,
  check_layout_toggle, translate,
}
use fobos_os.Keyboard.Buffer.{InRing, contents, waiting, put-contents, keyboard_getchar-contents}
use fobos_os.Keyboard.Layout.{Toggles, keyboard_irq-Toggles}

abbrev fresh : Keyboard
fresh = keyboard_init (λ i. 0)

-- Two characters, at the end of the ring and at its start.
abbrev wrapped : Keyboard
wrapped = record fresh { buf = update (update (λ i. 0) 255 97) 0 98; head = 1; tail = 255 }

wrapped-InRing : InRing wrapped
wrapped-InRing = record { head_in = omega arith; tail_in = omega arith }

types_a : contents (keyboard_irq 1 0x1E fresh) ≡ 97 ∷ []
unfolding keyboard_irq key_down key_char put translate
types_a = refl

chord_toggles : (keyboard_irq 1 0x38 (keyboard_irq 1 0x2A fresh)).layout ≡ KeyLayout.ru
unfolding keyboard_irq key_down check_layout_toggle
chord_toggles = refl

put-contents_example :
    InRing (put 99 wrapped)
    × (contents (put 99 wrapped)
        ≡ (if ltb (waiting wrapped) 255 then contents wrapped ++ (99 ∷ []) else contents wrapped))
put-contents_example = put-contents 99 wrapped-InRing

keyboard_getchar-contents_example :
    InRing (keyboard_getchar wrapped).1
    × ((contents wrapped ≡ []) × (keyboard_getchar wrapped ≡ (0, wrapped))
        ⊎ (contents wrapped ≡ (keyboard_getchar wrapped).0 ∷ contents (keyboard_getchar wrapped).1))
keyboard_getchar-contents_example = keyboard_getchar-contents wrapped-InRing

keyboard_irq-Toggles_example :
    Toggles (record fresh { shift = true }) (keyboard_irq 1 0x38 (record fresh { shift = true }))
keyboard_irq-Toggles_example = keyboard_irq-Toggles 1 0x38 (record fresh { shift = true }) refl
