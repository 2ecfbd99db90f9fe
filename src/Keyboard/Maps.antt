-- ===== src/Keyboard/Maps.antt =====
-- The scan code tables of kernel/keyboard.c, up to the last entry that is not 0: the entries are
-- the bytes that the driver puts into its buffer.
use fobos_os.Base.{ℕ, List, [], ◌∷◌}

unfoldable pub kbd_en : List ℕ
kbd_en =
    0x0 ∷ 0x1 ∷ 0x31 ∷ 0x32 ∷ 0x33 ∷ 0x34 ∷ 0x35 ∷ 0x36 ∷ 0x37 ∷ 0x38 ∷ 0x39 ∷ 0x30 ∷ 0x2d ∷ 0x3d
    ∷ 0xe ∷ 0xf ∷ 0x71 ∷ 0x77 ∷ 0x65 ∷ 0x72 ∷ 0x74 ∷ 0x79 ∷ 0x75 ∷ 0x69 ∷ 0x6f ∷ 0x70 ∷ 0x5b ∷ 0x5d
    ∷ 0x1c ∷ 0x1d ∷ 0x61 ∷ 0x73 ∷ 0x64 ∷ 0x66 ∷ 0x67 ∷ 0x68 ∷ 0x6a ∷ 0x6b ∷ 0x6c ∷ 0x3b ∷ 0x27
    ∷ 0x60 ∷ 0x2a ∷ 0x5c ∷ 0x7a ∷ 0x78 ∷ 0x63 ∷ 0x76 ∷ 0x62 ∷ 0x6e ∷ 0x6d ∷ 0x2c ∷ 0x2e ∷ 0x2f
    ∷ 0x36 ∷ 0x2a ∷ 0x38 ∷ 0x20 ∷ []

unfoldable pub kbd_en_shift : List ℕ
kbd_en_shift =
    0x0 ∷ 0x1 ∷ 0x21 ∷ 0x40 ∷ 0x23 ∷ 0x24 ∷ 0x25 ∷ 0x5e ∷ 0x26 ∷ 0x2a ∷ 0x28 ∷ 0x29 ∷ 0x5f ∷ 0x2b
    ∷ 0xe ∷ 0xf ∷ 0x51 ∷ 0x57 ∷ 0x45 ∷ 0x52 ∷ 0x54 ∷ 0x59 ∷ 0x55 ∷ 0x49 ∷ 0x4f ∷ 0x50 ∷ 0x7b ∷ 0x7d
    ∷ 0x1c ∷ 0x1d ∷ 0x41 ∷ 0x53 ∷ 0x44 ∷ 0x46 ∷ 0x47 ∷ 0x48 ∷ 0x4a ∷ 0x4b ∷ 0x4c ∷ 0x3a ∷ 0x22
    ∷ 0x7e ∷ 0x2a ∷ 0x7c ∷ 0x5a ∷ 0x58 ∷ 0x43 ∷ 0x56 ∷ 0x42 ∷ 0x4e ∷ 0x4d ∷ 0x3c ∷ 0x3e ∷ 0x3f
    ∷ 0x36 ∷ 0x2a ∷ 0x38 ∷ 0x20 ∷ []

unfoldable pub kbd_ru : List ℕ
kbd_ru =
    0x0 ∷ 0x1 ∷ 0x31 ∷ 0x32 ∷ 0x33 ∷ 0x34 ∷ 0x35 ∷ 0x36 ∷ 0x37 ∷ 0x38 ∷ 0x39 ∷ 0x30 ∷ 0x2d ∷ 0x3d
    ∷ 0xe ∷ 0xf ∷ 0xe9 ∷ 0xf6 ∷ 0xf3 ∷ 0xea ∷ 0xe5 ∷ 0xed ∷ 0xe3 ∷ 0xf8 ∷ 0xf9 ∷ 0xe7 ∷ 0xf5 ∷ 0xfa
    ∷ 0x1c ∷ 0x1d ∷ 0xf4 ∷ 0xfb ∷ 0xe2 ∷ 0xe0 ∷ 0xef ∷ 0xf0 ∷ 0xee ∷ 0xeb ∷ 0xe4 ∷ 0xe6 ∷ 0xfd
    ∷ 0x60 ∷ 0x2a ∷ 0x5c ∷ 0xff ∷ 0xf7 ∷ 0xf1 ∷ 0xec ∷ 0xe8 ∷ 0xf2 ∷ 0xfc ∷ 0xe1 ∷ 0xfe ∷ 0x2e
    ∷ 0x36 ∷ 0x2a ∷ 0x38 ∷ 0x20 ∷ []

unfoldable pub kbd_ru_shift : List ℕ
kbd_ru_shift =
    0x0 ∷ 0x1 ∷ 0x21 ∷ 0x40 ∷ 0x23 ∷ 0x24 ∷ 0x25 ∷ 0x5e ∷ 0x26 ∷ 0x2a ∷ 0x28 ∷ 0x29 ∷ 0x5f ∷ 0x2b
    ∷ 0xe ∷ 0xf ∷ 0xc9 ∷ 0xd6 ∷ 0xd3 ∷ 0xca ∷ 0xc5 ∷ 0xcd ∷ 0xc3 ∷ 0xd8 ∷ 0xd9 ∷ 0xc7 ∷ 0xd5 ∷ 0xda
    ∷ 0x1c ∷ 0x1d ∷ 0xd4 ∷ 0xdb ∷ 0xc2 ∷ 0xc0 ∷ 0xcf ∷ 0xd0 ∷ 0xce ∷ 0xcb ∷ 0xc4 ∷ 0xc6 ∷ 0xdd
    ∷ 0x7e ∷ 0x2a ∷ 0x7c ∷ 0xdf ∷ 0xd7 ∷ 0xd1 ∷ 0xcc ∷ 0xc8 ∷ 0xd2 ∷ 0xdc ∷ 0xc1 ∷ 0xde ∷ 0x2c
    ∷ 0x36 ∷ 0x2a ∷ 0x38 ∷ 0x20 ∷ []
