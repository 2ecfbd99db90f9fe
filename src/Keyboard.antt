-- ===== src/Keyboard.antt =====
-- The keyboard driver, kernel/keyboard.c: modifier state, the EN/RU layout with its Shift+Alt latch,
-- and the ring buffer of 256 characters between the interrupt handler and its readers. The bytes
-- read from the ports enter as arguments.
pub mod Maps
pub mod Buffer
pub mod Layout
mod Tests
use fobos_os.Base.{
  ℕ, ◌+◌, ◌-◌, ◌%◌, ◌/◌, Bool, true, false, not, ◌&&◌, ◌||◌, Option, none, some, List, get_or, ◌==◌,
  leb, if◌then◌else◌, update,
}
use fobos_os.Keyboard.Maps.{kbd_en, kbd_en_shift, kbd_ru, kbd_ru_shift}

-- `KBD_BUF`
abbrev pub buffer_size : ℕ
buffer_size = 256

pub data KeyLayout : Type 0 where
  en ru : KeyLayout

pub record Keyboard : Type 0 where
  pub buf : ℕ → ℕ
  pub head : ℕ
  pub tail : ℕ
  pub shift : Bool
  pub alt : Bool
  pub ctrl : Bool
  pub last_key : ℕ
  pub layout : KeyLayout
  pub latch : Bool

abbrev pub key_lshift : ℕ
key_lshift = 0x2A

abbrev pub key_rshift : ℕ
key_rshift = 0x36

abbrev pub key_ctrl : ℕ
key_ctrl = 0x1D

abbrev pub key_alt : ℕ
key_alt = 0x38

abbrev pub other_layout : KeyLayout → KeyLayout
other_layout en = ru
other_layout ru = en

pub check_layout_toggle : Keyboard → Keyboard
check_layout_toggle k =
    if k.shift && k.alt
    then if k.latch then k else record k { layout = other_layout k.layout; latch = true }
    else record k { latch = false }

-- `KEY_LSHIFT` or `KEY_RSHIFT`
abbrev pub is_shift : ℕ → Bool
is_shift code = code == key_lshift || code == key_rshift

-- A key goes up: `code` is the scan code without its top bit.
pub key_up : ℕ → Keyboard → Keyboard
key_up code k = check_layout_toggle (
    if is_shift code
    then record k { shift = false }
    else if code == key_alt
    then record k { alt = false }
    else if code == key_ctrl
    then record k { ctrl = false }
    else k)

-- The character of a scan code under the layout and Shift.
pub translate : KeyLayout → Bool → ℕ → ℕ
unfolding kbd_en kbd_en_shift kbd_ru kbd_ru_shift
translate ru true sc = get_or kbd_ru_shift sc 0
translate ru false sc = get_or kbd_ru sc 0
translate en true sc = get_or kbd_en_shift sc 0
translate en false sc = get_or kbd_en sc 0

-- `int n = (g_head + 1) % KBD_BUF; if (n != g_tail) { g_buf[g_head] = c; g_head = n; }`
pub put : ℕ → Keyboard → Keyboard
put c k =
    let n = (k.head + 1) % buffer_size in
    if n == k.tail then k else record k { buf = update k.buf k.head c; head = n }

pub key_char : ℕ → Keyboard → Keyboard
key_char sc k =
    let c = translate k.layout k.shift sc in
    let k' = record k { last_key = sc } in if c == 0 then k' else put c k'

pub key_down : ℕ → Keyboard → Keyboard
key_down sc k =
    if is_shift sc
    then check_layout_toggle (record k { shift = true })
    else if sc == key_alt
    then check_layout_toggle (record k { alt = true })
    else if sc == key_ctrl
    then record k { ctrl = true }
    else key_char sc k

-- `status` is read from port 0x64, and `sc` from port 0x60.
pub keyboard_irq : ℕ → ℕ → Keyboard → Keyboard
keyboard_irq status sc k =
    if status % 2 == 0
    then k
    else if status / 32 % 2 == 1
    then k
    else if sc == 0xE0
    then k
    else if leb 128 sc
    then key_up (sc - 128) k
    else key_down sc k

abbrev pub keyboard_init : (ℕ → ℕ) → Keyboard
keyboard_init buf = record {
  buf = buf;
  head = 0;
  tail = 0;
  shift = false;
  alt = false;
  ctrl = false;
  last_key = 0;
  layout = en;
  latch = false;
}

pub keyboard_has_char : Keyboard → Bool
keyboard_has_char k = not (k.head == k.tail)

-- The character (0 when there is none) and the new state.
pub keyboard_getchar : Keyboard → ℕ × Keyboard
keyboard_getchar k =
    if k.head == k.tail
    then (0, k)
    else (k.buf k.tail, record k { tail = (k.tail + 1) % buffer_size })

pub keyboard_get_key : Keyboard → ℕ × Keyboard
keyboard_get_key k = (k.last_key, record k { last_key = 0 })

-- `none`: a number that is no layout.
pub keyboard_set_layout : Option KeyLayout → Keyboard → Keyboard
keyboard_set_layout none k = k
keyboard_set_layout (some l) k = record k { layout = l; latch = false }
