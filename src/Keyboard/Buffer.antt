-- ===== src/Keyboard/Buffer.antt =====
-- The character buffer of kernel/keyboard.c is a queue of at most 255 characters.
use fobos_os.Base.{
  ℕ, zero, suc, ◌+◌, ◌-◌, ◌%◌, ◌<◌, ◌≡◌, refl, ◌⊎◌, ap, ap₂, true, false, inl, inr, Bool-cases,
  List, [], ◌∷◌, ◌++◌, arith, ltb, ◌==◌, if◌then◌else◌, update, length,
}
use fobos_os.Keyboard.{Keyboard, buffer_size, put, keyboard_getchar}

-- The number of characters that wait.
abbrev pub waiting : Keyboard → ℕ
waiting k = (k.head + 256 - k.tail) % 256

pub record InRing (k : Keyboard) : Type 0 where
  pub head_in : k.head < buffer_size
  pub tail_in : k.tail < buffer_size

-- The `n` characters from index `i` on, round the ring.
abbrev pub window : (ℕ → ℕ) → ℕ → ℕ → List ℕ
window b i zero = []
window b i (suc n) = b i ∷ window b ((i + 1) % 256) n

-- The queue that the ring stands for, oldest first.
abbrev pub contents : Keyboard → List ℕ
contents k = window k.buf k.tail (waiting k)

length-window : (b : ℕ → ℕ) (i n : ℕ) → length (window b i n) ≡ n
length-window b i zero = refl
length-window b i (suc n) = ap suc (length-window b ((i + 1) % 256) n)

-- Writing at a place outside the window does not show in it, and writing just past it extends it.
window-update :
    (b : ℕ → ℕ) (c h : ℕ) (i n : ℕ)
    → i < 256
    → n < 256
    → h ≡ (i + n) % 256
    → window (update b h c) i (suc n) ≡ window b i n ++ (c ∷ [])
window-update b c h i zero hi hn e = ground arith
window-update b c h i (suc n) hi hn e =
    ap₂ ◌∷◌ (ground arith)
      (window-update b c h ((i + 1) % 256) n (omega arith) (omega arith) (omega arith))

-- `put` appends a character while fewer than 255 wait, and drops it when the ring is full.
pub put-contents :
    (c : ℕ) {k : Keyboard}
    → InRing k
    → InRing (put c k)
      × (contents (put c k) ≡ (if ltb (waiting k) 255 then contents k ++ (c ∷ []) else contents k))
unfolding put
put-contents c {k} v = elim (Bool-cases ((k.head + 1) % 256 == k.tail)) [
  | inl e ↦
      let full : ltb (waiting k) 255 ≡ false = ground (arith, v.head_in, v.tail_in) in
      rw (e, full) (v, refl)
  | inr e ↦
      let room : ltb (waiting k) 255 ≡ true = ground (arith, v.head_in, v.tail_in) in
      let more : ((k.head + 1) % 256 + 256 - k.tail) % 256 ≡ suc (waiting k) =
        ground (arith, v.head_in, v.tail_in) in
      rw (e, room, more)
        (
          record { head_in = omega arith; tail_in = v.tail_in },
          window-update k.buf c k.head k.tail (waiting k) v.tail_in (omega arith)
              (omega (arith, v.head_in, v.tail_in)),
        )
]

-- `keyboard_getchar` takes the oldest character off the queue; on an empty queue it returns 0 and
-- changes nothing.
pub keyboard_getchar-contents :
    {k : Keyboard}
    → InRing k
    → InRing (keyboard_getchar k).1
      × ((contents k ≡ []) × (keyboard_getchar k ≡ (0, k))
          ⊎ (contents k ≡ (keyboard_getchar k).0 ∷ contents (keyboard_getchar k).1))
unfolding keyboard_getchar
keyboard_getchar-contents {k} v = elim (Bool-cases (k.head == k.tail)) [
  | inl e ↦
      let none_wait : waiting k ≡ 0 = ground (arith, v.tail_in) in
      rw (e, none_wait) (v, inl (refl, refl))
  | inr e ↦
      let fewer : waiting k ≡ suc ((k.head + 256 - (k.tail + 1) % 256) % 256) =
        ground (arith, v.head_in, v.tail_in) in
      rw (e, fewer) (record { head_in = v.head_in; tail_in = omega arith }, inr refl)
]
