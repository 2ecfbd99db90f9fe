-- ===== src/Wire.antt =====
-- The byte-level helpers of kernel/net.c: big-endian fields, the Internet checksum, addresses in
-- text, host names. A packet is the list of its bytes, a string the list of its characters without
-- the terminating zero.
pub mod Checksum
pub mod Strings
pub mod Address
mod Tests
use fobos_os.Base.{
  ℕ, zero, suc, ◌+◌, ◌-◌, ◌*◌, ◌/◌, ◌%◌, ◌^◌, Bool, true, false, not, ◌&&◌, ◌||◌, Option, none,
  some, List, [], ◌∷◌, ◌++◌, length, get_or, take, drop, ltb, leb, ◌==◌, if◌then◌else◌,
}

abbrev pub rd16 : List ℕ → ℕ → ℕ
rd16 p i = get_or p i 0 * 256 + get_or p (i + 1) 0

abbrev pub rd32 : List ℕ → ℕ → ℕ
rd32 p i =
    get_or p i 0 * 2 ^ 24
    + get_or p (i + 1) 0 * 2 ^ 16
    + get_or p (i + 2) 0 * 256
    + get_or p (i + 3) 0

-- The bytes that `wr16` and `wr32` write.
abbrev pub wr16 : ℕ → List ℕ
wr16 v = v / 256 % 256 ∷ v % 256 ∷ []

abbrev pub wr32 : ℕ → List ℕ
wr32 v = v / 2 ^ 24 % 256 ∷ v / 2 ^ 16 % 256 ∷ v / 256 % 256 ∷ v % 256 ∷ []

abbrev pub ip_from : ℕ → ℕ → ℕ → ℕ → ℕ
ip_from a b c d = a * 2 ^ 24 + b * 2 ^ 16 + c * 256 + d

unfoldable pub csum_add : ℕ → List ℕ → ℕ
csum_add acc [] = acc
csum_add acc (a ∷ []) = (acc + a * 256) % 2 ^ 32
csum_add acc (a ∷ b ∷ bytes) = csum_add ((acc + (a * 256 + b)) % 2 ^ 32) bytes

-- `while (acc >> 16) acc = (acc & 0xFFFF) + (acc >> 16);`, with fuel.
unfoldable pub fold_carries : ℕ → ℕ → ℕ
fold_carries zero acc = acc
fold_carries (suc fuel) acc =
    let rest = fold_carries fuel (acc % 65536 + acc / 65536) in
    if acc / 65536 == 0 then acc else rest

-- Two rounds are enough for 32 bits.
unfoldable pub csum_finish : ℕ → ℕ
csum_finish acc = 65535 - fold_carries 2 acc % 65536

abbrev pub csum16 : List ℕ → ℕ
csum16 bytes = csum_finish (csum_add 0 bytes)

abbrev pub is_digit : ℕ → Bool
is_digit c = leb 48 c && leb c 57

-- `while (*s >= '0' && *s <= '9') { v = v * 10 + (u32)(*s - '0'); s++; }`: value and what is left.
unfoldable pub scan_number : ℕ → List ℕ → ℕ × List ℕ
scan_number v [] = (v, [])
scan_number v (c ∷ s) =
    let rest = scan_number ((v * 10 + (c - 48)) % 2 ^ 32) s in
    if is_digit c then rest else (v, c ∷ s)

-- The loop of `net_ip_from_string` with `free` parts left to fill; `none` where it returns.
unfoldable pub scan_parts : ℕ → List ℕ → List ℕ → Option (List ℕ)
scan_parts zero parts s = some parts
scan_parts (suc free) parts [] = some parts
scan_parts (suc free) parts (c ∷ s) =
    let (v, rest) = scan_number 0 (c ∷ s) in
    let parts' = parts ++ (v ∷ []) in
    let next = scan_parts free parts' (drop 1 rest) in
    if not (is_digit c)
    then none
    else if ltb 255 v
    then none
    else if get_or rest 0 0 == 46
    then next
    else if get_or rest 0 0 == 0
    then some parts'
    else none

-- `none` stands for `*ok = 0`.
abbrev pub join_parts : Option (List ℕ) → Option ℕ
join_parts (some (a ∷ b ∷ c ∷ d ∷ [])) = some (ip_from a b c d)
join_parts _ = none

unfoldable pub net_ip_from_string : List ℕ → Option ℕ
net_ip_from_string s = join_parts (scan_parts 4 [] s)

-- `strcmp(a, b) == 0`
unfoldable pub same_string : List ℕ → List ℕ → Bool
same_string [] [] = true
same_string [] (c ∷ t) = false
same_string (c ∷ s) [] = false
same_string (c ∷ s) (d ∷ t) = let rest = same_string s t in (c == d) && rest

-- `long[off - 1] == '.' && strcmp(short, long + off) == 0` with `off` the difference in length.
unfoldable pub ends_with_domain : List ℕ → List ℕ → Bool
ends_with_domain long short =
    let off = length long - length short in
    (get_or long (off - 1) 0 == 46) && same_string short (drop off long)

unfoldable pub net_host_matches : List ℕ → List ℕ → Bool
net_host_matches stored request =
    let sl = length stored in
    let rl = length request in
    not ((sl == 0) || (rl == 0))
    && (same_string stored request
        || (ltb sl rl && ends_with_domain request stored)
        || (ltb rl sl && ends_with_domain stored request))
