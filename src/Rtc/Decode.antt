-- ===== src/Rtc/Decode.antt =====
-- The hour registers of kernel/rtc.c: every hour reads back from either form, BCD or binary.
use fobos_os.Base.{
  ℕ, ◌+◌, ◌*◌, ◌/◌, ◌%◌, ◌<◌, ◌≡◌, Bool, true, false, refl, leb, ◌==◌, ◌&&◌, if◌then◌else◌, arith,
}
use fobos_os.Base.{table, table_row}
use fobos_os.Base.Int.{ℤ, pos, negsuc, ◌≤ℤ◌}
use fobos_os.Rtc.{bcd_to_bin, decode_hour, rtc_set_offset}

-- The two digits of a number below 100, four bits each.
abbrev pub bin_to_bcd : ℕ → ℕ
bin_to_bcd n = n / 10 * 16 + n % 10

-- What the clock's hour register holds at hour `h`, by the form that register B selects.
abbrev pub hour_register : Bool → Bool → ℕ → ℕ
hour_register bcd hour12 h =
    let clock = if h % 12 == 0 then 12 else h % 12 in
    let shown = if hour12 then clock else h in
    let byte = if bcd then bin_to_bcd shown else shown in
    if hour12 && leb 12 h then byte + 128 else byte

reads_back : Bool → Bool → ℕ → Bool
unfolding decode_hour bcd_to_bin
reads_back bcd hour12 h = decode_hour bcd hour12 (hour_register bcd hour12 h) == h

reads_back_all : (bcd hour12 : Bool) → table (reads_back bcd hour12) 24 ≡ true
unfolding table reads_back decode_hour bcd_to_bin
reads_back_all true true = refl
reads_back_all true false = refl
reads_back_all false true = refl
reads_back_all false false = refl

-- The hour that the register holds is the hour that `rtc_read` finds, at each of the 24 hours and
-- in each of the four forms (BCD or binary, 12 hours or 24).
pub decode_hour-hour_register :
    (bcd hour12 : Bool) (h : ℕ) → h < 24 → decode_hour bcd hour12 (hour_register bcd hour12 h) ≡ h
unfolding reads_back
decode_hour-hour_register bcd hour12 h lt =
    let t = table_row (reads_back bcd hour12) 24 (reads_back_all bcd hour12) h lt in
    ground (arith, t)

-- The offset in use is between -12 and +14 hours, and one within those bounds is kept.
pub rtc_set_offset_lem :
    (minutes : ℤ)
    → (negsuc 719 ≤ℤ rtc_set_offset minutes)
      × (rtc_set_offset minutes ≤ℤ pos 840)
      × (negsuc 719 ≤ℤ minutes → minutes ≤ℤ pos 840 → rtc_set_offset minutes ≡ minutes)
unfolding rtc_set_offset
rtc_set_offset_lem minutes = ground arith
