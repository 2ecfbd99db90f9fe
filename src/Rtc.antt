-- ===== src/Rtc.antt =====
-- The CMOS clock, kernel/rtc.c: decoding the registers and applying the time zone offset. The bytes
-- of the registers enter as arguments; the retry loop around them, which waits for an update to
-- end, is left to the caller. Years are at least 1900, so the calendar's numbers are natural; what
-- can fall below zero (the minute of the day, the day of the month, the day number) is an integer.
pub mod Calendar
pub mod Offset
pub mod Decode
mod Tests
use fobos_os.Base.{
  ℕ, zero, suc, ◌+◌, ◌-◌, ◌*◌, ◌/◌, ◌%◌, Bool, true, false, not, ◌&&◌, ◌||◌, List, [], ◌∷◌, get_or,
  ltb, leb, ◌==◌, if◌then◌else◌,
}
use fobos_os.Base.Int.{ℤ, pos, negsuc, pos_part, sub_ℕ, ◌+ℤ◌, ◌-ℤ◌, ltb_ℤ}

-- `struct rtc_time`
pub record RtcTime : Type 0 where
  pub year : ℕ
  pub month : ℕ
  pub day : ℕ
  pub hour : ℕ
  pub minute : ℕ
  pub second : ℕ
  pub weekday : ℕ

-- `(v & 0x0F) + ((v >> 4) * 10)`
pub bcd_to_bin : ℕ → ℕ
bcd_to_bin v = v % 16 + v / 16 * 10

pub is_leap : ℕ → Bool
is_leap y = (y % 4 == 0) && not (y % 100 == 0) || (y % 400 == 0)

pub days_in_month : ℕ → ℕ → ℕ
days_in_month y m =
    let dim : List ℕ = 31 ∷ 28 ∷ 31 ∷ 30 ∷ 31 ∷ 30 ∷ 31 ∷ 31 ∷ 30 ∷ 31 ∷ 30 ∷ 31 ∷ [] in
    if ltb m 1 || ltb 12 m then 30 else if (m == 2) && is_leap y then 29 else get_or dim (m - 1) 0

-- `days_from_civil` before `- 719468`: the days since the first of March of the year 0.
pub civil_days : ℕ → ℕ → ℕ → ℕ
civil_days y0 m d =
    let y = if leb m 2 then y0 - 1 else y0 in
    let era = y / 400 in
    let yoe = y - era * 400 in
    let doy = (153 * (if ltb 2 m then m - 3 else m + 9) + 2) / 5 + d - 1 in
    let doe = yoe * 365 + yoe / 4 - yoe / 100 + doy in era * 146097 + doe

pub days_from_civil : ℕ → ℕ → ℕ → ℤ
days_from_civil y m d = sub_ℕ (civil_days y m d) 719468

-- C's `%` by 7, which keeps the sign.
abbrev pub rem7 : ℤ → ℤ
rem7 (pos n) = pos (n % 7)
rem7 (negsuc n) = sub_ℕ 0 (suc n % 7)

-- `((days + 4) % 7 + 7) % 7`
pub weekday_of : ℤ → ℕ
weekday_of days = pos_part (rem7 (days +ℤ pos 4) +ℤ pos 7) % 7

-- `while (total < 0) { total += 1440; day_delta--; }` on a total of `-(deficit)`: the new total
-- and the number of rounds. `fuel` rounds are enough for a deficit of at most `1440 * fuel`.
pub raise_minutes : ℕ → ℕ → ℕ × ℕ
raise_minutes zero deficit = (0, 0)
raise_minutes (suc fuel) deficit =
    let (t, n) = raise_minutes fuel (deficit - 1440) in
    if leb deficit 1440 then (1440 - deficit, 1) else (t, n + 1)

-- `while (total >= 1440) { total -= 1440; day_delta++; }`
pub lower_minutes : ℕ → ℕ → ℕ × ℕ
lower_minutes zero total = (total, 0)
lower_minutes (suc fuel) total =
    let (t, n) = lower_minutes fuel (total - 1440) in
    if leb 1440 total then (t, n + 1) else (total, 0)

-- Minute of the day and change of day, for the minute of the day with the offset added.
pub wrap_minutes : ℤ → ℕ × ℤ
wrap_minutes (pos total) = let (t, n) = lower_minutes (total / 1440) total in (t, pos n)
wrap_minutes (negsuc k) = let (t, n) = raise_minutes (suc k / 1440 + 1) (suc k) in (t, sub_ℕ 0 n)

-- Year, month and day.
abbrev pub CivilDate : Type 0
CivilDate = ℕ × ℕ × ℤ

-- `t->month--; if (t->month < 1) { t->month = 12; t->year--; }`
abbrev pub month_before : ℕ → ℕ → ℕ × ℕ
month_before y m = if ltb (m - 1) 1 then (y - 1, 12) else (y, m - 1)

abbrev pub month_after : ℕ → ℕ → ℕ × ℕ
month_after y m = if ltb 12 (m + 1) then (y + 1, 1) else (y, m + 1)

-- `while (t->day < 1)`, with fuel.
pub borrow_months : ℕ → ℕ → ℕ → ℤ → CivilDate
borrow_months zero y m d = (y, m, d)
borrow_months (suc fuel) y m d =
    let (y', m') = month_before y m in
    let rest = borrow_months fuel y' m' (d +ℤ pos (days_in_month y' m')) in
    if ltb_ℤ d (pos 1) then rest else (y, m, d)

-- `while (t->day > days_in_month(t->year, t->month))`, with fuel.
pub carry_months : ℕ → ℕ → ℕ → ℤ → CivilDate
carry_months zero y m d = (y, m, d)
carry_months (suc fuel) y m d =
    let (y', m') = month_after y m in
    let rest = carry_months fuel y' m' (d -ℤ pos (days_in_month y m)) in
    if ltb_ℤ (pos (days_in_month y m)) d then rest else (y, m, d)

-- The part of `apply_offset` that runs when the day changes. Each loop gets two rounds: a change
-- of one day, which offsets of up to 14 hours make, needs one.
pub move_day : ℤ → RtcTime → RtcTime
move_day delta t =
    let (y, m, d) = borrow_months 2 t.year t.month (pos t.day +ℤ delta) in
    let (y', m', d') = carry_months 2 y m d in
    record t {
      year = y';
      month = m';
      day = pos_part d';
      weekday = weekday_of (days_from_civil y' m' (pos_part d'));
    }

abbrev pub is_zero : ℤ → Bool
is_zero (pos zero) = true
is_zero _ = false

pub apply_offset : ℤ → RtcTime → RtcTime
apply_offset offset t =
    let (total, delta) = wrap_minutes (pos (t.hour * 60 + t.minute) +ℤ offset) in
    let t' = record t { hour = total / 60; minute = total % 60 } in
    if is_zero offset then t else if is_zero delta then t' else move_day delta t'

-- The registers that `rtc_read` reads, and register B.
pub record Registers : Type 0 where
  pub sec : ℕ
  pub min : ℕ
  pub hour : ℕ
  pub wday : ℕ
  pub day : ℕ
  pub mon : ℕ
  pub year : ℕ
  pub reg_b : ℕ
  pub century : ℕ

abbrev pub decode_byte : Bool → ℕ → ℕ
decode_byte bcd v = if bcd then bcd_to_bin v % 256 else v

-- The hour, from a register in 12-hour or 24-hour form. In 12-hour form bit 7 says afternoon.
pub decode_hour : Bool → Bool → ℕ → ℕ
decode_hour bcd hour12 raw =
    let pm = hour12 && (raw / 128 % 2 == 1) in
    let hour = decode_byte bcd (if hour12 then raw % 128 else raw) in
    let h = if pm && not (hour == 12) then (hour + 12) % 256 else hour in
    let h' = if not pm && (h == 12) then 0 else h in if hour12 then h' else hour

-- `rtc_read` once the registers have been read.
pub rtc_read : ℤ → Registers → RtcTime
rtc_read offset r =
    let bcd = r.reg_b / 4 % 2 == 0 in
    let hour12 = r.reg_b / 2 % 2 == 0 in
    let cty = if r.century == 0 then 0 else decode_byte bcd r.century in
    let century = if leb 19 cty && leb cty 21 then cty else 20 in
    apply_offset offset (record {
      year = century * 100 + decode_byte bcd r.year;
      month = decode_byte bcd r.mon;
      day = decode_byte bcd r.day;
      hour = decode_hour bcd hour12 r.hour;
      minute = decode_byte bcd r.min;
      second = decode_byte bcd r.sec;
      weekday = decode_byte bcd r.wday % 8;
    })

-- Bounds of -12 and +14 hours.
pub rtc_set_offset : ℤ → ℤ
rtc_set_offset minutes =
    let low = if ltb_ℤ minutes (negsuc 719) then negsuc 719 else minutes in
    if ltb_ℤ (pos 840) low then pos 840 else low
