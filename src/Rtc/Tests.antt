-- ===== src/Rtc/Tests.antt =====
-- Runs of kernel/rtc.c across midnight, and its theorems at them.
use fobos_os.Base.{◌≡◌, refl, true, arith}
use fobos_os.Base.Int.{pos, negsuc, ◌+ℤ◌, ◌-ℤ◌}
use fobos_os.Rtc.{
  RtcTime, apply_offset, wrap_minutes, lower_minutes, raise_minutes, move_day, borrow_months,
  carry_months, days_in_month, is_leap, civil_days, days_from_civil, weekday_of, decode_hour,
  rtc_read, bcd_to_bin,
}
use fobos_os.Rtc.Offset.{IsTime, Moved, apply_offset-Moved}
use fobos_os.Rtc.Decode.{hour_register, decode_hour-hour_register}

-- 29 February 2024, half past eleven at night.
abbrev leap_night : RtcTime
leap_night = record {
  year = 2024;
  month = 2;
  day = 29;
  hour = 23;
  minute = 30;
  second = 7;
  weekday = 4;
}

leap_night-IsTime : IsTime leap_night
unfolding days_in_month is_leap
leap_night-IsTime = record {
  date = record {
    year_in = omega arith;
    month_from = omega arith;
    month_to = omega arith;
    day_from = omega arith;
    day_to = omega arith;
  };
  hour_in = omega arith;
  minute_in = omega arith;
}

-- One hour later it is Friday, 1 March.
apply_offset_march :
    apply_offset (pos 60) leap_night
    ≡ record { year = 2024; month = 3; day = 1; hour = 0; minute = 30; second = 7; weekday = 5 }
unfolding apply_offset wrap_minutes lower_minutes raise_minutes move_day borrow_months carry_months
    days_in_month is_leap civil_days days_from_civil weekday_of ◌+ℤ◌ ◌-ℤ◌
apply_offset_march = refl

apply_offset-Moved_example : Moved leap_night (pos 60) (apply_offset (pos 60) leap_night)
apply_offset-Moved_example =
    apply_offset-Moved leap_night (pos 60) leap_night-IsTime (omega arith) (omega arith)

decode_hour-hour_register_example : decode_hour true true (hour_register true true 13) ≡ 13
decode_hour-hour_register_example = decode_hour-hour_register true true 13 (omega arith)

-- New Year at 00:10 in Greenwich is the evening before in New York, a Sunday.
rtc_read_new_year :
    rtc_read (negsuc 299) (record {
      sec = 0x59;
      min = 0x10;
      hour = 0x00;
      wday = 0x02;
      day = 0x01;
      mon = 0x01;
      year = 0x24;
      reg_b = 2;
      century = 0x20;
    })
    ≡ record { year = 2023; month = 12; day = 31; hour = 19; minute = 10; second = 59; weekday = 0 }
unfolding rtc_read decode_hour bcd_to_bin apply_offset wrap_minutes lower_minutes raise_minutes
    move_day borrow_months carry_months days_in_month is_leap civil_days days_from_civil weekday_of
    ◌+ℤ◌ ◌-ℤ◌
rtc_read_new_year = refl
