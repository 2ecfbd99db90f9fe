-- ===== src/Rtc/Offset.antt =====
-- Applying the time zone in kernel/rtc.c moves the clock by exactly that many minutes.
use fobos_os.Base.{
  ℕ, zero, suc, ◌+◌, ◌-◌, ◌*◌, ◌/◌, ◌%◌, ◌≤◌, ◌<◌, ◌≡◌, refl, true, arith, inl, inr, Bool-cases,
  ltb, if◌then◌else◌, ◌∙◌, ap,
}
use fobos_os.Base.Int.{+ℤ_parts, ℤ, pos, negsuc, pos_part, neg_part, ◌+ℤ◌, ◌-ℤ◌}
use fobos_os.Rtc.{
  RtcTime, CivilDate, days_in_month, civil_days, month_before, month_after, raise_minutes,
  lower_minutes, wrap_minutes, borrow_months, carry_months, move_day, is_zero, apply_offset,
}
use fobos_os.Rtc.Calendar.{civil_days-day, civil_days-month_after, days_in_month_bounds}

lower_minutes_lem :
    (fuel total : ℕ)
    → total < 1440 * fuel + 1440
    → let (t, n) = lower_minutes fuel total in (t < 1440) × (t + 1440 * n ≡ total)
unfolding lower_minutes
lower_minutes_lem zero total h = (omega arith, omega arith)
lower_minutes_lem (suc fuel) total h = ground (arith, lower_minutes_lem fuel (total - 1440))

raise_minutes_lem :
    (fuel deficit : ℕ)
    → 1 ≤ deficit
    → deficit ≤ 1440 * fuel
    → let (t, n) = raise_minutes fuel deficit in (t < 1440) × (t + deficit ≡ 1440 * n)
unfolding raise_minutes
raise_minutes_lem zero deficit lo hi = absurd (omega arith)
raise_minutes_lem (suc fuel) deficit lo hi = ground (arith, raise_minutes_lem fuel (deficit - 1440))

-- The minute of the day is in range, and with the change of day it makes up the total.
pub wrap_minutes_lem :
    (total : ℤ)
    → let (t, delta) = wrap_minutes total in
      (t < 1440)
      × (t + 1440 * pos_part delta + neg_part total ≡ pos_part total + 1440 * neg_part delta)
unfolding wrap_minutes
wrap_minutes_lem (pos n) = ground (arith, lower_minutes_lem (n / 1440) n)
wrap_minutes_lem (negsuc k) = ground (arith, raise_minutes_lem (suc k / 1440 + 1) (suc k))

pub record IsDate (y m d : ℕ) : Type 0 where
  pub year_in : 2 ≤ y
  pub month_from : 1 ≤ m
  pub month_to : m ≤ 12
  pub day_from : 1 ≤ d
  pub day_to : d ≤ days_in_month y m

-- Year, month and day after a change of day.
abbrev moved : ℕ → ℕ → ℤ → CivilDate
moved y m d = let (y', m', d') = borrow_months 2 y m d in carry_months 2 y' m' d'

borrow_none : (fuel y m d : ℕ) → 1 ≤ d → borrow_months (suc fuel) y m (pos d) ≡ (y, m, pos d)
unfolding borrow_months
borrow_none fuel y m d h = ground arith

borrow_one :
    (fuel y m : ℕ)
    → let (y', m') = month_before y m in
      borrow_months (suc (suc fuel)) y m (pos 0) ≡ (y', m', pos (days_in_month y' m'))
unfolding borrow_months ◌+ℤ◌
borrow_one fuel y m =
    let (y', m') = month_before y m in
    ground (arith, days_in_month_bounds y' m', borrow_none fuel y' m' (days_in_month y' m'))

carry_none :
    (fuel y m d : ℕ) → d ≤ days_in_month y m → carry_months (suc fuel) y m (pos d) ≡ (y, m, pos d)
unfolding carry_months
carry_none fuel y m d h = ground arith

over_one : (n : ℕ) → pos (n + 1) -ℤ pos n ≡ pos 1
unfolding ◌-ℤ◌
over_one n = ground arith

add_one : (d : ℕ) → pos d +ℤ pos 1 ≡ pos (d + 1)
unfolding ◌+ℤ◌
add_one d = ground arith

sub_one : (d : ℕ) → 1 ≤ d → pos d +ℤ negsuc 0 ≡ pos (d - 1)
unfolding ◌+ℤ◌
sub_one d h = ground arith

grown : (n : ℕ) → ltb (n + 0) (n + 1 + 0) ≡ true
grown n = ground arith

carry_step :
    (fuel y m : ℕ)
    → carry_months (suc fuel) y m (pos (days_in_month y m + 1))
      ≡ (let (y', m') = month_after y m in carry_months fuel y' m' (pos 1))
unfolding carry_months
carry_step fuel y m = rw (over_one (days_in_month y m), grown (days_in_month y m)) refl

moved-next_month :
    (y m d : ℕ)
    → d ≡ days_in_month y m
    → let (y', m') = month_after y m in moved y m (pos d +ℤ pos 1) ≡ (y', m', pos 1)
moved-next_month y m d e =
    let (y', m') = month_after y m in
    let b = days_in_month_bounds y' m' in
    rw (e, add_one (days_in_month y m))
      (rw (borrow_none 1 y m (days_in_month y m + 1) (omega arith))
        (carry_step 1 y m ∙ carry_none 0 y' m' 1 (omega (arith, b))))

moved-next_day :
    (y m d : ℕ) → d < days_in_month y m → moved y m (pos d +ℤ pos 1) ≡ (y, m, pos (d + 1))
moved-next_day y m d h =
    rw (add_one d, borrow_none 1 y m (d + 1) (omega arith)) (carry_none 1 y m (d + 1) (omega arith))

moved-last_month :
    (y m : ℕ)
    → let (y', m') = month_before y m in
      moved y m (pos 1 +ℤ negsuc 0) ≡ (y', m', pos (days_in_month y' m'))
moved-last_month y m =
    let (y', m') = month_before y m in
    rw (sub_one 1 (omega arith), borrow_one 0 y m)
      (carry_none 1 y' m' (days_in_month y' m') (omega arith))

moved-last_day :
    (y m d : ℕ)
    → 1 < d
    → d ≤ days_in_month y m
    → moved y m (pos d +ℤ negsuc 0) ≡ (y, m, pos (d - 1))
moved-last_day y m d lo hi =
    rw (sub_one d (omega arith), borrow_none 1 y m (d - 1) (omega arith))
      (carry_none 1 y m (d - 1) (omega arith))

-- The date `(y', m', d')` is one day later than `(y, m, d)`.
abbrev NextDay : ℕ → ℕ → ℕ → CivilDate → Type 0
NextDay y m d (y', m', d') =
    (1 ≤ m')
    × (m' ≤ 12)
    × (1 ≤ pos_part d')
    × (pos_part d' ≤ days_in_month y' m')
    × (civil_days y' m' (pos_part d') ≡ civil_days y m d + 1)

abbrev DayBefore : ℕ → ℕ → ℕ → CivilDate → Type 0
DayBefore y m d (y', m', d') =
    (1 ≤ m')
    × (m' ≤ 12)
    × (1 ≤ pos_part d')
    × (pos_part d' ≤ days_in_month y' m')
    × (civil_days y' m' (pos_part d') + 1 ≡ civil_days y m d)

forward : (y m d : ℕ) → IsDate y m d → NextDay y m d (moved y m (pos d +ℤ pos 1))
forward y m d v = elim (Bool-cases (ltb d (days_in_month y m))) [
  | inl e ↦ rw (moved-next_day y m d (ground arith)) (
    v.month_from,
    v.month_to,
    omega arith,
    ground arith,
    omega (arith, civil_days-day y m d v.day_from, civil_days-day y m (d + 1) (omega arith)),
  )
  | inr e ↦
      let last : d ≡ days_in_month y m = ground (arith, v.day_to) in
      let (y', m') = month_after y m in
      let b = days_in_month_bounds y' m' in
      let range : (1 ≤ m') × (m' ≤ 12) = ground (arith, v.month_to) in
      rw (moved-next_month y m d last) (
        range.0,
        range.1,
        omega arith,
        omega (arith, b),
        omega (
          arith,
          civil_days-day y m d v.day_from,
          civil_days-month_after y m (omega (arith, v.year_in)) v.month_from v.month_to,
        ),
      )
]

backward : (y m d : ℕ) → IsDate y m d → DayBefore y m d (moved y m (pos d +ℤ negsuc 0))
backward y m d v = elim (Bool-cases (ltb 1 d)) [
  | inl e ↦ rw (moved-last_day y m d (ground arith) v.day_to) (
    v.month_from,
    v.month_to,
    ground arith,
    omega (arith, v.day_to),
    ground (arith, civil_days-day y m d v.day_from, civil_days-day y m (d - 1)),
  )
  | inr e ↦
      let first : d ≡ 1 = ground (arith, v.day_from) in
      let (y', m') = month_before y m in
      let b = days_in_month_bounds y' m' in
      let range : (1 ≤ m') × (m' ≤ 12) × (1 ≤ y') =
        ground (arith, v.month_from, v.month_to, v.year_in) in
      let back : month_after y' m' ≡ (y, m) = ground (arith, v.month_from, v.month_to, v.year_in) in
      let sums = civil_days-month_after y' m' range.2 range.0 range.1 in
      rw (first, moved-last_month y m)
        (
          range.0,
          range.1,
          omega (arith, b),
          omega arith,
          omega (
            arith,
            civil_days-day y' m' (days_in_month y' m') (omega (arith, b)),
            rw back at sums,
          ),
        )
]

-- The fields of a calendar date and a time of day, each in its range.
pub record IsTime (t : RtcTime) : Type 0 where
  pub date : IsDate t.year t.month t.day
  pub hour_in : t.hour < 24
  pub minute_in : t.minute < 60

-- The minutes since the calendar's first day.
abbrev pub clock_minutes : RtcTime → ℕ
clock_minutes t = civil_days t.year t.month t.day * 1440 + t.hour * 60 + t.minute

abbrev pub InRange : RtcTime → Type 0
InRange t =
    (1 ≤ t.month)
    × (t.month ≤ 12)
    × (1 ≤ t.day)
    × (t.day ≤ days_in_month t.year t.month)
    × (t.hour < 24)
    × (t.minute < 60)

-- The day changes by one at most.
data OneDay (delta : ℤ) : Type 0 where
  same : delta ≡ pos 0 → OneDay delta
  next : delta ≡ pos 1 → OneDay delta
  previous : delta ≡ negsuc 0 → OneDay delta

OneDay-of_range : (delta : ℤ) → pos_part delta ≤ 1 → neg_part delta ≤ 1 → OneDay delta
OneDay-of_range (pos zero) hp hn = same refl
OneDay-of_range (pos (suc zero)) hp hn = next refl
OneDay-of_range (pos (suc (suc n))) hp hn = absurd (omega arith)
OneDay-of_range (negsuc zero) hp hn = previous refl
OneDay-of_range (negsuc (suc n)) hp hn = absurd (omega arith)

-- A minute of the day that the offset keeps within a day on either side.
OneDay-wrap_minutes :
    (total : ℤ)
    → pos_part total < 2880
    → neg_part total ≤ 1440
    → let (t, delta) = wrap_minutes total in OneDay delta
OneDay-wrap_minutes (pos n) hp hn =
    let (t, delta) = wrap_minutes (pos n) in
    let w = wrap_minutes_lem (pos n) in OneDay-of_range delta (ground arith) (ground arith)
OneDay-wrap_minutes (negsuc k) hp hn =
    let (t, delta) = wrap_minutes (negsuc k) in
    let w = wrap_minutes_lem (negsuc k) in OneDay-of_range delta (ground arith) (ground arith)

apply_offset-zero : (t : RtcTime) → apply_offset (pos 0) t ≡ t
unfolding apply_offset
apply_offset-zero t = refl

-- What `apply_offset` does once the minutes have been wrapped.
abbrev shifted : ℤ → ℕ → RtcTime → RtcTime
shifted delta total t =
    let t' = record t { hour = total / 60; minute = total % 60 } in
    if is_zero delta then t' else move_day delta t'

abbrev pub Moved : RtcTime → ℤ → RtcTime → Type 0
Moved t offset t' =
    InRange t' × (clock_minutes t' + neg_part offset ≡ clock_minutes t + pos_part offset)

Moved-shifted :
    (t : RtcTime) (offset delta : ℤ) (total : ℕ)
    → IsTime t
    → OneDay delta
    → total < 1440
    → total + 1440 * pos_part delta + neg_part offset
      ≡ t.hour * 60 + t.minute + pos_part offset + 1440 * neg_part delta
    → Moved t offset (shifted delta total t)
unfolding move_day
Moved-shifted t offset delta total v (same e) small sums = rw e (
  (
    v.date.month_from,
    v.date.month_to,
    v.date.day_from,
    v.date.day_to,
    omega (arith, small),
    omega arith,
  ),
  omega (arith, sums, ap pos_part e, ap neg_part e),
)
Moved-shifted t offset delta total v (next e) small sums =
    let f = forward t.year t.month t.day v.date in
    rw e (
      (f.0, f.1, f.2, f.3, omega (arith, small), omega arith),
      omega (arith, f.4, sums, ap pos_part e, ap neg_part e),
    )
Moved-shifted t offset delta total v (previous e) small sums =
    let f = backward t.year t.month t.day v.date in
    rw e (
      (f.0, f.1, f.2, f.3, omega (arith, small), omega arith),
      omega (arith, f.4, sums, ap pos_part e, ap neg_part e),
    )

sum_range :
    (n : ℕ) (offset : ℤ)
    → n < 1440
    → pos_part offset ≤ 840
    → neg_part offset ≤ 840
    → (pos_part (pos n +ℤ offset) < 2880) × (neg_part (pos n +ℤ offset) ≤ 1440)
unfolding ◌+ℤ◌
sum_range n offset h hp hn = ground arith

zero_parts : (offset : ℤ) → is_zero offset ≡ true → (pos_part offset ≡ 0) × (neg_part offset ≡ 0)
zero_parts (pos zero) e = (refl, refl)
zero_parts (pos (suc n)) e = ground (arith, e)
zero_parts (negsuc n) e = ground (arith, e)

-- An offset of at most 14 hours either way moves a clock that shows a valid date and time by
-- exactly that many minutes of the calendar, and the clock still shows a valid date and time.
pub apply_offset-Moved :
    (t : RtcTime) (offset : ℤ)
    → IsTime t
    → pos_part offset ≤ 840
    → neg_part offset ≤ 840
    → Moved t offset (apply_offset offset t)
unfolding apply_offset
apply_offset-Moved t offset v hp hn =
    let total = pos (t.hour * 60 + t.minute) +ℤ offset in
    let parts = +ℤ_parts (pos (t.hour * 60 + t.minute)) offset in
    let w = wrap_minutes_lem total in
    let range =
      sum_range (t.hour * 60 + t.minute) offset (omega (arith, v.hour_in, v.minute_in)) hp hn in
    let day = OneDay-wrap_minutes total range.0 range.1 in
    elim (Bool-cases (is_zero offset)) [
      | inl e ↦
          let z = zero_parts offset e in
          rw e (
            (
              v.date.month_from, v.date.month_to, v.date.day_from, v.date.day_to, v.hour_in,
              v.minute_in,
            ),
            omega (arith, z.0, z.1),
          )
      | inr e ↦ rw e (
          Moved-shifted t offset (wrap_minutes total).1 (wrap_minutes total).0 v day w.0
            (omega (arith, w.1, parts)))
    ]
