-- ===== src/Rtc/Calendar.antt =====
-- The calendar of kernel/rtc.c: months follow one another without gap or overlap in the day count.
use fobos_os.Base.{ℕ, zero, suc, ◌+◌, ◌≤◌, ◌≡◌, arith}
use fobos_os.Rtc.{is_leap, days_in_month, civil_days, month_after}

-- The day count grows by one with each day of a month.
pub civil_days-suc : (y m d : ℕ) → 1 ≤ d → civil_days y m (d + 1) ≡ civil_days y m d + 1
unfolding civil_days
civil_days-suc y m d h = ground arith

pub civil_days-month_after :
    (y m : ℕ)
    → 1 ≤ y
    → 1 ≤ m
    → m ≤ 12
    → let (y', m') = month_after y m in civil_days y' m' 1 ≡ civil_days y m 1 + days_in_month y m
unfolding civil_days days_in_month is_leap
civil_days-month_after y zero hy lo hi = absurd (omega arith)
civil_days-month_after y (suc zero) hy lo hi = ground arith
civil_days-month_after y (suc (suc zero)) hy lo hi = ground arith
civil_days-month_after y (suc (suc (suc zero))) hy lo hi = ground arith
civil_days-month_after y (suc (suc (suc (suc zero)))) hy lo hi = ground arith
civil_days-month_after y (suc (suc (suc (suc (suc zero))))) hy lo hi = ground arith
civil_days-month_after y (suc (suc (suc (suc (suc (suc zero)))))) hy lo hi = ground arith
civil_days-month_after y (suc (suc (suc (suc (suc (suc (suc zero))))))) hy lo hi = ground arith
civil_days-month_after y (suc (suc (suc (suc (suc (suc (suc (suc zero)))))))) hy lo hi =
    ground arith
civil_days-month_after y (suc (suc (suc (suc (suc (suc (suc (suc (suc zero))))))))) hy lo hi =
    ground arith
civil_days-month_after y (suc (suc (suc (suc (suc (suc (suc (suc (suc (suc zero)))))))))) hy lo hi =
    ground arith
civil_days-month_after y (suc (suc (suc (suc (suc (suc (suc (suc (suc (suc (suc zero))))))))))) hy
      lo hi =
    ground arith
civil_days-month_after y
      (suc (suc (suc (suc (suc (suc (suc (suc (suc (suc (suc (suc zero)))))))))))) hy lo hi =
    ground arith
civil_days-month_after y
      (suc (suc (suc (suc (suc (suc (suc (suc (suc (suc (suc (suc (suc m))))))))))))) hy lo hi =
    absurd (omega arith)

pub civil_days-day : (y m d : ℕ) → 1 ≤ d → civil_days y m d + 1 ≡ civil_days y m 1 + d
unfolding civil_days
civil_days-day y m d h = ground arith

pub days_in_month_bounds : (y m : ℕ) → (28 ≤ days_in_month y m) × (days_in_month y m ≤ 31)
unfolding days_in_month
days_in_month_bounds y zero = ground arith
days_in_month_bounds y (suc zero) = ground arith
days_in_month_bounds y (suc (suc zero)) = ground arith
days_in_month_bounds y (suc (suc (suc zero))) = ground arith
days_in_month_bounds y (suc (suc (suc (suc zero)))) = ground arith
days_in_month_bounds y (suc (suc (suc (suc (suc zero))))) = ground arith
days_in_month_bounds y (suc (suc (suc (suc (suc (suc zero)))))) = ground arith
days_in_month_bounds y (suc (suc (suc (suc (suc (suc (suc zero))))))) = ground arith
days_in_month_bounds y (suc (suc (suc (suc (suc (suc (suc (suc zero)))))))) = ground arith
days_in_month_bounds y (suc (suc (suc (suc (suc (suc (suc (suc (suc zero))))))))) = ground arith
days_in_month_bounds y (suc (suc (suc (suc (suc (suc (suc (suc (suc (suc zero)))))))))) =
    ground arith
days_in_month_bounds y (suc (suc (suc (suc (suc (suc (suc (suc (suc (suc (suc zero))))))))))) =
    ground arith
days_in_month_bounds y
      (suc (suc (suc (suc (suc (suc (suc (suc (suc (suc (suc (suc zero)))))))))))) =
    ground arith
days_in_month_bounds y
      (suc (suc (suc (suc (suc (suc (suc (suc (suc (suc (suc (suc (suc m))))))))))))) =
    ground arith
