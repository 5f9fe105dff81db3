-- ===== src/Dates/Months.antt =====
-- The two loops over the months, of `date_to_number` and of `n_to_mdy`, in step.
use db3w.Common.{ℕ, zero, suc, ◌+◌, ◌%◌, ◌≤◌, ◌≡◌, ◌⊎◌, true, some, arith, ap}
use native.Mathlib.Decide.{dec_le}
use native.Mathlib.Nat.{le_of_eq}
use db3w.Dates.{
  days_of_month, is_leap, feb_days, month_limit, within, month_days, add_months, find_month,
}

pub feb_days_cases : (y : ℕ) → (feb_days y ≡ 28) ⊎ (feb_days y ≡ 29) × (y % 4 ≡ 0)
unfolding feb_days is_leap
feb_days_cases y = ground arith

-- The days of the year before the month.
abbrev pub before : ℕ → ℕ → ℕ
before f zero = 0
before f (suc zero) = 0
before f (suc (suc zero)) = 31
before f (suc (suc (suc zero))) = 31 + f
before f (suc (suc (suc (suc zero)))) = 62 + f
before f (suc (suc (suc (suc (suc zero))))) = 92 + f
before f (suc (suc (suc (suc (suc (suc zero)))))) = 123 + f
before f (suc (suc (suc (suc (suc (suc (suc zero))))))) = 153 + f
before f (suc (suc (suc (suc (suc (suc (suc (suc zero)))))))) = 184 + f
before f (suc (suc (suc (suc (suc (suc (suc (suc (suc zero))))))))) = 215 + f
before f (suc (suc (suc (suc (suc (suc (suc (suc (suc (suc zero)))))))))) = 245 + f
before f (suc (suc (suc (suc (suc (suc (suc (suc (suc (suc (suc zero))))))))))) = 276 + f
before f (suc (suc (suc (suc (suc (suc (suc (suc (suc (suc (suc (suc zero)))))))))))) = 306 + f
before f _ = 337 + f

pub record MonthDay (y m d : ℕ) : Type 0 where
  pub counted : add_months y m d ≡ some (before (feb_days y) m + d)
  pub found :
      find_month y 1 (before (feb_days y) m + d) days_of_month
      ≡ some (record { month = m; day = d; year = y })
  pub twelve : m ≤ 12
  pub next : before (feb_days y) m + d ≤ before (feb_days y) (suc m)

-- A property of the twelve months, given for each.
by_month :
    (P : ℕ → Type 0) (y d : ℕ)
    → P 1 × P 2 × P 3 × P 4 × P 5 × P 6 × P 7 × P 8 × P 9 × P 10 × P 11 × P 12
    → (m : ℕ) → within d (month_limit y m) ≡ true
    → P m
unfolding within month_limit
by_month P y d t zero v = cc
by_month P y d t (suc zero) v = t.0
by_month P y d t (suc (suc zero)) v = t.1
by_month P y d t (suc (suc (suc zero))) v = t.2
by_month P y d t (suc (suc (suc (suc zero)))) v = t.3
by_month P y d t (suc (suc (suc (suc (suc zero))))) v = t.4
by_month P y d t (suc (suc (suc (suc (suc (suc zero)))))) v = t.5
by_month P y d t (suc (suc (suc (suc (suc (suc (suc zero))))))) v = t.6
by_month P y d t (suc (suc (suc (suc (suc (suc (suc (suc zero)))))))) v = t.7
by_month P y d t (suc (suc (suc (suc (suc (suc (suc (suc (suc zero))))))))) v = t.8
by_month P y d t (suc (suc (suc (suc (suc (suc (suc (suc (suc (suc zero)))))))))) v = t.9
by_month P y d t (suc (suc (suc (suc (suc (suc (suc (suc (suc (suc (suc zero))))))))))) v = t.10
by_month P y d t (suc (suc (suc (suc (suc (suc (suc (suc (suc (suc (suc (suc zero)))))))))))) v =
    t.11
by_month P y d t (suc (suc (suc (suc (suc (suc (suc (suc (suc (suc (suc (suc (suc n))))))))))))) v =
    ground arith

month_1 : (y d : ℕ) → 1 ≤ d → within d (month_limit y 1) ≡ true → MonthDay y 1 d
unfolding within month_limit add_months month_days find_month
month_1 y d h v = ground (arith, feb_days_cases y)

month_2 : (y d : ℕ) → 1 ≤ d → within d (month_limit y 2) ≡ true → MonthDay y 2 d
unfolding within month_limit add_months month_days find_month
month_2 y d h v = ground (arith, feb_days_cases y)

month_3 : (y d : ℕ) → 1 ≤ d → within d (month_limit y 3) ≡ true → MonthDay y 3 d
unfolding within month_limit add_months month_days find_month
month_3 y d h v = ground (arith, feb_days_cases y)

month_4 : (y d : ℕ) → 1 ≤ d → within d (month_limit y 4) ≡ true → MonthDay y 4 d
unfolding within month_limit add_months month_days find_month
month_4 y d h v = ground (arith, feb_days_cases y)

month_5 : (y d : ℕ) → 1 ≤ d → within d (month_limit y 5) ≡ true → MonthDay y 5 d
unfolding within month_limit add_months month_days find_month
month_5 y d h v = ground (arith, feb_days_cases y)

month_6 : (y d : ℕ) → 1 ≤ d → within d (month_limit y 6) ≡ true → MonthDay y 6 d
unfolding within month_limit add_months month_days find_month
month_6 y d h v = ground (arith, feb_days_cases y)

month_7 : (y d : ℕ) → 1 ≤ d → within d (month_limit y 7) ≡ true → MonthDay y 7 d
unfolding within month_limit add_months month_days find_month
month_7 y d h v = ground (arith, feb_days_cases y)

month_8 : (y d : ℕ) → 1 ≤ d → within d (month_limit y 8) ≡ true → MonthDay y 8 d
unfolding within month_limit add_months month_days find_month
month_8 y d h v = ground (arith, feb_days_cases y)

month_9 : (y d : ℕ) → 1 ≤ d → within d (month_limit y 9) ≡ true → MonthDay y 9 d
unfolding within month_limit add_months month_days find_month
month_9 y d h v = ground (arith, feb_days_cases y)

month_10 : (y d : ℕ) → 1 ≤ d → within d (month_limit y 10) ≡ true → MonthDay y 10 d
unfolding within month_limit add_months month_days find_month
month_10 y d h v = ground (arith, feb_days_cases y)

month_11 : (y d : ℕ) → 1 ≤ d → within d (month_limit y 11) ≡ true → MonthDay y 11 d
unfolding within month_limit add_months month_days find_month
month_11 y d h v = ground (arith, feb_days_cases y)

month_12 : (y d : ℕ) → 1 ≤ d → within d (month_limit y 12) ≡ true → MonthDay y 12 d
unfolding within month_limit add_months month_days find_month
month_12 y d h v = ground (arith, feb_days_cases y)

-- Both month loops go over the same table: the first adds what the second takes off.
pub month_day : (y m d : ℕ) → 1 ≤ d → within d (month_limit y m) ≡ true → MonthDay y m d
month_day y m d h v =
    by_month (λ n. within d (month_limit y n) ≡ true → MonthDay y n d) y d
      (
        month_1 y d h,
        month_2 y d h,
        month_3 y d h,
        month_4 y d h,
        month_5 y d h,
        month_6 y d h,
        month_7 y d h,
        month_8 y d h,
        month_9 y d h,
        month_10 y d h,
        month_11 y d h,
        month_12 y d h,
      )
      m v v

-- The months of a year lie one behind another.
before_step : (f m : ℕ) → before f m ≤ before f (suc m)
before_step f (suc (suc (suc (suc (suc (suc (suc (suc (suc (suc (suc (suc zero)))))))))))) =
    omega arith
before_step f m = omega arith

pub before_mono : (f m n : ℕ) → m ≤ n → before f m ≤ before f n
before_mono f m zero h = ground arith
before_mono f m (suc n) h = elim (dec_le m n) [
  | yes p ↦ omega (arith, before_mono f m n p, before_step f n)
  | no p ↦ le_of_eq (ap (before f) {y = suc n} (omega arith))
]

pub before_year : (f m : ℕ) → m ≤ 12 → before f (suc m) ≤ 337 + f
before_year f m h = before_mono f (suc m) 13 (omega arith)
