-- ===== src/Application/Worker/Backoff.antt =====
-- The delays of internal/application/screening.go and delivery.go, which double up to a limit.
use financial_crime_complian.Common.{ℕ, zero, suc, ◌*◌, ◌^◌, ltb, if◌then◌else◌}

-- Durations are nanoseconds.
abbrev pub minute : ℕ
minute = 60 * 10 ^ 9

abbrev pub hour : ℕ
hour = 60 * minute

-- for i := 1; i < attempt && delay < limit; i++ { delay *= 2 }, with `rounds` = attempt - 1, and
-- the cut at the limit behind it.
unfoldable pub double_until : ℕ → ℕ → ℕ → ℕ
double_until limit zero delay = if ltb limit delay then limit else delay
double_until limit (suc rounds) delay =
    let longer = double_until limit rounds (delay * 2) in
    if ltb delay limit then longer else (if ltb limit delay then limit else delay)
