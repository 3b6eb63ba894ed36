-- ===== src/Application/Worker/Retry.antt =====
-- How long a worker of screening.go or delivery.go waits before it tries again.
use financial_crime_complian.Common.{
  ◌+◌, inl, inr, Bool-cases, ℕ, zero, suc, ◌*◌, ◌^◌, ltb, if◌then◌else◌, ◌≤◌, ◌≡◌, arith, ◌∙◌, ap,
  sym,
}
use financial_crime_complian.Application.Worker.Backoff.{minute, hour, double_until}
use financial_crime_complian.Common.{Bool-cases}
use financial_crime_complian.Application.Worker.{screening_retry_backoff}
use financial_crime_complian.Application.Delivery.{delivery_backoff}

abbrev pub min : ℕ → ℕ → ℕ
min a b = if ltb a b then a else b

power_pos : (n : ℕ) → 1 ≤ 2 ^ n
power_pos zero = omega arith
power_pos (suc n) = omega (arith, power_pos n)

min_short : (a b : ℕ) → a ≤ b → min a b ≡ a
min_short a b h = ground arith

double_assoc : (d p : ℕ) → d * 2 * p ≡ d * (2 * p)
double_assoc d zero = omega arith
double_assoc d (suc p) = omega (arith, double_assoc d p)

at_limit : (limit delay p : ℕ) → limit ≤ delay → 1 ≤ p → min limit (delay * p) ≡ limit
at_limit limit delay zero h k = absurd (omega arith)
at_limit limit delay (suc q) h k = ground arith

pow_suc : (n : ℕ) → 2 * 2 ^ n ≡ 2 ^ suc n
pow_suc n = omega arith

double_until-eq : (limit n delay : ℕ) → double_until limit n delay ≡ min limit (delay * 2 ^ n)
unfolding double_until
double_until-eq limit zero delay = ground arith
double_until-eq limit (suc n) delay = elim (Bool-cases (ltb delay limit)) [
  | inl h ↦ rw h (
      double_until-eq limit n (delay * 2)
      ∙ ap (min limit) (double_assoc delay (2 ^ n) ∙ ap (λ p. delay * p) (pow_suc n)))
  | inr h ↦ rw h (ground (arith, at_limit limit delay (2 ^ suc n), power_pos (suc n)))
]

-- The delay before the next try, after n + 1 failures in a row, is the base delay doubled n times and
-- cut at the limit: 5 minutes and 24 hours for a screening, 1 minute and 1 hour for a delivery.
pub backoff-eq-capped_power :
    (n : ℕ)
    → (screening_retry_backoff (suc n) ≡ min (24 * hour) (5 * minute * 2 ^ n))
      × (delivery_backoff (suc n) ≡ min hour (minute * 2 ^ n))
unfolding screening_retry_backoff delivery_backoff
backoff-eq-capped_power n =
    (double_until-eq (24 * hour) n (5 * minute), double_until-eq hour n minute)

scaled_le : (d p : ℕ) → 1 ≤ p → d ≤ d * p
scaled_le d zero h = absurd (omega arith)
scaled_le d (suc q) h = omega arith

scaled_twice : (d p : ℕ) → d * (2 * p) ≡ d * p + d * p
scaled_twice d zero = omega arith
scaled_twice d (suc p) = omega (arith, scaled_twice d p)

capped_power_bounds :
    (limit delay n : ℕ)
    → delay ≤ limit
    → (delay ≤ min limit (delay * 2 ^ n))
      × (min limit (delay * 2 ^ n) ≤ limit)
      × (min limit (delay * 2 ^ n) ≤ min limit (delay * 2 ^ suc n))
capped_power_bounds limit delay n h =
    rw (sym (pow_suc n))
      (ground (arith, scaled_le delay (2 ^ n) (power_pos n), scaled_twice delay (2 ^ n)))

-- The wait before a retry stays between the base delay and the limit (5 minutes and 24 hours for a
-- screening, 1 minute and 1 hour for a delivery), and one failure more never makes it shorter.
pub backoff_bounds :
    (n : ℕ)
    → ((5 * minute ≤ screening_retry_backoff n)
        × (screening_retry_backoff n ≤ 24 * hour)
        × (screening_retry_backoff n ≤ screening_retry_backoff (suc n)))
      × ((minute ≤ delivery_backoff n)
          × (delivery_backoff n ≤ hour)
          × (delivery_backoff n ≤ delivery_backoff (suc n)))
unfolding screening_retry_backoff delivery_backoff double_until
backoff_bounds zero = ground arith
backoff_bounds (suc n) =
    rw
      (
        double_until-eq (24 * hour) n (5 * minute),
        double_until-eq hour n minute,
        double_until-eq (24 * hour) (suc n) (5 * minute),
        double_until-eq hour (suc n) minute,
      )
      (
        capped_power_bounds (24 * hour) (5 * minute) n (omega arith),
        capped_power_bounds hour minute n (omega arith),
      )
