-- ===== src/Application/Env.antt =====
-- What a service call reads of the outside: the clock, fresh identifiers, and Unicode's case table.
use Prim.Native.Char.{Char}
use financial_crime_complian.Common.{ℕ, String}
use financial_crime_complian.Common.Text.{to_upper, trim_space}
use financial_crime_complian.Domain.Audit.{Time}

pub record Env : Type 0 where
  -- s.now().UTC(), which a call reads once
  pub now : Time
  -- the result of the n-th call of newID in this call of the service
  pub new_id : ℕ → String
  -- unicode.ToUpper past ASCII
  pub wide : Char → Char

-- strings.ToUpper(strings.TrimSpace(s))
unfoldable pub upper_trim : Env → String → String
upper_trim env s = to_upper env.wide (trim_space s)
