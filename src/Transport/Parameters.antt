-- ===== src/Transport/Parameters.antt =====
-- internal/transport/httpapi/handler.go: the parameters in the query of a request.
use Prim.Native.Char.{code}
use mathlib.Core.Option
use financial_crime_complian.Domain.Errors.{Error}
use financial_crime_complian.Common.{zero}
use financial_crime_complian.Common.Int.{ℤ, pos, negsuc}
use Prim.Native.String.{String}
use financial_crime_complian.Application.Queries.{TokenCodec, new_page_request, PageRequest}
use Prim.Native.Nat.{ℕ}
use financial_crime_complian.Domain.Case.{CaseStatus}
use financial_crime_complian.Domain.Customer.{CustomerStatus}
use financial_crime_complian.Domain.Monitoring.{AlertStatus}
use financial_crime_complian.Effects.{Result, err}
use financial_crime_complian.Common.{
  Option, Bool, suc, if◌then◌else◌, some, ◌==◌, leb, none, ◌*◌, ◌&&◌, eqb, ◌+◌, ◌-◌,
}
use financial_crime_complian.Common.Text.{is_empty}
use financial_crime_complian.Transport.Requests.{Request}

abbrev pub is_digit : ℕ → Bool
is_digit c = leb b'0' c && leb c b'9'

-- The digits of a text onto the number that those before them make.
unfoldable pub parse_digits : ℕ → String → Option ℕ
parse_digits n String.[] = some n
parse_digits n (String.◌∷◌ c s) =
    let rest = parse_digits (10 * n + (code c - b'0')) s in if is_digit (code c) then rest else none

abbrev pub unsigned : String → Option ℕ
unfolding parse_digits
unsigned s = if is_empty s then none else parse_digits 0 s

abbrev pub negated : ℕ → ℤ
negated zero = pos 0
negated (suc n) = negsuc n

-- strconv.Atoi. It fails past the range of an int, where NewPageRequest refuses the number as well.
unfoldable pub atoi : String → Option ℤ
unfolding parse_digits
atoi String.[] = none
atoi (String.◌∷◌ c s) =
    if eqb (code c) b'-'
    then Option.map negated (unsigned s)
    else if eqb (code c) b'+'
    then Option.map pos (unsigned s)
    else Option.map pos (unsigned (String.◌∷◌ c s))

module _ (codec : TokenCodec) where
  -- pageRequest
  unfoldable pub page_request : Request → Result PageRequest
  unfolding atoi new_page_request
  page_request q =
      if is_empty q.page_size
      then new_page_request codec (pos 0) q.page_token
      else (elim (atoi q.page_size) [
        | none ↦ err Error.invalid_page
        | some size ↦ new_page_request codec size q.page_token
      ])

-- domain.CustomerStatus(text), and the other conversions of a query parameter.
unfoldable pub to_customer_status : String → CustomerStatus
to_customer_status s =
    if s == "pending_approval"
    then CustomerStatus.pending_approval
    else if s == "active"
    then CustomerStatus.active
    else if s == "rejected"
    then CustomerStatus.rejected
    else CustomerStatus.other s

unfoldable pub to_alert_status : String → AlertStatus
to_alert_status s =
    if s == "open"
    then AlertStatus.open_alert
    else if s == "closed"
    then AlertStatus.closed
    else AlertStatus.other s

unfoldable pub to_case_status : String → CaseStatus
to_case_status s =
    if s == "open"
    then CaseStatus.open_case
    else if s == "in_progress"
    then CaseStatus.in_progress
    else if s == "resolved"
    then CaseStatus.resolved
    else CaseStatus.other s
