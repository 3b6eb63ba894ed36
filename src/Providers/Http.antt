-- ===== src/Providers/Http.antt =====
-- internal/infrastructure/screening/http_provider.go: what a response is worth, the retries, and the
-- circuit breaker.
use financial_crime_complian.Common.{
  ℕ, zero, suc, ◌+◌, List, [], ◌∷◌, Bool, true, false, not, ◌||◌, ltb, leb, eqb, length,
  if◌then◌else◌,
}
use financial_crime_complian.Common.Int.{pos, is_below, is_above}
use financial_crime_complian.Common.Text.{is_empty, trim_space, format_int}
use financial_crime_complian.Domain.Errors.{Error}
use financial_crime_complian.Domain.Audit.{Time}
use financial_crime_complian.Domain.Screening.{ScreeningListType}
use financial_crime_complian.Effects.{Exec, ok, err}
use financial_crime_complian.Application.Screening.Gather.{ScreeningCandidate}
use Prim.Native.String.{◌++◌}

-- The body of a response, read up to the limit and decoded by encoding/json.
pub data Body : Type 0 where
  unreadable : Error → Body
  oversized : Body
  undecodable : Error → Body
  trailing : Body
  decoded : List ScreeningCandidate → Body

-- `is_json` is the test of the content type for the text "json".
pub record Response : Type 0 where
  pub status : ℕ
  pub is_json : Bool
  pub body : Body

-- What comes of an attempt: no request, an error of client.Do, or a response.
pub data Answer : Type 0 where
  unsent : Error → Answer
  lost : Error → Answer
  got : Response → Answer

-- What `request` returns: candidates, or an error and whether to try again.
pub data Reply : Type 0 where
  accepted : List ScreeningCandidate → Reply
  refused : Bool → Error → Reply

unfoldable pub status_error : ℕ → Error
unfolding format_int
status_error n = Error.external ("screening provider status " ++ format_int (pos n))

abbrev pub is_list_type : ScreeningListType → Bool
is_list_type (ScreeningListType.other _) = false
is_list_type _ = true

abbrev pub is_invalid_candidate : ScreeningCandidate → Bool
is_invalid_candidate c =
    is_below c.score 0
    || is_above c.score 100
    || is_empty (trim_space c.name)
    || is_empty (trim_space c.reason)
    || not (is_list_type c.list_type)

-- The loop over the candidates, which stops at the first that is not valid.
unfoldable pub has_invalid : List ScreeningCandidate → Bool
has_invalid [] = false
has_invalid (c ∷ cs) = let rest = has_invalid cs in if is_invalid_candidate c then true else rest

unfoldable pub reply_to_body : Body → Reply
unfolding has_invalid
reply_to_body (unreadable e) = refused false e
reply_to_body oversized = refused false (Error.external "screening provider response exceeds 1 MiB")
reply_to_body (undecodable e) = refused false e
reply_to_body trailing =
    refused false (Error.external "screening provider returned trailing JSON data")
reply_to_body (decoded cs) =
    if ltb 100 (length cs)
    then refused false (Error.external "screening provider returned too many candidates")
    else if has_invalid cs
    then refused false (Error.external "screening provider returned an invalid candidate")
    else accepted cs

-- HTTPProvider.request, from what becomes of the request on
unfoldable pub reply_to : Answer → Reply
unfolding status_error reply_to_body
reply_to (unsent e) = refused false e
reply_to (lost e) = refused true e
reply_to (got r) =
    if leb 500 r.status
    then refused true (status_error r.status)
    else if eqb r.status 429
    then refused true (status_error r.status)
    else if not (eqb r.status 200)
    then refused false (status_error r.status)
    else if not r.is_json
    then refused false (Error.external "screening provider returned a non-JSON response")
    else reply_to_body r.body

-- if !retry { break }, and the attempts that are left behind it.
abbrev pub or_again : Reply → Reply → Reply
or_again (accepted cs) rest = accepted cs
or_again (refused true e) rest = rest
or_again (refused false e) rest = refused false e

-- The loop of Screen with `retries` attempts behind the n-th, which has the n-th answer.
unfoldable pub attempts : ℕ → (ℕ → Answer) → ℕ → Reply
unfolding reply_to
attempts zero answers n = reply_to (answers n)
attempts (suc retries) answers n =
    let rest = attempts retries answers (suc n) in or_again (reply_to (answers n)) rest

-- The fields of HTTPProvider that change; 0 is the zero time.
pub record Circuit : Type 0 where
  pub failures : ℕ
  pub open_until : Time

abbrev pub closed_circuit : Circuit
closed_circuit = record { failures = 0; open_until = 0 }

-- The last part of Screen, at the time `later`.
unfoldable pub count_failure : Time → Time → Circuit → Circuit
count_failure later open_for c =
    if leb 3 (suc c.failures)
    then record { failures = 0; open_until = later + open_for }
    else record c { failures = suc c.failures }

-- One call of Screen: its clock at the start and at the end, and the answers to its attempts.
pub record Screening : Type 0 where
  pub now : Time
  pub later : Time
  pub answers : ℕ → Answer

abbrev pub circuit_open : Error
circuit_open = Error.external "screening provider circuit is open"

-- HTTPProvider.Screen
unfoldable pub screen : ℕ → Time → Screening → Exec Circuit (List ScreeningCandidate)
unfolding attempts count_failure
screen retries open_for s c =
    if ltb s.now c.open_until then (err circuit_open, c) else elim (attempts retries s.answers 0) [
      | accepted cs ↦ (ok cs, closed_circuit)
      | refused _ e ↦ (err e, count_failure s.later open_for c)
    ]
