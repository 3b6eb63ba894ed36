-- ===== src/Tests/Paging.antt =====
-- Pages on concrete data.
use financial_crime_complian.Common.{List, [], ◌∷◌, ◌≡◌, ◌≢◌, refl, String, arith, eq_iff, ap, ℕ}
use Prim.Native.Char.{Char, char, code}
use financial_crime_complian.Common.{zero, suc, Option, some, none, false, eqb, if◌then◌else◌}
use financial_crime_complian.Common.Int.{pos}
use financial_crime_complian.Common.Text.{is_empty}
use financial_crime_complian.Domain.Audit.{AuditEvent, Time}
use financial_crime_complian.Common.{All}
use financial_crime_complian.Memory.Pages.{list_page}
use financial_crime_complian.Common.Sort.{sort, insert}
use financial_crime_complian.Application.Queries.{
  event_cursor, TokenCodec, Cursor, new_page_request,
}
use financial_crime_complian.Tests.Fixtures.{event}
use financial_crime_complian.Memory.Order.{comes_first}
use financial_crime_complian.Memory.Paging.{page_after, next_page}
use financial_crime_complian.Memory.Walk.{IsFaithful, walk}
use financial_crime_complian.Memory.Walk.Complete.{walk-eq-sort}

abbrev event_at : Time → String → AuditEvent
event_at t id = record event { id = id; occurred_at = t }

abbrev logged : List AuditEvent
logged = event_at 10 "e1" ∷ event_at 20 "e2" ∷ event_at 20 "e3" ∷ event_at 30 "e4" ∷ []

logged_newest_first :
    sort (comes_first event_cursor) logged
    ≡ event_at 30 "e4" ∷ event_at 20 "e3" ∷ event_at 20 "e2" ∷ event_at 10 "e1" ∷ []
unfolding sort insert
logged_newest_first = refl

other_cursors :
    All
      (λ v. event_cursor v ≢ event_cursor (event_at 20 "e3"))
      (event_at 20 "e2" ∷ event_at 10 "e1" ∷ [])
other_cursors = (
  λ h. absurd (ground (arith, eq_iff "e2" "e3", ap (λ c. c.id) h)),
  (λ h. absurd (ground (arith, ap (λ c. c.time) h)), tt),
)

next_page_example :
    list_page event_cursor (page_after 1 (event_cursor (event_at 20 "e3"))) logged
    ≡ event_at 20 "e2" ∷ []
next_page_example =
    next_page event_cursor 1 logged (event_at 30 "e4" ∷ [])
      (event_at 20 "e2" ∷ event_at 10 "e1" ∷ []) (event_at 20 "e3") logged_newest_first
      (λ h. absurd (omega (arith, h))) other_cursors

-- A token for every cursor: its time in strokes, a bar, and its identifier.
abbrev stroke : Char
stroke = char 49 tt

abbrev bar : Char
bar = char 124 tt

write_token : ℕ → String → String
write_token zero id = String.◌∷◌ bar id
write_token (suc n) id = String.◌∷◌ stroke (write_token n id)

abbrev later : Option Cursor → Option Cursor
later none = none
later (some c) = some (record c { time = suc c.time })

read_token : String → Option Cursor
read_token String.[] = none
read_token (String.◌∷◌ c s) =
    let rest = read_token s in
    if eqb (code c) 124 then some (record { time = 0; id = s }) else later rest

abbrev strokes : TokenCodec
unfolding write_token read_token
strokes = record { encode = λ c. write_token c.time c.id; decode = read_token }

read_token-write_token :
    (n : ℕ) (id : String) → read_token (write_token n id) ≡ some (record { time = n; id = id })
unfolding read_token write_token
read_token-write_token zero id = refl
read_token-write_token (suc n) id = ap later (read_token-write_token n id)

is_empty-write_token : (n : ℕ) (id : String) → is_empty (write_token n id) ≡ false
unfolding write_token
is_empty-write_token zero id = refl
is_empty-write_token (suc n) id = refl

strokes-IsFaithful : IsFaithful strokes
unfolding strokes
strokes-IsFaithful = record {
  decodes = λ c. read_token-write_token c.time c.id;
  is_token = λ c. is_empty-write_token c.time c.id;
}

abbrev two_events : List AuditEvent
two_events = event_at 10 "e1" ∷ event_at 20 "e2" ∷ []

times_differ : event_cursor (event_at 20 "e2") ≢ event_cursor (event_at 10 "e1")
times_differ h = absurd (ground (arith, ap (λ c. c.time) h))

walk-eq-sort_example :
    walk strokes event_cursor 1 two_events 3 (new_page_request strokes (pos 1) "")
    ≡ some (sort (comes_first event_cursor) two_events)
walk-eq-sort_example =
    walk-eq-sort strokes event_cursor 1 two_events strokes-IsFaithful (omega arith) (omega arith)
      ((times_differ, tt), (tt, tt))
      ((λ h. absurd (omega (arith, h)), refl), ((λ h. absurd (omega (arith, h)), refl), tt))
