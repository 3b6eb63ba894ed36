-- ===== src/Providers/Breaker.antt =====
-- What HTTPProvider lets through, and when its circuit breaker opens.
use financial_crime_complian.Common.{
  ℕ, zero, suc, ◌+◌, ◌≤◌, ◌<◌, ◌≡◌, ap, ◌∙◌, List, [], ◌∷◌, Bool, true, false, inl, inr, Bool-cases,
  arith, ltb, leb, length, All, if◌then◌else◌, not, subst,
}
use financial_crime_complian.Providers.Http.{
  accepted, refused, decoded, unsent, lost, got, or_again, Screening, screen, Circuit, circuit_open,
  count_failure, closed_circuit,
}
use financial_crime_complian.Common.Int.{ℤ, pos, negsuc, is_below, is_above}
use financial_crime_complian.Effects.{ok, err}
use financial_crime_complian.Domain.Errors.{Error}
use financial_crime_complian.Domain.Audit.{Time}
use financial_crime_complian.Application.Screening.Gather.{ScreeningCandidate}
use financial_crime_complian.Providers.Http.{
  reply_to, reply_to_body, Reply, has_invalid, attempts, Body, Answer, is_invalid_candidate,
  is_list_type,
}
use financial_crime_complian.Common.Text.{is_empty, trim_space}
use financial_crime_complian.Common.{eqb}

abbrev pub IsScore : ℤ → Type 0
IsScore (pos n) = n ≤ 100
IsScore (negsuc n) = ⊥

-- A candidate that the service may store.
pub record IsCandidate (c : ScreeningCandidate) : Type 0 where
  pub score : IsScore c.score
  pub name : is_empty (trim_space c.name) ≡ false
  pub reason : is_empty (trim_space c.reason) ≡ false
  pub list_type : is_list_type c.list_type ≡ true

is_below-IsScore : (z : ℤ) → is_below z 0 ≡ false → is_above z 100 ≡ false → IsScore z
is_below-IsScore (pos n) h k = ground arith
is_below-IsScore (negsuc n) h k = ground arith

valid-IsCandidate : (c : ScreeningCandidate) → is_invalid_candidate c ≡ false → IsCandidate c
valid-IsCandidate c h = record {
  score = is_below-IsScore c.score (ground arith) (ground arith);
  name = ground arith;
  reason = ground arith;
  list_type = ground arith;
}

has_invalid_none : (cs : List ScreeningCandidate) → has_invalid cs ≡ false → All IsCandidate cs
unfolding has_invalid
has_invalid_none [] h = tt
has_invalid_none (c ∷ cs) h = elim (Bool-cases (is_invalid_candidate c)) [
  | inl e ↦ absurd (ground arith)
  | inr e ↦ (valid-IsCandidate c e, has_invalid_none cs (ground arith))
]

-- The candidates of a reply, if it has any, are few and valid.
abbrev IsChecked : Reply → Type 0
IsChecked (accepted cs) = (length cs ≤ 100) × All IsCandidate cs
IsChecked (refused _ _) = Unit

reply_to_body-IsChecked : (b : Body) → IsChecked (reply_to_body b)
unfolding reply_to_body
reply_to_body-IsChecked (decoded cs) = elim (Bool-cases (ltb 100 (length cs))) [
  | inl e ↦ rw e tt
  | inr e ↦ elim (Bool-cases (has_invalid cs)) [
    | inl f ↦ rw (e, f) tt
    | inr f ↦ rw (e, f) (ground arith, has_invalid_none cs f)
  ]
]
reply_to_body-IsChecked _ = tt

if-IsChecked : (b : Bool) (x y : Reply) → IsChecked x → IsChecked y → IsChecked (if b then x else y)
if-IsChecked true x y h k = h
if-IsChecked false x y h k = k

reply_to-IsChecked : (a : Answer) → IsChecked (reply_to a)
unfolding reply_to
reply_to-IsChecked (unsent e) = tt
reply_to-IsChecked (lost e) = tt
reply_to-IsChecked (got r) = if-IsChecked (leb 500 r.status) _ _ tt (
    if-IsChecked (eqb r.status 429) _ _ tt (
      if-IsChecked (not (eqb r.status 200)) _ _ tt
        (if-IsChecked (not r.is_json) _ _ tt (reply_to_body-IsChecked r.body))))

or_again-IsChecked : (r rest : Reply) → IsChecked r → IsChecked rest → IsChecked (or_again r rest)
or_again-IsChecked (accepted cs) rest h k = h
or_again-IsChecked (refused true e) rest h k = k
or_again-IsChecked (refused false e) rest h k = tt

attempts-IsChecked :
    (retries : ℕ) (answers : ℕ → Answer) (n : ℕ) → IsChecked (attempts retries answers n)
unfolding attempts
attempts-IsChecked zero answers n = reply_to-IsChecked (answers n)
attempts-IsChecked (suc retries) answers n =
    or_again-IsChecked (reply_to (answers n)) (attempts retries answers (suc n))
      (reply_to-IsChecked (answers n)) (attempts-IsChecked retries answers (suc n))

screen_passes :
    (retries : ℕ) (open_for : Time) (s : Screening) (c d : Circuit) (cs : List ScreeningCandidate)
    → screen retries open_for s c ≡ (ok cs, d)
    → (attempts retries s.answers 0 ≡ accepted cs) × (d ≡ closed_circuit)
unfolding screen
screen_passes retries open_for s c d cs h = ground arith

screen_fails :
    (retries : ℕ) (open_for : Time) (s : Screening) (c d : Circuit) (e : Error)
    → c.open_until ≤ s.now
    → screen retries open_for s c ≡ (err e, d)
    → d ≡ count_failure s.later open_for c
unfolding screen
screen_fails retries open_for s c d e o h = ground arith

screen_stops :
    (retries : ℕ) (open_for : Time) (s : Screening) (c : Circuit)
    → s.now < c.open_until
    → screen retries open_for s c ≡ (err circuit_open, c)
unfolding screen
screen_stops retries open_for s c h = ground arith

counts :
    (later open_for : Time) (c : Circuit)
    → c.failures < 2
    → (count_failure later open_for c).failures ≡ suc c.failures
unfolding count_failure
counts later open_for c h = ground arith

opens :
    (later open_for : Time) (c : Circuit)
    → c.failures ≡ 2
    → (count_failure later open_for c).open_until ≡ later + open_for
unfolding count_failure
opens later open_for c h = ground arith

-- What gets through is checked: a screening that succeeds gives at most 100 candidates, each with a
-- score from 0 to 100, a name, a reason and a known list, and it leaves the circuit closed.
pub screen-IsChecked :
    (retries : ℕ) (open_for : Time) (s : Screening) (c d : Circuit) (cs : List ScreeningCandidate)
    → screen retries open_for s c ≡ (ok cs, d)
    → (length cs ≤ 100) × All IsCandidate cs × (d ≡ closed_circuit)
screen-IsChecked retries open_for s c d cs h =
    let (passed, shut) = screen_passes retries open_for s c d cs h in
    let checked : IsChecked (accepted cs) =
      subst IsChecked passed (attempts-IsChecked retries s.answers 0) in
    (checked.0, checked.1, shut)

-- The breaker: three screenings that fail one after the other, for whatever reason each of them fails
-- (a network error, any status but 200, or an answer that breaks the contract), and none of them
-- stopped by an open circuit, open it when it has counted no failure before, and until `open_for`
-- after the end of the third every screening is refused at once and changes nothing.
pub three_failures_open :
    (retries : ℕ) (open_for : Time) (s1 s2 s3 s4 : Screening) (c0 c1 c2 c3 : Circuit)
    (e1 e2 e3 : Error)
    → c0.failures ≡ 0
    → screen retries open_for s1 c0 ≡ (err e1, c1)
    → screen retries open_for s2 c1 ≡ (err e2, c2)
    → screen retries open_for s3 c2 ≡ (err e3, c3)
    → c0.open_until ≤ s1.now
    → c1.open_until ≤ s2.now
    → c2.open_until ≤ s3.now
    → s4.now < s3.later + open_for
    → screen retries open_for s4 c3 ≡ (err circuit_open, c3)
three_failures_open retries open_for s1 s2 s3 s4 c0 c1 c2 c3 e1 e2 e3 n h1 h2 h3 o1 o2 o3 early =
    let f1 : c1.failures ≡ 1 =
      ap (λ c. c.failures) (screen_fails retries open_for s1 c0 c1 e1 o1 h1)
      ∙ counts s1.later open_for c0 (omega (arith, n))
      ∙ ap suc n in
    let f2 : c2.failures ≡ 2 =
      ap (λ c. c.failures) (screen_fails retries open_for s2 c1 c2 e2 o2 h2)
      ∙ counts s2.later open_for c1 (omega (arith, f1))
      ∙ ap suc f1 in
    let opened : c3.open_until ≡ s3.later + open_for =
      ap (λ c. c.open_until) (screen_fails retries open_for s3 c2 c3 e3 o3 h3)
      ∙ opens s3.later open_for c2 f2 in
    screen_stops retries open_for s4 c3 (omega (arith, early, opened))
