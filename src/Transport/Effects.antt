-- ===== src/Transport/Effects.antt =====
-- internal/transport/httpapi/handler.go: each handler makes at most one call of the platform.
use financial_crime_complian.Common.{
  refl, String, ◌≡◌, Option, ℕ, All, All-append, List, ◌∷◌, some, none, ◌+◌, suc, [], length, Bool,
  true, false,
}
use financial_crime_complian.Application.Env.{Env}
use financial_crime_complian.Memory.{Repository}
use financial_crime_complian.Platform.{
  Call, onboards, step, reviews, ingests, closes_alert, opens_case, assigns_case, comments_on_case,
  resolves_case, updates_profile, adds_owner, adds_document, reviews_document, saves_screening,
  disposes_match, stores_schedule, claims_schedules, completes_schedule, reads_notification,
  sets_preference,
}
use financial_crime_complian.Application.Screening.Gather.{
  Context, screen_subject, screen_candidates, Batch, screen_all, Provider, combine, Subject,
  ScreeningCandidate, used_by, to_run, destinations,
}
use financial_crime_complian.Transport.Respond.{with_body, Handler}
use financial_crime_complian.Effects.{Result, ok, err, refuse_if, Exec, ◌>>=◌, continue}
use financial_crime_complian.Domain.Screening.{ScreeningRun}
use financial_crime_complian.Common.Text.{trim_space}
use financial_crime_complian.Domain.Errors.{Error}
use financial_crime_complian.Transport.Reads.{Reads}

-- The call is made in the name of `who`; the workers' calls are made in nobody's.
abbrev pub Acts : String → Call → Type 0
Acts who (onboards env cmd) = cmd.actor ≡ who
Acts who (reviews env id decision actor reason) = actor ≡ who
Acts who (ingests env cmd) = cmd.actor ≡ who
Acts who (closes_alert env id actor reason) = actor ≡ who
Acts who (opens_case env alert title priority actor) = actor ≡ who
Acts who (assigns_case env id assignee actor) = actor ≡ who
Acts who (comments_on_case env id body actor) = actor ≡ who
Acts who (resolves_case env id resolution actor) = actor ≡ who
Acts who (updates_profile env p actor) = actor ≡ who
Acts who (adds_owner env o actor) = actor ≡ who
Acts who (adds_document env d actor) = actor ≡ who
Acts who (reviews_document env id status actor) = actor ≡ who
Acts who (saves_screening matches notifications events) = All (λ v. v.actor ≡ trim_space who) events
Acts who (disposes_match env id status reason actor) = actor ≡ who
Acts who (stores_schedule schedule event) =
    (schedule.updated_by ≡ trim_space who) × (event.actor ≡ trim_space who)
Acts who (claims_schedules now limit owner until) = ⊥
Acts who (completes_schedule id owner ran_at next last_error) = ⊥
Acts who (reads_notification env id actor) = actor ≡ who
Acts who (sets_preference env parse actor email enabled) = actor ≡ who

-- From `r` to `t` by no call, or by one that `who` makes.
pub data OneCall (who : String) (r t : Repository) : Type 0 where
  no_call : t ≡ r → OneCall who r t
  one_call : (c : Call) → Acts who c → t ≡ step c r → OneCall who r t

module _ (who : String) (r : Repository) where
  -- A body that does not decode makes no call.
  pub with_body-OneCall :
      {A : Type 0} (body : Option A) (next : A → Handler Repository)
      → ((a : A) → OneCall who r (next a r).1)
      → OneCall who r (with_body body next r).1
  unfolding with_body
  with_body-OneCall none next h = no_call refl
  with_body-OneCall (some a) next h = h a

  pub refuse_if-OneCall :
      {A : Type 0} (bad : Bool) (e : Error) (m : Exec Repository A)
      → OneCall who r (m r).1
      → OneCall who r (refuse_if bad e m r).1
  unfolding refuse_if
  refuse_if-OneCall true e m h = no_call refl
  refuse_if-OneCall false e m h = h

  module _ {A B : Type 0} (f : A → Exec Repository B) (h : (a : A) → OneCall who r (f a r).1) where
    continue-OneCall : (x : Result A) (t : Repository) → t ≡ r → OneCall who r (continue x f t).1
    continue-OneCall (ok a) t e = rw e (h a)
    continue-OneCall (err x) t e = no_call e

    -- A call that reads comes before the one that writes.
    pub >>=-OneCall : (m : Exec Repository A) → Reads m r → OneCall who r ((m >>= f) r).1
    unfolding ◌>>=◌
    >>=-OneCall m e = continue-OneCall (m r).0 (m r).1 e

-- Every event of a screening names the actor of the call.
module _ (env : Env) (c : Context) where
  abbrev pub ByActor : Batch → Type 0
  ByActor b = All (λ v. v.actor ≡ c.actor) b.events

  candidates-ByActor :
      (run : ScreeningRun) (n : ℕ) (cs : List ScreeningCandidate)
      → (screen_candidates env c run n cs).events ≡ []
  unfolding screen_candidates
  candidates-ByActor run n [] = refl
  candidates-ByActor run n (x ∷ xs) = candidates-ByActor run (n + 2 + length (destinations c)) xs

  subject-ByActor :
      (name : String) (n : ℕ) (s : Subject) (cs : List ScreeningCandidate)
      → ByActor (screen_subject env c name n s cs)
  unfolding screen_subject
  subject-ByActor name n s cs =
      rw (candidates-ByActor (to_run env c name (env.new_id n) s) (n + 1) cs) (refl, tt)

  abbrev pub IfBatch : Result Batch → Type 0
  IfBatch (ok b) = ByActor b
  IfBatch (err e) = Unit

  combine-ByActor :
      (b : Batch) (x : Result Batch) → ByActor b → IfBatch x → IfBatch (combine env c b x)
  combine-ByActor b (ok rest) h k = All-append _ b.events rest.events h k
  combine-ByActor b (err e) h k = tt

  answered-ByActor :
      (p : Provider) (request n : ℕ) (s : Subject) (ss : List Subject)
      (x : Result (List ScreeningCandidate))
      → ((k : ℕ) → IfBatch (screen_all env c p (suc request) k ss))
      → IfBatch (elim x [
        | err e ↦ err e
        | ok cs ↦
            combine env c
              (screen_subject env c p.name n s cs)
              (screen_all env c p (suc request) (n + used_by env c cs) ss)
      ])
  answered-ByActor p request n s ss (err e) h = tt
  answered-ByActor p request n s ss (ok cs) h =
      combine-ByActor _ _ (subject-ByActor p.name n s cs) (h _)

  pub screen_all-ByActor :
      (p : Provider) (request n : ℕ) (ss : List Subject) → IfBatch (screen_all env c p request n ss)
  unfolding screen_all
  screen_all-ByActor p request n [] = tt
  screen_all-ByActor p request n (s ∷ ss) =
      answered-ByActor p request n s ss (p.screen request s.name)
        (λ k. screen_all-ByActor p (suc request) k ss)
