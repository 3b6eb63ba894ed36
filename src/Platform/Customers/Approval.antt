-- ===== src/Platform/Customers/Approval.antt =====
-- Four eyes on every customer, and decisions that are final.
use financial_crime_complian.Platform.Customers.{CustomerWrite, same, changed, submission, decision}
use financial_crime_complian.Common.{
  String, List, [], ◌∷◌, ◌≡◌, ◌≢◌, refl, sym, ◌∙◌, Option, none, some, ◌⊎◌, inl, inr, ap, subst,
}
use mathlib.Core.Option.{some-ne-none, some-injective}
use financial_crime_complian.Common.Dict.{Dict, get, get-put_cases, get-put_ne}
use financial_crime_complian.Domain.Customer.{Customer, CustomerStatus}
use financial_crime_complian.Application.Onboarding.{submitted}
use financial_crime_complian.Memory.{Repository, new_repository}
use financial_crime_complian.Platform.{Call, step, run, onboards}
use financial_crime_complian.Platform.Write.{step-Write}
use financial_crime_complian.Platform.Customers.Writes.{Write-CustomerWrite}
use financial_crime_complian.Platform.Customers.{Change, CustomerWrite}

-- A customer as the approval process leaves it: it waits for a decision, or somebody other than its
-- maker has approved or rejected it, at a known time.
abbrev pub IsSound : Customer → Type 0
IsSound c =
    (c.status ≡ CustomerStatus.pending_approval)
    ⊎ (((c.status ≡ CustomerStatus.active) ⊎ (c.status ≡ CustomerStatus.rejected))
        × (c.created_by ≢ c.reviewed_by)
        × (c.reviewed_at ≢ none))

AllSound : Dict Customer → Type 0
AllSound d = (id : String) (c : Customer) → get id d ≡ some c → IsSound c

Change-IsSound :
    {call : Call} (id : String) (o : Option Customer) (c : Customer)
    → Change call id o c
    → IsSound c
unfolding submitted
Change-IsSound id o _ (submission env cmd _ _) = inl refl
Change-IsSound id o _ (decision old new h d) = inr (d.is_decided, d.other_maker, d.is_dated)

CustomerWrite-AllSound :
    {call : Call} (d e : Dict Customer) → CustomerWrite call d e → AllSound d → AllSound e
unfolding AllSound
CustomerWrite-AllSound d e (same p) h id c q = h id c (rw p at q)
CustomerWrite-AllSound d e (changed k c' p w) h id c q =
    elim (get-put_cases k id c' d c (rw p at q)) [
      | inl m ↦ subst IsSound m.1 (Change-IsSound k _ c' w)
      | inr m ↦ h id c m.1
    ]

run-AllSound :
    (cs : List Call) (r : Repository) → AllSound r.customers → AllSound (run cs r).customers
unfolding run
run-AllSound [] r h = h
run-AllSound (c ∷ cs) r h =
    run-AllSound cs (step c r) (CustomerWrite-AllSound _ _ (Write-CustomerWrite (step-Write c r)) h)

no_customers : (id : String) (c : Customer) → get id [] ≡ some c → IsSound c
unfolding get
no_customers id c h = cc

-- Four eyes: after any history of the platform from its empty state, every customer waits for a
-- decision, or has been approved or rejected by an actor who is not the one that created it.
pub run-IsSound :
    (cs : List Call) (id : String) (c : Customer)
    → get id (run cs new_repository).customers ≡ some c
    → IsSound c
unfolding AllSound
run-IsSound cs = run-AllSound cs new_repository (λ id c h. no_customers id c h)

-- The identifiers that a history gives to new customers are not in use.
abbrev pub FreshCustomer : Call → Repository → Type 0
FreshCustomer (onboards env cmd) r = get (env.new_id 0) r.customers ≡ none
FreshCustomer _ r = Unit

abbrev pub FreshCustomers : List Call → Repository → Type 0
FreshCustomers [] r = Unit
FreshCustomers (c ∷ cs) r = FreshCustomer c r × FreshCustomers cs (step c r)

-- Under its key a customer that has been decided stays as it is.
step_keeps_decided :
    (call : Call) (r : Repository) (id : String) (x : Customer) (d : Dict Customer)
    → CustomerWrite call r.customers d
    → FreshCustomer call r
    → get id r.customers ≡ some x
    → x.status ≢ CustomerStatus.pending_approval
    → get id d ≡ some x
step_keeps_decided call r id x d (same p) fresh h n = rw p h
step_keeps_decided call r id x d (changed k c p (submission env cmd e key)) fresh h n =
    let unused : get (env.new_id 0) r.customers ≡ none = subst (λ c. FreshCustomer c r) e fresh in
    rw p (get-put_ne k id c r.customers (λ m. some-ne-none x (sym h ∙ cc)) ∙ h)
step_keeps_decided call r id x d (changed k c p (decision old _ q w)) fresh h n = rw p (
    get-put_ne k id c r.customers
      (λ m. n (ap (λ y. y.status) (some-injective x old (cc)) ∙ w.was_pending))
    ∙ h)

-- A decision is final: once a customer is not pending, its record stays exactly as it is through
-- any history in which no new customer is given an identifier that is in use.
pub decided_is_final :
    (cs : List Call) (r : Repository) (id : String) (x : Customer)
    → FreshCustomers cs r
    → get id r.customers ≡ some x
    → x.status ≢ CustomerStatus.pending_approval
    → get id (run cs r).customers ≡ some x
unfolding run
decided_is_final [] r id x fresh h n = h
decided_is_final (c ∷ cs) r id x fresh h n =
    decided_is_final cs (step c r) id x fresh.1
      (step_keeps_decided c r id x _ (Write-CustomerWrite (step-Write c r)) fresh.0 h n) n
