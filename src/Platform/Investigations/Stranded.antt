-- ===== src/Platform/Investigations/Stranded.antt =====
-- TransactionService.CloseAlert on an alert that has a case.
use financial_crime_complian.Common.{
  String, ◌≡◌, refl, ap, ◌∙◌, false, arith, some, inl, inr, subst,
}
use financial_crime_complian.Common.Dict.{get, put, get-put_self}
use financial_crime_complian.Effects.{ok, err}
use financial_crime_complian.Domain.Errors.{Error}
use financial_crime_complian.Domain.Case.{InvestigationCase, is_resolved}
use financial_crime_complian.Domain.Monitoring.{Alert, is_open}
use financial_crime_complian.Memory.Transactions.{close_alert, close}
use financial_crime_complian.Memory.{Repository}
use financial_crime_complian.Memory.Cases.{resolve_case}
use financial_crime_complian.Domain.Audit.{AuditEvent}
use financial_crime_complian.Common.{Option-cases}

closed_of :
    (alert_id by why : String) (v : AuditEvent) (r s : Repository) (al a : Alert)
    → close_alert alert_id by why v r ≡ (ok al, s)
    → get alert_id r.alerts ≡ some a
    → (s.alerts ≡ put alert_id (close a by why v) r.alerts)
      × (close a by why v ≡ al)
      × (s.cases ≡ r.cases)
unfolding close_alert
closed_of alert_id by why v r s al a h q = ground arith

close_alert-closes :
    (alert_id by why : String) (v : AuditEvent) (r s : Repository) (al : Alert)
    → close_alert alert_id by why v r ≡ (ok al, s)
    → (get alert_id s.alerts ≡ some al) × (is_open al.status ≡ false) × (s.cases ≡ r.cases)
unfolding close_alert
close_alert-closes alert_id by why v r s al h = elim (Option-cases (get alert_id r.alerts)) [
  | inl n ↦ absurd (ground arith)
  | inr (a, q) ↦
      let (stored, e, unchanged) = closed_of alert_id by why v r s al a h q in
      (
        ap (get alert_id) stored ∙ get-put_self alert_id _ r.alerts ∙ ap some e,
        subst (λ z. is_open z.status ≡ false) e refl,
        unchanged,
      )
]

-- An alert that is closed on its own leaves its case behind: once CloseAlert has succeeded, every
-- ResolveCase of an unresolved case of that alert fails with a conflict and changes nothing.
pub close_alert-strands_case :
    (id alert_id by why actor text : String) (v v' w : AuditEvent) (r s : Repository) (al : Alert)
    (x : InvestigationCase)
    → close_alert alert_id by why v r ≡ (ok al, s)
    → get id r.cases ≡ some x
    → x.alert_id ≡ alert_id
    → is_resolved x.status ≡ false
    → resolve_case id text actor v' w s ≡ (err Error.alert_conflict, s)
unfolding resolve_case
close_alert-strands_case id alert_id by why actor text v v' w r s al x h q e n =
    let (stored, shut, unchanged) = close_alert-closes alert_id by why v r s al h in
    let q' : get id s.cases ≡ some x = rw unchanged q in
    let k : get x.alert_id s.alerts ≡ some al = rw e stored in rw (q', resolve_case, n, k, shut)
