-- ===== src/Platform/Investigations/Invariant.antt =====
-- What holds of the cases and the alerts in every state that the platform reaches.
use financial_crime_complian.Platform.Investigations.Writes.{Write-CaseWrite}
use financial_crime_complian.Common.{
  String, List, [], ◌∷◌, ◌≡◌, refl, sym, ap, ◌∙◌, false, arith, any, ◌==◌, eq_iff, some, ◌⊎◌, inl,
  inr,
}
use financial_crime_complian.Common.Dict.{get, get-put_cases}
use financial_crime_complian.Platform.Investigations.{
  CaseWrite, same, opened, amended, settled, closed, raised,
}
use mathlib.Core.Option.{some-injective}
use financial_crime_complian.Domain.Case.{InvestigationCase}
use financial_crime_complian.Platform.Investigations.{put_all, CaseWrite}
use financial_crime_complian.Platform.{run, Call, step}
use financial_crime_complian.Common.Dict.{Dict, values, put, get-put_cases, any-values}
use financial_crime_complian.Domain.Monitoring.{Alert}
use financial_crime_complian.Memory.{new_repository, Repository}
use financial_crime_complian.Platform.Write.{step-Write}
use financial_crime_complian.Application.Transactions.{alerts_of}

-- The items of a map, under their own identifiers.
KeyedCases : Dict InvestigationCase → Type 0
KeyedCases c = (k : String) (x : InvestigationCase) → get k c ≡ some x → x.id ≡ k

KeyedAlerts : Dict Alert → Type 0
KeyedAlerts a = (k : String) (x : Alert) → get k a ≡ some x → x.id ≡ k

OneCase : Dict InvestigationCase → Type 0
OneCase c =
    (j k : String) (x y : InvestigationCase)
    → get j c ≡ some x
    → get k c ≡ some y
    → x.alert_id ≡ y.alert_id
    → j ≡ k

pub record Consistent (c : Dict InvestigationCase) (a : Dict Alert) : Type 0 where
  keyed_cases : KeyedCases c
  keyed_alerts : KeyedAlerts a
  one_case : OneCase c

put-KeyedCases :
    (k : String) (y : InvestigationCase) (c : Dict InvestigationCase)
    → y.id ≡ k
    → KeyedCases c
    → KeyedCases (put k y c)
unfolding KeyedCases
put-KeyedCases k y c e h j x q = elim (get-put_cases k j y c x q) [
  | inl m ↦ sym (ap (λ z. z.id) m.1) ∙ e ∙ m.0
  | inr m ↦ h j x m.1
]

put-KeyedAlerts :
    (k : String) (y : Alert) (c : Dict Alert) → y.id ≡ k → KeyedAlerts c → KeyedAlerts (put k y c)
unfolding KeyedAlerts
put-KeyedAlerts k y c e h j x q = elim (get-put_cases k j y c x q) [
  | inl m ↦ sym (ap (λ z. z.id) m.1) ∙ e ∙ m.0
  | inr m ↦ h j x m.1
]

put_all-KeyedAlerts :
    (alerts : List Alert) (a : Dict Alert) → KeyedAlerts a → KeyedAlerts (put_all alerts a)
unfolding put_all
put_all-KeyedAlerts [] a h = h
put_all-KeyedAlerts (x ∷ xs) a h = put_all-KeyedAlerts xs _ (put-KeyedAlerts x.id x a refl h)

-- A case that takes the place of one with its alert, or whose alert has no case.
put-OneCase :
    (k : String) (y : InvestigationCase) (c : Dict InvestigationCase)
    → ((j : String) (x : InvestigationCase) → get j c ≡ some x → x.alert_id ≡ y.alert_id → k ≡ j)
    → OneCase c
    → OneCase (put k y c)
unfolding OneCase
put-OneCase k y c n h i j u v p q e = elim (get-put_cases k i y c u p) [
  | inl m ↦ elim (get-put_cases k j y c v q) [
    | inl m' ↦ sym m.0 ∙ m'.0
    | inr m' ↦ sym m.0 ∙ n j v m'.1 (sym e ∙ sym (ap (λ z. z.alert_id) m.1))
  ]
  | inr m ↦ elim (get-put_cases k j y c v q) [
    | inl m' ↦ sym (n i u m.1 (e ∙ sym (ap (λ z. z.alert_id) m'.1))) ∙ m'.0
    | inr m' ↦ h i j u v m.1 m'.1 e
  ]
]

no_other :
    (y : InvestigationCase) (c : Dict InvestigationCase) (k : String)
    → any (λ x. x.alert_id == y.alert_id) (values c) ≡ false
    → (j : String) (x : InvestigationCase) → get j c ≡ some x
    → x.alert_id ≡ y.alert_id
    → k ≡ j
no_other y c k n j x q e =
    ground (arith, any-values (λ x. x.alert_id == y.alert_id) j x c q, eq_iff x.alert_id y.alert_id)

module _ (c : Dict InvestigationCase) (a : Dict Alert) (h : Consistent c a) where
  same_alert :
      (key : String) (x y : InvestigationCase)
      → get key c ≡ some x
      → y.alert_id ≡ x.alert_id
      → (j : String) (z : InvestigationCase) → get j c ≡ some z
      → z.alert_id ≡ y.alert_id
      → key ≡ j
  unfolding OneCase
  same_alert key x y q e j z p f = h.one_case key j x z q p (sym e ∙ sym f)

  own_key : (key : String) (x : InvestigationCase) → get key c ≡ some x → x.id ≡ key
  unfolding KeyedCases
  own_key = h.keyed_cases

  pub own_alert_key : (key : String) (x : Alert) → get key a ≡ some x → x.id ≡ key
  unfolding KeyedAlerts
  own_alert_key = h.keyed_alerts

  -- A case is put under its own key with the same alert.
  amend-KeyedCases :
      (key : String) (x y : InvestigationCase)
      → get key c ≡ some x
      → y.id ≡ x.id
      → KeyedCases (put key y c)
  amend-KeyedCases key x y q i = put-KeyedCases key y c (i ∙ own_key key x q) h.keyed_cases

  amend-OneCase :
      (key : String) (x y : InvestigationCase)
      → get key c ≡ some x
      → y.alert_id ≡ x.alert_id
      → OneCase (put key y c)
  amend-OneCase key x y q e = put-OneCase key y c (same_alert key x y q e) h.one_case

  pub at_key :
      (key : String) (x y : InvestigationCase) (c' : Dict InvestigationCase)
      → get key c ≡ some x
      → (c' ≡ put key y c) ⊎ (c' ≡ put x.id y c)
      → c' ≡ put key y c
  at_key key x y c' q (inl p) = p
  at_key key x y c' q (inr p) = p ∙ ap (λ k. put k y c) (own_key key x q)

  consistent :
      (c' : Dict InvestigationCase) (a' : Dict Alert)
      → KeyedCases c'
      → KeyedAlerts a'
      → OneCase c'
      → Consistent c' a'
  consistent c' a' k l m = record { keyed_cases = k; keyed_alerts = l; one_case = m }

  pub CaseWrite-Consistent :
      {call : Call} (c' : Dict InvestigationCase) (a' : Dict Alert)
      → CaseWrite call c a c' a'
      → Consistent c' a'
  CaseWrite-Consistent c' a' (same p q) = rw (p, q) h
  CaseWrite-Consistent c' a' (opened item _ _ _ p q _ n) =
      rw (p, q)
        (consistent _ _ (put-KeyedCases item.id item c refl h.keyed_cases) h.keyed_alerts
          (put-OneCase item.id item c (no_other item c item.id n) h.one_case))
  CaseWrite-Consistent c' a' (amended key x y q p r i e _ _) =
      rw (at_key key x y c' q p, r)
        (consistent _ _ (amend-KeyedCases key x y q i) h.keyed_alerts (amend-OneCase key x y q e))
  CaseWrite-Consistent c' a' (settled key x y al bl q k _ p r i e _ j _ _) =
      rw (p, r)
        (consistent _ _ (amend-KeyedCases key x y q i) (put-KeyedAlerts al.id bl a j h.keyed_alerts)
          (amend-OneCase key x y q e))
  CaseWrite-Consistent c' a' (closed key al bl q p r j _ _) =
      rw (p, r)
        (consistent _ _ h.keyed_cases
          (put-KeyedAlerts key bl a (j ∙ own_alert_key key al q) h.keyed_alerts) h.one_case)
  CaseWrite-Consistent c' a' (raised env cmd t n fs _ p r) =
      rw (p, r)
        (consistent _ _ h.keyed_cases (put_all-KeyedAlerts (alerts_of env t n fs) a h.keyed_alerts)
          h.one_case)

run-Consistent :
    (cs : List Call) (r : Repository)
    → Consistent r.cases r.alerts
    → Consistent (run cs r).cases (run cs r).alerts
unfolding run
run-Consistent [] r h = h
run-Consistent (c ∷ cs) r h =
    run-Consistent cs (step c r) (CaseWrite-Consistent _ _ h _ _ (Write-CaseWrite (step-Write c r)))

pub empty-Consistent : Consistent [] []
unfolding get KeyedCases KeyedAlerts OneCase
empty-Consistent = record {
  keyed_cases = λ k x h. cc;
  keyed_alerts = λ k x h. cc;
  one_case = λ j k x y p q e. cc;
}

-- One investigation for an alert: after any history of the platform from its empty state, two
-- cases of one alert are the same case.
pub one_case_per_alert :
    (cs : List Call) (j k : String) (x y : InvestigationCase)
    → get j (run cs new_repository).cases ≡ some x
    → get k (run cs new_repository).cases ≡ some y
    → x.alert_id ≡ y.alert_id
    → (j ≡ k) × (x ≡ y)
unfolding OneCase
one_case_per_alert cs j k x y p q e =
    let same_key = (run-Consistent cs new_repository empty-Consistent).one_case j k x y p q e in
    (same_key, some-injective x y (cc))
