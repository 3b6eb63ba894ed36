-- ===== src/Platform/Investigations/Links.antt =====
-- How the cases refer to the alerts in every state that the platform reaches.
use financial_crime_complian.Platform.Investigations.Writes.{Write-CaseWrite}
use financial_crime_complian.Common.{
  ◌⊎◌, ℕ, String, List, [], ◌∷◌, ◌≡◌, ◌≢◌, sym, ap, ◌∙◌, false, arith, ◌==◌, eq_iff, none, some,
  inl, inr, Bool-cases, All, subst, ◌+◌,
}
use financial_crime_complian.Common.Dict.{Dict, get, put, get-put_cases, get-put_ne, get-put_self}
use financial_crime_complian.Platform.Investigations.{
  CaseWrite, same, opened, amended, settled, closed, raised, put_all,
}
use financial_crime_complian.Platform.{ingests}
use mathlib.Core.Option.{some-ne-none, some-injective}
use financial_crime_complian.Platform.{run, Call, step}
use financial_crime_complian.Domain.Case.{InvestigationCase, is_resolved}
use financial_crime_complian.Domain.Monitoring.{Alert, AlertStatus, MonitoringFinding}
use financial_crime_complian.Application.Transactions.{alerts_of}
use financial_crime_complian.Memory.{new_repository, Repository}
use financial_crime_complian.Application.Env.{Env}
use financial_crime_complian.Domain.Transaction.{Transaction}
use financial_crime_complian.Platform.Investigations.Invariant.{
  empty-Consistent, Consistent, at_key, own_alert_key, CaseWrite-Consistent,
}
use financial_crime_complian.Platform.Write.{step-Write}

-- The alert of the case is there, it is about the customer of the case, and it is closed if the
-- case is resolved.
abbrev pub IsLinked : InvestigationCase → Dict Alert → Type 0
IsLinked x a =
    (al : Alert) × (get x.alert_id a ≡ some al)
    × (x.customer_id ≡ al.customer_id)
    × ((is_resolved x.status ≡ false) ⊎ (al.status ≡ AlertStatus.closed))

AllLinked : Dict InvestigationCase → Dict Alert → Type 0
AllLinked c a = (k : String) (x : InvestigationCase) → get k c ≡ some x → IsLinked x a

-- The identifiers that an ingestion draws are not those of alerts in the store.
abbrev pub FreshAlert : Call → Repository → Type 0
FreshAlert (ingests env cmd) r = (n : ℕ) → get (env.new_id n) r.alerts ≡ none
FreshAlert _ r = Unit

abbrev pub FreshAlerts : List Call → Repository → Type 0
FreshAlerts [] r = Unit
FreshAlerts (c ∷ cs) r = FreshAlert c r × FreshAlerts cs (step c r)

-- An alert that is closed under its own key.
closing-IsLinked :
    (key : String) (al bl : Alert) (a : Dict Alert) (x : InvestigationCase)
    → get key a ≡ some al
    → bl.customer_id ≡ al.customer_id
    → bl.status ≡ AlertStatus.closed
    → IsLinked x a
    → IsLinked x (put key bl a)
closing-IsLinked key al bl a x q e st (al', p, m, n) = elim (Bool-cases (key == x.alert_id)) [
  | inl h ↦
      let k : key ≡ x.alert_id = ground (arith, eq_iff key x.alert_id) in
      let same_alert : al' ≡ al = some-injective al' al (sym p ∙ ap (λ j. get j a) (sym k) ∙ q) in
      (
        bl,
        ap (λ j. get j (put key bl a)) (sym k) ∙ get-put_self key bl a,
        m ∙ ap (λ z. z.customer_id) same_alert ∙ sym e,
        inr st,
      )
  | inr h ↦ (al', get-put_ne key x.alert_id bl a (ground (arith, eq_iff key x.alert_id)) ∙ p, m, n)
]

put_all-keeps :
    (alerts : List Alert) (a : Dict Alert) (k : String) (al : Alert)
    → All (λ x. x.id ≢ k) alerts
    → get k a ≡ some al
    → get k (put_all alerts a) ≡ some al
unfolding put_all
put_all-keeps [] a k al h q = q
put_all-keeps (x ∷ xs) a k al h q = put_all-keeps xs _ k al h.1 (get-put_ne x.id k x a h.0 ∙ q)

alerts_of-other :
    (env : Env) (t : Transaction) (n : ℕ) (fs : List MonitoringFinding) (a : Dict Alert)
    (k : String) (al : Alert)
    → ((m : ℕ) → get (env.new_id m) a ≡ none)
    → get k a ≡ some al
    → All (λ x. x.id ≢ k) (alerts_of env t n fs)
unfolding alerts_of
alerts_of-other env t n [] a k al fresh q = tt
alerts_of-other env t n (f ∷ fs) a k al fresh q = (
  λ e. some-ne-none al (sym q ∙ ap (λ j. get j a) (sym e) ∙ fresh n),
  alerts_of-other env t (n + 2) fs a k al fresh q,
)

module _ (r : Repository) (h : Consistent r.cases r.alerts)
    (links : AllLinked r.cases r.alerts) where
  -- A case that takes the place of another.
  put-AllLinked :
      (key : String) (y : InvestigationCase) (a : Dict Alert)
      → IsLinked y a
      → ((k : String) (x : InvestigationCase) → get k r.cases ≡ some x → IsLinked x a)
      → AllLinked (put key y r.cases) a
  unfolding AllLinked
  put-AllLinked key y a l ls k x q = elim (get-put_cases key k y r.cases x q) [
    | inl m ↦ subst (λ z. IsLinked z a) m.1 l
    | inr m ↦ ls k x m.1
  ]

  link_of : (k : String) (x : InvestigationCase) → get k r.cases ≡ some x → IsLinked x r.alerts
  unfolding AllLinked
  link_of = links

  -- A case that keeps its alert and its customer and is not resolved.
  amended-IsLinked :
      (x y : InvestigationCase) (a : Dict Alert)
      → y.alert_id ≡ x.alert_id
      → y.customer_id ≡ x.customer_id
      → is_resolved y.status ≡ false
      → IsLinked x a
      → IsLinked y a
  amended-IsLinked x y a e f n (al, p, m, _) = (al, ap (λ j. get j a) e ∙ p, f ∙ m, inl n)

  CaseWrite-AllLinked :
      {call : Call} (c' : Dict InvestigationCase) (a' : Dict Alert)
      → FreshAlert call r
      → CaseWrite call r.cases r.alerts c' a'
      → AllLinked c' a'
  unfolding AllLinked
  CaseWrite-AllLinked c' a' fresh (same p q) = rw (p, q) links
  CaseWrite-AllLinked c' a' fresh (opened item al q e p s o _) =
      rw (p, s) (put-AllLinked item.id item r.alerts (al, q, e, inl (ap is_resolved o)) link_of)
  CaseWrite-AllLinked c' a' fresh (amended key x y q p s i e f n) =
      rw (at_key r.cases r.alerts h key x y c' q p, s)
        (put-AllLinked key y r.alerts (amended-IsLinked x y r.alerts e f n (link_of key x q))
          link_of)
  CaseWrite-AllLinked c' a' fresh (settled key x y al bl q k _ p s i e f j g st) =
      let own : al.id ≡ x.alert_id = own_alert_key r.cases r.alerts h x.alert_id al k in
      let k' : get al.id r.alerts ≡ some al = ap (λ z. get z r.alerts) own ∙ k in
      let (al', p', m, _) = link_of key x q in
      rw (p, s)
        (put-AllLinked key y (put al.id bl r.alerts)
          (
            bl,
            ap (λ z. get z (put al.id bl r.alerts)) (e ∙ sym own) ∙ get-put_self al.id bl r.alerts,
            f ∙ m ∙ ap (λ z. z.customer_id) (some-injective al' al (sym p' ∙ k)) ∙ sym g,
            inr st,
          )
          (λ k2 x2 q2. closing-IsLinked al.id al bl r.alerts x2 k' g st (link_of k2 x2 q2)))
  CaseWrite-AllLinked c' a' fresh (closed key al bl q p s j g st) =
      rw (p, s) (λ k x u. closing-IsLinked key al bl r.alerts x q g st (link_of k x u))
  CaseWrite-AllLinked c' a' fresh (raised env cmd t n fs e p s) =
      let drawn : (m : ℕ) → get (env.new_id m) r.alerts ≡ none =
        subst (λ c. FreshAlert c r) e fresh in
      rw (p, s)
        (λ k x u.
          let (al, q, m, o) = link_of k x u in
          (
            al,
            put_all-keeps (alerts_of env t n fs) r.alerts x.alert_id al
                (alerts_of-other env t n fs r.alerts x.alert_id al drawn q) q,
            m,
            o,
          ))

run-AllLinked :
    (cs : List Call) (r : Repository)
    → FreshAlerts cs r
    → Consistent r.cases r.alerts
    → AllLinked r.cases r.alerts
    → AllLinked (run cs r).cases (run cs r).alerts
unfolding run
run-AllLinked [] r fresh h l = l
run-AllLinked (c ∷ cs) r fresh h l =
    let w = Write-CaseWrite (step-Write c r) in
    run-AllLinked cs (step c r) fresh.1 (CaseWrite-Consistent _ _ h _ _ w)
      (CaseWrite-AllLinked r h l _ _ fresh.0 w)

no_links : (k : String) (x : InvestigationCase) → get k [] ≡ some x → IsLinked x []
unfolding get
no_links k x q = cc

-- Cases and alerts agree: after any history of the platform from its empty state in which the
-- identifiers that ingestions draw are not those of stored alerts, the alert of every case is
-- stored, it is about the customer of the case, and it is closed if the case is resolved.
pub run-IsLinked :
    (cs : List Call) (k : String) (x : InvestigationCase)
    → FreshAlerts cs new_repository
    → get k (run cs new_repository).cases ≡ some x
    → IsLinked x (run cs new_repository).alerts
unfolding AllLinked
run-IsLinked cs k x fresh q =
    run-AllLinked cs new_repository fresh empty-Consistent (λ j y p. no_links j y p) k x q
