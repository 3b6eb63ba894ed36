-- ===== src/Platform/Audit/Trail.antt =====
-- The audit trail over every history of the platform.
use financial_crime_complian.Common.{List, [], ◌∷◌}
use financial_crime_complian.Memory.{Repository}
use financial_crime_complian.Platform.{run, Call, step}
use financial_crime_complian.Platform.Write.{step-Write}
use financial_crime_complian.Platform.Audit.{Extends, Extends-refl, Extends-trans}
use financial_crime_complian.Platform.Audit.Writes.{Write-Grows}

-- The audit trail is append-only: after any history of calls, from any state, the events of each
-- aggregate begin with those that it had, unchanged and in their order.
pub run-Extends : (cs : List Call) (r : Repository) → Extends r.events (run cs r).events
unfolding run
run-Extends [] r = Extends-refl r.events
run-Extends (c ∷ cs) r =
    Extends-trans r.events (step c r).events _ (Write-Grows (step-Write c r))
      (run-Extends cs (step c r))
