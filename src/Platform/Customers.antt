-- ===== src/Platform/Customers.antt =====
-- The approval of customers, over every history of the platform.
pub mod Writes
pub mod Approval
use financial_crime_complian.Common.{String, ◌≡◌, ◌≢◌, Option, none, some, ◌⊎◌}
use financial_crime_complian.Common.Dict.{Dict, get, put}
use financial_crime_complian.Domain.Customer.{Customer, CustomerStatus}
use financial_crime_complian.Application.Env.{Env}
use financial_crime_complian.Application.Onboarding.{OnboardCustomerCommand, submitted}
use financial_crime_complian.Platform.{Call, onboards}

-- A decision on a customer that waits for one, by somebody else than its maker.
pub record IsDecision (old new : Customer) : Type 0 where
  pub was_pending : old.status ≡ CustomerStatus.pending_approval
  pub is_decided : (new.status ≡ CustomerStatus.active) ⊎ (new.status ≡ CustomerStatus.rejected)
  pub other_maker : new.created_by ≢ new.reviewed_by
  pub is_dated : new.reviewed_at ≢ none

-- What a write may store under a key that holds `o`.
pub data Change (call : Call) (id : String) (o : Option Customer) : Customer → Type 0 where
  submission :
      (env : Env) (cmd : OnboardCustomerCommand)
      → call ≡ onboards env cmd
      → id ≡ env.new_id 0
      → Change call id o (submitted env cmd)
  decision : (old new : Customer) → o ≡ some old → IsDecision old new → Change call id o new

pub data CustomerWrite (call : Call) (d : Dict Customer) : Dict Customer → Type 0 where
  same : {e : Dict Customer} → e ≡ d → CustomerWrite call d e
  changed :
      {e : Dict Customer} (id : String) (c : Customer)
      → e ≡ put id c d
      → Change call id (get id d) c
      → CustomerWrite call d e
