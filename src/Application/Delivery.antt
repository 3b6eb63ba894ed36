-- ===== src/Application/Delivery.antt =====
-- internal/application/delivery.go: the outbox worker.
use financial_crime_complian.Common.{
  ℕ, zero, suc, ◌+◌, ◌*◌, String, List, [], ◌∷◌, Option, none, some,
}
use financial_crime_complian.Domain.Errors.{Error, error_text}
use financial_crime_complian.Domain.Audit.{Time}
use financial_crime_complian.Domain.Notification.{OutboxMessage}
use financial_crime_complian.Effects.{Exec, ok, err}
use financial_crime_complian.Application.Worker.Backoff.{minute, hour, double_until}

-- The interface DeliveryRepository.
pub record DeliveryRepository (S : Type 0) : Type 0 where
  pub claim_outbox : Time → ℕ → String → Time → Exec S (List OutboxMessage)
  pub complete_outbox : String → String → Time → Time → String → Exec S Unit
  pub count_pending_outbox : Exec S ℕ

-- deliveryBackoff
unfoldable pub delivery_backoff : ℕ → Time
unfolding double_until
delivery_backoff zero = double_until hour 0 minute
delivery_backoff (suc n) = double_until hour n minute

-- What RunDue returns: the messages that were delivered, and an error.
pub record Outcome : Type 0 where
  pub delivered : ℕ
  pub error : Option Error

abbrev pub outcome : ℕ → ℕ → Outcome
outcome delivered zero = record { delivered = delivered; error = none }
outcome delivered (suc n) = record {
  delivered = delivered;
  error = some (Error.notification_deliveries_failed (suc n));
}

-- The interface DeliverySender: the error of the n-th message of a run, if it fails.
abbrev pub Sender : Type 0
Sender = ℕ → OutboxMessage → Option Error

abbrev pub last_error : Option Error → String
last_error none = ""
last_error (some e) = error_text e

abbrev pub next_attempt : Time → OutboxMessage → Option Error → Time
unfolding delivery_backoff
next_attempt now item none = now
next_attempt now item (some _) = now + delivery_backoff (item.attempts + 1)

abbrev pub count_delivered : Option Error → ℕ → ℕ
count_delivered none n = suc n
count_delivered (some _) n = n

abbrev pub count_failed : Option Error → ℕ → ℕ
count_failed none n = n
count_failed (some _) n = suc n

module _ {S : Type 0} (repo : DeliveryRepository S) (worker_id : String) (now : Time) where
  -- The loop over the claimed messages, which stops if one cannot be completed.
  unfoldable pub deliver_all : Sender → ℕ → ℕ → ℕ → List OutboxMessage → S → Outcome × S
  deliver_all send n delivered failed [] s = (outcome delivered failed, s)
  deliver_all send n delivered failed (item ∷ rest) s =
      let e = send n item in
      let (done, s') =
        repo.complete_outbox item.id worker_id now (next_attempt now item e) (last_error e) s in
      elim done [
        | err failure ↦
            (record { delivered = count_delivered e delivered; error = some failure }, s')
        | ok _ ↦
            deliver_all send (suc n) (count_delivered e delivered) (count_failed e failed) rest s'
      ]

  -- DeliveryService.RunDue
  unfoldable pub run_due : Sender → ℕ → S → Outcome × S
  unfolding deliver_all
  run_due send limit s =
      let (claimed, s') = repo.claim_outbox now limit worker_id (now + 2 * minute) s in
      elim claimed [
        | err e ↦ (record { delivered = 0; error = some e }, s')
        | ok items ↦ deliver_all send 0 0 0 items s'
      ]

  -- DeliveryService.Pending
  unfoldable pub pending : Exec S ℕ
  pending = repo.count_pending_outbox
