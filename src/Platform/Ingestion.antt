-- ===== src/Platform/Ingestion.antt =====
-- TransactionService.Ingest over the in-memory repository.
use financial_crime_complian.Common.{
  ℕ, ◌+◌, List, [], ◌∷◌, ◌≡◌, refl, ◌∙◌, true, false, arith, length, select, ◌==◌, subst,
}
use financial_crime_complian.Common.Dict.{values}
use financial_crime_complian.Domain.Errors.{Error}
use financial_crime_complian.Domain.Monitoring.{Alert}
use financial_crime_complian.Domain.Transaction.{Transaction, SamePayload}
use financial_crime_complian.Effects.{ok, err, refuse_if, refuse_if_ok, refuse_if_passed}
use financial_crime_complian.Application.Env.{Env, upper_trim}
use financial_crime_complian.Application.Transactions.{
  IngestTransactionCommand, IngestTransactionResult, is_invalid, normalise, to_transaction, submit,
  ingest, alert_events_of,
}
use financial_crime_complian.Memory.{Repository}
use financial_crime_complian.Memory.Idempotency.{
  created-IsKnown, known-replays, known-conflicts, IsKnown,
}
use financial_crime_complian.Memory.Ports.{transaction_port}

pub length-alert_events_of :
    (env : Env) (n : ℕ) (alerts : List Alert)
    → length alerts ≡ length (alert_events_of env n alerts)
unfolding alert_events_of
length-alert_events_of env n [] = refl
length-alert_events_of env n (a ∷ alerts) = omega (arith, length-alert_events_of env (n + 2) alerts)

normalise-wide :
    (env env' : Env) (cmd : IngestTransactionCommand)
    → env.wide ≡ env'.wide
    → normalise env cmd ≡ normalise env' cmd
unfolding normalise upper_trim
normalise-wide env env' cmd h = cc

-- A command that succeeds has passed the checks, and has been submitted.
ingest_ok :
    (env : Env) (cmd : IngestTransactionCommand) (r s : Repository) (res : IngestTransactionResult)
    → ingest transaction_port env cmd r ≡ (ok res, s)
    → (is_invalid (normalise env cmd) ≡ false)
      × (submit transaction_port env (normalise env cmd) r ≡ (ok res, s))
unfolding ingest
ingest_ok env cmd r s res = refuse_if_ok _ _ _ r s res

same_payload :
    (env env' : Env) (cmd : IngestTransactionCommand)
    → SamePayload (to_transaction env cmd) (to_transaction env' cmd)
unfolding to_transaction
same_payload env env' cmd = record {
  external_ref = refl;
  customer_id = refl;
  direction = refl;
  amount_minor = refl;
  currency = refl;
  counterparty_country = refl;
  occurred_at = refl;
}

-- The answer to a command whose transaction is known.
abbrev pub replay_of : Transaction → Repository → IngestTransactionResult
replay_of stored s = record {
  transaction = stored;
  alerts = select (λ a. a.transaction_id == stored.id) (values s.alerts);
  replayed = true;
}

resubmitted :
    (env env' : Env) (c : IngestTransactionCommand) (s : Repository) (stored : Transaction)
    → is_invalid c ≡ false
    → IsKnown s (to_transaction env c) stored
    → refuse_if (is_invalid c) Error.invalid_transaction (submit transaction_port env' c) s
      ≡ (ok (replay_of stored s), s)
unfolding submit
resubmitted env env' c s stored valid known =
    refuse_if_passed _ _ _ s valid
    ∙ known-replays s _ _ stored _ _ _ known (unfold to_transaction in refl)
        (same_payload env env' c) (length-alert_events_of env' 2 _)

-- A retry is safe: if an ingestion has succeeded, then the same command sent again, later and with
-- other fresh identifiers, succeeds as a replay; it returns the transaction of the first answer
-- with the alerts that are stored for it, and it changes nothing.
pub ingest_retry :
    (env env' : Env) (cmd : IngestTransactionCommand) (r s : Repository)
    (res : IngestTransactionResult)
    → env.wide ≡ env'.wide
    → ingest transaction_port env cmd r ≡ (ok res, s)
    → ingest transaction_port env' cmd s ≡ (ok (replay_of res.transaction s), s)
unfolding ingest
ingest_retry env env' cmd r s res w h =
    let (valid, sent) = ingest_ok env cmd r s res h in
    subst
      (λ c.
        refuse_if (is_invalid c) Error.invalid_transaction (submit transaction_port env' c) s
        ≡ (ok (replay_of res.transaction s), s))
      (normalise-wide env env' cmd w)
      (resubmitted env env' (normalise env cmd) s res.transaction valid
        (unfold submit in created-IsKnown _ _ _ _ r res s sent))

-- A used key is refused for anything else: after an ingestion has succeeded, a valid command with
-- the same idempotency key and another payload fails with a conflict, and it changes nothing.
pub ingest_conflict :
    (env env' : Env) (cmd cmd' : IngestTransactionCommand) (r s : Repository)
    (res : IngestTransactionResult)
    → ingest transaction_port env cmd r ≡ (ok res, s)
    → is_invalid (normalise env' cmd') ≡ false
    → (normalise env' cmd').idempotency_key ≡ (normalise env cmd).idempotency_key
    → ¬ SamePayload
        (to_transaction env (normalise env cmd))
        (to_transaction env' (normalise env' cmd'))
    → ingest transaction_port env' cmd' s ≡ (err Error.idempotency_conflict, s)
unfolding ingest submit
ingest_conflict env env' cmd cmd' r s res h valid' key other =
    let (valid, sent) = ingest_ok env cmd r s res h in
    let known = created-IsKnown _ _ _ _ r res s sent in
    refuse_if_passed _ _ _ s valid'
    ∙ known-conflicts s _ _ res.transaction _ _ _ known (unfold to_transaction in key) other
        (length-alert_events_of env' 2 _)
