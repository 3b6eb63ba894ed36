-- ===== src/Senders/Router.antt =====
-- internal/infrastructure/notification/router.go and webhook.go: the sender of a channel.
use Prim.Native.String.{◌++◌}
use financial_crime_complian.Common.{Option, String, ℕ, some, if◌then◌else◌, ltb, ◌||◌, none, leb}
use financial_crime_complian.Common.Dict.{Dict, get}
use financial_crime_complian.Domain.Notification.{OutboxMessage}
use financial_crime_complian.Common.Text.{format_int}
use financial_crime_complian.Common.Int.{pos}

-- What http.Client.Do gives: an error, or the status of the response.
pub data WebhookAnswer : Type 0 where
  failed : String → WebhookAnswer
  status : ℕ → WebhookAnswer

-- WebhookSender.Send, once its request is built: an error, or nothing.
unfoldable pub webhook_error : WebhookAnswer → Option String
webhook_error (failed e) = some e
webhook_error (status n) =
    if ltb n 200 || leb 300 n then some ("webhook status " ++ format_int (pos n)) else none

-- Router.Send; `quoted` is the verb %q.
unfoldable pub route_message :
    (String → String) → Dict (OutboxMessage → Option String) → OutboxMessage → Option String
route_message quoted senders m = elim (get m.channel senders) [
  | none ↦ some ("notification channel " ++ quoted m.channel ++ " is not configured")
  | some sender ↦ sender m
]
