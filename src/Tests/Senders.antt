-- ===== src/Tests/Senders.antt =====
-- The senders of notifications, on concrete data.
use financial_crime_complian.Senders.Transcript.{greeting, handover}
use financial_crime_complian.Senders.Headers.{letter, IsCleaned}
use mathlib.Core.List.{◌++◌ as append}
use financial_crime_complian.Common.Dict.{get}
use financial_crime_complian.Senders.Letters.{
  is_confidential, refused_tls_sends_nothing, sent_completely, HasCleanSubject,
  send-HasCleanSubject,
}
use financial_crime_complian.Domain.Notification.{OutboxMessage}
use financial_crime_complian.Senders.Smtp.{
  Command, SmtpConfig, header_value, send, perform, dialogue, content,
}
use financial_crime_complian.Domain.Audit.{Value}
use financial_crime_complian.Common.{
  All, String, Option, true, ◌≡◌, ◌∷◌, none, [], some, false, refl,
}

abbrev config : SmtpConfig
config = record {
  host = "mail";
  port = 25;
  username = "u";
  password = "p";
  from = "a@b";
  start_tls = true;
}

abbrev message : OutboxMessage
message = record {
  id = "m1";
  notification_id = "n1";
  channel = "email";
  destination = "x@y";
  payload = ("title", Value.str "Alert\r\nBcc: z@z") ∷ ("message", Value.str "Body") ∷ [];
  status = "PROCESSING";
  attempts = 1;
  next_attempt_at = 0;
  last_error = "";
  lease_owner = "w";
  lease_until = none;
  created_at = 0;
  delivered_at = none;
}

abbrev print : Value → String
print v = "?"

abbrev without_tls : Command → Option String
without_tls Command.start_tls = some "502"
without_tls k = none

abbrev accepting : Command → Option String
accepting k = none

refused_tls_sends_nothing_example :
    All (λ k. is_confidential k ≡ false) (send print config without_tls message).0
refused_tls_sends_nothing_example =
    refused_tls_sends_nothing print config without_tls message "502" refl refl

everything_accepted : (send print config accepting message).1 ≡ none
unfolding send perform dialogue get header_value content
everything_accepted = refl

sent_completely_example :
    (subject : String) × IsCleaned "Alert\r\nBcc: z@z" subject
    × ((send print config accepting message).0
        ≡ append (greeting config) (handover "a@b" "x@y" (letter "a@b" "x@y" subject "Body")))
    × All (λ k. accepting k ≡ none) (send print config accepting message).0
unfolding get
sent_completely_example = sent_completely print config accepting message everything_accepted

send-HasCleanSubject_example :
    All (HasCleanSubject print config message) (send print config accepting message).0
send-HasCleanSubject_example = send-HasCleanSubject print config accepting message
