-- ===== src/Senders/Smtp.antt =====
-- internal/infrastructure/notification/smtp.go: the dialogue with a mail server.
use financial_crime_complian.Common.Dict.{get}
use Prim.Native.Char.{code}
use Prim.Native.String.{◌++◌}
use financial_crime_complian.Common.{
  [], ◌∷◌, String, Bool, Option, if◌then◌else◌, ℕ, List, some, eqb, true, none, ◌||◌, false, not,
}
use financial_crime_complian.Common.Text.{rune, is_empty}
use financial_crime_complian.Domain.Audit.{Value}
use financial_crime_complian.Domain.Notification.{OutboxMessage}

pub record SmtpConfig : Type 0 where
  pub host : String
  pub port : ℕ
  pub username : String
  pub password : String
  pub from : String
  pub start_tls : Bool

-- A call of package net or net/smtp that talks to the server.
pub data Command : Type 0 where
  dial : String → ℕ → Command
  new_client : String → Command
  start_tls : Command
  auth : String → String → Command
  mail : String → Command
  rcpt : String → Command
  begin_data : Command
  write : String → Command
  end_data : Command
  quit : Command

-- A call, the text in front of its error, and what is still called when it fails.
pub record Step : Type 0 where
  pub command : Command
  pub label : String
  pub on_failure : List Command

abbrev pub step : Command → String → Step
step command label = record { command = command; label = label; on_failure = [] }

-- strings.NewReplacer("\r", " ", "\n", " ")
unfoldable pub header_value : String → String
unfolding rune
header_value String.[] = String.[]
header_value (String.◌∷◌ c s) =
    String.◌∷◌ (if eqb (code c) 13 || eqb (code c) 10 then rune 32 else c) (header_value s)

-- fmt.Sprint of an entry of the payload; `print` is what it makes of a value that is no text.
abbrev pub sprint : (Value → String) → Option Value → String
sprint print none = "<nil>"
sprint print (some (Value.str s)) = s
sprint print (some v) = print v

-- The lines of the header, and the body behind an empty line.
unfoldable pub content : SmtpConfig → String → String → String → String
content c destination title body =
    "From: " ++ c.from ++ "\r\nTo: " ++ destination ++ "\r\nSubject: " ++ title
    ++ "\r\nMIME-Version: 1.0\r\nContent-Type: text/plain; charset=UTF-8\r\n\r\n" ++ body ++ "\r\n"

abbrev pub when : Bool → Step → List Step → List Step
when true s rest = s ∷ rest
when false s rest = rest

-- The calls of Send, if none of them fails.
unfoldable pub dialogue : (Value → String) → SmtpConfig → OutboxMessage → List Step
unfolding header_value content
dialogue print c m =
    let title = header_value (sprint print (get "title" m.payload)) in
    let body = sprint print (get "message" m.payload) in
    step (Command.dial c.host c.port) "connect SMTP: "
    ∷ step (Command.new_client c.host) "create SMTP client: "
    ∷ when c.start_tls (step Command.start_tls "start SMTP TLS: ") (
        when (not (is_empty c.username))
          (step (Command.auth c.username c.password) "authenticate SMTP: ")
          (step (Command.mail c.from) "set SMTP sender: "
            ∷ step (Command.rcpt m.destination) "set SMTP recipient: "
            ∷ step Command.begin_data "open SMTP body: "
            ∷ record {
              command = Command.write (content c m.destination title body);
              label = "write SMTP body: ";
              on_failure = Command.end_data ∷ [];
            }
            ∷ step Command.end_data "send SMTP body: "
            ∷ step Command.quit ""
            ∷ []))

-- The calls that are made against a server, which answers each with success or an error, and the
-- error that Send returns.
unfoldable pub perform : (Command → Option String) → List Step → List Command × Option String
perform server [] = ([], none)
perform server (s ∷ rest) =
    let (made, error) = perform server rest in
    elim (server s.command) [
      | none ↦ (s.command ∷ made, error)
      | some e ↦ (s.command ∷ s.on_failure, some (s.label ++ e))
    ]

-- SMTPSender.Send
unfoldable pub send :
    (Value → String)
    → SmtpConfig
    → (Command → Option String)
    → OutboxMessage
    → List Command × Option String
unfolding dialogue perform
send print c server m = perform server (dialogue print c m)
