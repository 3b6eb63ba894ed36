-- ===== src/Senders/Transcript.antt =====
-- internal/infrastructure/notification/smtp.go: the calls of a mail that is sent, in order.
use mathlib.Core.List.{◌++◌ as append}
use financial_crime_complian.Common.{[], ◌∷◌, String, ◌≡◌, Bool, true, refl, List, false, map, not}
use financial_crime_complian.Senders.Smtp.{Command, Step, SmtpConfig, step, when}
use financial_crime_complian.Common.Text.{is_empty}

-- What is called in front of the mail: StartTLS where the configuration asks for it, and the login of
-- a configuration with a user.
abbrev pub starting_tls : Bool → List Command
starting_tls true = Command.start_tls ∷ []
starting_tls false = []

abbrev pub login : String → String → List Command
login String.[] password = []
login (String.◌∷◌ c name) password = Command.auth (String.◌∷◌ c name) password ∷ []

abbrev pub greeting : SmtpConfig → List Command
greeting c =
    Command.dial c.host c.port
    ∷ Command.new_client c.host
    ∷ append (starting_tls c.start_tls) (login c.username c.password)

-- The calls that hand a mail over.
abbrev pub handover : String → String → String → List Command
handover from to text =
    Command.mail from
    ∷ Command.rcpt to
    ∷ Command.begin_data
    ∷ Command.write text
    ∷ Command.end_data
    ∷ Command.quit
    ∷ []

pub commands-tls :
    (b : Bool) (label : String) (rest : List Step)
    → map (λ s. s.command) (when b (step Command.start_tls label) rest)
      ≡ append (starting_tls b) (map (λ s. s.command) rest)
commands-tls true label rest = refl
commands-tls false label rest = refl

pub commands-login :
    (name password label : String) (rest : List Step)
    → map
        (λ s. s.command)
        (when (not (is_empty name)) (step (Command.auth name password) label) rest)
      ≡ append (login name password) (map (λ s. s.command) rest)
commands-login String.[] password label rest = refl
commands-login (String.◌∷◌ c name) password label rest = refl
