-- ===== src/Senders/Letters.antt =====
-- internal/infrastructure/notification/smtp.go: what a message can and cannot put into the mail.
use mathlib.Core.List.{◌++◌ as append, append_assoc}
use mathlib.Core.Option.{some-ne-none}
use financial_crime_complian.Senders.Headers.{
  IsOneLine, IsCleaned, header_value-IsCleaned, header_value-IsOneLine, letter,
}
use financial_crime_complian.Common.{
  [], ◌∷◌, String, ◌≡◌, Option, Bool, true, refl, List, false, inl, some, none, inr, map, All, ap,
  sym, ◌∙◌, not, Option-cases,
}
use financial_crime_complian.Senders.Smtp.{
  sprint, content, header_value, Command, perform, Step, SmtpConfig, send, dialogue, step, when,
}
use financial_crime_complian.Domain.Audit.{Value}
use financial_crime_complian.Common.Dict.{get}
use financial_crime_complian.Common.Text.{is_empty}
use financial_crime_complian.Domain.Notification.{OutboxMessage}
use financial_crime_complian.Senders.Transcript.{
  starting_tls, login, greeting, handover, commands-tls, commands-login,
}

-- What is for no eyes but the server's: the password, the addresses and the mail.
abbrev pub is_confidential : Command → Bool
is_confidential (Command.auth _ _) = true
is_confidential (Command.mail _) = true
is_confidential (Command.rcpt _) = true
is_confidential (Command.write _) = true
is_confidential _ = false

module _ (server : Command → Option String) where
  -- Nothing is called behind a call that fails.
  perform-stops :
      (front : List Step) (s : Step) (rest : List Step) (e : String)
      → server s.command ≡ some e
      → All (λ t. (is_confidential t.command ≡ false) × (t.on_failure ≡ [])) front
      → (is_confidential s.command ≡ false) × (s.on_failure ≡ [])
      → All (λ k. is_confidential k ≡ false) (perform server (append front (s ∷ rest))).0
  unfolding perform
  perform-stops [] s rest e h f q = rw h (rw q.1 (q.0, tt))
  perform-stops (t ∷ front) s rest e h f q = elim (Option-cases (server t.command)) [
    | inl n ↦ rw (n, perform) (f.0.0, perform-stops front s rest e h f.1 q)
    | inr (x, n) ↦ rw (n, perform, f.0.1) (f.0.0, tt)
  ]

  -- Without an error every call was made, and succeeded.
  perform_ok :
      (ss : List Step)
      → (perform server ss).1 ≡ none
      → ((perform server ss).0 ≡ map (λ s. s.command) ss)
        × All (λ k. server k ≡ none) (perform server ss).0
  unfolding perform
  perform_ok [] h = (refl, tt)
  perform_ok (s ∷ ss) h = elim (Option-cases (server s.command)) [
    | inl n ↦
        let (made, accepted) = perform_ok ss (rw (n, perform) at h) in
        rw (n, perform) (ap (λ ks. s.command ∷ ks) made, (n, accepted))
    | inr (x, n) ↦ absurd (some-ne-none _ (rw (n, perform) at h))
  ]

  -- What holds of every call of a dialogue holds of the calls that are made.
  perform-All :
      (P : Command → Type 0) (ss : List Step)
      → All (λ s. P s.command × All P s.on_failure) ss
      → All P (perform server ss).0
  unfolding perform
  perform-All P [] h = tt
  perform-All P (s ∷ ss) h = elim (Option-cases (server s.command)) [
    | inl n ↦ rw (n, perform) (h.0.0, perform-All P ss h.1)
    | inr (x, n) ↦ rw (n, perform) (h.0.0, h.0.1)
  ]

when-All :
    (P : Step → Type 0) (b : Bool) (s : Step) (rest : List Step)
    → P s
    → All P rest
    → All P (when b s rest)
when-All P true s rest h k = (h, k)
when-All P false s rest h k = k

-- A call that writes a mail writes one whose subject is a single line, the title of the message.
abbrev pub HasCleanSubject : (Value → String) → SmtpConfig → OutboxMessage → Command → Type 0
HasCleanSubject print c m (Command.write mail) =
    (subject : String) × (mail
      ≡ letter c.from m.destination subject (sprint print (get "message" m.payload)))
    × IsOneLine subject
    × IsCleaned (sprint print (get "title" m.payload)) subject
HasCleanSubject print c m _ = Unit

module _ (print : Value → String) (c : SmtpConfig) (server : Command → Option String)
    (m : OutboxMessage) where
  -- The first calls, and StartTLS behind them.
  opened :
      (b : Bool) (rest : List Step) (e : String)
      → b ≡ true
      → server Command.start_tls ≡ some e
      → All
          (λ k. is_confidential k ≡ false)
          (perform server (
            step (Command.dial c.host c.port) "connect SMTP: "
            ∷ step (Command.new_client c.host) "create SMTP client: "
            ∷ when b (step Command.start_tls "start SMTP TLS: ") rest)).0
  opened true rest e h refused =
      perform-stops server
        (step (Command.dial c.host c.port) "connect SMTP: "
          ∷ step (Command.new_client c.host) "create SMTP client: "
          ∷ [])
        (step Command.start_tls "start SMTP TLS: ") rest e refused
        ((refl, refl), ((refl, refl), tt)) (refl, refl)
  opened false rest e h refused = cc

  -- No secret without TLS: where StartTLS is asked for and the server refuses it, the password, the
  -- addresses and the mail are not sent.
  pub refused_tls_sends_nothing :
      (e : String)
      → c.start_tls ≡ true
      → server Command.start_tls ≡ some e
      → All (λ k. is_confidential k ≡ false) (send print c server m).0
  unfolding send dialogue
  refused_tls_sends_nothing e tls refused = opened c.start_tls _ e tls refused

  abbrev title : String
  title = sprint print (get "title" m.payload)

  abbrev text : String
  text = letter c.from m.destination (header_value title) (sprint print (get "message" m.payload))

  dialogue-commands :
      map (λ s. s.command) (dialogue print c m)
      ≡ append (greeting c) (handover c.from m.destination text)
  unfolding dialogue content
  dialogue-commands =
      ap (λ ks. Command.dial c.host c.port ∷ Command.new_client c.host ∷ ks)
        (commands-tls c.start_tls _ _
          ∙ ap (λ ks. append (starting_tls c.start_tls) ks)
              (commands-login c.username c.password _ _)
          ∙ sym (append_assoc (starting_tls c.start_tls) (login c.username c.password) _))

  -- A mail that is sent is sent whole: if Send returns no error, it has connected, started TLS where
  -- that is asked for, logged in where there is a user, named the sender and the recipient of the
  -- message, written its five header lines and its text, ended the mail and taken its leave, in this
  -- order and with no other call, and the server has accepted every call; the subject is the title of
  -- the message with a space for each line break.
  pub sent_completely :
      (send print c server m).1 ≡ none
      → (subject : String) × IsCleaned (sprint print (get "title" m.payload)) subject
        × ((send print c server m).0
            ≡ append (greeting c) (
                handover c.from m.destination
                  (letter c.from m.destination subject (sprint print (get "message" m.payload)))))
        × All (λ k. server k ≡ none) (send print c server m).0
  unfolding send
  sent_completely h =
      let (made, accepted) = perform_ok server (dialogue print c m) h in
      (header_value title, header_value-IsCleaned title, made ∙ dialogue-commands, accepted)

  -- The title of a notification adds no line to the header: whatever the server answers, each mail
  -- that Send writes has the one subject line that is the title of the message with a space for each
  -- carriage return and each line feed, between the other four header lines.
  pub send-HasCleanSubject : All (HasCleanSubject print c m) (send print c server m).0
  unfolding send dialogue content
  send-HasCleanSubject =
      let clean : Command → Type 0 = HasCleanSubject print c m in
      let of_step : Step → Type 0 = λ s. clean s.command × All clean s.on_failure in
      let q : Unit × Unit = (tt, tt) in
      perform-All server clean (dialogue print c m) (
        q,
        (
          q,
          when-All of_step c.start_tls _ _ q (
              when-All of_step (not (is_empty c.username)) _ _ q (
                q,
                (
                  q,
                  (
                    q,
                    (
                      (
                        (
                          header_value title,
                          refl,
                          header_value-IsOneLine title,
                          header_value-IsCleaned title,
                        ),
                        q,
                      ),
                      (q, (q, tt)),
                    ),
                  ),
                ),
              )),
        ),
      )
