-- ===== src/Email.antt =====
-- The mailer (crates/core/src/email.rs). The mail library is the record `MailLibrary` over the types
-- of its mailboxes and messages; a transport is its settings.
use modelsentry.Common.Error.{◌>>=◌, ◌>>◌, ok, err, ModelSentryError, Result, says}
use modelsentry.Config.{SmtpConfig, SmtpSecurity}
use modelsentry.Base.{[], none, some, String, List, Option, ℕ, ◌∷◌, ◌++◌}
use modelsentry.Provider.{failed, Attempt, done}
use modelsentry.Common.Models.{ApiKey}
use modelsentry.Base.Text.{concat}

pub record Transport : Type 0 where
  pub host : String
  pub security : SmtpSecurity
  pub port : ℕ
  pub credentials : Option (String × String)

pub record MailLibrary (M B : Type 0) : Type 0 where
  pub parse : String → Attempt M
  pub starttls_relay : String → Attempt (Unit {0})
  pub relay : String → Attempt (Unit {0})
  pub message : M → M → String → String → Attempt B
  pub send : Transport → B → Attempt (Unit {0})

pub record EmailMailer (M : Type 0) : Type 0 where
  pub transport : Transport
  pub from : M

abbrev pub email_err : String → ModelSentryError
email_err text = ModelSentryError.email (says text)

-- `map_err` with a text before the library's.
abbrev pub or_email_err : {A : Type 0} → List String → Attempt A → Result A
or_email_err before (failed e) = err (email_err (concat (before ++ e ∷ [])))
or_email_err before (done a) = ok a

module _ {M B : Type 0} (lib : MailLibrary M B) where
  abbrev pub relay_for : SmtpSecurity → String → Result (Unit {0})
  relay_for SmtpSecurity.start_tls host =
      or_email_err ("STARTTLS relay setup failed: " ∷ []) (lib.starttls_relay host)
  relay_for SmtpSecurity.tls host = or_email_err ("TLS relay setup failed: " ∷ []) (lib.relay host)
  relay_for SmtpSecurity.no_security host = ok tt

  -- The password counts only where there is a username.
  abbrev pub credentials_for : Option String → Option ApiKey → Result (Option (String × String))
  credentials_for none password = ok none
  credentials_for (some username) none = err (
      email_err
        "[alerts.smtp] username is set but no SMTP password is in the vault (set it under the 'smtp' key)")
  credentials_for (some username) (some password) = ok (some (username, password.secret))

  unfoldable pub from_config : SmtpConfig → Option ApiKey → Result (EmailMailer M)
  from_config cfg password = do
    from ←
        or_email_err ("invalid [alerts.smtp] from address '" ∷ cfg.from ∷ "': " ∷ [])
          (lib.parse cfg.from)
    relay_for cfg.security cfg.host
    credentials ← credentials_for cfg.username password
    ok (record {
      transport = record {
        host = cfg.host;
        security = cfg.security;
        port = cfg.port;
        credentials = credentials;
      };
      from = from;
    })

  unfoldable pub send : EmailMailer M → String → String → String → Result (Unit {0})
  send mailer to subject body = do
    recipient ← or_email_err ("invalid recipient '" ∷ to ∷ "': " ∷ []) (lib.parse to)
    message ←
        or_email_err ("could not build email message: " ∷ [])
          (lib.message mailer.from recipient subject body)
    or_email_err ("SMTP delivery failed: " ∷ []) (lib.send mailer.transport message)
