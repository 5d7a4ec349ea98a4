-- ===== src/Tests/Daemon.antt =====
-- Tests of the start of the daemon (crates/daemon/src/main.rs) and of the command line
-- (crates/cli/src).
use modelsentry.Base.{◌∷◌, [], some, String, none, Option, if◌then◌else◌, List}
use modelsentry.Cli.{Commands, ProbeAction}
use modelsentry.Daemon.{main}
use modelsentry.Tests.Vault.{codec, codec_laws, vault_files, no_faults}
use modelsentry.Common.Error.{ok}
use modelsentry.Email.{MailLibrary}
use modelsentry.Daemon.Started.{IsStarted, main-IsStarted}
use text.Mathlib.Text.{◌==◌ as str_eq}
use modelsentry.Float.Fixed.{fixed}
use modelsentry.Provider.{done}
use modelsentry.Tests.Setup.{app_config}

-- What the libraries read in one URL.
abbrev path_of : String → Option (List String)
path_of url =
    if str_eq url "http://localhost:7740/api/probes/p1/runs?limit=1"
    then some ("api" ∷ "probes" ∷ "p1" ∷ "runs" ∷ [])
    else none

abbrev status_command : Commands
status_command = Commands.probe (ProbeAction.status "p1")

-- Mailboxes and messages are texts, and every call works.
abbrev mail_library : MailLibrary String String
mail_library = record {
  parse = λ s. done s;
  starttls_relay = λ host. done tt;
  relay = λ host. done tt;
  message = λ from to subject body. done body;
  send = λ transport message. done tt;
}

main-IsStarted_example :
    IsStarted codec codec_laws fixed mail_library
      (record { vault_passphrase = some "correct horse" })
      (done app_config)
      vault_files
      (main codec fixed mail_library
        (record { vault_passphrase = some "correct horse" })
        (done app_config)
        (ok tt)
        (ok tt)
        no_faults
        vault_files)
main-IsStarted_example =
    main-IsStarted codec codec_laws fixed mail_library
      (record { vault_passphrase = some "correct horse" }) (done app_config) (ok tt) (ok tt)
      no_faults vault_files
