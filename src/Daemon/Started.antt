-- ===== src/Daemon/Started.antt =====
-- What a start of the daemon leaves and guarantees (crates/daemon/src/main.rs).
use modelsentry.Vault.{Vault, CodecLaws, Secrets, decrypt_vault}
use modelsentry.Config.{AppConfig, validate, SmtpConfig}
use modelsentry.Config.Valid.{IsValid, validate_accepts_iff}
use modelsentry.Daemon.{
  Daemon, Cli, main, open_or_create, prepared, start_prepared, with_vault, mailer_for,
  passphrase_for, Floats, Codec, pos, Files, DiskFaults, is_some, MailLibrary, Attempt, done,
  EmailMailer, load, failed,
}
use modelsentry.Base.{refl, inl, inr, true, none, some, Option, ◌≡◌, String, false, ◌⊎◌, Bool}
use modelsentry.Common.Error.{ok, err, Result, Result-cases, >>=-eq-ok, is_ok-ok}
use modelsentry.Base.Int.{◌≤ℤ◌}
use mathlib.Core.Path.{subst, sym}
use modelsentry.Vault.Laws.{get_key_in}
use modelsentry.Daemon.Parts.{
  IsUsable, IsKept, open_or_create-IsKept, IsOpened, open_or_create-IsOpened, cooldown_bound,
  sequential-IsUsable,
}

module _ {B : Type 0} (c : Codec B) (laws : CodecLaws c) {F32 F64 : Type 0} (fl : Floats F32 F64)
    {M N : Type 0} (lib : MailLibrary M N) where
  open fl use {single}

  -- A daemon that may run: on a valid configuration and a vault that it can read.
  pub record IsReady (cli : Cli) (before after : Files B) (d : Daemon F32 F64 M) : Type 0 where
    pub valid : IsValid single d.config
    pub authorized :
        (cli.vault_passphrase ≡ some d.vault.passphrase)
        ⊎ ((cli.vault_passphrase ≡ none) × (is_some before.vault ≡ false))
    pub readable : (m : Secrets) × (decrypt_vault c d.vault after ≡ ok m)
    pub rested : pos 0 ≤ℤ d.alert_engine.cooldown
    pub controlled : IsUsable fl d.alert_engine.sequential

  -- What a start leaves of the files.
  abbrev pub IsStarted :
      Cli → Attempt (AppConfig F32) → Files B → Files B × Result (Daemon F32 F64 M) → Type 0
  IsStarted cli file before (after, err e) = IsKept c laws before after
  IsStarted cli file before (after, ok d) =
      IsKept c laws before after × (file ≡ done d.config) × IsReady cli before after d

  mailer_for_total :
      (files : Files B) (vault : Vault) (m : Secrets) (smtp : Option SmtpConfig)
      → decrypt_vault c vault files ≡ ok m
      → (mailer : Option (EmailMailer M)) × (mailer_for c fl lib files vault smtp ≡ ok mailer)
  mailer_for_total files vault m none h = (none, refl)
  mailer_for_total files vault m (some smtp) h =
      let found = get_key_in c laws vault files m "smtp" h in is_ok-ok _ (rw found refl)

  abbrev IsAuthorized : Cli → Files B → String → Type 0
  IsAuthorized cli before passphrase =
      (cli.vault_passphrase ≡ some passphrase)
      ⊎ ((cli.vault_passphrase ≡ none) × (is_some before.vault ≡ false))

  with_vault-IsStarted :
      (cli : Cli) (file : Attempt (AppConfig F32)) (client : Result (Unit {0})) (before : Files B)
      (config : AppConfig F32) (passphrase : String) (out : Files B × Result Vault)
      → file ≡ done config
      → IsValid single config
      → IsAuthorized cli before passphrase
      → IsKept c laws before out.0
      → IsOpened c laws before passphrase out
      → IsStarted cli file before (with_vault c fl lib client config out)
  with_vault-IsStarted cli file client before config passphrase (after, err e) f valid a k o = k
  with_vault-IsStarted cli file (err e) before config passphrase (after, ok vault) f valid a k o = k
  with_vault-IsStarted cli file (ok u) before config passphrase (after, ok vault) f valid a k
        (same, (m, h)) =
      let (mailer, made) = mailer_for_total after vault m config.alerts.smtp h in
      rw made (
        k,
        f,
        record {
          valid = valid;
          authorized = subst (IsAuthorized cli before) (sym same) a;
          readable = (m, h);
          rested = cooldown_bound config.alerts.cooldown_secs;
          controlled = sequential-IsUsable fl config.alerts.sequential;
        },
      )

  load-done :
      (file : Attempt (AppConfig F32)) (config : AppConfig F32)
      → load single file ≡ ok config
      → file ≡ done config
  load-done (failed e) config h = absurd (cc)
  load-done (done x) config h = let (u, e₁, e₂) = >>=-eq-ok (validate single x) _ h in cc e₂

  passphrase-IsAuthorized :
      (given : Option String) (path passphrase : String) (exists' : Bool)
      → passphrase_for given path exists' ≡ ok passphrase
      → (given ≡ some passphrase) ⊎ ((given ≡ none) × (exists' ≡ false))
  passphrase-IsAuthorized (some s) path passphrase e h = inl (cc)
  passphrase-IsAuthorized none path passphrase true h = absurd (cc)
  passphrase-IsAuthorized none path passphrase false h = inr (refl, refl)

  -- A start never changes a vault file that is there. One that succeeds runs on the valid
  -- configuration of the file and on a vault that it can read, which it opened with the given
  -- passphrase, or created where no passphrase was given; its alert engine has a cooldown that is
  -- not negative, and a sequential control only with a positive window and a positive budget.
  pub main-IsStarted :
      (cli : Cli) (file : Attempt (AppConfig F32)) (opened client : Result (Unit {0}))
      (faults : DiskFaults B) (files : Files B)
      → IsStarted cli file files (main c fl lib cli file opened client faults files)
  unfolding main
  main-IsStarted cli file opened client faults files =
      elim (Result-cases (prepared c fl lib cli opened files (load single file))) [
        | inr (e, h) ↦ rw h (inr refl)
        | inl ((config, passphrase), h) ↦
            let (config', e₁, h₁) = >>=-eq-ok (load single file) _ h in
            let (u, e₂, h₂) = >>=-eq-ok (validate single config') _ h₁ in
            let (v, e₃, h₃) = >>=-eq-ok opened _ h₂ in
            let (p, e₄, h₄) =
              >>=-eq-ok
                (passphrase_for cli.vault_passphrase config'.vault_path (is_some files.vault)) _
                h₃ in
            let same : ◌≡◌ {A = AppConfig F32 × String} (config', p) (config, passphrase) = cc h₄ in
            let valid = (validate_accepts_iff single config').0 e₂ in
            let authorized =
              passphrase-IsAuthorized cli.vault_passphrase config'.vault_path p
                (is_some files.vault) e₄ in
            rw h (
              subst
                (λ pair.
                  IsStarted cli file files (start_prepared c fl lib client faults files (ok pair)))
                same
                (with_vault-IsStarted cli file client files config' p
                  (open_or_create c faults files p) (load-done file config' e₁) valid authorized
                  (open_or_create-IsKept c laws faults files p)
                  (open_or_create-IsOpened c laws faults files p)))
      ]
