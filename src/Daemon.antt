-- ===== src/Daemon.antt =====
-- The start of the daemon (crates/daemon/src/main.rs), up to the running scheduler and server: the
-- parts it makes from the configuration and the vault. Reading and decoding the file of the
-- configuration is the library's, and so is the opening of the database; logging is left out.
pub mod Parts
pub mod Started
use modelsentry.Common.Error.{◌>>=◌, ◌>>◌, ok, err, Result, ModelSentryError, says}
use modelsentry.Config.{AppConfig, AlertsConfig, SmtpConfig, SequentialConfig, validate}
use modelsentry.Alert
use modelsentry.Vault
use modelsentry.Vault.{Vault, Codec, DiskFaults, Files}
use modelsentry.Base.{
  true, false, none, some, Option, ℕ, String, Bool, if◌then◌else◌, leb, ◌&&◌, [], ◌∷◌,
}
use modelsentry.Float.{FloatOps, Floats}
use modelsentry.Drift.Assessment.{AssessmentConfig}
use modelsentry.Provider.{failed, Attempt, config_error, done}
use modelsentry.Common.Time.{Duration, seconds}
use modelsentry.Alert.{SequentialControl, AlertEngine}
use modelsentry.Drift.Kernel.{rbf_median}
use modelsentry.Email.{EmailMailer, MailLibrary, from_config}
use modelsentry.Base.Int.{pos, ltb_ℤ}
use modelsentry.Base.Table.{is_some}
use modelsentry.Scheduler.Fleet.{permits_for}
use modelsentry.Base.Text.{concat}

pub record Cli : Type 0 where
  pub vault_passphrase : Option String

-- `AppConfig::load`
abbrev pub load : {F : Type 0} → FloatOps F → Attempt (AppConfig F) → Result (AppConfig F)
load o (failed e) = err (config_error e)
load o (done config) = do validate o config; ok config

-- The largest number of seconds that the time library represents.
abbrev pub max_seconds : ℕ
max_seconds = 9_223_372_036_854_775

-- `Duration::try_seconds`, for a count that is not negative; a larger one than the signed 64-bit
-- integers hold is cut to their greatest, which is out of range too.
abbrev pub try_seconds : ℕ → Option Duration
try_seconds n = if leb n max_seconds then some (seconds n) else none

abbrev pub or_zero : Option Duration → Duration
or_zero none = pos 0
or_zero (some d) = d

abbrev pub alert_cooldown : ℕ → Duration
alert_cooldown secs = or_zero (try_seconds secs)

-- An existing vault is not opened without a passphrase; the error of `bail` is the variant `internal`.
abbrev pub passphrase_for : Option String → String → Bool → Result String
passphrase_for (some s) path exists' = ok s
passphrase_for none path true = err (
    ModelSentryError.internal (
      says (
        concat (
          "Vault file exists at " ∷ path
          ∷ " but MODELSENTRY_VAULT_PASSPHRASE is not set. Set the environment variable or pass --vault-passphrase."
          ∷ []))))
passphrase_for none path false = ok ""

module _ {B : Type 0} (c : Codec B) where
  abbrev pub created : String → Files B × Result (Unit {0}) → Files B × Result Vault
  created passphrase (files, err e) = (files, err e)
  created passphrase (files, ok u) = (files, ok (record { passphrase = passphrase }))

  unfoldable pub open_or_create : DiskFaults B → Files B → String → Files B × Result Vault
  open_or_create faults files passphrase =
      if is_some files.vault
      then (files, Vault.open_vault c files passphrase)
      else created passphrase (Vault.create c faults files passphrase)

module _ {F32 F64 : Type 0} (fl : Floats F32 F64) where
  open fl use {single, double, widen}

  abbrev pub control_for : F32 → Option Duration → Option (SequentialControl F64)
  control_for alpha_budget none = none
  control_for alpha_budget (some window) =
      if single.lt (single.of_nat 0) alpha_budget && ltb_ℤ (pos 0) window
      then some (record { window = window; alpha_budget = widen alpha_budget })
      else none

  abbrev pub sequential_for : Option (SequentialConfig F32) → Option (SequentialControl F64)
  sequential_for none = none
  sequential_for (some seq) = control_for seq.alpha_budget (try_seconds seq.window_secs)

  abbrev pub assessment_config : AlertsConfig F32 → AssessmentConfig F32
  assessment_config alerts = record {
    target_fpr = alerts.target_fpr;
    kernel = rbf_median fl;
    n_permutations = alerts.permutations;
    seed = 0;
  }

  abbrev pub engine_for : AlertsConfig F32 → Bool → AlertEngine F64
  engine_for alerts has_mailer =
      Alert.with_mailer fl
        (Alert.with_sequential fl
          (Alert.with_cooldown fl
            (Alert.with_allow_private_targets fl (Alert.new fl)
              alerts.allow_private_webhook_targets)
            (alert_cooldown alerts.cooldown_secs))
          (sequential_for alerts.sequential))
        has_mailer

-- A mailer that cannot be built only disables the channel.
abbrev pub or_no_mailer : {M : Type 0} → Result (EmailMailer M) → Option (EmailMailer M)
or_no_mailer (err e) = none
or_no_mailer (ok mailer) = some mailer

-- The parts of the running daemon.
pub record Daemon (F32 F64 M : Type 0) : Type 0 where
  pub config : AppConfig F32
  pub vault : Vault
  pub assessment : AssessmentConfig F32
  pub mailer : Option (EmailMailer M)
  pub alert_engine : AlertEngine F64
  pub samples_per_prompt : ℕ
  pub permits : ℕ

module _ {B : Type 0} (c : Codec B) {F32 F64 : Type 0} (fl : Floats F32 F64) {M N : Type 0}
    (lib : MailLibrary M N) where
  open fl use {single}

  abbrev pub mailer_for : Files B → Vault → Option SmtpConfig → Result (Option (EmailMailer M))
  mailer_for files vault none = ok none
  mailer_for files vault (some smtp) = do
    password ← Vault.get_key c vault files "smtp"
    ok (or_no_mailer (from_config lib smtp password))

  abbrev pub assembled : AppConfig F32 → Vault → Option (EmailMailer M) → Daemon F32 F64 M
  assembled config vault mailer = record {
    config = config;
    vault = vault;
    assessment = assessment_config fl config.alerts;
    mailer = mailer;
    alert_engine = engine_for fl config.alerts (is_some mailer);
    samples_per_prompt = config.alerts.samples_per_prompt;
    permits = permits_for config.scheduler.max_concurrent_runs;
  }

  -- `client` is what the building of the HTTP client returns.
  abbrev pub with_vault :
      Result (Unit {0})
      → AppConfig F32
      → Files B × Result Vault
      → Files B × Result (Daemon F32 F64 M)
  with_vault client config (files, err e) = (files, err e)
  with_vault client config (files, ok vault) = (
    files,
    do
      client
      mailer ← mailer_for files vault config.alerts.smtp
      ok (assembled config vault mailer),
  )

  -- The passphrase, once the configuration is valid and the store is open.
  abbrev pub prepared :
      Cli → Result (Unit {0}) → Files B → Result (AppConfig F32) → Result (AppConfig F32 × String)
  prepared cli opened files loaded = do
    config ← loaded
    validate single config
    opened
    passphrase ← passphrase_for cli.vault_passphrase config.vault_path (is_some files.vault)
    ok (config, passphrase)

  abbrev pub start_prepared :
      Result (Unit {0})
      → DiskFaults B
      → Files B
      → Result (AppConfig F32 × String)
      → Files B × Result (Daemon F32 F64 M)
  start_prepared client faults files (err e) = (files, err e)
  start_prepared client faults files (ok (config, passphrase)) =
      with_vault client config (open_or_create c faults files passphrase)

  -- `opened` is what the creation of the directories and the opening of the store return.
  unfoldable pub main :
      Cli
      → Attempt (AppConfig F32)
      → Result (Unit {0})
      → Result (Unit {0})
      → DiskFaults B
      → Files B
      → Files B × Result (Daemon F32 F64 M)
  main cli file opened client faults files =
      start_prepared client faults files (prepared cli opened files (load single file))
