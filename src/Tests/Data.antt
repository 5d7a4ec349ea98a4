-- ===== src/Tests/Data.antt =====
-- The data of the tests, over the fixed-point numbers with six decimals.
use text.Mathlib.Text.{◌==◌ as str_eq}
use modelsentry.Alert.{AlertEngine, SequentialControl}
use modelsentry.Alert.Address.{v4}
use modelsentry.Alert.Target.{Network}
use modelsentry.Base.{
  ℕ, true, false, ◌+◌, if◌then◌else◌, List, [], ◌∷◌, none, some, String, map, ◌==◌,
}
use modelsentry.Base.Int.{ℤ, pos, ◌+ℤ◌}
use modelsentry.Common.Models.{
  Uuid, DriftReport, AlertRule, AlertEvent, webhook, email, high, BaselineSnapshot, ProbeRun,
  success, Probe, ProviderSpec, every_minutes,
}
use modelsentry.Common.Error.{ModelSentryError, ok, err}
use modelsentry.Runner.{Calls}
use modelsentry.Scheduler.{Cron}
use modelsentry.Job.{Tables}
use modelsentry.Common.Time.{hours, minutes}
use modelsentry.Drift.Assessment.{AssessmentConfig}
use modelsentry.Drift.Kernel.{energy}
use modelsentry.Drift.Interpret.{Sentence}

abbrev pub origin : List ℤ
origin = pos 0 ∷ pos 0 ∷ []

abbrev pub east : List ℤ
east = pos 1000000 ∷ pos 0 ∷ []

abbrev pub north : List ℤ
north = pos 0 ∷ pos 1000000 ∷ []

abbrev pub far : List ℤ
far = pos 3000000 ∷ pos 4000000 ∷ []

-- A rate of one half, which two permutations resolve.
abbrev pub config : AssessmentConfig ℤ
config = record { target_fpr = pos 500000; kernel = energy; n_permutations = 2; seed = 42 }

abbrev pub clouds : List (List (List ℤ))
clouds = (origin ∷ east ∷ north ∷ []) ∷ (east ∷ north ∷ []) ∷ []

abbrev pub run_embeddings : List (List (List ℤ))
run_embeddings = (far ∷ far ∷ []) ∷ (far ∷ []) ∷ []

abbrev pub baseline : BaselineSnapshot ℤ
baseline = record {
  id = 11;
  probe_id = 1;
  captured_at = hours 1;
  schema_version = 2;
  embedding_model = "embed-small";
  model_version = some "m-1";
  prompt_clouds = clouds;
  n_runs = 3;
  run_id = 20;
}

abbrev pub probe_run : ProbeRun ℤ
probe_run = record {
  id = 21;
  probe_id = 1;
  started_at = hours 2;
  finished_at = hours 2;
  embeddings = run_embeddings;
  completions = "pong" ∷ "ping" ∷ [];
  model_version = some "m-2";
  drift_report = none;
  status = success;
}

abbrev pub render : List (Sentence ℤ) → String
render sentences = "drift"

abbrev pub flat_run : ProbeRun ℤ
flat_run = record probe_run { embeddings = ((pos 1 ∷ []) ∷ []) ∷ [] }

abbrev pub report : DriftReport ℤ
report = record {
  run_id = 21;
  baseline_id = 11;
  combined_p_value = pos 1000;
  statistic = pos 3000000;
  effect_size = pos 2000000;
  target_fpr = pos 50000;
  method = "per_prompt_conformal";
  per_prompt = [];
  drift_level = high;
  model_version_changed = true;
  interpretation = "drift";
  computed_at = hours 2;
}

abbrev pub rule : AlertRule ℤ
rule = record {
  id = 7;
  probe_id = 1;
  target_fpr = pos 50000;
  channels = webhook "https://hooks.example.com/x" ∷ email "ops@example.com" ∷ [];
  active = true;
}

-- A public host, the metadata address of a cloud, and names that do not resolve.
abbrev pub net : Network
net = record {
  parse_url = λ url.
      if str_eq url "https://hooks.example.com/x"
      then some (record { scheme = "https"; host = some "hooks.example.com"; port = some 443 })
      else if str_eq url "http://169.254.169.254/"
      then some (record { scheme = "http"; host = some "169.254.169.254"; port = some 80 })
      else none;
  lookup_host = λ host port.
      if str_eq host "hooks.example.com"
      then some (v4 93 184 216 34 ∷ [])
      else if str_eq host "169.254.169.254"
      then some (v4 169 254 169 254 ∷ [])
      else none;
}

abbrev pub control : SequentialControl ℤ
control = record { window = hours 24; alpha_budget = pos 120000 }

abbrev pub engine : AlertEngine ℤ
engine = record {
  allow_private_targets = false;
  cooldown = hours 1;
  has_mailer = true;
  sequential = some control;
}

-- Identifiers in sequence, from 100 on.
abbrev pub fresh : ℕ → Uuid
fresh n = 100 + n

abbrev pub old_event : AlertEvent ℤ
old_event = record {
  id = 90;
  rule_id = 7;
  drift_report = report;
  fired_at = hours 1;
  acknowledged = false;
}

abbrev pub probe : Probe
probe = record {
  id = 1;
  name = "greeting";
  provider = ProviderSpec.open_ai "m-1";
  prompts =
      record { id = 31; text = "ping"; expected_contains = none; expected_not_contains = none }
      ∷ record { id = 32; text = "mute"; expected_contains = none; expected_not_contains = none }
      ∷ [];
  schedule = every_minutes 30;
  created_at = hours 0;
  updated_at = hours 1;
}

-- The first prompt is answered from the second request on; the second is refused.
abbrev pub calls : Calls ℤ
calls = record {
  permit = λ i. ok tt;
  complete = λ i k text.
      if str_eq text "ping"
      then (if k == 0
          then err ModelSentryError.empty_embedding
          else ok (record { text = "pong"; model_version = some "m-1" }))
      else err ModelSentryError.empty_embedding;
  embed = λ i answers. ok (map (λ a. record { values = far }) answers);
}

-- A library that knows one expression, with a firing five minutes later.
abbrev pub cron_library : Cron ℕ
cron_library = record {
  from_str = λ s. if str_eq s "0 */5 * * * *" then some 5 else none;
  next_after = λ n from. some (from +ℤ minutes 5);
}

abbrev pub tables : Tables ℤ ℤ
tables = record {
  alerts = record {
    rules = (7, rule) ∷ [];
    events = (90, old_event) ∷ [];
    last_fired = (7, hours 1) ∷ [];
  };
  spends = [];
  runs = [];
}
